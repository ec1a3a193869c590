-- ===== src/Buddy/Grant.antt =====
-- `page_alloc` of kernel/src/page.c: its outcomes, refusals included.
use native.Mathlib.Decide.{ℕ_discrete, dec_le}
use native.Mathlib.Nat.{pow-le-pow_right, le_trans}
use mathlib.Core.Path.{subst}
use nju_os_lab.Common.{null}
use nju_os_lab.Prelude.{
  All, All-map, ℕ, ◌+◌, ◌^◌, ◌≤◌, ◌<◌, ◌≡◌, ◌≢◌, ◌∙◌, refl, ◌⊎◌, inl, inr, false, Option, none,
  some, arith, ◌==◌, ltb, leb, ◌||◌, if◌then◌else◌,
}
use nju_os_lab.Buddy.{PageSystem, p_4k, p_16m, p_refuse, trans_page_size}
use nju_os_lab.Buddy.Alloc.{alloc_in, page_alloc}
use nju_os_lab.Buddy.Tree.{Tree}
use nju_os_lab.Buddy.Classes.{Fits, trans_page_size-Class, trans_page_size-Fits}
use nju_os_lab.Buddy.Blocks.{Apart, blocks, blocks-Inside, Taken-Inside, Taken-Apart}
use nju_os_lab.Buddy.Scan.{root_byte, Searched, missed, hit, find_page-Searched}
use nju_os_lab.Buddy.Valid.{unit_addr, IsValid, SameLayout, Granted, alloc_in-Granted}

-- The block at `addr` has no byte in common with any block that is allocated in `s`.
abbrev pub Fresh : PageSystem → (ℕ → Tree) → ℕ × ℕ → Type 0
Fresh s trees b =
    (m : ℕ)
    → m < s.real_page_num
    → All (λ a. Apart b (unit_addr s m + a.0, a.1)) (blocks 12 0 (trees m))

-- No unit can serve the request, or no class can.
abbrev pub Exhausted : ℕ → PageSystem → Type 0
Exhausted size s =
    (2 ^ 24 < size) ⊎ ((n : ℕ) → n < s.real_page_num → root_byte s n < trans_page_size size)

pub data Outcome (size : ℕ) (s : PageSystem) (trees : ℕ → Tree)
    : Option (ℕ × PageSystem) → Type 0 where
  refused :
      {s' : PageSystem}
      → Exhausted size s
      → IsValid s' trees
      → SameLayout s s'
      → s'.nodes ≡ s.nodes
      → Outcome size s trees (some (null, s'))
  granted :
      {addr : ℕ} {s' : PageSystem}
      → addr ≢ null
      → ¬ Exhausted size s
      → Fits p_4k size (trans_page_size size)
      → Granted (trans_page_size size) s trees addr s'
      → Fresh s trees (addr, trans_page_size size)
      → Outcome size s trees (some (addr, s'))

Fits-le : {low size r : ℕ} → Fits low size r → size ≤ 2 ^ 24
Fits-le {r} f = le_trans f.enough (pow-le-pow_right (omega arith) {i = r} {j = 24} f.most)

refused_class : (size : ℕ) → 2 ^ 24 < size → trans_page_size size ≡ p_refuse
refused_class size big = elim (trans_page_size-Class size) [
  | inl f ↦ absurd (omega (arith, Fits-le f))
  | inr (e, _) ↦ e
]

module _ {s : PageSystem} {trees : ℕ → Tree} (v : IsValid s trees) where
  locks-IsValid :
      (locks : ℕ → ℕ)
      → ((j : ℕ) → j < s.real_page_num → locks j ≡ 0)
      → IsValid (record s { page_locks = locks }) trees
  locks-IsValid locks h = record {
    not_null = v.not_null;
    aligned = v.aligned;
    first_unit = v.first_unit;
    few = v.few;
    no_wrap = v.no_wrap;
    pool = v.pool;
    unlocked = h;
    held = v.held;
  }

  keep_layout : (locks : ℕ → ℕ) → SameLayout s (record s { page_locks = locks })
  keep_layout locks = record { same_begin = refl; same_alloc = refl; same_num = refl }

  Granted-Fresh :
      {req addr : ℕ} {s' : PageSystem} → Granted req s trees addr s' → Fresh s trees (addr, req)
  Granted-Fresh {req} {addr} g m lm = elim (ℕ_discrete g.number m) [
    | yes e ↦
        subst (λ k. All (λ a. Apart (addr, req) (unit_addr s k + a.0, a.1)) (blocks 12 0 (trees k)))
          e
          (All-map _ _ (blocks 12 0 (trees g.number)) (λ b h. omega (arith, g.address, h))
            (Taken-Apart g.taken))
    | no ne ↦
        All-map _ _ (blocks 12 0 (trees m))
          (λ b h. omega (arith, g.address, Taken-Inside g.taken, h)) (blocks-Inside 12 0 (trees m))
  ]

  Granted-ne-null : {req addr : ℕ} {s' : PageSystem} → Granted req s trees addr s' → addr ≢ null
  Granted-ne-null g = omega (arith, g.address, v)

  search-Outcome :
      (size : ℕ) (r : Option (Option ℕ × (ℕ → ℕ)))
      → Fits p_4k size (trans_page_size size)
      → Searched s (trans_page_size size) 0 s.real_page_num s.page_locks r
      → Outcome size s trees (elim r [
        | none ↦ none
        | some (none, locks) ↦ some (null, record s { page_locks = locks })
        | some (some i, locks) ↦
            if leb s.real_page_num i
            then some (null, record s { page_locks = locks })
            else some (alloc_in s (trans_page_size size) i locks)
      ])
  search-Outcome size r fit (missed {locks'} all keep) =
      refused (inr (λ n lt. all n (omega arith) lt))
        (locks-IsValid locks' (λ j lt. keep j ∙ v.unlocked j lt)) (keep_layout locks') refl
  search-Outcome size r fit (hit {locks'} {m} lo hi fits first keep) =
      let g = alloc_in-Granted v (trans_page_size size) m locks' hi fit.least fit.most fits keep in
      let served : ¬ Exhausted size s = λ x. elim x [
        | inl big ↦ omega (arith, Fits-le fit, big)
        | inr all ↦ omega (arith, all m hi, fits)
      ] in
      let inside : leb s.real_page_num m ≡ false = ground arith in
      rw inside (granted (Granted-ne-null g) served fit g (Granted-Fresh g))

  -- `page_alloc` returns, with all locks free again and the invariant kept. It refuses a request,
  -- and changes no byte, exactly when the request is above 16 MiB or no unit's root allows its
  -- class. Otherwise it grants a block of the smallest class that holds the request, aligned to its
  -- size, that has no byte in common with any block allocated before.
  pub page_alloc-Outcome : (size : ℕ) → Outcome size s trees (page_alloc size s)
  unfolding page_alloc
  page_alloc-Outcome size = elim (dec_le size (2 ^ 24)) [
    | yes le ↦
        let fit = trans_page_size-Fits size le in
        let class : (trans_page_size size == p_refuse) ≡ false = ground (arith, fit) in
        let range : (ltb p_16m (trans_page_size size) || ltb (trans_page_size size) p_4k) ≡ false =
          ground (arith, fit) in
        rw (class, range)
          (search-Outcome size _ fit
            (find_page-Searched s s.real_page_num 0 s.real_page_num _ _ (omega arith) v.unlocked))
    | no gt ↦ rw (refused_class size (omega arith)) (
        refused (inl (omega arith)) v
          (record { same_begin = refl; same_alloc = refl; same_num = refl }) refl)
  ]
