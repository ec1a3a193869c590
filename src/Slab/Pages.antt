-- ===== src/Slab/Pages.antt =====
-- `slab_init` of kernel/src/slab.c on the page allocator of kernel/src/page.c.
use native.Mathlib.Decide.{ℕ_discrete}
use mathlib.Core.Path.{subst}
use nju_os_lab.Prelude.{
  ℕ, ◌+◌, ◌*◌, ◌%◌, ◌^◌, ◌≡◌, ◌≢◌, inl, inr, sym, refl, true, false, not, Option, none, some, List,
  All, All-map, arith, ◌==◌, update, if◌then◌else◌,
}
use nju_os_lab.Common.{null}
use nju_os_lab.Buddy.{PageSystem, trans_page_size}
use nju_os_lab.Buddy.Alloc.{page_alloc}
use nju_os_lab.Buddy.Tree.{Tree}
use nju_os_lab.Buddy.Blocks.{Apart, blocks, Taken-Inside, Taken-All}
use nju_os_lab.Buddy.Valid.{unit_addr, IsValid, SameLayout, Granted}
use nju_os_lab.Buddy.Grant.{Fresh, Exhausted, Outcome, refused, granted, page_alloc-Outcome}
use nju_os_lab.Slab.{Slabs, Result, done, slab_space, format_slab, slab_init}
use nju_os_lab.Slab.Valid.{IsPage}

-- The page at `c` is allocated: a page that overlaps no allocated block is another one.
abbrev pub Reserved : PageSystem → (ℕ → Tree) → ℕ → Type 0
Reserved s trees c = (addr : ℕ) → Fresh s trees (addr, 12) → addr ≢ c

module _ {s s' : PageSystem} (k : SameLayout s s') where
  -- Blocks of unit `m` stand at the same addresses.
  at_unit :
      (b : ℕ × ℕ) (m : ℕ) (l : List (ℕ × ℕ))
      → All (λ a. Apart b (unit_addr s' m + a.0, a.1)) l
      → All (λ a. Apart b (unit_addr s m + a.0, a.1)) l
  at_unit b m l =
      All-map (λ a. Apart b (unit_addr s' m + a.0, a.1)) (λ a. Apart b (unit_addr s m + a.0, a.1)) l
        (λ a h. subst (λ u. Apart b (u + m * 2 ^ 24 + a.0, a.1)) k.same_alloc h)

  Fresh-layout : (trees : ℕ → Tree) (b : ℕ × ℕ) → Fresh s' trees b → Fresh s trees b
  Fresh-layout trees b f m lm =
      at_unit b m (blocks 12 0 (trees m)) (f m (omega (arith, k.same_num)))

module _ {s : PageSystem} {trees : ℕ → Tree} {addr : ℕ} {s' : PageSystem} (v : IsValid s trees)
    (g : Granted 12 s trees addr s') where
  Granted-IsPage : IsPage addr
  Granted-IsPage = record {
    there = omega (arith, g.address, v);
    aligned = g.aligned;
    fits = omega (arith, g.address, Taken-Inside g.taken, v.no_wrap, g.in_range);
  }

  -- A block that is fresh after the grant was fresh before, and is apart from the granted page.
  Fresh-before :
      (b : ℕ × ℕ) → Fresh s' (update trees g.number g.tree) b → Apart b (addr, 12) × Fresh s trees b
  Fresh-before b f =
      let same : update trees g.number g.tree g.number ≡ g.tree =
        let eq : (g.number == g.number) ≡ true = ground arith in rw eq in
      let (apart, rest) =
        Taken-All (λ a. Apart b (unit_addr s g.number + a.0, a.1)) g.taken
          (subst (λ t. All (λ a. Apart b (unit_addr s g.number + a.0, a.1)) (blocks 12 0 t)) same
            (Fresh-layout g.layout (update trees g.number g.tree) b f g.number g.in_range)) in
      (
        subst (λ x. Apart b (x, 12)) (sym g.address) apart,
        λ m lm. elim (ℕ_discrete g.number m) [
          | yes e ↦
              subst (λ k. All (λ a. Apart b (unit_addr s k + a.0, a.1)) (blocks 12 0 (trees k))) e
                rest
          | no ne ↦
              let other : update trees g.number g.tree m ≡ trees m =
                let eq : (g.number == m) ≡ false = ground arith in rw eq in
              subst (λ t. All (λ a. Apart b (unit_addr s m + a.0, a.1)) (blocks 12 0 t)) other
                (Fresh-layout g.layout (update trees g.number g.tree) b f m lm)
        ],
      )

  Granted-Reserved : Reserved s' (update trees g.number g.tree) addr
  Granted-Reserved x f = elim ((Fresh-before (x, 12) f).0) [
    | inl lt ↦ omega arith
    | inr lt ↦ omega arith
  ]

  still-Reserved : (c : ℕ) → Reserved s trees c → Reserved s' (update trees g.number g.tree) c
  still-Reserved c h x f = h x (Fresh-before (x, 12) f).1

-- What `slab_init` comes to: no page, or a new slab on a page that no allocated block overlaps.
pub data Init (cpu size : ℕ) (s : Slabs) (trees : ℕ → Tree) : Result ℕ → Type 0 where
  no_page :
      {pages : PageSystem}
      → Exhausted slab_space s.pages
      → IsValid pages trees
      → ((c : ℕ) → Reserved s.pages trees c → Reserved pages trees c)
      → Init cpu size s trees (done null (record s { pages = pages }))
  new_slab :
      {a : ℕ} {pages : PageSystem} (trees' : ℕ → Tree)
      → IsPage a
      → ¬ Exhausted slab_space s.pages
      → IsValid pages trees'
      → Fresh s.pages trees (a, 12)
      → Reserved pages trees' a
      → ((c : ℕ) → Reserved s.pages trees c → Reserved pages trees' c)
      → Init cpu size s trees (done a (format_slab cpu size a (record s { pages = pages })))

page_class : trans_page_size slab_space ≡ 12
unfolding trans_page_size
page_class = refl

module _ (cpu size : ℕ) (s : Slabs) (trees : ℕ → Tree) (v : IsValid s.pages trees) where
  from-Outcome :
      (r : Option (ℕ × PageSystem))
      → Outcome slab_space s.pages trees r
      → Init cpu size s trees (elim r [
        | none ↦ Result.stuck
        | some (addr, pages) ↦
            let s' = record s { pages = pages } in
            if addr == null
            then done null s'
            else if not (addr % 2 ^ 12 == 0)
            then done null s'
            else done addr (format_slab cpu size addr s')
      ])
  from-Outcome r (refused {s'} no_room valid layout nodes) =
      no_page no_room valid (λ c h x f. h x (Fresh-layout layout trees (x, 12) f))
  from-Outcome r (granted {addr} {s'} ne room fits grant fresh) =
      let g : Granted 12 s.pages trees addr s' =
        subst (λ k. Granted k s.pages trees addr s') page_class grant in
      let page = Granted-IsPage v g in
      let a : (addr == null) ≡ false = ground arith in
      let b : (addr % 2 ^ 12 == 0) ≡ true = ground (arith, page.aligned) in
      rw (a, b)
        (new_slab (update trees g.number g.tree) page room g.valid
          (subst (λ k. Fresh s.pages trees (addr, k)) page_class fresh) (Granted-Reserved v g)
          (still-Reserved v g))

  pub slab_init-Init : Init cpu size s trees (slab_init cpu size s)
  unfolding slab_init
  slab_init-Init = from-Outcome (page_alloc slab_space s.pages) (page_alloc-Outcome v slab_space)
