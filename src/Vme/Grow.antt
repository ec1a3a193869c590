-- ===== src/Vme/Grow.antt =====
-- `next_page` of abstract-machine/am/src/x86/qemu/vme.c where a table is missing: the new table is cleared,
-- and the tree and the translation stay.
use native.Mathlib.Decide.{ℕ_discrete}
use mathlib.Core.Path.{subst}
use nju_os_lab.Prelude.{
  ℕ, suc, ◌+◌, ◌-◌, ◌*◌, ◌/◌, ◌%◌, ◌^◌, ◌≤◌, ◌<◌, ◌≡◌, ◌≢◌, ◌⊎◌, inl, inr, Option, none, some,
  false, ◌&&◌, refl, sym, ap, ◌∙◌, arith, leb, ltb, ◌==◌, if◌then◌else◌,
}
use nju_os_lab.Vme.{Machine, pgsize, clear, write}
use nju_os_lab.Vme.Entries.{above, slot, base, clear-inside, clear-other, clear-lt}
use nju_os_lab.Vme.Translate.{
  IsUserPage, IsAllocator, Names, Named, IsTree, translate, frame_at, frame_at-absent,
  frame_at-step, translate-agree,
}

-- What later steps keep: the entries of the tree that are there, the ones of the last level, and the
-- translation of all user pages.
pub record Keeps (root : ℕ) (names : Names) (s : Machine) (names' : Names) (s' : Machine)
    : Type 0 where
  pub later_calls : s.calls ≤ s'.calls
  pub same_name : (c : ℕ) {x : ℕ × ℕ} → names c ≡ some x → names' c ≡ some x
  pub same_entry :
      (c : ℕ) {x : ℕ × ℕ} → names c ≡ some x → s.memory c % 2 ≡ 1 → s'.memory c ≡ s.memory c
  pub same_leaf : (c : ℕ) {k : ℕ} → names c ≡ some (0, k) → s'.memory c ≡ s.memory c
  pub same_translation :
      (page : ℕ) → IsUserPage page → translate root page s'.memory ≡ translate root page s.memory

-- The machine with a new table at `p`, linked at `cell`.
abbrev pub linked : (cell p : ℕ) → Machine → Machine
linked cell p s =
    write cell (p + 7) (record s { calls = suc s.calls; memory = clear 512 p s.memory })

-- The entries of the new table are named, behind an entry of the name `(suc left, q)`.
pub name_table : (p left q : ℕ) → Names → Names
name_table p left q names c =
    if leb p c && ltb c (p + 4096)
    then if (c - p) % 8 == 0 then some (left, q * 512 + (c - p) / 8) else none
    else names c

module _ (p left q : ℕ) (names : Names) where
  name_table-outside : (c : ℕ) → (c < p) ⊎ (p + 4096 ≤ c) → name_table p left q names c ≡ names c
  unfolding name_table
  name_table-outside c out = ground arith

  name_table-inside :
      (i : ℕ) → i < 512 → name_table p left q names (p + 8 * i) ≡ some (left, q * 512 + i)
  unfolding name_table
  name_table-inside i lt = ground arith

  name_table-named :
      (c : ℕ) {x : ℕ × ℕ}
      → name_table p left q names c ≡ some x
      → p ≤ c
      → c < p + 4096
      → (i : ℕ) × (i < 512) × (c ≡ p + 8 * i)
  unfolding name_table
  name_table-named c e le lt =
      let eighth : (c - p) % 8 ≡ 0 = ground arith in ((c - p) / 8, omega arith, omega arith)

in_page : (p c : ℕ) → ((p ≤ c) × (c < p + 4096)) ⊎ ((c < p) ⊎ (p + 4096 ≤ c))
in_page p c = ground arith

pub none-ne-some : {x : ℕ × ℕ} → none ≢ some x
none-ne-some e = cc

pub some-pair :
    {a b c d : ℕ} → ◌≡◌ {A = Option (ℕ × ℕ)} (some (a, b)) (some (c, d)) → (a ≡ c) × (b ≡ d)
some-pair e = (cc, cc)

pub pair-some : {a b c d : ℕ} → a ≡ c → b ≡ d → ◌≡◌ {A = Option (ℕ × ℕ)} (some (a, b)) (some (c, d))
pair-some e e' = cc

module _ {pgalloc : ℕ → ℕ → ℕ} {root : ℕ} {names : Names} {s : Machine} (al : IsAllocator pgalloc)
    (t : IsTree pgalloc root names s) (left page cell : ℕ)
    (named : Named names (suc left) page cell) (absent : s.memory cell % 2 ≡ 0)
    (granted : pgalloc s.calls pgsize ≢ 0) where
  p : ℕ
  p = pgalloc s.calls pgsize

  p_lem : p ≡ pgalloc s.calls pgsize
  unfolding p
  p_lem = refl

  names' : Names
  names' = name_table p left (above (suc left) page) names

  s' : Machine
  s' = linked cell p s

  named-outside : (c : ℕ) {x : ℕ × ℕ} → names c ≡ some x → (c < p) ⊎ (p + 4096 ≤ c)
  unfolding p
  named-outside c e = elim (in_page p c) [
    | inl i ↦ absurd (
        none-ne-some (
          sym (t.free s.calls (c - p) (omega arith) (omega (arith, i)))
          ∙ ap names (omega (arith, i))
          ∙ e))
    | inr out ↦ out
  ]

  at_cell : s'.memory cell ≡ p + 7
  unfolding s' p
  at_cell = ground arith

  in_table : (i : ℕ) → i < 512 → s'.memory (p + 8 * i) ≡ 0
  unfolding s' p
  in_table i lt =
      let other : (cell == p + 8 * i) ≡ false = ground (arith, named-outside cell named) in
      rw other (clear-inside 512 p s.memory i lt)

  elsewhere : (c : ℕ) {x : ℕ × ℕ} → names c ≡ some x → c ≢ cell → s'.memory c ≡ s.memory c
  unfolding s' p
  elsewhere c e ne =
      let other : (cell == c) ≡ false = ground arith in
      rw other (clear-other 512 p s.memory c (named-outside c e))

  base_table : base (p + 7) ≡ p
  unfolding p
  base_table = omega (arith, al.aligned s.calls)

  kept : (c : ℕ) {x : ℕ × ℕ} → names c ≡ some x → names' c ≡ some x
  unfolding names'
  kept c e = name_table-outside p left (above (suc left) page) names c (named-outside c e) ∙ e

  -- What the new entry leads to.
  new_table :
      (l page' : ℕ)
      → l ≡ left
      → above (suc l) page' ≡ above (suc left) page
      → Named names' l page' (base (s'.memory cell) + 8 * slot l page')
  unfolding names'
  new_table l page' el eq =
      let to : base (s'.memory cell) + 8 * slot l page' ≡ p + 8 * slot l page' =
        ap (λ w. base w + 8 * slot l page') at_cell ∙ ap (λ w. w + 8 * slot l page') base_table in
      let index : above (suc left) page * 512 + slot l page' ≡ above l page' = omega arith in
      ap names' to
      ∙ name_table-inside p left (above (suc left) page) names (slot l page') (omega arith)
      ∙ pair-some (sym el) index

  down' :
      (l page' c : ℕ)
      → IsUserPage page'
      → Named names' (suc l) page' c
      → s'.memory c % 2 ≡ 1
      → Named names' l page' (base (s'.memory c) + 8 * slot l page')
  unfolding names' p
  down' l page' c u e o = elim (in_page p c) [
    | inl i ↦
        let (k, lt, at) = name_table-named p left (above (suc left) page) names c e i.0 i.1 in
        absurd (omega (arith, o, ap s'.memory at, in_table k lt))
    | inr out ↦
        let e' = sym (name_table-outside p left (above (suc left) page) names c out) ∙ e in
        elim (ℕ_discrete c cell) [
          | yes same ↦
              let e'' = sym e' ∙ ap names same ∙ named in
              subst (λ w. Named names' l page' (base (s'.memory w) + 8 * slot l page')) (sym same)
                (new_table l page' (omega (arith, (some-pair e'').0)) (some-pair e'').1)
          | no ne ↦
              let e'' = elsewhere c e' ne in
              subst (λ w. Named names' l page' (base w + 8 * slot l page')) (sym e'')
                (kept (base (s.memory c) + 8 * slot l page')
                  (t.down l page' c u e' (omega (arith, o, e''))))
        ]
  ]

  free' : (n i : ℕ) → s'.calls ≤ n → i < 4096 → names' (pgalloc n pgsize + i) ≡ none
  unfolding names' s' p
  free' n i le lt =
      let differ : p ≢ pgalloc n pgsize =
        λ e. al.distinct s.calls n (omega arith) (λ z. granted (e ∙ z)) e in
      let outside : (pgalloc n pgsize + i < p) ⊎ (p + 4096 ≤ pgalloc n pgsize + i) =
        elim (in_page p (pgalloc n pgsize + i)) [
          | inl h ↦ absurd (differ (omega (arith, h, al.aligned s.calls, al.aligned n)))
          | inr h ↦ h
        ] in
      name_table-outside p left (above (suc left) page) names (pgalloc n pgsize + i) outside
      ∙ t.free n i (omega arith) lt

  words' : (a : ℕ) → s'.memory a < 2 ^ 64
  unfolding s' p
  words' a = ground (
    arith,
    al.aligned s.calls,
    al.word s.calls,
    clear-lt 512 p (2 ^ 64) s.memory a (omega arith) t.words,
  )

  not_cell : (c : ℕ) → s.memory c % 2 ≡ 1 → c ≢ cell
  not_cell c o e = omega (arith, absent, o, ap s.memory e)

  root_same : s'.memory root ≡ s.memory root
  root_same = elsewhere root t.rooted (not_cell root t.there)

  to_table : (i : ℕ) → base (s'.memory cell) + 8 * i ≡ p + 8 * i
  to_table i = ap (λ w. base w + 8 * i) at_cell ∙ ap (λ w. w + 8 * i) base_table

  nowhere : (l page' : ℕ) → l ≡ suc left → frame_at l cell page' s'.memory ≡ none
  nowhere l page' el =
      ap (λ x. frame_at x cell page' s'.memory) el
      ∙ frame_at-step left cell page' s'.memory (omega (arith, at_cell, al.aligned s.calls, p_lem))
      ∙ frame_at-absent left (base (s'.memory cell) + 8 * slot left page') page' s'.memory (
          omega (
            arith,
            ap s'.memory (to_table (slot left page')),
            in_table (slot left page') (omega arith),
          ))

  -- The tables do not lead further from the entry than before.
  agree :
      (page' l c : ℕ)
      → Named names l page' c
      → (s'.memory c ≡ s.memory c) ⊎ ((s.memory c % 2 ≡ 0) × (frame_at l c page' s'.memory ≡ none))
  agree page' l c e = elim (ℕ_discrete c cell) [
    | yes same ↦ inr (
      ap (λ a. s.memory a % 2) same ∙ absent,
      ap (λ a. frame_at l a page' s'.memory) same
          ∙ nowhere l page' (some-pair (sym e ∙ ap names same ∙ named)).0,
    )
    | no ne ↦ inl (elsewhere c e ne)
  ]

  later : s.calls ≤ s'.calls
  unfolding s'
  later = omega arith

  -- The tree with the new table is a tree.
  grown-IsTree : IsTree pgalloc root names' s'
  grown-IsTree = record {
    rooted = kept root t.rooted;
    there = omega (arith, root_same, t.there);
    down = down';
    free = free';
    words = words';
  }

  grown-Keeps : Keeps root names s names' s'
  grown-Keeps = record {
    later_calls = later;
    same_name = kept;
    same_entry = λ c e o. elsewhere c e (not_cell c o);
    same_leaf = λ c e.
        elsewhere c e
          (λ same. absurd (omega (arith, (some-pair (sym e ∙ ap names same ∙ named)).0)));
    same_translation = λ page' u. translate-agree t page' u s'.memory (agree page') root_same;
  }

  pub grown :
      (names' : Names) × IsTree pgalloc root names' (linked cell (pgalloc s.calls pgsize) s)
      × Keeps root names s names' (linked cell (pgalloc s.calls pgsize) s)
  unfolding s' p
  grown = (names', grown-IsTree, grown-Keeps)

  pub grown_cell :
      ((linked cell (pgalloc s.calls pgsize) s).memory cell % 2 ≡ 1)
      × (base ((linked cell (pgalloc s.calls pgsize) s).memory cell) ≡ pgalloc s.calls pgsize)
  unfolding s' p
  grown_cell = (omega (arith, at_cell, al.aligned s.calls), ap base at_cell ∙ base_table)

  pub grown_empty :
      (i : ℕ)
      → i < 512
      → (linked cell (pgalloc s.calls pgsize) s).memory
          (base ((linked cell (pgalloc s.calls pgsize) s).memory cell) + 8 * i)
        ≡ 0
  unfolding s' p
  grown_empty i lt = ap s'.memory (to_table i) ∙ in_table i lt
