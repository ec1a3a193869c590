-- ===== src/Vme/History.antt =====
-- Sequences of calls of `map` of abstract-machine/am/src/x86/qemu/vme.c on one address space.
use mathlib.Core.Path.{subst}
use native.Mathlib.Decide.{ℕ_discrete}
use nju_os_lab.Prelude.{
  ℕ, ◌≡◌, ◌≢◌, Option, none, some, List, [], ◌∷◌, ◌++◌, ◌+◌, ◌<◌, ◌≤◌, refl, sym, ap, ◌∙◌, arith,
  ◌==◌, if◌then◌else◌,
}
use nju_os_lab.Vme.{Machine, Paging, done, panic, no_page, pgsize, ◌>>=◌, map, mmap_none}
use nju_os_lab.Vme.Entries.{page_of}
use nju_os_lab.Vme.Translate.{IsUserPage, IsAllocator, Names, IsTree, translate, missing}
use nju_os_lab.Vme.Mapping.{
  IsPagePair, Mapping, no_table, again, mapped, Unmapping, table_missing, nothing, unmapped,
  map-Mapping, map-Unmapping,
}

-- The arguments of a call.
pub record Call : Type 0 where
  pub va : ℕ
  pub pa : ℕ
  pub prot : ℕ

pub run_maps : (pgalloc : ℕ → ℕ → ℕ) → (root : ℕ) → List Call → Machine → Paging (Unit {0})
run_maps pgalloc root [] s = done tt s
run_maps pgalloc root (c ∷ cs) s =
    map pgalloc root c.va c.pa c.prot s >>= λ _ s. run_maps pgalloc root cs s

-- An abstract address space: the physical page of each page.
abbrev pub Space : Type 0
Space = ℕ → Option ℕ

abbrev pub change : Call → Space → Space
change c f page =
    if page == page_of c.va then (if c.prot == mmap_none then none else some c.pa) else f page

-- The space after the calls.
abbrev pub changes : List Call → Space → Space
changes [] f = f
changes (c ∷ cs) f = changes cs (change c f)

-- A page is mapped where nothing is, and taken away where something is.
abbrev pub Allowed : Call → Space → Type 0
Allowed c f =
    ((c.prot ≢ mmap_none) → f (page_of c.va) ≡ none)
    × ((c.prot ≡ mmap_none) → f (page_of c.va) ≢ none)

pub data AllAllowed : List Call → Space → Type 0 where
  nil : {f : Space} → AllAllowed [] f
  cons :
      {c : Call} {cs : List Call} {f : Space}
      → IsPagePair c.va c.pa
      → Allowed c f
      → AllAllowed cs (change c f)
      → AllAllowed (c ∷ cs) f

-- The tables in `s` translate as the space does.
abbrev pub Shows : (root : ℕ) → Machine → Space → Type 0
Shows root s f = (page : ℕ) → IsUserPage page → translate root page s.memory ≡ f page

-- How one call ends.
data Changed (pgalloc : ℕ → ℕ → ℕ) (root : ℕ) (c : Call) (s : Machine) (f : Space)
    : Paging (Unit {0}) → Type 0 where
  refused :
      (n : ℕ)
      → s.calls ≤ n
      → n < s.calls + missing 4 root (page_of c.va) s.memory
      → pgalloc n pgsize ≡ 0
      → Changed pgalloc root c s f (panic no_page)
  changed :
      (s' : Machine) (names' : Names)
      → IsTree pgalloc root names' s'
      → Shows root s' (change c f)
      → Changed pgalloc root c s f (done tt s')

-- How calls end. `out_of_pages` says which call panics: those in front of it have returned, and one of the
-- answers that `pgalloc` gives for the tables which are missing for its page is `NULL`.
pub data Ran (pgalloc : ℕ → ℕ → ℕ) (root : ℕ) (cs : List Call) (s : Machine) (f : Space)
    : Paging (Unit {0}) → Type 0 where
  out_of_pages :
      (front back : List Call) (c : Call) (s1 : Machine) (n : ℕ)
      → cs ≡ front ++ c ∷ back
      → run_maps pgalloc root front s ≡ done tt s1
      → s1.calls ≤ n
      → n < s1.calls + missing 4 root (page_of c.va) s1.memory
      → pgalloc n pgsize ≡ 0
      → Ran pgalloc root cs s f (panic no_page)
  ran :
      (s' : Machine) (names' : Names)
      → IsTree pgalloc root names' s'
      → Shows root s' f
      → Ran pgalloc root cs s f (done tt s')

none-some : {a : ℕ} → none ≢ some a
none-some e = cc

module _ (pgalloc : ℕ → ℕ → ℕ) (root : ℕ) where
  Mapping-Changed :
      (c : Call) (names : Names) (s : Machine) (f : Space) {r : Paging (Unit {0})}
      → Shows root s f
      → IsUserPage (page_of c.va)
      → c.prot ≢ mmap_none
      → f (page_of c.va) ≡ none
      → Mapping pgalloc root (page_of c.va) c.pa names s r
      → Changed pgalloc root c s f r
  Mapping-Changed c names s f sh u ne e (no_table n le lt z) = refused n le lt z
  Mapping-Changed c names s f sh u ne e (again frame e') =
      absurd (none-some (sym e ∙ sym (sh (page_of c.va) u) ∙ e'))
  Mapping-Changed c names s f sh u ne e (mapped s' names' e' t at others m) =
      changed s' names' t (λ page u'. elim (ℕ_discrete page (page_of c.va)) [
        | yes same ↦ ap (λ p. translate root p s'.memory) same ∙ at ∙ sym (written page same)
        | no other ↦ others page u' other ∙ sh page u' ∙ sym (kept page other)
      ])
    where
      written : (page : ℕ) → page ≡ page_of c.va → change c f page ≡ some c.pa
      written page same = ground arith

      kept : (page : ℕ) → page ≢ page_of c.va → change c f page ≡ f page
      kept page other = ground arith

  Unmapping-Changed :
      (c : Call) (names : Names) (s : Machine) (f : Space) {r : Paging (Unit {0})}
      → Shows root s f
      → IsUserPage (page_of c.va)
      → c.prot ≡ mmap_none
      → f (page_of c.va) ≢ none
      → Unmapping pgalloc root (page_of c.va) names s r
      → Changed pgalloc root c s f r
  Unmapping-Changed c names s f sh u z e (table_missing n le lt z') = refused n le lt z'
  Unmapping-Changed c names s f sh u z e (nothing e') = absurd (e (sym (sh (page_of c.va) u) ∙ e'))
  Unmapping-Changed c names s f sh u z e (unmapped frame s' names' e' t at others m) =
      changed s' names' t (λ page u'. elim (ℕ_discrete page (page_of c.va)) [
        | yes same ↦ ap (λ p. translate root p s'.memory) same ∙ at ∙ sym (written page same)
        | no other ↦ others page u' other ∙ sh page u' ∙ sym (kept page other)
      ])
    where
      written : (page : ℕ) → page ≡ page_of c.va → change c f page ≡ none
      written page same = ground arith

      kept : (page : ℕ) → page ≢ page_of c.va → change c f page ≡ f page
      kept page other = ground arith

  -- One call.
  map-Changed :
      (c : Call) (names : Names) (s : Machine) (f : Space)
      → IsAllocator pgalloc
      → IsTree pgalloc root names s
      → IsPagePair c.va c.pa
      → Allowed c f
      → Shows root s f
      → Changed pgalloc root c s f (map pgalloc root c.va c.pa c.prot s)
  map-Changed c names s f al t p ok sh = elim (ℕ_discrete c.prot mmap_none) [
    | no ne ↦
        Mapping-Changed c names s f sh p.user ne (ok.0 ne)
          (map-Mapping pgalloc root c.va c.pa c.prot names s al t p ne)
    | yes z ↦ Unmapping-Changed c names s f sh p.user z (ok.1 z) (
        subst
          (λ prot.
            Unmapping pgalloc root (page_of c.va) names s (map pgalloc root c.va c.pa prot s))
          (sym z) (map-Unmapping pgalloc root c.va c.pa names s al t p))
  ]

  -- A call in front of calls.
  Ran-cons :
      {c : Call} {cs : List Call} {s s' : Machine} {g : Space} {r : Paging (Unit {0})}
      → map pgalloc root c.va c.pa c.prot s ≡ done tt s'
      → Ran pgalloc root cs s' g r
      → Ran pgalloc root (c ∷ cs) s g r
  unfolding run_maps
  Ran-cons {c} e (out_of_pages front back c' s1 n split runs le lt z) =
      out_of_pages (c ∷ front) back c' s1 n (ap (λ l. c ∷ l) split)
        (ap (λ r. r >>= λ _ s. run_maps pgalloc root front s) e ∙ runs) le lt z
  Ran-cons e (ran s' names' t sh) = ran s' names' t sh

  -- The calls behind a call.
  Ran-bind :
      {f g : Space} {s : Machine} (c : Call) (cs : List Call) (r : Paging (Unit {0}))
      → map pgalloc root c.va c.pa c.prot s ≡ r
      → Changed pgalloc root c s f r
      → ((names : Names) (s' : Machine)
          → IsTree pgalloc root names s'
          → Shows root s' (change c f)
          → Ran pgalloc root cs s' g (run_maps pgalloc root cs s'))
      → Ran pgalloc root (c ∷ cs) s g (r >>= λ _ s. run_maps pgalloc root cs s)
  unfolding run_maps
  Ran-bind {s} c cs _ e (refused n le lt z) rest = out_of_pages [] cs c s n refl refl le lt z
  Ran-bind c cs _ e (changed s' names' t sh) rest = Ran-cons e (rest names' s' t sh)

-- Any sequence of calls of `map`, each of which maps a page that is not mapped or takes away one that is, in
-- an address space whose tables are a tree, where `pgalloc` answers with whole pages and with none
-- twice: the tables then translate every page of user space as the calls say one after another. Or
-- one of the calls panics, those in front of it having returned, because `pgalloc` answers `NULL` for
-- one of the tables that are missing for its page.
pub run_maps-Ran :
    (pgalloc : ℕ → ℕ → ℕ) (root : ℕ) (cs : List Call) (names : Names) (s : Machine) (f : Space)
    → IsAllocator pgalloc
    → IsTree pgalloc root names s
    → Shows root s f
    → AllAllowed cs f
    → Ran pgalloc root cs s (changes cs f) (run_maps pgalloc root cs s)
unfolding run_maps
run_maps-Ran pgalloc root [] names s f al t sh nil = ran s names t sh
run_maps-Ran pgalloc root (c ∷ cs) names s f al t sh (cons p ok oks) =
    Ran-bind pgalloc root c cs (map pgalloc root c.va c.pa c.prot s) refl
      (map-Changed pgalloc root c names s f al t p ok sh)
      (λ names' s' t' sh'. run_maps-Ran pgalloc root cs names' s' (change c f) al t' sh' oks)
