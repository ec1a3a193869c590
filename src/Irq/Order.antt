-- ===== src/Irq/Order.antt =====
-- The order in which `on_irq` of kernel/src/os.c keeps the handlers.
use mathlib.Core.Path.{subst, sym}
use mathlib.Core.Logic.{◌≢◌}
use nju_os_lab.Prelude.{
  ℕ, ◌≤◌, ◌≡◌, refl, ap, inl, inr, true, false, List, [], ◌∷◌, ◌++◌, some, arith, Bool-cases,
  if◌then◌else◌, ◌==◌,
}
use nju_os_lab.Common.{null}
use nju_os_lab.Irq.{Irq, biased, int_lt, insert_behind, insert, Handler, on_irq}

module _ {S : Type 0} where
  -- The list is sorted by sequence number.
  pub data IsSorted : List (Irq S) → Type 0 where
    empty : IsSorted []
    one : (a : Irq S) → IsSorted (a ∷ [])
    more :
        {a b : Irq S} {rest : List (Irq S)}
        → biased a.seq ≤ biased b.seq
        → IsSorted (b ∷ rest)
        → IsSorted (a ∷ b ∷ rest)

  -- The handlers that stay in front of a new one: those with a sequence number up to its own.
  pub before : Irq S → List (Irq S) → List (Irq S)
  before irq [] = []
  before irq (a ∷ rest) = if int_lt irq.seq a.seq then before irq rest else a ∷ before irq rest

  -- Those with a larger one.
  pub behind : Irq S → List (Irq S) → List (Irq S)
  behind irq [] = []
  behind irq (a ∷ rest) = if int_lt irq.seq a.seq then a ∷ behind irq rest else behind irq rest

  insert_behind-insert : (irq : Irq S) (l : List (Irq S)) → insert_behind irq l ≡ insert irq l
  unfolding insert insert_behind
  insert_behind-insert irq [] = refl
  insert_behind-insert irq (a ∷ rest) = refl

  -- From a larger number on all numbers are larger.
  all_behind :
      (irq : Irq S) {a : Irq S} {rest : List (Irq S)}
      → IsSorted (a ∷ rest)
      → int_lt irq.seq a.seq ≡ true
      → (before irq (a ∷ rest) ≡ []) × (behind irq (a ∷ rest) ≡ a ∷ rest)
  unfolding before behind
  all_behind irq (one a) h = rw h (refl, refl)
  all_behind irq (more {b} le s) h =
      let next : int_lt irq.seq b.seq ≡ true = ground arith in
      let (x, y) = all_behind irq s next in rw h (x, rw y)

  keep_head :
      (irq a : Irq S) (rest : List (Irq S))
      → int_lt irq.seq a.seq ≡ false
      → (before irq (a ∷ rest) ≡ a ∷ before irq rest) × (behind irq (a ∷ rest) ≡ behind irq rest)
  unfolding before behind
  keep_head irq a rest h = rw h (refl, refl)

  pub IsSorted-tail : {a : Irq S} {rest : List (Irq S)} → IsSorted (a ∷ rest) → IsSorted rest
  IsSorted-tail (one a) = empty
  IsSorted-tail (more le s) = s

  -- A new handler goes behind all handlers with its own or a smaller sequence number, in front of
  -- all with a larger one, and the others keep their order.
  pub insert_lem :
      (irq : Irq S) (l : List (Irq S))
      → IsSorted l
      → insert irq l ≡ before irq l ++ irq ∷ behind irq l
  unfolding insert
  insert_lem irq [] s = unfold before behind in refl
  insert_lem irq (a ∷ rest) s = elim (Bool-cases (int_lt irq.seq a.seq)) [
    | inl lt ↦ let (x, y) = all_behind irq s lt in rw (lt, x, y)
    | inr ge ↦
        let (x, y) = keep_head irq a rest ge in
        let ih = insert_lem irq rest (IsSorted-tail s) in
        rw (ge, x, y, insert_behind-insert irq rest) (ap (λ r. a ∷ r) ih)
  ]

  sort_step :
      (irq a : Irq S) (rest : List (Irq S))
      → biased a.seq ≤ biased irq.seq
      → IsSorted (a ∷ rest)
      → IsSorted (insert irq rest)
      → IsSorted (a ∷ insert irq rest)
  unfolding insert
  sort_step irq a [] le s t = more le t
  sort_step irq a (b ∷ rest) le (more le' s) t = elim (Bool-cases (int_lt irq.seq b.seq)) [
    | inl lt ↦ rw lt (more le (rw lt at t))
    | inr ge ↦ rw ge (more le' (rw ge at t))
  ]

  unfolded :
      (irq a : Irq S) (rest : List (Irq S))
      → int_lt irq.seq a.seq ≡ false
      → insert irq (a ∷ rest) ≡ a ∷ insert irq rest
  unfolding insert
  unfolded irq a rest ge = rw ge (ap (λ r. a ∷ r) (insert_behind-insert irq rest))

  insert_cons :
      (irq a : Irq S) (rest : List (Irq S))
      → int_lt irq.seq a.seq ≡ false
      → IsSorted (a ∷ insert irq rest)
      → IsSorted (insert irq (a ∷ rest))
  insert_cons irq a rest ge t = subst IsSorted (sym (unfolded irq a rest ge)) t

  pub insert-IsSorted : (irq : Irq S) (l : List (Irq S)) → IsSorted l → IsSorted (insert irq l)
  insert-IsSorted irq [] s = unfold insert in one irq
  insert-IsSorted irq (a ∷ rest) s = elim (Bool-cases (int_lt irq.seq a.seq)) [
    | inl lt ↦ unfold insert in rw lt (more (ground arith) s)
    | inr ge ↦
        let t = insert-IsSorted irq rest (IsSorted-tail s) in
        insert_cons irq a rest ge (sort_step irq a rest (ground arith) s t)
  ]

  -- What `on_irq` makes of a sorted list: `none` only if the node could not be allocated, and
  -- otherwise a sorted list, in which the new handler stands behind all handlers with its own or a
  -- smaller sequence number and in front of all others, which keep their order.
  pub on_irq-IsSorted :
      (fresh seq event : ℕ) (handler : Handler S) (l : List (Irq S))
      → fresh ≢ null
      → IsSorted l
      → let irq : Irq S = record { seq = seq; event = event; handler = handler } in
        (on_irq fresh seq event handler l ≡ some (before irq l ++ irq ∷ behind irq l))
        × IsSorted (before irq l ++ irq ∷ behind irq l)
  unfolding on_irq
  on_irq-IsSorted fresh seq event handler l ne s =
      let irq : Irq S = record { seq = seq; event = event; handler = handler } in
      let got : (fresh == null) ≡ false = ground arith in
      (rw (got, insert_lem irq l s), rw (← insert_lem irq l s) (insert-IsSorted irq l s))
