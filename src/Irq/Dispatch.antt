-- ===== src/Irq/Dispatch.antt =====
-- What `trap` of kernel/src/os.c runs, in which order, and what it returns.
use mathlib.Core.Logic.{◌≢◌}
use nju_os_lab.Prelude.{
  ℕ, ◌<◌, ◌≡◌, ◌⊎◌, refl, ap, inl, inr, true, false, List, [], ◌∷◌, ◌++◌, arith, ◌==◌, Bool-cases,
  if◌then◌else◌,
}
use nju_os_lab.Common.{null}
use nju_os_lab.Irq.{
  Irq, event_null, seq_min, seq_max, biased, int_lt, insert_behind, insert, concerns, serve,
  trap_loop, trap,
}

-- The last context of a list that is not `NULL`, or `default`.
pub last_context : (default : ℕ) → List ℕ → ℕ
last_context default [] = default
last_context default (c ∷ cs) = last_context (if c == null then default else c) cs

last_context-append : (cs : List ℕ) (d c : ℕ) → c ≢ null → last_context d (cs ++ c ∷ []) ≡ c
unfolding last_context
last_context-append [] d c ne = ground arith
last_context-append (a ∷ cs) d c ne = last_context-append cs (if a == null then d else a) c ne

module _ {S : Type 0} where
  -- The handlers that an event concerns, in order.
  pub matching : ℕ → List (Irq S) → List (Irq S)
  matching ev [] = []
  matching ev (irq ∷ rest) = if concerns ev irq then irq ∷ matching ev rest else matching ev rest

  -- All of a list of handlers in order: the contexts that they return, and the state.
  pub run_all : (ev context : ℕ) → List (Irq S) → S → List ℕ × S
  run_all ev context [] s = ([], s)
  run_all ev context (irq ∷ rest) s =
      let (ret, s') = irq.handler ev context s in
      let (rets, last) = run_all ev context rest s' in (ret ∷ rets, last)

  loop_runs :
      (ev context : ℕ) (l : List (Irq S)) (d : ℕ) (s : S)
      → trap_loop ev context l (d, s)
        ≡ (let (rets, last) = run_all ev context (matching ev l) s in (last_context d rets, last))
  unfolding trap_loop serve run_all matching last_context
  loop_runs ev context [] d s = refl
  loop_runs ev context (irq ∷ rest) d s = elim (Bool-cases (concerns ev irq)) [
    | inl yes' ↦ rw yes' (
        loop_runs ev context rest
          (if (irq.handler ev context s).0 == null then d else (irq.handler ev context s).0)
          (irq.handler ev context s).1)
    | inr no' ↦ rw no' (loop_runs ev context rest d s)
  ]

  loop_from_null :
      (ev context : ℕ) (l : List (Irq S)) (s : S)
      → trap ev context l s ≡ (
          let (rets, last) = run_all ev context (matching ev l) s in (last_context null rets, last))
  loop_from_null ev context [] s = unfold trap run_all matching last_context in refl
  loop_from_null ev context (irq ∷ rest) s = unfold trap in loop_runs ev context (irq ∷ rest) null s

  -- A list, and the handlers in it that were registered for all events or for just this event, in their
  -- order.
  pub data Concerned (ev : ℕ) : (l m : List (Irq S)) → Type 0 where
    none_left : Concerned ev [] []
    keep :
        {irq : Irq S} {l m : List (Irq S)}
        → (irq.event ≡ 0) ⊎ (irq.event ≡ ev)
        → Concerned ev l m
        → Concerned ev (irq ∷ l) (irq ∷ m)
    skip :
        {irq : Irq S} {l m : List (Irq S)}
        → irq.event ≢ 0
        → irq.event ≢ ev
        → Concerned ev l m
        → Concerned ev (irq ∷ l) m

  matching-Concerned : (ev : ℕ) (l : List (Irq S)) → Concerned ev l (matching ev l)
  unfolding matching
  matching-Concerned ev [] = none_left
  matching-Concerned ev (irq ∷ rest) = elim (Bool-cases (concerns ev irq)) [
    | inl yes' ↦ rw yes' (keep (ground arith) (matching-Concerned ev rest))
    | inr no' ↦ rw no' (skip (λ e. ground arith) (λ e. ground arith) (matching-Concerned ev rest))
  ]

  -- `trap` runs exactly the handlers of the list that were registered for all events, that is for event 0, or
  -- for the event that occurred, in the order of the list, each on the state that the one before it
  -- left, and returns the last context that is not `NULL`.
  pub trap-run_all :
      (ev context : ℕ) (l : List (Irq S)) (s : S)
      → (m : List (Irq S)) × Concerned ev l m
        × (trap ev context l s
            ≡ (let (rets, last) = run_all ev context m s in (last_context null rets, last)))
  trap-run_all ev context l s =
      (matching ev l, matching-Concerned ev l, loop_from_null ev context l s)

  -- The numbers of all other handlers lie strictly between `SEQ_MIN` and `SEQ_MAX`.
  abbrev pub IsBetween : Irq S → Type 0
  IsBetween irq = (0 < biased irq.seq) × (biased irq.seq < biased seq_max)

  -- The list begins with the handler that saves the context and ends with the scheduler.
  pub data Framed (save schedule : Irq S) : List (Irq S) → Type 0 where
    framed :
        (mid : List (Irq S)) {l : List (Irq S)}
        → l ≡ save ∷ (mid ++ schedule ∷ [])
        → Framed save schedule l

  insert_mid :
      (irq schedule : Irq S) (mid : List (Irq S))
      → schedule.seq ≡ seq_max
      → IsBetween irq
      → (mid' : List (Irq S)) × (insert_behind irq (mid ++ schedule ∷ []) ≡ mid' ++ schedule ∷ [])
  unfolding insert_behind
  insert_mid irq schedule [] e h =
      let lt : int_lt irq.seq schedule.seq ≡ true = rw e (ground arith) in (irq ∷ [], rw lt)
  insert_mid irq schedule (a ∷ mid) e h = elim (Bool-cases (int_lt irq.seq a.seq)) [
    | inl lt ↦ (irq ∷ a ∷ mid, rw lt)
    | inr ge ↦
        let (mid', eq) = insert_mid irq schedule mid e h in (a ∷ mid', rw ge (ap (λ r. a ∷ r) eq))
  ]

  -- On a list that begins with a handler with `SEQ_MIN` and ends with one with `SEQ_MAX`, a handler
  -- with a sequence number strictly between goes between them: they stay first and last.
  pub insert-Framed :
      {save schedule : Irq S} (irq : Irq S) {l : List (Irq S)}
      → save.seq ≡ seq_min
      → schedule.seq ≡ seq_max
      → IsBetween irq
      → Framed save schedule l
      → Framed save schedule (insert irq l)
  unfolding insert
  insert-Framed {save} {schedule} irq es em h (framed mid e) =
      let (mid', eq) = insert_mid irq schedule mid em h in
      let ge : int_lt irq.seq save.seq ≡ false = rw es (ground arith) in
      rw e (rw ge (framed mid' (ap (λ r. save ∷ r) eq)))

  run_all-append :
      (ev context : ℕ) (l : List (Irq S)) (irq : Irq S) (s : S)
      → let (rets, s') = run_all ev context l s in
        let (ret, last) = irq.handler ev context s' in
        run_all ev context (l ++ irq ∷ []) s ≡ (rets ++ ret ∷ [], last)
  unfolding run_all
  run_all-append ev context [] irq s = refl
  run_all-append ev context (a ∷ l) irq s =
      rw (run_all-append ev context l irq (a.handler ev context s).1)

  matching-append :
      (ev : ℕ) (l : List (Irq S)) (irq : Irq S)
      → concerns ev irq ≡ true
      → matching ev (l ++ irq ∷ []) ≡ matching ev l ++ irq ∷ []
  unfolding matching
  matching-append ev [] irq h = rw h
  matching-append ev (a ∷ l) irq h = elim (Bool-cases (concerns ev a)) [
    | inl yes' ↦ rw yes' (ap (λ r. a ∷ r) (matching-append ev l irq h))
    | inr no' ↦ rw no' (matching-append ev l irq h)
  ]

  -- On a list that ends with the scheduler, registered for all events, `trap` returns the context
  -- that the scheduler chooses, if it is not `NULL`, on the state that the handlers before it
  -- leave.
  pub trap-schedule :
      (ev context : ℕ) (l : List (Irq S)) (schedule : Irq S) (s : S)
      → schedule.event ≡ event_null
      → (schedule.handler ev context (run_all ev context (matching ev l) s).1).0 ≢ null
      → trap ev context (l ++ schedule ∷ []) s
        ≡ schedule.handler ev context (run_all ev context (matching ev l) s).1
  trap-schedule ev context l schedule s e ne =
      let all : concerns ev schedule ≡ true = ground arith in
      rw (
        loop_from_null ev context (l ++ schedule ∷ []) s,
        matching-append ev l schedule all,
        run_all-append ev context (matching ev l) schedule s,
        last_context-append (run_all ev context (matching ev l) s).0 null
            (schedule.handler ev context (run_all ev context (matching ev l) s).1).0 ne,
      )
