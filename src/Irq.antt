-- ===== src/Irq.antt =====
-- kernel/src/os.c: registration of interrupt handlers (`on_irq`) and their dispatch (`trap`), in
-- the build without `DEBUG`. The linked list of requests is the list of its nodes in order. A
-- handler is a function on the state of the rest of the kernel, a parameter. Of an `Event` only its
-- number is modelled: `trap` reads nothing else of it.
pub mod Order
pub mod Dispatch
mod Tests
use nju_os_lab.Prelude.{
  ℕ, ◌+◌, ◌-◌, ◌%◌, ◌^◌, Bool, ◌||◌, Option, none, some, List, [], ◌∷◌, ltb, ◌==◌, if◌then◌else◌,
}
use nju_os_lab.Common.{null}

-- `EVENT_NULL` of am.h
abbrev pub event_null : ℕ
event_null = 0

-- `SEQ_MIN` and `SEQ_MAX`, as bit patterns of an `int`
abbrev pub seq_min : ℕ
seq_min = 2 ^ 31

abbrev pub seq_max : ℕ
seq_max = 2 ^ 31 - 1

-- Signed numbers in their order: the bit pattern of an `int` with the sign bit turned round.
abbrev pub biased : ℕ → ℕ
biased w = (w + 2 ^ 31) % 2 ^ 32

-- `a < b` on `int`
abbrev pub int_lt : ℕ → ℕ → Bool
int_lt a b = ltb (biased a) (biased b)

module _ (S : Type 0) where
  -- `handler_t`: from the event, the saved context and the state to a context and the new state.
  abbrev pub Handler : Type 0
  Handler = (event context : ℕ) → S → ℕ × S

  -- `struct interrupt_request`, without the pointer to the next one
  pub record Irq : Type 0 where
    pub seq : ℕ
    pub event : ℕ
    pub handler : (event context : ℕ) → S → ℕ × S

module _ {S : Type 0} where
  -- The `while` of `on_irq`: the nodes behind the one that `i_req` points to.
  unfoldable pub insert_behind : Irq S → List (Irq S) → List (Irq S)
  insert_behind irq [] = irq ∷ []
  insert_behind irq (next ∷ rest) =
      if int_lt irq.seq next.seq then irq ∷ next ∷ rest else next ∷ insert_behind irq rest

  -- The rest of `on_irq`, with the new node filled in.
  unfoldable pub insert : Irq S → List (Irq S) → List (Irq S)
  insert irq [] = irq ∷ []
  insert irq (head ∷ rest) =
      if int_lt irq.seq head.seq then irq ∷ head ∷ rest else head ∷ insert_behind irq rest

  -- `on_irq`, given what `pmm->alloc` returns for the node. It is not checked: `none` is the write
  -- through `NULL`.
  unfoldable pub on_irq : (fresh seq event : ℕ) → Handler S → List (Irq S) → Option (List (Irq S))
  on_irq fresh seq event handler irq_list =
      if fresh == null
      then none
      else some (insert (record { seq = seq; event = event; handler = handler }) irq_list)

  -- The condition under which `trap` calls a handler.
  abbrev pub concerns : ℕ → Irq S → Bool
  concerns ev irq = (irq.event == event_null) || (irq.event == ev)

  -- One round of the loop of `trap`: the context to return, and the state.
  unfoldable pub serve : (ev context : ℕ) → Irq S → ℕ × S → ℕ × S
  serve ev context irq (next_ctx, s) =
      if concerns ev irq
      then (let (ret_ctx, s') = irq.handler ev context s in
          (if ret_ctx == null then next_ctx else ret_ctx, s'))
      else (next_ctx, s)

  unfoldable pub trap_loop : (ev context : ℕ) → List (Irq S) → ℕ × S → ℕ × S
  trap_loop ev context [] r = r
  trap_loop ev context (irq ∷ rest) r = trap_loop ev context rest (serve ev context irq r)

  -- `trap`. On an empty list the early return gives the same `NULL` as the loop.
  unfoldable pub trap : (ev context : ℕ) → List (Irq S) → S → ℕ × S
  trap ev context [] s = (null, s)
  trap ev context (irq ∷ rest) s = trap_loop ev context (irq ∷ rest) (null, s)
