-- ===== src/Sem/Refine.antt =====
-- The semaphores of kernel/src/sem.c against their abstract view: a count, and a queue of waiting
-- tasks that are served in order.
use mathlib.Core.Path.{subst}
use nju_os_lab.Prelude.{
  ℕ, zero, suc, ◌+◌, ◌-◌, ◌%◌, ◌^◌, ◌<◌, ◌&&◌, ◌≡◌, refl, sym, ◌∙◌, ap, true, false, ◌||◌, List, [],
  ◌∷◌, ◌++◌, length, length-append, arith, ltb, ◌==◌, if◌then◌else◌, inl, inr, Bool-cases,
}
use nju_os_lab.Sem.{sem_capacity, State, sem_init, sem_wait, sem_signal}
use nju_os_lab.Sem.Queue.{
  Slots, waits, Distinct, Slots-append, Slots-mod, waits-append, Distinct-append,
}

-- The abstract semaphore.
pub record Abstract : Type 0 where
  pub count : ℕ
  pub waiting : List ℕ

-- Task `t` passes, or queues up.
unfoldable pub wait : ℕ → Abstract → Abstract
wait t a =
    if ltb 0 a.count
    then record a { count = a.count - 1 }
    else record a { waiting = a.waiting ++ t ∷ [] }

-- The first task of the queue passes; with no task the count grows.
unfoldable pub signal_queue : ℕ → List ℕ → Abstract
signal_queue n [] = record { count = n + 1; waiting = [] }
signal_queue n (t ∷ ts) = record { count = n; waiting = ts }

unfoldable pub signal : Abstract → Abstract
unfolding signal_queue
signal a = signal_queue a.count a.waiting

-- The state of the program stands for the abstract semaphore, whose count is an `int`. The blocked
-- tasks are those that wait.
pub record Holds (s : State) (a : Abstract) : Type 0 where
  pub count : s.sem.resource ≡ a.count
  pub fits : a.count < 2 ^ 31
  pub slots : Slots s.sem.wait_queue s.sem.queue_head a.waiting
  pub head_in : s.sem.queue_head < sem_capacity
  pub tail_at : s.sem.queue_tail ≡ (s.sem.queue_head + length a.waiting) % sem_capacity
  pub few : length a.waiting < sem_capacity
  pub idle : 0 < a.count → a.waiting ≡ []
  pub blocked : (t : ℕ) → s.blocked t ≡ waits t a.waiting
  pub distinct : Distinct a.waiting

-- `sem_init`, where no task is blocked, makes a semaphore with the given count and no waiting task.
pub sem_init-Holds :
    (value : ℕ) (s : State)
    → value < 2 ^ 31
    → ((t : ℕ) → s.blocked t ≡ false)
    → Holds (sem_init value s) (record { count = value; waiting = [] })
unfolding sem_init
sem_init-Holds value s lt h = record {
  count = refl;
  fits = lt;
  slots = tt;
  head_in = omega arith;
  tail_at = refl;
  few = omega arith;
  idle = λ p. refl;
  blocked = h;
  distinct = tt;
}

-- `sem_wait` of a task that is not waiting implements the abstract operation: the task passes and
-- the count falls, or it is blocked and stands last in the queue. The ring has to keep one slot
-- free.
pub sem_wait-refines :
    (t : ℕ) {s : State} {a : Abstract}
    → Holds s a
    → s.blocked t ≡ false
    → length a.waiting + 1 < sem_capacity
    → Holds (sem_wait t s) (wait t a)
unfolding sem_wait wait
sem_wait-refines t {s} {a} h awake room = elim (Bool-cases (ltb 0 a.count)) [
  | inl go ↦
      let go' : (ltb 0 s.sem.resource && ltb s.sem.resource (2 ^ 31)) ≡ true =
        ground (arith, h.count, h.fits) in
      rw (go, go')
        (record {
          count = omega (arith, h.count);
          fits = omega (arith, h.fits);
          slots = h.slots;
          head_in = h.head_in;
          tail_at = h.tail_at;
          few = h.few;
          idle = λ p. h.idle (ground arith);
          blocked = h.blocked;
          distinct = h.distinct;
        })
  | inr stop ↦
      let stop' : (ltb 0 s.sem.resource && ltb s.sem.resource (2 ^ 31)) ≡ false =
        ground (arith, h.count) in
      let out : waits t a.waiting ≡ false = sym (h.blocked t) ∙ awake in
      rw (stop, stop')
        (record {
          count = h.count;
          fits = h.fits;
          slots =
              Slots-append s.sem.wait_queue s.sem.queue_head s.sem.queue_tail t a.waiting
                (omega arith) h.tail_at h.slots;
          head_in = h.head_in;
          tail_at = omega (arith, h.tail_at, length-append a.waiting (t ∷ []));
          few = omega (arith, length-append a.waiting (t ∷ []));
          idle = λ p. absurd (ground arith);
          blocked = λ u. ground (arith, h.blocked u, waits-append t u a.waiting);
          distinct = Distinct-append t a.waiting out h.distinct;
        })
]

signal_empty :
    {s : State} (n : ℕ)
    → Holds s (record { count = n; waiting = [] })
    → n + 1 < 2 ^ 31
    → Holds (sem_signal s) (record { count = n + 1; waiting = [] })
unfolding sem_signal
signal_empty {s} n h lt =
    let empty : (s.sem.queue_head == s.sem.queue_tail) ≡ true =
      ground (arith, h.tail_at, h.head_in) in
    rw empty (record {
      count = omega (arith, h.count);
      fits = lt;
      slots = tt;
      head_in = h.head_in;
      tail_at = h.tail_at;
      few = omega arith;
      idle = λ p. refl;
      blocked = h.blocked;
      distinct = tt;
    })

no_count : (n t : ℕ) (ts : List ℕ) → (0 < n → ◌≡◌ {A = List ℕ} (t ∷ ts) []) → n ≡ 0
no_count zero t ts h = refl
no_count (suc n) t ts h = cc (h (omega arith))

waits_ne : (t u : ℕ) (ts : List ℕ) → waits t ts ≡ false → t ≡ u → waits u ts ≡ false
waits_ne t u ts h e = subst (λ k. waits k ts ≡ false) e h

signal_wakes :
    {s : State} (n t : ℕ) (ts : List ℕ)
    → Holds s (record { count = n; waiting = t ∷ ts })
    → Holds (sem_signal s) (record { count = n; waiting = ts })
unfolding sem_signal
signal_wakes {s} n t ts h =
    let full : (s.sem.queue_head == s.sem.queue_tail) ≡ false =
      ground (arith, h.tail_at, h.head_in, h.few) in
    let zero_count : n ≡ 0 = no_count n t ts h.idle in
    let zero_resource : (s.sem.resource == 0) ≡ true = ground (arith, h.count) in
    let first : s.sem.wait_queue s.sem.queue_head ≡ t =
      ap s.sem.wait_queue (omega (arith, h.head_in)) ∙ h.slots.0 in
    rw (full, zero_resource)
      (record {
        count = h.count;
        fits = h.fits;
        slots =
            Slots-mod s.sem.wait_queue (s.sem.queue_head + 1)
              ((s.sem.queue_head + 1) % sem_capacity) ts (omega arith) h.slots.1;
        head_in = omega arith;
        tail_at = omega (arith, h.tail_at);
        few = omega (arith, h.few);
        idle = λ p. absurd (omega arith);
        blocked = λ u. ground (arith, first, h.blocked u, h.distinct, waits_ne t u ts);
        distinct = h.distinct.1;
      })

-- `sem_signal` on a count below the largest `int` implements the abstract operation: it wakes the task that
-- has waited longest, and only that one, or raises the count if no task waits.
pub sem_signal-refines :
    {s : State} {a : Abstract} → Holds s a → a.count + 1 < 2 ^ 31 → Holds (sem_signal s) (signal a)
unfolding signal
sem_signal-refines {s} {a} h lt = by_queue a.count a.waiting h lt
  where
    by_queue :
        (n : ℕ) (ts : List ℕ)
        → Holds s (record { count = n; waiting = ts })
        → n + 1 < 2 ^ 31
        → Holds (sem_signal s) (signal_queue n ts)
    by_queue n [] h lt = signal_empty n h lt
    by_queue n (t ∷ ts) h lt = signal_wakes n t ts h

-- With a count of 0 and 255 tasks waiting a further `sem_wait` fills the ring, which then looks
-- empty: the next `sem_signal` wakes nobody, and raises the count although 256 tasks are blocked.
pub sem_wait-overflow :
    (t : ℕ) {s : State} {a : Abstract}
    → Holds s a
    → a.count ≡ 0
    → length a.waiting + 1 ≡ sem_capacity
    → let s' = sem_signal (sem_wait t s) in
      (s'.sem.resource ≡ 1)
      × (s'.sem.queue_head ≡ s'.sem.queue_tail)
      × ((u : ℕ) → s'.blocked u ≡ ((t == u) || waits u a.waiting))
unfolding sem_wait sem_signal
sem_wait-overflow t {s} {a} h e full =
    let stop : (ltb 0 s.sem.resource && ltb s.sem.resource (2 ^ 31)) ≡ false =
      ground (arith, h.count) in
    let meet : (s.sem.queue_head == (s.sem.queue_tail + 1) % sem_capacity) ≡ true =
      ground (arith, h.tail_at, h.head_in) in
    rw (stop) (
      rw meet (
        omega (arith, h.count),
        omega (arith, h.tail_at, h.head_in),
        λ u. ground (arith, h.blocked u),
      ))
