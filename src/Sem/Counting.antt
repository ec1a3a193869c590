-- ===== src/Sem/Counting.antt =====
-- Sequences of calls of the semaphores of kernel/src/sem.c, by any tasks in any order.
use nju_os_lab.Prelude.{
  ℕ, suc, ◌+◌, ◌^◌, ◌<◌, ◌≡◌, ◌∙◌, false, List, [], ◌∷◌, length, length-append, arith, ltb,
  Bool-cases, inl, inr,
}
use nju_os_lab.Sem.{sem_capacity, State, sem_wait, sem_signal}
use nju_os_lab.Sem.Queue.{waits}
use nju_os_lab.Sem.Refine.{
  Abstract, wait, signal, Holds, sem_wait-refines, sem_signal-refines, signal_queue,
}

-- `down t` is `sem_wait` by task `t`, `up` is `sem_signal`.
pub data Op : Type 0 where
  down : (t : ℕ) → Op
  up : Op

unfoldable pub run : List Op → State → State
run [] s = s
run (down t ∷ ops) s = run ops (sem_wait t s)
run (up ∷ ops) s = run ops (sem_signal s)

unfoldable pub run_abstract : List Op → Abstract → Abstract
run_abstract [] a = a
run_abstract (down t ∷ ops) a = run_abstract ops (wait t a)
run_abstract (up ∷ ops) a = run_abstract ops (signal a)

-- A task that waits makes no call, at most 255 tasks wait at a time, and no signal comes at the largest `int`.
abbrev pub Allowed : List Op → Abstract → Type 0
Allowed [] a = Unit {0}
Allowed (down t ∷ ops) a =
    (waits t a.waiting ≡ false) × (length a.waiting + 1 < sem_capacity) × Allowed ops (wait t a)
Allowed (up ∷ ops) a = (a.count + 1 < 2 ^ 31) × Allowed ops (signal a)

pub downs : List Op → ℕ
downs [] = 0
downs (down t ∷ ops) = suc (downs ops)
downs (up ∷ ops) = downs ops

pub ups : List Op → ℕ
ups [] = 0
ups (down t ∷ ops) = ups ops
ups (up ∷ ops) = suc (ups ops)

wait_balance :
    (t : ℕ) (a : Abstract)
    → (wait t a).count + 1 + length a.waiting ≡ a.count + length (wait t a).waiting
unfolding wait
wait_balance t a = elim (Bool-cases (ltb 0 a.count)) [
  | inl go ↦ rw go (ground arith)
  | inr stop ↦ rw stop (omega (arith, length-append a.waiting (t ∷ [])))
]

queue_balance :
    (n : ℕ) (ts : List ℕ)
    → (signal_queue n ts).count + length ts ≡ n + 1 + length (signal_queue n ts).waiting
unfolding signal_queue
queue_balance n [] = omega arith
queue_balance n (t ∷ ts) = omega arith

signal_balance :
    (a : Abstract) → (signal a).count + length a.waiting ≡ a.count + 1 + length (signal a).waiting
unfolding signal
signal_balance a = queue_balance a.count a.waiting

run_balance :
    (ops : List Op) (a : Abstract)
    → (run_abstract ops a).count + downs ops + length a.waiting
      ≡ a.count + ups ops + length (run_abstract ops a).waiting
unfolding run_abstract downs ups
run_balance [] a = omega arith
run_balance (down t ∷ ops) a = omega (arith, run_balance ops (wait t a), wait_balance t a)
run_balance (up ∷ ops) a = omega (arith, run_balance ops (signal a), signal_balance a)

run-Holds :
    (ops : List Op) {s : State} {a : Abstract}
    → Holds s a
    → Allowed ops a
    → Holds (run ops s) (run_abstract ops a)
unfolding run run_abstract
run-Holds [] h ok = h
run-Holds (down t ∷ ops) h ok = run-Holds ops (sem_wait-refines t h (h.blocked t ∙ ok.0) ok.1) ok.2
run-Holds (up ∷ ops) h ok = run-Holds ops (sem_signal-refines h ok.0) ok.1

-- Any sequence of calls in which no waiting task calls `sem_wait`, at most 255 tasks wait at a time, and
-- `sem_signal` is called on counts below the largest `int` only, behaves as on the abstract semaphore, and no wake-up is lost or doubled: the count and the
-- tasks that have passed `sem_wait` make up the first count and the signals.
pub run-refines :
    (ops : List Op) {s : State} {a : Abstract}
    → Holds s a
    → Allowed ops a
    → Holds (run ops s) (run_abstract ops a)
      × ((run ops s).sem.resource + downs ops + length a.waiting
          ≡ a.count + ups ops + length (run_abstract ops a).waiting)
run-refines ops {s} {a} h ok =
    let last = run-Holds ops h ok in (last, omega (arith, last.count, run_balance ops a))
