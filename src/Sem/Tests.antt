-- ===== src/Sem/Tests.antt =====
-- The theorems about kernel/src/sem.c at concrete semaphores.
use nju_os_lab.Prelude.{
  ℕ, zero, suc, ◌+◌, ◌≤◌, ◌≡◌, refl, false, ◌||◌, List, [], ◌∷◌, length, arith, ◌==◌,
}
use nju_os_lab.Sem.{sem_capacity, State, sem_wait, sem_signal}
use nju_os_lab.Sem.Queue.{Slots, waits, Distinct}
use nju_os_lab.Sem.Refine.{
  Abstract, wait, signal, signal_queue, Holds, sem_wait-refines, sem_signal-refines,
  sem_wait-overflow,
}
use nju_os_lab.Sem.Counting.{Op, down, up, run, run_abstract, downs, ups, Allowed, run-refines}

abbrev blank : State
blank = record {
  sem = record { resource = 0; wait_queue = λ i. 0; queue_head = 0; queue_tail = 0 };
  blocked = λ t. false;
}

abbrev binary : Abstract
binary = record { count = 1; waiting = [] }

abbrev started : State
started = record blank { sem = record (blank.sem) { resource = 1 } }

started-Holds : Holds started binary
started-Holds = record {
  count = refl;
  fits = omega arith;
  slots = tt;
  head_in = omega arith;
  tail_at = refl;
  few = omega arith;
  idle = λ p. refl;
  blocked = λ t. refl;
  distinct = tt;
}

sem_wait-refines_example : Holds (sem_wait 7 started) (wait 7 binary)
sem_wait-refines_example = sem_wait-refines 7 started-Holds refl (omega arith)

sem_signal-refines_example : Holds (sem_signal started) (signal binary)
sem_signal-refines_example = sem_signal-refines started-Holds (omega arith)

abbrev script : List Op
script = down 7 ∷ down 8 ∷ down 9 ∷ up ∷ up ∷ []

script-Allowed : Allowed script binary
unfolding wait signal signal_queue
script-Allowed =
    (refl, omega arith, (refl, omega arith, (refl, omega arith, (omega arith, (omega arith, tt)))))

run-refines_example :
    Holds (run script started) (run_abstract script binary)
    × ((run script started).sem.resource + downs script + 0
        ≡ 1 + ups script + length (run_abstract script binary).waiting)
run-refines_example = run-refines script started-Holds script-Allowed

-- Tasks `h + 1` to `h + n`
tasks : (h n : ℕ) → List ℕ
tasks h zero = []
tasks h (suc n) = (h + 1) ∷ tasks (h + 1) n

length-tasks : (h n : ℕ) → length (tasks h n) ≡ n
unfolding tasks
length-tasks h zero = refl
length-tasks h (suc n) = omega (arith, length-tasks (h + 1) n)

waits-tasks : (t h n : ℕ) → t ≤ h → waits t (tasks h n) ≡ false
unfolding tasks
waits-tasks t h zero le = refl
waits-tasks t h (suc n) le = ground (arith, waits-tasks t (h + 1) n)

tasks-Distinct : (h n : ℕ) → Distinct (tasks h n)
unfolding tasks
tasks-Distinct h zero = tt
tasks-Distinct h (suc n) = (waits-tasks (h + 1) (h + 1) n (omega arith), tasks-Distinct (h + 1) n)

tasks-Slots : (h n : ℕ) → h + n ≤ sem_capacity → Slots (λ i. i + 1) h (tasks h n)
unfolding tasks
tasks-Slots h zero le = tt
tasks-Slots h (suc n) le = (omega arith, tasks-Slots (h + 1) n (omega arith))

abbrev crowded : State
crowded = record {
  sem = record { resource = 0; wait_queue = λ i. i + 1; queue_head = 0; queue_tail = 255 };
  blocked = λ t. waits t (tasks 0 255);
}

abbrev crowd : Abstract
crowd = record { count = 0; waiting = tasks 0 255 }

crowded-Holds : Holds crowded crowd
crowded-Holds = record {
  count = refl;
  fits = omega arith;
  slots = tasks-Slots 0 255 (omega arith);
  head_in = omega arith;
  tail_at = omega (arith, length-tasks 0 255);
  few = omega (arith, length-tasks 0 255);
  idle = λ p. absurd (omega arith);
  blocked = λ t. refl;
  distinct = tasks-Distinct 0 255;
}

sem_wait-overflow_example :
    let s' = sem_signal (sem_wait 300 crowded) in
    (s'.sem.resource ≡ 1)
    × (s'.sem.queue_head ≡ s'.sem.queue_tail)
    × ((u : ℕ) → s'.blocked u ≡ ((300 == u) || waits u (tasks 0 255)))
sem_wait-overflow_example =
    sem_wait-overflow 300 crowded-Holds refl (omega (arith, length-tasks 0 255))
