-- ===== src/Sem.antt =====
-- kernel/src/sem.c: counting semaphores with a queue of waiting tasks in a ring of 256 slots. The
-- spin lock of the semaphore makes each call one step (Spin.antt). The loop at the end of
-- `sem_wait` yields until the task is no longer blocked: that a task waits is that its flag is set.
pub mod Queue
pub mod Refine
pub mod Counting
mod Tests
use nju_os_lab.Prelude.{
  ℕ, ◌+◌, ◌-◌, ◌%◌, ◌^◌, Bool, true, false, not, ◌&&◌, ltb, ◌==◌, if◌then◌else◌, update,
}
use nju_os_lab.Common.{null}

-- `SEM_CAPACITY` of os.h
abbrev pub sem_capacity : ℕ
sem_capacity = 256

-- `struct semaphore`, without its name and its lock. `resource` is an `int` as its bit pattern.
pub record Sem : Type 0 where
  pub resource : ℕ
  pub wait_queue : ℕ → ℕ
  pub queue_head : ℕ
  pub queue_tail : ℕ

-- A semaphore and the field `blocked` of the tasks, by their address.
pub record State : Type 0 where
  pub sem : Sem
  pub blocked : ℕ → Bool

-- `sem_init`
unfoldable pub sem_init : (value : ℕ) → State → State
sem_init value s = record s {
  sem = record { resource = value; wait_queue = λ i. null; queue_head = 0; queue_tail = 0 };
}

-- `sem_wait` called by task `t`
unfoldable pub sem_wait : (t : ℕ) → State → State
sem_wait t (s) =
    if ltb 0 s.sem.resource && ltb s.sem.resource (2 ^ 31)
    then record s { sem = record (s.sem) { resource = s.sem.resource - 1 } }
    else record {
      blocked = update s.blocked t true;
      sem = record (s.sem) {
        wait_queue = update s.sem.wait_queue s.sem.queue_tail t;
        queue_tail = (s.sem.queue_tail + 1) % sem_capacity;
      };
    }

-- `sem_signal`
unfoldable pub sem_signal : State → State
sem_signal s =
    if not (s.sem.queue_head == s.sem.queue_tail) && (s.sem.resource == 0)
    then record {
      blocked = update s.blocked (s.sem.wait_queue s.sem.queue_head) false;
      sem = record (s.sem) { queue_head = (s.sem.queue_head + 1) % sem_capacity };
    }
    else record s { sem = record (s.sem) { resource = (s.sem.resource + 1) % 2 ^ 32 } }
