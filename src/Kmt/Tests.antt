-- ===== src/Kmt/Tests.antt =====
-- The theorems about kernel/src/kmt.c at a list of three tasks.
use nju_os_lab.Prelude.{
  ℕ, ◌+◌, ◌*◌, ◌≡◌, refl, true, false, Option, none, some, [], ◌∷◌, arith, ◌==◌, if◌then◌else◌,
}
use nju_os_lab.Common.{null}
use nju_os_lab.Kmt.{
  Kmt, Task, fault, Handled, handled, exhausted, poll, successor, resume, release, save_context,
  leave_last, kmt_context_save, kmt_schedule, teardown, is_idle, max_cpu,
}
use nju_os_lab.Kmt.Poll.{scan}
use nju_os_lab.Kmt.Init.{kmt_init, kmt_init-fault}
use nju_os_lab.Kmt.Contexts.{kmt_schedule-Interrupted}
use nju_os_lab.Kmt.Outcomes.{Turned}
use nju_os_lab.Kmt.RoundRobin.{kmt_schedule-turn}
use nju_os_lab.Kmt.Tasks.{IsTaskList, teardown-IsTaskList}

-- Tasks 30, 20 and 10 in this order. Task 20 runs, and task 10 is blocked.
abbrev tasks : ℕ → Task
tasks t = record {
  context = λ i. 100 * t + i;
  i_nest = 1;
  blocked = t == 10;
  running = t == 20;
  next = if t == 30 then 20 else if t == 20 then 10 else 0;
}

abbrev three : Kmt
three = record {
  tasks = tasks;
  task_list = 30;
  task_count = 3;
  idle_tasks = λ cpu. cpu + 500;
  current_task = λ cpu. 20;
  last_task = λ cpu. 20;
}

three-IsTaskList : IsTaskList three (30 ∷ 20 ∷ 10 ∷ [])
three-IsTaskList = record {
  linked = (refl, omega arith, (refl, omega arith, (refl, omega arith, refl)));
  unique = ((omega arith, (omega arith, tt)), ((omega arith, tt), (tt, tt)));
  count = refl;
}

kmt_schedule-turn_example :
    Turned 0 20 three (scan three 20 exhausted (10 ∷ 30 ∷ 20 ∷ [])) (kmt_schedule 0 three)
kmt_schedule-turn_example =
    kmt_schedule-turn 0 20 three (30 ∷ []) (10 ∷ []) refl (omega arith) three-IsTaskList.linked
      (omega arith)

not_idle : is_idle three 20 max_cpu ≡ false
unfolding is_idle
not_idle = refl

teardown-IsTaskList_example :
    (s' : Kmt) × (teardown 3 20 three ≡ some s') × IsTaskList s' (30 ∷ 10 ∷ [])
teardown-IsTaskList_example =
    teardown-IsTaskList 3 20 three (30 ∷ []) (10 ∷ []) not_idle three-IsTaskList (omega arith)

-- Only CPU 0 has a task, task 20.
abbrev one_cpu : Kmt
one_cpu = record {
  tasks = tasks;
  task_list = 30;
  task_count = 3;
  idle_tasks = λ cpu. cpu + 500;
  current_task = λ cpu. if cpu == 0 then 20 else 0;
  last_task = λ cpu. if cpu == 0 then 20 else 0;
}

-- The state that a handler leaves.
abbrev saved_state : Option Kmt → Kmt
saved_state none = one_cpu
saved_state (some s) = s

abbrev scheduled_state : Handled → Kmt
scheduled_state fault = one_cpu
scheduled_state (handled d s) = s

abbrev returned_context : Handled → ℕ
returned_context fault = 0
returned_context (handled d s) = d

-- CPU 0 saves context 77 of task 20, turns to task 30, and sets task 20 free; CPU 1 takes it.
abbrev interrupted : Kmt
interrupted = saved_state (kmt_context_save 0 77 one_cpu)

abbrev away : Kmt
away = scheduled_state (kmt_schedule 0 interrupted)

abbrev task_free : Kmt
task_free = saved_state (kmt_context_save 0 88 away)

abbrev taken_up : Kmt
taken_up = scheduled_state (kmt_schedule 1 task_free)

save_first : kmt_context_save 0 77 one_cpu ≡ some interrupted
unfolding kmt_context_save save_context leave_last
save_first = refl

turn_away : (kmt_schedule 0 interrupted ≡ handled 3001 away) × (away.current_task 0 ≡ 30)
unfolding kmt_context_save save_context leave_last kmt_schedule poll successor resume
turn_away = (refl, refl)

save_second : kmt_context_save 0 88 away ≡ some task_free
unfolding kmt_context_save save_context leave_last kmt_schedule poll successor resume release
save_second = refl

take_up :
    (kmt_schedule 1 task_free ≡ handled (returned_context (kmt_schedule 1 task_free)) taken_up)
    × (taken_up.current_task 1 ≡ 20)
unfolding kmt_context_save save_context leave_last kmt_schedule poll successor resume release
take_up = (refl, refl)

kmt_schedule-Interrupted_example :
    (returned_context (kmt_schedule 1 task_free) ≡ 77)
    × ((taken_up.tasks 20).i_nest ≡ 1)
    × ((taken_up.tasks 20).running ≡ true)
kmt_schedule-Interrupted_example =
    kmt_schedule-Interrupted 0 1 20 77 88 one_cpu refl (λ k ne. ground arith) (λ k. omega arith)
      (omega arith) (omega arith) save_first turn_away.0 (rw turn_away.1 (omega arith)) save_second
      take_up.0 take_up.1

-- The globals of kmt.c before the start: all of them zero.
abbrev zeroed : Kmt
zeroed = record {
  tasks = λ t. record { context = λ i. 0; i_nest = 0; blocked = false; running = false; next = 0 };
  task_list = 0;
  task_count = 0;
  idle_tasks = λ cpu. 0;
  current_task = λ cpu. 0;
  last_task = λ cpu. 0;
}

kmt_init-fault_example :
    let s' = kmt_init 2 (λ cpu. 4096 + cpu * 8192) (λ cpu. 5000 + cpu * 8192) zeroed in
    ((i : ℕ) → s'.idle_tasks i ≡ null)
    × (kmt_context_save 1 77 s' ≡ none)
    × (kmt_schedule 1 s' ≡ fault)
kmt_init-fault_example =
    kmt_init-fault 2 (λ cpu. 4096 + cpu * 8192) (λ cpu. 5000 + cpu * 8192) zeroed 1 77 (λ i. refl)
      (omega arith)
