-- ===== src/Kmt.antt =====
-- kernel/src/kmt.c: the list of tasks, and the two interrupt handlers that save the context of a
-- task and choose the next one. Tasks stand at addresses. A section under the lock of a task is one
-- step (Spin.antt); names and stacks are not modelled, and no `DEBUG` output.
pub mod Poll
pub mod Outcomes
pub mod RoundRobin
pub mod Tasks
pub mod Init
pub mod Turns
pub mod Contexts
mod Tests
use nju_os_lab.Prelude.{
  ℕ, zero, suc, ◌+◌, ◌-◌, ◌*◌, ◌%◌, ◌^◌, Bool, true, false, not, ◌&&◌, ◌||◌, Option, none, some,
  ltb, ◌==◌, if◌then◌else◌, update,
}
use nju_os_lab.Common.{null}

-- `MAX_CPU` of os.h
abbrev pub max_cpu : ℕ
max_cpu = 8

-- `struct task`, without its name, stack and lock. `i_nest` is an `int` as its bit pattern.
pub record Task : Type 0 where
  pub context : ℕ → ℕ
  pub i_nest : ℕ
  pub blocked : Bool
  pub running : Bool
  pub next : ℕ

-- The tasks by their address, the globals of kmt.c, and the tasks of each CPU. `task_count` is
-- never negative, as `teardown` is called for tasks that `create` made, once for each.
pub record Kmt : Type 0 where
  pub tasks : ℕ → Task
  pub task_list : ℕ
  pub task_count : ℕ
  pub idle_tasks : ℕ → ℕ
  pub current_task : ℕ → ℕ
  pub last_task : ℕ → ℕ

-- A context and the new state, or an access through `NULL` or outside of the four contexts.
pub data Handled : Type 0 where
  handled : (context : ℕ) → Kmt → Handled
  fault : Handled

-- `i_nest--` on an `int`
abbrev pub decrement : ℕ → ℕ
decrement n = (n + 2 ^ 32 - 1) % 2 ^ 32

-- The choice of the loop of `kmt_schedule`: stay with the current task, switch to another one, the
-- end of the loop, or an access through `NULL`.
pub data Choice : Type 0 where
  again : Choice
  switch_to : (t : ℕ) → Choice
  exhausted : Choice
  lost : Choice

-- The task that the loop looks at after `t`.
unfoldable pub successor : Kmt → ℕ → ℕ
successor s t = if (s.tasks t).next == null then s.task_list else (s.tasks t).next

-- The loop of `kmt_schedule` with the rounds left, for the current task `cur`.
unfoldable pub poll : Kmt → (cur n t : ℕ) → Choice
poll s cur zero t = exhausted
poll s cur (suc n) t =
    let u = successor s t in
    let rest = poll s cur n u in
    if u == cur
    then (if (s.tasks u).blocked then rest else again)
    else if u == null
    then lost
    else if (s.tasks u).running || (s.tasks u).blocked
    then rest
    else switch_to u

-- `POLL_TIMES`
abbrev pub poll_times : Kmt → ℕ
poll_times s = s.task_count * 2 + 2

-- What `kmt_schedule` returns for a choice.
unfoldable pub resume : (cpu cur : ℕ) → Choice → Kmt → Handled
resume cpu cur again s =
    let n = decrement (s.tasks cur).i_nest in
    if ltb n 4
    then handled ((s.tasks cur).context n)
        (record s { tasks = update s.tasks cur (record (s.tasks cur) { i_nest = n }) })
    else fault
resume cpu cur (switch_to t) s =
    if ltb (s.tasks t).i_nest 4
    then handled ((s.tasks t).context (s.tasks t).i_nest) (record s {
      tasks = update s.tasks t (record (s.tasks t) { running = true });
      current_task = update s.current_task cpu t;
    })
    else fault
resume cpu cur exhausted s =
    let idle = s.idle_tasks cpu in
    if idle == null
    then fault
    else handled ((s.tasks idle).context 0)
        (record s { current_task = update s.current_task cpu idle })
resume cpu cur lost s = fault

-- `kmt_schedule` on CPU `cpu`
unfoldable pub kmt_schedule : (cpu : ℕ) → Kmt → Handled
kmt_schedule cpu s =
    let cur = if s.current_task cpu == null then s.idle_tasks cpu else s.current_task cpu in
    let s' = record s { current_task = update s.current_task cpu cur } in
    if cur == null then fault else resume cpu cur (poll s' cur (poll_times s') cur) s'

-- The task that a CPU leaves: it may run on any CPU again.
unfoldable pub release : ℕ → Kmt → Kmt
release t s = record s {
  tasks =
      update s.tasks t
        (record (s.tasks t) { running = false; i_nest = decrement (s.tasks t).i_nest });
}

-- The first test of `kmt_context_save`: `none` is a write through `NULL` or outside of the
-- contexts.
unfoldable pub save_context : (cpu context : ℕ) → Kmt → Option Kmt
save_context cpu context s =
    let cur = s.current_task cpu in
    let task = s.tasks cur in
    if cur == null
    then none
    else if cur == s.idle_tasks cpu
    then some (record s {
      tasks = update s.tasks cur (record task { context = update task.context 0 context });
    })
    else if ltb task.i_nest 4
    then some (record s {
      tasks = update s.tasks cur (record task {
        context = update task.context task.i_nest context;
        i_nest = task.i_nest + 1;
      });
    })
    else none

-- The rest of `kmt_context_save`.
unfoldable pub leave_last : (cpu : ℕ) → Kmt → Kmt
leave_last cpu s =
    let last = s.last_task cpu in
    let s' =
      if not (last == null) && not (last == s.idle_tasks cpu) && not (last == s.current_task cpu)
      then release last s
      else s in
    record s' { last_task = update s'.last_task cpu (s'.current_task cpu) }

-- `kmt_context_save` on CPU `cpu`, which always returns `NULL`
unfoldable pub kmt_context_save : (cpu context : ℕ) → Kmt → Option Kmt
kmt_context_save cpu context s = elim (save_context cpu context s) [
  | none ↦ none
  | some s' ↦ some (leave_last cpu s')
]

-- `create`, given the context that `kcontext` makes
unfoldable pub create : (task context : ℕ) → Kmt → Kmt
create task context s = record s {
  tasks = update s.tasks task (record {
    context = update (s.tasks task).context 0 context;
    i_nest = 0;
    blocked = false;
    running = false;
    next = s.task_list;
  });
  task_count = s.task_count + 1;
  task_list = task;
}

-- The first loop of `teardown`, from CPU `max_cpu - n` on: the task is the idle task of a CPU.
unfoldable pub is_idle : Kmt → (task n : ℕ) → Bool
is_idle s task zero = false
is_idle s task (suc n) = (task == s.idle_tasks (max_cpu - suc n)) || is_idle s task n

-- The second loop of `teardown`, on fuel: the tasks from `t` on. `none` is the end of the fuel.
unfoldable pub unlink : (fuel task t : ℕ) → (ℕ → Task) → Option (ℕ → Task)
unlink zero task t tasks = none
unlink (suc f) task t tasks =
    let rest = unlink f task (tasks t).next tasks in
    if t == null
    then some tasks
    else if (tasks t).next == task
    then some (update tasks t (record (tasks t) { next = (tasks task).next }))
    else rest

-- The branch of `teardown` on the head of the list.
unfoldable pub remove : (fuel task : ℕ) → Kmt → Option Kmt
remove fuel task s =
    if task == s.task_list
    then some (record s { task_list = (s.tasks s.task_list).next })
    else elim (unlink fuel task s.task_list s.tasks) [
      | none ↦ none
      | some tasks ↦ some (record s { tasks = tasks })
    ]

-- `teardown`, without the memory of the task, which goes back to `pmm->free`
unfoldable pub teardown : (fuel task : ℕ) → Kmt → Option Kmt
teardown fuel task s = if is_idle s task max_cpu then some s else elim (remove fuel task s) [
  | none ↦ none
  | some s' ↦ some (record s' { task_count = s'.task_count - 1 })
]
