-- ===== src/Kmt/Init.antt =====
-- `kmt_init` of kernel/src/kmt.c, and the first interrupt after it.
use nju_os_lab.Prelude.{ℕ, zero, suc, ◌<◌, ◌≡◌, refl, ◌∙◌, false, none, arith, update}
use nju_os_lab.Common.{null}
use nju_os_lab.Kmt.{Kmt, fault, save_context, kmt_context_save, kmt_schedule}

-- `init_cpu` of the entry of CPU `i`, the tasks
unfoldable pub init_cpu_tasks : (i : ℕ) → Kmt → Kmt
init_cpu_tasks i s = record s {
  current_task = update s.current_task i null;
  last_task = update s.last_task i null;
}

-- `init_idle_task`, given the address that `pmm->alloc` returns and the context of `kcontext`. The
-- parameter `idle` is a copy of the pointer of the caller, and is overwritten at once.
unfoldable pub init_idle_task : (idle fresh context : ℕ) → Kmt → Kmt
init_idle_task idle fresh context s =
    let idle = fresh in
    record s {
      tasks = update s.tasks idle (record {
        context = update (s.tasks idle).context 0 context;
        i_nest = 0;
        blocked = false;
        running = false;
        next = null;
      });
    }

-- The loop of `kmt_init` over `n` CPUs. The tasks that it allocates, and their contexts, are given
-- by the CPU.
unfoldable pub init_loop : (n : ℕ) → (fresh context : ℕ → ℕ) → Kmt → Kmt
init_loop zero fresh context s = s
init_loop (suc n) fresh context s =
    let s' = init_loop n fresh context s in
    init_idle_task (s'.idle_tasks n) (fresh n) (context n) (init_cpu_tasks n s')

-- `kmt_init`, the globals of kmt.c
unfoldable pub kmt_init : (cpu_count : ℕ) → (fresh context : ℕ → ℕ) → Kmt → Kmt
kmt_init cpu_count fresh context s = record (init_loop cpu_count fresh context s) {
  task_count = 0;
  task_list = null;
}

loop_idle :
    (n : ℕ) (fresh context : ℕ → ℕ) (s : Kmt) (cpu : ℕ)
    → (init_loop n fresh context s).idle_tasks cpu ≡ s.idle_tasks cpu
unfolding init_loop init_idle_task init_cpu_tasks
loop_idle zero fresh context s cpu = refl
loop_idle (suc n) fresh context s cpu = loop_idle n fresh context s cpu

loop_current :
    (n : ℕ) (fresh context : ℕ → ℕ) (s : Kmt) (cpu : ℕ)
    → cpu < n
    → (init_loop n fresh context s).current_task cpu ≡ null
unfolding init_loop init_idle_task init_cpu_tasks
loop_current zero fresh context s cpu lt = absurd (omega arith)
loop_current (suc n) fresh context s cpu lt = ground (arith, loop_current n fresh context s cpu)

-- A CPU without a current task and without an idle task cannot take an interrupt.
no_task :
    (cpu context : ℕ) (s : Kmt)
    → s.current_task cpu ≡ null
    → s.idle_tasks cpu ≡ null
    → (kmt_context_save cpu context s ≡ none) × (kmt_schedule cpu s ≡ fault)
unfolding kmt_context_save kmt_schedule
no_task cpu context s e f =
    let lost : save_context cpu context s ≡ none = unfold save_context in rw e in
    (rw (kmt_context_save, lost), rw (e, f))

-- Where `idle_tasks` starts as `NULL`, as globals do, `kmt_init` leaves every entry `NULL`, and
-- both handlers of the first interrupt of every CPU access a task through `NULL`.
pub kmt_init-fault :
    (cpu_count : ℕ) (fresh context : ℕ → ℕ) (s : Kmt) (cpu saved : ℕ)
    → ((i : ℕ) → s.idle_tasks i ≡ null)
    → cpu < cpu_count
    → let s' = kmt_init cpu_count fresh context s in
      ((i : ℕ) → s'.idle_tasks i ≡ null)
      × (kmt_context_save cpu saved s' ≡ none)
      × (kmt_schedule cpu s' ≡ fault)
unfolding kmt_init
kmt_init-fault cpu_count fresh context s cpu saved h lt =
    let s' : Kmt = record (init_loop cpu_count fresh context s) {
      task_count = 0;
      task_list = null;
    } in
    let idle : (i : ℕ) → s'.idle_tasks i ≡ null =
      λ i. loop_idle cpu_count fresh context s i ∙ h i in
    let (save, schedule) =
      no_task cpu saved s' (loop_current cpu_count fresh context s cpu lt) (idle cpu) in
    (idle, save, schedule)
