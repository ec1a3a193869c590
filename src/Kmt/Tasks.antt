-- ===== src/Kmt/Tasks.antt =====
-- `create` and `teardown` of kernel/src/kmt.c on the linked list of tasks.
use mathlib.Core.Path.{subst}
use nju_os_lab.Prelude.{
  ℕ, zero, suc, ◌-◌, ◌≤◌, ◌<◌, ◌≡◌, ◌≢◌, refl, sym, ap, ◌∙◌, true, false, some, List, [], ◌∷◌, ◌++◌,
  length, length-append, arith, ◌==◌, update,
}
use nju_os_lab.Common.{null}
use nju_os_lab.Kmt.{Kmt, Task, create, max_cpu, is_idle, unlink, remove, teardown}
use nju_os_lab.Kmt.Poll.{Linked, last_of}

-- The task is not in the list.
abbrev pub Fresh : ℕ → List ℕ → Type 0
Fresh t [] = Unit {0}
Fresh t (u ∷ us) = (t ≢ u) × Fresh t us

-- No task is in the list twice.
abbrev pub Unique : List ℕ → Type 0
Unique [] = Unit {0}
Unique (t ∷ ts) = Fresh t ts × Unique ts

-- The list of tasks.
pub record IsTaskList (s : Kmt) (ts : List ℕ) : Type 0 where
  pub linked : Linked s.tasks s.task_list ts
  pub unique : Unique ts
  pub count : s.task_count ≡ length ts

-- A write to another task leaves the list as it is.
Linked-update :
    (tasks : ℕ → Task) (t : ℕ) (v : Task) (head : ℕ) (ts : List ℕ)
    → Fresh t ts
    → Linked tasks head ts
    → Linked (update tasks t v) head ts
Linked-update tasks t v head [] f l = l
Linked-update tasks t v head (u ∷ us) f l =
    let other : (t == u) ≡ false = ground arith in
    (l.0, l.1, rw other (Linked-update tasks t v (tasks u).next us f.1 l.2))

Fresh-split :
    (t : ℕ) (front : List ℕ) (task : ℕ) (back : List ℕ)
    → Fresh t (front ++ task ∷ back)
    → (t ≢ task) × Fresh t (front ++ back)
Fresh-split t [] task back f = f
Fresh-split t (u ∷ front) task back f =
    let (ne, rest) = Fresh-split t front task back f.1 in (ne, (f.0, rest))

Unique-split :
    (front : List ℕ) (task : ℕ) (back : List ℕ)
    → Unique (front ++ task ∷ back)
    → Unique (front ++ back)
Unique-split [] task back u = u.1
Unique-split (t ∷ front) task back u =
    ((Fresh-split t front task back u.0).1, Unique-split front task back u.1)

-- A task of the list behind `t` is not `t`.
last-Fresh :
    (t u : ℕ) (us : List ℕ) (task : ℕ) (back : List ℕ)
    → Fresh t (u ∷ (us ++ task ∷ back))
    → t ≢ last_of u us
unfolding last_of
last-Fresh t u [] task back f = f.0
last-Fresh t u (v ∷ vs) task back f = last-Fresh t v vs task back f.1

-- The tasks with the link of `t` set past the task that leaves.
pub bypass : (task t : ℕ) → (ℕ → Task) → (ℕ → Task)
bypass task t tasks = update tasks t (record (tasks t) { next = (tasks task).next })

unlink-bypass :
    (f task t : ℕ) (front back : List ℕ) (tasks : ℕ → Task)
    → Linked tasks t (t ∷ (front ++ task ∷ back))
    → Unique (t ∷ (front ++ task ∷ back))
    → length front < f
    → unlink f task t tasks ≡ some (bypass task (last_of t front) tasks)
unfolding unlink bypass last_of
unlink-bypass zero task t front back tasks l u lt = absurd (omega arith)
unlink-bypass (suc f) task t [] back tasks l u lt =
    let here : (t == null) ≡ false = ground arith in
    let found : ((tasks t).next == task) ≡ true = ground (arith, l.2.0) in rw (here, found)
unlink-bypass (suc f) task t (v ∷ front) back tasks l u lt =
    let here : (t == null) ≡ false = ground arith in
    let ne = (Fresh-split v front task back u.1.0).0 in
    let further : ((tasks t).next == task) ≡ false = ground (arith, l.2.0) in
    rw (here, further)
      (ap (λ k. unlink f task k tasks) l.2.0
        ∙ unlink-bypass f task v front back tasks (refl, l.2.1, l.2.2) u.1 (omega arith))

bypass-Linked :
    (task t : ℕ) (front back : List ℕ) (tasks : ℕ → Task)
    → Linked tasks t (t ∷ (front ++ task ∷ back))
    → Unique (t ∷ (front ++ task ∷ back))
    → Linked (bypass task (last_of t front) tasks) t (t ∷ (front ++ back))
unfolding bypass last_of
bypass-Linked task t [] back tasks l u =
    let self : (t == t) ≡ true = ground arith in
    (
      refl,
      l.1,
      rw self (
          Linked-update tasks t (record (tasks t) { next = (tasks task).next }) (tasks task).next
            back u.0.1 l.2.2),
    )
bypass-Linked task t (v ∷ front) back tasks l u =
    let other : (last_of v front == t) ≡ false =
      ground (arith, last-Fresh t v front task back u.0) in
    let (_, ne, rest) = bypass-Linked task v front back tasks (refl, l.2.1, l.2.2) u.1 in
    (refl, l.1, rw other (l.2.0, ne, rest))

-- `create` of a task that is not in the list puts it in front of the others, and the count is
-- right.
pub create-IsTaskList :
    (task context : ℕ) (s : Kmt) (ts : List ℕ)
    → task ≢ null
    → Fresh task ts
    → IsTaskList s ts
    → IsTaskList (create task context s) (task ∷ ts)
unfolding create
create-IsTaskList task context s ts ne f l =
    let self : (task == task) ≡ true = ground arith in
    record {
      linked = (refl, ne, rw self (Linked-update s.tasks task _ s.task_list ts f l.linked));
      unique = (f, l.unique);
      count = omega (arith, l.count);
    }

-- The branch of `teardown` that takes the task out of the list.
remove-Linked :
    (fuel task : ℕ) (s : Kmt) (front back : List ℕ)
    → Linked s.tasks s.task_list (front ++ task ∷ back)
    → Unique (front ++ task ∷ back)
    → length front ≤ fuel
    → (s' : Kmt) × (remove fuel task s ≡ some s')
      × Linked s'.tasks s'.task_list (front ++ back)
      × (s'.task_count ≡ s.task_count)
unfolding remove
remove-Linked fuel task s [] back l u le =
    let first : (task == s.task_list) ≡ true = ground (arith, l.0) in
    (
      record s { task_list = (s.tasks s.task_list).next },
      rw first,
      subst (λ k. Linked s.tasks (s.tasks k).next back) (sym l.0) l.2,
      refl,
    )
remove-Linked fuel task s (t ∷ front) back l u le =
    let ne = (Fresh-split t front task back u.0).0 in
    let later : (task == s.task_list) ≡ false = ground (arith, l.0) in
    let tasks = bypass task (last_of t front) s.tasks in
    let cut : unlink fuel task s.task_list s.tasks ≡ some tasks =
      ap (λ k. unlink fuel task k s.tasks) l.0
      ∙ unlink-bypass fuel task t front back s.tasks (refl, l.1, l.2) u (omega arith) in
    (
      record s { tasks = tasks },
      rw (later, cut),
      subst (λ k. Linked tasks k (t ∷ (front ++ back))) (sym l.0)
          (bypass-Linked task t front back s.tasks (refl, l.1, l.2) u),
      refl,
    )

-- `teardown` of a task that is in the list, and not the idle task of a CPU, ends and takes just
-- this task out: the others stay in the list in their order, and the count is right again. As many
-- rounds of fuel as there are tasks are enough.
pub teardown-IsTaskList :
    (fuel task : ℕ) (s : Kmt) (front back : List ℕ)
    → is_idle s task max_cpu ≡ false
    → IsTaskList s (front ++ task ∷ back)
    → s.task_count ≤ fuel
    → (s' : Kmt) × (teardown fuel task s ≡ some s') × IsTaskList s' (front ++ back)
unfolding teardown
teardown-IsTaskList fuel task s front back h l le =
    let size = length-append front (task ∷ back) in
    let (r, e, linked, same) =
      remove-Linked fuel task s front back l.linked l.unique (omega (arith, l.count, size)) in
    (
      record r { task_count = r.task_count - 1 },
      rw (h, e),
      record {
        linked = linked;
        unique = Unique-split front task back l.unique;
        count = omega (arith, same, l.count, size, length-append front back);
      },
    )
