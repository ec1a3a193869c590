-- ===== src/Kmt/Contexts.antt =====
-- The saved context of a task, from the `kmt_context_save` of kernel/src/kmt.c that interrupts it to the
-- `kmt_schedule` that takes it up.
use native.Mathlib.Decide.{ℕ_discrete}
use mathlib.Core.Path.{subst}
use nju_os_lab.Prelude.{
  ℕ, Bool, not, ◌&&◌, ◌+◌, ◌<◌, Option, none, ◌≡◌, ◌≢◌, refl, sym, ap, ◌∙◌, inl, inr, Bool-cases,
  true, false, ltb, some, arith, ◌==◌, if◌then◌else◌, update,
}
use nju_os_lab.Common.{null}
use nju_os_lab.Kmt.{
  Kmt, Task, handled, decrement, save_context, release, leave_last, kmt_context_save, kmt_schedule,
}
use nju_os_lab.Kmt.Turns.{at_own, kmt_schedule-Scheduled}

-- `s` with context `c` saved for the task `cur`.
pub saved : (cur c : ℕ) → Kmt → Kmt
saved cur c s =
    let task = s.tasks cur in
    record s {
      tasks =
          update s.tasks cur
            (record task { context = update task.context task.i_nest c; i_nest = task.i_nest + 1 });
    }

save_context-saved :
    (cpu c : ℕ) (s : Kmt)
    → s.current_task cpu ≢ null
    → s.current_task cpu ≢ s.idle_tasks cpu
    → (s.tasks (s.current_task cpu)).i_nest < 4
    → save_context cpu c s ≡ some (saved (s.current_task cpu) c s)
unfolding save_context saved
save_context-saved cpu c s ne other lt =
    let a : (s.current_task cpu == null) ≡ false = ground arith in
    let b : (s.current_task cpu == s.idle_tasks cpu) ≡ false = ground arith in
    let d : ltb (s.tasks (s.current_task cpu)).i_nest 4 ≡ true = ground arith in rw (a, b, d)

-- A task is the same in both branches, if it is the same in the one that is taken.
either_task :
    (b : Bool) (x y : Kmt) (t : ℕ)
    → (b ≡ true → x.tasks t ≡ y.tasks t)
    → (if b then x else y).tasks t ≡ y.tasks t
either_task true x y t h = h refl
either_task false x y t h = refl

release-other :
    (last cur : ℕ) (s : Kmt) → (last == cur) ≡ false → (release last s).tasks cur ≡ s.tasks cur
unfolding release
release-other last cur s h = rw h

-- The second half leaves the current task alone.
leave_last-current :
    (cpu : ℕ) (s : Kmt)
    → (leave_last cpu s).tasks (s.current_task cpu) ≡ s.tasks (s.current_task cpu)
unfolding leave_last
leave_last-current cpu s =
    either_task _ (release (s.last_task cpu) s) s (s.current_task cpu)
      (λ h. release-other (s.last_task cpu) (s.current_task cpu) s (ground arith))

saved-context :
    (cur c : ℕ) (s : Kmt)
    → (((saved cur c s).tasks cur).context (s.tasks cur).i_nest ≡ c)
      × (((saved cur c s).tasks cur).i_nest ≡ (s.tasks cur).i_nest + 1)
unfolding saved
saved-context cur c s = (ground arith, ground arith)

-- What one call of `kmt_context_save` on a CPU does for a task that is not its current one: the task it had left is
-- free to run anywhere.
record Left (cpu t : ℕ) (s s' : Kmt) : Type 0 where
  freed :
      s.last_task cpu ≡ t
      → ((s'.tasks t).context ≡ (s.tasks t).context)
        × ((s'.tasks t).i_nest ≡ decrement (s.tasks t).i_nest)
        × ((s'.tasks t).running ≡ false)
  idle : s'.idle_tasks ≡ s.idle_tasks
  current : s'.current_task ≡ s.current_task

-- What holds of the state that the handler leaves.
abbrev Reached : (Kmt → Type 0) → Option Kmt → Type 0
Reached P (some s) = P s
Reached P none = Unit {0}

module _ (cpu t : ℕ) where
  -- A state with the same task `t` and the same globals.
  record Alike (s s' : Kmt) : Type 0 where
    task : s'.tasks t ≡ s.tasks t
    last : s'.last_task ≡ s.last_task
    idle : s'.idle_tasks ≡ s.idle_tasks
    current : s'.current_task ≡ s.current_task

  save_context-Alike :
      (c : ℕ) (s : Kmt) → s.current_task cpu ≢ t → Reached (Alike s) (save_context cpu c s)
  unfolding save_context
  save_context-Alike c s ne =
      let cur = s.current_task cpu in
      let other : (cur == t) ≡ false = ground arith in
      elim (Bool-cases (cur == null)) [
        | inl nil ↦ rw nil tt
        | inr nil ↦ elim (Bool-cases (cur == s.idle_tasks cpu)) [
          | inl i ↦
              rw (nil, i)
                (record { task = rw other refl; last = refl; idle = refl; current = refl })
          | inr i ↦ elim (Bool-cases (ltb (s.tasks cur).i_nest 4)) [
            | inl lt ↦
                rw (nil, i, lt)
                  (record { task = rw other refl; last = refl; idle = refl; current = refl })
            | inr lt ↦ rw (nil, i, lt) tt
          ]
        ]
      ]

  leave_last-Left :
      (s : Kmt)
      → s.current_task cpu ≢ t
      → t ≢ null
      → s.idle_tasks cpu ≢ t
      → Left cpu t s (leave_last cpu s)
  unfolding leave_last release
  leave_last-Left s ne some_ other =
      let last = s.last_task cpu in
      elim (Bool-cases (
        not (last == null) && not (last == s.idle_tasks cpu) && not (last == s.current_task cpu))) [
          | inl h ↦ rw h (record { freed = λ e. freed_task s last e; idle = refl; current = refl })
          | inr h ↦
              rw h (record { freed = λ e. absurd (ground arith); idle = refl; current = refl })
        ]
    where
      freed_task :
          (s : Kmt) (last : ℕ)
          → last ≡ t
          → (((release last s).tasks t).context ≡ (s.tasks t).context)
            × (((release last s).tasks t).i_nest ≡ decrement (s.tasks t).i_nest)
            × (((release last s).tasks t).running ≡ false)
      freed_task s last e =
          let self : (last == t) ≡ true = ground arith in
          rw self (ap (λ u. (s.tasks u).context) e, ap (λ u. decrement (s.tasks u).i_nest) e, refl)

  kmt_context_save-Left :
      (c : ℕ) (s : Kmt) {s' : Kmt}
      → s.current_task cpu ≢ t
      → t ≢ null
      → s.idle_tasks cpu ≢ t
      → kmt_context_save cpu c s ≡ some s'
      → Left cpu t s s'
  unfolding kmt_context_save
  kmt_context_save-Left c s ne some_ other e =
      subst (Reached (Left cpu t s)) e (reached (save_context cpu c s) (save_context-Alike c s ne))
    where
      reached :
          (r : Option Kmt)
          → Reached (Alike s) r
          → Reached (Left cpu t s) (elim r [ none ↦ none | some x ↦ some (leave_last cpu x) ])
      reached none a = tt
      reached (some x) a =
          let l = leave_last-Left x (rw a.current ne) some_ (rw a.idle other) in
          record {
            freed = λ e.
                let (context, nest, stopped) = l.freed (rw a.last e) in
                (
                  context ∙ ap Task.context a.task,
                  nest ∙ ap (λ k. decrement k.i_nest) a.task,
                  stopped,
                );
            idle = l.idle ∙ a.idle;
            current = l.current ∙ a.current;
          }

-- A task behind the call of `kmt_context_save` that interrupts it.
record Interrupted (cpu cur c i : ℕ) (s s' : Kmt) : Type 0 where
  context : (s'.tasks cur).context i ≡ c
  nest : (s'.tasks cur).i_nest ≡ i + 1
  last : s'.last_task cpu ≡ cur
  idle : s'.idle_tasks ≡ s.idle_tasks
  current : s'.current_task ≡ s.current_task

leave_last-globals :
    (cpu : ℕ) (s : Kmt)
    → ((leave_last cpu s).last_task cpu ≡ s.current_task cpu)
      × ((leave_last cpu s).idle_tasks ≡ s.idle_tasks)
      × ((leave_last cpu s).current_task ≡ s.current_task)
unfolding leave_last release
leave_last-globals cpu s =
    let last = s.last_task cpu in
    elim (Bool-cases
      (not (last == null) && not (last == s.idle_tasks cpu) && not (last == s.current_task cpu))) [
        | inl h ↦ rw h (at_own s.last_task cpu _, refl, refl)
        | inr h ↦ rw h (at_own s.last_task cpu _, refl, refl)
      ]

kmt_context_save-Interrupted :
    (cpu c : ℕ) (s : Kmt) {s' : Kmt}
    → s.current_task cpu ≢ null
    → s.current_task cpu ≢ s.idle_tasks cpu
    → (s.tasks (s.current_task cpu)).i_nest < 4
    → kmt_context_save cpu c s ≡ some s'
    → Interrupted cpu (s.current_task cpu) c (s.tasks (s.current_task cpu)).i_nest s s'
unfolding kmt_context_save saved
kmt_context_save-Interrupted cpu c s {s'} ne other lt e =
    let cur = s.current_task cpu in
    let x = saved cur c s in
    let e' : some (leave_last cpu x) ≡ some s' =
      rw (kmt_context_save, save_context-saved cpu c s ne other lt) at e in
    let kept : (leave_last cpu x).tasks cur ≡ x.tasks cur = leave_last-current cpu x in
    let (last, idle, current) = leave_last-globals cpu x in
    let (context, nest) = saved-context cur c s in
    subst (Reached (Interrupted cpu cur c (s.tasks cur).i_nest s)) e' (record {
      context = ap (λ (k : Task). k.context (s.tasks cur).i_nest) kept ∙ context;
      nest = ap Task.i_nest kept ∙ nest;
      last = last;
      idle = idle;
      current = current;
    })

-- A task `cur` runs on a CPU and on no other one, and is the idle task of none; at most three contexts of it are
-- saved. An interrupt saves its context `c`, and `kmt_schedule` turns the CPU to another task; the
-- next interrupt of that CPU sets the task free; then a CPU, the same or another one, makes it its current
-- task. If none of these calls faults, the last one returns the context `c`: the task goes on where it was
-- interrupted, with as many saved contexts as before, and is marked as running.
pub kmt_schedule-Interrupted :
    (cpu other cur c c' : ℕ) {d d' : ℕ} (s : Kmt) {s1 s2 s3 s4 : Kmt}
    → s.current_task cpu ≡ cur
    → ((k : ℕ) → k ≢ cpu → s.current_task k ≢ cur)
    → ((k : ℕ) → s.idle_tasks k ≢ cur)
    → cur ≢ null
    → (s.tasks cur).i_nest < 4
    → kmt_context_save cpu c s ≡ some s1
    → kmt_schedule cpu s1 ≡ handled d s2
    → s2.current_task cpu ≢ cur
    → kmt_context_save cpu c' s2 ≡ some s3
    → kmt_schedule other s3 ≡ handled d' s4
    → s4.current_task other ≡ cur
    → (d' ≡ c) × ((s4.tasks cur).i_nest ≡ (s.tasks cur).i_nest) × ((s4.tasks cur).running ≡ true)
kmt_schedule-Interrupted cpu other cur c c' s {s1} {s2} {s3} {s4} at alone busy ne lt save away gone
      next back taken =
    let i = (s.tasks cur).i_nest in
    let first : Interrupted cpu cur c i s s1 =
      subst (λ t. Interrupted cpu t c (s.tasks t).i_nest s s1) at
        (kmt_context_save-Interrupted cpu c s (rw at ne) (rw at (λ e. busy cpu (sym e))) (rw at lt)
          save) in
    let turn = kmt_schedule-Scheduled cpu cur s1 away in
    let same : s2.tasks cur ≡ s1.tasks cur = turn.left gone in
    let idle : s2.idle_tasks ≡ s.idle_tasks = turn.idle ∙ first.idle in
    let l = kmt_context_save-Left cpu cur c' s2 gone ne (rw idle (busy cpu)) next in
    let (context, nest, stopped) = l.freed (ap (λ (f : ℕ → ℕ). f cpu) turn.last ∙ first.last) in
    let depth : (s3.tasks cur).i_nest ≡ i =
      nest
      ∙ ap (λ (k : Task). decrement k.i_nest) same
      ∙ ap decrement first.nest
      ∙ omega (arith, lt) in
    let elsewhere : s3.current_task other ≢ cur = rw l.current (elim (ℕ_discrete other cpu) [
      | yes e ↦ rw e gone
      | no apart ↦ rw (turn.beside other apart, first.current) (alone other apart)
    ]) in
    let (found, deep, runs) =
      (kmt_schedule-Scheduled other cur s3 back).taken taken elsewhere
        (rw (l.idle, idle) (busy other)) in
    (
      found
          ∙ ap (λ (f : ℕ → ℕ). f (s3.tasks cur).i_nest) context
          ∙ ap (s2.tasks cur).context depth
          ∙ ap (λ (k : Task). k.context i) same
          ∙ first.context,
      deep ∙ depth,
      runs,
    )
