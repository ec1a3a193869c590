-- ===== src/Kmt/Turns.antt =====
-- What one call of `kmt_schedule` of kernel/src/kmt.c does for one task.
use mathlib.Core.Path.{subst}
use nju_os_lab.Prelude.{
  ℕ, ◌≡◌, ◌≢◌, refl, sym, ap, ◌∙◌, inl, inr, Bool-cases, true, false, ltb, arith, ◌==◌,
  if◌then◌else◌, update,
}
use nju_os_lab.Common.{null}
use nju_os_lab.Kmt.{
  Kmt, Task, Handled, handled, fault, Choice, again, switch_to, exhausted, lost, decrement, poll,
  poll_times, resume, kmt_schedule,
}

-- What holds of the context and the state that a handler returns.
abbrev Returned : (ℕ → Kmt → Type 0) → Handled → Type 0
Returned P (handled d s) = P d s
Returned P fault = Unit {0}

-- What one call of `kmt_schedule` on a CPU does for a task: if the CPU does not go on with the task, it leaves it as
-- it is; if it switches to the task, that goes on in its next context.
pub record Scheduled (cpu t : ℕ) (s : Kmt) (d : ℕ) (s' : Kmt) : Type 0 where
  pub left : s'.current_task cpu ≢ t → s'.tasks t ≡ s.tasks t
  pub taken :
      s'.current_task cpu ≡ t
      → s.current_task cpu ≢ t
      → s.idle_tasks cpu ≢ t
      → (d ≡ (s.tasks t).context (s.tasks t).i_nest)
        × ((s'.tasks t).i_nest ≡ (s.tasks t).i_nest)
        × ((s'.tasks t).running ≡ true)
  pub last : s'.last_task ≡ s.last_task
  pub idle : s'.idle_tasks ≡ s.idle_tasks
  pub beside : (k : ℕ) → k ≢ cpu → s'.current_task k ≡ s.current_task k

pub at_own : {A : Type 0} (f : ℕ → A) (k : ℕ) (x : A) → update f k x k ≡ x
at_own f k x = let self : (k == k) ≡ true = ground arith in rw self refl

at_other : {A : Type 0} (f : ℕ → A) (k : ℕ) (x : A) (i : ℕ) → i ≢ k → update f k x i ≡ f i
at_other f k x i ne = let other : (k == i) ≡ false = ground arith in rw other refl

module _ (cpu cur t : ℕ) (s : Kmt)
    (apart : s.current_task cpu ≢ t → s.idle_tasks cpu ≢ t → cur ≢ t) where
  -- The state with the current task set.
  here : Kmt
  here = record s { current_task = update s.current_task cpu cur }

  again-Scheduled : Returned (Scheduled cpu t s) (resume cpu cur again here)
  unfolding resume here
  again-Scheduled = elim (Bool-cases (ltb (decrement (s.tasks cur).i_nest) 4)) [
    | inr out ↦ rw out tt
    | inl inside ↦ rw inside (record {
      left = λ ne. at_other s.tasks cur _ t (λ e. ne (at_own s.current_task cpu cur ∙ sym e));
      taken = λ e ne other. absurd (apart ne other (sym (at_own s.current_task cpu cur) ∙ e));
      last = refl;
      idle = refl;
      beside = λ k ne. at_other s.current_task cpu cur k ne;
    })
  ]

  switch-Scheduled : (u : ℕ) → Returned (Scheduled cpu t s) (resume cpu cur (switch_to u) here)
  unfolding resume here
  switch-Scheduled u = elim (Bool-cases (ltb (s.tasks u).i_nest 4)) [
    | inr out ↦ rw out tt
    | inl inside ↦ rw inside (record {
      left = λ ne. at_other s.tasks u _ t (λ e. ne (at_own here.current_task cpu u ∙ sym e));
      taken = λ e ne other.
          let same : u ≡ t = sym (at_own here.current_task cpu u) ∙ e in
          (
            ap (λ u. (s.tasks u).context (s.tasks u).i_nest) same,
            ap (λ v. (update s.tasks u (record (s.tasks u) { running = true }) v).i_nest) (sym same)
                ∙ ap Task.i_nest (at_own s.tasks u _)
                ∙ ap (λ v. (s.tasks v).i_nest) same,
            ap (λ v. (update s.tasks u (record (s.tasks u) { running = true }) v).running)
                  (sym same)
                ∙ ap Task.running (at_own s.tasks u _),
          );
      last = refl;
      idle = refl;
      beside = λ k ne. at_other here.current_task cpu u k ne ∙ at_other s.current_task cpu cur k ne;
    })
  ]

  idle-Scheduled : Returned (Scheduled cpu t s) (resume cpu cur exhausted here)
  unfolding resume here
  idle-Scheduled = elim (Bool-cases (s.idle_tasks cpu == null)) [
    | inl out ↦ rw out tt
    | inr some_ ↦ rw some_ (record {
      left = λ ne. refl;
      taken = λ e ne other. absurd (other (sym (at_own here.current_task cpu _) ∙ e));
      last = refl;
      idle = refl;
      beside = λ k ne. at_other here.current_task cpu _ k ne ∙ at_other s.current_task cpu cur k ne;
    })
  ]

  resume-Scheduled : (c : Choice) → Returned (Scheduled cpu t s) (resume cpu cur c here)
  resume-Scheduled again = again-Scheduled
  resume-Scheduled (switch_to u) = switch-Scheduled u
  resume-Scheduled exhausted = idle-Scheduled
  resume-Scheduled lost = unfold resume in tt

-- The task that a CPU is on, or else its idle task.
chosen-apart :
    (cpu t : ℕ) (s : Kmt)
    → s.current_task cpu ≢ t
    → s.idle_tasks cpu ≢ t
    → (if s.current_task cpu == null then s.idle_tasks cpu else s.current_task cpu) ≢ t
chosen-apart cpu t s ne other = elim (Bool-cases (s.current_task cpu == null)) [
  | inl e ↦ rw e other
  | inr e ↦ rw e ne
]

pub kmt_schedule-Scheduled :
    (cpu t : ℕ) (s : Kmt) {d : ℕ} {s' : Kmt}
    → kmt_schedule cpu s ≡ handled d s'
    → Scheduled cpu t s d s'
unfolding kmt_schedule
kmt_schedule-Scheduled cpu t s e =
    let cur = if s.current_task cpu == null then s.idle_tasks cpu else s.current_task cpu in
    let choice = poll (here cpu cur t s (chosen-apart cpu t s)) cur (poll_times s) cur in
    subst (Returned (Scheduled cpu t s)) e (elim (Bool-cases (cur == null)) [
      | inl out ↦ rw out tt
      | inr some_ ↦
          rw some_ (unfold here in resume-Scheduled cpu cur t s (chosen-apart cpu t s) choice)
    ])
