-- ===== src/Kmt/Outcomes.antt =====
-- What `kmt_schedule` of kernel/src/kmt.c does once its loop has chosen.
use native.Mathlib.Decide.{ℕ_discrete}
use mathlib.Core.Path.{fun_ext}
use nju_os_lab.Prelude.{
  ℕ, ◌<◌, ◌⊎◌, ◌^◌, ltb, ◌+◌, ◌≤◌, ◌≡◌, ◌≢◌, refl, sym, ap, ◌∙◌, inl, inr, true, false, arith, ◌==◌,
  Bool-cases, ltb→lt, update,
}
use nju_os_lab.Common.{null}
use nju_os_lab.Kmt.{
  Kmt, Task, Choice, exhausted, again, switch_to, lost, Handled, handled, fault, decrement, resume,
}

-- What `kmt_schedule` on CPU `cpu` does for a choice: the context that it returns, and the state. Each task has
-- four contexts; an access outside of them, and a missing idle task, are faults.
pub data Turned (cpu cur : ℕ) (s : Kmt) : Choice → Handled → Type 0 where
  stays :
      (n : ℕ) (s' : Kmt)
      → (s.tasks cur).i_nest ≡ n + 1
      → n < 4
      → s'.current_task cpu ≡ cur
      → (s'.tasks cur).i_nest ≡ n
      → ((t : ℕ) → t ≢ cur → s'.tasks t ≡ s.tasks t)
      → Turned cpu cur s again (handled ((s.tasks cur).context n) s')
  stays_outside :
      ((s.tasks cur).i_nest ≡ 0) ⊎ (4 < (s.tasks cur).i_nest) → Turned cpu cur s again fault
  switches :
      (t : ℕ) (s' : Kmt)
      → (s.tasks t).i_nest < 4
      → s'.current_task cpu ≡ t
      → (s'.tasks t).running ≡ true
      → (s'.tasks t).i_nest ≡ (s.tasks t).i_nest
      → ((u : ℕ) → u ≢ t → s'.tasks u ≡ s.tasks u)
      → Turned cpu cur s (switch_to t) (handled ((s.tasks t).context (s.tasks t).i_nest) s')
  switches_outside : (t : ℕ) → 4 ≤ (s.tasks t).i_nest → Turned cpu cur s (switch_to t) fault
  idles :
      (s' : Kmt)
      → s.idle_tasks cpu ≢ null
      → s'.current_task cpu ≡ s.idle_tasks cpu
      → ((t : ℕ) → s'.tasks t ≡ s.tasks t)
      → Turned cpu cur s exhausted (handled ((s.tasks (s.idle_tasks cpu)).context 0) s')
  no_idle : s.idle_tasks cpu ≡ null → Turned cpu cur s exhausted fault

module _ (cpu cur : ℕ) (s : Kmt) where
  own : (t : ℕ) (x : Task) → (update s.tasks t x t).i_nest ≡ x.i_nest
  own t x = let self : (t == t) ≡ true = ground arith in rw self

  outside :
      ltb (decrement (s.tasks cur).i_nest) 4 ≡ false
      → ((s.tasks cur).i_nest ≡ 0) ⊎ (4 < (s.tasks cur).i_nest)
  outside ge = elim (ℕ_discrete (s.tasks cur).i_nest 0) [
    | yes z ↦ inl z
    | no ne ↦ let four : 4 ≤ decrement (s.tasks cur).i_nest = ground arith in inr (omega arith)
  ]

  resume_again :
      (s.tasks cur).i_nest < 2 ^ 32
      → s.current_task cpu ≡ cur
      → Turned cpu cur s again (resume cpu cur again s)
  unfolding resume
  resume_again word at = elim (Bool-cases (ltb (decrement (s.tasks cur).i_nest) 4)) [
    | inl lt ↦
        let n = decrement (s.tasks cur).i_nest in
        let small : n < 4 = ltb→lt n 4 lt in
        rw lt (
          stays n (record s { tasks = update s.tasks cur (record (s.tasks cur) { i_nest = n }) })
            (omega arith) small at (own cur (record (s.tasks cur) { i_nest = n }))
            (λ t ne. ground arith))
    | inr ge ↦ rw ge (stays_outside (outside ge))
  ]

  resume_switch : (t : ℕ) → Turned cpu cur s (switch_to t) (resume cpu cur (switch_to t) s)
  unfolding resume
  resume_switch t = elim (Bool-cases (ltb (s.tasks t).i_nest 4)) [
    | inl lt ↦ rw lt (
        switches t _ (ltb→lt _ 4 lt) (ground arith)
          (let self : (t == t) ≡ true = ground arith in rw self) (own t _) (λ u ne. ground arith))
    | inr ge ↦ rw ge (switches_outside t (ground arith))
  ]

  resume_idle : Turned cpu cur s exhausted (resume cpu cur exhausted s)
  unfolding resume
  resume_idle = elim (Bool-cases (s.idle_tasks cpu == null)) [
    | inl e ↦ rw e (no_idle (ground arith))
    | inr ne ↦ rw ne (idles _ (ground arith) (ground arith) (λ t. refl))
  ]

pub Turned-choice :
    (cpu cur : ℕ) (s : Kmt) (c : Choice)
    → (s.tasks cur).i_nest < 2 ^ 32
    → s.current_task cpu ≡ cur
    → c ≢ lost
    → Turned cpu cur s c (resume cpu cur c s)
Turned-choice cpu cur s again word at ne = resume_again cpu cur s word at
Turned-choice cpu cur s (switch_to t) word at ne = resume_switch cpu cur s t
Turned-choice cpu cur s exhausted word at ne = resume_idle cpu cur s
Turned-choice cpu cur s lost word at ne = absurd (ne refl)

pub same_current :
    (cpu cur : ℕ) (s : Kmt)
    → s.current_task cpu ≡ cur
    → record s { current_task = update s.current_task cpu cur } ≡ s
same_current cpu cur s e = ap {A = ℕ → ℕ} (λ f. record s { current_task = f }) (fun_ext λ i. kept i)
  where
    kept : (i : ℕ) → update s.current_task cpu cur i ≡ s.current_task i
    kept i = elim (ℕ_discrete cpu i) [
      | yes same ↦
          let self : (cpu == i) ≡ true = ground arith in rw self (sym e ∙ ap s.current_task same)
      | no ne ↦ let other : (cpu == i) ≡ false = ground arith in rw other
    ]
