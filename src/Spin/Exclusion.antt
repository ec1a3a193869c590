-- ===== src/Spin/Exclusion.antt =====
-- Spin locks (kernel/src/spinlock.c) taken by several CPUs at once. The exchange of `_lock` is one
-- step, and so is each switch of the interrupts; the steps of different CPUs interleave freely.
use native.Mathlib.Decide.{ℕ_discrete}
use mathlib.Core.Path.{subst}
use mathlib.Core.Logic.{◌≢◌}
use nju_os_lab.Prelude.{ℕ, ◌≡◌, refl, true, false, arith, ◌==◌, update}
use nju_os_lab.Spin.{Cpu, interrupt_off, interrupt_on}

-- Where a CPU stands with the lock.
pub data Pc : Type 0 where
  outside : Pc  -- before `spin_lock`
  spinning : Pc  -- in the loop of `_lock`
  inside : Pc  -- between the return of `spin_lock` and `spin_unlock`
  released : Pc  -- in `spin_unlock`, before `interrupt_on`

-- The word `lk->lock`, the CPUs, and where they stand.
pub record System : Type 0 where
  pub word : ℕ
  pub cpu : ℕ → Cpu
  pub pc : ℕ → Pc

-- The steps of CPU `i`.
pub data Step (s : System) : System → Type 0 where
  enter :
      (i : ℕ)
      → s.pc i ≡ outside
      → Step s
          (record s { cpu = update s.cpu i (interrupt_off (s.cpu i)); pc = update s.pc i spinning })
  spin : (i : ℕ) → s.pc i ≡ spinning → s.word ≡ 1 → Step s (record s { word = 1 })
  take :
      (i : ℕ)
      → s.pc i ≡ spinning
      → s.word ≢ 1
      → Step s (record s { word = 1; pc = update s.pc i inside })
  unlock : (i : ℕ) → s.pc i ≡ inside → Step s (record s { word = 0; pc = update s.pc i released })
  leave :
      (i : ℕ)
      → s.pc i ≡ released
      → Step s
          (record s { cpu = update s.cpu i (interrupt_on (s.cpu i)); pc = update s.pc i outside })

-- A fresh lock (`spin_init`), and CPUs that hold no lock.
pub record Start (s : System) : Type 0 where
  pub free : s.word ≡ 0
  pub out : (i : ℕ) → s.pc i ≡ outside
  pub none_nested : (i : ℕ) → (s.cpu i).i_nest_num ≡ 0

pub data Reach (s : System) : System → Type 0 where
  here : Reach s s
  step : {t u : System} → Reach s t → Step t u → Reach s u

-- Between `spin_lock` and the end of `spin_unlock` interrupts are off, and the CPU is nested once.
abbrev pub Quiet : Pc → Cpu → Type 0
Quiet outside c = c.i_nest_num ≡ 0
Quiet spinning c = (c.flag ≡ false) × (c.i_nest_num ≡ 1)
Quiet inside c = (c.flag ≡ false) × (c.i_nest_num ≡ 1)
Quiet released c = (c.flag ≡ false) × (c.i_nest_num ≡ 1)

pub record Inv (s : System) : Type 0 where
  pub held : (i : ℕ) → s.pc i ≡ inside → s.word ≡ 1
  pub alone : (i j : ℕ) → s.pc i ≡ inside → s.pc j ≡ inside → i ≡ j
  pub quiet : (i : ℕ) → Quiet (s.pc i) (s.cpu i)

Start-Inv : {s : System} → Start s → Inv s
Start-Inv {s} st = record {
  held = λ i e. cc (st.out i);
  alone = λ i j e f. cc (st.out i);
  quiet = λ i. rw (st.out i) (st.none_nested i);
}

module _ (pc : ℕ → Pc) (cpu : ℕ → Cpu) (i j : ℕ) (p : Pc) (rest : Quiet (pc j) (cpu j)) where
  move-Quiet : (c : Cpu) → Quiet p c → Quiet (update pc i p j) (update cpu i c j)
  move-Quiet c h = elim (ℕ_discrete i j) [
    | yes e ↦ let same : (i == j) ≡ true = ground arith in rw same h
    | no ne ↦ let other : (i == j) ≡ false = ground arith in rw other rest
  ]

  stay-Quiet : Quiet p (cpu i) → Quiet (update pc i p j) (cpu j)
  stay-Quiet h = elim (ℕ_discrete i j) [
    | yes e ↦
        let same : (i == j) ≡ true = ground arith in rw same (subst (λ k. Quiet p (cpu k)) e h)
    | no ne ↦ let other : (i == j) ≡ false = ground arith in rw other rest
  ]

-- What `Quiet` says of the CPU that moves.
Quiet-at : {s : System} → Inv s → (i : ℕ) {p : Pc} → s.pc i ≡ p → Quiet p (s.cpu i)
Quiet-at {s} v i e = subst (λ p. Quiet p (s.cpu i)) e (v.quiet i)

off-Quiet : (c : Cpu) → Quiet outside c → Quiet spinning (interrupt_off c)
unfolding interrupt_off
off-Quiet c h = (refl, omega arith)

on-Quiet : (c : Cpu) → Quiet released c → Quiet outside (interrupt_on c)
unfolding interrupt_on
on-Quiet c h = ground arith

Step-Inv : {s t : System} → Step s t → Inv s → Inv t
Step-Inv {s} (enter i e) v = record {
  held = λ j p. ground (arith, v.held j);
  alone = λ j k p q. ground (arith, v.alone j k);
  quiet =
      λ j. move-Quiet s.pc s.cpu i j spinning (v.quiet j) _ (off-Quiet (s.cpu i) (Quiet-at v i e));
}
Step-Inv {s} (spin i e w) v = record { held = λ j p. refl; alone = v.alone; quiet = v.quiet }
Step-Inv {s} (take i e w) v = record {
  held = λ j p. refl;
  alone = λ j k p q. ground (arith, v.held j, v.held k);
  quiet = λ j. stay-Quiet s.pc s.cpu i j inside (v.quiet j) (Quiet-at v i e);
}
Step-Inv {s} (unlock i e) v = record {
  held = λ j p. ground (arith, v.alone i j);
  alone = λ j k p q. ground (arith, v.alone j k);
  quiet = λ j. stay-Quiet s.pc s.cpu i j released (v.quiet j) (Quiet-at v i e);
}
Step-Inv {s} (leave i e) v = record {
  held = λ j p. ground (arith, v.held j);
  alone = λ j k p q. ground (arith, v.alone j k);
  quiet =
      λ j. move-Quiet s.pc s.cpu i j outside (v.quiet j) _ (on-Quiet (s.cpu i) (Quiet-at v i e));
}

Reach-Inv : {s t : System} → Inv s → Reach s t → Inv t
Reach-Inv v here = v
Reach-Inv v (step r st) = Step-Inv st (Reach-Inv v r)

-- From a fresh lock, whatever the order of the steps: at most one CPU is between `spin_lock` and
-- `spin_unlock`, the lock word is then 1, and the interrupts of that CPU are off.
pub mutual_exclusion :
    {s t : System}
    → Start s
    → Reach s t
    → (i j : ℕ) → t.pc i ≡ inside
    → t.pc j ≡ inside
    → (i ≡ j) × (t.word ≡ 1) × ((t.cpu i).flag ≡ false)
mutual_exclusion st r i j e f =
    let v = Reach-Inv (Start-Inv st) r in (v.alone i j e f, v.held i e, (Quiet-at v i e).0)
