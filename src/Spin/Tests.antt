-- ===== src/Spin/Tests.antt =====
-- The theorems about kernel/src/spinlock.c and the interrupt nesting at concrete CPUs.
use nju_os_lab.Prelude.{ℕ, ◌≡◌, refl, true, false, arith, update}
use nju_os_lab.Spin.{Cpu, interrupt_off, interrupt_on, init_cpu}
use nju_os_lab.Spin.Nesting.{Code, end, section, run, depth, Restored, run-Restored}
use nju_os_lab.Spin.Exclusion.{
  System, outside, spinning, inside, Start, Reach, here, step, enter, take, mutual_exclusion,
}

abbrev idle_cpu : Cpu
idle_cpu = record { flag = true; i_nest_num = 0; i_enable = true }

abbrev nested : Code
nested = section (section end end) (section end end)

run-Restored_example : Restored idle_cpu (run nested idle_cpu)
run-Restored_example =
    run-Restored nested idle_cpu (λ h. absurd (omega arith)) (unfold depth in omega arith)

abbrev start : System
start = record { word = 0; cpu = λ i. idle_cpu; pc = λ i. outside }

start-Start : Start start
start-Start = record { free = refl; out = λ i. refl; none_nested = λ i. refl }

-- CPU 1 enters and takes the lock.
abbrev entered : System
entered = record start {
  cpu = update start.cpu 1 (interrupt_off idle_cpu);
  pc = update start.pc 1 spinning;
}

abbrev taken : System
taken = record entered { word = 1; pc = update entered.pc 1 inside }

taken-Reach : Reach start taken
taken-Reach = step (step here (enter 1 refl)) (take 1 refl (omega arith))

mutual_exclusion_example : (◌≡◌ {A = ℕ} 1 1) × (◌≡◌ {A = ℕ} 1 1) × ((taken.cpu 1).flag ≡ false)
mutual_exclusion_example = mutual_exclusion start-Start taken-Reach 1 1 refl refl

-- A fresh CPU whose interrupts are off keeps them off after a section.
fresh_cpu :
    (interrupt_on (interrupt_off (init_cpu (record idle_cpu { flag = false })))).flag ≡ false
unfolding interrupt_on interrupt_off init_cpu
fresh_cpu = refl
