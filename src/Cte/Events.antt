-- ===== src/Cte/Events.antt =====
-- Which event `__am_irq_handle` of abstract-machine/am/src/x86/qemu/cte.c makes of an interrupt, and
-- which interrupts it acknowledges.
use nju_os_lab.Prelude.{ℕ, suc, ◌+◌, ◌≤◌, ◌<◌, ◌≡◌, ◌⊎◌, Bool, true, false, arith}
use nju_os_lab.Cte.{
  Cpu, Kind, event_irq_timer, event_irq_iodev, event_of, acknowledge, t_irq0, is_fault,
}

abbrev pub is_device : Kind → Bool
is_device event_irq_timer = true
is_device event_irq_iodev = true
is_device _ = false

-- What the kernel hears of is acknowledged, and software interrupts and exceptions are not.
pub event_of-acknowledge :
    (irq errcode : ℕ) (cpu : Cpu)
    → (is_device (event_of irq errcode cpu.cr2).event ≡ true
        → (acknowledge irq cpu).acknowledged ≡ suc cpu.acknowledged)
      × ((irq < t_irq0) ⊎ (t_irq0 + 32 ≤ irq)
          → ((acknowledge irq cpu).acknowledged ≡ cpu.acknowledged)
            × (is_device (event_of irq errcode cpu.cr2).event ≡ false))
unfolding event_of is_fault
event_of-acknowledge irq errcode cpu = (λ h. ground arith, λ out. (ground arith, ground arith))
