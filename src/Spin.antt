-- ===== src/Spin.antt =====
-- kernel/src/os.c and kernel/src/spinlock.c: switching interrupts off and on, nested, and the spin
-- locks that do so. What is modelled is the build without `DEBUG`.
pub mod Nesting
pub mod Exclusion
mod Tests
use nju_os_lab.Prelude.{
  ℕ, zero, suc, ◌+◌, ◌-◌, ◌%◌, ◌^◌, Bool, true, false, ◌&&◌, ◌||◌, leb, ◌==◌, if◌then◌else◌,
}

-- The state of one CPU: the interrupt flag that `ienabled` reads and `iset` writes, and the fields
-- `i_nest_num`, an `int` as its bit pattern, and `i_enable` of `struct CPU`.
pub record Cpu : Type 0 where
  pub flag : Bool
  pub i_nest_num : ℕ
  pub i_enable : Bool

-- `interrupt_off`
unfoldable pub interrupt_off : Cpu → Cpu
interrupt_off c = record {
  flag = false;
  i_nest_num = (c.i_nest_num + 1) % 2 ^ 32;
  i_enable = if c.i_nest_num == 0 then c.flag else c.i_enable;
}

-- `interrupt_on`
unfoldable pub interrupt_on : Cpu → Cpu
interrupt_on c =
    if c.flag then c else if (c.i_nest_num == 0) || leb (2 ^ 31) c.i_nest_num then c else record {
      flag = if (c.i_nest_num - 1 == 0) && c.i_enable then true else c.flag;
      i_nest_num = c.i_nest_num - 1;
      i_enable = c.i_enable;
    }

-- `init_cpu`, the fields that matter here; the flag is not its business.
unfoldable pub init_cpu : Cpu → Cpu
init_cpu c = record { flag = c.flag; i_nest_num = 0; i_enable = true }
