-- ===== src/Cte.antt =====
-- abstract-machine/am/src/x86/qemu/cte.c as built for x86_64: the entry of every interrupt. The assembly
-- in front of `__am_irq_handle` has stored the general registers and the trap frame, and `__am_iret`
-- loads a context. Messages of events are left out.
pub mod Resume
pub mod Events
mod Tests
use nju_os_lab.Prelude.Masks.{and_bits}
use nju_os_lab.Prelude.Flags.{or_bits}
use nju_os_lab.Prelude.{
  ℕ, suc, ◌+◌, ◌*◌, ◌^◌, Bool, not, ◌&&◌, ◌||◌, Option, none, some, ltb, leb, ◌==◌, if◌then◌else◌,
  sub64,
}
use nju_os_lab.Common.{null}
use nju_os_lab.Vme.{mmap_none, mmap_write}

-- The kinds of `Event`.
pub data Kind : Type 0 where
  event_null : Kind
  event_yield : Kind
  event_syscall : Kind
  event_pagefault : Kind
  event_error : Kind
  event_irq_timer : Kind
  event_irq_iodev : Kind

-- `Event`
pub record Event : Type 0 where
  pub event : Kind
  pub cause : ℕ
  pub ref : ℕ

-- `struct Context`, with the general registers by their place in it, from `rax` on.
pub record Context : Type 0 where
  pub cr3 : ℕ
  pub registers : ℕ → ℕ
  pub rip : ℕ
  pub cs : ℕ
  pub rflags : ℕ
  pub rsp : ℕ
  pub ss : ℕ
  pub rsp0 : ℕ

-- `struct trap_frame`: the context with the general registers, and what the processor stored.
pub record Frame : Type 0 where
  pub saved_context : Context
  pub irq : ℕ
  pub errcode : ℕ
  pub rip : ℕ
  pub cs : ℕ
  pub rflags : ℕ
  pub rsp : ℕ
  pub ss : ℕ

-- The CPU: its control registers, the kernel stack in its task segment, and how many interrupts it has
-- acknowledged by `__am_lapic_eoi`.
pub record Cpu : Type 0 where
  pub cr2 : ℕ
  pub cr3 : ℕ
  pub rsp0 : ℕ
  pub acknowledged : ℕ

-- `T_IRQ0`
abbrev pub t_irq0 : ℕ
t_irq0 = 32

-- The context of the interrupted code.
unfoldable pub save : Frame → Cpu → Context
save tf cpu = record tf.saved_context {
  rip = tf.rip;
  cs = tf.cs;
  rflags = tf.rflags;
  rsp = tf.rsp;
  rsp0 = cpu.rsp0;
  ss = tf.ss;
  cr3 = cpu.cr3;
}

-- The exceptions that `switch` names, but for the page fault: 0, 6, 7, 8, 10, 11, 12 and 13.
unfoldable pub is_fault : (irq : ℕ) → Bool
is_fault irq = (irq == 0) || (leb 6 irq && leb irq 8) || (leb 10 irq && leb irq 13)

-- `MMAP_READ`
abbrev pub mmap_read : ℕ
mmap_read = 1

-- The cause of a page fault.
abbrev pub fault_cause : (errcode : ℕ) → ℕ
fault_cause errcode =
    or_bits 64 (if and_bits 64 errcode 1 == 0 then 0 else mmap_none)
      (if and_bits 64 errcode 2 == 0 then mmap_read else mmap_write)

-- The `switch` of `__am_irq_handle`.
unfoldable pub event_of : (irq errcode cr2 : ℕ) → Event
event_of irq errcode cr2 =
    if irq == t_irq0
    then record { event = event_irq_timer; cause = 0; ref = 0 }
    else if (irq == t_irq0 + 1) || (irq == t_irq0 + 4)
    then record { event = event_irq_iodev; cause = 0; ref = 0 }
    else if irq == 0x80
    then record { event = event_syscall; cause = 0; ref = 0 }
    else if irq == 0x81
    then record { event = event_yield; cause = 0; ref = 0 }
    else if irq == 14
    then record { event = event_pagefault; cause = fault_cause errcode; ref = cr2 }
    else if is_fault irq
    then record { event = event_error; cause = 0; ref = 0 }
    else record { event = event_error; cause = errcode; ref = 0 }

-- Interrupts of devices are acknowledged.
abbrev pub acknowledge : (irq : ℕ) → Cpu → Cpu
acknowledge irq cpu =
    if leb t_irq0 irq && ltb irq (t_irq0 + 32)
    then record cpu { acknowledged = suc cpu.acknowledged }
    else cpu

-- The loads in front of `__am_iret`.
abbrev pub load : Context → Cpu → Cpu
load ctx cpu = if ctx.cr3 == null then cpu else record cpu { cr3 = ctx.cr3; rsp0 = ctx.rsp0 }

-- How `__am_irq_handle` ends: the processor goes on with a context, or the handler returned `NULL`.
pub data Return (S : Type 0) : Type 0 where
  iret : Context → Cpu → S → Return S
  null_context : Return S

module _ {S : Type 0} (user_handler : Event → Context → S → Option Context × S) where
  return_to : Cpu → Option Context × S → Return S
  return_to cpu (none, s) = null_context
  return_to cpu (some ctx, s) = iret ctx (load ctx cpu) s

  -- `__am_irq_handle`, with the state of the kernel behind `user_handler`.
  unfoldable pub am_irq_handle : Frame → Cpu → S → Return S
  unfolding return_to
  am_irq_handle tf cpu s =
      return_to (acknowledge tf.irq cpu)
        (user_handler (event_of tf.irq tf.errcode cpu.cr2) (save tf cpu) s)

-- `KSEL`, for segment 1
abbrev pub ksel : ℕ → ℕ
ksel seg = seg * 2 ^ 3

-- `kcontext`, for the address of `__am_kcontext_start`: registers `rdi` and `rsi` hold the argument and the
-- function. All other fields are 0.
abbrev pub rdi : ℕ
rdi = 6

abbrev pub rsi : ℕ
rsi = 5

unfoldable pub kcontext : (kcontext_start kstack_end func arg : ℕ) → ℕ × Context
kcontext kcontext_start kstack_end func arg = (
  sub64 kstack_end 176,
  record {
    cr3 = 0;
    registers = λ r. if r == rdi then arg else if r == rsi then func else 0;
    rip = kcontext_start;
    cs = ksel 1;
    rflags = 0x200;
    rsp = kstack_end;
    ss = 0;
    rsp0 = 0;
  },
)
