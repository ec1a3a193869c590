-- ===== src/Cte/Tests.antt =====
-- The models of abstract-machine/am/src/x86/qemu/cte.c on concrete interrupts.
use nju_os_lab.Prelude.{◌≡◌, Option, some, refl, arith}
use nju_os_lab.Prelude.Masks.{and_bits}
use nju_os_lab.Prelude.Flags.{or_bits}
use nju_os_lab.Vme.{mmap_write}
use nju_os_lab.Cte.{
  Event, Context, Frame, Cpu, iret, save, event_of, am_irq_handle, event_pagefault, is_fault,
}
use nju_os_lab.Cte.Resume.{Resumed, am_irq_handle-Resumed}

-- A kernel that switches between two contexts: it goes on with the one it had, and keeps the other.
abbrev swap : Event → Context → Context → Option Context × Context
swap ev ctx kept = (some kept, ctx)

abbrev blank : Context
blank = record {
  cr3 = 0;
  registers = λ r. r;
  rip = 0;
  cs = 0;
  rflags = 0;
  rsp = 0;
  ss = 0;
  rsp0 = 0;
}

abbrev first : Frame
first = record {
  saved_context = blank;
  irq = 0x81;
  errcode = 0;
  rip = 0x4000;
  cs = 8;
  rflags = 0x200;
  rsp = 0x9000;
  ss = 16;
}

abbrev second : Frame
second = record first { irq = 32; rip = 0x5000 }

abbrev cpu0 : Cpu
cpu0 = record { cr2 = 0; cr3 = 0x1000; rsp0 = 0x8000; acknowledged = 0 }

resume_example :
    (ctx : Context) × (after : Cpu) × (am_irq_handle swap second cpu0 (save first cpu0)
      ≡ iret ctx after (save second cpu0))
    × Resumed first cpu0 ctx after
resume_example =
    am_irq_handle-Resumed swap first second cpu0 cpu0 (save first cpu0) (save second cpu0)
      (λ e. absurd (omega arith)) refl

-- A write to a page that is not there.
page_fault :
    event_of 14 2 0x7000 ≡ record { event = event_pagefault; cause = mmap_write; ref = 0x7000 }
unfolding event_of is_fault and_bits or_bits
page_fault = refl
