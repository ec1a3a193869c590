-- ===== src/Cte/Resume.antt =====
-- Contexts that `__am_irq_handle` of abstract-machine/am/src/x86/qemu/cte.c saves and loads.
use nju_os_lab.Prelude.{ℕ, ◌≡◌, ◌≢◌, Option, some, false, ◌==◌, refl, ap, arith}
use nju_os_lab.Common.{null}
use nju_os_lab.Cte.{
  Event, Context, Frame, Cpu, iret, save, event_of, acknowledge, load, return_to, am_irq_handle,
}

-- The processor goes on where `tf` interrupted it on a CPU in the state `before`.
pub record Resumed (tf : Frame) (before : Cpu) (ctx : Context) (after : Cpu) : Type 0 where
  pub registers : (r : ℕ) → ctx.registers r ≡ tf.saved_context.registers r
  pub rip : ctx.rip ≡ tf.rip
  pub cs : ctx.cs ≡ tf.cs
  pub rflags : ctx.rflags ≡ tf.rflags
  pub stack : (ctx.rsp ≡ tf.rsp) × (ctx.ss ≡ tf.ss)
  pub tables : after.cr3 ≡ before.cr3
  pub kernel_stack : after.rsp0 ≡ before.rsp0

-- A handler that returns, at any later interrupt on any CPU, the context that was saved at an earlier one
-- makes the processor go on where the earlier one interrupted it: with the same registers, page tables
-- and kernel stack, if page tables were in use.
pub am_irq_handle-Resumed :
    {S : Type 0} (user_handler : Event → Context → S → Option Context × S) (tf later : Frame)
    (cpu cpu' : Cpu) (s s' : S)
    → cpu.cr3 ≢ null
    → user_handler (event_of later.irq later.errcode cpu'.cr2) (save later cpu') s
      ≡ (some (save tf cpu), s')
    → (ctx : Context) × (after : Cpu) × (am_irq_handle user_handler later cpu' s
        ≡ iret ctx after s')
      × Resumed tf cpu ctx after
unfolding am_irq_handle save
am_irq_handle-Resumed user_handler tf later cpu cpu' s s' ne e =
    let ctx = save tf cpu in
    let cpu1 = acknowledge later.irq cpu' in
    let loaded : (cpu.cr3 == null) ≡ false = ground arith in
    (
      ctx,
      load ctx cpu1,
      ap (return_to user_handler cpu1) e,
      record {
        registers = λ r. refl;
        rip = refl;
        cs = refl;
        rflags = refl;
        stack = (refl, refl);
        tables = rw loaded;
        kernel_stack = rw loaded;
      },
    )
