-- ===== src/Irq/Tests.antt =====
-- Registration and dispatch of interrupts (kernel/src/os.c) at concrete handlers.
use nju_os_lab.Prelude.{ℕ, ◌+◌, ◌≡◌, refl, List, [], ◌∷◌, ◌++◌, some, arith}
use nju_os_lab.Irq.{Irq, Handler, seq_min, seq_max, on_irq, trap, serve, trap_loop}
use nju_os_lab.Irq.Order.{IsSorted, one, more, before, behind, on_irq-IsSorted}
use nju_os_lab.Irq.Dispatch.{trap-run_all, run_all, Concerned, last_context}

-- A handler that counts its calls and returns a fixed context.
abbrev counting : ℕ → Handler ℕ
counting ret ev context n = (ret, n + 1)

abbrev irq : (seq event ret : ℕ) → Irq ℕ
irq seq event ret = record { seq = seq; event = event; handler = counting ret }

abbrev save : Irq ℕ
save = irq seq_min 0 0

abbrev schedule : Irq ℕ
schedule = irq seq_max 0 77

abbrev keyboard : Irq ℕ
keyboard = irq 0 6 0

abbrev kernel_list : List (Irq ℕ)
kernel_list = save ∷ keyboard ∷ schedule ∷ []

kernel_list-IsSorted : IsSorted kernel_list
kernel_list-IsSorted = more (omega arith) (more (omega arith) (one schedule))

on_irq_example :
    (on_irq 0x1000 0 5 (counting 3) kernel_list
      ≡ some (before (irq 0 5 3) kernel_list ++ irq 0 5 3 ∷ behind (irq 0 5 3) kernel_list))
    × IsSorted (before (irq 0 5 3) kernel_list ++ irq 0 5 3 ∷ behind (irq 0 5 3) kernel_list)
on_irq_example =
    on_irq-IsSorted 0x1000 0 5 (counting 3) kernel_list (omega arith) kernel_list-IsSorted

trap_example :
    (m : List (Irq ℕ)) × Concerned 6 kernel_list m
    × (trap 6 10 kernel_list 0
        ≡ (let (rets, last) = run_all 6 10 m 0 in (last_context 0 rets, last)))
trap_example = trap-run_all 6 10 kernel_list 0

-- A timer event does not concern the keyboard handler: two handlers run.
timer_runs : trap 5 10 kernel_list 0 ≡ (77, 2)
unfolding trap trap_loop serve
timer_runs = refl
