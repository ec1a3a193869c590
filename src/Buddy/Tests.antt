-- ===== src/Buddy/Tests.antt =====
-- Runs of the page allocator of kernel/src/page.c on small memories, and its theorems there.
use mathlib.Core.Option
use nju_os_lab.Common.{is_aligned, lock, unlock}
use nju_os_lab.Prelude.{◌+◌, ◌^◌, ◌≡◌, refl, List, [], ◌∷◌, map, some, arith}
use nju_os_lab.Buddy.{PageSystem, booted, overrun, page_init, trans_page_size, page_system_init}
use nju_os_lab.Buddy.Alloc.{
  page_alloc, find_page, alloc_in, alloc_space_from_page, get_space_in_page, take_whole, settle,
  convert_page_to_phsics,
}
use nju_os_lab.Buddy.Sample.{one_unit, one_unit-IsValid}
use nju_os_lab.Buddy.Tree.{free}
use nju_os_lab.Buddy.Booting.{Booted, page_system_init-Booted, page_system_init-overrun}
use nju_os_lab.Buddy.Grant.{Outcome, page_alloc-Outcome}
use nju_os_lab.Buddy.Free.{done, page_free, free_in, free_space_in_page}
use nju_os_lab.Buddy.Leak.{Untouched, page_free-Untouched}
use nju_os_lab.Buddy.History.{Call, Safe, run, run-Safe}

classes :
    map trans_page_size (1 ∷ 4096 ∷ 4097 ∷ (2 ^ 24) ∷ (2 ^ 24 + 1) ∷ [])
    ≡ 12 ∷ 12 ∷ 13 ∷ 24 ∷ 25 ∷ []
unfolding trans_page_size
classes = refl

-- A machine with heap.start in the first 16 MiB and heap.end at 128 MiB.
abbrev blank : PageSystem
blank = record {
  begin_page_addr = 0;
  begin_alloc_addr = 0;
  real_page_num = 0;
  page_pool = λ n. 0;
  page_locks = λ n. 0;
  nodes = λ a j. 0;
}

page_system_init_example :
    (s : PageSystem) × (page_system_init (2 ^ 24) (2 ^ 27) blank ≡ booted s)
    × Booted (2 ^ 24) (2 ^ 27) s
page_system_init_example =
    page_system_init-Booted (2 ^ 24) (2 ^ 27) blank (omega arith) refl (omega arith) (omega arith)
      (omega arith) (λ j. refl)

-- 8 GiB
overrun_example : page_system_init (2 ^ 24) (2 ^ 33) blank ≡ overrun
overrun_example = page_system_init-overrun (2 ^ 24) (2 ^ 33) blank (omega arith) (omega arith)

page_alloc_example : Outcome 5000 one_unit (λ n. free) (page_alloc 5000 one_unit)
page_alloc_example = page_alloc-Outcome one_unit-IsValid 5000

page_free_example :
    (s : PageSystem) × (page_free (2 ^ 25) one_unit ≡ done s) × Untouched one_unit (λ n. free) s
page_free_example =
    page_free-Untouched one_unit-IsValid (2 ^ 25) (omega arith) (omega arith) (omega arith)

abbrev script : List Call
script = Call.alloc 4096 ∷ Call.free (2 ^ 25) ∷ Call.alloc 4096 ∷ Call.alloc (2 ^ 24) ∷ []

run_example : Safe one_unit (λ n. free) script
run_example = run-Safe script one_unit-IsValid (omega arith)

-- The script grants two neighbouring blocks of 4 KiB, although the first is freed in between, and
-- then has no room for 16 MiB.
script_grants :
    Option.map (λ (bs, last). bs) (run script one_unit)
    ≡ some ((2 ^ 25, 12) ∷ (2 ^ 25 + 2 ^ 12, 12) ∷ [])
unfolding run page_alloc page_free find_page alloc_in alloc_space_from_page get_space_in_page
    take_whole settle convert_page_to_phsics lock unlock is_aligned trans_page_size page_init
    free_in free_space_in_page
script_grants = refl
