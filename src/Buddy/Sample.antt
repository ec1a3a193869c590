-- ===== src/Buddy/Sample.antt =====
-- A small memory for the page allocator of kernel/src/page.c.
use nju_os_lab.Prelude.{◌+◌, ◌*◌, ◌^◌, refl, arith}
use nju_os_lab.Buddy.{PageSystem, page_init}
use nju_os_lab.Buddy.Tree.{free}
use nju_os_lab.Buddy.Valid.{IsValid}
use nju_os_lab.Buddy.Levels.{page_init-Clean}

-- One unit behind the unit of the records, all of it free.
abbrev pub one_unit : PageSystem
one_unit = record {
  begin_page_addr = 2 ^ 24;
  begin_alloc_addr = 2 ^ 25;
  real_page_num = 1;
  page_pool = λ n. 2 ^ 24 + n * 2 ^ 13;
  page_locks = λ n. 0;
  nodes = λ a. page_init (λ j. 0);
}

pub one_unit-IsValid : IsValid one_unit (λ n. free)
one_unit-IsValid = record {
  not_null = omega arith;
  aligned = refl;
  first_unit = refl;
  few = omega arith;
  no_wrap = omega arith;
  pool = λ n lt. refl;
  unlocked = λ n lt. refl;
  held = λ n lt. page_init-Clean (λ j. 0);
}
