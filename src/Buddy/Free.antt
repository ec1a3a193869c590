-- ===== src/Buddy/Free.antt =====
-- kernel/src/page.c: `page_free` and `free_space_in_page`.
use nju_os_lab.Prelude.{
  ℕ, zero, suc, ◌+◌, ◌-◌, ◌/◌, ◌%◌, ◌^◌, ◌&&◌, ◌||◌, some, none, ltb, leb, ◌==◌, if◌then◌else◌,
  update, u64, sub64,
}
use nju_os_lab.Common.{lock, unlock}
use nju_os_lab.Buddy.{p_4k, p_16m, p_refuse, full_used, page_node_num, Nodes, PageSystem}
use nju_os_lab.Buddy.Alloc.{left_branch, right_branch, larger, convert_page_to_phsics}

-- The end of `free_space_in_page`: the byte of an inner node after its halves. `base` is the class
-- of the halves.
unfoldable pub restate : (index base : ℕ) → Nodes → Nodes
restate index base nd =
    if (nd (left_branch index) == base) && (nd (right_branch index) == base)
    then update nd index (suc base)
    else update nd index (larger (nd (left_branch index)) (nd (right_branch index)))

-- `free_space_in_page` on the bytes of one record. It recurs on `base_size`.
unfoldable pub free_space_in_page : PageSystem → (page ptr index base_size : ℕ) → Nodes → Nodes
free_space_in_page s page ptr index zero nd = nd
free_space_in_page s page ptr index (suc base) nd =
    let phsics_addr = convert_page_to_phsics s page index (suc base) in
    let half =
      if phsics_addr == ptr
      then left_branch index
      else if ltb ptr (u64 (phsics_addr + 2 ^ base))
      then left_branch index
      else right_branch index in
    let below = free_space_in_page s page ptr half base nd in
    if leb page_node_num index || ltb (suc base) p_4k || (suc base == p_refuse)
    then nd
    else if ltb ptr (u64 (phsics_addr + 2 ^ suc base))
    then nd
    else if (phsics_addr == ptr) && (nd index == full_used)
    then update nd index (suc base)
    else restate index base below

-- How `page_free` ends: `wild` is an access to `page_pool` at a negative index, `stuck` a wait for
-- a lock that nobody releases.
pub data Freed : Type 0 where
  done : PageSystem → Freed
  wild : Freed
  stuck : Freed

-- `page_num`, an `int`: the 32 low bits of the quotient, negative from `2 ^ 31` on.
abbrev pub page_num : PageSystem → ℕ → ℕ
page_num s ptr = sub64 (ptr - ptr % 2 ^ p_16m) s.begin_alloc_addr / 2 ^ p_16m % 2 ^ 32

-- The rest of `page_free`, for the unit `n` that it computes.
unfoldable pub free_in : (ptr n : ℕ) → PageSystem → Freed
free_in ptr n s =
    let page = s.page_pool n in
    if leb (2 ^ 31) n
    then wild
    else if leb s.real_page_num n
    then done s
    else elim (lock (s.page_locks n)) [
      | none ↦ stuck
      | some w ↦ done (record s {
        nodes = update s.nodes page (free_space_in_page s page ptr 1 p_16m (s.nodes page));
        page_locks = update (update s.page_locks n w) n (unlock w);
      })
    ]

-- `page_free`
unfoldable pub page_free : ℕ → PageSystem → Freed
page_free ptr s = free_in ptr (page_num s ptr) s
