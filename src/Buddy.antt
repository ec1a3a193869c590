-- ===== src/Buddy.antt =====
-- kernel/src/page.c and kernel/include/page.h: the physical page allocator, a buddy system in which
-- every 16 MiB unit of physical memory has a tree of 8191 bytes. Node 1 stands for the whole unit,
-- the nodes `2 * i` and `2 * i + 1` for the halves of the block of node `i`. The byte of a node is
-- the largest size class that can be allocated below it, `full_used` or `have_bubble`.
-- What is modelled is the build without `DEBUG`: the assertions are the early returns.
pub mod Alloc
pub mod Tree
pub mod Place
pub mod Space
pub mod Search
pub mod Classes
pub mod Blocks
pub mod Scan
pub mod Valid
pub mod Grant
pub mod Levels
pub mod Booting
pub mod Free
pub mod Leak
pub mod History
pub mod Sample
mod Tests
use nju_os_lab.Prelude.{
  ℕ, zero, suc, ◌+◌, ◌-◌, ◌^◌, List, [], ◌∷◌, ltb, leb, if◌then◌else◌, update, u64,
}

-- `PAGE_SIZE`: the size classes are the exponents of the block sizes.
abbrev pub p_4k : ℕ
p_4k = 12

abbrev pub p_16m : ℕ
p_16m = 24

abbrev pub p_refuse : ℕ
p_refuse = 25

abbrev pub have_bubble : ℕ
have_bubble = 1

abbrev pub full_used : ℕ
full_used = 0

-- `PHSICS_UNIT`, `PAGE_NODE_NUM`, `MAX_PAGE_SIZE`, and the length of `page_pool` (`MAX_PAGE_NUM+1`)
abbrev pub phsics_unit : ℕ
phsics_unit = 2 ^ 24

abbrev pub page_node_num : ℕ
page_node_num = 2 ^ 13

abbrev pub max_page_size : ℕ
max_page_size = 2 ^ 13

abbrev pub page_pool_len : ℕ
page_pool_len = 256

-- The bytes of one page record, by node.
abbrev pub Nodes : Type 0
Nodes = ℕ → ℕ

-- The globals of page.c. `nodes p` are the bytes that stand at address `p`: page records are
-- `max_page_size` bytes apart, and no node number reaches that.
pub record PageSystem : Type 0 where
  pub begin_page_addr : ℕ
  pub begin_alloc_addr : ℕ
  pub real_page_num : ℕ
  pub page_pool : ℕ → ℕ
  pub page_locks : ℕ → ℕ
  pub nodes : ℕ → Nodes

abbrev pub power_of_two : List ℕ
power_of_two = 1 ∷ 2 ∷ 4 ∷ 8 ∷ 16 ∷ 32 ∷ 64 ∷ 128 ∷ 256 ∷ 512 ∷ 1024 ∷ 2048 ∷ 4096 ∷ []

-- The loop of `trans_page_size`, with the rounds left.
pub trans_page_size_loop : ℕ → ℕ → ℕ → ℕ
trans_page_size_loop zero ptype size = p_refuse
trans_page_size_loop (suc n) ptype size =
    let rest = trans_page_size_loop n (ptype + 1) size in
    if leb size (2 ^ ptype) then ptype else rest

-- `trans_page_size`: the thirteen classes from `p_4k` up to `p_16m` in turn.
unfoldable pub trans_page_size : ℕ → ℕ
unfolding trans_page_size_loop
trans_page_size size = trans_page_size_loop 13 p_4k size

-- The inner loop of `page_init`: `n` nodes from `index` on get the byte `size`.
unfoldable pub fill_level : ℕ → ℕ → ℕ → Nodes → Nodes
fill_level zero index size nd = nd
fill_level (suc n) index size nd = fill_level n (index + 1) size (update nd index size)

-- The outer loop of `page_init`, which stops below `p_4k`: `size` is `p_4k + r - 1` for the rounds
-- `r` left.
unfoldable pub page_init_loop : ℕ → ℕ → Nodes → Nodes
page_init_loop zero index nd = nd
page_init_loop (suc r) index nd =
    let n = 2 ^ (12 - r) in page_init_loop r (index + n) (fill_level n index (p_4k + r) nd)

-- `page_init`
unfoldable pub page_init : Nodes → Nodes
unfolding page_init_loop fill_level
page_init nd = page_init_loop 13 1 nd

-- How `page_system_init` ends: with the units set up, or by a write past the end of `page_pool`.
-- `out_of_fuel` is of the model.
pub data Boot : Type 0 where
  booted : PageSystem → Boot
  overrun : Boot
  out_of_fuel : Boot

-- The loop of `page_system_init`.
unfoldable pub system_init_loop : ℕ → (end alloc page index : ℕ) → PageSystem → Boot
system_init_loop zero end alloc page index s = out_of_fuel
system_init_loop (suc f) end alloc page index s =
    let s' = record s {
      page_pool = update s.page_pool index page;
      nodes = update s.nodes page (page_init (s.nodes page));
    } in
    let rest =
      system_init_loop f end (u64 (alloc + phsics_unit)) (u64 (page + max_page_size)) (index + 1)
        s' in
    if leb (u64 (alloc + phsics_unit)) end
    then (if ltb index page_pool_len then rest else overrun)
    else booted (record s { real_page_num = index })

-- `page_system_init`. A run of the loop that stays inside `page_pool` has at most 257 rounds.
unfoldable pub page_system_init : ℕ → ℕ → PageSystem → Boot
page_system_init begin end s =
    let s' = record s { begin_page_addr = begin; begin_alloc_addr = u64 (begin + phsics_unit) } in
    system_init_loop 257 end s'.begin_alloc_addr begin 0 s'
