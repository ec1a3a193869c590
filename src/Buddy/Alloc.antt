-- ===== src/Buddy/Alloc.antt =====
-- kernel/src/page.c: allocation of physical pages (`page_alloc` and what it calls).
use nju_os_lab.Prelude.{
  ℕ, zero, suc, ◌+◌, ◌-◌, ◌*◌, ◌/◌, ◌^◌, Bool, ◌||◌, Option, none, some, get_or, ltb, leb, ◌==◌,
  if◌then◌else◌, update, u64, sub64,
}
use nju_os_lab.Common.{null, lock, unlock, is_aligned}
use nju_os_lab.Buddy.{
  p_4k, p_16m, p_refuse, have_bubble, full_used, phsics_unit, page_node_num, max_page_size, Nodes,
  PageSystem, power_of_two, trans_page_size,
}

-- `left_branch`, `right_branch`
abbrev pub left_branch : ℕ → ℕ
left_branch index = index * 2

abbrev pub right_branch : ℕ → ℕ
right_branch index = index * 2 + 1

-- `convert_page_to_phsics`. A negative node offset is converted to `uintptr_t`, as in C.
unfoldable pub convert_page_to_phsics : PageSystem → ℕ → ℕ → ℕ → ℕ
convert_page_to_phsics s page index base_size =
    let page_gap_num = sub64 page s.begin_page_addr / max_page_size in
    let phsics_offset = u64 (page_gap_num * phsics_unit) in
    let phsics_begin_addr = u64 (s.begin_alloc_addr + phsics_offset) in
    let node_gap_num = sub64 index (get_or power_of_two (p_16m - base_size) 0) in
    let node_offset = u64 (2 ^ base_size * node_gap_num) in u64 (phsics_begin_addr + node_offset)

-- The larger of two bytes, `a > b ? a : b`.
abbrev pub larger : ℕ → ℕ → ℕ
larger a b = if ltb b a then a else b

-- `get_space_in_page` at a node whose block has the wanted size.
unfoldable pub take_whole : PageSystem → (page req_size index base_size : ℕ) → Nodes → ℕ × Nodes
take_whole s page req_size index base_size nd =
    if nd index == req_size
    then (convert_page_to_phsics s page index base_size, update nd index full_used)
    else (null, nd)

-- The end of `get_space_in_page` at an inner node: its byte after an allocation below it.
unfoldable pub settle : (req_size index : ℕ) → ℕ × Nodes → ℕ × Nodes
settle req_size index (addr, nd) = if addr == null then (addr, nd) else (
  addr,
  update nd index (
      if nd index == req_size
      then have_bubble
      else larger (nd (left_branch index)) (nd (right_branch index))),
)

-- The guard of `get_space_in_page`.
abbrev pub refuses : (page req_size index base_size : ℕ) → Bool
refuses page req_size index base_size =
    page == null || ltb base_size req_size || leb page_node_num index

-- `get_space_in_page`: the address, `null` if there is none, and the new bytes. It recurs on
-- `base_size`, which is below the wanted size before it can reach 0.
unfoldable pub get_space_in_page :
    PageSystem → (page req_size index base_size : ℕ) → Nodes → ℕ × Nodes
unfolding take_whole settle
get_space_in_page s page req_size index zero nd =
    if refuses page req_size index zero
    then (null, nd)
    else take_whole s page req_size index zero nd
get_space_in_page s page req_size index (suc base) nd =
    let branch =
      if leb req_size (nd (left_branch index)) then left_branch index else right_branch index in
    let below = get_space_in_page s page req_size branch base nd in
    if refuses page req_size index (suc base)
    then (null, nd)
    else if leb (suc base) req_size
    then take_whole s page req_size index (suc base) nd
    else settle req_size index below

-- `alloc_space_from_page`
unfoldable pub alloc_space_from_page : PageSystem → (page req_size : ℕ) → Nodes → ℕ × Nodes
alloc_space_from_page s page req_size nd =
    let r = get_space_in_page s page req_size 1 p_16m nd in
    if is_aligned r.0 req_size then r else (null, r.1)

-- The search of `page_alloc`, with the units left: the index found and the locks, with the lock of
-- the unit that was found held. The outer `none` is a wait for a lock that nobody releases.
unfoldable pub find_page : PageSystem → (n i req_size : ℕ) → (ℕ → ℕ) → Option (Option ℕ × (ℕ → ℕ))
find_page s zero i req_size locks = some (none, locks)
find_page s (suc n) i req_size locks =
    let rest = find_page s n (i + 1) req_size (update locks i (unlock 1)) in
    elim (lock (locks i)) [
      | none ↦ none
      | some w ↦
          if leb req_size (s.nodes (s.page_pool i) 1) then some (some i, update locks i w) else rest
    ]

-- The rest of `page_alloc`: allocate in the unit that was found, and release its lock.
unfoldable pub alloc_in : PageSystem → ℕ → ℕ → (ℕ → ℕ) → ℕ × PageSystem
alloc_in s req_size i locks =
    let page = s.page_pool i in
    let (addr, nd) = alloc_space_from_page s page req_size (s.nodes page) in
    (addr, record s { nodes = update s.nodes page nd; page_locks = update locks i (unlock 1) })

-- `page_alloc`: the address (`null` for a refusal) and the new state.
unfoldable pub page_alloc : ℕ → PageSystem → Option (ℕ × PageSystem)
page_alloc size s =
    let req_size = trans_page_size size in
    if req_size == p_refuse
    then some (null, s)
    else if ltb p_16m req_size || ltb req_size p_4k
    then some (null, s)
    else elim (find_page s s.real_page_num 0 req_size s.page_locks) [
      | none ↦ none
      | some (none, locks) ↦ some (null, record s { page_locks = locks })
      | some (some i, locks) ↦
          if leb s.real_page_num i
          then some (null, record s { page_locks = locks })
          else some (alloc_in s req_size i locks)
    ]
