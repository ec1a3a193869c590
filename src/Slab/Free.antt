-- ===== src/Slab/Free.antt =====
-- kernel/src/slab.c: `slab_free`, `recover_slab` and `slab_system_init`.
use nju_os_lab.Prelude.{
  ℕ, zero, suc, ◌+◌, ◌-◌, ◌%◌, ◌^◌, not, ◌||◌, none, some, ltb, ◌==◌, if◌then◌else◌, update,
}
use nju_os_lab.Common.{null, lock, unlock, try_lock, is_aligned}
use nju_os_lab.Buddy.Free.{page_free, Freed}
use nju_os_lab.Slab.{
  Slabs, Result, done, stuck, fault, out_of_fuel, set_locked, slab_size_offset, s_8b, slab_init,
}

-- The loop of `recover_slab`, on fuel: the slab in front of `slab` in the list from `prev` on, if there
-- is one.
unfoldable pub find_prev : (fuel slab prev : ℕ) → Slabs → Result ℕ
find_prev zero a prev s = out_of_fuel
find_prev (suc f) a prev s =
    let to_recover = (s.slab prev).append in
    let rest = find_prev f a to_recover s in
    if to_recover == null then done null s else if to_recover == a then done prev s else rest

-- The end of `recover_slab`: the slab is taken out of the list behind `prev`, whose lock is held, and
-- its page is freed. The lock of the slab stays held.
unfoldable pub drop_slab : (slab prev : ℕ) → Slabs → Result (Unit {0})
drop_slab a prev s =
    let s' = record s {
      slab = update s.slab prev (record (s.slab prev) { append = (s.slab a).append });
    } in
    elim (page_free a s'.pages) [
      | Freed.done pages ↦
          done tt (set_locked prev (unlock (s'.slab prev).locked) (record s' { pages = pages }))
      | Freed.wild ↦ fault
      | Freed.stuck ↦ stuck
    ]

-- `recover_slab` behind its loop, for the result of the loop.
abbrev pub after_find : (slab : ℕ) → Result ℕ → Result (Unit {0})
after_find a (done prev s) =
    let (free, word) = try_lock (s.slab prev).locked in
    let s' = set_locked prev word s in
    if prev == null
    then done tt (set_locked a (unlock (s.slab a).locked) s)
    else if not free
    then done tt (set_locked a (unlock (s'.slab a).locked) s')
    else drop_slab a prev s'
after_find a stuck = stuck
after_find a fault = fault
after_find a out_of_fuel = out_of_fuel

-- `recover_slab`. The first slab of a list stays.
unfoldable pub recover_slab : (fuel slab : ℕ) → Slabs → Result (Unit {0})
recover_slab fuel a s =
    let v = s.slab a in
    let head = s.heads v.cpu_id (v.type - slab_size_offset) in
    if ltb v.free_block_num v.block_num || (try_lock v.locked).0
    then done tt (set_locked a (unlock v.locked) s)
    else if head == a
    then done tt (set_locked a (unlock v.locked) s)
    else if head == null
    then fault
    else after_find a (find_prev fuel a head s)

-- The block goes back to the free list of its slab.
abbrev pub put_block : (slab ptr : ℕ) → Slabs → Slabs
put_block a ptr s = record s {
  next = update s.next ptr (s.slab a).free_list;
  slab =
      update s.slab a
        (record (s.slab a) { free_list = ptr; free_block_num = (s.slab a).free_block_num + 1 });
}

-- `slab_free` behind the lock.
unfoldable pub free_in_slab : (fuel slab ptr : ℕ) → Slabs → Result (Unit {0})
free_in_slab fuel a ptr s =
    let s' = put_block a ptr s in
    if (s.slab a).free_block_num + 1 == (s.slab a).block_num
    then recover_slab fuel a s'
    else done tt (set_locked a (unlock (s.slab a).locked) s')

-- `slab_free` behind the computation of `slab_addr`.
unfoldable pub free_at : (fuel slab ptr : ℕ) → Slabs → Result (Unit {0})
free_at fuel a ptr s = if not (is_aligned a 12) then done tt s else elim (lock (s.slab a).locked) [
  | none ↦ stuck
  | some w ↦ free_in_slab fuel a ptr (set_locked a w s)
]

-- `slab_free`
unfoldable pub slab_free : (fuel ptr : ℕ) → Slabs → Result (Unit {0})
slab_free fuel ptr s = free_at fuel (ptr - ptr % 2 ^ 12) ptr s

-- The inner loop of `slab_system_init`, with the classes left. What `slab_init` returns is ignored.
unfoldable pub init_classes : (n cpu size : ℕ) → Slabs → Result (Unit {0})
init_classes zero cpu size s = done tt s
init_classes (suc n) cpu size s = elim (slab_init cpu size s) [
  | done a s' ↦ init_classes n cpu (size + 1) s'
  | stuck ↦ stuck
  | fault ↦ fault
  | out_of_fuel ↦ out_of_fuel
]

-- `slab_system_init`, with the CPUs left.
unfoldable pub slab_system_init : (n cpu : ℕ) → Slabs → Result (Unit {0})
slab_system_init zero cpu s = done tt s
slab_system_init (suc n) cpu s = elim (init_classes 9 cpu s_8b s) [
  | done a s' ↦ slab_system_init n (cpu + 1) s'
  | stuck ↦ stuck
  | fault ↦ fault
  | out_of_fuel ↦ out_of_fuel
]
