-- ===== src/Pmm.antt =====
-- kernel/src/pmm.c: `kalloc`, `kfree` and `pmm_init`, in front of the page and the object allocator.
pub mod Route
mod Tests
use nju_os_lab.Prelude.{ℕ, ◌^◌, Bool, true, false, none, some, if◌then◌else◌}
use nju_os_lab.Common.{align_ptr, is_aligned}
use nju_os_lab.Buddy.{Boot, page_system_init}
use nju_os_lab.Buddy.Free.{page_free, Freed}
use nju_os_lab.Slab.{Slabs, Result, done, stuck, fault, out_of_fuel, slab_alloc}
use nju_os_lab.Slab.Free.{slab_free, slab_system_init}

-- A call with the interrupt flag of the CPU, which it switches off, and on again if it was on.
abbrev pub restoring : {A : Type 0} → (flag : Bool) → Result A → Result (A × Bool)
restoring flag (done a s) = done (a, if flag then true else false) s
restoring flag stuck = stuck
restoring flag fault = fault
restoring flag out_of_fuel = out_of_fuel

-- `kalloc` on CPU `cpu`: the address, and the interrupt flag behind the call.
unfoldable pub kalloc : (fuel cpu size : ℕ) → (flag : Bool) → Slabs → Result (ℕ × Bool)
kalloc fuel cpu size flag s = restoring flag (slab_alloc fuel cpu size s)

-- `page_free` on the state of both allocators.
abbrev pub free_page : Freed → Slabs → Result (Unit {0})
free_page (Freed.done pages) s = done tt (record s { pages = pages })
free_page Freed.wild s = fault
free_page Freed.stuck s = stuck

-- `kfree`
unfoldable pub kfree : (fuel ptr : ℕ) → (flag : Bool) → Slabs → Result (Unit {0} × Bool)
kfree fuel ptr flag s =
    restoring flag
      (if is_aligned ptr 12 then free_page (page_free ptr s.pages) s else slab_free fuel ptr s)

-- `pmm_init`, for the ends of `heap` and the number of CPUs.
unfoldable pub pmm_init : (start end cpu_count : ℕ) → Slabs → Result (Unit {0})
pmm_init start end cpu_count s = elim (page_system_init (align_ptr start 24) end s.pages) [
  | Boot.booted pages ↦ slab_system_init cpu_count 0 (record s { pages = pages })
  | Boot.overrun ↦ fault
  | Boot.out_of_fuel ↦ out_of_fuel
]
