-- ===== src/Vme/Tests.antt =====
-- The models of abstract-machine/am/src/x86/qemu/vme.c on concrete address spaces.
use nju_os_lab.Prelude.{
  List, ℕ, ◌+◌, ◌*◌, ◌≡◌, Option, none, some, [], refl, arith, ltb, if◌then◌else◌, false, ◌∷◌, inl,
}
use nju_os_lab.Prelude.Masks.{and_bits}
use nju_os_lab.Prelude.Flags.{or_bits}
use nju_os_lab.Vme.{
  Machine, Paging, done, panic, pgsize, pgtables, protect, map, ◌>>=◌, mmap_none, mmap_write,
  baseof, indexof, clear, pgallocz, next_page, ptwalk, ptwalk_from, share, share_areas, set_entry,
  uvm_area, has, pte_u, unprotect,
}
use nju_os_lab.Vme.Teardown.{unprotect-protect}
use nju_os_lab.Vme.Entries.{page_of}
use nju_os_lab.Vme.Translate.{IsAllocator, IsTree, translate, frame_at}
use nju_os_lab.Vme.Mapping.{IsPagePair, Mapping, Unmapping, map-Mapping, map-Unmapping}
use nju_os_lab.Vme.History.{Call, changes, AllAllowed, nil, cons, Ran, run_maps, run_maps-Ran}
use nju_os_lab.Vme.Fresh.{
  fresh-none, IsFree, fresh, names_of, fresh-IsTree, Protected, protect-Protected,
}

-- Sixteen pages from 1 MiB on, then none.
abbrev answers : (call size : ℕ) → ℕ
answers n size = if ltb n 16 then 0x100000 + 4096 * n else 0

abbrev blank : Machine
blank = record { memory = λ a. 0; calls = 0; freed = [] }

answers-IsAllocator : IsAllocator answers
answers-IsAllocator = record {
  aligned = λ n. ground arith;
  word = λ n. ground arith;
  distinct = λ n k lt ne. ground arith;
}

blank-IsFree : IsFree answers 0x8000 blank
blank-IsFree = record { outside = λ n le. ground arith; words = λ a. omega arith }

protect_example : Protected answers 0x8000 blank (protect answers 4096 0x8000 blank)
protect_example = protect-Protected answers 4096 0x8000 blank answers-IsAllocator blank-IsFree

-- The first page of user space.
abbrev user_start : ℕ
user_start = 0x100000000000

pages-IsPagePair : IsPagePair user_start 0x7000
pages-IsPagePair = record {
  user = record { lower = omega arith; upper = omega arith };
  virtual = refl;
  physical = refl;
  word = omega arith;
}

abbrev space : Machine
space = fresh 4096 0x8000 (answers 0 pgsize) blank

space-IsTree : IsTree answers 0x8000 (names_of 0x8000 (answers 0 pgsize)) space
space-IsTree = fresh-IsTree 4096 answers-IsAllocator blank-IsFree (λ e. absurd (omega arith))

map_example :
    Mapping answers 0x8000
      (page_of user_start)
      0x7000
      (names_of 0x8000 (answers 0 pgsize))
      space
      (map answers 0x8000 user_start 0x7000 mmap_write space)
map_example =
    map-Mapping answers 0x8000 user_start 0x7000 mmap_write (names_of 0x8000 (answers 0 pgsize))
      space answers-IsAllocator space-IsTree pages-IsPagePair (λ e. absurd (omega arith))

unmap_example :
    Unmapping answers 0x8000
      (page_of user_start)
      (names_of 0x8000 (answers 0 pgsize))
      space
      (map answers 0x8000 user_start 0x7000 mmap_none space)
unmap_example =
    map-Unmapping answers 0x8000 user_start 0x7000 (names_of 0x8000 (answers 0 pgsize)) space
      answers-IsAllocator space-IsTree pages-IsPagePair

-- The page is mapped, and taken away again.
abbrev there_and_back : List Call
there_and_back =
    record { va = user_start; pa = 0x7000; prot = mmap_write }
    ∷ record { va = user_start; pa = 0x7000; prot = mmap_none }
    ∷ []

there_and_back-AllAllowed : AllAllowed there_and_back (λ page. none)
there_and_back-AllAllowed =
    cons pages-IsPagePair (λ ne. refl, λ z. absurd (omega arith))
      (cons pages-IsPagePair (λ ne. absurd (ne refl), λ z e. cc) nil)

run_maps_example :
    Ran answers 0x8000 there_and_back space
      (changes there_and_back (λ page. none))
      (run_maps answers 0x8000 there_and_back space)
run_maps_example =
    run_maps-Ran answers 0x8000 there_and_back (names_of 0x8000 (answers 0 pgsize)) space
      (λ page. none) answers-IsAllocator space-IsTree
      (fresh-none 4096 answers-IsAllocator blank-IsFree (λ e. absurd (omega arith)))
      there_and_back-AllAllowed

-- The translation of two pages behind a call.
abbrev seen : {A : Type 0} → Paging A → Option ℕ × Option ℕ
seen (done a s) = (
  translate 0x8000 (page_of user_start) s.memory,
  translate 0x8000 (page_of user_start + 1) s.memory,
)
seen (panic e) = (none, none)

-- A second mapping in the same table, the first one taken back.
two_maps : Option ℕ × Option ℕ
two_maps = seen (
    protect answers 4096 0x8000 blank >>= λ _ s.
    map answers 0x8000 user_start 0x7000 mmap_write s >>= λ _ s.
    map answers 0x8000 (user_start + 4096) 0x9000 1 s >>= λ _ s.
    map answers 0x8000 user_start 0 mmap_none s)

two_maps_seen : two_maps ≡ (none, some 0x9000)
unfolding two_maps protect map pgallocz clear share_areas share indexof pgtables and_bits or_bits
    ptwalk ptwalk_from next_page baseof set_entry translate frame_at
two_maps_seen = refl

kernel_closed : has pte_u 0 ≡ false
unfolding and_bits
kernel_closed = refl

unprotect_example :
    (s' : Machine) × (protect answers 4096 0x8000 blank
      ≡ done (record { pgsize = pgsize; area = uvm_area }) s')
    × ((unprotect 0x8000 s').freed ≡ answers 0 pgsize ∷ [])
unprotect_example =
    unprotect-protect answers 4096 0x8000 blank answers-IsAllocator blank-IsFree
      (λ e. absurd (omega arith)) (inl (omega arith)) kernel_closed
