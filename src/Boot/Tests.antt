-- ===== src/Boot/Tests.antt =====
-- The models of abstract-machine/am/src/x86/qemu/boot/main.c on a concrete disk.
use nju_os_lab.Prelude.{ℕ, ◌+◌, ◌%◌, ◌≡◌, Option, some, none, [], ◌∷◌, refl, arith}
use nju_os_lab.Prelude.Masks.{and_bits}
use nju_os_lab.Klib.{fill}
use nju_os_lab.Disk.{Bytes}
use nju_os_lab.Boot.{read_disk, copy_sectors, copy_from_disk, load_program, load_elf}
use nju_os_lab.Boot.Load.{Loaded, IsLoadable, load_program-Loaded}

-- A disk whose bytes count up, and a memory of ones.
abbrev counting : Bytes
counting a = a % 251

abbrev ones : Bytes
ones a = 1

segment-IsLoadable : IsLoadable 700 900 0x100010 0x410
segment-IsLoadable = record {
  congruent = refl;
  sizes = omega arith;
  file = omega arith;
  fits = omega arith;
}

load_example :
    (m' : Bytes) × (load_program 5 counting 700 900 0x100010 0x410 ones ≡ some m')
    × Loaded counting 700 900 0x100010 0x410 ones m'
load_example =
    load_program-Loaded counting 700 900 0x100010 0x410 5 ones segment-IsLoadable (omega arith)

-- A byte of each of two segments.
two_segments : Option (ℕ × ℕ)
two_segments =
    elim (load_elf 5 counting
      (record { p_filesz = 20; p_memsz = 30; p_paddr = 0x4000; p_offset = 0x200 }
        ∷ record { p_filesz = 600; p_memsz = 600; p_paddr = 0x8000; p_offset = 0x400 }
        ∷ [])
      ones) [ none ↦ none | some m ↦ some (m 0x4005, m 0x8201) ]

two_segments_loaded : two_segments ≡ some ((0x600 + 0x205) % 251, (0x600 + 0x601) % 251)
unfolding two_segments load_elf load_program copy_from_disk copy_sectors read_disk fill and_bits
two_segments_loaded = refl
