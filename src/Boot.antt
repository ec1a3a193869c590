-- ===== src/Boot.antt =====
-- abstract-machine/am/src/x86/qemu/boot/main.c: the boot loader. The disk and the memory are bytes by their
-- addresses; the disk ports, by which `read_disk` moves a sector, are not modelled. Numbers are those
-- of `uint32_t`.
pub mod Load
mod Tests
use nju_os_lab.Prelude.Masks.{and_bits}
use nju_os_lab.Prelude.{
  ℕ, zero, suc, ◌+◌, ◌-◌, ◌*◌, ◌/◌, ◌%◌, ◌^◌, ◌&&◌, Option, none, some, List, [], ◌∷◌, ltb, leb,
  ◌==◌, if◌then◌else◌, update,
}
use nju_os_lab.Disk.{Bytes, u32}
use nju_os_lab.Klib.{fill}

-- `SECTSIZE`, `ARGSIZE`
abbrev pub sectsize : ℕ
sectsize = 512

abbrev pub argsize : ℕ
argsize = 1024

-- `read_disk`, for numbers of sectors below 2^28: the ports take 28 bits of the number, and what the
-- source writes above them, into the register that selects the drive, is left out.
unfoldable pub read_disk : (disk : Bytes) → (buf sect : ℕ) → Bytes → Bytes
read_disk disk buf sect m a =
    if leb buf a && ltb a (buf + sectsize) then disk (sect % 2 ^ 28 * sectsize + (a - buf)) else m a

-- `/` by a positive number on an `int`, as a bit pattern: it rounds to 0.
abbrev pub int_div : (a b : ℕ) → ℕ
int_div a b = if ltb a (2 ^ 31) then a / b else u32 (2 ^ 32 - (2 ^ 32 - a) / b)

-- The loop of `copy_from_disk`, on fuel.
unfoldable pub copy_sectors : (fuel : ℕ) → (disk : Bytes) → (cur ed sect : ℕ) → Bytes → Option Bytes
copy_sectors zero disk cur ed sect m = none
copy_sectors (suc fuel) disk cur ed sect m =
    let rest =
      copy_sectors fuel disk (u32 (cur + sectsize)) ed (u32 (sect + 1))
        (read_disk disk cur sect m) in
    if ltb cur ed then rest else some m

-- `copy_from_disk`
unfoldable pub copy_from_disk :
    (fuel : ℕ) → (disk : Bytes) → (buf nbytes disk_offset : ℕ) → Bytes → Option Bytes
copy_from_disk fuel disk buf nbytes disk_offset m =
    copy_sectors fuel disk (and_bits 32 buf (2 ^ 32 - sectsize)) (u32 (buf + nbytes))
      (u32 (int_div disk_offset sectsize + argsize / sectsize + 1)) m

-- The rounds from `filesz` to `memsz`, round the largest number if it is less.
abbrev pub bss_size : (filesz memsz : ℕ) → ℕ
bss_size filesz memsz = u32 (memsz + 2 ^ 32 - filesz)

-- `load_program`; its loop is the one of `memset`.
unfoldable pub load_program :
    (fuel : ℕ) → (disk : Bytes) → (filesz memsz paddr offset : ℕ) → Bytes → Option Bytes
load_program fuel disk filesz memsz paddr offset m =
    elim (copy_from_disk fuel disk paddr filesz offset m) [
      | none ↦ none
      | some m' ↦ some (fill (bss_size filesz memsz) (u32 (paddr + filesz)) 0 m')
    ]

-- A program header, with the fields that the loader reads.
pub record Phdr : Type 0 where
  pub p_filesz : ℕ
  pub p_memsz : ℕ
  pub p_paddr : ℕ
  pub p_offset : ℕ

-- `load_elf64` and `load_elf32`, on the program headers: fields are cut to 32 bits.
unfoldable pub load_elf : (fuel : ℕ) → (disk : Bytes) → List Phdr → Bytes → Option Bytes
load_elf fuel disk [] m = some m
load_elf fuel disk (ph ∷ phs) m =
    elim (load_program fuel disk (u32 ph.p_filesz) (u32 ph.p_memsz) (u32 ph.p_paddr)
      (u32 ph.p_offset) m) [ none ↦ none | some m' ↦ load_elf fuel disk phs m' ]
