-- ===== src/Boot/Load.antt =====
-- What `load_program` of abstract-machine/am/src/x86/qemu/boot/main.c puts into memory.
use nju_os_lab.Prelude.{
  ℕ, zero, suc, ◌+◌, ◌-◌, ◌*◌, ◌/◌, ◌%◌, ◌^◌, ◌≤◌, ◌<◌, ◌≡◌, ◌⊎◌, inl, inr, true, false, refl, ap,
  ◌∙◌, arith, Option, some, none, ltb,
}
use nju_os_lab.Prelude.Masks.{and_bits, and_bits-mask}
use nju_os_lab.Disk.{Bytes, u32}
use nju_os_lab.Klib.{fill}
use nju_os_lab.Klib.Memory.{fill-inside, fill-other}
use nju_os_lab.Boot.{
  sectsize, argsize, read_disk, copy_sectors, copy_from_disk, bss_size, load_program,
}

-- `n` sectors from `cur` on hold the disk from the sector `sect` on, the rest is as in `m`.
record Copied (disk : Bytes) (cur sect n : ℕ) (m m' : Bytes) : Type 0 where
  inside : (a : ℕ) → cur ≤ a → a < cur + 512 * n → m' a ≡ disk (sect * 512 + (a - cur))
  outside : (a : ℕ) → (a < cur) ⊎ (cur + 512 * n ≤ a) → m' a ≡ m a

Copied-suc :
    (disk : Bytes) (cur sect n : ℕ) (m m' : Bytes)
    → sect < 2 ^ 28
    → Copied disk (cur + 512) (sect + 1) n (read_disk disk cur sect m) m'
    → Copied disk cur sect (suc n) m m'
unfolding read_disk
Copied-suc disk cur sect n m m' lt c = record {
  inside = λ a le lt'. elim (split a) [
    | inl h ↦ c.outside a (inl h) ∙ first a le h
    | inr h ↦ c.inside a h (omega arith) ∙ ap disk (omega arith)
  ];
  outside = λ a out.
      c.outside a (elim out [ inl h ↦ inl (omega arith) | inr h ↦ inr (omega arith) ])
      ∙ ground arith;
}
  where
    split : (a : ℕ) → (a < cur + 512) ⊎ (cur + 512 ≤ a)
    split a = ground arith

    first :
        (a : ℕ)
        → cur ≤ a
        → a < cur + 512
        → read_disk disk cur sect m a ≡ disk (sect * 512 + (a - cur))
    first a le h = ground arith

copy_sectors-step :
    (fuel : ℕ) (disk : Bytes) (cur ed sect : ℕ) (m : Bytes)
    → cur < ed
    → cur + 512 < 2 ^ 32
    → sect + 1 < 2 ^ 32
    → copy_sectors (suc fuel) disk cur ed sect m
      ≡ copy_sectors fuel disk (cur + 512) ed (sect + 1) (read_disk disk cur sect m)
unfolding copy_sectors
copy_sectors-step fuel disk cur ed sect m lt w ws =
    let more : ltb cur ed ≡ true = ground arith in
    let next : u32 (cur + sectsize) ≡ cur + 512 = omega arith in
    let next_sect : u32 (sect + 1) ≡ sect + 1 = omega arith in rw (more, next, next_sect)

copy_sectors-Copied :
    (n fuel : ℕ) (disk : Bytes) (cur ed sect : ℕ) (m : Bytes)
    → n < fuel
    → ed ≤ cur + 512 * n
    → cur + 512 * n < ed + 512
    → cur + 512 * n < 2 ^ 32
    → sect + n ≤ 2 ^ 28
    → (m' : Bytes) × (copy_sectors fuel disk cur ed sect m ≡ some m') × Copied disk cur sect n m m'
unfolding copy_sectors
copy_sectors-Copied n zero disk cur ed sect m lf le lt w ws = absurd (omega arith)
copy_sectors-Copied zero (suc fuel) disk cur ed sect m lf le lt w ws =
    let stop : ltb cur ed ≡ false = ground arith in
    (m, rw stop, record { inside = λ a le' lt'. absurd (omega arith); outside = λ a out. refl })
copy_sectors-Copied (suc n) (suc fuel) disk cur ed sect m lf le lt w ws =
    let (m', e, c) =
      copy_sectors-Copied n fuel disk (cur + 512) ed (sect + 1) (read_disk disk cur sect m)
        (omega arith) (omega arith) (omega arith) (omega arith) (omega arith) in
    (
      m',
      copy_sectors-step fuel disk cur ed sect m (omega arith) (omega arith) (omega arith) ∙ e,
      Copied-suc disk cur sect n m m' (omega arith) c,
    )

-- A segment of a program as it stands in memory: `filesz` bytes of the program, and zeros up to `memsz`. The
-- loader moves whole sectors, which may change the bytes of the first and of the last one around it.
pub record Loaded (disk : Bytes) (filesz memsz paddr offset : ℕ) (m m' : Bytes) : Type 0 where
  pub program : (k : ℕ) → k < filesz → m' (paddr + k) ≡ disk (3 * 512 + offset + k)
  pub zeros : (k : ℕ) → filesz ≤ k → k < memsz → m' (paddr + k) ≡ 0
  pub below : (a : ℕ) → a < paddr / 512 * 512 → m' a ≡ m a
  pub behind : (a : ℕ) → paddr + memsz ≤ a → (paddr + filesz + 511) / 512 * 512 ≤ a → m' a ≡ m a

-- A segment that the loader can load: it starts at the same place of a sector on the disk and in memory,
-- is in the first 2 GiB of the file, and ends a sector below the largest address.
pub record IsLoadable (filesz memsz paddr offset : ℕ) : Type 0 where
  pub congruent : paddr % 512 ≡ offset % 512
  pub sizes : filesz ≤ memsz
  pub file : offset < 2 ^ 31
  pub fits : paddr + memsz + 512 < 2 ^ 32

module _ (disk : Bytes) (filesz memsz paddr offset : ℕ)
    (l : IsLoadable filesz memsz paddr offset) where
  first : ℕ
  first = paddr / 512 * 512

  count : ℕ
  count = (paddr + filesz - paddr / 512 * 512 + 511) / 512

  copy_from_disk-start :
      (fuel : ℕ) (m : Bytes)
      → copy_from_disk fuel disk paddr filesz offset m
        ≡ copy_sectors fuel disk first (paddr + filesz) (offset / 512 + 3) m
  unfolding copy_from_disk first
  copy_from_disk-start fuel m =
      let start : and_bits 32 paddr (2 ^ 32 - sectsize) ≡ paddr / 512 * 512 =
        and_bits-mask 9 23 paddr (omega (arith, l.fits)) in
      let ed : u32 (paddr + filesz) ≡ paddr + filesz = omega (arith, l.fits, l.sizes) in
      let positive : ltb offset (2 ^ 31) ≡ true = ground (arith, l.file) in
      let sect : u32 (offset / 512 + argsize / sectsize + 1) ≡ offset / 512 + 3 =
        omega (arith, l.file) in
      rw (start, ed, positive, sect)

  copy_from_disk-Copied :
      (fuel : ℕ) (m : Bytes)
      → filesz / 512 + 2 < fuel
      → (m' : Bytes) × (copy_from_disk fuel disk paddr filesz offset m ≡ some m')
        × Copied disk first (offset / 512 + 3) count m m'
  unfolding first count
  copy_from_disk-Copied fuel m lt =
      let (m', e, c) =
        copy_sectors-Copied count fuel disk first (paddr + filesz) (offset / 512 + 3) m
          (omega arith) (omega arith) (omega arith) (omega (arith, l.fits, l.sizes))
          (omega (arith, l.file, l.fits, l.sizes)) in
      (m', copy_from_disk-start fuel m ∙ e, c)

  -- The zeros behind the program.
  zeroed : Bytes → Bytes
  zeroed m = fill (memsz - filesz) (paddr + filesz) 0 m

  zeroed-Loaded :
      (m m' : Bytes)
      → Copied disk first (offset / 512 + 3) count m m'
      → Loaded disk filesz memsz paddr offset m (zeroed m')
  unfolding first count zeroed
  zeroed-Loaded m m' c = record {
    program = λ k lt.
        fill-other (memsz - filesz) (paddr + filesz) 0 m' (paddr + k) (inl (omega arith))
        ∙ c.inside (paddr + k) (omega arith) (omega arith)
        ∙ ap disk (omega (arith, l.congruent));
    zeros = λ k le lt.
        ap (fill (memsz - filesz) (paddr + filesz) 0 m') (omega arith)
        ∙ fill-inside (memsz - filesz) (paddr + filesz) 0 m' (k - filesz) (omega arith);
    below = λ a lt.
        fill-other (memsz - filesz) (paddr + filesz) 0 m' a (inl (omega arith))
        ∙ c.outside a (inl (omega arith));
    behind = λ a le le'.
        fill-other (memsz - filesz) (paddr + filesz) 0 m' a (inr (omega (arith, l.sizes)))
        ∙ c.outside a (inr (omega arith));
  }

  bss : (m : Bytes) → fill (bss_size filesz memsz) (u32 (paddr + filesz)) 0 m ≡ zeroed m
  unfolding zeroed
  bss m =
      let size : bss_size filesz memsz ≡ memsz - filesz = omega (arith, l.fits, l.sizes) in
      let place : u32 (paddr + filesz) ≡ paddr + filesz = omega (arith, l.fits, l.sizes) in
      rw (size, place)

-- `load_program` loads a segment that starts at the same place of a sector in the file and in memory, at a place
-- below 2^31 of the file, that is no longer in the file than in memory, and that ends in memory, with
-- one sector more, below 2^32, with fuel for its sectors: the program stands at its address, zeros
-- follow up to its size in memory, and around these only bytes of the first and of the last sector
-- that the bytes from the file touch are changed.
pub load_program-Loaded :
    (disk : Bytes) (filesz memsz paddr offset fuel : ℕ) (m : Bytes)
    → IsLoadable filesz memsz paddr offset
    → filesz / 512 + 2 < fuel
    → (m' : Bytes) × (load_program fuel disk filesz memsz paddr offset m ≡ some m')
      × Loaded disk filesz memsz paddr offset m m'
unfolding load_program zeroed
load_program-Loaded disk filesz memsz paddr offset fuel m l lt =
    let (m', e, c) = copy_from_disk-Copied disk filesz memsz paddr offset l fuel m lt in
    (
      zeroed disk filesz memsz paddr offset l m',
      ap
            (λ r. elim r as (λ _. Option Bytes) [
              | none ↦ none
              | some m' ↦ some (fill (bss_size filesz memsz) (u32 (paddr + filesz)) 0 m')
            ])
            e
          ∙ ap some (bss disk filesz memsz paddr offset l m'),
      zeroed-Loaded disk filesz memsz paddr offset l m m' c,
    )
