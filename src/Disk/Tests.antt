-- ===== src/Disk/Tests.antt =====
-- The theorems about kernel/src/dev/dev_sd.c at a disk of blocks of four bytes.
use nju_os_lab.Prelude.{ℕ, ◌+◌, ◌^◌, ◌≡◌, refl, Option, none, some, arith}
use nju_os_lab.Prelude.Masks.{and_bits}
use nju_os_lab.Disk.{
  Bytes, Sd, Outcome, returns, no_disk, out_of_fuel, blk_read, blk_write, sd_read, write_loop,
  sd_write,
}
use nju_os_lab.Disk.Read.{Fetched, sd_read-Fetched}
use nju_os_lab.Disk.Write.{OnDisk, sd_write-OnDisk}

abbrev sd : Sd
sd = record { blksz = 2 ^ 2; buf = λ i. 0; disk = λ a. a + 100 }

abbrev bytes : Bytes
bytes i = i + 50

abbrev on_disk : ℕ → Outcome → Option ℕ
on_disk a (returns pos buf sd) = some (sd.disk a)
on_disk a no_disk = none
on_disk a out_of_fuel = none

-- The range 6 to 12 takes parts of the blocks 1 and 3.
written : on_disk 12 (sd_write 9 6 7 bytes (some sd)) ≡ some 56
unfolding sd_write write_loop blk_read blk_write and_bits
written = refl

kept : on_disk 13 (sd_write 9 6 7 bytes (some sd)) ≡ some 113
unfolding sd_write write_loop blk_read blk_write and_bits
kept = refl

sd_read_example :
    (b' : Bytes) × (sd' : Sd) × (sd_read 9 6 7 bytes (some sd) ≡ returns 7 b' sd')
    × (sd'.disk ≡ sd.disk)
    × Fetched sd.disk 6 0 7 bytes b'
sd_read_example = sd_read-Fetched 2 9 6 7 bytes sd refl (omega arith) (omega arith) (omega arith)

sd_write_example :
    (sd' : Sd) × (sd_write 9 6 7 bytes (some sd) ≡ returns 7 bytes sd')
    × OnDisk bytes 6 0 7 sd.disk sd'.disk
sd_write_example = sd_write-OnDisk 2 9 6 7 bytes sd refl (omega arith) (omega arith) (omega arith)
