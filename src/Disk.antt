-- ===== src/Disk.antt =====
-- kernel/src/dev/dev_sd.c: reads and writes of byte ranges on a disk of blocks. The disk is its bytes; a
-- transfer of a block has ended when `blk_read` or `blk_write` returns. The caller's buffer is a
-- function of the index; `memcpy` is that of Klib.antt. Numbers are those of `uint32_t`.
pub mod Read
pub mod Write
mod Tests
use nju_os_lab.Prelude.Masks.{and_bits}
use nju_os_lab.Prelude.{
  ℕ, zero, suc, ◌+◌, ◌-◌, ◌*◌, ◌/◌, ◌%◌, ◌^◌, ◌&&◌, Option, none, some, ltb, leb, if◌then◌else◌,
}

abbrev pub Bytes : Type 0
Bytes = ℕ → ℕ

abbrev pub u32 : ℕ → ℕ
u32 n = n % 2 ^ 32

-- `-` on ℕ stops at 0, so the modulus is added first.
abbrev pub sub32 : ℕ → ℕ → ℕ
sub32 a b = (a + 2 ^ 32 - b % 2 ^ 32) % 2 ^ 32

-- `sd_t`, with the disk behind it
pub record Sd : Type 0 where
  pub blksz : ℕ
  pub buf : Bytes
  pub disk : Bytes

-- How a call ends. `out_of_fuel` is of the model.
pub data Outcome : Type 0 where
  returns : (pos : ℕ) → (buf : Bytes) → (sd : Sd) → Outcome
  no_disk : Outcome
  out_of_fuel : Outcome

-- `memcpy` of `n` bytes from the place `i` of `from` to the place `j` of `to`.
abbrev pub blit : (n : ℕ) → (from : Bytes) → (i : ℕ) → (to : Bytes) → (j : ℕ) → Bytes
blit n from i to j k = if leb j k && ltb k (j + n) then from (i + (k - j)) else to k

-- `blk_read` of one block
unfoldable pub blk_read : (blkno : ℕ) → Sd → Sd
blk_read blkno sd = record sd { buf = blit sd.blksz sd.disk (blkno * sd.blksz) sd.buf 0 }

-- `blk_write` of one block
unfoldable pub blk_write : (blkno : ℕ) → Sd → Sd
blk_write blkno sd = record sd { disk = blit sd.blksz sd.buf 0 sd.disk (blkno * sd.blksz) }

-- The bytes of one round, in `sd_read` and in `sd_write`.
abbrev pub round_bytes : (blksz st offset pos count : ℕ) → ℕ
round_bytes blksz st offset pos count =
    let n = sub32 blksz (sub32 offset st) in
    let left = sub32 count pos in if ltb left n then left else n

-- `ROUNDDOWN`: the mask is the 32-bit number `~(sz - 1)`.
abbrev pub round_down : (a sz : ℕ) → ℕ
round_down a sz = and_bits 32 a (sub32 0 sz)

-- The loop of `sd_read`.
unfoldable pub read_loop : (fuel st offset pos count : ℕ) → Bytes → Sd → Outcome
read_loop zero st offset pos count buf sd = out_of_fuel
read_loop (suc fuel) st offset pos count buf sd =
    let n = round_bytes sd.blksz st offset pos count in
    let sd' = blk_read (st / sd.blksz) sd in
    let buf' = blit n sd'.buf (sub32 offset st) buf pos in
    let offset' = u32 (st + sd.blksz) in
    let rest = read_loop fuel offset' offset' (u32 (pos + n)) count buf' sd' in
    if ltb pos count then rest else returns pos buf sd

-- `sd_read`
unfoldable pub sd_read : (fuel offset count : ℕ) → Bytes → Option Sd → Outcome
sd_read fuel offset count buf none = no_disk
sd_read fuel offset count buf (some sd) =
    read_loop fuel (round_down offset sd.blksz) offset 0 count buf sd

-- The block that a round of `sd_write` changes: a part of a block is read first.
abbrev pub fetch : (n blkno : ℕ) → Sd → Sd
fetch n blkno sd = if ltb n sd.blksz then blk_read blkno sd else sd

-- The loop of `sd_write`.
unfoldable pub write_loop : (fuel st offset pos count : ℕ) → Bytes → Sd → Outcome
write_loop zero st offset pos count buf sd = out_of_fuel
write_loop (suc fuel) st offset pos count buf sd =
    let n = round_bytes sd.blksz st offset pos count in
    let sd' = fetch n (st / sd.blksz) sd in
    let sd'' =
      blk_write (st / sd.blksz) (record sd' { buf = blit n buf pos sd'.buf (sub32 offset st) }) in
    let offset' = u32 (st + sd.blksz) in
    let rest = write_loop fuel offset' offset' (u32 (pos + n)) count buf sd'' in
    if ltb pos count then rest else returns pos buf sd

-- `sd_write`
unfoldable pub sd_write : (fuel offset count : ℕ) → Bytes → Option Sd → Outcome
sd_write fuel offset count buf none = no_disk
sd_write fuel offset count buf (some sd) =
    write_loop fuel (round_down offset sd.blksz) offset 0 count buf sd
