-- ===== src/Disk/Read.antt =====
-- `sd_read` of kernel/src/dev/dev_sd.c.
use native.Mathlib.Nat.{div-add-mod', mod-lt, mul-div_left, one-le-pow}
use native.Mathlib.Decide.{dec_lt}
use nju_os_lab.Prelude.Masks.{and_bits, and_bits-mask}
use nju_os_lab.Prelude.{
  ℕ, zero, suc, ◌+◌, ◌-◌, ◌*◌, ◌/◌, ◌^◌, ◌≤◌, ◌<◌, ◌≡◌, ◌⊎◌, refl, ap, ◌∙◌, true, ◌&&◌, some, arith,
  ltb, leb, Bool-cases, inl, inr, min,
}
use nju_os_lab.Disk.{
  Bytes, u32, sub32, Sd, Outcome, returns, blit, blk_read, round_bytes, round_down, read_loop,
  sd_read,
}

pub round_down_lem :
    (k a sz : ℕ) → sz ≡ 2 ^ k → k ≤ 32 → a < 2 ^ 32 → sz < 2 ^ 32 → round_down a sz ≡ a / sz * sz
round_down_lem k a sz e le lt lt' =
    let split : k + (32 - k) ≡ 32 = omega arith in
    let full : and_bits 32 a (2 ^ 32 - 2 ^ k) ≡ a / 2 ^ k * 2 ^ k =
      rw split at (and_bits-mask k (32 - k) a (rw split lt)) in
    let mask : sub32 0 sz ≡ 2 ^ 32 - 2 ^ k = omega (arith, e, one-le-pow k 2 (omega arith)) in
    rw (mask, e) full

-- The bytes of a round: up to the end of the block, or of the range.
pub round_bytes_lem :
    (blksz st offset pos count : ℕ)
    → st ≤ offset
    → offset < st + blksz
    → pos < count
    → st + blksz < 2 ^ 31
    → count < 2 ^ 31
    → round_bytes blksz st offset pos count ≡ min (st + blksz - offset) (count - pos)
round_bytes_lem blksz st offset pos count lo hi more small room = ground arith

-- The range from the place `p` of the disk on stands at `pos` and behind, up to `count`, in `b'`; the rest of it
-- is as in `b`.
pub record Fetched (disk : Bytes) (p pos count : ℕ) (b b' : Bytes) : Type 0 where
  pub inside : (i : ℕ) → pos ≤ i → i < count → b' i ≡ disk (p + (i - pos))
  pub outside : (i : ℕ) → (i < pos) ⊎ (count ≤ i) → b' i ≡ b i

-- What a round copies: bytes of the block `q`.
round-inside :
    (q st n offset pos i : ℕ) (b : Bytes) (sd : Sd)
    → st ≡ q * sd.blksz
    → st ≤ offset
    → offset + n ≤ st + sd.blksz
    → pos ≤ i
    → i < pos + n
    → blit n (blk_read q sd).buf (offset - st) b pos i ≡ sd.disk (offset + (i - pos))
unfolding blk_read
round-inside q st n offset pos i b sd e lo hi l u =
    let here : (leb pos i && ltb i (pos + n)) ≡ true = ground arith in
    let in_block : ltb (offset - st + (i - pos)) (0 + sd.blksz) ≡ true = ground arith in
    let low : leb 0 (offset - st + (i - pos)) ≡ true = ground arith in
    rw (here, in_block, low) (ap sd.disk (omega arith))

round-outside : (n j pos i : ℕ) (f b : Bytes) → (i < pos) ⊎ (pos + n ≤ i) → blit n f j b pos i ≡ b i
round-outside n j pos i f b o = ground arith

-- A round, and the rounds behind it.
Fetched-round :
    (q st n offset pos count : ℕ) (b b' : Bytes) (sd : Sd)
    → st ≡ q * sd.blksz
    → st ≤ offset
    → (offset + n ≤ st + sd.blksz) × (pos + n ≤ count)
    → (pos + n < count → offset + n ≡ st + sd.blksz)
    → Fetched sd.disk
        (st + sd.blksz)
        (pos + n)
        count
        (blit n (blk_read q sd).buf (offset - st) b pos)
        b'
    → Fetched sd.disk offset pos count b b'
Fetched-round q st n offset pos count b b' sd at lo fits full f = record {
  inside = λ i l u. elim (dec_lt i (pos + n)) [
    | yes early ↦
        f.outside i (inl early) ∙ round-inside q st n offset pos i b sd at lo fits.0 l early
    | no late ↦ f.inside i (omega arith) u ∙ ap sd.disk (omega (arith, full (omega arith)))
  ];
  outside = λ i o. elim o [
    | inl l ↦
        f.outside i (inl (omega arith))
        ∙ round-outside n (offset - st) pos i (blk_read q sd).buf b (inl l)
    | inr u ↦
        f.outside i (inr u)
        ∙ round-outside n (offset - st) pos i (blk_read q sd).buf b (inr (omega arith))
  ];
}

read_loop-step :
    (fuel st offset pos count n q k st' pos' : ℕ) (b : Bytes) (sd : Sd) (r : Outcome)
    → ltb pos count ≡ true
    → round_bytes sd.blksz st offset pos count ≡ n
    → st / sd.blksz ≡ q
    → sub32 offset st ≡ k
    → u32 (st + sd.blksz) ≡ st'
    → u32 (pos + n) ≡ pos'
    → read_loop fuel st' st' pos' count (blit n (blk_read q sd).buf k b pos) (blk_read q sd) ≡ r
    → read_loop (suc fuel) st offset pos count b sd ≡ r
unfolding read_loop
read_loop-step fuel st offset pos count n q k st' pos' b sd r more bytes block skip on next e =
    rw (more, bytes, block, skip, on, next) e

read_loop-Fetched :
    (fuel q st offset pos count : ℕ) (b : Bytes) (sd : Sd)
    → 0 < sd.blksz
    → st ≡ q * sd.blksz
    → st ≤ offset
    → offset < st + sd.blksz
    → pos ≤ count
    → (pos < count → offset + sd.blksz + (count - pos) < 2 ^ 31)
    → count < 2 ^ 31
    → count < pos + fuel
    → (b' : Bytes) × (sd' : Sd) × (read_loop fuel st offset pos count b sd ≡ returns count b' sd')
      × (sd'.disk ≡ sd.disk)
      × Fetched sd.disk offset pos count b b'
unfolding read_loop blk_read
read_loop-Fetched zero q st offset pos count b sd some_ at lo hi le small room enough =
    absurd (omega arith)
read_loop-Fetched (suc fuel) q st offset pos count b sd some_ at lo hi le small room enough =
    elim (Bool-cases (ltb pos count)) [
      | inr end ↦
          let same : pos ≡ count = ground arith in
          (
            b,
            sd,
            rw (end, same),
            refl,
            record { inside = λ i l u. absurd (omega arith); outside = λ i o. refl },
          )
      | inl more ↦
          let n = min (st + sd.blksz - offset) (count - pos) in
          let lt : pos < count = ground arith in
          let bound : offset + sd.blksz + (count - pos) < 2 ^ 31 = small lt in
          let bytes : round_bytes sd.blksz st offset pos count ≡ n =
            round_bytes_lem sd.blksz st offset pos count lo hi lt (omega arith) room in
          let block : st / sd.blksz ≡ q = ap (λ s. s / sd.blksz) at ∙ mul-div_left q some_ in
          let skip : sub32 offset st ≡ offset - st = omega arith in
          let on : u32 (st + sd.blksz) ≡ st + sd.blksz = omega arith in
          let pos' : u32 (pos + n) ≡ pos + n = omega arith in
          let b1 = blit n (blk_read q sd).buf (offset - st) b pos in
          let (b', sd', e, disk, f) =
            read_loop-Fetched fuel (q + 1) (st + sd.blksz) (st + sd.blksz) (pos + n) count b1
              (blk_read q sd) some_ (grind (arith, at)) (omega arith) (omega arith) (omega arith)
              (λ lt'. omega arith) room (omega arith) in
          (
            b',
            sd',
            read_loop-step fuel st offset pos count n q (offset - st) (st + sd.blksz) (pos + n) b sd
                (returns count b' sd') more bytes block skip on pos' e,
            disk,
            Fetched-round q st n offset pos count b b' sd at lo (omega arith) (λ lt'. omega arith)
                f,
          )
    ]

-- `sd_read` of a range that ends, with one block more, below 2 ^ 31, on a disk whose block size is a power of
-- two, returns the number of bytes asked for after at most that many rounds: the buffer holds the
-- bytes of the disk from `offset` on and is unchanged behind them, and the disk is unchanged.
pub sd_read-Fetched :
    (k fuel offset count : ℕ) (b : Bytes) (sd : Sd)
    → sd.blksz ≡ 2 ^ k
    → k ≤ 32
    → offset + sd.blksz + count < 2 ^ 31
    → count < fuel
    → (b' : Bytes) × (sd' : Sd) × (sd_read fuel offset count b (some sd) ≡ returns count b' sd')
      × (sd'.disk ≡ sd.disk)
      × Fetched sd.disk offset 0 count b b'
unfolding sd_read
sd_read-Fetched k fuel offset count b sd size le small enough =
    let pos : 0 < sd.blksz = rw size (one-le-pow k 2 (omega arith)) in
    rw (round_down_lem k offset sd.blksz size le (omega arith) (omega arith)) (
      read_loop-Fetched fuel (offset / sd.blksz) (offset / sd.blksz * sd.blksz) offset 0 count b sd
        pos refl (omega (arith, div-add-mod' offset sd.blksz))
        (omega (arith, div-add-mod' offset sd.blksz, mod-lt offset pos)) (omega arith)
        (λ lt. omega arith) (omega arith) (omega arith))
