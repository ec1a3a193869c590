-- ===== src/Disk/Write.antt =====
-- `sd_write` of kernel/src/dev/dev_sd.c.
use native.Mathlib.Nat.{div-add-mod', mod-lt, mul-div_left, one-le-pow}
use native.Mathlib.Decide.{dec_lt}
use nju_os_lab.Prelude.{
  ℕ, zero, suc, ◌+◌, ◌-◌, ◌*◌, ◌/◌, ◌^◌, ◌≤◌, ◌<◌, ◌≡◌, ◌⊎◌, refl, ap, ◌∙◌, true, some, arith, ltb,
  Bool-cases, inl, inr, min,
}
use nju_os_lab.Disk.{
  Bytes, u32, sub32, Sd, Outcome, returns, blit, blk_read, blk_write, fetch, round_bytes,
  write_loop, sd_write,
}
use nju_os_lab.Disk.Read.{round_bytes_lem, round_down_lem}

-- The bytes of the buffer from `pos` up to `count` stand on the disk `d'` from `offset` on; the rest of it is
-- as on `d`.
pub record OnDisk (buf : Bytes) (offset pos count : ℕ) (d d' : Bytes) : Type 0 where
  pub inside : (i : ℕ) → pos ≤ i → i < count → d' (offset + (i - pos)) ≡ buf i
  pub outside : (a : ℕ) → (a < offset) ⊎ (offset + (count - pos) ≤ a) → d' a ≡ d a

-- The device behind a round that writes `n` bytes at `k` in block `q`.
abbrev round_sd : (n q k pos : ℕ) → Bytes → Sd → Sd
round_sd n q k pos buf sd =
    blk_write q (record (fetch n q sd) { buf = blit n buf pos (fetch n q sd).buf k })

round_sd-blksz :
    (n q k pos : ℕ) (buf : Bytes) (sd : Sd) → (round_sd n q k pos buf sd).blksz ≡ sd.blksz
unfolding blk_read blk_write
round_sd-blksz n q k pos buf sd = ground arith

-- A byte that a round writes.
round-inside :
    (q st n offset pos i : ℕ) (buf : Bytes) (sd : Sd)
    → st ≡ q * sd.blksz
    → st ≤ offset
    → offset + n ≤ st + sd.blksz
    → pos ≤ i
    → i < pos + n
    → (round_sd n q (offset - st) pos buf sd).disk (offset + (i - pos)) ≡ buf i
unfolding blk_read blk_write
round-inside q st n offset pos i buf sd e lo hi l u = elim (Bool-cases (ltb n sd.blksz)) [
  | inl part ↦ rw part (ground arith)
  | inr whole ↦ rw whole (ground arith)
]

-- A byte that a round leaves.
round-outside :
    (q st n offset pos a : ℕ) (buf : Bytes) (sd : Sd)
    → st ≡ q * sd.blksz
    → st ≤ offset
    → offset + n ≤ st + sd.blksz
    → (a < offset) ⊎ (offset + n ≤ a)
    → (round_sd n q (offset - st) pos buf sd).disk a ≡ sd.disk a
unfolding blk_read blk_write
round-outside q st n offset pos a buf sd e lo hi o = elim (Bool-cases (ltb n sd.blksz)) [
  | inl part ↦ rw part (ground arith)
  | inr whole ↦ rw whole (ground arith)
]

-- A round, and the rounds behind it.
OnDisk-round :
    (q st n offset pos count blksz : ℕ) (buf d' : Bytes) (sd : Sd)
    → sd.blksz ≡ blksz
    → st ≡ q * sd.blksz
    → st ≤ offset
    → (offset + n ≤ st + blksz) × (pos + n ≤ count)
    → (pos + n < count → offset + n ≡ st + blksz)
    → OnDisk buf (st + blksz) (pos + n) count (round_sd n q (offset - st) pos buf sd).disk d'
    → OnDisk buf offset pos count sd.disk d'
OnDisk-round q st n offset pos count blksz buf d' sd size at lo fits full f = record {
  inside = λ i l u. elim (dec_lt i (pos + n)) [
    | yes early ↦
        f.outside (offset + (i - pos)) (inl (omega (arith, fits)))
        ∙ round-inside q st n offset pos i buf sd at lo (omega (arith, size, fits)) l early
    | no late ↦ ap d' (omega (arith, full (omega arith))) ∙ f.inside i (omega arith) u
  ];
  outside = λ a o. elim (dec_lt (pos + n) count) [
    | yes more ↦
        f.outside a (elim o [ inl l ↦ inl (omega arith) | inr u ↦ inr (omega (arith, full more)) ])
        ∙ round-outside q st n offset pos a buf sd at lo (omega (arith, size, fits))
            (elim o [ inl l ↦ inl l | inr u ↦ inr (omega arith) ])
    | no last ↦
        f.outside a (elim (dec_lt a (st + blksz)) [ yes l ↦ inl l | no u ↦ inr (omega arith) ])
        ∙ round-outside q st n offset pos a buf sd at lo (omega (arith, size, fits))
            (elim o [ inl l ↦ inl l | inr u ↦ inr (omega arith) ])
  ];
}

write_loop-step :
    (fuel st offset pos count n q k st' pos' : ℕ) (b : Bytes) (sd : Sd) (r : Outcome)
    → ltb pos count ≡ true
    → round_bytes sd.blksz st offset pos count ≡ n
    → st / sd.blksz ≡ q
    → sub32 offset st ≡ k
    → u32 (st + sd.blksz) ≡ st'
    → u32 (pos + n) ≡ pos'
    → write_loop fuel st' st' pos' count b (round_sd n q k pos b sd) ≡ r
    → write_loop (suc fuel) st offset pos count b sd ≡ r
unfolding write_loop
write_loop-step fuel st offset pos count n q k st' pos' b sd r more bytes block skip on next e =
    rw (more, bytes, block, skip, on, next) e

write_loop-OnDisk :
    (fuel q st offset pos count blksz : ℕ) (b : Bytes) (sd : Sd)
    → sd.blksz ≡ blksz
    → 0 < blksz
    → st ≡ q * blksz
    → st ≤ offset
    → offset < st + blksz
    → pos ≤ count
    → (pos < count → offset + blksz + (count - pos) < 2 ^ 31)
    → count < 2 ^ 31
    → count < pos + fuel
    → (sd' : Sd) × (write_loop fuel st offset pos count b sd ≡ returns count b sd')
      × OnDisk b offset pos count sd.disk sd'.disk
unfolding write_loop
write_loop-OnDisk zero q st offset pos count blksz b sd size some_ at lo hi le small room enough =
    absurd (omega arith)
write_loop-OnDisk (suc fuel) q st offset pos count blksz b sd size some_ at lo hi le small room
      enough =
    elim (Bool-cases (ltb pos count)) [
      | inr end ↦
          let same : pos ≡ count = ground arith in
          (
            sd,
            rw (end, same),
            record { inside = λ i l u. absurd (omega arith); outside = λ a o. refl },
          )
      | inl more ↦
          let n = min (st + blksz - offset) (count - pos) in
          let lt : pos < count = ground arith in
          let bound : offset + blksz + (count - pos) < 2 ^ 31 = small lt in
          let bytes : round_bytes sd.blksz st offset pos count ≡ n =
            rw size (round_bytes_lem blksz st offset pos count lo hi lt (omega arith) room) in
          let block : st / sd.blksz ≡ q =
            ap (λ s. st / s) size ∙ ap (λ s. s / blksz) at ∙ mul-div_left q some_ in
          let skip : sub32 offset st ≡ offset - st = omega arith in
          let on : u32 (st + sd.blksz) ≡ st + blksz = omega arith in
          let pos' : u32 (pos + n) ≡ pos + n = omega arith in
          let at' : st ≡ q * sd.blksz = rw size at in
          let (sd', e, f) =
            write_loop-OnDisk fuel (q + 1) (st + blksz) (st + blksz) (pos + n) count blksz b
              (round_sd n q (offset - st) pos b sd)
              (round_sd-blksz n q (offset - st) pos b sd ∙ size) some_ (grind (arith, at))
              (omega arith) (omega arith) (omega arith) (λ lt'. omega arith) room (omega arith) in
          (
            sd',
            write_loop-step fuel st offset pos count n q (offset - st) (st + blksz) (pos + n) b sd
                (returns count b sd') more bytes block skip on pos' e,
            OnDisk-round q st n offset pos count blksz b sd'.disk sd size at' lo (omega arith)
                (λ lt'. omega arith) f,
          )
    ]

-- `sd_write` of a range that ends, with one block more, below 2 ^ 31, on a disk whose block size is a power of
-- two, returns the number of bytes given after at most that many rounds: the range on the disk
-- holds the bytes of the buffer, and the rest of the disk, the blocks that the range takes part of
-- included, is unchanged.
pub sd_write-OnDisk :
    (k fuel offset count : ℕ) (b : Bytes) (sd : Sd)
    → sd.blksz ≡ 2 ^ k
    → k ≤ 32
    → offset + sd.blksz + count < 2 ^ 31
    → count < fuel
    → (sd' : Sd) × (sd_write fuel offset count b (some sd) ≡ returns count b sd')
      × OnDisk b offset 0 count sd.disk sd'.disk
unfolding sd_write
sd_write-OnDisk k fuel offset count b sd size le small enough =
    let pos : 0 < sd.blksz = rw size (one-le-pow k 2 (omega arith)) in
    rw (round_down_lem k offset sd.blksz size le (omega arith) (omega arith)) (
      write_loop-OnDisk fuel (offset / sd.blksz) (offset / sd.blksz * sd.blksz) offset 0 count
        sd.blksz b sd refl pos refl (omega (arith, div-add-mod' offset sd.blksz))
        (omega (arith, div-add-mod' offset sd.blksz, mod-lt offset pos)) (omega arith)
        (λ lt. omega arith) (omega arith) (omega arith))
