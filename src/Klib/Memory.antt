-- ===== src/Klib/Memory.antt =====
-- What the byte loops of abstract-machine/klib/src/string.c do to memory.
use nju_os_lab.Prelude.{
  ℕ, zero, suc, ◌+◌, ◌-◌, ◌%◌, ◌^◌, ◌≤◌, ◌<◌, ◌≡◌, ◌≢◌, ◌⊎◌, inl, inr, refl, ap, ◌∙◌, true, false,
  arith, ltb, ◌==◌, update,
}
use nju_os_lab.Common.{null}
use nju_os_lab.Klib.{Mem, returns, fill, memset, copy, memcpy, last_index, rounds_up, memmove}

pub fill-other : (n p c : ℕ) (m : Mem) (q : ℕ) → (q < p) ⊎ (p + n ≤ q) → fill n p c m q ≡ m q
unfolding fill
fill-other zero p c m q out = refl
fill-other (suc n) p c m q out = ground (arith, fill-other n (p + 1) c (update m p c) q)

pub fill-inside : (n p c : ℕ) (m : Mem) (k : ℕ) → k < n → fill n p c m (p + k) ≡ c
unfolding fill
fill-inside zero p c m k lt = absurd (omega arith)
fill-inside (suc n) p c m zero lt = ground (arith, fill-other n (p + 1) c (update m p c) p)
fill-inside (suc n) p c m (suc k) lt =
    ap (fill n (p + 1) c (update m p c)) (omega arith)
    ∙ fill-inside n (p + 1) c (update m p c) k (omega arith)

pub copy-other :
    (n dst src : ℕ) (m : Mem) (q : ℕ) → (q < dst) ⊎ (dst + n ≤ q) → copy n dst src m q ≡ m q
unfolding copy
copy-other zero dst src m q out = refl
copy-other (suc n) dst src m q out =
    ground (arith, copy-other n (dst + 1) (src + 1) (update m dst (m src)) q)

-- Upwards, from a region that is not overwritten before it is read.
pub copy-inside :
    (n dst src : ℕ) (m : Mem) (k : ℕ)
    → (dst ≤ src) ⊎ (src + n ≤ dst)
    → k < n
    → copy n dst src m (dst + k) ≡ m (src + k)
unfolding copy
copy-inside zero dst src m k apart lt = absurd (omega arith)
copy-inside (suc n) dst src m zero apart lt =
    ap (copy n (dst + 1) (src + 1) (update m dst (m src))) (omega arith)
    ∙ copy-other n (dst + 1) (src + 1) (update m dst (m src)) dst (inl (omega arith))
    ∙ ground arith
copy-inside (suc n) dst src m (suc k) apart lt =
    let apart' : (dst + 1 ≤ src + 1) ⊎ (src + 1 + n ≤ dst + 1) = elim apart [
      | inl le ↦ inl (omega arith)
      | inr le ↦ inr (omega arith)
    ] in
    let later : update m dst (m src) (src + suc k) ≡ m (src + suc k) = ground arith in
    ap (copy n (dst + 1) (src + 1) (update m dst (m src))) (omega arith)
    ∙ copy-inside n (dst + 1) (src + 1) (update m dst (m src)) k apart' (omega arith)
    ∙ ap (update m dst (m src)) (omega arith)
    ∙ later

-- The region of `n` bytes at `p` holds `f`, and the rest of the memory is as in `m`.
pub record Stored (m : Mem) (p n : ℕ) (f : ℕ → ℕ) (m' : Mem) : Type 0 where
  pub inside : (k : ℕ) → k < n → m' (p + k) ≡ f k
  pub outside : (q : ℕ) → (q < p) ⊎ (p + n ≤ q) → m' q ≡ m q

-- `memset` returns, and sets exactly the `n` bytes at `s` to the low byte of `c`.
pub memset-Stored :
    (s c n : ℕ) (m : Mem)
    → s ≢ null
    → (m' : Mem) × (memset s c n m ≡ returns (s, m')) × Stored m s n (λ k. c % 256) m'
unfolding memset
memset-Stored s c n m ne =
    let there : (s == null) ≡ false = ground arith in
    (
      fill n s (c % 256) m,
      rw there,
      record {
        inside = λ k lt. fill-inside n s (c % 256) m k lt;
        outside = λ q out. fill-other n s (c % 256) m q out;
      },
    )

copy-Stored :
    (n dst src : ℕ) (m : Mem)
    → (dst ≤ src) ⊎ (src + n ≤ dst)
    → Stored m dst n (λ k. m (src + k)) (copy n dst src m)
copy-Stored n dst src m apart = record {
  inside = λ k lt. copy-inside n dst src m k apart lt;
  outside = λ q out. copy-other n dst src m q out;
}

-- `memcpy` between regions that do not overlap returns, and copies exactly the `n` bytes.
pub memcpy-Stored :
    (out src n : ℕ) (m : Mem)
    → out ≢ null
    → src ≢ null
    → (out + n ≤ src) ⊎ (src + n ≤ out)
    → (m' : Mem) × (memcpy out src n m ≡ returns (out, m')) × Stored m out n (λ k. m (src + k)) m'
unfolding memcpy
memcpy-Stored out src n m ne ne' apart =
    let a : (out == null) ≡ false = ground arith in
    let b : (src == null) ≡ false = ground arith in
    let apart' : (out ≤ src) ⊎ (src + n ≤ out) = elim apart [
      | inl le ↦ inl (omega arith)
      | inr le ↦ inr le
    ] in
    (copy n out src m, rw (a, b), copy-Stored n out src m apart')

-- `memmove` to a lower address returns, and moves exactly the `n` bytes, also where the regions
-- overlap.
pub memmove-Stored :
    (dst src n : ℕ) (m : Mem)
    → dst ≢ null
    → dst ≤ src
    → (m' : Mem) × (memmove dst src n m ≡ returns (dst, m')) × Stored m dst n (λ k. m (src + k)) m'
unfolding memmove
memmove-Stored dst src n m ne le =
    let a : (dst == null) ≡ false = ground arith in
    let b : (src == null) ≡ false = ground arith in
    let down : ltb src dst ≡ false = ground arith in
    (copy n dst src m, rw (a, b, down), copy-Stored n dst src m (inl le))

copy-second :
    (n dst src : ℕ) (m : Mem) → src + 1 < dst → copy (suc (suc n)) dst src m (dst + 1) ≡ m (src + 1)
unfolding copy
copy-second n dst src m lt =
    copy-other n (dst + 1 + 1) (src + 1 + 1) _ (dst + 1) (inl (omega arith)) ∙ ground arith

-- `memmove` of 1 to 2 GiB - 1 bytes to a higher address counts upwards from the last byte: it moves
-- none of the bytes in front of the last one, and overwrites the byte behind the region with the byte
-- behind the source, if the source ends in front of the destination.
pub memmove-overrun :
    (dst src n : ℕ) (m : Mem)
    → src ≢ null
    → src + n < dst
    → 0 < n
    → n < 2 ^ 31
    → (m' : Mem) × (memmove dst src n m ≡ returns (dst, m'))
      × ((k : ℕ) → k + 1 < n → m' (dst + k) ≡ m (dst + k))
      × (m' (dst + n) ≡ m (src + n))
unfolding memmove rounds_up
memmove-overrun dst src n m ne lt pos small =
    let a : (dst == null) ≡ false = ground arith in
    let b : (src == null) ≡ false = ground arith in
    let up : ltb src dst ≡ true = ground arith in
    let last : last_index n ≡ n - 1 = omega arith in
    let more : ltb (n - 1) (2 ^ 31) ≡ true = ground arith in
    let r = 2 ^ 31 - (n - 1) in
    (
      copy r (dst + (n - 1)) (src + (n - 1)) m,
      rw (a, b, up, last, more),
      λ k h. copy-other r (dst + (n - 1)) (src + (n - 1)) m (dst + k) (inl (omega arith)),
      ap (λ k. copy k (dst + (n - 1)) (src + (n - 1)) m (dst + n)) (omega arith)
          ∙ ap (copy (suc (suc (r - 2))) (dst + (n - 1)) (src + (n - 1)) m) (omega arith)
          ∙ copy-second (r - 2) (dst + (n - 1)) (src + (n - 1)) m (omega arith)
          ∙ ap m (omega arith),
    )
