-- ===== src/Prelude/Masks.antt =====
-- `&` on words of a given width, and masks that clear the low bits.
use native.Mathlib.Nat.{
  pow-suc, one-le-pow, mul-sub, mul_comm, div-lt_iff_lt-mul, div-div-eq-div-mul,
}
use Prim.Native.Nat.{ℕ, zero, suc, ◌+◌, ◌-◌, ◌*◌, ◌/◌, ◌%◌, ◌^◌, ◌<◌, min}
use mathlib.Core.Path.{◌≡◌, ap, ◌∙◌}
use native.Mathlib.Omega.{arith}

-- `a & b` on the lowest `w` bits.
unfoldable pub and_bits : (w a b : ℕ) → ℕ
and_bits zero a b = 0
and_bits (suc w) a b = min (a % 2) (b % 2) + 2 * and_bits w (a / 2) (b / 2)

-- All bits of the mask are set.
pub and_bits-ones : (w a : ℕ) → a < 2 ^ w → and_bits w a (2 ^ w - 1) ≡ a
unfolding and_bits
and_bits-ones zero a lt = omega arith
and_bits-ones (suc w) a lt =
    let double : 2 ^ suc w ≡ 2 * 2 ^ w = omega (arith, pow-suc 2 w) in
    let half : (2 ^ suc w - 1) / 2 ≡ 2 ^ w - 1 =
      omega (arith, double, one-le-pow w 2 (omega arith)) in
    rw half (omega (arith, double, and_bits-ones w (a / 2) (omega (arith, double))))

double_pow : (k m : ℕ) → 2 ^ suc k * m ≡ 2 * (2 ^ k * m)
double_pow k m = grind (arith, ap (λ (t : ℕ). t * m) (pow-suc 2 k))

-- The low `k` bits of the mask are clear.
pub and_bits-high :
    (k w a m : ℕ) → and_bits (k + w) a (2 ^ k * m) ≡ 2 ^ k * and_bits w (a / 2 ^ k) m
unfolding and_bits
and_bits-high zero w a m =
    let width : 0 + w ≡ w = omega arith in
    let whole : 2 ^ 0 * m ≡ m = omega arith in
    let same : a / 2 ^ 0 ≡ a = omega arith in rw (width, whole, same) (omega arith)
and_bits-high (suc k) w a m =
    let double : 2 ^ suc k * m ≡ 2 * (2 ^ k * m) = double_pow k m in
    let half : 2 ^ suc k * m / 2 ≡ 2 ^ k * m = omega (arith, double) in
    let even : 2 ^ suc k * m % 2 ≡ 0 = omega (arith, double) in
    let width : suc k + w ≡ suc (k + w) = omega arith in
    let quarter : a / 2 / 2 ^ k ≡ a / 2 ^ suc k =
      div-div-eq-div-mul a 2 (2 ^ k) ∙ ap (λ d. a / d) (omega (arith, pow-suc 2 k)) in
    rw (width, half, even, and_bits-high k w (a / 2) m, quarter)
      (omega (arith, double_pow k (and_bits w (a / 2 ^ suc k) m)))

pow_split : (k w : ℕ) → 2 ^ (k + w) ≡ 2 ^ k * 2 ^ w
pow_split zero w = let e : 0 + w ≡ w = omega arith in rw e (omega arith)
pow_split (suc k) w =
    let e : suc k + w ≡ suc (k + w) = omega arith in
    rw e (omega (arith, pow-suc 2 (k + w), pow_split k w, double_pow k (2 ^ w)))

-- A mask that clears the low bits rounds down to a multiple.
pub and_bits-mask :
    (k w a : ℕ) → a < 2 ^ (k + w) → and_bits (k + w) a (2 ^ (k + w) - 2 ^ k) ≡ a / 2 ^ k * 2 ^ k
and_bits-mask k w a lt =
    let mask : 2 ^ (k + w) - 2 ^ k ≡ 2 ^ k * (2 ^ w - 1) =
      omega (arith, pow_split k w, mul-sub (2 ^ k) (2 ^ w) 1) in
    let small : a / 2 ^ k < 2 ^ w =
      (div-lt_iff_lt-mul (one-le-pow k 2 (omega arith))).1
        (omega (arith, pow_split k w, mul_comm (2 ^ w) (2 ^ k))) in
    rw (mask, and_bits-high k w a (2 ^ w - 1), and_bits-ones w (a / 2 ^ k) small)
      (mul_comm (2 ^ k) (a / 2 ^ k))
