-- ===== src/Prelude/Flags.antt =====
-- `|` on words of a given width, and tests of low bits: addresses of aligned blocks that carry flags.
use native.Mathlib.Nat.{
  pow-suc, one-le-pow, mod-lt, mod-eq_of_lt, div-add-mod, add-mul-mod_self_left,
}
use Prim.Native.Nat.{ℕ, zero, suc, ◌+◌, ◌-◌, ◌*◌, ◌/◌, ◌%◌, ◌^◌, ◌<◌, max}
use mathlib.Core.Path.{◌≡◌, ap, ◌∙◌}
use native.Mathlib.Omega.{arith}
use nju_os_lab.Prelude.Masks.{and_bits}

-- `a | b` on the lowest `w` bits.
unfoldable pub or_bits : (w a b : ℕ) → ℕ
or_bits zero a b = 0
or_bits (suc w) a b = max (a % 2) (b % 2) + 2 * or_bits w (a / 2) (b / 2)

or_bits-zero : (w a : ℕ) → a < 2 ^ w → or_bits w a 0 ≡ a
unfolding or_bits
or_bits-zero zero a lt = omega arith
or_bits-zero (suc w) a lt =
    omega (arith, pow-suc 2 w, or_bits-zero w (a / 2) (omega (arith, pow-suc 2 w)))

-- Flags stay in the low bits, and the address above them is kept.
pub or_bits-flags :
    (k w a e f : ℕ)
    → a < 2 ^ w
    → e < 2 ^ k
    → f < 2 ^ k
    → or_bits (k + w) (a * 2 ^ k + e) f ≡ a * 2 ^ k + or_bits k e f
unfolding or_bits
or_bits-flags zero w a e f la le lf =
    let width : 0 + w ≡ w = omega arith in
    let whole : a * 2 ^ 0 + e ≡ a = omega arith in
    let none : f ≡ 0 = omega arith in rw (width, whole, none) (omega (arith, or_bits-zero w a la))
or_bits-flags (suc k) w a e f la le lf =
    let width : suc k + w ≡ suc (k + w) = omega arith in
    let double : a * 2 ^ suc k ≡ 2 * (a * 2 ^ k) = grind (arith, ap (λ t. a * t) (pow-suc 2 k)) in
    let half : (2 * (a * 2 ^ k) + e) / 2 ≡ a * 2 ^ k + e / 2 = omega arith in
    let e' : e / 2 < 2 ^ k = omega (arith, pow-suc 2 k) in
    let f' : f / 2 < 2 ^ k = omega (arith, pow-suc 2 k) in
    let bit : (2 * (a * 2 ^ k) + e) % 2 ≡ e % 2 = omega arith in
    rw (width, double, half, bit, or_bits-flags k w a (e / 2) (f / 2) la e' f') (omega arith)

pub and_bits-none : (w a : ℕ) → and_bits w a 0 ≡ 0
unfolding and_bits
and_bits-none zero a = omega arith
and_bits-none (suc w) a = omega (arith, and_bits-none w (a / 2))

mod_double : (b a : ℕ) → 0 < b → a % (2 * b) ≡ a % 2 + 2 * (a / 2 % b)
mod_double b a pos =
    let r = a / 2 % b in
    let less : r < b = mod-lt (a / 2) pos in
    let parts : a ≡ a % 2 + 2 * r + 2 * b * (a / 2 / b) = grind (arith, div-add-mod (a / 2) b) in
    ap (λ n. n % (2 * b)) parts
    ∙ add-mul-mod_self_left (a % 2 + 2 * r) (2 * b) (a / 2 / b)
    ∙ mod-eq_of_lt (omega arith)

-- A mask of the low bits takes the remainder.
pub and_bits-low : (k w a : ℕ) → and_bits (k + w) a (2 ^ k - 1) ≡ a % 2 ^ k
unfolding and_bits
and_bits-low zero w a =
    let width : 0 + w ≡ w = omega arith in rw width (omega (arith, and_bits-none w a))
and_bits-low (suc k) w a =
    let width : suc k + w ≡ suc (k + w) = omega arith in
    let double : 2 ^ suc k ≡ 2 * 2 ^ k = omega (arith, pow-suc 2 k) in
    let half : (2 ^ suc k - 1) / 2 ≡ 2 ^ k - 1 =
      omega (arith, pow-suc 2 k, one-le-pow k 2 (omega arith)) in
    rw (width, half, and_bits-low k w (a / 2))
      (omega (
        arith,
        mod_double (2 ^ k) a (one-le-pow k 2 (omega arith)),
        pow-suc 2 k,
        one-le-pow k 2 (omega arith),
        ap (λ n. a % n) double,
      ))
