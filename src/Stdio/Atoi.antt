-- ===== src/Stdio/Atoi.antt =====
-- `atoi` of abstract-machine/klib/src/stdlib.c on the digits that `_itos` of abstract-machine/klib/src/stdio.c
-- writes.
use mathlib.Core.List.{append-nil}
use nju_os_lab.Prelude.{
  ℕ, zero, suc, ◌+◌, ◌-◌, ◌*◌, ◌%◌, ◌^◌, ◌≤◌, ◌<◌, ◌≡◌, ap, ◌∙◌, true, false, ◌&&◌, some, List, [],
  ◌∷◌, map, length, All, arith, leb, ◌==◌, inr, update,
}
use nju_os_lab.Klib.{Mem}
use nju_os_lab.Klib.Text.{CString}
use nju_os_lab.Stdio.{table, itos, add_prefix, skip_blanks, atoi_digits, atoi}
use nju_os_lab.Stdio.Digits.{number_from, itos_loop-Digits}

number_from-ge : (acc : ℕ) (ds : List ℕ) → acc ≤ number_from 10 acc ds
unfolding number_from
number_from-ge acc [] = omega arith
number_from-ge acc (d ∷ ds) = omega (arith, number_from-ge (acc * 10 + d) ds)

atoi_digits-number :
    (fuel p x : ℕ) (ds : List ℕ) (m : Mem)
    → CString m p (map table ds)
    → All (λ d. d < 10) ds
    → number_from 10 x ds < 2 ^ 32
    → length ds < fuel
    → atoi_digits fuel p x m ≡ some (number_from 10 x ds)
unfolding atoi_digits number_from
atoi_digits-number zero p x ds m h small fits enough = absurd (omega arith)
atoi_digits-number (suc fuel) p x [] m h small fits enough =
    let end : (leb b'0' (m p) && leb (m p) b'9') ≡ false = ground arith in rw end
atoi_digits-number (suc fuel) p x (d ∷ ds) m h small fits enough =
    let byte : m p ≡ b'0' + d = h.0 ∙ ground (arith, small.0) in
    let digit : (leb b'0' (m p) && leb (m p) b'9') ≡ true = ground (arith, small.0) in
    let next : (x * 10 + m p + 2 ^ 32 - b'0') % 2 ^ 32 ≡ x * 10 + d =
      omega (arith, number_from-ge (x * 10 + d) ds) in
    rw (digit, next)
      (atoi_digits-number fuel (p + 1) (x * 10 + d) ds m h.2 small.1 fits (omega arith))

skip_blanks-digits :
    (fuel p : ℕ) (ds : List ℕ) (m : Mem)
    → CString m p (map table ds)
    → 0 < fuel
    → skip_blanks fuel p m ≡ some p
unfolding skip_blanks
skip_blanks-digits zero p ds m h pos = absurd (omega arith)
skip_blanks-digits (suc fuel) p [] m h pos =
    let no_blank : (m p == b' ') ≡ false = ground arith in rw no_blank
skip_blanks-digits (suc fuel) p (d ∷ ds) m h pos =
    let no_blank : (m p == b' ') ≡ false = ground (arith, h.0) in rw no_blank

-- `_itos` in base 10 of a number that is an `int` and not negative, with no least length and with ten bytes
-- of room, returns where its text begins, and `atoi` of that text returns the number; eleven rounds
-- are enough for both.
pub atoi-itos :
    (fuel val end : ℕ) (s : Mem)
    → val < 2 ^ 31
    → 10 ≤ end
    → 11 ≤ fuel
    → (start : ℕ) × (s' : Mem) × (itos fuel val end 10 (2 ^ 32 - 1) s ≡ some (start, s'))
      × (atoi fuel start s' ≡ some val)
unfolding itos add_prefix atoi
atoi-itos fuel val end s small room enough =
    let (start, s', ds, e, d) =
      itos_loop-Digits 10 fuel val end 10 (2 ^ 32 - 1) 0 (update s end 0) [] (omega arith)
        (omega arith) (omega arith) (omega arith) (omega arith) room (inr (omega arith))
        (ground arith) in
    let text : CString s' start (map table ds) = rw (append-nil (map table ds)) at d.text in
    let digits : atoi_digits fuel start 0 s' ≡ some (number_from 10 0 ds) =
      atoi_digits-number fuel start 0 ds s' text d.small (omega (arith, d.value))
        (omega (arith, d.short)) in
    (
      start,
      s',
      rw e,
      rw (skip_blanks-digits fuel start ds s' text (omega arith)) (digits ∙ ap some d.value),
    )
