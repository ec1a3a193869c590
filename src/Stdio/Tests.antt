-- ===== src/Stdio/Tests.antt =====
-- The theorems about abstract-machine/klib/src/stdio.c at a small format.
use nju_os_lab.Prelude.{
  ℕ, ◌+◌, ◌-◌, ◌^◌, ◌≡◌, refl, inl, Option, none, some, List, [], ◌∷◌, ◌++◌, length, arith, ◌==◌,
  if◌then◌else◌,
}
use nju_os_lab.Klib.{Mem}
use nju_os_lab.Stdio.{
  itos_loop, itos, add_prefix, put_string, put_itos, put_int, directive, format_from, vsprintf,
  atoi, snprintf,
}
use nju_os_lab.Stdio.Atoi.{atoi-itos}
use nju_os_lab.Stdio.Numbers.{write}
use nju_os_lab.Stdio.Format.{Piece, literal, int, string, Spelled, arguments, PrintsAll}
use nju_os_lab.Stdio.Printing.{vsprintf-Prints}
use nju_os_lab.Stdio.Bounded.{Bounded, snprintf-Truncated}

-- The format "a%d%s" at 100, and the string "tt" at 200.
abbrev m : Mem
m a =
    if a == 100
    then b'a'
    else if a == 101
    then b'%'
    else if a == 102
    then b'd'
    else if a == 103
    then b'%'
    else if a == 104
    then b's'
    else if a == 200
    then b't'
    else if a == 201
    then b't'
    else 0

-- The argument of `%d` is -1.
abbrev pieces : List Piece
pieces = literal b'a' ∷ int b'd' (2 ^ 32 - 1) ∷ string 200 (b't' ∷ b't' ∷ []) ∷ []

abbrev blank : Mem
blank i = 0

pieces-Spelled : Spelled m 100 pieces
pieces-Spelled = (
  omega arith,
  (refl, omega arith, tt),
  (
    inl refl,
    (refl, omega arith, (refl, omega arith, tt)),
    (
      (refl, omega arith, (refl, omega arith, refl)),
      (refl, omega arith, (refl, omega arith, tt)),
      refl,
    ),
  ),
)

abbrev byte : ℕ → Option (ℕ × Mem) → ℕ
byte i none = 0
byte i (some (n, out)) = out i

-- The first digit of 4294967295, not a sign.
minus_one : byte 1 (vsprintf 9 100 (arguments pieces) m blank blank) ≡ b'4'
unfolding vsprintf format_from directive put_int put_itos itos itos_loop add_prefix put_string
minus_one = refl

vsprintf_example :
    (text : List ℕ) × (vsprintf 9 100 (arguments pieces) m blank blank
      ≡ some (length text + 1, write 0 (text ++ 0 ∷ []) blank))
    × PrintsAll pieces text
vsprintf_example = vsprintf-Prints pieces 9 100 m blank blank pieces-Spelled (omega arith)

snprintf_example :
    (text : List ℕ) × PrintsAll pieces text
    × Bounded text 5 blank (snprintf 9 5 100 (arguments pieces) m blank blank blank)
snprintf_example =
    snprintf-Truncated pieces 9 5 100 m blank blank blank pieces-Spelled (omega arith) (omega arith)

atoi_example :
    (start : ℕ) × (s' : Mem) × (itos 66 2026 49 10 (2 ^ 32 - 1) blank ≡ some (start, s'))
    × (atoi 66 start s' ≡ some 2026)
atoi_example = atoi-itos 66 2026 49 blank (omega arith) (omega arith) (omega arith)
