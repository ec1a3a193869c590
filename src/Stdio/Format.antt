-- ===== src/Stdio/Format.antt =====
-- `vsprintf` of abstract-machine/klib/src/stdio.c against the pieces of a format.
use nju_os_lab.Prelude.{
  ℕ, suc, ◌+◌, ◌%◌, ◌^◌, ◌<◌, ◌≡◌, ◌≢◌, ◌⊎◌, refl, ◌∙◌, true, false, some, List, [], ◌∷◌, ◌++◌,
  length, arith, ◌==◌, inl, inr, u64,
}
use nju_os_lab.Klib.{Mem}
use nju_os_lab.Klib.Text.{CString}
use nju_os_lab.Stdio.{Output, put, directive, takes_argument, directive_size, format_from}
use nju_os_lab.Stdio.Numbers.{
  write, appended, put_string-appended, Numeral, put_int-Numeral, put_pointer-Numeral,
}

-- A format, in pieces: bytes but `%`, and directives with their arguments. `%l` has one more byte.
pub data Piece : Type 0 where
  literal : (c : ℕ) → Piece
  char : (arg : ℕ) → Piece
  int : (kind arg : ℕ) → Piece
  long : (k arg : ℕ) → Piece
  string : (p : ℕ) → (cs : List ℕ) → Piece
  pointer : (arg : ℕ) → Piece
  unknown : (kind : ℕ) → Piece

-- How a piece is spelled, and what its directive takes.
abbrev pub spelling : Piece → List ℕ
spelling (literal c) = c ∷ []
spelling (char arg) = b'%' ∷ b'c' ∷ []
spelling (int kind arg) = b'%' ∷ kind ∷ []
spelling (long k arg) = b'%' ∷ b'l' ∷ k ∷ []
spelling (string p cs) = b'%' ∷ b's' ∷ []
spelling (pointer arg) = b'%' ∷ b'p' ∷ []
spelling (unknown kind) = b'%' ∷ kind ∷ []

abbrev pub argument : Piece → List ℕ
argument (literal c) = []
argument (char arg) = arg ∷ []
argument (int kind arg) = arg ∷ []
argument (long k arg) = arg ∷ []
argument (string p cs) = p ∷ []
argument (pointer arg) = arg ∷ []
argument (unknown kind) = []

-- A piece that a format can have, with its string in memory.
abbrev pub Possible : Mem → Piece → Type 0
Possible m (literal c) = c ≢ b'%'
Possible m (char arg) = Unit {0}
Possible m (int kind arg) = (kind ≡ b'd') ⊎ (kind ≡ b'u')
Possible m (long k arg) = Unit {0}
Possible m (string p cs) = CString m p cs
Possible m (pointer arg) = Unit {0}
Possible m (unknown kind) = takes_argument kind ≡ false

-- What a piece prints. An `int` is printed without a sign, as the number of its bit pattern.
abbrev pub Prints : Piece → List ℕ → Type 0
Prints (literal c) text = text ≡ c ∷ []
Prints (char arg) text = text ≡ arg % 2 ^ 8 ∷ []
Prints (int kind arg) text = Numeral 10 (arg % 2 ^ 32) 1 text
Prints (long k arg) text = Numeral 10 (arg % 2 ^ 32) 1 text
Prints (string p cs) text = text ≡ cs
Prints (pointer arg) text = (ds : List ℕ) × (text ≡ b'0' ∷ b'x' ∷ ds) × Numeral 16 (u64 arg) 8 ds
Prints (unknown kind) text = text ≡ b'?' ∷ []

-- The bytes stand at `c`, none of them 0.
abbrev pub Stands : Mem → ℕ → List ℕ → Type 0
Stands m c [] = Unit {0}
Stands m c (x ∷ xs) = (m c ≡ x) × (x ≢ 0) × Stands m (c + 1) xs

-- The format spells the pieces, and ends.
abbrev pub Spelled : Mem → ℕ → List Piece → Type 0
Spelled m c [] = m c ≡ 0
Spelled m c (p ∷ ps) =
    Possible m p × Stands m c (spelling p) × Spelled m (c + length (spelling p)) ps

abbrev pub arguments : List Piece → List ℕ
arguments [] = []
arguments (p ∷ ps) = argument p ++ arguments ps

abbrev pub PrintsAll : List Piece → List ℕ → Type 0
PrintsAll [] text = text ≡ []
PrintsAll (p ∷ ps) text =
    (first : List ℕ) × (rest : List ℕ) × (text ≡ first ++ rest) × Prints p first × PrintsAll ps rest

abbrev pub string_length : Piece → ℕ
string_length (literal c) = 0
string_length (char arg) = 0
string_length (int kind arg) = 0
string_length (long k arg) = 0
string_length (string p cs) = length cs
string_length (pointer arg) = 0
string_length (unknown kind) = 0

-- The rounds of the loops: one for each piece, and those of its string.
abbrev pub rounds : List Piece → ℕ
rounds [] = 0
rounds (p ∷ ps) = 1 + string_length p + rounds ps

-- What a piece does: it prints a text, and the loop goes on behind it.
abbrev pub Steps : (fuel c : ℕ) → (args : List ℕ) → (m s : Mem) → Output → Piece → Type 0
Steps fuel c args m s o p =
    (text : List ℕ) × Prints p text
    × (format_from (suc fuel) c (argument p ++ args) m s o
        ≡ format_from fuel (c + length (spelling p)) args m s (appended text o))

-- A directive that takes an argument.
directive-Steps :
    (fuel c kind arg : ℕ) (args text : List ℕ) (m s : Mem) (o : Output)
    → m c ≡ b'%'
    → m (c + 1) ≡ kind
    → takes_argument kind ≡ true
    → directive fuel kind arg m s o ≡ some (appended text o)
    → format_from (suc fuel) c (arg ∷ args) m s o
      ≡ format_from fuel (c + directive_size kind) args m s (appended text o)
unfolding format_from
directive-Steps fuel c kind arg args text m s o percent same takes e = rw (percent, same, takes, e)

literal-Steps :
    (fuel c x : ℕ) (args : List ℕ) (m s : Mem) (o : Output)
    → m c ≡ x
    → x ≢ 0
    → x ≢ b'%'
    → format_from (suc fuel) c args m s o ≡ format_from fuel (c + 1) args m s (put x o)
unfolding format_from
literal-Steps fuel c x args m s o e ne np =
    let more : (x == 0) ≡ false = ground arith in
    let plain : (x == b'%') ≡ false = ground arith in rw (e, more, plain)

unknown-Steps :
    (fuel c kind : ℕ) (args : List ℕ) (m s : Mem) (o : Output)
    → m c ≡ b'%'
    → m (c + 1) ≡ kind
    → takes_argument kind ≡ false
    → format_from (suc fuel) c args m s o ≡ format_from fuel (c + 2) args m s (put b'?' o)
unfolding format_from
unknown-Steps fuel c kind args m s o percent same other = rw (percent, same, other)

pub piece-Steps :
    (p : Piece) (fuel c : ℕ) (args : List ℕ) (m s : Mem) (o : Output)
    → Possible m p
    → Stands m c (spelling p)
    → string_length p < fuel
    → Steps fuel c args m s o p
unfolding write directive
piece-Steps (literal x) fuel c args m s o ok h enough =
    (x ∷ [], refl, literal-Steps fuel c x args m s o h.0 h.1 ok)
piece-Steps (char arg) fuel c args m s o ok h enough = (
  arg % 2 ^ 8 ∷ [],
  refl,
  directive-Steps fuel c b'c' arg args (arg % 2 ^ 8 ∷ []) m s o h.0 h.2.0 refl refl,
)
piece-Steps (int kind arg) fuel c args m s o (inl d) h enough =
    let (text, e, n) = put_int-Numeral arg s o in
    (text, n, directive-Steps fuel c b'd' arg args text m s o h.0 (h.2.0 ∙ d) refl e)
piece-Steps (int kind arg) fuel c args m s o (inr u) h enough =
    let (text, e, n) = put_int-Numeral arg s o in
    (text, n, directive-Steps fuel c b'u' arg args text m s o h.0 (h.2.0 ∙ u) refl e)
piece-Steps (long k arg) fuel c args m s o ok h enough =
    let (text, e, n) = put_int-Numeral arg s o in
    (text, n, directive-Steps fuel c b'l' arg args text m s o h.0 h.2.0 refl e)
piece-Steps (string p cs) fuel c args m s o ok h enough = (
  cs,
  refl,
  directive-Steps fuel c b's' p args cs m s o h.0 h.2.0 refl
      (put_string-appended fuel p cs m o ok enough),
)
piece-Steps (pointer arg) fuel c args m s o ok h enough =
    let (ds, e, n) = put_pointer-Numeral arg s o in
    (
      b'0' ∷ b'x' ∷ ds,
      (ds, refl, n),
      directive-Steps fuel c b'p' arg args (b'0' ∷ b'x' ∷ ds) m s o h.0 h.2.0 refl e,
    )
piece-Steps (unknown kind) fuel c args m s o ok h enough =
    (b'?' ∷ [], refl, unknown-Steps fuel c kind args m s o h.0 h.2.0 ok)
