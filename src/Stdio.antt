-- ===== src/Stdio.antt =====
-- abstract-machine/klib/src/stdio.c: numbers and formats; and `atoi` of abstract-machine/klib/src/stdlib.c.
-- The buffer that a call writes and the local buffer `s` are functions of the index, apart from the
-- memory with the format and the strings. Arguments are 64-bit numbers; an `int` is its bit pattern.
pub mod Digits
pub mod Atoi
pub mod Numbers
pub mod Format
pub mod Printing
pub mod Bounded
mod Tests
use nju_os_lab.Prelude.{
  ℕ, zero, suc, ◌+◌, ◌-◌, ◌*◌, ◌/◌, ◌%◌, ◌^◌, Bool, ◌&&◌, ◌||◌, not, Option, none, some, List, [],
  ◌∷◌, ltb, leb, ◌==◌, if◌then◌else◌, update, u64,
}
use nju_os_lab.Klib.{Mem}

-- `table` of `_itos`
abbrev pub table : ℕ → ℕ
table d = if ltb d 10 then b'0' + d else b'A' + (d - 10)

-- A negative `int`.
abbrev pub negative : ℕ → Bool
negative n = leb (2 ^ 31) n

-- The loop of `_itos`: where the number starts, and the buffer. `none` is an access in front of the
-- buffer, or more rounds than the fuel.
unfoldable pub itos_loop : (fuel val end base length : ℕ) → Mem → Option (ℕ × Mem)
itos_loop zero val end base length s = none
itos_loop (suc fuel) val end base length s =
    let rest =
      itos_loop fuel (val / base) (end - 1) base ((length + 2 ^ 32 - 1) % 2 ^ 32)
        (update s (end - 1) (table (val % base))) in
    if (val == 0) && ((length == 0) || negative length)
    then some (end, s)
    else if end == 0
    then none
    else rest

-- The prefix of a number in base 16.
unfoldable pub add_prefix : (base : ℕ) → ℕ × Mem → Option (ℕ × Mem)
add_prefix base (end, s) =
    if base == 16
    then (if leb 2 end
        then some (end - 2, update (update s (end - 1) b'x') (end - 2) b'0')
        else none)
    else some (end, s)

-- `Option` as a chain of steps
infixl 5 ◌>>=◌
abbrev pub ◌>>=◌ : {A B : Type 0} → Option A → (A → Option B) → Option B
none >>= f = none
some a >>= f = f a

-- `_itos`
unfoldable pub itos : (fuel val end base length : ℕ) → Mem → Option (ℕ × Mem)
itos fuel val end base length s =
    itos_loop fuel val end base length (update s end 0) >>= add_prefix base

-- The loop of `atoi` over the digits; an `int` that overflows wraps round.
unfoldable pub atoi_digits : (fuel p x : ℕ) → Mem → Option ℕ
atoi_digits zero p x m = none
atoi_digits (suc fuel) p x m =
    let rest = atoi_digits fuel (p + 1) ((x * 10 + m p + 2 ^ 32 - b'0') % 2 ^ 32) m in
    if leb b'0' (m p) && leb (m p) b'9' then rest else some x

-- The loop of `atoi` over blanks.
unfoldable pub skip_blanks : (fuel p : ℕ) → Mem → Option ℕ
skip_blanks zero p m = none
skip_blanks (suc fuel) p m =
    let rest = skip_blanks fuel (p + 1) m in if m p == b' ' then rest else some p

-- `atoi`, on as many rounds for the blanks as for the digits.
unfoldable pub atoi : (fuel nptr : ℕ) → Mem → Option ℕ
atoi fuel nptr m = do p ← skip_blanks fuel nptr m; atoi_digits fuel p 0 m

-- The buffer of a call, and the next place in it.
pub record Output : Type 0 where
  pub out : Mem
  pub next : ℕ

-- `out[next++] = c`, and the end of a chain of steps
abbrev pub put : (c : ℕ) → Output → Output
put c o = record { out = update o.out o.next c; next = o.next + 1 }

-- The loops that copy a string, on fuel.
unfoldable pub put_string : (fuel p : ℕ) → Mem → Output → Option Output
put_string zero p m o = none
put_string (suc fuel) p m o =
    let rest = put_string fuel (p + 1) m (put (m p) o) in if m p == 0 then some o else rest

-- The size of `s`, less one.
abbrev pub s_end : ℕ
s_end = 49

-- A number of `vsprintf`.
unfoldable pub put_itos : (val base length : ℕ) → Mem → Output → Option Output
put_itos val base length s o = do (ps, s') ← itos 66 val s_end base length s; put_string 50 ps s' o

-- `%d`, `%u` and `%l`: the number is an `unsigned int`, so that the sign is never taken.
unfoldable pub put_int : (arg : ℕ) → Mem → Output → Option Output
put_int arg s o =
    let i = arg % 2 ^ 32 in if i == 0 then some (put b'0' o) else put_itos i 10 (2 ^ 32 - 1) s o

-- The steps of a directive but for `c` itself: `kind` is the byte behind `%`.
unfoldable pub directive : (fuel kind arg : ℕ) → (m s : Mem) → Output → Option Output
directive fuel kind arg m s o =
    if kind == b'c'
    then some (put (arg % 2 ^ 8) o)
    else if (kind == b'l') || (kind == b'd') || (kind == b'u')
    then put_int arg s o
    else if kind == b's'
    then put_string fuel arg m o
    else put_itos (u64 arg) 16 8 s o

-- Whether a directive takes an argument.
abbrev pub takes_argument : ℕ → Bool
takes_argument kind =
    (kind == b'c')
    || (kind == b'l')
    || (kind == b'd')
    || (kind == b'u')
    || (kind == b's')
    || (kind == b'p')

-- `%l` is followed by one more byte, which is not looked at.
abbrev pub directive_size : ℕ → ℕ
directive_size kind = if kind == b'l' then 3 else 2

-- `va_arg`: `none` is a directive with no argument left.
abbrev pub next_argument : List ℕ → Option (ℕ × List ℕ)
next_argument [] = none
next_argument (arg ∷ args) = some (arg, args)

-- The loop of `vsprintf`.
unfoldable pub format_from : (fuel c : ℕ) → (args : List ℕ) → (m s : Mem) → Output → Option Output
format_from zero c args m s o = none
format_from (suc fuel) c args m s o =
    let kind = m (c + 1) in
    let literal = format_from fuel (c + 1) args m s (put (m c) o) in
    let unknown = format_from fuel (c + 2) args m s (put b'?' o) in
    let known = next_argument args >>= λ a.
    directive fuel kind a.0 m s o >>= format_from fuel (c + directive_size kind) a.1 m s in
    if m c == 0
    then some o
    else if not (m c == b'%')
    then literal
    else if takes_argument kind
    then known
    else unknown

-- `vsprintf`: what it returns, and the buffer.
unfoldable pub vsprintf : (fuel fmt : ℕ) → (args : List ℕ) → (m s out : Mem) → Option (ℕ × Mem)
vsprintf fuel fmt args m s out = do
  o ← format_from fuel fmt args m (update s s_end 0) (record { out = out; next = 0 })
  let o' = put 0 o
  some (o'.next, o'.out)

-- `sprintf`
unfoldable pub sprintf : (fuel fmt : ℕ) → (args : List ℕ) → (m s out : Mem) → Option (ℕ × Mem)
sprintf fuel fmt args m s out = vsprintf fuel fmt args m s out

-- `PBUF_MAX_SIZE`
abbrev pub pbuf_max_size : ℕ
pbuf_max_size = 1024

-- `strncpy` of `n` bytes from one buffer to the start of another, with the 0 that it writes behind them.
abbrev pub strncpy_to : (n : ℕ) → (from to : Mem) → Mem
strncpy_to n from to = update (λ i. if ltb i n then from i else to i) n 0

-- `snprintf`, through the buffer `pbuf`. `none` is also the failed assertion, and a write behind `pbuf`: the
-- last byte that `vsprintf` writes is the one at `ret - 1`.
unfoldable pub snprintf :
    (fuel n fmt : ℕ) → (args : List ℕ) → (m s pbuf out : Mem) → Option (ℕ × Mem)
snprintf fuel n fmt args m s pbuf out = do
  (ret, pbuf') ← vsprintf fuel fmt args m s pbuf
  let ret' = if ltb n ret then n else ret
  if leb ret pbuf_max_size && ltb ret' pbuf_max_size
      then some (ret', update (strncpy_to ret' pbuf' out) ret' 0)
      else none
