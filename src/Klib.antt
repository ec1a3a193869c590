-- ===== src/Klib.antt =====
-- abstract-machine/klib/src/string.c: the string functions of the C library that the kernel runs on.
-- Memory is a function from addresses to bytes, as numbers below 256; pointers do not wrap round. The
-- functions that only panic (`strtok`, `strstr`, `strchr`, `strrchr`) are left out.
pub mod Memory
pub mod Text
pub mod Compare
mod Tests
use nju_os_lab.Prelude.{ℕ, zero, suc, ◌+◌, ◌-◌, ◌%◌, ◌^◌, ◌||◌, ltb, ◌==◌, if◌then◌else◌, update}
use nju_os_lab.Common.{null}

abbrev pub Mem : Type 0
Mem = ℕ → ℕ

-- How a call ends. `out_of_fuel` is of the model: a string without an end.
pub data Run (A : Type 0) : Type 0 where
  returns : A → Run A
  assertion : Run A
  out_of_fuel : Run A

-- `int` differences of `char`, as bit patterns: `char` is signed.
abbrev pub sign_extend : ℕ → ℕ
sign_extend c = if ltb c 128 then c else c + 2 ^ 32 - 256

abbrev pub difference : ℕ → ℕ → ℕ
difference a b = (sign_extend a + 2 ^ 32 - sign_extend b) % 2 ^ 32

-- The loop of `memset`.
unfoldable pub fill : (n p c : ℕ) → Mem → Mem
fill zero p c m = m
fill (suc n) p c m = fill n (p + 1) c (update m p c)

-- `memset`
unfoldable pub memset : (s c n : ℕ) → Mem → Run (ℕ × Mem)
memset s c n m = if s == null then assertion else returns (s, fill n s (c % 256) m)

-- The loop of `memcpy` and of `strncpy`: upwards, byte by byte.
unfoldable pub copy : (n dst src : ℕ) → Mem → Mem
copy zero dst src m = m
copy (suc n) dst src m = copy n (dst + 1) (src + 1) (update m dst (m src))

-- `memcpy`
unfoldable pub memcpy : (out src n : ℕ) → Mem → Run (ℕ × Mem)
memcpy out src n m =
    if (out == null) || (src == null) then assertion else returns (out, copy n out src m)

-- The first `i` of the upper loop of `memmove`, `(int) (n - 1)`.
abbrev pub last_index : ℕ → ℕ
last_index n = (n + 2 ^ 64 - 1) % 2 ^ 32

-- The rounds of the upper loop of `memmove`: it counts up from `n - 1` while `i >= 0`, up to the
-- largest `int`, and then wraps round to a negative number, as the machine adds; C leaves open what
-- that last step does.
unfoldable pub rounds_up : ℕ → ℕ
rounds_up n = if ltb (last_index n) (2 ^ 31) then 2 ^ 31 - last_index n else 0

-- `memmove`, for `n` up to the largest `int`: the lower loop compares an `int` with `n`.
unfoldable pub memmove : (dst src n : ℕ) → Mem → Run (ℕ × Mem)
memmove dst src n m =
    if (dst == null) || (src == null)
    then assertion
    else if ltb src dst
    then returns (dst, copy (rounds_up n) (dst + last_index n) (src + last_index n) m)
    else returns (dst, copy n dst src m)

-- The loop of `memcmp` and of `strncmp`.
unfoldable pub compare_bytes : (n s1 s2 : ℕ) → Mem → ℕ
compare_bytes zero s1 s2 m = 0
compare_bytes (suc n) s1 s2 m =
    let rest = compare_bytes n (s1 + 1) (s2 + 1) m in
    if m s1 == m s2 then rest else difference (m s1) (m s2)

-- `memcmp`
unfoldable pub memcmp : (s1 s2 n : ℕ) → Mem → Run ℕ
memcmp s1 s2 n m =
    if (s1 == null) || (s2 == null) then assertion else returns (compare_bytes n s1 s2 m)

-- The loop of `strlen`, on fuel.
unfoldable pub length_from : (fuel p len : ℕ) → Mem → Run ℕ
length_from zero p len m = out_of_fuel
length_from (suc f) p len m =
    let rest = length_from f (p + 1) (len + 1) m in if m p == 0 then returns len else rest

-- `strlen`
unfoldable pub strlen : (fuel s : ℕ) → Mem → Run ℕ
strlen fuel s m = if s == null then assertion else length_from fuel s 0 m

-- A call that needs the length of a string first.
infixl 5 ◌>>=◌
abbrev pub ◌>>=◌ : {A B : Type 0} → Run A → (A → Run B) → Run B
returns a >>= f = f a
assertion >>= f = assertion
out_of_fuel >>= f = out_of_fuel

-- `strncpy`
unfoldable pub strncpy : (dst src n : ℕ) → Mem → Run (ℕ × Mem)
strncpy dst src n m =
    if (dst == null) || (src == null)
    then assertion
    else returns (dst, update (copy n dst src m) (dst + n) 0)

-- `strcpy`
unfoldable pub strcpy : (fuel dst src : ℕ) → Mem → Run (ℕ × Mem)
strcpy fuel dst src m =
    if (dst == null) || (src == null)
    then assertion
    else (do n ← strlen fuel src m; strncpy dst src n m)

-- `strcat`
unfoldable pub strcat : (fuel dst src : ℕ) → Mem → Run (ℕ × Mem)
strcat fuel dst src m =
    if (dst == null) || (src == null)
    then assertion
    else (do n ← strlen fuel dst m; (end, m') ← strcpy fuel (dst + n) src m; returns (dst, m'))

-- `strncmp`
unfoldable pub strncmp : (s1 s2 n : ℕ) → Mem → Run ℕ
strncmp s1 s2 n m =
    if (s1 == null) || (s2 == null) then assertion else returns (compare_bytes n s1 s2 m)

-- `strcmp`
unfoldable pub strcmp : (fuel s1 s2 : ℕ) → Mem → Run ℕ
strcmp fuel s1 s2 m = if (s1 == null) || (s2 == null) then assertion else (do
  len1 ← strlen fuel s1 m
  len2 ← strlen fuel s2 m
  strncmp s1 s2 ((if ltb len1 len2 then len1 else len2) + 1) m)
