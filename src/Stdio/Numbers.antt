-- ===== src/Stdio/Numbers.antt =====
-- What one directive of `vsprintf` (abstract-machine/klib/src/stdio.c) writes.
use mathlib.Core.List.{append-nil}
use mathlib.Core.Path.{subst}
use nju_os_lab.Prelude.{
  ℕ, zero, suc, ◌+◌, ◌-◌, ◌*◌, ◌%◌, ◌^◌, ◌≤◌, ◌<◌, ◌≡◌, ◌≢◌, ◌⊎◌, refl, ap, ◌∙◌, true, false, some,
  List, [], ◌∷◌, ◌++◌, map, length, length-map, All, arith, leb, ◌==◌, Bool-cases, inl, inr, update,
  u64,
}
use nju_os_lab.Klib.{Mem}
use nju_os_lab.Klib.Text.{CString}
use nju_os_lab.Stdio.{table, itos, add_prefix, s_end, Output, put, put_string, put_itos, put_int}
use nju_os_lab.Stdio.Digits.{number_from, CString-put, itos_loop-Digits}

-- The bytes of the list stand in the buffer from `i` on.
unfoldable pub write : (i : ℕ) → List ℕ → Mem → Mem
write i [] out = out
write i (c ∷ cs) out = write (i + 1) cs (update out i c)

-- The buffer with the bytes of the list behind the others.
abbrev pub appended : List ℕ → Output → Output
appended cs o = record { out = write o.next cs o.out; next = o.next + length cs }

pub write-append :
    (i : ℕ) (cs ds : List ℕ) (out : Mem)
    → write i (cs ++ ds) out ≡ write (i + length cs) ds (write i cs out)
unfolding write
write-append i [] ds out = ap (λ k. write k ds out) (omega arith)
write-append i (c ∷ cs) ds out =
    write-append (i + 1) cs ds (update out i c)
    ∙ ap (λ k. write k ds (write (i + 1) cs (update out i c))) (omega arith)

pub put_string-appended :
    (fuel p : ℕ) (cs : List ℕ) (m : Mem) (o : Output)
    → CString m p cs
    → length cs < fuel
    → put_string fuel p m o ≡ some (appended cs o)
unfolding put_string write
put_string-appended zero p cs m o h enough = absurd (omega arith)
put_string-appended (suc fuel) p [] m o h enough =
    let end : (m p == 0) ≡ true = ground arith in
    let same : o.next + 0 ≡ o.next = omega arith in rw (end, same)
put_string-appended (suc fuel) p (c ∷ cs) m o h enough =
    let more : (m p == 0) ≡ false = ground (arith, h.0, h.1) in
    let next : o.next + suc (length cs) ≡ o.next + 1 + length cs = omega arith in
    rw (more, h.0, next) (put_string-appended fuel (p + 1) cs m (put c o) h.2 (omega arith))

-- The text is that of the number, in `pad` digits, or in more of which the first is not 0.
pub record Numeral (base val pad : ℕ) (text : List ℕ) : Type 0 where
  pub digits : List ℕ
  pub written : text ≡ map table digits
  pub value : number_from base 0 digits ≡ val
  pub small : All (λ d. d < base) digits
  pub padded : pad ≤ length digits
  pub lean : (length digits ≤ pad) ⊎ (base ^ length digits ≤ val * base)

some_digit : (ds : List ℕ) → number_from 10 0 ds ≢ 0 → 1 ≤ length ds
unfolding number_from
some_digit [] ne = absurd (ne refl)
some_digit (d ∷ ds) ne = omega arith

lean_one :
    (ds : List ℕ) (val : ℕ)
    → (length ds ≤ 0) ⊎ (10 ^ length ds ≤ val * 10)
    → (length ds ≤ 1) ⊎ (10 ^ length ds ≤ val * 10)
lean_one ds val (inl l) = inl (omega arith)
lean_one ds val (inr g) = inr g

pub put_int-Numeral :
    (arg : ℕ) (s : Mem) (o : Output)
    → (text : List ℕ) × (put_int arg s o ≡ some (appended text o))
      × Numeral 10 (arg % 2 ^ 32) 1 text
unfolding put_int put_itos itos add_prefix number_from write
put_int-Numeral arg s o = elim (Bool-cases (arg % 2 ^ 32 == 0)) [
  | inl zero_ ↦ (
    b'0' ∷ [],
    rw zero_,
    record {
      digits = 0 ∷ [];
      written = refl;
      value = ground arith;
      small = (omega arith, tt);
      padded = omega arith;
      lean = inl (omega arith);
    },
  )
  | inr some_ ↦
      let (start, s', ds, e, d) =
        itos_loop-Digits 10 66 (arg % 2 ^ 32) s_end 10 (2 ^ 32 - 1) 0 (update s s_end 0) []
          (omega arith) (omega arith) (omega arith) (omega arith) (omega arith) (omega arith)
          (inr (omega arith)) refl in
      let text : CString s' start (map table ds) = rw (append-nil (map table ds)) at d.text in
      (
        map table ds,
        rw (some_, e)
            (put_string-appended 50 start (map table ds) s' o text
              (omega (arith, length-map ds table, d.short))),
        record {
          digits = ds;
          written = refl;
          value = d.value;
          small = d.small;
          padded = some_digit ds (ground (arith, d.value));
          lean = lean_one ds (arg % 2 ^ 32) d.lean;
        },
      )
]

prefix-CString :
    (s : Mem) (start : ℕ) (cs : List ℕ)
    → 2 ≤ start
    → CString s start cs
    → CString (update (update s (start - 1) b'x') (start - 2) b'0') (start - 2) (b'0' ∷ b'x' ∷ cs)
prefix-CString s start cs room h =
    let two : start - 1 - 1 ≡ start - 2 = omega arith in
    subst (λ k. CString (update (update s (start - 1) b'x') k b'0') k (b'0' ∷ b'x' ∷ cs)) two
      (CString-put (update s (start - 1) b'x') (start - 1) b'0' (b'x' ∷ cs) (omega arith)
        (omega arith) (CString-put s start b'x' cs (omega arith) (omega arith) h))

-- `%p`: eight hexadecimal digits or more behind 0x.
pub put_pointer-Numeral :
    (arg : ℕ) (s : Mem) (o : Output)
    → (text : List ℕ) × (put_itos (u64 arg) 16 8 s o ≡ some (appended (b'0' ∷ b'x' ∷ text) o))
      × Numeral 16 (u64 arg) 8 text
unfolding put_itos itos add_prefix
put_pointer-Numeral arg s o =
    let (start, s', ds, e, d) =
      itos_loop-Digits 16 66 (u64 arg) s_end 16 8 8 (update s s_end 0) [] (omega arith)
        (omega arith) (omega arith) (omega arith) (omega arith) (omega arith) (inl refl) refl in
    let text : CString s' start (map table ds) = rw (append-nil (map table ds)) at d.text in
    let room : leb 2 start ≡ true = ground (arith, d.begin, d.short) in
    (
      map table ds,
      rw (e, room)
          (put_string-appended 50 (start - 2) (b'0' ∷ b'x' ∷ map table ds)
            (update (update s' (start - 1) b'x') (start - 2) b'0') o
            (prefix-CString s' start (map table ds) (omega (arith, d.begin, d.short)) text)
            (omega (arith, length-map ds table, d.short))),
      record {
        digits = ds;
        written = refl;
        value = d.value;
        small = d.small;
        padded = d.padded;
        lean = d.lean;
      },
    )
