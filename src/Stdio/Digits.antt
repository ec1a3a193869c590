-- ===== src/Stdio/Digits.antt =====
-- `_itos` of abstract-machine/klib/src/stdio.c writes the digits of a number, and `atoi` of
-- abstract-machine/klib/src/stdlib.c reads them.
use native.Mathlib.Nat.{
  div-add-mod', mod-lt, div-lt_iff_lt-mul, pow-zero, pow-suc, mul-le-mul_right,
}
use mathlib.Core.List.{append_assoc, map-append}
use nju_os_lab.Prelude.{
  ℕ, zero, suc, ◌+◌, ◌-◌, ◌*◌, ◌/◌, ◌%◌, ◌^◌, ◌≤◌, ◌<◌, ◌≡◌, ◌≢◌, ◌⊎◌, refl, ap, ◌∙◌, true, false,
  ◌&&◌, ◌||◌, Option, some, List, [], ◌∷◌, ◌++◌, map, length, length-append, All, All-append, arith,
  ◌==◌, Bool-cases, inl, inr, update,
}
use nju_os_lab.Klib.{Mem}
use nju_os_lab.Klib.Text.{CString}
use nju_os_lab.Stdio.{table, negative, itos_loop}

-- The number of a list of digits, from the highest one on, behind the digits of `acc`.
unfoldable pub number_from : (base acc : ℕ) → List ℕ → ℕ
number_from base acc [] = acc
number_from base acc (d ∷ ds) = number_from base (acc * base + d) ds

pub number_from-append :
    (base acc d : ℕ) (ds : List ℕ)
    → number_from base acc (ds ++ d ∷ []) ≡ number_from base acc ds * base + d
unfolding number_from
number_from-append base acc d [] = refl
number_from-append base acc d (x ∷ xs) = number_from-append base (acc * base + x) d xs

CString-keep :
    (s : Mem) (p q c : ℕ) (cs : List ℕ) → p < q → CString s q cs → CString (update s p c) q cs
CString-keep s p q c [] lt h = ground arith
CString-keep s p q c (x ∷ xs) lt h =
    (ground arith, h.1, CString-keep s p (q + 1) c xs (omega arith) h.2)

pub CString-put :
    (s : Mem) (end c : ℕ) (cs : List ℕ)
    → c ≢ 0
    → 0 < end
    → CString s end cs
    → CString (update s (end - 1) c) (end - 1) (c ∷ cs)
CString-put s end c cs ne pos h =
    let at : end - 1 + 1 ≡ end = omega arith in
    (ground arith, ne, rw at (CString-keep s (end - 1) end c cs (omega arith) h))

-- The digits of `val`, at least `pad` and at most `most` of them, stand in front of the bytes `cs`, which
-- were at `end`, and the text of all of them begins at `start`.
pub record Digits (base val pad most end : ℕ) (cs : List ℕ) (start : ℕ) (s : Mem) (ds : List ℕ)
    : Type 0 where
  pub text : CString s start (map table ds ++ cs)
  pub begin : start + length ds ≡ end
  pub value : number_from base 0 ds ≡ val
  pub small : All (λ d. d < base) ds
  pub padded : pad ≤ length ds
  pub short : length ds ≤ most
  pub lean : (length ds ≤ pad) ⊎ (base ^ length ds ≤ val * base)

-- The counter `length`: as many digits are still wanted, or it is negative.
abbrev pub Wanted : (len pad rounds : ℕ) → Type 0
Wanted len pad rounds = (len ≡ pad) ⊎ ((2 ^ 31 + rounds ≤ len) × (len < 2 ^ 32) × (pad ≡ 0))

Wanted-next :
    (len pad rounds : ℕ)
    → rounds < 2 ^ 30
    → pad < 2 ^ 30
    → Wanted len pad (suc rounds)
    → Wanted ((len + 2 ^ 32 - 1) % 2 ^ 32) (pad - 1) rounds
Wanted-next len zero rounds few small (inl e) = inr (omega arith)
Wanted-next len (suc pad) rounds few small (inl e) = inl (omega arith)
Wanted-next len pad rounds few small (inr w) = inr (omega (arith, w))

-- The loop stops with nothing wanted.
Wanted-stop :
    (len pad rounds : ℕ)
    → pad < 2 ^ 30
    → Wanted len pad rounds
    → ((len == 0) || negative len) ≡ true
    → pad ≡ 0
Wanted-stop len pad rounds small (inl e) stop = ground arith
Wanted-stop len pad rounds small (inr w) stop = w.2

Wanted-go :
    (len pad rounds : ℕ) → pad ≡ 0 → Wanted len pad rounds → ((len == 0) || negative len) ≡ true
Wanted-go len pad rounds zero_ (inl e) = ground arith
Wanted-go len pad rounds zero_ (inr w) = ground (arith, w)

Digits-none :
    (base pad most end : ℕ) (cs : List ℕ) (s : Mem)
    → pad ≡ 0
    → CString s end cs
    → Digits base 0 pad most end cs end s []
unfolding number_from
Digits-none base pad most end cs s zero_ h = record {
  text = h;
  begin = omega arith;
  value = refl;
  small = tt;
  padded = omega arith;
  short = omega arith;
  lean = inl (omega arith);
}

-- No digit in front of the others is 0, but for the least length.
lean-step :
    (base val pad n : ℕ)
    → (0 < val) ⊎ (0 < pad)
    → (n ≤ pad - 1) ⊎ (base ^ n ≤ val / base * base)
    → (n + 1 ≤ pad) ⊎ (base ^ (n + 1) ≤ val * base)
lean-step base val zero zero (inl v) (inl e) = inr (grind (arith, pow-suc base 0, pow-zero base))
lean-step base val zero zero (inr p) (inl e) = absurd (omega arith)
lean-step base val zero (suc n) go (inl e) = absurd (omega arith)
lean-step base val (suc pad) n go (inl e) = inl (omega arith)
lean-step base val pad n go (inr e) =
    let up : n + 1 ≡ suc n = omega arith in
    let below : base ^ n ≤ val = omega (arith, div-add-mod' val base) in
    inr (rw (up, pow-suc base n) (mul-le-mul_right base below))

-- The lowest digit, and the digits before it.
Digits-step :
    (base val pad most end start : ℕ) (cs : List ℕ) (s : Mem) (ds : List ℕ)
    → 0 < base
    → 0 < end
    → (0 < val) ⊎ (0 < pad)
    → Digits base (val / base) (pad - 1) most (end - 1) (table (val % base) ∷ cs) start s ds
    → Digits base val pad (suc most) end cs start s (ds ++ val % base ∷ [])
unfolding number_from
Digits-step base val pad most end start cs s ds pos room go d =
    let more : length (ds ++ val % base ∷ []) ≡ length ds + 1 =
      length-append ds (val % base ∷ []) in
    let split : map table (ds ++ val % base ∷ []) ++ cs ≡ map table ds ++ table (val % base) ∷ cs =
      rw (map-append table ds (val % base ∷ []))
        (append_assoc (map table ds) (table (val % base) ∷ []) cs) in
    record {
      text = rw split d.text;
      begin = omega (arith, more, d.begin);
      value =
          number_from-append base 0 (val % base) ds
          ∙ ap (λ n. n * base + val % base) d.value
          ∙ div-add-mod' val base;
      small = All-append (λ d. d < base) ds (val % base ∷ []) d.small (mod-lt val pos, tt);
      padded = omega (arith, more, d.padded);
      short = omega (arith, more, d.short);
      lean = rw more (lean-step base val pad (length ds) go d.lean);
    }

goes :
    (val len pad rounds : ℕ)
    → Wanted len pad rounds
    → ((val == 0) && ((len == 0) || negative len)) ≡ false
    → (0 < val) ⊎ (0 < pad)
goes zero len zero rounds w go = cc (Wanted-go len 0 rounds refl w)
goes zero len (suc pad) rounds w go = inr (omega arith)
goes (suc val) len pad rounds w go = inl (omega arith)

itos_loop-step :
    (fuel val end base len : ℕ) (s : Mem) (r : Option (ℕ × Mem))
    → ((val == 0) && ((len == 0) || negative len)) ≡ false
    → (end == 0) ≡ false
    → itos_loop fuel
        (val / base)
        (end - 1)
        base
        ((len + 2 ^ 32 - 1) % 2 ^ 32)
        (update s (end - 1) (table (val % base)))
      ≡ r
    → itos_loop (suc fuel) val end base len s ≡ r
unfolding itos_loop
itos_loop-step fuel val end base len s r go room e = rw (go, room) e

pub itos_loop-Digits :
    (most fuel val end base len pad : ℕ) (s : Mem) (cs : List ℕ)
    → 2 ≤ base
    → val < base ^ most
    → pad ≤ most
    → most < 2 ^ 30
    → most < fuel
    → most ≤ end
    → Wanted len pad most
    → CString s end cs
    → (start : ℕ) × (s' : Mem) × (ds : List ℕ) × (itos_loop fuel val end base len s
        ≡ some (start, s'))
      × Digits base val pad most end cs start s' ds
unfolding itos_loop
itos_loop-Digits most zero val end base len pad s cs b2 vlt ple small enough room w h =
    absurd (omega arith)
itos_loop-Digits zero (suc fuel) val end base len pad s cs b2 vlt ple small enough room w h =
    let zero_ : val ≡ 0 = omega (arith, pow-zero base) in
    let none_ : pad ≡ 0 = omega arith in
    (
      end,
      s,
      [],
      rw (zero_, Wanted-go len pad 0 none_ w),
      rw zero_ (Digits-none base pad 0 end cs s none_ h),
    )
itos_loop-Digits (suc most) (suc fuel) val end base len pad s cs b2 vlt ple small enough room w h =
    elim (Bool-cases ((val == 0) && ((len == 0) || negative len))) [
      | inl stop ↦
          let zero_ : val ≡ 0 = ground arith in
          let none_ : pad ≡ 0 = Wanted-stop len pad (suc most) (omega arith) w (ground arith) in
          (end, s, [], rw stop, rw zero_ (Digits-none base pad (suc most) end cs s none_ h))
      | inr go ↦
          let place : (end == 0) ≡ false = ground arith in
          let rest =
            itos_loop-Digits most fuel (val / base) (end - 1) base ((len + 2 ^ 32 - 1) % 2 ^ 32)
              (pad - 1) (update s (end - 1) (table (val % base))) (table (val % base) ∷ cs) b2
              ((div-lt_iff_lt-mul (omega arith)).1 (omega (arith, pow-suc base most))) (omega arith)
              (omega arith) (omega arith) (omega arith)
              (Wanted-next len pad most (omega arith) (omega arith) w)
              (CString-put s end (table (val % base)) cs (ground arith) (omega arith) h) in
          let (start, s', ds, e, d) = rest in
          (
            start,
            s',
            ds ++ val % base ∷ [],
            itos_loop-step fuel val end base len s (some (start, s')) go place e,
            Digits-step base val pad most end start cs s' ds (omega arith) (omega arith)
                (goes val len pad (suc most) w go) d,
          )
    ]
