-- ===== src/Klib/Text.antt =====
-- The string functions of abstract-machine/klib/src/string.c on strings, as lists of bytes.
use mathlib.Core.Path.{subst}
use native.Mathlib.Decide.{dec_lt}
use nju_os_lab.Prelude.{
  ℕ, zero, suc, ◌+◌, ◌≤◌, ◌<◌, ◌≡◌, ◌≢◌, ◌⊎◌, inl, inr, sym, ap, ◌∙◌, true, false, List, [], ◌∷◌,
  ◌++◌, length, length-append, arith, ◌==◌, update,
}
use nju_os_lab.Common.{null}
use nju_os_lab.Klib.{Mem, returns, copy, length_from, strlen, strncpy, strcpy, strcat}
use nju_os_lab.Klib.Memory.{copy-inside, copy-other}

-- The bytes of the list stand at `s`, none of them 0, with a 0 behind them.
abbrev pub CString : Mem → ℕ → List ℕ → Type 0
CString m s [] = m s ≡ 0
CString m s (c ∷ cs) = (m s ≡ c) × (c ≢ 0) × CString m (s + 1) cs

length_from-CString :
    (f p len : ℕ) (cs : List ℕ) (m : Mem)
    → CString m p cs
    → length cs < f
    → length_from f p len m ≡ returns (len + length cs)
unfolding length_from
length_from-CString zero p len cs m h lt = absurd (omega arith)
length_from-CString (suc f) p len [] m h lt =
    let end : (m p == 0) ≡ true = ground arith in rw end (ap returns (omega arith))
length_from-CString (suc f) p len (c ∷ cs) m h lt =
    let more : (m p == 0) ≡ false = ground (arith, h) in
    rw more
      (length_from-CString f (p + 1) (len + 1) cs m h.2 (omega arith) ∙ ap returns (omega arith))

-- `strlen` of a string returns the number of its bytes; one round for each byte and one more are
-- enough.
pub strlen-length :
    (fuel s : ℕ) (cs : List ℕ) (m : Mem)
    → s ≢ null
    → CString m s cs
    → length cs < fuel
    → strlen fuel s m ≡ returns (length cs)
unfolding strlen
strlen-length fuel s cs m ne h lt =
    let there : (s == null) ≡ false = ground arith in
    rw there (length_from-CString fuel s 0 cs m h lt ∙ ap returns (omega arith))

-- The same bytes elsewhere are the same string.
CString-moved :
    (m m' : Mem) (s t : ℕ) (cs : List ℕ)
    → ((k : ℕ) → k ≤ length cs → m' (t + k) ≡ m (s + k))
    → CString m s cs
    → CString m' t cs
CString-moved m m' s t [] f h = ap m' (omega arith) ∙ f 0 (omega arith) ∙ ap m (omega arith) ∙ h
CString-moved m m' s t (c ∷ cs) f h = (
  ap m' (omega arith) ∙ f 0 (omega arith) ∙ ap m (omega arith) ∙ h.0,
  h.1,
  CString-moved m m' (s + 1) (t + 1) cs
      (λ k le. ap m' (omega arith) ∙ f (k + 1) (omega arith) ∙ ap m (omega arith)) h.2,
)

-- The 0 behind a string.
CString-end : (m : Mem) (s : ℕ) (cs : List ℕ) → CString m s cs → m (s + length cs) ≡ 0
CString-end m s [] h = ap m (omega arith) ∙ h
CString-end m s (c ∷ cs) h = ap m (omega arith) ∙ CString-end m (s + 1) cs h.2

-- What `strncpy` leaves when it is given the length of the string.
written : (dst src : ℕ) (cs : List ℕ) → Mem → Mem
written dst src cs m = update (copy (length cs) dst src m) (dst + length cs) 0

-- The regions of `n` and `k` bytes have no byte in common.
abbrev pub Apart : (p n q k : ℕ) → Type 0
Apart p n q k = (p + n ≤ q) ⊎ (q + k ≤ p)

-- The string stands at `dst`, and the memory outside of its bytes is as before.
pub record Copied (m : Mem) (dst : ℕ) (cs : List ℕ) (m' : Mem) : Type 0 where
  pub string : CString m' dst cs
  pub outside : (q : ℕ) → (q < dst) ⊎ (dst + length cs < q) → m' q ≡ m q

written-Copied :
    (dst src : ℕ) (cs : List ℕ) (m : Mem)
    → CString m src cs
    → Apart dst (length cs + 1) src (length cs + 1)
    → Copied m dst cs (written dst src cs m)
unfolding written
written-Copied dst src cs m h apart =
    let apart' : (dst ≤ src) ⊎ (src + length cs ≤ dst) = elim apart [
      | inl le ↦ inl (omega arith)
      | inr le ↦ inr (omega arith)
    ] in
    record {
      string =
          CString-moved m (update (copy (length cs) dst src m) (dst + length cs) 0) src dst cs
            (λ k le. elim (dec_lt k (length cs)) [
              | yes lt ↦
                  let other : (dst + length cs == dst + k) ≡ false = ground arith in
                  rw other (copy-inside (length cs) dst src m k apart' lt)
              | no ge ↦
                  let end : (dst + length cs == dst + k) ≡ true = ground arith in
                  rw end (sym (ap m (omega arith) ∙ CString-end m src cs h))
            ])
            h;
      outside = λ q out.
          let other : (dst + length cs == q) ≡ false = elim out [
            | inl lt ↦ ground arith
            | inr lt ↦ ground arith
          ] in
          let away : (q < dst) ⊎ (dst + length cs ≤ q) = elim out [
            | inl lt ↦ inl lt
            | inr lt ↦ inr (omega arith)
          ] in
          rw other (copy-other (length cs) dst src m q away);
    }

-- `strcpy` of a string to a place that does not overlap it returns: the string stands there, and the
-- rest of the memory is as before. One round for each byte and one more are enough.
pub strcpy-Copied :
    (fuel dst src : ℕ) (cs : List ℕ) (m : Mem)
    → dst ≢ null
    → src ≢ null
    → CString m src cs
    → length cs < fuel
    → Apart dst (length cs + 1) src (length cs + 1)
    → (m' : Mem) × (strcpy fuel dst src m ≡ returns (dst, m')) × Copied m dst cs m'
unfolding strcpy strncpy
strcpy-Copied fuel dst src cs m ne ne' h lt apart =
    let a : (dst == null) ≡ false = ground arith in
    let b : (src == null) ≡ false = ground arith in
    (
      update (copy (length cs) dst src m) (dst + length cs) 0,
      rw (a, b, strlen-length fuel src cs m ne' h lt),
      unfold written in written-Copied dst src cs m h apart,
    )

-- A string and another one behind it, in place of the end of the first.
CString-append :
    (m m' : Mem) (s : ℕ) (front back : List ℕ)
    → ((k : ℕ) → k < length front → m' (s + k) ≡ m (s + k))
    → CString m s front
    → CString m' (s + length front) back
    → CString m' s (front ++ back)
CString-append m m' s [] back f h g = subst (λ k. CString m' k back) (omega arith) g
CString-append m m' s (c ∷ front) back f h g = (
  ap m' (omega arith) ∙ f 0 (omega arith) ∙ ap m (omega arith) ∙ h.0,
  h.1,
  CString-append m m' (s + 1) front back
      (λ k lt. ap m' (omega arith) ∙ f (k + 1) (omega arith) ∙ ap m (omega arith)) h.2
      (subst (λ k. CString m' k back) (omega arith) g),
)

-- `strcat` returns: behind the string at `dst` stands the string at `src`, which does not overlap the
-- place of the result, and the memory outside of the result is as before.
pub strcat-append :
    (fuel dst src : ℕ) (front back : List ℕ) (m : Mem)
    → dst ≢ null
    → src ≢ null
    → CString m dst front
    → CString m src back
    → length front < fuel
    → length back < fuel
    → Apart dst (length front + length back + 1) src (length back + 1)
    → (m' : Mem) × (strcat fuel dst src m ≡ returns (dst, m')) × Copied m dst (front ++ back) m'
unfolding strcat
strcat-append fuel dst src front back m ne ne' h g lt lt' apart =
    let a : (dst == null) ≡ false = ground arith in
    let b : (src == null) ≡ false = ground arith in
    let size = length-append front back in
    let apart' : Apart (dst + length front) (length back + 1) src (length back + 1) = elim apart [
      | inl le ↦ inl (omega arith)
      | inr le ↦ inr (omega arith)
    ] in
    let (m', copied, done) =
      strcpy-Copied fuel (dst + length front) src back m (omega arith) ne' g lt' apart' in
    (
      m',
      rw (a, b, strlen-length fuel dst front m ne h lt, copied),
      record {
        string =
            CString-append m m' dst front back (λ k le. done.outside (dst + k) (inl (omega arith)))
              h done.string;
        outside = λ q out.
            done.outside q
              (elim out [ inl le ↦ inl (omega arith) | inr le ↦ inr (omega (arith, size)) ]);
      },
    )
