-- ===== src/Klib/Compare.antt =====
-- The comparisons of abstract-machine/klib/src/string.c on strings, as lists of bytes.
use nju_os_lab.Prelude.{
  ℕ, suc, ◌+◌, ◌<◌, ◌≡◌, ◌≢◌, ◌↔◌, inl, inr, refl, sym, ap, ◌∙◌, true, false, List, [], ◌∷◌, length,
  All, arith, ltb, ◌==◌, Bool-cases, if◌then◌else◌,
}
use nju_os_lab.Common.{null}
use nju_os_lab.Klib.{Mem, returns, difference, compare_bytes, strncmp, strcmp}
use nju_os_lab.Klib.Text.{CString, strlen-length}

-- The comparison of two lists of bytes: the difference of the first two bytes that differ, where a
-- list that ends counts as a 0.
pub compare_strings : List ℕ → List ℕ → ℕ
compare_strings [] [] = 0
compare_strings [] (d ∷ ds) = difference 0 d
compare_strings (c ∷ cs) [] = difference c 0
compare_strings (c ∷ cs) (d ∷ ds) = if c == d then compare_strings cs ds else difference c d

-- The bytes up to the end of the shorter string, and the one behind it.
shorter : List ℕ → List ℕ → ℕ
shorter [] ds = suc 0
shorter (c ∷ cs) [] = suc 0
shorter (c ∷ cs) (d ∷ ds) = suc (shorter cs ds)

shorter_lem :
    (cs ds : List ℕ)
    → (if ltb (length cs) (length ds) then length cs else length ds) + 1 ≡ shorter cs ds
unfolding shorter
shorter_lem [] [] = refl
shorter_lem [] (d ∷ ds) = ground arith
shorter_lem (c ∷ cs) [] = ground arith
shorter_lem (c ∷ cs) (d ∷ ds) = ground (arith, shorter_lem cs ds)

compare_bytes-CString :
    (s1 s2 : ℕ) (cs ds : List ℕ) (m : Mem)
    → CString m s1 cs
    → CString m s2 ds
    → compare_bytes (shorter cs ds) s1 s2 m ≡ compare_strings cs ds
unfolding compare_bytes compare_strings shorter
compare_bytes-CString s1 s2 [] [] m h g = ground arith
compare_bytes-CString s1 s2 [] (d ∷ ds) m h g =
    let differ : (m s1 == m s2) ≡ false = ground (arith, g) in rw (differ, h, g.0)
compare_bytes-CString s1 s2 (c ∷ cs) [] m h g =
    let differ : (m s1 == m s2) ≡ false = ground (arith, h) in rw (differ, g, h.0)
compare_bytes-CString s1 s2 (c ∷ cs) (d ∷ ds) m h g =
    rw (h.0, g.0)
      (ap (λ k. if c == d then k else difference c d)
        (compare_bytes-CString (s1 + 1) (s2 + 1) cs ds m h.2 g.2))

-- Bytes differ by 0 only from themselves.
difference-zero : (c d : ℕ) → c < 256 → d < 256 → difference c d ≡ 0 → c ≡ d
difference-zero c d lt lt' h = ground arith

abbrev pub Bytes : List ℕ → Type 0
Bytes = All (λ c. (c < 256) × (c ≢ 0))

pub compare_strings-zero :
    (cs ds : List ℕ) → Bytes cs → Bytes ds → compare_strings cs ds ≡ 0 → cs ≡ ds
unfolding compare_strings
compare_strings-zero [] [] b b' h = refl
compare_strings-zero [] (d ∷ ds) b b' h =
    absurd (b'.0.1 (sym (difference-zero 0 d (omega arith) b'.0.0 h)))
compare_strings-zero (c ∷ cs) [] b b' h = absurd (b.0.1 (difference-zero c 0 b.0.0 (omega arith) h))
compare_strings-zero (c ∷ cs) (d ∷ ds) b b' h = elim (Bool-cases (c == d)) [
  | inl same ↦
      let tails = compare_strings-zero cs ds b.1 b'.1 (rw same at h) in
      let heads : c ≡ d = ground arith in rw (heads, tails)
  | inr differ ↦ let e = difference-zero c d b.0.0 b'.0.0 (rw differ at h) in absurd (ground arith)
]

compare_strings_self : (cs : List ℕ) → compare_strings cs cs ≡ 0
unfolding compare_strings
compare_strings_self [] = refl
compare_strings_self (c ∷ cs) =
    let same : (c == c) ≡ true = ground arith in rw same (compare_strings_self cs)

-- `strcmp` of two strings returns the difference of the first two bytes that differ, as signed
-- numbers, where the end of a string counts as 0; the result is 0 exactly for equal strings.
pub strcmp-compare_strings :
    (fuel s1 s2 : ℕ) (cs ds : List ℕ) (m : Mem)
    → s1 ≢ null
    → s2 ≢ null
    → CString m s1 cs
    → CString m s2 ds
    → Bytes cs
    → Bytes ds
    → length cs < fuel
    → length ds < fuel
    → (strcmp fuel s1 s2 m ≡ returns (compare_strings cs ds))
      × ((compare_strings cs ds ≡ 0) ↔ (cs ≡ ds))
unfolding strcmp strncmp
strcmp-compare_strings fuel s1 s2 cs ds m ne ne' h g b b' lt lt' =
    let x : (s1 == null) ≡ false = ground arith in
    let y : (s2 == null) ≡ false = ground arith in
    (
      rw (x, y, strlen-length fuel s1 cs m ne h lt, strlen-length fuel s2 ds m ne' g lt')
          (ap (λ k. returns (compare_bytes k s1 s2 m)) (shorter_lem cs ds)
            ∙ ap returns (compare_bytes-CString s1 s2 cs ds m h g)),
      (compare_strings-zero cs ds b b', λ e. rw (← e) (compare_strings_self cs)),
    )
