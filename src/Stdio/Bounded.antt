-- ===== src/Stdio/Bounded.antt =====
-- `snprintf` of abstract-machine/klib/src/stdio.c: what it writes, and how far.
use nju_os_lab.Prelude.{
  ℕ, zero, suc, ◌+◌, ◌<◌, ◌≤◌, ◌≡◌, refl, ap, ◌∙◌, true, Option, none, some, inl, inr, Bool-cases,
  leb, List, [], ◌∷◌, ◌++◌, length, get_or, arith, ltb, if◌then◌else◌, update, min,
}
use nju_os_lab.Klib.{Mem}
use nju_os_lab.Stdio.{snprintf, strncpy_to, pbuf_max_size}
use nju_os_lab.Stdio.Numbers.{write}
use nju_os_lab.Stdio.Format.{Piece, Spelled, arguments, PrintsAll, rounds}
use nju_os_lab.Stdio.Printing.{vsprintf-Prints}

write-before : (k : ℕ) (cs : List ℕ) (out : Mem) (i : ℕ) → i < k → write k cs out i ≡ out i
unfolding write
write-before k [] out i lt = refl
write-before k (c ∷ cs) out i lt =
    write-before (k + 1) cs (update out k c) i (omega arith) ∙ ground arith

write-inside :
    (k : ℕ) (cs ds : List ℕ) (out : Mem) (i : ℕ)
    → i < length cs
    → write k (cs ++ ds) out (k + i) ≡ get_or cs i 0
unfolding write
write-inside k [] ds out i lt = absurd (omega arith)
write-inside k (c ∷ cs) ds out zero lt =
    ap (write (k + 1) (cs ++ ds) (update out k c)) (omega arith)
    ∙ write-before (k + 1) (cs ++ ds) (update out k c) k (omega arith)
    ∙ ground arith
write-inside k (c ∷ cs) ds out (suc i) lt =
    ap (write (k + 1) (cs ++ ds) (update out k c)) (omega arith)
    ∙ write-inside (k + 1) cs ds (update out k c) i (omega arith)

strncpy_to-inside : (n i : ℕ) (from to : Mem) → i < n → update (strncpy_to n from to) n 0 i ≡ from i
strncpy_to-inside n i from to lt = ground arith

-- The buffer of a call with room for `n` bytes: `ret` is the less of `n` and the bytes of the text with its 0;
-- so many bytes of it may be the text's, and there is a 0 at `ret`.
pub record Truncated (text : List ℕ) (n ret : ℕ) (out out' : Mem) : Type 0 where
  pub count : ret ≡ min n (length text + 1)
  pub inside : (i : ℕ) → i < min ret (length text) → out' i ≡ get_or text i 0
  pub zero_behind : out' ret ≡ 0
  pub outside : (i : ℕ) → ret < i → out' i ≡ out i

-- What comes of a text: it is truncated, or it does not fit into the 1024 bytes of `pbuf`.
pub data Bounded (text : List ℕ) (n : ℕ) (out : Mem) : Option (ℕ × Mem) → Type 0 where
  bounded :
      (out' : Mem)
      → length text < pbuf_max_size
      → Truncated text n (min n (length text + 1)) out out'
      → Bounded text n out (some (min n (length text + 1), out'))
  overrun : pbuf_max_size ≤ length text → Bounded text n out none

-- `snprintf` with room for fewer than 1024 bytes, on the rounds of `vsprintf`. If the text has fewer than 1024
-- bytes it returns: the first bytes of the text are in the buffer, as many as there is room for; it
-- returns the less of `n` and the length of the text with its 0, and writes a 0 at just that place,
-- so that where the text with its 0 has `n` bytes or more it writes behind the `n` bytes of the
-- buffer, and nothing further on. A text of 1024 bytes or more is written over the end of `pbuf`.
pub snprintf-Truncated :
    (ps : List Piece) (fuel n fmt : ℕ) (m s pbuf out : Mem)
    → Spelled m fmt ps
    → rounds ps < fuel
    → n < pbuf_max_size
    → (text : List ℕ) × PrintsAll ps text
      × Bounded text n out (snprintf fuel n fmt (arguments ps) m s pbuf out)
unfolding snprintf
snprintf-Truncated ps fuel n fmt m s pbuf out h enough small =
    let (text, e, all) = vsprintf-Prints ps fuel fmt m s pbuf h enough in
    let ret = min n (length text + 1) in
    let less : (if ltb n (length text + 1) then n else length text + 1) ≡ ret = ground arith in
    let fits : ltb ret pbuf_max_size ≡ true = ground arith in
    let pbuf' = write 0 (text ++ 0 ∷ []) pbuf in
    (
      text,
      all,
      rw (e, less, fits)
          (elim (Bool-cases (leb (length text + 1) pbuf_max_size)) [
            | inl room ↦ rw room (
                bounded _ (ground arith) (record {
                  count = refl;
                  inside = λ i lt.
                      strncpy_to-inside ret i pbuf' out (omega arith)
                      ∙ ap pbuf' (omega arith)
                      ∙ write-inside 0 text (0 ∷ []) pbuf i (omega arith);
                  zero_behind = ground arith;
                  outside = λ i lt. ground arith;
                }))
            | inr none_left ↦ rw none_left (overrun (ground arith))
          ]),
    )
