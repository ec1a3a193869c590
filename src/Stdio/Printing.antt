-- ===== src/Stdio/Printing.antt =====
-- `vsprintf` of abstract-machine/klib/src/stdio.c on a whole format.
use nju_os_lab.Prelude.{
  ℕ, zero, suc, ◌+◌, ◌<◌, ◌≡◌, refl, ap, ◌∙◌, some, List, [], ◌∷◌, ◌++◌, length, length-append,
  arith, update,
}
use nju_os_lab.Klib.{Mem}
use nju_os_lab.Stdio.{s_end, Output, format_from, vsprintf}
use nju_os_lab.Stdio.Numbers.{write, appended, write-append}
use nju_os_lab.Stdio.Format.{Piece, spelling, Spelled, arguments, PrintsAll, rounds, piece-Steps}

appended-append :
    (xs ys : List ℕ) (o : Output) → appended ys (appended xs o) ≡ appended (xs ++ ys) o
appended-append xs ys o =
    let place : o.next + length xs + length ys ≡ o.next + length (xs ++ ys) =
      omega (arith, length-append xs ys) in
    rw (write-append o.next xs ys o.out, place)

format_from-Prints :
    (ps : List Piece) (fuel c : ℕ) (m s : Mem) (o : Output)
    → Spelled m c ps
    → rounds ps < fuel
    → (text : List ℕ) × (format_from fuel c (arguments ps) m s o ≡ some (appended text o))
      × PrintsAll ps text
unfolding format_from write
format_from-Prints ps zero c m s o h enough = absurd (omega arith)
format_from-Prints [] (suc fuel) c m s o h enough =
    let same : o.next + 0 ≡ o.next = omega arith in ([], rw (h, same), refl)
format_from-Prints (p ∷ ps) (suc fuel) c m s o h enough =
    let (first, prints, e) = piece-Steps p fuel c (arguments ps) m s o h.0 h.1 (omega arith) in
    let (rest, e', all) =
      format_from-Prints ps fuel (c + length (spelling p)) m s (appended first o) h.2
        (omega arith) in
    (
      first ++ rest,
      e ∙ e' ∙ ap some (appended-append first rest o),
      (first, rest, refl, prints, all),
    )

-- `vsprintf` of a format in pieces (bytes, and directives with their arguments; no `%` at its end), on as many
-- rounds as there are pieces and bytes of strings and one more, returns: the buffer holds the texts of
-- the pieces in their order and a 0 behind them, and nothing else is written. `%s` gives the string,
-- `%c` the byte, an unknown directive a question mark, `%p` 0x and the number in base 16 in eight
-- digits or more, and `%d`, `%u` and `%l` (which eats one more byte) the 32-bit argument in base 10
-- without a sign. What it returns counts the 0.
pub vsprintf-Prints :
    (ps : List Piece) (fuel fmt : ℕ) (m s out : Mem)
    → Spelled m fmt ps
    → rounds ps < fuel
    → (text : List ℕ) × (vsprintf fuel fmt (arguments ps) m s out
        ≡ some (length text + 1, write 0 (text ++ 0 ∷ []) out))
      × PrintsAll ps text
unfolding vsprintf write
vsprintf-Prints ps fuel fmt m s out h enough =
    let (text, e, all) =
      format_from-Prints ps fuel fmt m (update s s_end 0) (record { out = out; next = 0 }) h
        enough in
    let count : 0 + length text ≡ length text = omega arith in
    (text, rw (e, write-append 0 text (0 ∷ []) out, count), all)
