-- ===== src/Tty/Screen.antt =====
-- `tty_putc` of kernel/src/dev/dev_tty.c: accesses inside of the buffers, and marks on what changes.
use nju_os_lab.Prelude.{
  ℕ, zero, suc, ◌+◌, ◌-◌, ◌*◌, ◌≤◌, ◌<◌, ◌≡◌, ◌≢◌, ◌⊎◌, inl, inr, refl, sym, ap, ◌∙◌, true, false,
  Option, some, arith, ltb, ◌==◌, Bool-cases, update,
}
use native.Mathlib.Decide.{dec_lt, ℕ_discrete}
use nju_os_lab.Tty.{
  Character, Tty, tty_defaultch, ◌>>=◌, move_up, blank_cells, tty_upd_scrollup, tty_upd_backsp,
  tty_upd_putc, tty_mark, mark_cells, tty_mark_all, scroll, cell_marks, put_char, put_backspace,
}

-- A screen of at least two columns, with the cursor on it.
pub record IsValid (t : Tty) : Type 0 where
  pub lines : 1 ≤ t.lines
  pub columns : 2 ≤ t.columns
  pub area : t.size ≡ t.columns * t.lines
  pub on_screen : t.cursor < t.size

-- The marks from cell `i` on are set, and nothing else is changed.
pub record Marked (n i : ℕ) (t : Tty) (d : ℕ → ℕ) : Type 0 where
  pub inside : (j : ℕ) → i ≤ j → j < i + n → d j ≡ 1
  pub outside : (j : ℕ) → (j < i) ⊎ (i + n ≤ j) → d j ≡ t.dirty j

pub mark_cells-Marked :
    (n i : ℕ) (t : Tty)
    → i + n ≤ t.size
    → (d : ℕ → ℕ) × (mark_cells n i t ≡ some (record t { dirty = d })) × Marked n i t d
unfolding mark_cells tty_mark
mark_cells-Marked zero i t le =
    (t.dirty, refl, record { inside = λ j a b. absurd (omega arith); outside = λ j o. refl })
mark_cells-Marked (suc n) i t le =
    let here : ltb i t.size ≡ true = ground arith in
    let (d, e, m) =
      mark_cells-Marked n (i + 1) (record t { dirty = update t.dirty i 1 }) (omega arith) in
    (
      d,
      rw here e,
      record {
        inside = λ j a b. elim (dec_lt i j) [
          | yes lt ↦ m.inside j (omega arith) (omega arith)
          | no ge ↦ m.outside j (inl (omega arith)) ∙ ground arith
        ];
        outside = λ j o. elim o [
          | inl lt ↦ m.outside j (inl (omega arith)) ∙ ground arith
          | inr ge ↦ m.outside j (inr (omega arith)) ∙ ground arith
        ];
      },
    )

blank_cells-some :
    (n i : ℕ) (t : Tty)
    → i + n ≤ t.size
    → (b : ℕ → Character) × (blank_cells n i t ≡ some (record t { buf = b }))
unfolding blank_cells
blank_cells-some zero i t le = (t.buf, refl)
blank_cells-some (suc n) i t le =
    let here : ltb i t.size ≡ true = ground arith in
    let (b, e) =
      blank_cells-some n (i + 1) (record t { buf = update t.buf i tty_defaultch }) (omega arith) in
    (b, rw here e)

-- The screen is as large as before. A cell that is not marked has its old content and its old mark,
-- and where the cursor was and is, is marked, if it has moved.
pub record Redraws (t t' : Tty) : Type 0 where
  pub same_lines : t'.lines ≡ t.lines
  pub same_columns : t'.columns ≡ t.columns
  pub same_size : t'.size ≡ t.size
  pub cells :
      (i : ℕ) → i < t.size → (t'.dirty i ≡ 1) ⊎ ((t'.buf i ≡ t.buf i) × (t'.dirty i ≡ t.dirty i))
  pub old : (t'.dirty t.cursor ≡ 1) ⊎ (t'.cursor ≡ t.cursor)
  pub new : (t'.dirty t'.cursor ≡ 1) ⊎ (t'.cursor ≡ t.cursor)

-- What each branch of `tty_putc` comes to.
abbrev pub Good : Tty → Option Tty → Type 0
Good t r = (t' : Tty) × (r ≡ some t') × IsValid t' × Redraws t t'

-- Scrolling, from the first cell behind the screen.
pub scroll-Good :
    (t u : Tty)
    → IsValid t
    → u.lines ≡ t.lines
    → u.columns ≡ t.columns
    → u.size ≡ t.size
    → u.cursor ≡ u.size
    → Good t (scroll u)
unfolding scroll tty_upd_scrollup tty_mark_all
scroll-Good t u v el ec es end =
    let wide : u.columns ≤ u.size = grind (arith, v) in
    let enough : ltb u.cursor u.columns ≡ false = ground arith in
    let moved = record u {
      buf = move_up (u.columns * (u.lines - 1)) u.columns u.buf;
      dirty = move_up (u.columns * (u.lines - 1)) u.columns u.dirty;
      cursor = u.cursor - u.columns;
    } in
    let (b, e) = blank_cells-some u.columns (u.cursor - u.columns) moved (omega arith) in
    let blanked = record moved { buf = b } in
    let (d, f, m) = mark_cells-Marked u.size 0 blanked (omega arith) in
    (
      record blanked { dirty = d },
      rw (enough, e) f,
      record {
        lines = omega (arith, v.lines);
        columns = omega (arith, v.columns);
        area = rw (el, ec) (es ∙ v.area);
        on_screen = omega (arith, v);
      },
      record {
        same_lines = el;
        same_columns = ec;
        same_size = es;
        cells = λ i lt. inl (m.inside i (omega arith) (omega arith));
        old = inl (m.inside t.cursor (omega arith) (omega (arith, v)));
        new = inl (m.inside (u.cursor - u.columns) (omega arith) (omega (arith, v)));
      },
    )

pub put_char-Good : (c : ℕ) (t : Tty) → IsValid t → Good t (put_char c t)
unfolding put_char tty_upd_putc cell_marks tty_mark
put_char-Good c t v =
    let here : ltb t.cursor t.size ≡ true = ground (arith, v) in
    let buf = update t.buf t.cursor (record (t.buf t.cursor) { ch = c }) in
    let u = record t { buf = buf; cursor = t.cursor + 1 } in
    elim (Bool-cases (t.cursor + 1 == t.size)) [
      | inl last ↦ rw (here, last) (scroll-Good t u v refl refl refl (ground arith))
      | inr more ↦
          let inside : t.cursor + 1 < t.size = ground (arith, v) in
          let pos : (t.cursor + 1 == 0) ≡ false = ground arith in
          let next : ltb (t.cursor + 1) t.size ≡ true = ground arith in
          let d = update (update t.dirty t.cursor 1) (t.cursor + 1) 1 in
          let back : t.cursor + 1 - 1 ≡ t.cursor = omega arith in
          (
            record u { dirty = d },
            rw (here, more, pos, back, here, next),
            record { lines = v.lines; columns = v.columns; area = v.area; on_screen = inside },
            record {
              same_lines = refl;
              same_columns = refl;
              same_size = refl;
              cells = λ i lt. elim (ℕ_discrete t.cursor i) [
                | yes e ↦ inl (ground arith)
                | no ne ↦ elim (ℕ_discrete (t.cursor + 1) i) [
                  | yes e ↦ inl (ground arith)
                  | no ne' ↦ inr (ground arith, ground arith)
                ]
              ];
              old = inl (ground arith);
              new = inl (ground arith);
            },
          )
    ]

-- A backspace at the first cell, and at another one.
backspace-Good :
    (t u : Tty)
    → IsValid t
    → u.lines ≡ t.lines
    → u.columns ≡ t.columns
    → u.size ≡ t.size
    → u.dirty ≡ t.dirty
    → u.cursor + 1 < t.size
    → ((u.cursor ≡ t.cursor) × (u.buf ≡ t.buf))
      ⊎ ((u.cursor + 1 ≡ t.cursor) × ((i : ℕ) → i ≢ u.cursor → u.buf i ≡ t.buf i))
    → Good t (tty_mark u.cursor u >>= λ t''. tty_mark (t''.cursor + 1) t'')
unfolding tty_mark
backspace-Good t u v el ec es ed inside moved =
    let a : ltb u.cursor u.size ≡ true = ground arith in
    let b : ltb (u.cursor + 1) u.size ≡ true = ground arith in
    let d = update (update u.dirty u.cursor 1) (u.cursor + 1) 1 in
    (
      record u { dirty = d },
      rw (a, b),
      record {
        lines = omega (arith, v.lines);
        columns = omega (arith, v.columns);
        area = rw (el, ec) (es ∙ v.area);
        on_screen = omega arith;
      },
      record {
        same_lines = el;
        same_columns = ec;
        same_size = es;
        cells = λ i lt. elim (ℕ_discrete u.cursor i) [
          | yes e ↦ inl (ground arith)
          | no ne ↦ elim (ℕ_discrete (u.cursor + 1) i) [
            | yes e ↦ inl (ground arith)
            | no ne' ↦ inr (
              elim moved [
                | inl (_, same) ↦ ap (λ f. f i) same
                | inr (_, same) ↦ same i (λ e. ne (sym e))
              ],
              ground (arith, ap (λ f. f i) ed),
            )
          ]
        ];
        old = elim moved [ inl (e, _) ↦ inr e | inr (e, _) ↦ inl (ground arith) ];
        new = inl (ground arith);
      },
    )

pub put_backspace-Good : (t : Tty) → IsValid t → Good t (put_backspace t)
unfolding put_backspace tty_upd_backsp
put_backspace-Good t v = elim (Bool-cases (ltb 0 t.cursor)) [
  | inl pos ↦
      let u = record t {
        cursor = t.cursor - 1;
        buf = update t.buf (t.cursor - 1) (record (t.buf (t.cursor - 1)) { ch = 0 });
      } in
      let here : ltb (t.cursor - 1) t.size ≡ true = ground (arith, v) in
      rw (pos, here)
        (backspace-Good t u v refl refl refl refl (ground (arith, v))
          (inr (ground arith, λ i ne. ground arith)))
  | inr zero' ↦
      rw zero' (backspace-Good t t v refl refl refl refl (grind (arith, v)) (inl (refl, refl)))
]
