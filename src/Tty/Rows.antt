-- ===== src/Tty/Rows.antt =====
-- The row operations of kernel/src/dev/dev_tty.c: `tty_mark_line`, and `tty_putc` for a carriage return and
-- for a line feed.
use native.Mathlib.Nat.{
  mod-lt, add-mod_right, div-add-mod', mul-mod_left, div-lt_iff_lt-mul, mul_comm,
}
use nju_os_lab.Prelude.{
  ℕ, ◌+◌, ◌-◌, ◌*◌, ◌/◌, ◌%◌, ◌≤◌, ◌<◌, ◌≡◌, ◌⊎◌, inl, inr, refl, sym, ap, ◌∙◌, false, some, arith,
  ltb, ◌==◌, Bool-cases,
}
use native.Mathlib.Decide.{dec_lt}
use nju_os_lab.Tty.{Tty, tty_upd_cr, tty_upd_lf, tty_mark_line, line_marks, put_line}
use nju_os_lab.Tty.Screen.{IsValid, Marked, mark_cells-Marked, Good, scroll-Good}

-- The cursor stands in one of the rows.
pub row_lt : (c columns lines : ℕ) → 0 < columns → c < columns * lines → c / columns < lines
row_lt c columns lines pos lt = (div-lt_iff_lt-mul pos).1 (rw (mul_comm lines columns) lt)

row_begin : (c columns : ℕ) → c - c % columns ≡ c / columns * columns
row_begin c columns = omega (arith, div-add-mod' c columns)

-- The first cell of a row is marked as one of its cells.
begin_mod : (q columns : ℕ) → q * columns - q * columns % columns ≡ q * columns
begin_mod q columns = omega (arith, mul-mod_left q columns)

-- Row `q` ends on the screen.
row_end :
    (q columns lines size : ℕ) → q < lines → size ≡ columns * lines → q * columns + columns ≤ size
row_end q columns lines size lt e =
    let k = lines - (q + 1) in
    let split : lines ≡ q + 1 + k = omega arith in
    let whole : size ≡ columns * (q + 1 + k) = e ∙ ap (λ n. columns * n) split in
    grind (arith, whole)

tty_mark_line-Marked :
    (q : ℕ) (t : Tty)
    → q * t.columns + t.columns ≤ t.size
    → (d : ℕ → ℕ) × (tty_mark_line (q * t.columns) t ≡ some (record t { dirty = d }))
      × Marked t.columns (q * t.columns) t d
unfolding tty_mark_line
tty_mark_line-Marked q t le =
    rw (begin_mod q t.columns) (mark_cells-Marked t.columns (q * t.columns) t le)

-- Marking the row of the cell `c`, which is on the screen.
mark_row :
    (c : ℕ) (t : Tty)
    → IsValid t
    → c < t.size
    → (d : ℕ → ℕ) × (tty_mark_line (c - c % t.columns) t ≡ some (record t { dirty = d }))
      × Marked t.columns (c - c % t.columns) t d
mark_row c t v lt = rw (row_begin c t.columns) (
    tty_mark_line-Marked (c / t.columns) t (
      row_end (c / t.columns) t.columns t.lines t.size
        (row_lt c t.columns t.lines (omega (arith, v.columns)) (omega (arith, v.area))) v.area))

-- The row below begins where the row ends.
below_mod : (c columns : ℕ) → (c - c % columns + columns) % columns ≡ 0
below_mod c columns =
    add-mod_right (c - c % columns) columns
    ∙ ap (λ k. k % columns) (row_begin c columns)
    ∙ mul-mod_left (c / columns) columns

-- A cell is marked or has its old mark.
Marked-cell :
    (n i : ℕ) (t : Tty) (d : ℕ → ℕ) → Marked n i t d → (j : ℕ) → (d j ≡ 1) ⊎ (d j ≡ t.dirty j)
Marked-cell n i t d m j = elim (dec_lt j i) [
  | yes lt ↦ inr (m.outside j (inl lt))
  | no ge ↦ elim (dec_lt j (i + n)) [
    | yes lt ↦ inl (m.inside j (omega arith) lt)
    | no ge' ↦ inr (m.outside j (inr (omega arith)))
  ]
]

IsValid-marks : (d : ℕ → ℕ) (t : Tty) → IsValid t → IsValid (record t { dirty = d })
IsValid-marks d t v = record {
  lines = v.lines;
  columns = v.columns;
  area = v.area;
  on_screen = v.on_screen;
}

pub cr-Good : (t : Tty) → IsValid t → Good t (let t' = tty_upd_cr t in tty_mark_line t'.cursor t')
unfolding tty_upd_cr
cr-Good t v =
    let u = record t { cursor = t.cursor - t.cursor % t.columns } in
    let near : t.cursor % t.columns < t.columns = mod-lt t.cursor (omega (arith, v.columns)) in
    let valid : IsValid u = record {
      lines = v.lines;
      columns = v.columns;
      area = v.area;
      on_screen = omega (arith, v.on_screen);
    } in
    let (d, e, m) = mark_row t.cursor u valid v.on_screen in
    (
      record u { dirty = d },
      e,
      IsValid-marks d u valid,
      record {
        same_lines = refl;
        same_columns = refl;
        same_size = refl;
        cells = λ i lt. elim (Marked-cell t.columns (t.cursor - t.cursor % t.columns) u d m i) [
          | inl marked ↦ inl marked
          | inr same ↦ inr (refl, same)
        ];
        old = inl (m.inside t.cursor (omega arith) (omega arith));
        new =
            inl
              (m.inside (t.cursor - t.cursor % t.columns) (omega arith) (omega (arith, v.columns)));
      },
    )

line_marks-some :
    (u u' u'' : Tty)
    → ltb u.cursor u.columns ≡ false
    → tty_mark_line (u.cursor - u.columns) u ≡ some u'
    → tty_mark_line u'.cursor u' ≡ some u''
    → line_marks u ≡ some u''
unfolding line_marks
line_marks-some u u' u'' far e e' = rw (far, e) e'

-- Two rows are marked, from the row of `c` on, and the cursor is at the start of the second.
line_marks-Good :
    (t u : Tty)
    → IsValid t
    → IsValid u
    → u.lines ≡ t.lines
    → u.columns ≡ t.columns
    → u.size ≡ t.size
    → u.buf ≡ t.buf
    → u.dirty ≡ t.dirty
    → u.cursor ≡ t.cursor - t.cursor % u.columns + u.columns
    → Good t (line_marks u)
line_marks-Good t u v w el ec es eb ed at =
    let near : t.cursor % u.columns < u.columns = mod-lt t.cursor (omega (arith, w.columns)) in
    let far : ltb u.cursor u.columns ≡ false = ground arith in
    let above : u.cursor - u.columns ≡ t.cursor - t.cursor % u.columns = omega arith in
    let begin : u.cursor - u.cursor % u.columns ≡ u.cursor =
      omega (arith, ap (λ c. c % u.columns) at ∙ below_mod t.cursor u.columns) in
    let (d, e, m) = mark_row t.cursor u w (omega (arith, v.on_screen)) in
    let (d', e', m') =
      mark_row u.cursor (record u { dirty = d }) (IsValid-marks d u w) w.on_screen in
    let second : tty_mark_line u.cursor (record u { dirty = d }) ≡ some (record u { dirty = d' }) =
      sym (ap (λ c. tty_mark_line c (record u { dirty = d })) begin) ∙ e' in
    (
      record u { dirty = d' },
      line_marks-some u (record u { dirty = d }) (record u { dirty = d' }) far
          (ap (λ c. tty_mark_line c u) above ∙ e) second,
      IsValid-marks d' u w,
      record {
        same_lines = el;
        same_columns = ec;
        same_size = es;
        cells = λ i lt.
            elim (Marked-cell u.columns (u.cursor - u.cursor % u.columns) (record u { dirty = d })
              d' m' i) [
                | inl marked ↦ inl marked
                | inr kept ↦
                    elim (Marked-cell u.columns (t.cursor - t.cursor % u.columns) u d m i) [
                      | inl marked ↦ inl (kept ∙ marked)
                      | inr same ↦ inr (ap (λ f. f i) eb, kept ∙ same ∙ ap (λ f. f i) ed)
                    ]
              ];
        old = inl (
            m'.outside t.cursor (inl (omega arith))
            ∙ m.inside t.cursor (omega arith) (omega arith));
        new = inl (m'.inside u.cursor (omega arith) (omega (arith, w.columns)));
      },
    )

pub put_line-Good : (t : Tty) → IsValid t → Good t (put_line t)
unfolding put_line tty_upd_cr tty_upd_lf
put_line-Good t v =
    let u = record t { cursor = t.cursor - t.cursor % t.columns + t.columns } in
    let row : t.cursor - t.cursor % t.columns + t.columns ≤ t.size =
      rw (row_begin t.cursor t.columns) (
        row_end (t.cursor / t.columns) t.columns t.lines t.size
          (row_lt t.cursor t.columns t.lines (omega (arith, v.columns))
            (omega (arith, v.area, v.on_screen)))
          v.area) in
    elim (Bool-cases (u.cursor == t.size)) [
      | inl last ↦ rw last (scroll-Good t u v refl refl refl (ground arith))
      | inr more ↦
          let w : IsValid u = record {
            lines = v.lines;
            columns = v.columns;
            area = v.area;
            on_screen = ground arith;
          } in
          rw more (line_marks-Good t u v w refl refl refl refl refl refl)
    ]
