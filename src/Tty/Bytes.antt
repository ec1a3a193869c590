-- ===== src/Tty/Bytes.antt =====
-- `tty_putc` of kernel/src/dev/dev_tty.c keeps the characters of the cells bytes, and the display's number.
use nju_os_lab.Prelude.{
  ℕ, zero, suc, ◌+◌, ◌-◌, ◌*◌, ◌^◌, ◌<◌, ◌≡◌, Bool, true, false, Option, none, some, List, [], ◌∷◌,
  All, arith, ltb, ◌==◌, if◌then◌else◌, Bool-cases, inl, inr, update,
}
use nju_os_lab.Tty.{
  Character, Tty, tty_defaultch, ◌>>=◌, move_up, blank_cells, tty_upd_scrollup, tty_upd_cr,
  tty_upd_lf, set_ch, tty_upd_backsp, tty_upd_putc, tty_mark, mark_cells, tty_mark_line,
  tty_mark_all, scroll, line_marks, cell_marks, put_char, put_line, put_backspace, tty_putc,
  put_all,
}

pub record Bytes (d : ℕ) (t : Tty) : Type 0 where
  pub bytes : (i : ℕ) → (t.buf i).ch < 2 ^ 8
  pub display : t.display ≡ d

-- If a call ends, it keeps the bytes.
abbrev pub Every : ℕ → Option Tty → Type 0
Every d none = Unit {0}
Every d (some t) = Bytes d t

bind-Every :
    (d : ℕ) (r : Option Tty) (f : Tty → Option Tty)
    → Every d r
    → ((t : Tty) → Bytes d t → Every d (f t))
    → Every d (r >>= f)
bind-Every d none f h k = tt
bind-Every d (some t) f h k = k t h

if-Every :
    (d : ℕ) (b : Bool) (r s : Option Tty) → Every d r → Every d s → Every d (if b then r else s)
if-Every d true r s h k = h
if-Every d false r s h k = k

-- A write of a byte to one cell.
put-Bytes :
    (d i : ℕ) (c : Character) (t : Tty)
    → c.ch < 2 ^ 8
    → Bytes d t
    → Bytes d (record t { buf = update t.buf i c })
put-Bytes d i c t lt h = record {
  bytes = λ j. elim (Bool-cases (i == j)) [ inl e ↦ rw e lt | inr e ↦ rw e (h.bytes j) ];
  display = h.display;
}

blank_cells-Every : (d n i : ℕ) (t : Tty) → Bytes d t → Every d (blank_cells n i t)
unfolding blank_cells
blank_cells-Every d zero i t h = h
blank_cells-Every d (suc n) i t h =
    if-Every d (ltb i t.size)
      (blank_cells n (i + 1) (record t { buf = update t.buf i tty_defaultch })) none
      (blank_cells-Every d n (i + 1) (record t { buf = update t.buf i tty_defaultch })
        (put-Bytes d i tty_defaultch t (omega arith) h))
      tt

tty_mark-Every : (d i : ℕ) (t : Tty) → Bytes d t → Every d (tty_mark i t)
unfolding tty_mark
tty_mark-Every d i t h =
    if-Every d (ltb i t.size) (some (record t { dirty = update t.dirty i 1 })) none
      (record { bytes = h.bytes; display = h.display }) tt

mark_cells-Every : (d n i : ℕ) (t : Tty) → Bytes d t → Every d (mark_cells n i t)
unfolding mark_cells
mark_cells-Every d zero i t h = h
mark_cells-Every d (suc n) i t h =
    bind-Every d (tty_mark i t) (mark_cells n (i + 1)) (tty_mark-Every d i t h)
      (λ t' h'. mark_cells-Every d n (i + 1) t' h')

moved-Bytes :
    (d n : ℕ) (t : Tty)
    → Bytes d t
    → Bytes d (record t {
      buf = move_up n t.columns t.buf;
      dirty = move_up n t.columns t.dirty;
      cursor = t.cursor - t.columns;
    })
moved-Bytes d n t h = record {
  bytes = λ i. elim (Bool-cases (ltb i n)) [
    | inl e ↦ rw e (h.bytes (i + t.columns))
    | inr e ↦ rw e (h.bytes i)
  ];
  display = h.display;
}

scroll-Every : (d : ℕ) (t : Tty) → Bytes d t → Every d (scroll t)
unfolding scroll tty_upd_scrollup tty_mark_all
scroll-Every d t h =
    bind-Every d (tty_upd_scrollup t) tty_mark_all
      (if-Every d (ltb t.cursor t.columns) none
        (blank_cells t.columns (t.cursor - t.columns) (moved t)) tt
        (blank_cells-Every d t.columns (t.cursor - t.columns) (moved t)
          (moved-Bytes d (t.columns * (t.lines - 1)) t h)))
      (λ t' h'. mark_cells-Every d t'.size 0 t' h')
  where
    moved : Tty → Tty
    moved t = record t {
      buf = move_up (t.columns * (t.lines - 1)) t.columns t.buf;
      dirty = move_up (t.columns * (t.lines - 1)) t.columns t.dirty;
      cursor = t.cursor - t.columns;
    }

line_marks-Every : (d : ℕ) (t : Tty) → Bytes d t → Every d (line_marks t)
unfolding line_marks tty_mark_line
line_marks-Every d t h =
    if-Every d (ltb t.cursor t.columns) none
      (tty_mark_line (t.cursor - t.columns) t >>= λ t'. tty_mark_line t'.cursor t') tt
      (bind-Every d (tty_mark_line (t.cursor - t.columns) t) (λ t'. tty_mark_line t'.cursor t')
        (mark_cells-Every d t.columns _ t h) (λ t' h'. mark_cells-Every d t'.columns _ t' h'))

cell_marks-Every : (d : ℕ) (t : Tty) → Bytes d t → Every d (cell_marks t)
unfolding cell_marks
cell_marks-Every d t h =
    if-Every d (t.cursor == 0) none (tty_mark (t.cursor - 1) t >>= λ t'. tty_mark t'.cursor t') tt (
      bind-Every d (tty_mark (t.cursor - 1) t) (λ t'. tty_mark t'.cursor t')
        (tty_mark-Every d (t.cursor - 1) t h) (λ t' h'. tty_mark-Every d t'.cursor t' h'))

set_ch-Every : (d c : ℕ) (t : Tty) → c < 2 ^ 8 → Bytes d t → Every d (set_ch c t)
set_ch-Every d c t lt h =
    if-Every d (ltb t.cursor t.size)
      (some (record t { buf = update t.buf t.cursor (record (t.buf t.cursor) { ch = c }) })) none
      (put-Bytes d t.cursor (record (t.buf t.cursor) { ch = c }) t lt h) tt

put_char-Every : (d c : ℕ) (t : Tty) → c < 2 ^ 8 → Bytes d t → Every d (put_char c t)
unfolding put_char tty_upd_putc
put_char-Every d c t lt h =
    bind-Every d (tty_upd_putc c t) (λ u. if u.cursor == u.size then scroll u else cell_marks u)
      (bind-Every d (set_ch c t) (λ u. some (record u { cursor = u.cursor + 1 }))
        (set_ch-Every d c t lt h) (λ u h'. record { bytes = h'.bytes; display = h'.display }))
      (λ u h'.
        if-Every d (u.cursor == u.size) (scroll u) (cell_marks u) (scroll-Every d u h')
          (cell_marks-Every d u h'))

put_line-Every : (d : ℕ) (t : Tty) → Bytes d t → Every d (put_line t)
unfolding put_line tty_upd_lf tty_upd_cr
put_line-Every d t h =
    let u = tty_upd_lf (tty_upd_cr t) in
    let h' : Bytes d u = record { bytes = h.bytes; display = h.display } in
    if-Every d (u.cursor == u.size) (scroll u) (line_marks u) (scroll-Every d u h')
      (line_marks-Every d u h')

put_backspace-Every : (d : ℕ) (t : Tty) → Bytes d t → Every d (put_backspace t)
unfolding put_backspace tty_upd_backsp
put_backspace-Every d t h =
    bind-Every d (tty_upd_backsp t)
      (λ t'. tty_mark t'.cursor t' >>= λ t''. tty_mark (t''.cursor + 1) t'')
      (if-Every d (ltb 0 t.cursor) (set_ch 0 (record t { cursor = t.cursor - 1 })) (some t)
        (set_ch-Every d 0 (record t { cursor = t.cursor - 1 }) (omega arith)
          (record { bytes = h.bytes; display = h.display }))
        h)
      (λ t' h'.
        bind-Every d (tty_mark t'.cursor t') (λ t''. tty_mark (t''.cursor + 1) t'')
          (tty_mark-Every d t'.cursor t' h') (λ t'' h''. tty_mark-Every d (t''.cursor + 1) t'' h''))

tty_putc-Every : (d c : ℕ) (t : Tty) → c < 2 ^ 8 → Bytes d t → Every d (tty_putc c t)
unfolding tty_putc tty_upd_cr tty_mark_line
tty_putc-Every d c t lt h =
    if-Every d (c == b'\r') (tty_mark_line (tty_upd_cr t).cursor (tty_upd_cr t))
      (if c == 8 then put_backspace t else if c == b'\n' then put_line t else put_char c t)
      (mark_cells-Every d t.columns _ (tty_upd_cr t)
        (record { bytes = h.bytes; display = h.display }))
      (if-Every d (c == 8) (put_backspace t) (if c == b'\n' then put_line t else put_char c t)
        (put_backspace-Every d t h)
        (if-Every d (c == b'\n') (put_line t) (put_char c t) (put_line-Every d t h)
          (put_char-Every d c t lt h)))

abbrev pub IsByte : ℕ → Type 0
IsByte c = c < 2 ^ 8

pub put_all-Every :
    (d : ℕ) (cs : List ℕ) (t : Tty) → All IsByte cs → Bytes d t → Every d (put_all cs t)
unfolding put_all
put_all-Every d [] t ok h = h
put_all-Every d (c ∷ cs) t ok h =
    bind-Every d (tty_putc c t) (put_all cs) (tty_putc-Every d c t ok.0 h)
      (λ t' h'. put_all-Every d cs t' ok.1 h')
