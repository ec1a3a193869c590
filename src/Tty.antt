-- ===== src/Tty.antt =====
-- kernel/src/dev/dev_tty.c: the screen of a terminal, as `tty_write` changes and draws it. Pointers into
-- `tty->buf` are indices, and so is `tty->end`, which is `size`. A call is one step under the lock of the
-- terminal (Sem.antt). `memmove` to a lower address is that of Klib/Memory.antt. `none` is an access
-- outside of the buffers.
pub mod Screen
pub mod Rows
pub mod Output
pub mod Draw
pub mod Drawn
pub mod Shown
pub mod Bytes
pub mod Synced
pub mod Queue
pub mod Cook
mod Tests
use nju_os_lab.Prelude.{
  ℕ, zero, suc, ◌+◌, ◌-◌, ◌*◌, ◌%◌, ◌^◌, Bool, ◌&&◌, Option, none, some, List, [], ◌∷◌, ◌++◌,
  length, ltb, ◌==◌, if◌then◌else◌, update,
}

-- `struct character`
pub record Character : Type 0 where
  pub metadata : ℕ
  pub ch : ℕ

-- `tty_defaultch`
abbrev pub tty_defaultch : Character
tty_defaultch = record { metadata = 0; ch = 0 }

-- `tty_t`, the fields of the screen
pub record Tty : Type 0 where
  pub display : ℕ
  pub lines : ℕ
  pub columns : ℕ
  pub size : ℕ
  pub buf : ℕ → Character
  pub cursor : ℕ
  pub dirty : ℕ → ℕ

-- A step that needs the one before it.
infixl 5 ◌>>=◌
abbrev pub ◌>>=◌ : {A B : Type 0} → Option A → (A → Option B) → Option B
none >>= f = none
some a >>= f = f a

-- The first `n` cells move up by `c`.
abbrev pub move_up : {A : Type 0} → (n c : ℕ) → (ℕ → A) → ℕ → A
move_up n c f i = if ltb i n then f (i + c) else f i

-- The loop of `tty_upd_scrollup`: the cells from the cursor on are blank, with the rounds left.
unfoldable pub blank_cells : (n i : ℕ) → Tty → Option Tty
blank_cells zero i t = some t
blank_cells (suc n) i t =
    let rest = blank_cells n (i + 1) (record t { buf = update t.buf i tty_defaultch }) in
    if ltb i t.size then rest else none

-- `tty_upd_scrollup`
unfoldable pub tty_upd_scrollup : Tty → Option Tty
tty_upd_scrollup t =
    let move_sz = t.columns * (t.lines - 1) in
    let cursor = t.cursor - t.columns in
    if ltb t.cursor t.columns
    then none
    else blank_cells t.columns cursor (record t {
      buf = move_up move_sz t.columns t.buf;
      dirty = move_up move_sz t.columns t.dirty;
      cursor = cursor;
    })

-- `tty_upd_cr`
unfoldable pub tty_upd_cr : Tty → Tty
tty_upd_cr t = record t { cursor = t.cursor - t.cursor % t.columns }

-- `tty_upd_lf`
unfoldable pub tty_upd_lf : Tty → Tty
tty_upd_lf t = record t { cursor = t.cursor + t.columns }

-- A write to the field `ch` of the cell of the cursor.
abbrev pub set_ch : ℕ → Tty → Option Tty
set_ch c t =
    if ltb t.cursor t.size
    then some (record t { buf = update t.buf t.cursor (record (t.buf t.cursor) { ch = c }) })
    else none

-- `tty_upd_backsp`
unfoldable pub tty_upd_backsp : Tty → Option Tty
tty_upd_backsp t = if ltb 0 t.cursor then set_ch 0 (record t { cursor = t.cursor - 1 }) else some t

-- `tty_upd_putc`
unfoldable pub tty_upd_putc : ℕ → Tty → Option Tty
tty_upd_putc c t = do t' ← set_ch c t; some (record t' { cursor = t'.cursor + 1 })

-- `tty_mark`
unfoldable pub tty_mark : ℕ → Tty → Option Tty
tty_mark i t = if ltb i t.size then some (record t { dirty = update t.dirty i 1 }) else none

-- The loops of `tty_mark_line` and of `tty_mark_all`, with the rounds left.
unfoldable pub mark_cells : (n i : ℕ) → Tty → Option Tty
mark_cells zero i t = some t
mark_cells (suc n) i t = tty_mark i t >>= mark_cells n (i + 1)

-- `tty_mark_line`
unfoldable pub tty_mark_line : ℕ → Tty → Option Tty
tty_mark_line i t = mark_cells t.columns (i - i % t.columns) t

-- `tty_mark_all`
unfoldable pub tty_mark_all : Tty → Option Tty
tty_mark_all t = mark_cells t.size 0 t

-- The end of `tty_putc` at the end of the screen.
unfoldable pub scroll : Tty → Option Tty
scroll t = tty_upd_scrollup t >>= tty_mark_all

-- The end of `tty_putc` for a line feed.
unfoldable pub line_marks : Tty → Option Tty
line_marks t =
    if ltb t.cursor t.columns
    then none
    else (tty_mark_line (t.cursor - t.columns) t >>= λ t'. tty_mark_line t'.cursor t')

-- The end of `tty_putc` for a character.
unfoldable pub cell_marks : Tty → Option Tty
cell_marks t =
    if t.cursor == 0 then none else (tty_mark (t.cursor - 1) t >>= λ t'. tty_mark t'.cursor t')

-- `tty_putc` for a character that is not a control character.
unfoldable pub put_char : ℕ → Tty → Option Tty
put_char c t = do t' ← tty_upd_putc c t; if t'.cursor == t'.size then scroll t' else cell_marks t'

-- `tty_putc` for a line feed.
unfoldable pub put_line : Tty → Option Tty
put_line t =
    let t' = tty_upd_lf (tty_upd_cr t) in if t'.cursor == t'.size then scroll t' else line_marks t'

-- `tty_putc` for a backspace.
unfoldable pub put_backspace : Tty → Option Tty
put_backspace t = do
  t' ← tty_upd_backsp t
  t'' ← tty_mark t'.cursor t'
  tty_mark (t''.cursor + 1) t''

-- `tty_putc`
unfoldable pub tty_putc : ℕ → Tty → Option Tty
tty_putc c t =
    if c == b'\r'
    then (let t' = tty_upd_cr t in tty_mark_line t'.cursor t')
    else if c == 8
    then put_backspace t
    else if c == b'\n'
    then put_line t
    else put_char c t

-- The loop of `tty_write`.
unfoldable pub put_all : List ℕ → Tty → Option Tty
put_all [] t = some t
put_all (c ∷ cs) t = tty_putc c t >>= put_all cs
