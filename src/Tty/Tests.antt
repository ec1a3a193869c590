-- ===== src/Tty/Tests.antt =====
-- The theorems about kernel/src/dev/dev_tty.c at a screen of two lines and three columns.
use nju_os_lab.Prelude.{
  List, true, inl, ℕ, ◌+◌, update, if◌then◌else◌, ◌==◌, ◌≡◌, refl, Option, none, some, [], ◌∷◌,
  arith,
}
use nju_os_lab.Tty.{
  Tty, tty_defaultch, blank_cells, tty_upd_scrollup, tty_upd_putc, tty_mark, mark_cells,
  tty_mark_all, scroll, cell_marks, put_char, tty_putc, put_all,
}
use nju_os_lab.Tty.Screen.{IsValid}
use nju_os_lab.Tty.Queue.{Queue, Holds, line, read_loop, read_loop-line, tty_cook}
use nju_os_lab.Tty.Draw.{Display, tty_write}
use nju_os_lab.Tty.Drawn.{Fits}
use nju_os_lab.Tty.Synced.{IsDrawn, tty_write-IsDrawn}
use nju_os_lab.Tty.Cook.{tty_cook-undo}

abbrev screen : Tty
screen = record {
  display = 0;
  lines = 2;
  columns = 3;
  size = 6;
  buf = λ i. tty_defaultch;
  cursor = 4;
  dirty = λ i. 0;
}

abbrev cursor_of : Option Tty → Option ℕ
cursor_of none = none
cursor_of (some t) = some t.cursor

-- The last cell scrolls the screen, and the cursor stays on the last line.
scrolls : cursor_of (put_all (b'a' ∷ b'b' ∷ []) screen) ≡ some 3
unfolding put_all tty_putc put_char tty_upd_putc cell_marks tty_mark scroll tty_upd_scrollup
    blank_cells tty_mark_all mark_cells
scrolls = refl

-- A queue of four bytes that holds an a, a 0 and a b, from the last byte of the buffer on.
abbrev queue : Queue
queue = record {
  bytes = λ i. if i == 3 then b'a' else if i == 1 then b'b' else 0;
  end = 4;
  front = 3;
  rear = 2;
}

abbrev content : ℕ → ℕ
content i = if i == 0 then b'a' else if i == 2 then b'b' else 0

queue-Holds : Holds queue 3 content
queue-Holds = record {
  front = omega arith;
  fits = omega arith;
  rear = refl;
  bytes = λ i lt. ground arith;
}

read_loop_example :
    (q' : Queue) × (read_loop 2 5 queue ≡ some (line 1 5 content, q'))
    × Holds q' 1 (λ i. content (1 + 1 + i))
read_loop_example =
    read_loop-line 1 1 5 2 content queue queue-Holds (λ i lt. ground arith) refl (omega arith)

-- The same queue, empty.
abbrev empty_queue : Queue
empty_queue = record queue { rear = 3 }

empty_queue-Holds : Holds empty_queue 0 content
empty_queue-Holds = record {
  front = omega arith;
  fits = omega arith;
  rear = refl;
  bytes = λ i lt. absurd (omega arith);
}

tty_cook_example :
    (q' q'' : Queue) × (tty_cook b'x' empty_queue ≡ some (0, q', 0))
    × Holds q' (0 + 1) (update content 0 b'x')
    × (tty_cook 8 q' ≡ some (0, q'', 0))
    × Holds q'' 0 content
tty_cook_example =
    tty_cook-undo b'x' empty_queue 0 content (omega arith) (omega arith) (omega arith)
      empty_queue-Holds (omega arith)

-- A screen of which every cell is marked, and a display that shows nothing yet.
abbrev marked : Tty
marked = record screen { dirty = λ i. 1 }

abbrev dark : Display
dark x y = 0

abbrev hi : List ℕ
hi = b'h' ∷ b'i' ∷ []

marked-Fits : Fits marked 0
marked-Fits = record {
  shown = refl;
  few = omega arith;
  width = omega arith;
  height = omega arith;
  bytes = λ i. omega arith;
}

marked-IsValid : IsValid marked
marked-IsValid = record {
  lines = omega arith;
  columns = omega arith;
  area = refl;
  on_screen = omega arith;
}

tty_write_example :
    (t' : Tty) × (f' : Display) × (tty_write true 0 hi marked dark ≡ some (t', f'))
    × IsValid t'
    × IsDrawn true t' f'
tty_write_example =
    tty_write-IsDrawn true 0 hi marked dark marked-IsValid marked-Fits (omega arith)
      (λ i lt. inl (omega arith))
