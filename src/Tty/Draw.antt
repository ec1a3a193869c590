-- ===== src/Tty/Draw.antt =====
-- `tty_render` and `tty_write` of kernel/src/dev/dev_tty.c, and the loop over sprites of `fb_write` in
-- kernel/src/dev/dev_video.c. What a display shows is the texture at each place.
use nju_os_lab.Prelude.{
  ℕ, zero, suc, ◌+◌, ◌*◌, ◌%◌, ◌^◌, Bool, ◌&&◌, Option, some, List, [], ◌∷◌, ◌++◌, ltb, ◌==◌,
  if◌then◌else◌,
}
use nju_os_lab.Tty.{Tty, ◌>>=◌, put_all}

-- `struct sprite`
pub record Sprite : Type 0 where
  pub texture : ℕ
  pub x : ℕ
  pub y : ℕ
  pub display : ℕ
  pub z : ℕ

abbrev pub Display : Type 0
Display = ℕ → ℕ → ℕ

-- What stands for a cell: the cursor, or its character.
abbrev pub glyph : (show_cursor : Bool) → Tty → ℕ → ℕ
glyph show_cursor t i = if (i == t.cursor) && show_cursor then 0xdb else (t.buf i).ch

-- The sprites of the cell `i` at column `x` and line `y`; fields have 16 and 4 bits.
abbrev pub cell_sprites : Bool → Tty → (x y i : ℕ) → List Sprite
cell_sprites show_cursor t x y i =
    let draw = glyph show_cursor t i in
    if t.dirty i == 0
    then []
    else record {
      texture = (draw * 2 + 1) % 2 ^ 16;
      x = x * 8 % 2 ^ 16;
      y = y * 16 % 2 ^ 16;
      display = t.display % 2 ^ 4;
      z = 0;
    }
      ∷ record {
        texture = (draw * 2 + 2) % 2 ^ 16;
        x = x * 8 % 2 ^ 16;
        y = (y * 16 + 8) % 2 ^ 16;
        display = t.display % 2 ^ 4;
        z = 0;
      }
      ∷ []

-- The loops of `tty_render` over the columns and over the lines, with the rounds left.
unfoldable pub row_sprites : Bool → Tty → (n x y i : ℕ) → List Sprite
row_sprites show_cursor t zero x y i = []
row_sprites show_cursor t (suc n) x y i =
    cell_sprites show_cursor t x y i ++ row_sprites show_cursor t n (x + 1) y (i + 1)

unfoldable pub all_sprites : Bool → Tty → (n y i : ℕ) → List Sprite
all_sprites show_cursor t zero y i = []
all_sprites show_cursor t (suc n) y i =
    row_sprites show_cursor t t.columns 0 y i ++ all_sprites show_cursor t n (y + 1) (i + t.columns)

-- One round of the loop of `fb_write`.
abbrev pub draw_sprite : (current : ℕ) → Sprite → Display → Display
draw_sprite current sp f x y =
    if ltb 0 sp.texture && (sp.display == current) && (x == sp.x) && (y == sp.y)
    then sp.texture
    else f x y

-- The loop of `fb_write`.
unfoldable pub draw_sprites : (current : ℕ) → List Sprite → Display → Display
draw_sprites current [] f = f
draw_sprites current (sp ∷ sps) f = draw_sprites current sps (draw_sprite current sp f)

-- `tty_render`: the terminal, and what the display shows.
unfoldable pub tty_render : (show_cursor : Bool) (current : ℕ) → Tty → Display → Tty × Display
tty_render show_cursor current t f = (
  record t { dirty = λ i. if ltb i t.size then 0 else t.dirty i },
  draw_sprites current (all_sprites show_cursor t t.lines 0 0) f,
)

-- `tty_write`
unfoldable pub tty_write :
    (show_cursor : Bool) (current : ℕ) → List ℕ → Tty → Display → Option (Tty × Display)
tty_write show_cursor current cs t f = do
  t' ← put_all cs t
  some (tty_render show_cursor current t' f)
