-- ===== src/Video.antt =====
-- `texture_fill` and `font_load` of kernel/src/dev/dev_video.c: the textures of the characters. A texture is
-- the colours of its pixels by their index, the font is its bytes. The loop of `fb_write` over sprites
-- is in Tty/Draw.antt.
pub mod Glyphs
mod Tests
use nju_os_lab.Prelude.{
  ℕ, zero, suc, ◌+◌, ◌-◌, ◌*◌, ◌/◌, ◌%◌, ◌^◌, Bool, true, false, ◌==◌, if◌then◌else◌, update,
}

-- `TEXTURE_W`, `TEXTURE_H`
abbrev pub texture_w : ℕ
texture_w = 8

abbrev pub texture_h : ℕ
texture_h = 8

-- The two colours of the font.
abbrev pub white : ℕ
white = 0xeeeeee

abbrev pub black : ℕ
black = 0

-- The colour of column `x`, by the bits of a line.
abbrev pub colour : (bitmask x fg bg : ℕ) → ℕ
colour bitmask x fg bg = if bitmask / 2 ^ (7 - x) % 2 == 1 then fg else bg

-- The loops of `texture_fill` over the columns and over the lines, with the rounds left; `px` counts up.
unfoldable pub fill_line : (n x px bitmask fg bg : ℕ) → (ℕ → ℕ) → ℕ → ℕ
fill_line zero x px bitmask fg bg m = m
fill_line (suc n) x px bitmask fg bg m =
    fill_line n (x + 1) (px + 1) bitmask fg bg (update m px (colour bitmask x fg bg))

unfoldable pub fill_lines :
    (n y px : ℕ) → (top : Bool) → (bits : ℕ → ℕ) → (fg bg : ℕ) → (ℕ → ℕ) → ℕ → ℕ
fill_lines zero y px top bits fg bg m = m
fill_lines (suc n) y px top bits fg bg m =
    let bitmask = if top then bits (y + texture_h) else bits y in
    fill_lines n (y + 1) (px + texture_w) top bits fg bg (fill_line texture_w 0 px bitmask fg bg m)

-- `texture_fill`
unfoldable pub texture_fill : (top : Bool) → (bits : ℕ → ℕ) → (fg bg : ℕ) → (ℕ → ℕ) → ℕ → ℕ
texture_fill top bits fg bg m = fill_lines texture_h 0 0 top bits fg bg m

-- One round of `font_load`: two textures of the character `ch`.
unfoldable pub load_char : (ch : ℕ) → (font : ℕ → ℕ) → (ℕ → ℕ → ℕ) → ℕ → ℕ → ℕ
load_char ch font textures =
    let bits : ℕ → ℕ = λ i. font (16 * ch + i) in
    let upper =
      update textures (ch * 2 + 1) (texture_fill false bits white black (textures (ch * 2 + 1))) in
    update upper (ch * 2 + 2) (texture_fill true bits white black (upper (ch * 2 + 2)))

-- The loop of `font_load`, with the rounds left.
unfoldable pub load_chars : (n ch : ℕ) → (font : ℕ → ℕ) → (ℕ → ℕ → ℕ) → ℕ → ℕ → ℕ
load_chars zero ch font textures = textures
load_chars (suc n) ch font textures = load_chars n (ch + 1) font (load_char ch font textures)

-- `font_load`
unfoldable pub font_load : (font : ℕ → ℕ) → (ℕ → ℕ → ℕ) → ℕ → ℕ → ℕ
font_load font textures = load_chars 256 0 font textures
