-- ===== src/Video/Tests.antt =====
-- The textures of kernel/src/dev/dev_video.c for a concrete font.
use nju_os_lab.Prelude.{ℕ, ◌+◌, ◌*◌, ◌/◌, ◌%◌, ◌≡◌, refl, arith}
use nju_os_lab.Video.{font_load, white}
use nju_os_lab.Video.Glyphs.{bit, glyph_pixel, font_load-glyph}

-- A font whose bytes count up.
abbrev font : ℕ → ℕ
font i = i % 256

abbrev blank : ℕ → ℕ → ℕ
blank t i = 7

font_load_example :
    font_load font blank (65 * 2 + 1 + 9 / 8) (8 * (9 % 8) + 3) ≡ glyph_pixel font 65 9 3
font_load_example = font_load-glyph font blank 65 9 3 (omega arith) (omega arith) (omega arith)

-- Byte 9 of the glyph is 0x19: columns 3, 4 and 7 are white.
pixels_of_line :
    glyph_pixel font 65 9 3 + glyph_pixel font 65 9 4 + glyph_pixel font 65 9 5 ≡ 2 * white
unfolding bit
pixels_of_line = refl
