-- ===== src/Video/Glyphs.antt =====
-- What `font_load` of kernel/src/dev/dev_video.c makes of the font.
use native.Mathlib.Nat.{pow-suc, div-div-eq-div-mul}
use nju_os_lab.Prelude.{
  ℕ, zero, suc, ◌+◌, ◌-◌, ◌*◌, ◌/◌, ◌%◌, ◌^◌, ◌≤◌, ◌<◌, ◌≡◌, ◌⊎◌, inl, inr, Bool, true, false, refl,
  sym, ap, ◌∙◌, arith, ◌==◌, if◌then◌else◌, update,
}
use nju_os_lab.Video.{
  texture_w, texture_h, white, black, colour, fill_line, fill_lines, texture_fill, load_char,
  load_chars, font_load,
}

fill_line-other :
    (n x px b fg bg : ℕ) (m : ℕ → ℕ) (q : ℕ)
    → (q < px) ⊎ (px + n ≤ q)
    → fill_line n x px b fg bg m q ≡ m q
unfolding fill_line
fill_line-other zero x px b fg bg m q out = refl
fill_line-other (suc n) x px b fg bg m q out =
    ground (arith, fill_line-other n (x + 1) (px + 1) b fg bg (update m px (colour b x fg bg)) q)

fill_line-inside :
    (n x px b fg bg : ℕ) (m : ℕ → ℕ) (k : ℕ)
    → k < n
    → fill_line n x px b fg bg m (px + k) ≡ colour b (x + k) fg bg
unfolding fill_line
fill_line-inside zero x px b fg bg m k lt = absurd (omega arith)
fill_line-inside (suc n) x px b fg bg m zero lt =
    let written : update m px (colour b x fg bg) px ≡ colour b x fg bg = ground arith in
    ap (fill_line n (x + 1) (px + 1) b fg bg (update m px (colour b x fg bg))) (omega arith)
    ∙ fill_line-other n (x + 1) (px + 1) b fg bg (update m px (colour b x fg bg)) px
        (inl (omega arith))
    ∙ written
    ∙ ap (λ x. colour b x fg bg) (omega arith)
fill_line-inside (suc n) x px b fg bg m (suc k) lt =
    ap (fill_line n (x + 1) (px + 1) b fg bg (update m px (colour b x fg bg))) (omega arith)
    ∙ fill_line-inside n (x + 1) (px + 1) b fg bg (update m px (colour b x fg bg)) k (omega arith)
    ∙ ap (λ x. colour b x fg bg) (omega arith)

module _ (top : Bool) (bits : ℕ → ℕ) (fg bg : ℕ) where
  -- The byte of a line.
  abbrev line : ℕ → ℕ
  line y = if top then bits (y + texture_h) else bits y

  fill_lines-other :
      (n y px : ℕ) (m : ℕ → ℕ) (q : ℕ) → q < px → fill_lines n y px top bits fg bg m q ≡ m q
  unfolding fill_lines
  fill_lines-other zero y px m q lt = refl
  fill_lines-other (suc n) y px m q lt =
      fill_lines-other n (y + 1) (px + texture_w) (fill_line texture_w 0 px (line y) fg bg m) q
        (omega arith)
      ∙ fill_line-other texture_w 0 px (line y) fg bg m q (inl lt)

  fill_lines-inside :
      (n y px : ℕ) (m : ℕ → ℕ) (i x : ℕ)
      → i < n
      → x < 8
      → fill_lines n y px top bits fg bg m (px + 8 * i + x) ≡ colour (line (y + i)) x fg bg
  unfolding fill_lines
  fill_lines-inside zero y px m i x lt lx = absurd (omega arith)
  fill_lines-inside (suc n) y px m zero x lt lx =
      let m' = fill_line texture_w 0 px (line y) fg bg m in
      ap (fill_lines n (y + 1) (px + texture_w) top bits fg bg m') (omega arith)
      ∙ fill_lines-other n (y + 1) (px + texture_w) m' (px + x) (omega arith)
      ∙ fill_line-inside texture_w 0 px (line y) fg bg m x lx
      ∙ ap (λ x. colour (line y) x fg bg) (omega arith)
      ∙ ap (λ y. colour (line y) x fg bg) (omega arith)
  fill_lines-inside (suc n) y px m (suc i) x lt lx =
      let m' = fill_line texture_w 0 px (line y) fg bg m in
      ap (fill_lines n (y + 1) (px + texture_w) top bits fg bg m') (omega arith)
      ∙ fill_lines-inside n (y + 1) (px + texture_w) m' i x (omega arith) lx
      ∙ ap (λ y. colour (line y) x fg bg) (omega arith)

  texture_fill-pixel :
      (m : ℕ → ℕ) (y x : ℕ)
      → y < 8
      → x < 8
      → texture_fill top bits fg bg m (8 * y + x) ≡ colour (line y) x fg bg
  unfolding texture_fill
  texture_fill-pixel m y x ly lx =
      ap (fill_lines texture_h 0 0 top bits fg bg m) (omega arith)
      ∙ fill_lines-inside texture_h 0 0 m y x ly lx
      ∙ ap (λ y. colour (line y) x fg bg) (omega arith)

-- Bit `k` of a number, from the lowest one on.
unfoldable pub bit : (k n : ℕ) → ℕ
bit zero n = n % 2
bit (suc k) n = bit k (n / 2)

bit-div : (k n : ℕ) → n / 2 ^ k % 2 ≡ bit k n
unfolding bit
bit-div zero n = omega arith
bit-div (suc k) n =
    ap (λ q. q % 2)
      (ap (λ d. n / d) (omega (arith, pow-suc 2 k)) ∙ sym (div-div-eq-div-mul n 2 (2 ^ k)))
    ∙ bit-div k (n / 2)

-- The pixel of the character `ch` in line `y` of sixteen, and column `x`.
abbrev pub glyph_pixel : (font : ℕ → ℕ) → (ch y x : ℕ) → ℕ
glyph_pixel font ch y x = if bit (7 - x) (font (16 * ch + y)) == 1 then 0xeeeeee else 0

colour-pixel :
    (font : ℕ → ℕ) (ch y x : ℕ)
    → colour (font (16 * ch + y)) x white black ≡ glyph_pixel font ch y x
colour-pixel font ch y x =
    ap (λ b. if b == 1 then white else black) (bit-div (7 - x) (font (16 * ch + y)))

load_char-other :
    (ch : ℕ) (font : ℕ → ℕ) (textures : ℕ → ℕ → ℕ) (t : ℕ)
    → (t < ch * 2 + 1) ⊎ (ch * 2 + 2 < t)
    → load_char ch font textures t ≡ textures t
unfolding load_char
load_char-other ch font textures t out =
    let a : (ch * 2 + 2 == t) ≡ false = ground arith in
    let b : (ch * 2 + 1 == t) ≡ false = ground arith in rw (a, b)

load_char-upper :
    (ch : ℕ) (font : ℕ → ℕ) (textures : ℕ → ℕ → ℕ) (y x : ℕ)
    → y < 8
    → x < 8
    → load_char ch font textures (ch * 2 + 1) (8 * y + x) ≡ glyph_pixel font ch y x
unfolding load_char
load_char-upper ch font textures y x ly lx =
    let a : (ch * 2 + 2 == ch * 2 + 1) ≡ false = ground arith in
    let b : (ch * 2 + 1 == ch * 2 + 1) ≡ true = ground arith in
    rw (a, b)
      (texture_fill-pixel false (λ i. font (16 * ch + i)) white black (textures (ch * 2 + 1)) y x ly
          lx
        ∙ colour-pixel font ch y x)

load_char-lower :
    (ch : ℕ) (font : ℕ → ℕ) (textures : ℕ → ℕ → ℕ) (y x : ℕ)
    → y < 8
    → x < 8
    → load_char ch font textures (ch * 2 + 2) (8 * y + x) ≡ glyph_pixel font ch (y + 8) x
unfolding load_char
load_char-lower ch font textures y x ly lx =
    let a : (ch * 2 + 2 == ch * 2 + 2) ≡ true = ground arith in
    rw a (
      texture_fill-pixel true (λ i. font (16 * ch + i)) white black _ y x ly lx
      ∙ ap (λ i. colour (font i) x white black) (omega arith)
      ∙ colour-pixel font ch (y + 8) x)

-- Both textures of a character.
load_char-glyph :
    (ch : ℕ) (font : ℕ → ℕ) (textures : ℕ → ℕ → ℕ) (y x : ℕ)
    → y < 16
    → x < 8
    → load_char ch font textures (ch * 2 + 1 + y / 8) (8 * (y % 8) + x) ≡ glyph_pixel font ch y x
load_char-glyph ch font textures y x ly lx = elim (half y) [
  | inl lt ↦
      ap (λ t. load_char ch font textures t (8 * (y % 8) + x)) (omega arith)
      ∙ ap (λ y. load_char ch font textures (ch * 2 + 1) (8 * y + x)) (omega arith)
      ∙ load_char-upper ch font textures y x lt lx
  | inr le ↦
      ap (λ t. load_char ch font textures t (8 * (y % 8) + x)) (omega arith)
      ∙ load_char-lower ch font textures (y % 8) x (omega arith) lx
      ∙ ap (λ y. glyph_pixel font ch y x) (omega arith)
]
  where
    half : (y : ℕ) → (y < 8) ⊎ (8 ≤ y)
    half y = ground arith

load_chars-other :
    (n ch : ℕ) (font : ℕ → ℕ) (textures : ℕ → ℕ → ℕ) (t : ℕ)
    → t < ch * 2 + 1
    → load_chars n ch font textures t ≡ textures t
unfolding load_chars
load_chars-other zero ch font textures t lt = refl
load_chars-other (suc n) ch font textures t lt =
    load_chars-other n (ch + 1) font (load_char ch font textures) t (omega arith)
    ∙ load_char-other ch font textures t (inl lt)

load_chars-glyph :
    (n ch : ℕ) (font : ℕ → ℕ) (textures : ℕ → ℕ → ℕ) (k y x : ℕ)
    → k < n
    → y < 16
    → x < 8
    → load_chars n ch font textures ((ch + k) * 2 + 1 + y / 8) (8 * (y % 8) + x)
      ≡ glyph_pixel font (ch + k) y x
unfolding load_chars
load_chars-glyph zero ch font textures k y x lt ly lx = absurd (omega arith)
load_chars-glyph (suc n) ch font textures zero y x lt ly lx =
    let pixel = 8 * (y % 8) + x in
    let loaded = load_char ch font textures in
    ap (λ t. load_chars n (ch + 1) font loaded t pixel) (omega arith)
    ∙ ap (λ f. f pixel) (load_chars-other n (ch + 1) font loaded (ch * 2 + 1 + y / 8) (omega arith))
    ∙ load_char-glyph ch font textures y x ly lx
    ∙ ap (λ c. glyph_pixel font c y x) (omega arith)
load_chars-glyph (suc n) ch font textures (suc k) y x lt ly lx =
    let pixel = 8 * (y % 8) + x in
    let loaded = load_char ch font textures in
    ap (λ t. load_chars n (ch + 1) font loaded t pixel) (omega arith)
    ∙ load_chars-glyph n (ch + 1) font loaded k y x (omega arith) ly lx
    ∙ ap (λ c. glyph_pixel font c y x) (omega arith)

-- After `font_load`, textures `ch * 2 + 1` and `ch * 2 + 2`, one above the other, are the glyph of the character
-- `ch`: the pixel in line `y` and column `x` is white if bit `7 - x` of byte `y` of the glyph is set,
-- and black if not.
pub font_load-glyph :
    (font : ℕ → ℕ) (textures : ℕ → ℕ → ℕ) (ch y x : ℕ)
    → ch < 256
    → y < 16
    → x < 8
    → font_load font textures (ch * 2 + 1 + y / 8) (8 * (y % 8) + x) ≡ glyph_pixel font ch y x
unfolding font_load
font_load-glyph font textures ch y x lc ly lx =
    ap (λ c. load_chars 256 0 font textures (c * 2 + 1 + y / 8) (8 * (y % 8) + x)) (omega arith)
    ∙ load_chars-glyph 256 0 font textures ch y x lc ly lx
    ∙ ap (λ c. glyph_pixel font c y x) (omega arith)
