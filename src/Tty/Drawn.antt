-- ===== src/Tty/Drawn.antt =====
-- What a display shows behind the sprites of a screen (kernel/src/dev/dev_tty.c).
use nju_os_lab.Prelude.{
  ℕ, zero, suc, ◌+◌, ◌*◌, ◌^◌, ◌≤◌, ◌<◌, ◌≡◌, ◌≢◌, ◌⊎◌, inl, inr, refl, ap, ◌∙◌, Bool, true, false,
  List, [], ◌∷◌, ◌++◌, arith, ◌==◌, if◌then◌else◌, Bool-cases,
}
use nju_os_lab.Tty.{Tty}
use nju_os_lab.Tty.Draw.{
  Sprite, Display, glyph, cell_sprites, row_sprites, draw_sprite, draw_sprites,
}

pub draw_sprites-append :
    (c : ℕ) (xs ys : List Sprite) (f : Display)
    → draw_sprites c (xs ++ ys) f ≡ draw_sprites c ys (draw_sprites c xs f)
unfolding draw_sprites
draw_sprites-append c [] ys f = refl
draw_sprites-append c (x ∷ xs) ys f = draw_sprites-append c xs ys (draw_sprite c x f)

-- The upper and the lower half of a cell.
abbrev pub half : Bool → ℕ
half false = 0
half true = 8

abbrev pub texture_of : Bool → ℕ → ℕ
texture_of false draw = draw * 2 + 1
texture_of true draw = draw * 2 + 2

-- A screen that fits in the fields of sprites, on the display that is shown.
pub record Fits (t : Tty) (current : ℕ) : Type 0 where
  pub shown : t.display ≡ current
  pub few : current < 2 ^ 4
  pub width : t.columns * 8 < 2 ^ 16
  pub height : t.lines * 16 < 2 ^ 16
  pub bytes : (i : ℕ) → (t.buf i).ch < 2 ^ 8

-- What a cell shows when it has been drawn.
abbrev pub drawn : Bool → Tty → (i : ℕ) → (h : Bool) → ℕ → ℕ
drawn sc t i h old = if t.dirty i == 0 then old else texture_of h (glyph sc t i)

glyph-lt : (sc : Bool) (t : Tty) (i : ℕ) → (t.buf i).ch < 2 ^ 8 → glyph sc t i < 2 ^ 8
glyph-lt sc t i lt = ground arith

cell-here :
    (c : ℕ) (sc : Bool) (t : Tty) (x y i : ℕ) (h : Bool) (f : Display)
    → t.display ≡ c
    → c < 2 ^ 4
    → x * 8 < 2 ^ 16
    → y * 16 + 8 < 2 ^ 16
    → (t.buf i).ch < 2 ^ 8
    → draw_sprites c (cell_sprites sc t x y i) f (x * 8) (y * 16 + half h)
      ≡ drawn sc t i h (f (x * 8) (y * 16 + half h))
unfolding draw_sprites
cell-here c sc t x y i false f shown few xs ys byte = elim (Bool-cases (t.dirty i == 0)) [
  | inl clean ↦ rw clean
  | inr dirty ↦ rw dirty (ground (arith, glyph-lt sc t i byte))
]
cell-here c sc t x y i true f shown few xs ys byte = elim (Bool-cases (t.dirty i == 0)) [
  | inl clean ↦ rw clean
  | inr dirty ↦ rw dirty (ground (arith, glyph-lt sc t i byte))
]

cell-elsewhere :
    (c : ℕ) (sc : Bool) (t : Tty) (x y i X Y : ℕ) (f : Display)
    → x * 8 < 2 ^ 16
    → y * 16 + 8 < 2 ^ 16
    → (X ≢ x * 8) ⊎ ((Y < y * 16) ⊎ (y * 16 + 16 ≤ Y))
    → draw_sprites c (cell_sprites sc t x y i) f X Y ≡ f X Y
unfolding draw_sprites
cell-elsewhere c sc t x y i X Y f xs ys o = elim (Bool-cases (t.dirty i == 0)) [
  | inl clean ↦ rw clean
  | inr dirty ↦ rw dirty (elim o [
    | inl ne ↦ ground arith
    | inr ne ↦ elim ne [ inl above ↦ ground arith | inr below ↦ ground arith ]
  ])
]

-- A row changes the display on its own line only, and not in front of its first column.
pub row-elsewhere :
    (n c : ℕ) (sc : Bool) (t : Tty) (x y i X Y : ℕ) (f : Display)
    → (x + n) * 8 < 2 ^ 16
    → y * 16 + 8 < 2 ^ 16
    → (X < x * 8) ⊎ ((Y < y * 16) ⊎ (y * 16 + 16 ≤ Y))
    → draw_sprites c (row_sprites sc t n x y i) f X Y ≡ f X Y
unfolding row_sprites
row-elsewhere zero c sc t x y i X Y f xs ys o = unfold draw_sprites in refl
row-elsewhere (suc n) c sc t x y i X Y f xs ys o =
    let rest = draw_sprites c (cell_sprites sc t x y i) f in
    ap (λ g. g X Y)
      (draw_sprites-append c (cell_sprites sc t x y i) (row_sprites sc t n (x + 1) y (i + 1)) f)
    ∙ row-elsewhere n c sc t (x + 1) y (i + 1) X Y rest (omega arith) ys
        (elim o [ inl l ↦ inl (omega arith) | inr l ↦ inr l ])
    ∙ cell-elsewhere c sc t x y i X Y f (omega arith) ys
        (elim o [ inl l ↦ inl (omega arith) | inr l ↦ inr l ])

pub row-inside :
    (k n c : ℕ) (sc : Bool) (t : Tty) (x y i : ℕ) (h : Bool) (f : Display)
    → t.display ≡ c
    → c < 2 ^ 4
    → (x + n) * 8 < 2 ^ 16
    → y * 16 + 8 < 2 ^ 16
    → (t.buf (i + k)).ch < 2 ^ 8
    → k < n
    → draw_sprites c (row_sprites sc t n x y i) f ((x + k) * 8) (y * 16 + half h)
      ≡ drawn sc t (i + k) h (f ((x + k) * 8) (y * 16 + half h))
unfolding row_sprites
row-inside k zero c sc t x y i h f shown few xs ys byte lt = absurd (omega arith)
row-inside zero (suc n) c sc t x y i h f shown few xs ys byte lt =
    let rest = draw_sprites c (cell_sprites sc t x y i) f in
    let x0 : x + 0 ≡ x = omega arith in
    let i0 : i + 0 ≡ i = omega arith in
    rw (x0, i0)
      (ap (λ g. g (x * 8) (y * 16 + half h))
          (draw_sprites-append c (cell_sprites sc t x y i) (row_sprites sc t n (x + 1) y (i + 1)) f)
        ∙ row-elsewhere n c sc t (x + 1) y (i + 1) (x * 8) (y * 16 + half h) rest (omega arith) ys
            (inl (omega arith))
        ∙ cell-here c sc t x y i h f shown few (omega arith) ys (rw i0 at byte))
row-inside (suc k) (suc n) c sc t x y i h f shown few xs ys byte lt =
    let rest = draw_sprites c (cell_sprites sc t x y i) f in
    let xk : x + 1 + k ≡ x + suc k = omega arith in
    let ik : i + 1 + k ≡ i + suc k = omega arith in
    ap (λ g. g ((x + suc k) * 8) (y * 16 + half h))
      (draw_sprites-append c (cell_sprites sc t x y i) (row_sprites sc t n (x + 1) y (i + 1)) f)
    ∙ (rw (xk, ik) at
        (row-inside k n c sc t (x + 1) y (i + 1) h rest shown few (omega arith) ys (rw ik byte)
          (omega arith)))
    ∙ ap (drawn sc t (i + suc k) h) (
        cell-elsewhere c sc t x y i ((x + suc k) * 8) (y * 16 + half h) f (omega arith) ys
          (inl (λ e. absurd (omega arith))))
