-- ===== src/Tty/Shown.antt =====
-- `tty_render` of kernel/src/dev/dev_tty.c on a whole screen.
use native.Mathlib.Nat.{suc-mul, div-add-mod', mod-lt}
use nju_os_lab.Prelude.{
  ℕ, zero, suc, ◌+◌, ◌*◌, ◌/◌, ◌%◌, ◌^◌, ◌<◌, ◌≡◌, ◌≢◌, ◌⊎◌, inl, inr, refl, ap, ◌∙◌, Bool, true,
  false, arith, ◌==◌, Bool-cases,
}
use nju_os_lab.Tty.{Tty}
use nju_os_lab.Tty.Screen.{IsValid}
use nju_os_lab.Tty.Rows.{row_lt}
use nju_os_lab.Tty.Draw.{Display, glyph, row_sprites, all_sprites, draw_sprites, tty_render}
use nju_os_lab.Tty.Drawn.{
  half, texture_of, drawn, Fits, draw_sprites-append, row-elsewhere, row-inside,
}

half-lt : (h : Bool) (y : ℕ) → y * 16 + half h < (y + 1) * 16
half-lt true y = omega arith
half-lt false y = omega arith

all-above :
    (n c : ℕ) (sc : Bool) (t : Tty) (y i X Y : ℕ) (f : Display)
    → t.columns * 8 < 2 ^ 16
    → (y + n) * 16 < 2 ^ 16
    → Y < y * 16
    → draw_sprites c (all_sprites sc t n y i) f X Y ≡ f X Y
unfolding all_sprites
all-above zero c sc t y i X Y f xs ys lt = unfold draw_sprites in refl
all-above (suc n) c sc t y i X Y f xs ys lt =
    ap (λ g. g X Y)
      (draw_sprites-append c (row_sprites sc t t.columns 0 y i)
        (all_sprites sc t n (y + 1) (i + t.columns)) f)
    ∙ all-above n c sc t (y + 1) (i + t.columns) X Y
        (draw_sprites c (row_sprites sc t t.columns 0 y i) f) xs (omega arith) (omega arith)
    ∙ row-elsewhere t.columns c sc t 0 y i X Y f (omega arith) (omega arith) (inr (inl lt))

all-inside :
    (q k n c : ℕ) (sc : Bool) (t : Tty) (y i : ℕ) (h : Bool) (f : Display)
    → Fits t c
    → (y + n) * 16 < 2 ^ 16
    → k < t.columns
    → q < n
    → draw_sprites c (all_sprites sc t n y i) f (k * 8) ((y + q) * 16 + half h)
      ≡ drawn sc t (i + q * t.columns + k) h (f (k * 8) ((y + q) * 16 + half h))
unfolding all_sprites
all-inside q k zero c sc t y i h f fits ys lt row = absurd (omega arith)
all-inside zero k (suc n) c sc t y i h f fits ys lt row =
    let y0 : y + 0 ≡ y = omega arith in
    let i0 : i + 0 * t.columns + k ≡ i + k = omega arith in
    let k0 : 0 + k ≡ k = omega arith in
    rw (y0, i0)
      (ap (λ g. g (k * 8) (y * 16 + half h))
          (draw_sprites-append c (row_sprites sc t t.columns 0 y i)
            (all_sprites sc t n (y + 1) (i + t.columns)) f)
        ∙ all-above n c sc t (y + 1) (i + t.columns) (k * 8) (y * 16 + half h)
            (draw_sprites c (row_sprites sc t t.columns 0 y i) f) fits.width (omega arith)
            (half-lt h y)
        ∙ (rw k0 at (
            row-inside k t.columns c sc t 0 y i h f fits.shown fits.few (omega (arith, fits.width))
              (omega arith) (fits.bytes (i + k)) lt)))
all-inside (suc q) k (suc n) c sc t y i h f fits ys lt row =
    let yq : y + 1 + q ≡ y + suc q = omega arith in
    let iq : i + t.columns + q * t.columns + k ≡ i + suc q * t.columns + k =
      omega (arith, suc-mul q t.columns) in
    ap (λ g. g (k * 8) ((y + suc q) * 16 + half h))
      (draw_sprites-append c (row_sprites sc t t.columns 0 y i)
        (all_sprites sc t n (y + 1) (i + t.columns)) f)
    ∙ (rw (yq, iq) at
        (all-inside q k n c sc t (y + 1) (i + t.columns) h
          (draw_sprites c (row_sprites sc t t.columns 0 y i) f) fits (omega arith) lt
          (omega arith)))
    ∙ ap (drawn sc t (i + suc q * t.columns + k) h) (
        row-elsewhere t.columns c sc t 0 y i (k * 8) ((y + suc q) * 16 + half h) f
          (omega (arith, fits.width)) (omega arith) (inr (inr (omega arith))))

-- Both halves of the cell `i` show its glyph.
abbrev pub Shows : Bool → Tty → Display → ℕ → Type 0
Shows sc t f i =
    (h : Bool) → f (i % t.columns * 8) (i / t.columns * 16 + half h) ≡ texture_of h (glyph sc t i)

drawn-texture :
    (sc : Bool) (t : Tty) (i : ℕ) (h : Bool) (old : ℕ)
    → (t.dirty i ≢ 0) ⊎ (old ≡ texture_of h (glyph sc t i))
    → drawn sc t i h old ≡ texture_of h (glyph sc t i)
drawn-texture sc t i h old o = elim (Bool-cases (t.dirty i == 0)) [
  | inl clean ↦ rw clean (elim o [ inl ne ↦ absurd (ground (arith, ne)) | inr e ↦ e ])
  | inr dirty ↦ rw dirty
]

-- On a valid screen of bytes that fits in the fields of sprites, on the display that is shown: if the display
-- shows each cell that is not marked, then behind `tty_render` it shows every cell, the cursor
-- included, and no cell is marked.
pub tty_render-Shows :
    (sc : Bool) (c : ℕ) (t : Tty) (f : Display)
    → IsValid t
    → Fits t c
    → ((i : ℕ) → i < t.size → (t.dirty i ≢ 0) ⊎ Shows sc t f i)
    → (i : ℕ) → i < t.size
    → ((tty_render sc c t f).0.dirty i ≡ 0) × Shows sc t (tty_render sc c t f).1 i
unfolding tty_render
tty_render-Shows sc c t f v fits old i lt = (
  ground arith,
  λ h.
      let q = i / t.columns in
      let k = i % t.columns in
      let at : 0 + q * t.columns + k ≡ i = omega (arith, div-add-mod' i t.columns) in
      let y0 : 0 + q ≡ q = omega arith in
      (rw (y0, at) at
        (all-inside q k t.lines c sc t 0 0 h f fits (omega (arith, fits.height))
          (mod-lt i (omega (arith, v.columns)))
          (row_lt i t.columns t.lines (omega (arith, v.columns)) (omega (arith, v.area)))))
      ∙ drawn-texture sc t i h (f (k * 8) (q * 16 + half h))
          (elim (old i lt) [ inl ne ↦ inl ne | inr shows ↦ inr (shows h) ]),
)
