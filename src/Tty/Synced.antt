-- ===== src/Tty/Synced.antt =====
-- `tty_write` of kernel/src/dev/dev_tty.c: the display shows the screen.
use mathlib.Core.Path.{subst}
use nju_os_lab.Prelude.{
  ℕ, ◌+◌, ◌*◌, ◌/◌, ◌%◌, ◌<◌, ◌≡◌, ◌≢◌, ◌⊎◌, inl, inr, sym, ap, ◌∙◌, Bool, ◌&&◌, some, List, All,
  arith, ◌==◌, if◌then◌else◌,
}
use native.Mathlib.Decide.{ℕ_discrete}
use nju_os_lab.Tty.{Character, Tty}
use nju_os_lab.Tty.Screen.{IsValid, Redraws}
use nju_os_lab.Tty.Output.{put_all-Good}
use nju_os_lab.Tty.Draw.{Display, glyph, tty_render, tty_write}
use nju_os_lab.Tty.Drawn.{half, texture_of, Fits}
use nju_os_lab.Tty.Shown.{Shows, tty_render-Shows}
use nju_os_lab.Tty.Bytes.{Bytes, Every, IsByte, put_all-Every}

-- The display shows each cell that is not marked.
abbrev pub InSync : Bool → Tty → Display → Type 0
InSync sc t f = (i : ℕ) → i < t.size → (t.dirty i ≢ 0) ⊎ Shows sc t f i

glyph_eq :
    (sc : Bool) (i a b c d : ℕ)
    → a ≡ b
    → c ≡ d
    → (if (i == a) && sc then 0xdb else c) ≡ (if (i == b) && sc then 0xdb else d)
glyph_eq sc i a b c d e e' = rw (e, e')

glyph_off :
    (sc : Bool) (i a b c d : ℕ)
    → i ≢ a
    → i ≢ b
    → c ≡ d
    → (if (i == a) && sc then 0xdb else c) ≡ (if (i == b) && sc then 0xdb else d)
glyph_off sc i a b c d ne ne' e = ground arith

-- A cell that is not marked shows what it showed.
glyph_same :
    (sc : Bool) (t t' : Tty) (i : ℕ)
    → Redraws t t'
    → t'.buf i ≡ t.buf i
    → (t'.dirty i ≢ 0) ⊎ (glyph sc t' i ≡ glyph sc t i)
glyph_same sc t t' i r same = elim (ℕ_discrete i t.cursor) [
  | yes at ↦ elim r.old [
    | inl m ↦ inl (λ z. absurd (omega (arith, ap t'.dirty at)))
    | inr e ↦ inr (
        glyph_eq sc i t'.cursor t.cursor (t'.buf i).ch (t.buf i).ch e
          (ap (λ (k : Character). k.ch) same))
  ]
  | no off ↦ elim (ℕ_discrete i t'.cursor) [
    | yes at ↦ elim r.new [
      | inl m ↦ inl (λ z. absurd (omega (arith, ap t'.dirty at)))
      | inr e ↦ absurd (off (at ∙ e))
    ]
    | no off' ↦ inr (
        glyph_off sc i t'.cursor t.cursor (t'.buf i).ch (t.buf i).ch off' off
          (ap (λ (k : Character). k.ch) same))
  ]
]

Shows-columns :
    (sc : Bool) (i a b g g' : ℕ) (f : Display)
    → a ≡ b
    → g ≡ g'
    → ((h : Bool) → f (i % b * 8) (i / b * 16 + half h) ≡ texture_of h g')
    → (h : Bool) → f (i % a * 8) (i / a * 16 + half h) ≡ texture_of h g
Shows-columns sc i a b g g' f e e' s h = rw (e, e') (s h)

InSync-kept : (sc : Bool) (t t' : Tty) (f : Display) → Redraws t t' → InSync sc t f → InSync sc t' f
InSync-kept sc t t' f r s i lt = elim (r.cells i (omega (arith, r.same_size))) [
  | inl m ↦ inl (λ z. absurd (omega arith))
  | inr (b, d) ↦ elim (s i (omega (arith, r.same_size))) [
    | inl ne ↦ inl (λ z. ne (sym d ∙ z))
    | inr shows ↦ elim (glyph_same sc t t' i r b) [
      | inl ne ↦ inl ne
      | inr e ↦ inr (
          Shows-columns sc i t'.columns t.columns (glyph sc t' i) (glyph sc t i) f r.same_columns e
            shows)
    ]
  ]
]

-- The display shows every cell of the screen, and no cell is marked.
pub record IsDrawn (sc : Bool) (t : Tty) (f : Display) : Type 0 where
  pub clean : (i : ℕ) → i < t.size → t.dirty i ≡ 0
  pub shows : (i : ℕ) → i < t.size → Shows sc t f i

-- On a valid screen of bytes that fits in the fields of sprites, on the display that is shown, and of which the
-- display shows each cell that is not marked: `tty_write` of any bytes returns, and behind it the
-- screen is valid, the display shows every cell of it, the cursor included, and no cell is marked.
pub tty_write-IsDrawn :
    (sc : Bool) (c : ℕ) (cs : List ℕ) (t : Tty) (f : Display)
    → IsValid t
    → Fits t c
    → All IsByte cs
    → InSync sc t f
    → (t' : Tty) × (f' : Display) × (tty_write sc c cs t f ≡ some (t', f'))
      × IsValid t'
      × IsDrawn sc t' f'
unfolding tty_write tty_render
tty_write-IsDrawn sc c cs t f v fits ok s =
    let (u, e, v', r) = put_all-Good cs t v in
    let b : Bytes c u =
      subst (Every c) e
        (put_all-Every c cs t ok (record { bytes = fits.bytes; display = fits.shown })) in
    let fits' : Fits u c = record {
      shown = b.display;
      few = fits.few;
      width = omega (arith, fits.width, r.same_columns);
      height = omega (arith, fits.height, r.same_lines);
      bytes = b.bytes;
    } in
    let all = tty_render-Shows sc c u f v' fits' (InSync-kept sc t u f r s) in
    let (t', f') = tty_render sc c u f in
    (
      t',
      f',
      rw e,
      record { lines = v'.lines; columns = v'.columns; area = v'.area; on_screen = v'.on_screen },
      record { clean = λ i lt. (all i lt).0; shows = λ i lt. (all i lt).1 },
    )
