-- ===== src/Tty/Output.antt =====
-- `tty_putc` and the loop of `tty_write` of kernel/src/dev/dev_tty.c.
use nju_os_lab.Prelude.{
  ℕ, ◌<◌, ◌≡◌, inl, inr, refl, sym, ap, ◌∙◌, List, [], ◌∷◌, arith, ◌==◌, Bool-cases,
}
use nju_os_lab.Tty.{Tty, tty_putc, put_all}
use nju_os_lab.Tty.Screen.{IsValid, Redraws, Good, put_char-Good, put_backspace-Good}
use nju_os_lab.Tty.Rows.{cr-Good, put_line-Good}

-- A byte keeps the screen valid, and what it changes is marked.
pub tty_putc-Good : (c : ℕ) (t : Tty) → IsValid t → Good t (tty_putc c t)
unfolding tty_putc
tty_putc-Good c t v = elim (Bool-cases (c == b'\r')) [
  | inl cr ↦ rw cr (cr-Good t v)
  | inr a ↦ elim (Bool-cases (c == 8)) [
    | inl back ↦ rw (a, back) (put_backspace-Good t v)
    | inr b ↦ elim (Bool-cases (c == b'\n')) [
      | inl lf ↦ rw (a, b, lf) (put_line-Good t v)
      | inr other ↦ rw (a, b, other) (put_char-Good c t v)
    ]
  ]
]

-- A mark of the first step is kept by the second.
Redraws-trans : (t u w : Tty) → IsValid t → IsValid u → Redraws t u → Redraws u w → Redraws t w
Redraws-trans t u w v v' r q =
    let kept : (i : ℕ) → i < t.size → u.dirty i ≡ 1 → w.dirty i ≡ 1 = λ i lt e.
      elim (q.cells i (omega (arith, r.same_size))) [ inl m ↦ m | inr (_, same) ↦ same ∙ e ] in
    record {
      same_lines = q.same_lines ∙ r.same_lines;
      same_columns = q.same_columns ∙ r.same_columns;
      same_size = q.same_size ∙ r.same_size;
      cells = λ i lt. elim (q.cells i (omega (arith, r.same_size))) [
        | inl m ↦ inl m
        | inr (b, d) ↦ elim (r.cells i lt) [
          | inl m ↦ inl (d ∙ m)
          | inr (b', d') ↦ inr (b ∙ b', d ∙ d')
        ]
      ];
      old = elim r.old [
        | inl m ↦ inl (kept t.cursor v.on_screen m)
        | inr e ↦ elim q.old [ inl m ↦ inl (ap w.dirty (sym e) ∙ m) | inr e' ↦ inr (e' ∙ e) ]
      ];
      new = elim q.new [
        | inl m ↦ inl m
        | inr e ↦ elim r.new [
          | inl m ↦ inl (ap w.dirty e ∙ kept u.cursor (omega (arith, r.same_size, v'.on_screen)) m)
          | inr e' ↦ inr (e ∙ e')
        ]
      ];
    }

pub put_all-Good : (cs : List ℕ) (t : Tty) → IsValid t → Good t (put_all cs t)
unfolding put_all
put_all-Good [] t v = (
  t,
  refl,
  v,
  record {
    same_lines = refl;
    same_columns = refl;
    same_size = refl;
    cells = λ i lt. inr (refl, refl);
    old = inr refl;
    new = inr refl;
  },
)
put_all-Good (c ∷ cs) t v =
    let (u, e, v', r) = tty_putc-Good c t v in
    let (w, f, v'', q) = put_all-Good cs u v' in (w, rw e f, v'', Redraws-trans t u w v v' r q)
