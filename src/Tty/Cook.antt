-- ===== src/Tty/Cook.antt =====
-- `tty_cook` of kernel/src/dev/dev_tty.c: bytes and backspaces.
use nju_os_lab.Prelude.{
  ℕ, ◌+◌, ◌-◌, ◌<◌, ◌≡◌, ◌≢◌, refl, ◌∙◌, ap, false, some, arith, ◌==◌, if◌then◌else◌, update,
}
use nju_os_lab.Tty.Queue.{
  Queue, tty_pop_back, tty_cook, place, Holds, place_apart, tty_enqueue-Holds,
}

-- The byte in front of the end.
last_place :
    (q : Queue) (n : ℕ)
    → q.front < q.end
    → n + 1 < q.end
    → (if place q (n + 1) == 0 then q.end else place q (n + 1)) - 1 ≡ place q n
last_place q n f lt = ground arith

write_other : (f : ℕ → ℕ) (a k x : ℕ) → k ≢ a → update f a x k ≡ f k
write_other f a k x ne = ground arith

tty_pop_back-Holds :
    (q : Queue) (n : ℕ) (c : ℕ → ℕ)
    → Holds q (n + 1) c
    → c n ≢ 0
    → (q' : Queue) × (tty_pop_back q ≡ (0, q')) × Holds q' n c
unfolding tty_pop_back
tty_pop_back-Holds q n c h ne =
    let at : (if q.rear == 0 then q.end else q.rear) - 1 ≡ place q n =
      ap (λ r. (if r == 0 then q.end else r) - 1) h.rear ∙ last_place q n h.front h.fits in
    let started : (q.front == q.end) ≡ false = ground (arith, h.front) in
    let full : (q.bytes (place q n) == 0) ≡ false = ground (arith, h.bytes n (omega arith)) in
    (
      record q { bytes = update q.bytes (place q n) 0; rear = place q n },
      rw (at, started, full),
      record {
        front = h.front;
        fits = omega (arith, h.fits);
        rear = refl;
        bytes = λ i lt.
            write_other q.bytes (place q n) (place q i) 0
              (place_apart q i n h.front lt (omega (arith, h.fits)))
            ∙ h.bytes i (omega arith);
      },
    )

-- With room in the queue, `tty_cook` of a byte that is no backspace, line feed or 0 puts it behind the
-- bytes of the queue, and `tty_cook` of a backspace then takes it out again: the queue holds what it held
-- before. Both calls return 0 and signal nothing.
pub tty_cook-undo :
    (x : ℕ) (q : Queue) (n : ℕ) (c : ℕ → ℕ)
    → x ≢ 0
    → x ≢ 8
    → x ≢ b'\n'
    → Holds q n c
    → n + 1 < q.end
    → (q' q'' : Queue) × (tty_cook x q ≡ some (0, q', 0))
      × Holds q' (n + 1) (update c n x)
      × (tty_cook 8 q' ≡ some (0, q'', 0))
      × Holds q'' n c
unfolding tty_cook
tty_cook-undo x q n c nz nb nl h room =
    let (q', e, same, h') = tty_enqueue-Holds x q n c h room in
    let new : update c n x n ≢ 0 = ground arith in
    let (q'', e', h'') = tty_pop_back-Holds q' n (update c n x) h' new in
    let not_line : (x == b'\n') ≡ false = ground arith in
    let not_back : (x == 8) ≡ false = ground arith in
    (
      q',
      q'',
      rw (not_line, not_back, e),
      h',
      rw e',
      record {
        front = h''.front;
        fits = h''.fits;
        rear = h''.rear;
        bytes = λ i lt. h''.bytes i lt ∙ write_other c n i x (ground arith);
      },
    )
