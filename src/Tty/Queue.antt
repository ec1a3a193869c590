-- ===== src/Tty/Queue.antt =====
-- The line queue of kernel/src/dev/dev_tty.c: `tty_cook` puts what is typed at its end, and `tty_read` takes
-- a line from its front. A pointer into the buffer is an index, so that `buf` is 0 and `end` its size.
-- `none` is the panic of a full queue, or more rounds than the fuel.
use native.Mathlib.Decide.{ℕ_discrete}
use nju_os_lab.Prelude.{
  ℕ, zero, suc, ◌+◌, ◌-◌, ◌<◌, ◌≡◌, ◌≢◌, refl, ◌∙◌, ap, true, false, not, ◌&&◌, Option, none, some,
  List, [], ◌∷◌, arith, ltb, ◌==◌, if◌then◌else◌, update,
}
use nju_os_lab.Tty.{◌>>=◌}

-- `struct tty_queue`, with the contents of its buffer
pub record Queue : Type 0 where
  pub bytes : ℕ → ℕ
  pub end : ℕ
  pub front : ℕ
  pub rear : ℕ

-- A pointer moves on by one byte.
abbrev pub following : Queue → ℕ → ℕ
following q i = if i + 1 == q.end then 0 else i + 1

-- `tty_enqueue`
unfoldable pub tty_enqueue : ℕ → Queue → Option Queue
tty_enqueue ch q =
    let rear = following q q.rear in
    if rear == q.front
    then none
    else some (record q { bytes = update (update q.bytes q.rear ch) rear 0; rear = rear })

-- `tty_pop_back`: what it returns, and the queue.
unfoldable pub tty_pop_back : Queue → ℕ × Queue
tty_pop_back q =
    let pos = if q.rear == 0 then q.end else q.rear in
    if q.front == q.end
    then (1, q)
    else if q.bytes (pos - 1) == 0
    then (1, q)
    else (0, record q { bytes = update q.bytes (pos - 1) 0; rear = pos - 1 })

-- `tty_cook` for the end of a line: what it returns, the queue, and how often it signals `cooked`.
unfoldable pub cook_line : Queue → Option (ℕ × Queue × ℕ)
cook_line q = do q' ← tty_enqueue b'\n' q; q'' ← tty_enqueue 0 q'; some (0, q'', 1)

-- `tty_cook`
unfoldable pub tty_cook : ℕ → Queue → Option (ℕ × Queue × ℕ)
tty_cook ch q =
    let (ret, popped) = tty_pop_back q in
    if ch == b'\n'
    then cook_line q
    else if ch == 8
    then some (ret, popped, 0)
    else (tty_enqueue ch q >>= λ q'. some (0, q', 0))

abbrev pub put_byte : ℕ → Option (List ℕ × Queue) → Option (List ℕ × Queue)
put_byte ch none = none
put_byte ch (some (bytes, q)) = some (ch ∷ bytes, q)

-- The loop of `tty_read`, with room for `count` bytes: the bytes for the caller, and the queue.
unfoldable pub read_loop : (fuel count : ℕ) → Queue → Option (List ℕ × Queue)
read_loop zero count q = none
read_loop (suc fuel) count q =
    let ch = q.bytes q.front in
    let takes = ltb 0 count && not (ch == 0) in
    let q' = record q { front = following q q.front } in
    let rest = read_loop fuel (if takes then count - 1 else count) q' in
    if ch == 0 then some ([], q') else if takes then put_byte ch rest else rest

-- The place of the byte `i` of a queue.
abbrev pub place : Queue → ℕ → ℕ
place q i = if ltb (q.front + i) q.end then q.front + i else q.front + i - q.end

-- The queue holds the first `n` bytes of `c`.
pub record Holds (q : Queue) (n : ℕ) (c : ℕ → ℕ) : Type 0 where
  pub front : q.front < q.end
  pub fits : n < q.end
  pub rear : q.rear ≡ place q n
  pub bytes : (i : ℕ) → i < n → q.bytes (place q i) ≡ c i

pub following-place :
    (q : Queue) (i : ℕ) → q.front < q.end → i < q.end → following q (place q i) ≡ place q (i + 1)
following-place q i f lt = ground arith

pub place_apart :
    (q : Queue) (i j : ℕ) → q.front < q.end → i < j → j < q.end → place q i ≢ place q j
place_apart q i j f lt le = ground arith

-- Two writes: at the second place, at the first, and elsewhere.
write_first : (f : ℕ → ℕ) (a b k x y : ℕ) → a ≡ k → k ≢ b → update (update f a x) b y k ≡ x
write_first f a b k x y e ne = ground arith

write_elsewhere : (f : ℕ → ℕ) (a b k x y : ℕ) → k ≢ a → k ≢ b → update (update f a x) b y k ≡ f k
write_elsewhere f a b k x y ne ne' = ground arith

pub tty_enqueue-Holds :
    (ch : ℕ) (q : Queue) (n : ℕ) (c : ℕ → ℕ)
    → Holds q n c
    → n + 1 < q.end
    → (q' : Queue) × (tty_enqueue ch q ≡ some q')
      × (q'.end ≡ q.end)
      × Holds q' (n + 1) (update c n ch)
unfolding tty_enqueue
tty_enqueue-Holds ch q n c h room =
    let next : following q q.rear ≡ place q (n + 1) =
      ap (following q) h.rear ∙ following-place q n h.front (omega arith) in
    let open_ : (following q q.rear == q.front) ≡ false = ground (arith, next, h.front) in
    let q' = record q {
      bytes = update (update q.bytes q.rear ch) (following q q.rear) 0;
      rear = following q q.rear;
    } in
    (
      q',
      rw open_,
      refl,
      record {
        front = h.front;
        fits = room;
        rear = next;
        bytes = λ i lt.
            let behind : place q i ≢ following q q.rear =
              λ e. place_apart q i (n + 1) h.front lt room (e ∙ next) in
            elim (ℕ_discrete n i) [
              | yes e ↦
                  write_first q.bytes q.rear (following q q.rear) (place q i) ch 0
                    (h.rear ∙ ap (place q) e) behind
                  ∙ ground arith
              | no ne ↦
                  let old : i < n = omega arith in
                  write_elsewhere q.bytes q.rear (following q q.rear) (place q i) ch 0
                    (λ e. place_apart q i n h.front old h.fits (e ∙ h.rear)) behind
                  ∙ h.bytes i old
                  ∙ ground arith
            ];
      },
    )

-- Taking the byte at the front.
taken-Holds :
    (q : Queue) (n : ℕ) (c : ℕ → ℕ)
    → Holds q (n + 1) c
    → Holds (record q { front = following q q.front }) n (λ i. c (i + 1))
taken-Holds q n c h = record {
  front = ground (arith, h.front);
  fits = omega (arith, h.fits);
  rear = h.rear ∙ ground (arith, h.front, h.fits);
  bytes = λ i lt. ap q.bytes (ground (arith, h.front, h.fits)) ∙ h.bytes (i + 1) (omega arith);
}

-- The first `k` bytes of `c`, but at most `count` of them.
unfoldable pub line : (k count : ℕ) → (ℕ → ℕ) → List ℕ
line zero count c = []
line (suc k) zero c = []
line (suc k) (suc count) c = c 0 ∷ line k count (λ i. c (i + 1))

line_zero : (k : ℕ) (c : ℕ → ℕ) → line k 0 c ≡ []
unfolding line
line_zero zero c = refl
line_zero (suc k) c = refl

pub Holds-like :
    (q : Queue) {m n : ℕ} (c c' : ℕ → ℕ)
    → m ≡ n
    → ((i : ℕ) → c i ≡ c' i)
    → Holds q m c
    → Holds q n c'
Holds-like q c c' e same h = record {
  front = h.front;
  fits = omega (arith, h.fits);
  rear = h.rear ∙ ap (place q) e;
  bytes = λ i lt. h.bytes i (omega arith) ∙ same i;
}

head-Holds : (q : Queue) (n : ℕ) (c : ℕ → ℕ) → Holds q (n + 1) c → q.bytes q.front ≡ c 0
head-Holds q n c h = ap q.bytes (ground (arith, h.front)) ∙ h.bytes 0 (omega arith)

read_loop-takes :
    (fuel count b : ℕ) (q q' : Queue) (bs : List ℕ)
    → (q.bytes q.front == 0) ≡ false
    → q.bytes q.front ≡ b
    → read_loop fuel count (record q { front = following q q.front }) ≡ some (bs, q')
    → read_loop (suc fuel) (suc count) q ≡ some (b ∷ bs, q')
unfolding read_loop
read_loop-takes fuel count b q q' bs more head e =
    let room : ltb 0 (suc count) ≡ true = ground arith in
    let less : suc count - 1 ≡ count = omega arith in
    rw (more, room, less, e) (ap (λ x. some (x ∷ bs, q')) head)

-- If the queue holds `k` bytes that are not 0 and a 0 behind them, then `k + 1` rounds are enough for the
-- loop of `tty_read`: the caller gets these bytes, or as many of the first as there is room for, and the
-- queue holds just what came behind the 0.
pub read_loop-line :
    (k n count fuel : ℕ) (c : ℕ → ℕ) (q : Queue)
    → Holds q (k + 1 + n) c
    → ((i : ℕ) → i < k → c i ≢ 0)
    → c k ≡ 0
    → k < fuel
    → (q' : Queue) × (read_loop fuel count q ≡ some (line k count c, q'))
      × Holds q' n (λ i. c (k + 1 + i))
unfolding read_loop line
read_loop-line zero n count zero c q h text end lt = absurd (omega arith)
read_loop-line zero n count (suc fuel) c q h text end lt =
    let stop : (q.bytes q.front == 0) ≡ true =
      ground (arith, head-Holds q n c (Holds-like q c c (omega arith) (λ i. refl) h), end) in
    (
      record q { front = following q q.front },
      rw stop,
      Holds-like (record q { front = following q q.front }) (λ i. c (i + 1)) (λ i. c (0 + 1 + i))
          refl (λ i. ap c (omega arith))
          (taken-Holds q n c (Holds-like q c c (omega arith) (λ i. refl) h)),
    )
read_loop-line (suc k) n count zero c q h text end lt = absurd (omega arith)
read_loop-line (suc k) n zero (suc fuel) c q h text end lt =
    let g : Holds q (k + 1 + n + 1) c = Holds-like q c c (omega arith) (λ i. refl) h in
    let more : (q.bytes q.front == 0) ≡ false =
      ground (arith, head-Holds q (k + 1 + n) c g, text 0 (omega arith)) in
    let (q', e, h') =
      read_loop-line k n 0 fuel (λ i. c (i + 1)) (record q { front = following q q.front })
        (taken-Holds q (k + 1 + n) c g) (λ i lt'. text (i + 1) (omega arith))
        (ap c (omega arith) ∙ end) (omega arith) in
    (
      q',
      rw more (e ∙ ap (λ l. some (l, q')) (line_zero k (λ i. c (i + 1)))),
      Holds-like q' (λ i. c (k + 1 + i + 1)) (λ i. c (suc k + 1 + i)) refl (λ i. ap c (omega arith))
          h',
    )
read_loop-line (suc k) n (suc count) (suc fuel) c q h text end lt =
    let g : Holds q (k + 1 + n + 1) c = Holds-like q c c (omega arith) (λ i. refl) h in
    let more : (q.bytes q.front == 0) ≡ false =
      ground (arith, head-Holds q (k + 1 + n) c g, text 0 (omega arith)) in
    let (q', e, h') =
      read_loop-line k n count fuel (λ i. c (i + 1)) (record q { front = following q q.front })
        (taken-Holds q (k + 1 + n) c g) (λ i lt'. text (i + 1) (omega arith))
        (ap c (omega arith) ∙ end) (omega arith) in
    (
      q',
      read_loop-takes fuel count (c 0) q q' (line k count (λ i. c (i + 1))) more
          (head-Holds q (k + 1 + n) c g) e,
      Holds-like q' (λ i. c (k + 1 + i + 1)) (λ i. c (suc k + 1 + i)) refl (λ i. ap c (omega arith))
          h',
    )
