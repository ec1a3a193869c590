-- ===== src/Input/Ring.antt =====
-- The ring of events of kernel/src/dev/dev_input.c as a list of events, first come first.
use nju_os_lab.Prelude.{
  ℕ, ◌+◌, ◌-◌, ◌%◌, ◌<◌, ◌≡◌, refl, ap, ◌∙◌, true, false, List, [], ◌∷◌, ◌++◌, length,
  length-append, arith, ◌==◌, update,
}
use nju_os_lab.Input.{Event, Input, nevents, done, panics, push_event, pop_event}

-- From slot `i` on the ring holds the events of the list.
abbrev pub Slots : (ℕ → Event) → ℕ → List Event → Type 0
Slots ring i [] = Unit {0}
Slots ring i (e ∷ es) = (ring (i % nevents) ≡ e) × Slots ring (i + 1) es

Slots-append :
    (ring : ℕ → Event) (i slot : ℕ) (e : Event) (es : List Event)
    → length es < nevents
    → slot ≡ (i + length es) % nevents
    → Slots ring i es
    → Slots (update ring slot e) i (es ++ e ∷ [])
Slots-append ring i slot e [] few at h = (ground arith, tt)
Slots-append ring i slot e (x ∷ xs) few at h =
    let ne : (slot == i % nevents) ≡ false = ground arith in
    (rw ne h.0, Slots-append ring (i + 1) slot e xs (omega arith) (omega arith) h.1)

Slots-mod :
    (ring : ℕ → Event) (i j : ℕ) (es : List Event)
    → i % nevents ≡ j % nevents
    → Slots ring i es
    → Slots ring j es
Slots-mod ring i j [] e h = tt
Slots-mod ring i j (x ∷ xs) e h =
    (rw (← e) h.0, Slots-mod ring (i + 1) (j + 1) xs (omega arith) h.1)

-- The ring holds the events of the list, and the semaphore counts them.
pub record Queued (s : Input) (es : List Event) : Type 0 where
  pub front : s.front < nevents
  pub rear : s.rear ≡ (s.front + length es) % nevents
  pub count : s.event_sem ≡ length es
  pub fits : length es < nevents
  pub slots : Slots s.events s.front es

-- The keys that are held are as before.
pub record SameKeys (s s' : Input) : Type 0 where
  pub capslock : s'.capslock ≡ s.capslock
  pub shift_down : s'.shift_down ≡ s.shift_down
  pub ctrl_down : s'.ctrl_down ≡ s.ctrl_down
  pub alt_down : s'.alt_down ≡ s.alt_down

-- Room for one more event.
pub push_event-Queued :
    (ev : Event) (s : Input) (es : List Event)
    → Queued s es
    → length es + 1 < nevents
    → (s' : Input) × (push_event ev s ≡ done s') × Queued s' (es ++ ev ∷ []) × SameKeys s s'
unfolding push_event
push_event-Queued ev s es q room =
    let more : length (es ++ ev ∷ []) ≡ length es + 1 = length-append es (ev ∷ []) in
    let open_ : ((s.rear + 1) % nevents == s.front) ≡ false = ground (arith, q.front, q.rear) in
    (
      record s {
        events = update s.events s.rear ev;
        rear = (s.rear + 1) % nevents;
        event_sem = s.event_sem + 1;
      },
      rw open_,
      record {
        front = q.front;
        rear = omega (arith, more, q.rear);
        count = omega (arith, more, q.count);
        fits = omega (arith, more);
        slots = Slots-append s.events s.front s.rear ev es q.fits q.rear q.slots;
      },
      record { capslock = refl; shift_down = refl; ctrl_down = refl; alt_down = refl },
    )

-- The 128th event that is not read.
pub push_event-full :
    (ev : Event) (s : Input) (es : List Event)
    → Queued s es
    → length es + 1 ≡ nevents
    → push_event ev s ≡ panics
unfolding push_event
push_event-full ev s es q full =
    let closed : ((s.rear + 1) % nevents == s.front) ≡ true = ground (arith, q.front, q.rear) in
    rw closed

pub pop_event-Queued :
    (ev : Event) (s : Input) (es : List Event)
    → Queued s (ev ∷ es)
    → (s' : Input) × (pop_event s ≡ done (ev, s')) × Queued s' es × SameKeys s s'
unfolding pop_event
pop_event-Queued ev s es q =
    let some_ : (s.event_sem == 0) ≡ false = ground (arith, q.count) in
    let full : (s.rear == s.front) ≡ false = ground (arith, q.front, q.rear, q.fits) in
    (
      record s { event_sem = s.event_sem - 1; front = (s.front + 1) % nevents },
      rw (some_, full)
          (ap
            (λ e.
              done (e, record s { event_sem = s.event_sem - 1; front = (s.front + 1) % nevents }))
            (ap s.events (omega (arith, q.front)) ∙ q.slots.0)),
      record {
        front = omega arith;
        rear = omega (arith, q.rear);
        count = omega (arith, q.count);
        fits = omega (arith, q.fits);
        slots =
            Slots-mod s.events (s.front + 1) ((s.front + 1) % nevents) es (omega arith) q.slots.1;
      },
      record { capslock = refl; shift_down = refl; ctrl_down = refl; alt_down = refl },
    )
