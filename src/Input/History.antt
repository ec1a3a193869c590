-- ===== src/Input/History.antt =====
-- Rounds of `dev_input_task` and calls of `input_read` (kernel/src/dev/dev_input.c), in any order.
use mathlib.Core.List.{append_assoc, append-nil}
use mathlib.Core.Path.{subst}
use nju_os_lab.Prelude.{
  ℕ, ◌+◌, ◌-◌, ◌/◌, ◌%◌, ◌^◌, ◌≤◌, ◌<◌, ◌≡◌, refl, Bool, true, false, ◌&&◌, List, [], ◌∷◌, ◌++◌,
  length, length-append, All, arith, ltb, ◌==◌, if◌then◌else◌, Bool-cases, inl, inr,
}
use nju_os_lab.Input.{
  Event, Input, Key, nevents, Outcome, done, ◌>>=◌, is_empty, event, event_size, input_read,
  input_init, keys_down, input_round,
}
use nju_os_lab.Input.Ring.{Queued, push_event-Queued, pop_event-Queued}
use nju_os_lab.Input.Typing.{Keyboard, moved, events_of, Modifiers, Stands, SameKeys-Modifiers}
use nju_os_lab.Input.Keydown.{input_keydown-Taken}

-- The keyboard after some keys, up to the first one with the code 0, and the events of these.
unfoldable pub typed : List Key → Keyboard → Keyboard × List Event
typed [] k = (k, [])
typed (key ∷ keys) k =
    let (k', es) = typed keys (moved key k) in
    if key.keycode == 0 then (k, []) else (k', events_of key k ++ es)

length-events_of : (key : Key) (k : Keyboard) → length (events_of key k) ≤ 1
unfolding events_of
length-events_of key k = ground arith

length-typed : (keys : List Key) (k : Keyboard) → length (typed keys k).1 ≤ length keys
unfolding typed
length-typed [] k = omega arith
length-typed (key ∷ keys) k = elim (Bool-cases (key.keycode == 0)) [
  | inl end ↦ rw end (omega arith)
  | inr more ↦ rw more (
      omega (
        arith,
        length-append (events_of key k) (typed keys (moved key k)).1,
        length-events_of key k,
        length-typed keys (moved key k),
      ))
]

abbrev pub InTable : Key → Type 0
InTable key = key.keycode < 256

keys_down-typed :
    (keys : List Key) (s : Input) (k : Keyboard) (es : List Event)
    → Stands s k es
    → All InTable keys
    → length es + length keys < nevents
    → (s' : Input) × (keys_down keys s ≡ done s')
      × Stands s' (typed keys k).0 (es ++ (typed keys k).1)
unfolding keys_down typed
keys_down-typed [] s k es h codes room = (s, refl, rw (append-nil es) h)
keys_down-typed (key ∷ keys) s k es h codes room = elim (Bool-cases (key.keycode == 0)) [
  | inl end ↦ (s, rw end, rw (end, append-nil es) h)
  | inr more ↦
      let (s', e, h') = input_keydown-Taken key s k es h codes.0 (omega arith) in
      let few : length (es ++ events_of key k) + length keys < nevents =
        omega (arith, length-append es (events_of key k), length-events_of key k) in
      let (s'', e', h'') =
        keys_down-typed keys s' (moved key k) (es ++ events_of key k) h' codes.1 few in
      (
        s'',
        rw (more, e) e',
        rw (more, ← append_assoc es (events_of key k) (typed keys (moved key k)).1) h'',
      )
]

-- An abstract input device: the keyboard, the events that nobody has read, and the time of the last
-- empty event.
pub record Desk : Type 0 where
  pub keyboard : Keyboard
  pub unread : List Event
  pub known_time : ℕ

abbrev pub blank : Event
blank = record { ctrl = 0; alt = 0; code = 0 }

-- 100 ms of a 32-bit clock in microseconds have gone by.
abbrev pub late : (time known_time : ℕ) → Bool
late time known_time = ltb 100 ((time + 2 ^ 32 - known_time) % 2 ^ 32 / 1000)

abbrev pub none_left : List Event → Bool
none_left [] = true
none_left (e ∷ es) = false

-- A round: what is typed comes last, and an idle device sends a blank event.
unfoldable pub round_desk : List Key → (time : ℕ) → Desk → Desk
round_desk keys time d =
    let (k, es) = typed keys d.keyboard in
    let unread = d.unread ++ es in
    if late time d.known_time && none_left unread
    then record { keyboard = k; unread = blank ∷ []; known_time = time }
    else record { keyboard = k; unread = unread; known_time = d.known_time }

empty-none_left : (s : Input) (es : List Event) → Queued s es → is_empty s ≡ none_left es
empty-none_left s [] q = ground (arith, q.front, q.rear)
empty-none_left s (e ∷ es) q = ground (arith, q.front, q.rear, q.fits)

none_left-nil : (es : List Event) → none_left es ≡ true → es ≡ []
none_left-nil [] e = refl
none_left-nil (x ∷ es) e = cc

input_round-Stands :
    (keys : List Key) (time : ℕ) (s : Input) (d : Desk)
    → Stands s d.keyboard d.unread
    → All InTable keys
    → length d.unread + length keys < nevents
    → (s' : Input) × (input_round keys time d.known_time s
        ≡ done (s', (round_desk keys time d).known_time))
      × Stands s' (round_desk keys time d).keyboard (round_desk keys time d).unread
unfolding input_round round_desk event
input_round-Stands keys time s d h codes room =
    let (s', e, h') = keys_down-typed keys s d.keyboard d.unread h codes room in
    let es = d.unread ++ (typed keys d.keyboard).1 in
    elim (Bool-cases (late time d.known_time)) [
      | inr early ↦ (s', rw (e, early), rw early h')
      | inl late_ ↦ elim (Bool-cases (none_left es)) [
        | inr more ↦ (s', rw (e, late_, empty-none_left s' es h'.queued, more), rw (late_, more) h')
        | inl idle ↦
            let q : Queued s' [] = subst (Queued s') (none_left-nil es idle) h'.queued in
            let (s'', e'', q'', same) = push_event-Queued blank s' [] q (omega arith) in
            (
              s'',
              rw (e, late_, empty-none_left s' es h'.queued, idle, e''),
              rw (late_, idle)
                  (record {
                    modifiers =
                        SameKeys-Modifiers s' s'' (typed keys d.keyboard).0 same h'.modifiers;
                    queued = q'';
                  }),
            )
      ]
    ]

-- A round of the task with the keys that came in, or a call of `input_read` with room for an event.
pub data Op : Type 0 where
  round : (keys : List Key) (time : ℕ) → Op
  read : Op

-- The events that the calls of `input_read` return.
unfoldable pub run : List Op → Input → ℕ → Outcome (List Event × Input × ℕ)
run [] s known_time = done ([], s, known_time)
run (round keys time ∷ ops) s known_time =
    input_round keys time known_time s >>= λ r. run ops r.0 r.1
run (read ∷ ops) s known_time = do
  (n, es, s') ← input_read event_size s
  (es', s'', known_time') ← run ops s' known_time
  done (es ++ es', s'', known_time')

-- A read takes the first event.
abbrev pub first : List Event → List Event
first [] = []
first (e ∷ es) = e ∷ []

abbrev pub others : List Event → List Event
others [] = []
others (e ∷ es) = es

unfoldable pub run_desk : List Op → Desk → List Event × Desk
run_desk [] d = ([], d)
run_desk (round keys time ∷ ops) d = run_desk ops (round_desk keys time d)
run_desk (read ∷ ops) d =
    let (es, d') = run_desk ops (record d { unread = others d.unread }) in
    (first d.unread ++ es, d')

-- Codes are rows of the table, the unread events and the codes of a round are together fewer than the events of
-- the queue, and a read finds an event.
abbrev pub Allowed : List Op → Desk → Type 0
Allowed [] d = Unit {0}
Allowed (round keys time ∷ ops) d =
    All InTable keys
    × (length d.unread + length keys < nevents)
    × Allowed ops (round_desk keys time d)
Allowed (read ∷ ops) d = (0 < length d.unread) × Allowed ops (record d { unread = others d.unread })

read-Stands :
    (s : Input) (k : Keyboard) (es : List Event)
    → Stands s k es
    → 0 < length es
    → (s' : Input) × (input_read event_size s ≡ done (event_size, first es, s'))
      × Stands s' k (others es)
unfolding input_read
read-Stands s k [] h some_ = absurd (omega arith)
read-Stands s k (e ∷ es) h some_ =
    let (s', eq, q, same) = pop_event-Queued e s es h.queued in
    (s', rw eq, record { modifiers = SameKeys-Modifiers s s' k same h.modifiers; queued = q })

-- From a device that stands for a keyboard and its unread events, any rounds of the input task and
-- reads return, if the codes of keys are below 256, the unread events in front of each round and all
-- codes of keys of that round, releases and modifiers among them, are together fewer than 128, and
-- each read finds an event; the reads get the events that the keys mean on this keyboard, and the blank events
-- of idle rounds, in the order in which they came, each once; and the device stands for what is left.
pub run-Stands :
    (ops : List Op) (s : Input) (d : Desk)
    → Stands s d.keyboard d.unread
    → Allowed ops d
    → (s' : Input) × (run ops s d.known_time
        ≡ done ((run_desk ops d).0, s', (run_desk ops d).1.known_time))
      × Stands s' (run_desk ops d).1.keyboard (run_desk ops d).1.unread
unfolding run run_desk
run-Stands [] s d h ok = (s, refl, h)
run-Stands (round keys time ∷ ops) s d h ok =
    let (s', e, h') = input_round-Stands keys time s d h ok.0 ok.1 in
    let (s'', e', h'') = run-Stands ops s' (round_desk keys time d) h' ok.2 in
    (s'', rw (e, e'), h'')
run-Stands (read ∷ ops) s d h ok =
    let (s', e, h') = read-Stands s d.keyboard d.unread h ok.0 in
    let (s'', e', h'') = run-Stands ops s' (record d { unread = others d.unread }) h' ok.1 in
    (s'', rw (e, e'), h'')

-- `input_init` empties the ring; the modifiers are those of the memory.
pub input_init-Stands : (s : Input) (k : Keyboard) → Modifiers s k → Stands (input_init s) k []
unfolding input_init
input_init-Stands s k m = record {
  modifiers = record {
    caps = m.caps;
    lshift = m.lshift;
    rshift = m.rshift;
    lctrl = m.lctrl;
    rctrl = m.rctrl;
    lalt = m.lalt;
    ralt = m.ralt;
  };
  queued = record {
    front = omega arith;
    rear = refl;
    count = refl;
    fits = omega arith;
    slots = tt;
  };
}
