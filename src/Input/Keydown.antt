-- ===== src/Input/Keydown.antt =====
-- `input_keydown` and `input_read` of kernel/src/dev/dev_input.c.
use Prim.Native.Nat.{bit_xor}
use mathlib.Core.List.{append-nil}
use nju_os_lab.Prelude.{
  ℕ, ◌+◌, ◌<◌, ◌≡◌, refl, ◌∙◌, Bool, true, false, not, List, length, arith, ◌==◌, update,
  Bool-cases, inl, inr,
}
use nju_os_lab.Input.{Event, Input, Key, nevents, Outcome, done, press, release, input_keydown}
use nju_os_lab.Input.Keys.{
  keymap, am_key_capslock, am_key_lctrl, am_key_rctrl, am_key_lalt, am_key_ralt, am_key_lshift,
  am_key_rshift,
}
use nju_os_lab.Input.Ring.{Queued}
use nju_os_lab.Input.Typing.{
  Keyboard, flag, moved, events_of, Modifiers, Stands, Taken, release-Modifiers, SameKeys-Modifiers,
  press_other-Queued, Queued-keys, events_of-none,
}

-- What is left of a modifier's case: its bits, and the ring.
modifier-Taken :
    (code m : ℕ) (r : Outcome Input) (s' : Input) (k : Keyboard) (es : List Event)
    → r ≡ done s'
    → (code == m) ≡ true
    → (keymap m).0 ≡ 0
    → Modifiers s' (moved (record { keydown = true; keycode = code }) k)
    → Queued s' es
    → Taken (record { keydown = true; keycode = code }) k es r
modifier-Taken code m r s' k es eq e none_ bits q =
    (s', eq, record { modifiers = bits; queued = rw (events_of-none code m k es e none_) q })

bits_xor : (b : Bool) → bit_xor (flag b) 1 ≡ flag (not b)
bits_xor true = refl
bits_xor false = refl

-- Modifiers have no character.
silent :
    ((keymap am_key_capslock).0 ≡ 0)
    × ((keymap am_key_lctrl).0 ≡ 0)
    × ((keymap am_key_rctrl).0 ≡ 0)
    × ((keymap am_key_lalt).0 ≡ 0)
    × ((keymap am_key_ralt).0 ≡ 0)
    × ((keymap am_key_lshift).0 ≡ 0)
    × ((keymap am_key_rshift).0 ≡ 0)
unfolding keymap
silent = (refl, refl, refl, refl, refl, refl, refl)

press-Taken :
    (code : ℕ) (s : Input) (k : Keyboard) (es : List Event)
    → Stands s k es
    → code < 256
    → length es + 1 < nevents
    → Taken (record { keydown = true; keycode = code }) k es (press code s)
unfolding press moved
press-Taken code s k es h lt room =
    let caps : bit_xor s.capslock 1 ≡ flag (not k.caps) = rw h.modifiers.caps (bits_xor k.caps) in
    elim (Bool-cases (code == am_key_capslock)) [
      | inl is_capslock ↦
          modifier-Taken code am_key_capslock (press code s)
            (record s { capslock = bit_xor s.capslock 1 }) k es (rw (is_capslock)) is_capslock
            silent.0 (ground (arith, h.modifiers, caps))
            (Queued-keys s es (bit_xor s.capslock 1) s.shift_down s.ctrl_down s.alt_down h.queued)
      | inr not_capslock ↦ elim (Bool-cases (code == am_key_lctrl)) [
        | inl is_lctrl ↦
            modifier-Taken code am_key_lctrl (press code s)
              (record s { ctrl_down = update s.ctrl_down 0 1 }) k es (rw (not_capslock, is_lctrl))
              is_lctrl silent.1 (ground (arith, h.modifiers))
              (Queued-keys s es s.capslock s.shift_down (update s.ctrl_down 0 1) s.alt_down
                h.queued)
        | inr not_lctrl ↦ elim (Bool-cases (code == am_key_rctrl)) [
          | inl is_rctrl ↦
              modifier-Taken code am_key_rctrl (press code s)
                (record s { ctrl_down = update s.ctrl_down 1 1 }) k es
                (rw (not_capslock, not_lctrl, is_rctrl)) is_rctrl silent.2
                (ground (arith, h.modifiers))
                (Queued-keys s es s.capslock s.shift_down (update s.ctrl_down 1 1) s.alt_down
                  h.queued)
          | inr not_rctrl ↦ elim (Bool-cases (code == am_key_lalt)) [
            | inl is_lalt ↦
                modifier-Taken code am_key_lalt (press code s)
                  (record s { alt_down = update s.alt_down 0 1 }) k es
                  (rw (not_capslock, not_lctrl, not_rctrl, is_lalt)) is_lalt silent.3
                  (ground (arith, h.modifiers))
                  (Queued-keys s es s.capslock s.shift_down s.ctrl_down (update s.alt_down 0 1)
                    h.queued)
            | inr not_lalt ↦ elim (Bool-cases (code == am_key_ralt)) [
              | inl is_ralt ↦
                  modifier-Taken code am_key_ralt (press code s)
                    (record s { alt_down = update s.alt_down 1 1 }) k es
                    (rw (not_capslock, not_lctrl, not_rctrl, not_lalt, is_ralt)) is_ralt silent.4
                    (ground (arith, h.modifiers))
                    (Queued-keys s es s.capslock s.shift_down s.ctrl_down (update s.alt_down 1 1)
                      h.queued)
              | inr not_ralt ↦ elim (Bool-cases (code == am_key_lshift)) [
                | inl is_lshift ↦
                    modifier-Taken code am_key_lshift (press code s)
                      (record s { shift_down = update s.shift_down 0 1 }) k es
                      (rw (not_capslock, not_lctrl, not_rctrl, not_lalt, not_ralt, is_lshift))
                      is_lshift silent.5 (ground (arith, h.modifiers))
                      (Queued-keys s es s.capslock (update s.shift_down 0 1) s.ctrl_down s.alt_down
                        h.queued)
                | inr not_lshift ↦ elim (Bool-cases (code == am_key_rshift)) [
                  | inl is_rshift ↦
                      modifier-Taken code am_key_rshift (press code s)
                        (record s { shift_down = update s.shift_down 1 1 }) k es
                        (rw (
                          not_capslock, not_lctrl, not_rctrl, not_lalt, not_ralt, not_lshift,
                          is_rshift,
                        ))
                        is_rshift silent.6 (ground (arith, h.modifiers))
                        (Queued-keys s es s.capslock (update s.shift_down 1 1) s.ctrl_down
                          s.alt_down h.queued)
                  | inr not_rshift ↦
                      let (s', e, q, same) = press_other-Queued code s k es h lt room in
                      (
                        s',
                        rw
                            (
                              not_capslock, not_lctrl, not_rctrl, not_lalt, not_ralt, not_lshift,
                              not_rshift,
                            )
                            e,
                        record {
                          modifiers =
                              SameKeys-Modifiers s s'
                                (moved (record { keydown = true; keycode = code }) k) same
                                (ground (arith, h.modifiers));
                          queued = q;
                        },
                      )
                ]
              ]
            ]
          ]
        ]
      ]
    ]

Queued-ring :
    (s s' : Input) (es : List Event)
    → s'.event_sem ≡ s.event_sem
    → s'.events ≡ s.events
    → s'.front ≡ s.front
    → s'.rear ≡ s.rear
    → Queued s es
    → Queued s' es
Queued-ring s s' es en ee ef er q = record {
  front = omega (arith, q.front);
  rear = omega (arith, q.rear);
  count = en ∙ q.count;
  fits = q.fits;
  slots = rw (ee, ef) q.slots;
}

release-Taken :
    (code : ℕ) (s : Input) (k : Keyboard) (es : List Event)
    → Stands s k es
    → Taken (record { keydown = false; keycode = code }) k es (done (release code s))
unfolding release events_of
release-Taken code s k es h = (
  release code s,
  refl,
  record {
    modifiers = release-Modifiers code s k h.modifiers;
    queued = rw (append-nil es) (
        Queued-ring s (release code s) es (ground arith) (ground arith) (ground arith)
          (ground arith) h.queued);
  },
)

-- A key moves on the keyboard.
by_direction :
    (down : Bool) (code : ℕ) (s : Input) (k : Keyboard) (es : List Event)
    → Stands s k es
    → code < 256
    → length es + 1 < nevents
    → Taken
        (record { keydown = down; keycode = code })
        k
        es
        (input_keydown (record { keydown = down; keycode = code }) s)
unfolding input_keydown
by_direction true code s k es h lt room = press-Taken code s k es h lt room
by_direction false code s k es h lt room = release-Taken code s k es h

pub input_keydown-Taken :
    (key : Key) (s : Input) (k : Keyboard) (es : List Event)
    → Stands s k es
    → key.keycode < 256
    → length es + 1 < nevents
    → Taken key k es (input_keydown key s)
input_keydown-Taken key = by_direction key.keydown key.keycode
