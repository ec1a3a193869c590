-- ===== src/Input/Tests.antt =====
-- The theorems about kernel/src/dev/dev_input.c at a device whose memory was cleared.
use nju_os_lab.Prelude.{◌≡◌, refl, true, false, List, [], ◌∷◌, arith}
use nju_os_lab.Input.{Input, done, event, input_init}
use nju_os_lab.Input.Keys.{keymap, am_key_a, am_key_lshift, am_key_1}
use nju_os_lab.Input.Typing.{moved, events_of, Modifiers, Stands}
use nju_os_lab.Input.History.{
  Desk, blank, typed, round_desk, Op, round, read, run, run_desk, run-Stands, input_init-Stands,
}

abbrev memory : Input
memory = record {
  event_sem = 5;
  events = λ i. blank;
  front = 7;
  rear = 7;
  capslock = 0;
  shift_down = λ i. 0;
  ctrl_down = λ i. 0;
  alt_down = λ i. 0;
}

abbrev desk : Desk
desk = record { keyboard = record { held = λ i. false; caps = false }; unread = []; known_time = 0 }

memory-Modifiers : Modifiers memory desk.keyboard
memory-Modifiers = record {
  caps = refl;
  lshift = refl;
  rshift = refl;
  lctrl = refl;
  rctrl = refl;
  lalt = refl;
  ralt = refl;
}

-- Shift, a, shift up, 1; two reads; and an idle round.
abbrev ops : List Op
ops =
    round
      (record { keydown = true; keycode = am_key_lshift }
        ∷ record { keydown = true; keycode = am_key_a }
        ∷ record { keydown = false; keycode = am_key_lshift }
        ∷ record { keydown = true; keycode = am_key_1 }
        ∷ [])
      50
    ∷ read
    ∷ read
    ∷ round [] 200000
    ∷ read
    ∷ []

ops_events : (run_desk ops desk).0 ≡ event 0 0 b'A' ∷ event 0 0 b'1' ∷ blank ∷ []
unfolding run_desk round_desk typed moved events_of keymap event
ops_events = refl

run-Stands_example :
    (s' : Input) × (run ops (input_init memory) 0
      ≡ done ((run_desk ops desk).0, s', (run_desk ops desk).1.known_time))
    × Stands s' (run_desk ops desk).1.keyboard (run_desk ops desk).1.unread
unfolding run_desk round_desk typed moved events_of keymap
run-Stands_example =
    run-Stands ops (input_init memory) desk
      (input_init-Stands memory desk.keyboard memory-Modifiers) (omega arith)
