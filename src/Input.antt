-- ===== src/Input.antt =====
-- kernel/src/dev/dev_input.c: the keyboard and its ring of events. The counter of `event_sem` stands for the
-- semaphore (Sem.antt), and a call is one step under the lock of the ring. Keys come from the abstract
-- machine as arguments.
pub mod Keys
pub mod Ring
pub mod Typing
pub mod Keydown
pub mod History
mod Tests
use Prim.Native.Nat.{bit_xor}
use nju_os_lab.Prelude.{
  ℕ, zero, suc, ◌+◌, ◌-◌, ◌/◌, ◌%◌, ◌^◌, Bool, ◌&&◌, ◌||◌, not, List, [], ◌∷◌, ltb, leb, ◌==◌,
  if◌then◌else◌, update,
}
use nju_os_lab.Input.Keys.{
  keymap, am_key_capslock, am_key_lctrl, am_key_rctrl, am_key_lalt, am_key_ralt, am_key_lshift,
  am_key_rshift,
}

-- `NEVENTS`
abbrev pub nevents : ℕ
nevents = 128

-- `struct input_event`
pub record Event : Type 0 where
  pub ctrl : ℕ
  pub alt : ℕ
  pub code : ℕ

-- `event`: the fields have 1, 1 and 16 bits.
unfoldable pub event : (ctrl alt code : ℕ) → Event
event ctrl alt code = record { ctrl = ctrl % 2; alt = alt % 2; code = code % 2 ^ 16 }

-- `input_t`
pub record Input : Type 0 where
  pub event_sem : ℕ
  pub events : ℕ → Event
  pub front : ℕ
  pub rear : ℕ
  pub capslock : ℕ
  pub shift_down : ℕ → ℕ
  pub ctrl_down : ℕ → ℕ
  pub alt_down : ℕ → ℕ

-- `AM_INPUT_KEYBRD_T`
pub record Key : Type 0 where
  pub keydown : Bool
  pub keycode : ℕ

-- How a call ends: `blocks` waits for a semaphore, `out_of_range` reads behind a table.
pub data Outcome (A : Type 0) : Type 0 where
  done : A → Outcome A
  blocks : Outcome A
  panics : Outcome A
  out_of_range : Outcome A

infixl 5 ◌>>=◌
abbrev pub ◌>>=◌ : {A B : Type 0} → Outcome A → (A → Outcome B) → Outcome B
done a >>= f = f a
blocks >>= f = blocks
panics >>= f = panics
out_of_range >>= f = out_of_range

-- `is_empty`
abbrev pub is_empty : Input → Bool
is_empty s = s.rear == s.front

-- `push_event`
unfoldable pub push_event : Event → Input → Outcome Input
push_event ev s =
    let s' = record s { events = update s.events s.rear ev; rear = (s.rear + 1) % nevents } in
    if is_empty s' then panics else done (record s' { event_sem = s'.event_sem + 1 })

-- `pop_event`
unfoldable pub pop_event : Input → Outcome (Event × Input)
pop_event s =
    if s.event_sem == 0
    then blocks
    else if is_empty s
    then panics
    else done (
      s.events s.front,
      record s { event_sem = s.event_sem - 1; front = (s.front + 1) % nevents },
    )

-- `||` of C
abbrev pub or : ℕ → ℕ → ℕ
or a b = if (a == 0) && (b == 0) then 0 else 1

-- The event of a key with the characters `ch` and `upper`, in `input_keydown`.
unfoldable pub char_event : (shift ctrl alt capslock ch upper : ℕ) → Event
char_event shift ctrl alt capslock ch upper =
    let shift' = if leb b'a' ch && leb ch b'z' then bit_xor shift capslock else shift in
    if not (ctrl == 0) || not (alt == 0)
    then event ctrl alt ch
    else if not (shift' == 0)
    then event 0 0 upper
    else event 0 0 ch

-- The end of `input_keydown` for a key with the characters `ch` and `upper`.
unfoldable pub press_char : (ch upper : ℕ) → Input → Outcome Input
press_char ch upper s =
    let shift = or (s.shift_down 0) (s.shift_down 1) in
    let ctrl = or (s.ctrl_down 0) (s.ctrl_down 1) in
    let alt = or (s.alt_down 0) (s.alt_down 1) in
    push_event (char_event shift ctrl alt s.capslock ch upper) s

-- `input_keydown` for a key that is no modifier and goes down.
unfoldable pub press_other : ℕ → Input → Outcome Input
press_other code s =
    if ltb code 256
    then (let (ch, upper) = keymap code in if ch == 0 then done s else press_char ch upper s)
    else out_of_range

-- `input_keydown` for a key that goes down.
unfoldable pub press : ℕ → Input → Outcome Input
press code s =
    if code == am_key_capslock
    then done (record s { capslock = bit_xor s.capslock 1 })
    else if code == am_key_lctrl
    then done (record s { ctrl_down = update s.ctrl_down 0 1 })
    else if code == am_key_rctrl
    then done (record s { ctrl_down = update s.ctrl_down 1 1 })
    else if code == am_key_lalt
    then done (record s { alt_down = update s.alt_down 0 1 })
    else if code == am_key_ralt
    then done (record s { alt_down = update s.alt_down 1 1 })
    else if code == am_key_lshift
    then done (record s { shift_down = update s.shift_down 0 1 })
    else if code == am_key_rshift
    then done (record s { shift_down = update s.shift_down 1 1 })
    else press_other code s

-- `input_keydown` for a key that goes up.
unfoldable pub release : ℕ → Input → Input
release code s =
    if code == am_key_lctrl
    then record s { ctrl_down = update s.ctrl_down 0 0 }
    else if code == am_key_rctrl
    then record s { ctrl_down = update s.ctrl_down 1 0 }
    else if code == am_key_lalt
    then record s { alt_down = update s.alt_down 0 0 }
    else if code == am_key_ralt
    then record s { alt_down = update s.alt_down 1 0 }
    else if code == am_key_lshift
    then record s { shift_down = update s.shift_down 0 0 }
    else if code == am_key_rshift
    then record s { shift_down = update s.shift_down 1 0 }
    else s

-- `input_keydown`
unfoldable pub input_keydown : Key → Input → Outcome Input
input_keydown key s = if key.keydown then press key.keycode s else done (release key.keycode s)

-- `input_init`: the modifiers stay as the memory holds them.
unfoldable pub input_init : Input → Input
input_init s = record s { front = 0; rear = 0; event_sem = 0 }

-- `sizeof(struct input_event)`
abbrev pub event_size : ℕ
event_size = 4

-- `input_read`: the bytes read, the event if there is room for it, and the device.
unfoldable pub input_read : (count : ℕ) → Input → Outcome (ℕ × List Event × Input)
input_read count s = do
  (ev, s') ← pop_event s
  if leb event_size count then done (event_size, ev ∷ [], s') else done (0, [], s')

-- The inner loop of `dev_input_task`: the keys up to the first one with the code 0.
unfoldable pub keys_down : List Key → Input → Outcome Input
keys_down [] s = done s
keys_down (key ∷ keys) s =
    let rest = input_keydown key s >>= keys_down keys in if key.keycode == 0 then done s else rest

-- One round of `dev_input_task`: the keys, and an empty event if nothing has happened for 100 ms.
-- It gives the device and `known_time`.
unfoldable pub input_round : List Key → (time known_time : ℕ) → Input → Outcome (Input × ℕ)
input_round keys time known_time s = do
  s' ← keys_down keys s
  let idle = ltb 100 ((time + 2 ^ 32 - known_time) % 2 ^ 32 / 1000) && is_empty s'
  if idle then (push_event (event 0 0 0) s' >>= λ s''. done (s'', time)) else done (s', known_time)
