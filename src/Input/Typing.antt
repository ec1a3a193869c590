-- ===== src/Input/Typing.antt =====
-- What a key means: kernel/src/dev/dev_input.c against a keyboard that knows which keys are held.
use Prim.Native.Nat.{bit_xor}
use mathlib.Core.List.{append-nil}
use nju_os_lab.Prelude.{
  ℕ, ◌+◌, ◌%◌, ◌^◌, ◌<◌, ◌≡◌, refl, ap, ◌∙◌, Bool, true, false, not, ◌&&◌, ◌||◌, List, [], ◌∷◌,
  ◌++◌, length, arith, ltb, leb, ◌==◌, if◌then◌else◌, Bool-cases, inl, inr,
}
use nju_os_lab.Input.{
  Event, Input, Key, nevents, Outcome, done, or, event, char_event, push_event, press_char,
  press_other, release,
}
use nju_os_lab.Input.Keys.{
  keymap, am_key_capslock, am_key_lctrl, am_key_rctrl, am_key_lalt, am_key_ralt, am_key_lshift,
  am_key_rshift,
}
use nju_os_lab.Input.Ring.{Queued, SameKeys, push_event-Queued}

-- The keys that are down, and whether capitals are locked.
pub record Keyboard : Type 0 where
  pub held : ℕ → Bool
  pub caps : Bool

abbrev pub shift_held : Keyboard → Bool
shift_held k = k.held am_key_lshift || k.held am_key_rshift

abbrev pub ctrl_held : Keyboard → Bool
ctrl_held k = k.held am_key_lctrl || k.held am_key_rctrl

abbrev pub alt_held : Keyboard → Bool
alt_held k = k.held am_key_lalt || k.held am_key_ralt

abbrev pub is_letter : ℕ → Bool
is_letter ch = leb b'a' ch && leb ch b'z'

abbrev pub xor : Bool → Bool → Bool
xor true b = not b
xor false b = b

abbrev pub flag : Bool → ℕ
flag true = 1
flag false = 0

-- A key that goes up or down.
unfoldable pub moved : Key → Keyboard → Keyboard
moved key k = record {
  held = λ code. if code == key.keycode then key.keydown else k.held code;
  caps = xor (key.keydown && (key.keycode == am_key_capslock)) k.caps;
}

-- The event of a character, with its capital.
abbrev pub meaning : (ch upper : ℕ) (shift ctrl alt caps : Bool) → Event
meaning ch upper shift ctrl alt caps = record {
  ctrl = flag ctrl;
  alt = flag alt;
  code = (if not (ctrl || alt) && xor (is_letter ch && caps) shift then upper else ch) % 2 ^ 16;
}

-- The events of a key: one if it goes down and has a character.
unfoldable pub events_of : Key → Keyboard → List Event
events_of key k =
    if key.keydown && not ((keymap key.keycode).0 == 0)
    then meaning (keymap key.keycode).0 (keymap key.keycode).1 (shift_held k) (ctrl_held k)
        (alt_held k) k.caps
      ∷ []
    else []

-- The device knows the modifiers of the keyboard.
pub record Modifiers (s : Input) (k : Keyboard) : Type 0 where
  pub caps : s.capslock ≡ flag k.caps
  pub lshift : s.shift_down 0 ≡ flag (k.held am_key_lshift)
  pub rshift : s.shift_down 1 ≡ flag (k.held am_key_rshift)
  pub lctrl : s.ctrl_down 0 ≡ flag (k.held am_key_lctrl)
  pub rctrl : s.ctrl_down 1 ≡ flag (k.held am_key_rctrl)
  pub lalt : s.alt_down 0 ≡ flag (k.held am_key_lalt)
  pub ralt : s.alt_down 1 ≡ flag (k.held am_key_ralt)

pub release-Modifiers :
    (code : ℕ) (s : Input) (k : Keyboard)
    → Modifiers s k
    → Modifiers (release code s) (moved (record { keydown = false; keycode = code }) k)
unfolding release moved
release-Modifiers code s k m = ground (arith, m)

or_flag : (a b : ℕ) (x y : Bool) → a ≡ flag x → b ≡ flag y → or a b ≡ flag (x || y)
or_flag a b true y e f = ground arith
or_flag a b false y e f = ground arith

xor_flag : (a b : Bool) → bit_xor (flag a) (flag b) ≡ flag (xor b a)
xor_flag true true = refl
xor_flag true false = refl
xor_flag false true = refl
xor_flag false false = refl

char_event-meaning :
    (ch upper : ℕ) (shift ctrl alt caps : Bool)
    → char_event (flag shift) (flag ctrl) (flag alt) (flag caps) ch upper
      ≡ meaning ch upper shift ctrl alt caps
unfolding char_event event
char_event-meaning ch upper shift true alt caps = ground arith
char_event-meaning ch upper shift false true caps = ground arith
char_event-meaning ch upper shift false false caps = rw (xor_flag shift caps) (ground arith)

char_event-held :
    (ch upper s c a l : ℕ) (shift ctrl alt caps : Bool)
    → s ≡ flag shift
    → c ≡ flag ctrl
    → a ≡ flag alt
    → l ≡ flag caps
    → char_event s c a l ch upper ≡ meaning ch upper shift ctrl alt caps
char_event-held ch upper s c a l shift ctrl alt caps es ec ea el =
    rw (es, ec, ea, el) (char_event-meaning ch upper shift ctrl alt caps)

press_char-meaning :
    (ch upper : ℕ) (s : Input) (k : Keyboard)
    → Modifiers s k
    → press_char ch upper s
      ≡ push_event (meaning ch upper (shift_held k) (ctrl_held k) (alt_held k) k.caps) s
unfolding press_char
press_char-meaning ch upper s k m =
    ap (λ e. push_event e s)
      (char_event-held ch upper (or (s.shift_down 0) (s.shift_down 1))
        (or (s.ctrl_down 0) (s.ctrl_down 1)) (or (s.alt_down 0) (s.alt_down 1)) s.capslock
        (shift_held k) (ctrl_held k) (alt_held k) k.caps
        (or_flag (s.shift_down 0) (s.shift_down 1) (k.held am_key_lshift) (k.held am_key_rshift)
          m.lshift m.rshift)
        (or_flag (s.ctrl_down 0) (s.ctrl_down 1) (k.held am_key_lctrl) (k.held am_key_rctrl) m.lctrl
          m.rctrl)
        (or_flag (s.alt_down 0) (s.alt_down 1) (k.held am_key_lalt) (k.held am_key_ralt) m.lalt
          m.ralt)
        m.caps)

-- The device stands for the keyboard, and its ring for the events that nobody has read.
pub record Stands (s : Input) (k : Keyboard) (es : List Event) : Type 0 where
  pub modifiers : Modifiers s k
  pub queued : Queued s es

pub SameKeys-Modifiers :
    (s s' : Input) (k : Keyboard) → SameKeys s s' → Modifiers s k → Modifiers s' k
SameKeys-Modifiers s s' k same m = record {
  caps = same.capslock ∙ m.caps;
  lshift = ap (λ f. f 0) same.shift_down ∙ m.lshift;
  rshift = ap (λ f. f 1) same.shift_down ∙ m.rshift;
  lctrl = ap (λ f. f 0) same.ctrl_down ∙ m.lctrl;
  rctrl = ap (λ f. f 1) same.ctrl_down ∙ m.rctrl;
  lalt = ap (λ f. f 0) same.alt_down ∙ m.lalt;
  ralt = ap (λ f. f 1) same.alt_down ∙ m.ralt;
}

-- A key that is pressed and is no modifier.
pub press_other-Queued :
    (code : ℕ) (s : Input) (k : Keyboard) (es : List Event)
    → Stands s k es
    → code < 256
    → length es + 1 < nevents
    → (s' : Input) × (press_other code s ≡ done s')
      × Queued s' (es ++ events_of (record { keydown = true; keycode = code }) k)
      × SameKeys s s'
unfolding press_other events_of
press_other-Queued code s k es h lt room =
    let row : ltb code 256 ≡ true = ground arith in
    elim (Bool-cases ((keymap code).0 == 0)) [
      | inl none_ ↦ (
        s,
        rw (row, none_),
        rw (none_, append-nil es) h.queued,
        record { capslock = refl; shift_down = refl; ctrl_down = refl; alt_down = refl },
      )
      | inr char ↦
          let (s', e, q, same) =
            push_event-Queued
              (meaning (keymap code).0 (keymap code).1 (shift_held k) (ctrl_held k) (alt_held k)
                k.caps)
              s es h.queued room in
          (
            s',
            rw (row, char) (press_char-meaning (keymap code).0 (keymap code).1 s k h.modifiers ∙ e),
            rw char q,
            same,
          )
    ]

-- What a call for a key comes to.
abbrev pub Taken : Key → Keyboard → List Event → Outcome Input → Type 0
Taken key k es r = (s' : Input) × (r ≡ done s') × Stands s' (moved key k) (es ++ events_of key k)

pub Queued-keys :
    (s : Input) (es : List Event) (capslock : ℕ) (shift ctrl alt : ℕ → ℕ)
    → Queued s es
    → Queued
        (record s { capslock = capslock; shift_down = shift; ctrl_down = ctrl; alt_down = alt })
        es
Queued-keys s es capslock shift ctrl alt q = record {
  front = q.front;
  rear = q.rear;
  count = q.count;
  fits = q.fits;
  slots = q.slots;
}

-- A key without a character leaves the ring alone.
pub events_of-none :
    (code m : ℕ) (k : Keyboard) (es : List Event)
    → (code == m) ≡ true
    → (keymap m).0 ≡ 0
    → es ++ events_of (record { keydown = true; keycode = code }) k ≡ es
unfolding events_of
events_of-none code m k es e none_ =
    let same : code ≡ m = ground arith in
    let silent : ((keymap code).0 == 0) ≡ true =
      ground (arith, ap (λ c. (keymap c).0) same ∙ none_) in
    rw silent (append-nil es)
