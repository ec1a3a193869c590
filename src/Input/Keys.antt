-- ===== src/Input/Keys.antt =====
-- The codes of keys, the enumeration of `AM_KEYS` in abstract-machine/am/include/amdev.h, as far as
-- kernel/src/dev/dev_input.c uses them, and its table of characters.
use nju_os_lab.Prelude.{ℕ, List, [], ◌∷◌, ◌==◌, if◌then◌else◌}

abbrev pub am_key_grave : ℕ
am_key_grave = 14

abbrev pub am_key_1 : ℕ
am_key_1 = 15

abbrev pub am_key_2 : ℕ
am_key_2 = 16

abbrev pub am_key_3 : ℕ
am_key_3 = 17

abbrev pub am_key_4 : ℕ
am_key_4 = 18

abbrev pub am_key_5 : ℕ
am_key_5 = 19

abbrev pub am_key_6 : ℕ
am_key_6 = 20

abbrev pub am_key_7 : ℕ
am_key_7 = 21

abbrev pub am_key_8 : ℕ
am_key_8 = 22

abbrev pub am_key_9 : ℕ
am_key_9 = 23

abbrev pub am_key_0 : ℕ
am_key_0 = 24

abbrev pub am_key_minus : ℕ
am_key_minus = 25

abbrev pub am_key_equals : ℕ
am_key_equals = 26

abbrev pub am_key_backspace : ℕ
am_key_backspace = 27

abbrev pub am_key_q : ℕ
am_key_q = 29

abbrev pub am_key_w : ℕ
am_key_w = 30

abbrev pub am_key_e : ℕ
am_key_e = 31

abbrev pub am_key_r : ℕ
am_key_r = 32

abbrev pub am_key_t : ℕ
am_key_t = 33

abbrev pub am_key_y : ℕ
am_key_y = 34

abbrev pub am_key_u : ℕ
am_key_u = 35

abbrev pub am_key_i : ℕ
am_key_i = 36

abbrev pub am_key_o : ℕ
am_key_o = 37

abbrev pub am_key_p : ℕ
am_key_p = 38

abbrev pub am_key_leftbracket : ℕ
am_key_leftbracket = 39

abbrev pub am_key_rightbracket : ℕ
am_key_rightbracket = 40

abbrev pub am_key_backslash : ℕ
am_key_backslash = 41

abbrev pub am_key_capslock : ℕ
am_key_capslock = 42

abbrev pub am_key_a : ℕ
am_key_a = 43

abbrev pub am_key_s : ℕ
am_key_s = 44

abbrev pub am_key_d : ℕ
am_key_d = 45

abbrev pub am_key_f : ℕ
am_key_f = 46

abbrev pub am_key_g : ℕ
am_key_g = 47

abbrev pub am_key_h : ℕ
am_key_h = 48

abbrev pub am_key_j : ℕ
am_key_j = 49

abbrev pub am_key_k : ℕ
am_key_k = 50

abbrev pub am_key_l : ℕ
am_key_l = 51

abbrev pub am_key_semicolon : ℕ
am_key_semicolon = 52

abbrev pub am_key_apostrophe : ℕ
am_key_apostrophe = 53

abbrev pub am_key_return : ℕ
am_key_return = 54

abbrev pub am_key_lshift : ℕ
am_key_lshift = 55

abbrev pub am_key_z : ℕ
am_key_z = 56

abbrev pub am_key_x : ℕ
am_key_x = 57

abbrev pub am_key_c : ℕ
am_key_c = 58

abbrev pub am_key_v : ℕ
am_key_v = 59

abbrev pub am_key_b : ℕ
am_key_b = 60

abbrev pub am_key_n : ℕ
am_key_n = 61

abbrev pub am_key_m : ℕ
am_key_m = 62

abbrev pub am_key_comma : ℕ
am_key_comma = 63

abbrev pub am_key_period : ℕ
am_key_period = 64

abbrev pub am_key_slash : ℕ
am_key_slash = 65

abbrev pub am_key_rshift : ℕ
am_key_rshift = 66

abbrev pub am_key_lctrl : ℕ
am_key_lctrl = 67

abbrev pub am_key_lalt : ℕ
am_key_lalt = 69

abbrev pub am_key_space : ℕ
am_key_space = 70

abbrev pub am_key_ralt : ℕ
am_key_ralt = 71

abbrev pub am_key_rctrl : ℕ
am_key_rctrl = 72

-- The initial value of `keymap`: a key, its character, and its character with the shift key.
abbrev pub keymap_entries : List (ℕ × ℕ × ℕ)
keymap_entries =
    (am_key_0, b'0', b')')
    ∷ (am_key_1, b'1', b'!')
    ∷ (am_key_2, b'2', b'@')
    ∷ (am_key_3, b'3', b'#')
    ∷ (am_key_4, b'4', b'$')
    ∷ (am_key_5, b'5', b'%')
    ∷ (am_key_6, b'6', b'^')
    ∷ (am_key_7, b'7', b'&')
    ∷ (am_key_8, b'8', b'*')
    ∷ (am_key_9, b'9', b'(')
    ∷ (am_key_a, b'a', b'A')
    ∷ (am_key_b, b'b', b'B')
    ∷ (am_key_c, b'c', b'C')
    ∷ (am_key_d, b'd', b'D')
    ∷ (am_key_e, b'e', b'E')
    ∷ (am_key_f, b'f', b'F')
    ∷ (am_key_g, b'g', b'G')
    ∷ (am_key_h, b'h', b'H')
    ∷ (am_key_i, b'i', b'I')
    ∷ (am_key_j, b'j', b'J')
    ∷ (am_key_k, b'k', b'K')
    ∷ (am_key_l, b'l', b'L')
    ∷ (am_key_m, b'm', b'M')
    ∷ (am_key_n, b'n', b'N')
    ∷ (am_key_o, b'o', b'O')
    ∷ (am_key_p, b'p', b'P')
    ∷ (am_key_q, b'q', b'Q')
    ∷ (am_key_r, b'r', b'R')
    ∷ (am_key_s, b's', b'S')
    ∷ (am_key_t, b't', b'T')
    ∷ (am_key_u, b'u', b'U')
    ∷ (am_key_v, b'v', b'V')
    ∷ (am_key_w, b'w', b'W')
    ∷ (am_key_x, b'x', b'X')
    ∷ (am_key_y, b'y', b'Y')
    ∷ (am_key_z, b'z', b'Z')
    ∷ (am_key_grave, b'`', b'~')
    ∷ (am_key_minus, b'-', b'_')
    ∷ (am_key_equals, b'=', b'+')
    ∷ (am_key_leftbracket, b'[', b'{')
    ∷ (am_key_rightbracket, b']', b'}')
    ∷ (am_key_backslash, 92, b'|')
    ∷ (am_key_semicolon, b';', b':')
    ∷ (am_key_apostrophe, 39, 34)
    ∷ (am_key_return, 10, 10)
    ∷ (am_key_comma, b',', b'<')
    ∷ (am_key_period, b'.', b'>')
    ∷ (am_key_slash, b'/', b'?')
    ∷ (am_key_space, 32, 32)
    ∷ (am_key_backspace, 8, 8)
    ∷ []

-- The entry of a key; the others are 0.
abbrev pub find_entry : List (ℕ × ℕ × ℕ) → ℕ → ℕ × ℕ
find_entry [] code = (0, 0)
find_entry ((key, plain, shifted) ∷ entries) code =
    if key == code then (plain, shifted) else find_entry entries code

-- `keymap`, inside of its 256 rows
unfoldable pub keymap : ℕ → ℕ × ℕ
keymap code = find_entry keymap_entries code
