-- ===== src/Klib/Tests.antt =====
-- The theorems about abstract-machine/klib/src/string.c at a small memory.
use nju_os_lab.Prelude.{ℕ, ◌+◌, ◌<◌, ◌≡◌, ◌↔◌, refl, List, [], ◌∷◌, arith, ◌==◌, if◌then◌else◌}
use nju_os_lab.Klib.{Mem, returns, memmove, strcmp}
use nju_os_lab.Klib.Memory.{memmove-overrun}
use nju_os_lab.Klib.Text.{CString}
use nju_os_lab.Klib.Compare.{compare_strings, strcmp-compare_strings}

-- "tty" at 100 and "tt" at 200, and nothing else.
abbrev m : Mem
m a =
    if a == 100
    then b't'
    else if a == 101
    then b't'
    else if a == 102
    then b'y'
    else if a == 200
    then b't'
    else if a == 201
    then b't'
    else 0

abbrev tty : List ℕ
tty = b't' ∷ b't' ∷ b'y' ∷ []

abbrev tt_ : List ℕ
tt_ = b't' ∷ b't' ∷ []

tty-CString : CString m 100 tty
tty-CString = (refl, omega arith, (refl, omega arith, (refl, omega arith, refl)))

tt_-CString : CString m 200 tt_
tt_-CString = (refl, omega arith, (refl, omega arith, refl))

memmove-overrun_example :
    (m' : Mem) × (memmove 300 100 2 m ≡ returns (300, m'))
    × ((k : ℕ) → k + 1 < 2 → m' (300 + k) ≡ m (300 + k))
    × (m' (300 + 2) ≡ m (100 + 2))
memmove-overrun_example =
    memmove-overrun 300 100 2 m (omega arith) (omega arith) (omega arith) (omega arith)

strcmp_example :
    (strcmp 4 100 200 m ≡ returns (compare_strings tty tt_))
    × ((compare_strings tty tt_ ≡ 0) ↔ (tty ≡ tt_))
strcmp_example =
    strcmp-compare_strings 4 100 200 tty tt_ m (omega arith) (omega arith) tty-CString tt_-CString
      (omega arith) (omega arith) (omega arith) (omega arith)
