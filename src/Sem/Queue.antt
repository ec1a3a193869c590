-- ===== src/Sem/Queue.antt =====
-- The ring of waiting tasks of kernel/src/sem.c as a list of tasks, first come first.
use nju_os_lab.Prelude.{
  ℕ, ◌+◌, ◌%◌, ◌<◌, ◌≡◌, refl, Bool, false, ◌||◌, List, [], ◌∷◌, ◌++◌, length, arith, ◌==◌, update,
}
use nju_os_lab.Sem.{sem_capacity}

-- From slot `head` on the ring holds the tasks of the list.
abbrev pub Slots : (ℕ → ℕ) → ℕ → List ℕ → Type 0
Slots ring head [] = Unit {0}
Slots ring head (t ∷ ts) = (ring (head % sem_capacity) ≡ t) × Slots ring (head + 1) ts

-- The task is in the list.
abbrev pub waits : ℕ → List ℕ → Bool
waits t [] = false
waits t (u ∷ us) = (u == t) || waits t us

-- No task is in the list twice.
abbrev pub Distinct : List ℕ → Type 0
Distinct [] = Unit {0}
Distinct (t ∷ ts) = (waits t ts ≡ false) × Distinct ts

-- Writing the slot behind the last one appends to the list, while the ring is not full.
pub Slots-append :
    (ring : ℕ → ℕ) (head slot t : ℕ) (ts : List ℕ)
    → length ts < sem_capacity
    → slot ≡ (head + length ts) % sem_capacity
    → Slots ring head ts
    → Slots (update ring slot t) head (ts ++ t ∷ [])
Slots-append ring head slot t [] few e h = (ground arith, tt)
Slots-append ring head slot t (u ∷ us) few e h =
    (keep, Slots-append ring (head + 1) slot t us (omega arith) (omega arith) h.1)
  where
    keep : update ring slot t (head % sem_capacity) ≡ u
    keep = let ne : (slot == head % sem_capacity) ≡ false = ground arith in rw ne h.0

-- The list depends on the slot modulo the capacity only.
pub Slots-mod :
    (ring : ℕ → ℕ) (a b : ℕ) (ts : List ℕ)
    → a % sem_capacity ≡ b % sem_capacity
    → Slots ring a ts
    → Slots ring b ts
Slots-mod ring a b [] e h = tt
Slots-mod ring a b (t ∷ ts) e h =
    (rw (← e) h.0, Slots-mod ring (a + 1) (b + 1) ts (omega arith) h.1)

pub waits-append : (t u : ℕ) (ts : List ℕ) → waits u (ts ++ t ∷ []) ≡ ((t == u) || waits u ts)
waits-append t u [] = refl
waits-append t u (v ∷ vs) = ground (arith, waits-append t u vs)

pub Distinct-append :
    (t : ℕ) (ts : List ℕ) → waits t ts ≡ false → Distinct ts → Distinct (ts ++ t ∷ [])
Distinct-append t [] h d = (refl, tt)
Distinct-append t (v ∷ vs) h d =
    (ground (arith, waits-append t v vs), Distinct-append t vs (ground arith) d.1)
