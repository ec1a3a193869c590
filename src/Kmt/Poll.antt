-- ===== src/Kmt/Poll.antt =====
-- The loop of `kmt_schedule` of kernel/src/kmt.c on a linked list of tasks.
use nju_os_lab.Prelude.{
  ℕ, zero, suc, ◌+◌, ◌≡◌, ◌≢◌, refl, ap, ◌∙◌, inl, inr, Bool, true, false, ◌||◌, ◌&&◌, List, [],
  ◌∷◌, ◌++◌, length, arith, ◌==◌, if◌then◌else◌, Bool-cases,
}
use nju_os_lab.Common.{null}
use nju_os_lab.Kmt.{Kmt, Task, Choice, again, switch_to, exhausted, successor, poll}

-- From `head` on the links run through the tasks of the list, up to `NULL`.
abbrev pub Linked : (ℕ → Task) → ℕ → List ℕ → Type 0
Linked tasks head [] = head ≡ null
Linked tasks head (t ∷ ts) = (head ≡ t) × (t ≢ null) × Linked tasks (tasks t).next ts

-- The scheduler passes over a task: a blocked one, or one that runs on another CPU.
pub busy : Kmt → (cur t : ℕ) → Bool
busy s cur t = if t == cur then (s.tasks t).blocked else (s.tasks t).running || (s.tasks t).blocked

-- The choice that goes with a task.
unfoldable pub offer : (cur t : ℕ) → Choice
offer cur t = if t == cur then again else switch_to t

-- The first task of the list that is not busy, or `default`.
unfoldable pub scan : Kmt → (cur : ℕ) → Choice → List ℕ → Choice
scan s cur default [] = default
scan s cur default (t ∷ ts) = if busy s cur t then scan s cur default ts else offer cur t

unfoldable pub all_busy : Kmt → (cur : ℕ) → List ℕ → Bool
all_busy s cur [] = true
all_busy s cur (t ∷ ts) = busy s cur t && all_busy s cur ts

unfoldable pub last_of : ℕ → List ℕ → ℕ
last_of t [] = t
last_of t (u ∷ us) = last_of u us

pub scan-append :
    (s : Kmt) (cur : ℕ) (d : Choice) (l r : List ℕ)
    → scan s cur d (l ++ r) ≡ scan s cur (scan s cur d r) l
unfolding scan
scan-append s cur d [] r = refl
scan-append s cur d (t ∷ l) r = rw (scan-append s cur d l r)

pub scan_busy :
    (s : Kmt) (cur : ℕ) (d : Choice) (l : List ℕ) → all_busy s cur l ≡ true → scan s cur d l ≡ d
unfolding scan all_busy
scan_busy s cur d [] h = refl
scan_busy s cur d (t ∷ l) h =
    let b : busy s cur t ≡ true = ground arith in rw b (scan_busy s cur d l (ground arith))

pub scan_default :
    (s : Kmt) (cur : ℕ) (d e : Choice) (l : List ℕ)
    → all_busy s cur l ≡ false
    → scan s cur d l ≡ scan s cur e l
unfolding scan all_busy
scan_default s cur d e [] h = cc h
scan_default s cur d e (t ∷ l) h = elim (Bool-cases (busy s cur t)) [
  | inl b ↦ rw b (scan_default s cur d e l (ground arith))
  | inr b ↦ rw b
]

pub all_busy-append :
    (s : Kmt) (cur : ℕ) (l r : List ℕ)
    → all_busy s cur (l ++ r) ≡ (all_busy s cur l && all_busy s cur r)
unfolding all_busy
all_busy-append s cur [] r = refl
all_busy-append s cur (t ∷ l) r = ground (arith, all_busy-append s cur l r)

-- One round of the loop.
poll_step :
    (s : Kmt) (cur n t u : ℕ)
    → successor s t ≡ u
    → u ≢ null
    → poll s cur (suc n) t ≡ (if busy s cur u then poll s cur n u else offer cur u)
unfolding poll busy offer
poll_step s cur n t u e ne = elim (Bool-cases (u == cur)) [
  | inl same ↦ rw (e, same)
  | inr other ↦ let some' : (u == null) ≡ false = ground arith in rw (e, other, some')
]

-- The successor of a task is the next one of the list.
pub successor-next :
    (s : Kmt) (t : ℕ) {u : ℕ} (us : List ℕ)
    → Linked s.tasks (s.tasks t).next (u ∷ us)
    → successor s t ≡ u
unfolding successor
successor-next s t us (e, ne, l) = ground arith

-- As many rounds as the list has tasks look at each of them in order.
pub poll_walk :
    (s : Kmt) (cur m t u : ℕ) (us : List ℕ)
    → successor s t ≡ u
    → Linked s.tasks u (u ∷ us)
    → poll s cur (length (u ∷ us) + m) t ≡ scan s cur (poll s cur m (last_of u us)) (u ∷ us)
unfolding scan last_of
poll_walk s cur m t u [] e (same, ne, l) =
    ap (λ k. poll s cur k t) (omega arith) ∙ poll_step s cur m t u e ne
poll_walk s cur m t u (v ∷ vs) e (same, ne, l) =
    ap (λ k. poll s cur k t) (omega arith)
    ∙ poll_step s cur (length (v ∷ vs) + m) t u e ne
    ∙ ap (λ c. if busy s cur u then c else offer cur u)
        (poll_walk s cur m u v vs (successor-next s u vs l) (refl, l.1, l.2))

module _ (s : Kmt) (cur head : ℕ) (ts : List ℕ) (list : Linked s.tasks s.task_list (head ∷ ts))
    (all : all_busy s cur (head ∷ ts) ≡ true) where
  -- While all tasks are busy the loop finds none, however many rounds it has.
  pub poll_busy :
      (n t u : ℕ) (us : List ℕ)
      → successor s t ≡ u
      → Linked s.tasks u (u ∷ us)
      → all_busy s cur (u ∷ us) ≡ true
      → poll s cur n t ≡ exhausted
  unfolding all_busy
  poll_busy zero t u us e l h = unfold poll in refl
  poll_busy (suc n) t u [] e l h =
      let b : busy s cur u ≡ true = ground arith in
      let wrap : successor s u ≡ head = unfold successor in ground (arith, l.2, list.0) in
      rw (poll_step s cur n t u e l.1, b) (poll_busy n u head ts wrap (refl, list.1, list.2) all)
  poll_busy (suc n) t u (v ∷ vs) e l h =
      let b : busy s cur u ≡ true = ground arith in
      rw (poll_step s cur n t u e l.1, b)
        (poll_busy n u v vs (successor-next s u vs l.2) (refl, l.2.1, l.2.2) (ground arith))
