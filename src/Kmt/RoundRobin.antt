-- ===== src/Kmt/RoundRobin.antt =====
-- `kmt_schedule` of kernel/src/kmt.c as a choice among the tasks of its list.
use mathlib.Core.Path.{subst}
use nju_os_lab.Prelude.{
  ℕ, ◌<◌, ◌^◌, ◌+◌, ◌-◌, ◌≤◌, ◌≡◌, ◌≢◌, refl, sym, ap, ◌∙◌, inl, inr, true, false, List, [], ◌∷◌,
  ◌++◌, length, length-append, arith, ◌==◌, Bool-cases,
}
use nju_os_lab.Common.{null}
use nju_os_lab.Kmt.{
  Kmt, Task, Choice, exhausted, lost, successor, poll, poll_times, resume, kmt_schedule,
}
use nju_os_lab.Kmt.Outcomes.{Turned, Turned-choice, same_current}
use nju_os_lab.Kmt.Poll.{
  Linked, scan, busy, offer, all_busy, last_of, scan-append, scan_busy, scan_default,
  all_busy-append, successor-next, poll_walk, poll_busy,
}

-- The list behind one of its tasks.
Linked-behind :
    (tasks : ℕ → Task) (head cur : ℕ) (front back : List ℕ)
    → Linked tasks head (front ++ cur ∷ back)
    → Linked tasks (tasks cur).next back
Linked-behind tasks head cur [] back l =
    subst (λ (k : ℕ). Linked tasks (tasks k).next back) refl l.2
Linked-behind tasks head cur (t ∷ front) back l =
    Linked-behind tasks (tasks t).next cur front back l.2

-- The last task of a list has no next one.
last-next :
    (tasks : ℕ → Task) (u : ℕ) (us : List ℕ)
    → Linked tasks (tasks u).next us
    → (tasks (last_of u us)).next ≡ null
unfolding last_of
last-next tasks u [] l = l
last-next tasks u (v ∷ vs) l = last-next tasks v vs l.2

module _ (s : Kmt) (cur : ℕ) (head : ℕ) (ts : List ℕ)
    (list : Linked s.tasks s.task_list (head ∷ ts)) where
  wrap : (t : ℕ) → (s.tasks t).next ≡ null → successor s t ≡ head
  unfolding successor
  wrap t e = ground (arith, list.0)

  -- From a task without a next one the whole list is looked at.
  poll_list :
      (t m : ℕ)
      → (s.tasks t).next ≡ null
      → poll s cur (length (head ∷ ts) + m) t
        ≡ scan s cur (poll s cur m (last_of head ts)) (head ∷ ts)
  poll_list t m e = poll_walk s cur m t head ts (wrap t e) (refl, list.1, list.2)

  -- The tasks behind `t`, and then the whole list.
  poll_around :
      (t m : ℕ) (back : List ℕ)
      → Linked s.tasks (s.tasks t).next back
      → (d : Choice) × (poll s cur (length back + (length (head ∷ ts) + m)) t
          ≡ scan s cur (scan s cur d (head ∷ ts)) back)
  poll_around t m [] l = (
    poll s cur m (last_of head ts),
    ap (λ k. poll s cur k t) (omega arith) ∙ poll_list t m l ∙ unfold scan in refl,
  )
  poll_around t m (u ∷ us) l = (
    poll s cur m (last_of head ts),
    poll_walk s cur (length (head ∷ ts) + m) t u us (successor-next s t us l) (refl, l.1, l.2)
        ∙ ap (λ c. scan s cur c (u ∷ us)) (poll_list (last_of u us) m (last-next s.tasks u us l.2)),
  )

regroup :
    (front : List ℕ) (cur : ℕ) (back : List ℕ) → front ++ cur ∷ back ≡ (front ++ cur ∷ []) ++ back
regroup [] cur back = refl
regroup (t ∷ front) cur back = ap (λ l. t ∷ l) (regroup front cur back)

-- One turn through the list starts behind the current task and ends with it.
scan_turn :
    (s : Kmt) (cur : ℕ) (d : Choice) (front back : List ℕ)
    → all_busy s cur (front ++ cur ∷ back) ≡ false
    → scan s cur (scan s cur d (front ++ cur ∷ back)) back
      ≡ scan s cur exhausted (back ++ (front ++ cur ∷ []))
scan_turn s cur d front back h = elim (Bool-cases (all_busy s cur back)) [
  | inl b ↦
      let turn = front ++ cur ∷ [] in
      let idle : all_busy s cur turn ≡ false =
        ground
          (arith, all_busy-append s cur turn back, ap (all_busy s cur) (regroup front cur back)) in
      rw
        (
          scan_busy s cur (scan s cur d (front ++ cur ∷ back)) back b,
          regroup front cur back,
          scan-append s cur d turn back,
          scan-append s cur exhausted back turn,
          scan_busy s cur d back b,
          scan_busy s cur (scan s cur exhausted turn) back b,
        )
        (scan_default s cur d exhausted turn idle)
  | inr b ↦ rw (scan-append s cur exhausted back (front ++ cur ∷ [])) (
      scan_default s cur (scan s cur d (front ++ cur ∷ back))
        (scan s cur exhausted (front ++ cur ∷ [])) back b)
]

-- A list with the current task in it has a first task.
as_cons :
    (front : List ℕ) (cur : ℕ) (back : List ℕ)
    → (head : ℕ) × (ts : List ℕ) × (front ++ cur ∷ back ≡ head ∷ ts)
as_cons [] cur back = (cur, back, refl)
as_cons (t ∷ front) cur back = (t, front ++ cur ∷ back, refl)

all_busy-turn :
    (s : Kmt) (cur : ℕ) (front back : List ℕ)
    → all_busy s cur (front ++ cur ∷ back) ≡ true
    → all_busy s cur (back ++ (front ++ cur ∷ [])) ≡ true
unfolding all_busy
all_busy-turn s cur front back h = ground (
  arith,
  all_busy-append s cur front (cur ∷ back),
  all_busy-append s cur front (cur ∷ []),
  all_busy-append s cur back (front ++ cur ∷ []),
)

module _ (s : Kmt) (cur head : ℕ) (ts : List ℕ) (list : Linked s.tasks s.task_list (head ∷ ts))
    (all : all_busy s cur (head ∷ ts) ≡ true) where
  poll_idle :
      (t n : ℕ) (back : List ℕ)
      → Linked s.tasks (s.tasks t).next back
      → all_busy s cur back ≡ true
      → poll s cur n t ≡ exhausted
  poll_idle t n [] l h =
      poll_busy s cur head ts list all n t head ts (wrap s cur head ts list t l)
        (refl, list.1, list.2) all
  poll_idle t n (u ∷ us) l h =
      poll_busy s cur head ts list all n t u us (successor-next s t us l) (refl, l.1, l.2) h

Linked-null :
    (tasks : ℕ → Task) (head : ℕ) (front : List ℕ) (cur : ℕ) (back : List ℕ)
    → Linked tasks head (front ++ cur ∷ back)
    → cur ≢ null
Linked-null tasks head [] cur back l = l.1
Linked-null tasks head (t ∷ front) cur back l = Linked-null tasks (tasks t).next front cur back l.2

all_busy-behind :
    (s : Kmt) (cur : ℕ) (front back : List ℕ)
    → all_busy s cur (front ++ cur ∷ back) ≡ true
    → all_busy s cur back ≡ true
unfolding all_busy
all_busy-behind s cur front back h = ground (arith, all_busy-append s cur front (cur ∷ back))

-- The loop with enough rounds for the tasks behind the current one and the whole list.
poll_turn :
    (s : Kmt) (cur n : ℕ) (front back : List ℕ)
    → Linked s.tasks s.task_list (front ++ cur ∷ back)
    → length back + length (front ++ cur ∷ back) ≤ n
    → poll s cur n cur ≡ scan s cur exhausted (back ++ (front ++ cur ∷ []))
poll_turn s cur n front back l le =
    let (head, ts, e) = as_cons front cur back in
    let list : Linked s.tasks s.task_list (head ∷ ts) = rw e at l in
    let behind = Linked-behind s.tasks s.task_list cur front back l in
    elim (Bool-cases (all_busy s cur (front ++ cur ∷ back))) [
      | inl all ↦
          let e' = ap (all_busy s cur) e in
          poll_idle s cur head ts list (sym e' ∙ all) cur n back behind
            (all_busy-behind s cur front back all)
          ∙ sym (
              scan_busy s cur exhausted (back ++ (front ++ cur ∷ []))
                (all_busy-turn s cur front back all))
      | inr some' ↦
          let m = n - (length back + length (head ∷ ts)) in
          let (d, round) = poll_around s cur head ts list cur m back behind in
          ap (λ k. poll s cur k cur) (omega (arith, ap length e))
          ∙ round
          ∙ ap (λ w. scan s cur (scan s cur d w) back) (sym e)
          ∙ scan_turn s cur d front back some'
    ]

offer-found : (cur t : ℕ) → offer cur t ≢ lost
unfolding offer
offer-found cur t = elim (Bool-cases (t == cur)) [ inl e ↦ rw e (λ h. cc) | inr e ↦ rw e (λ h. cc) ]

-- The turn finds a task, or none.
scan-found : (s : Kmt) (cur : ℕ) (d : Choice) (l : List ℕ) → d ≢ lost → scan s cur d l ≢ lost
unfolding scan
scan-found s cur d [] ne = ne
scan-found s cur d (t ∷ ts) ne = elim (Bool-cases (busy s cur t)) [
  | inl b ↦ rw b (scan-found s cur d ts ne)
  | inr b ↦ rw b (offer-found cur t)
]

-- `kmt_schedule` with a current task in a list of at most `task_count` tasks makes one turn through the list,
-- starting behind that task and ending with it, and takes the first task that is neither blocked nor,
-- unless it is the current one, running. If that is the current one, it goes on in the context it
-- saved last, one level less deep. If it is another one, that one becomes the current task of the CPU,
-- is marked as running, and goes on in its next context. If there is none, the idle task of the CPU
-- becomes the current one and goes on in its first context. It faults only if the task has no such
-- context, or there is no idle task.
pub kmt_schedule-turn :
    (cpu cur : ℕ) (s : Kmt) (front back : List ℕ)
    → s.current_task cpu ≡ cur
    → (s.tasks cur).i_nest < 2 ^ 32
    → Linked s.tasks s.task_list (front ++ cur ∷ back)
    → length (front ++ cur ∷ back) ≤ s.task_count
    → Turned cpu cur s (scan s cur exhausted (back ++ (front ++ cur ∷ []))) (kmt_schedule cpu s)
unfolding kmt_schedule
kmt_schedule-turn cpu cur s front back e word l le =
    let there : (cur == null) ≡ false =
      ground (arith, Linked-null s.tasks s.task_list front cur back l) in
    let turn = scan s cur exhausted (back ++ (front ++ cur ∷ [])) in
    let found : turn ≢ lost = scan-found s cur exhausted (back ++ (front ++ cur ∷ [])) (λ h. cc) in
    rw (e, there, there, same_current cpu cur s e)
      (subst (λ c. Turned cpu cur s turn (resume cpu cur c s))
        (sym (
          poll_turn s cur (poll_times s) front back l
            (omega (arith, length-append front (cur ∷ back)))))
        (Turned-choice cpu cur s turn word e found))
