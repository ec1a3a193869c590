-- ===== src/Buddy/Booting.antt =====
-- `page_system_init` of kernel/src/page.c and the invariant of the page allocator.
use native.Mathlib.Decide.{ℕ_discrete, dec_le}
use nju_os_lab.Prelude.{
  ℕ, zero, suc, ◌+◌, ◌-◌, ◌*◌, ◌/◌, ◌%◌, ◌^◌, ◌≤◌, ◌<◌, ◌≡◌, ◌∙◌, refl, sym, true, false, ◌⊎◌, inl,
  inr, arith, leb, ltb, ◌==◌, update, u64,
}
use nju_os_lab.Buddy.{
  PageSystem, phsics_unit, max_page_size, page_pool_len, page_init, booted, overrun,
  system_init_loop, page_system_init,
}
use nju_os_lab.Buddy.Tree.{free, Clean}
use nju_os_lab.Buddy.Levels.{page_init-Clean}
use nju_os_lab.Buddy.Valid.{IsValid}

-- After `i` rounds of `page_system_init` the first `i` units have clean records.
record Built (begin : ℕ) (s : PageSystem) (i : ℕ) : Type 0 where
  page_at : s.begin_page_addr ≡ begin
  alloc_at : s.begin_alloc_addr ≡ begin + phsics_unit
  free_locks : (j : ℕ) → s.page_locks j ≡ 0
  pool : (n : ℕ) → n < i → s.page_pool n ≡ begin + n * max_page_size
  clean : (n : ℕ) → n < i → Clean (s.nodes (begin + n * max_page_size)) 1 12

-- One round of the loop.
abbrev build : PageSystem → ℕ → ℕ → PageSystem
build s index page = record s {
  page_pool = update s.page_pool index page;
  nodes = update s.nodes page (page_init (s.nodes page));
}

build-Built :
    {begin i : ℕ} (s : PageSystem) (page : ℕ)
    → page ≡ begin + i * max_page_size
    → Built begin s i
    → Built begin (build s i page) (i + 1)
build-Built {begin} {i} s page e b = record {
  page_at = b.page_at;
  alloc_at = b.alloc_at;
  free_locks = b.free_locks;
  pool = λ n lt. ground (arith, b.pool n);
  clean = λ n lt. elim (ℕ_discrete i n) [
    | yes q ↦
        let same : (page == begin + n * max_page_size) ≡ true = ground arith in
        rw same (page_init-Clean (s.nodes page))
    | no ne ↦
        let other : (page == begin + n * max_page_size) ≡ false = ground arith in
        rw other (b.clean n (omega arith))
  ];
}

-- The invariant and the number of units at the end.
abbrev pub Booted : (begin end : ℕ) → PageSystem → Type 0
Booted begin end s =
    IsValid s (λ n. free)
    × (s.begin_page_addr ≡ begin)
    × (s.real_page_num ≡ (end - (begin + phsics_unit)) / phsics_unit)

module _ {begin : ℕ} (end : ℕ) (pos : 0 < begin) (mult : begin % phsics_unit ≡ 0)
    (low : begin < 2 ^ 63) where
  stop-Booted :
      (i : ℕ) (s : PageSystem)
      → Built begin s i
      → i ≤ 256
      → (end - (begin + phsics_unit)) / phsics_unit ≡ i
      → Booted begin end (record s { real_page_num = i })
  stop-Booted i s b few e = (
    record {
      not_null = omega (arith, b.page_at);
      aligned = rw b.page_at mult;
      first_unit = omega (arith, b.page_at, b.alloc_at);
      few = few;
      no_wrap = omega (arith, b.alloc_at);
      pool = λ n lt. b.pool n lt ∙ omega (arith, b.page_at);
      unlocked = λ n lt. b.free_locks n;
      held = λ n lt. rw (b.pool n lt) (b.clean n lt);
    },
    b.page_at,
    sym e,
  )

  system_init_loop-Booted :
      (f i : ℕ) (alloc page : ℕ) (s : PageSystem)
      → f + i ≡ 257
      → 0 < f
      → alloc ≡ begin + phsics_unit + i * phsics_unit
      → page ≡ begin + i * max_page_size
      → (i ≡ 0) ⊎ (alloc ≤ end)
      → end < begin + 258 * phsics_unit
      → end < 2 ^ 63
      → Built begin s i
      → (s' : PageSystem) × (system_init_loop f end alloc page i s ≡ booted s')
        × Booted begin end s'
  unfolding system_init_loop
  system_init_loop-Booted zero i alloc page s fuel more ea ep le few small b = absurd (omega arith)
  system_init_loop-Booted (suc f) i alloc page s fuel more ea ep le few small b =
      elim (dec_le (alloc + phsics_unit) end) [
        | yes go ↦
            let test : leb (u64 (alloc + phsics_unit)) end ≡ true = ground arith in
            let inside : ltb i page_pool_len ≡ true = ground arith in
            let (s', run, done) =
              system_init_loop-Booted f (i + 1) (u64 (alloc + phsics_unit))
                (u64 (page + max_page_size)) (build s i page) (omega arith) (omega arith)
                (omega arith) (omega arith) (inr (omega arith)) few small
                (build-Built s page ep b) in
            (s', rw (test, inside) run, done)
        | no halt ↦
            let test : leb (u64 (alloc + phsics_unit)) end ≡ false = ground arith in
            (record s { real_page_num = i }, rw test, stop-Booted i s b (omega arith) (omega arith))
      ]

-- On a heap that holds at most 256 units behind the unit of the records, `page_system_init` ends
-- inside `page_pool`, establishes the invariant with every unit free, and counts all the units that
-- lie in the heap as a whole.
pub page_system_init-Booted :
    (begin end : ℕ) (s : PageSystem)
    → 0 < begin
    → begin % phsics_unit ≡ 0
    → begin < 2 ^ 63
    → end < begin + 258 * phsics_unit
    → end < 2 ^ 63
    → ((j : ℕ) → s.page_locks j ≡ 0)
    → (s' : PageSystem) × (page_system_init begin end s ≡ booted s') × Booted begin end s'
unfolding page_system_init
page_system_init-Booted begin end s pos mult low few small locks =
    system_init_loop-Booted end pos mult low 257 0 _ begin _ refl (omega arith) (omega arith)
      (omega arith) (inl refl) few small
      (record {
        page_at = refl;
        alloc_at = omega arith;
        free_locks = locks;
        pool = λ n lt. absurd (omega arith);
        clean = λ n lt. absurd (omega arith);
      })

-- With a 257th unit the loop writes past the end of `page_pool`, whatever the state.
overrun_loop :
    (end : ℕ) (f i : ℕ) (begin alloc page : ℕ) (s : PageSystem)
    → i + f ≡ 257
    → 0 < f
    → alloc ≡ begin + phsics_unit + i * phsics_unit
    → begin < 2 ^ 63
    → begin + 258 * phsics_unit ≤ end
    → system_init_loop f end alloc page i s ≡ overrun
unfolding system_init_loop
overrun_loop end zero i begin alloc page s e more ea low big = absurd (omega arith)
overrun_loop end (suc f) i begin alloc page s e more ea low big = elim (ℕ_discrete i 256) [
  | yes q ↦ ground arith
  | no ne ↦
      let rest =
        overrun_loop end f (i + 1) begin (u64 (alloc + phsics_unit)) (u64 (page + max_page_size))
          (build s i page) (omega arith) (omega arith) (omega arith) low big in
      ground arith
]

-- On a heap that holds more than 256 units behind the unit of the records, `page_system_init`
-- writes past the end of `page_pool`.
pub page_system_init-overrun :
    (begin end : ℕ) (s : PageSystem)
    → begin < 2 ^ 63
    → begin + 258 * phsics_unit ≤ end
    → page_system_init begin end s ≡ overrun
unfolding page_system_init
page_system_init-overrun begin end s low big =
    overrun_loop end 257 0 begin _ begin _ refl (omega arith) (omega arith) low big
