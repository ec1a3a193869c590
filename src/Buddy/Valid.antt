-- ===== src/Buddy/Valid.antt =====
-- The invariant of the page allocator of kernel/src/page.c: every unit of physical memory has a
-- page record that holds a tree of its blocks, and no lock is held between calls.
use native.Mathlib.Decide.{ℕ_discrete}
use nju_os_lab.Common.{is_aligned, unlock}
use nju_os_lab.Prelude.{
  ℕ, ◌+◌, ◌*◌, ◌%◌, ◌^◌, ◌≤◌, ◌<◌, ◌≡◌, ◌≢◌, ◌∙◌, refl, ap, true, false, arith, ◌==◌, update,
}
use nju_os_lab.Buddy.{PageSystem, Nodes, phsics_unit, max_page_size, page_pool_len, p_16m}
use nju_os_lab.Buddy.Alloc.{get_space_in_page, alloc_space_from_page, alloc_in}
use nju_os_lab.Buddy.Tree.{Tree, Holds}
use nju_os_lab.Buddy.Place.{root, Placed, At-aligned}
use nju_os_lab.Buddy.Space.{Taken}
use nju_os_lab.Buddy.Search.{get_space-Found}
use nju_os_lab.Buddy.Scan.{root_byte}

-- The address of unit `n` of the physical memory that is handed out.
abbrev pub unit_addr : PageSystem → ℕ → ℕ
unit_addr s n = s.begin_alloc_addr + n * phsics_unit

-- `trees n` is the tree of unit `n`.
pub record IsValid (s : PageSystem) (trees : ℕ → Tree) : Type 0 where
  pub not_null : 0 < s.begin_page_addr
  pub aligned : s.begin_page_addr % phsics_unit ≡ 0
  pub first_unit : s.begin_alloc_addr ≡ s.begin_page_addr + phsics_unit
  pub few : s.real_page_num ≤ page_pool_len
  pub no_wrap : unit_addr s s.real_page_num < 2 ^ 64
  pub pool : (n : ℕ) → n < s.real_page_num → s.page_pool n ≡ s.begin_page_addr + n * max_page_size
  pub unlocked : (n : ℕ) → n < s.real_page_num → s.page_locks n ≡ 0
  pub held : (n : ℕ) → n < s.real_page_num → Holds (s.nodes (s.page_pool n)) 1 12 (trees n)

-- The operations leave the layout of the memory alone.
pub record SameLayout (s s' : PageSystem) : Type 0 where
  pub same_begin : s'.begin_page_addr ≡ s.begin_page_addr
  pub same_alloc : s'.begin_alloc_addr ≡ s.begin_alloc_addr
  pub same_num : s'.real_page_num ≡ s.real_page_num

module _ {s : PageSystem} {trees : ℕ → Tree} (v : IsValid s trees) where
  pub Placed-unit : (n : ℕ) → n < s.real_page_num → Placed s (s.page_pool n) (unit_addr s n)
  Placed-unit n lt = record {
    number = n;
    page_at = v.pool n lt;
    unit_at = refl;
    first_unit = v.first_unit;
    not_null = v.not_null;
    aligned = v.aligned;
    no_wrap = omega (arith, v);
  }

  -- Page records of different units stand at different addresses.
  page_pool-ne :
      (n m : ℕ) → n < s.real_page_num → m < s.real_page_num → n ≢ m → s.page_pool n ≢ s.page_pool m
  page_pool-ne n m ln lm ne e = ne (omega (arith, v.pool n ln, v.pool m lm))

-- What an allocation of a block of class `req` has done.
pub record Granted (req : ℕ) (s : PageSystem) (trees : ℕ → Tree) (addr : ℕ) (s' : PageSystem)
    : Type 0 where
  pub number : ℕ
  pub offset : ℕ
  pub tree : Tree
  pub in_range : number < s.real_page_num
  pub taken : Taken req 12 0 (trees number) offset tree
  pub address : addr ≡ unit_addr s number + offset
  pub aligned : addr % 2 ^ req ≡ 0
  pub valid : IsValid s' (update trees number tree)
  pub layout : SameLayout s s'

module _ {s : PageSystem} {trees : ℕ → Tree} (v : IsValid s trees) where
  -- Storing the new bytes of unit `n` keeps the invariant, with the new tree of that unit.
  store-IsValid :
      (n : ℕ) (t : Tree) (nd : Nodes) (locks : ℕ → ℕ)
      → n < s.real_page_num
      → Holds nd 1 12 t
      → ((j : ℕ) → j < s.real_page_num → locks j ≡ 0)
      → IsValid
          (record s { nodes = update s.nodes (s.page_pool n) nd; page_locks = locks })
          (update trees n t)
  store-IsValid n t nd locks lt h free = record {
    not_null = v.not_null;
    aligned = v.aligned;
    first_unit = v.first_unit;
    few = v.few;
    no_wrap = v.no_wrap;
    pool = v.pool;
    unlocked = free;
    held = λ m lm. elim (ℕ_discrete n m) [
      | yes e ↦
          let here : (n == m) ≡ true = ground arith in
          let page : (s.page_pool n == s.page_pool m) ≡ true = ground (arith, ap s.page_pool e) in
          rw (here, page) h
      | no ne ↦
          let other : (n == m) ≡ false = ground arith in
          let page : (s.page_pool n == s.page_pool m) ≡ false =
            ground (arith, page_pool-ne v n m lt lm ne) in
          rw (other, page) (v.held m lm)
    ];
  }

  -- `alloc_in` allocates in a unit whose root allows the class, and releases the lock.
  pub alloc_in-Granted :
      (req n : ℕ) (locks : ℕ → ℕ)
      → n < s.real_page_num
      → 12 ≤ req
      → req ≤ p_16m
      → req ≤ root_byte s n
      → ((j : ℕ) → (n ≡ j → ⊥) → locks j ≡ s.page_locks j)
      → Granted req s trees (alloc_in s req n locks).0 (alloc_in s req n locks).1
  unfolding alloc_in alloc_space_from_page is_aligned unlock
  alloc_in-Granted req n locks lt small big fits others =
      let p = Placed-unit v n lt in
      let f = get_space-Found p small 24 12 (trees n) 0 1 0 _ refl root (v.held n lt) big fits in
      let mult : (unit_addr s n + f.offset) % 2 ^ req ≡ 0 = At-aligned p f.place in
      let addr_mult : (get_space_in_page s (s.page_pool n) req 1 24 (s.nodes (s.page_pool n))).0
            % 2 ^ req
          ≡ 0 =
        ap (λ a. a % 2 ^ req) f.address ∙ mult in
      rw addr_mult (record {
        number = n;
        offset = f.offset;
        tree = f.tree;
        in_range = lt;
        taken = f.taken;
        address = f.address;
        aligned = addr_mult;
        valid =
            store-IsValid n f.tree _ _ lt f.held
              (λ j lj. ground (arith, others j, v.unlocked j lj));
        layout = record { same_begin = refl; same_alloc = refl; same_num = refl };
      })
