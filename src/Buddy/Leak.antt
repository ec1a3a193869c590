-- ===== src/Buddy/Leak.antt =====
-- What `page_free` of kernel/src/page.c does to memory that `page_alloc` manages.
use native.Mathlib.Decide.{ℕ_discrete, dec_lt}
use nju_os_lab.Prelude.{
  ℕ, suc, ◌+◌, ◌-◌, ◌/◌, ◌^◌, ◌≤◌, ◌<◌, ◌≡◌, refl, ap, true, false, arith, leb, update, u64,
}
use nju_os_lab.Common.{unlock}
use nju_os_lab.Buddy.{PageSystem, Nodes, p_16m}
use nju_os_lab.Buddy.Alloc.{convert_page_to_phsics}
use nju_os_lab.Buddy.Tree.{Tree, Holds-same}
use nju_os_lab.Buddy.Place.{root, convert-At}
use nju_os_lab.Buddy.Scan.{lock_free}
use nju_os_lab.Buddy.Valid.{unit_addr, IsValid, SameLayout, Placed-unit}
use nju_os_lab.Buddy.Free.{free_space_in_page, done, page_num, free_in, page_free}

-- The second early return of `free_space_in_page`: the pointer lies below the end of the block.
free_space_early :
    (s : PageSystem) (page ptr index base : ℕ) (nd : Nodes)
    → ptr < u64 (convert_page_to_phsics s page index (suc base) + 2 ^ suc base)
    → free_space_in_page s page ptr index (suc base) nd ≡ nd
unfolding free_space_in_page
free_space_early s page ptr index base nd h = ground arith

-- A pointer behind the last unit.
behind : {s : PageSystem} (ptr n : ℕ) → n < 2 ^ 31 → s.real_page_num ≤ n → free_in ptr n s ≡ done s
unfolding free_in
behind {s} ptr n small ge =
    let a : leb (2 ^ 31) n ≡ false = ground arith in
    let b : leb s.real_page_num n ≡ true = ground arith in rw (a, b)

-- The state in which `page_free` ends, with a free lock before it.
abbrev after : (ptr n : ℕ) → PageSystem → PageSystem
after ptr n s =
    let page = s.page_pool n in
    record s {
      nodes = update s.nodes page (free_space_in_page s page ptr 1 p_16m (s.nodes page));
      page_locks = update (update s.page_locks n 1) n 0;
    }

-- What a call of `page_free` that changes nothing leaves behind.
pub record Untouched (s : PageSystem) (trees : ℕ → Tree) (s' : PageSystem) : Type 0 where
  pub bytes : (a j : ℕ) → s'.nodes a j ≡ s.nodes a j
  pub valid : IsValid s' trees
  pub layout : SameLayout s s'

module _ {s : PageSystem} {trees : ℕ → Tree} (v : IsValid s trees) where
  -- The first call already returns: every pointer into a unit lies below the end of the unit.
  free_space_root :
      (ptr n : ℕ)
      → n < s.real_page_num
      → ptr < unit_addr s n + 2 ^ 24
      → (nd : Nodes) → free_space_in_page s (s.page_pool n) ptr 1 p_16m nd ≡ nd
  free_space_root ptr n lt below nd =
      let at = convert-At (Placed-unit v n lt) root (omega arith) in
      free_space_early s (s.page_pool n) ptr 1 23 nd (rw at (omega (arith, v)))

  same-IsValid :
      (nodes : ℕ → Nodes) (locks : ℕ → ℕ)
      → ((a j : ℕ) → nodes a j ≡ s.nodes a j)
      → ((j : ℕ) → j < s.real_page_num → locks j ≡ 0)
      → IsValid (record s { nodes = nodes; page_locks = locks }) trees
  same-IsValid nodes locks same free = record {
    not_null = v.not_null;
    aligned = v.aligned;
    first_unit = v.first_unit;
    few = v.few;
    no_wrap = v.no_wrap;
    pool = v.pool;
    unlocked = free;
    held = λ n lt. Holds-same (trees n) 12 (λ j m e. same (s.page_pool n) j) (v.held n lt);
  }

  free_in-Untouched :
      (ptr n : ℕ)
      → n < s.real_page_num
      → ptr < unit_addr s n + 2 ^ 24
      → (s' : PageSystem) × (free_in ptr n s ≡ done s') × Untouched s trees s'
  unfolding free_in unlock
  free_in-Untouched ptr n lt hi =
      let page = s.page_pool n in
      let small : leb (2 ^ 31) n ≡ false = ground (arith, v) in
      let inside : leb s.real_page_num n ≡ false = ground arith in
      let free = lock_free (s.page_locks n) (v.unlocked n lt) in
      let bytes : (a j : ℕ)
          → update s.nodes page (free_space_in_page s page ptr 1 p_16m (s.nodes page)) a j
            ≡ s.nodes a j =
        λ a j. same_bytes a j in
      (
        after ptr n s,
        rw (small, inside, free),
        record {
          bytes = bytes;
          valid = same-IsValid _ _ bytes (λ j lj. ground (arith, v.unlocked j lj));
          layout = record { same_begin = refl; same_alloc = refl; same_num = refl };
        },
      )
    where
      same_bytes :
          (a j : ℕ)
          → update s.nodes
              (s.page_pool n)
              (free_space_in_page s (s.page_pool n) ptr 1 p_16m (s.nodes (s.page_pool n)))
              a
              j
            ≡ s.nodes a j
      same_bytes a j =
          rw (free_space_root ptr n lt hi (s.nodes (s.page_pool n)))
            (elim (ℕ_discrete (s.page_pool n) a) [
              | yes e ↦ ground (arith, ap (λ b. s.nodes b j) e)
              | no ne ↦ ground arith
            ])

  -- On a valid state `page_free` of any address from the first that `page_alloc` manages on, below 2^64 and less
  -- than 2^54 bytes behind that first one, changes no byte: the block stays allocated.
  pub page_free-Untouched :
      (ptr : ℕ)
      → s.begin_alloc_addr ≤ ptr
      → ptr < s.begin_alloc_addr + 2 ^ 54
      → ptr < 2 ^ 64
      → (s' : PageSystem) × (page_free ptr s ≡ done s') × Untouched s trees s'
  unfolding page_free
  page_free-Untouched ptr lo hi fit =
      let number : page_num s ptr ≡ (ptr - s.begin_alloc_addr) / 2 ^ 24 = omega (arith, v) in
      elim (dec_lt (page_num s ptr) s.real_page_num) [
        | yes lt ↦ free_in-Untouched ptr (page_num s ptr) lt (omega (arith, number))
        | no ge ↦ (
          s,
          behind ptr (page_num s ptr) (omega (arith, number)) (omega arith),
          record {
            bytes = λ a j. refl;
            valid = v;
            layout = record { same_begin = refl; same_alloc = refl; same_num = refl };
          },
        )
      ]
