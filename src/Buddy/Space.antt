-- ===== src/Buddy/Space.antt =====
-- `get_space_in_page` of kernel/src/page.c on the tree of a unit: the block it takes, and the bytes
-- it leaves.
use native.Mathlib.Nat.{pow-le-pow_right}
use nju_os_lab.Prelude.{
  ℕ, zero, suc, ◌+◌, ◌/◌, ◌^◌, ◌≤◌, ◌<◌, ◌≡◌, arith, true, false, ◌==◌, update,
}
use nju_os_lab.Common.{null}
use nju_os_lab.Common.Align.{pow-pos}
use nju_os_lab.Buddy.{PageSystem, Nodes, page_node_num}
use nju_os_lab.Buddy.Alloc.{left_branch, right_branch, take_whole, settle, refuses}
use nju_os_lab.Buddy.Tree.{
  Tree, free, used, split, Clean, CleanBelow, Clean-same, Holds, Holds-same, above_le, SameBeside,
  Clean-byte, byte-le,
}
use nju_os_lab.Buddy.Place.{At, At-Nth, Placed, convert-At}

-- The second tree is the first one with a free block of size class `req`, at offset `o`, taken. The
-- first tree stands for a block of class `12 + k` at offset `off`.
pub data Taken (req : ℕ) : (k off : ℕ) → Tree → ℕ → Tree → Type 0 where
  whole : {k off : ℕ} → req ≡ 12 + k → Taken req k off free off used
  halve :
      {k off o : ℕ} {l : Tree}
      → Taken req k off free o l
      → Taken req (suc k) off free o (split l free)
  in_left :
      {k off o : ℕ} {l r l' : Tree}
      → Taken req k off l o l'
      → Taken req (suc k) off (split l r) o (split l' r)
  in_right :
      {k off o c : ℕ} {l r r' : Tree}
      → c ≡ 12 + k
      → Taken req k (off + 2 ^ c) r o r'
      → Taken req (suc k) off (split l r) o (split l r')

-- What a successful search below node `i` has done.
pub record Found (unit req i k off : ℕ) (t : Tree) (nd : Nodes) (r : ℕ × Nodes) : Type 0 where
  pub offset : ℕ
  pub tree : Tree
  pub depth : ℕ
  pub node : ℕ
  pub place : At depth req node offset
  pub taken : Taken req k off t offset tree
  pub address : r.0 ≡ unit + offset
  pub held : Holds r.1 i k tree
  pub beside : SameBeside i nd r.1

-- Writing the byte of a node leaves the bytes below its halves alone.
take_whole-below : (k i v : ℕ) (nd : Nodes) → 1 ≤ i → Clean nd i k → CleanBelow (update nd i v) i k
take_whole-below zero i v nd pos h = tt
take_whole-below (suc k) i v nd pos (_, l, r) = (
  Clean-same k (λ j m e. ground (arith, above_le 0 m j)) l,
  Clean-same k (λ j m e. ground (arith, above_le 0 m j)) r,
)

module _ {s : PageSystem} {page unit req : ℕ} (p : Placed s page unit) (small : 12 ≤ req) where
  -- The guard of `get_space_in_page` lets every node of the record pass.
  pub passes : {d b i off : ℕ} → At d b i off → 12 ≤ b → req ≤ b → refuses page req i b ≡ false
  passes {d} {b} {i} a h le =
      let n = At-Nth a in
      let e : 2 ^ d ≤ 2 ^ 12 = pow-le-pow_right (omega arith) {j = 12} (omega (arith, n.depth)) in
      let lt : i < page_node_num = omega (arith, n.node, n.below) in
      let ne : 0 < page = omega (arith, p) in ground arith

  pub take_whole-free :
      (k : ℕ) {d i off : ℕ} {nd : Nodes}
      → req ≡ 12 + k
      → At d req i off
      → Clean nd i k
      → Found unit req i k off free nd (take_whole s page req i req nd)
  unfolding take_whole
  take_whole-free k {d} {i} {off} {nd} e a h =
      let byte : nd i ≡ req = omega (arith, Clean-byte k i nd h) in
      let test : (nd i == req) ≡ true = ground arith in
      let pos : 1 ≤ i = omega (arith, (At-Nth a).node, pow-pos d) in
      rw test (record {
        offset = off;
        tree = used;
        depth = d;
        node = i;
        place = a;
        taken = whole e;
        address = convert-At p a small;
        held = (ground arith, take_whole-below k i _ nd pos h);
        beside = λ j out. ground (arith, out 0);
      })

-- What `settle` makes of a node whose halves hold trees.
pub settle-Holds :
    (k : ℕ) {i : ℕ} {addr : ℕ} (req : ℕ) (l r : Tree) (nd : Nodes)
    → 1 ≤ i
    → 0 < addr
    → Holds nd (left_branch i) k l
    → Holds nd (right_branch i) k r
    → Holds (settle req i (addr, nd)).1 i (suc k) (split l r)
unfolding settle
settle-Holds k {i} {addr} req l r nd pos ne hl hr =
    let some_address : (addr == null) ≡ false = ground arith in
    rw some_address (
      ground (arith),
      ground (arith, byte-le l k (left_branch i) nd hl, byte-le r k (right_branch i) nd hr),
      Holds-same l k (λ j m e. ground (arith, above_le 0 m j)) hl,
      Holds-same r k (λ j m e. ground (arith, above_le 0 m j)) hr,
    )

pub settle-beside :
    {i : ℕ} (req c : ℕ) (nd : Nodes) (r : ℕ × Nodes)
    → c / 2 ≡ i
    → SameBeside c nd r.1
    → SameBeside i nd (settle req i r).1
unfolding settle
settle-beside {i} req c nd (addr, nd') e same j out =
    ground (arith, out 0, same j (λ m e'. out (suc m) (omega arith)))

pub settle-address : (req i : ℕ) (r : ℕ × Nodes) → (settle req i r).0 ≡ r.0
unfolding settle
settle-address req i (addr, nd) = ground arith
