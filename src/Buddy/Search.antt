-- ===== src/Buddy/Search.antt =====
-- The descent of `get_space_in_page` of kernel/src/page.c through the tree of a unit.
use native.Mathlib.Decide.{dec_lt}
use mathlib.Core.Path.{subst, sym}
use nju_os_lab.Prelude.{
  ℕ, zero, suc, ◌+◌, ◌^◌, ◌≤◌, ◌<◌, ◌≡◌, arith, true, false, inl, inr, leb, Bool-cases,
}
use nju_os_lab.Buddy.{PageSystem, Nodes}
use nju_os_lab.Buddy.Alloc.{left_branch, right_branch, settle, get_space_in_page}
use nju_os_lab.Buddy.Tree.{
  Tree, free, used, split, Clean, Holds, Holds-same, SameBeside-left, SameBeside-right, Clean-byte,
  byte-le, free_of_byte,
}
use nju_os_lab.Buddy.Place.{At, left, right, At-Nth, Placed}
use nju_os_lab.Buddy.Space.{
  Taken, halve, in_left, in_right, Found, passes, take_whole-free, settle-Holds, settle-beside,
  settle-address,
}
use nju_os_lab.Common.Align.{pow-pos}

module _ {s : PageSystem} {page unit req : ℕ} (p : Placed s page unit) (small : 12 ≤ req) where
  At-pos : {d c i off : ℕ} → At d c i off → 1 ≤ i
  At-pos {d} a = omega (arith, (At-Nth a).node, pow-pos d)

  unit-pos : 0 < unit
  unit-pos = omega (arith, p)

  -- An allocation in the left half, seen from the whole block.
  finish-left :
      (k : ℕ) {d b i off : ℕ} {t l r : Tree} {nd : Nodes} (res : ℕ × Nodes)
      → At d b i off
      → Holds nd (right_branch i) k r
      → ((o : ℕ) (l' : Tree) → Taken req k off l o l' → Taken req (suc k) off t o (split l' r))
      → Found unit req (left_branch i) k off l nd res
      → Found unit req i (suc k) off t nd (settle req i res)
  finish-left k {i} {r} {nd} (addr, nd') a h lift f = record {
    offset = f.offset;
    tree = split f.tree r;
    depth = f.depth;
    node = f.node;
    place = f.place;
    taken = lift f.offset f.tree f.taken;
    address = rw (settle-address req i (addr, nd')) f.address;
    held =
        settle-Holds k req f.tree r nd' (At-pos a) (omega (arith, f.address, unit-pos)) f.held
          (Holds-same r k (SameBeside-right (At-pos a) f.beside) h);
    beside = settle-beside req (left_branch i) nd (addr, nd') (omega arith) f.beside;
  }

  -- An allocation in the right half.
  finish-right :
      (k : ℕ) {d b i off : ℕ} {t l r : Tree} {nd : Nodes} (off' : ℕ) (res : ℕ × Nodes)
      → At d b i off
      → Holds nd (left_branch i) k l
      → ((o : ℕ) (r' : Tree) → Taken req k off' r o r' → Taken req (suc k) off t o (split l r'))
      → Found unit req (right_branch i) k off' r nd res
      → Found unit req i (suc k) off t nd (settle req i res)
  finish-right k {i} {l} {nd} off' (addr, nd') a h lift f = record {
    offset = f.offset;
    tree = split l f.tree;
    depth = f.depth;
    node = f.node;
    place = f.place;
    taken = lift f.offset f.tree f.taken;
    address = rw (settle-address req i (addr, nd')) f.address;
    held =
        settle-Holds k req l f.tree nd' (At-pos a) (omega (arith, f.address, unit-pos))
          (Holds-same l k (SameBeside-left (At-pos a) f.beside) h) f.held;
    beside = settle-beside req (right_branch i) nd (addr, nd') (omega arith) f.beside;
  }

  -- The search succeeds at every node of class `b`.
  abbrev Succeeds : ℕ → Type 0
  Succeeds b =
      (k : ℕ) (t : Tree) (d i off : ℕ) (nd : Nodes)
      → b ≡ 12 + k
      → At d b i off
      → Holds nd i k t
      → req ≤ b
      → req ≤ nd i
      → Found unit req i k off t nd (get_space_in_page s page req i b nd)

  descend :
      (b : ℕ)
      → Succeeds b
      → (k : ℕ) (t : Tree) (d i off : ℕ) (nd : Nodes) → suc b ≡ 12 + k
      → At d (suc b) i off
      → Holds nd i k t
      → req < suc b
      → req ≤ nd i
      → Found unit req i k off t nd (get_space_in_page s page req i (suc b) nd)
  unfolding get_space_in_page
  descend b ih zero t d i off nd e a h lt le = absurd (omega arith)
  descend b ih (suc k) free d i off nd e a (_, cl, cr) lt le =
      let pass = passes p small a (omega arith) (omega arith) in
      let deeper : leb (suc b) req ≡ false = ground arith in
      let go_left : leb req (nd (left_branch i)) ≡ true =
        ground (arith, Clean-byte k (left_branch i) nd cl) in
      rw (pass, deeper, go_left)
        (finish-left k _ a cr (λ o l' tk. halve tk)
          (ih k free (suc d) (left_branch i) off nd (omega arith) (left a) cl (omega arith)
            (omega (arith, Clean-byte k (left_branch i) nd cl))))
  descend b ih (suc k) used d i off nd e a h lt le = absurd (omega (arith, h.0))
  descend b ih (suc k) (split l r) d i off nd e a (v, _, hl, hr) lt le =
      let pass = passes p small a (omega arith) (omega arith) in
      let deeper : leb (suc b) req ≡ false = ground arith in
      rw (pass, deeper)
        (elim (Bool-cases (leb req (nd (left_branch i)))) [
          | inl go_left ↦ rw go_left (
              finish-left k _ a hr (λ o l' tk. in_left tk)
                (ih k l (suc d) (left_branch i) off nd (omega arith) (left a) hl (omega arith)
                  (ground arith)))
          | inr go_right ↦ rw go_right (
              finish-right k (off + 2 ^ b) _ a hl (λ o r' tk. in_right (omega arith) tk)
                (ih k r (suc d) (right_branch i) (off + 2 ^ b) nd (omega arith) (right a) hr
                  (omega arith) (ground arith)))
        ])

  -- At a block of the wanted size.
  arrive :
      (b : ℕ) (k : ℕ) (t : Tree) (d i off : ℕ) (nd : Nodes)
      → suc b ≡ 12 + k
      → At d (suc b) i off
      → Holds nd i k t
      → req ≡ suc b
      → req ≤ nd i
      → Found unit req i k off t nd (get_space_in_page s page req i (suc b) nd)
  unfolding get_space_in_page
  arrive b k t d i off nd e a h eq le =
      let pass = passes p small a (omega arith) (omega arith) in
      let stop : leb (suc b) req ≡ true = ground arith in
      let whole_free = free_of_byte t k i nd h (omega (arith, byte-le t k i nd h)) in
      let clean : Clean nd i k = subst (λ u. Holds nd i k u) whole_free h in
      let here : At d req i off = subst (λ c. At d c i off) (sym eq) a in
      rw (pass, stop, whole_free, ← eq) (take_whole-free p small k (omega arith) here clean)

  -- `get_space_in_page` takes a block of the wanted size below every node whose byte allows it.
  pub get_space-Found : (b : ℕ) → Succeeds b
  get_space-Found zero k t d i off nd e a h fit le = absurd (omega arith)
  get_space-Found (suc b) k t d i off nd e a h fit le = elim (dec_lt req (suc b)) [
    | yes lt ↦ descend b (get_space-Found b) k t d i off nd e a h lt le
    | no ge ↦ arrive b k t d i off nd e a h (omega arith) le
  ]
