-- ===== src/Buddy/Tree.antt =====
-- The abstract state of one unit of physical memory: a tree of blocks, and what it means that the
-- bytes of a page record hold such a tree.
use nju_os_lab.Prelude.{ℕ, zero, suc, ◌+◌, ◌/◌, ◌≤◌, ◌<◌, ◌≡◌, ◌≢◌, ◌⊎◌, refl, ◌∙◌, arith}
use nju_os_lab.Buddy.{Nodes, have_bubble, full_used}
use nju_os_lab.Buddy.Alloc.{left_branch, right_branch, larger}

-- A block is free, allocated as a whole, or in two halves.
pub data Tree : Type 0 where
  free : Tree
  used : Tree
  split : Tree → Tree → Tree

-- Every byte below node `i`, whose block has size class `12 + k`, is that of a free block.
abbrev pub Clean : Nodes → ℕ → ℕ → Type 0
Clean nd i zero = nd i ≡ 12
Clean nd i (suc k) = (nd i ≡ 13 + k) × Clean nd (left_branch i) k × Clean nd (right_branch i) k

-- The same of the halves of the block.
abbrev pub CleanBelow : Nodes → ℕ → ℕ → Type 0
CleanBelow nd i zero = Unit {0}
CleanBelow nd i (suc k) = Clean nd (left_branch i) k × Clean nd (right_branch i) k

-- The bytes from node `i` down hold a tree of a block of size class `12 + k`. A block in halves has
-- the larger byte of its halves, or is closed by a bubble; either is below that of a free block.
abbrev pub Holds : Nodes → ℕ → ℕ → Tree → Type 0
Holds nd i k free = Clean nd i k
Holds nd i k used = (nd i ≡ full_used) × CleanBelow nd i k
Holds nd i zero (split l r) = ⊥
Holds nd i (suc k) (split l r) =
    ((nd i ≡ have_bubble) ⊎ (nd i ≡ larger (nd (left_branch i)) (nd (right_branch i))))
    × (nd i < 13 + k)
    × Holds nd (left_branch i) k l
    × Holds nd (right_branch i) k r

-- The node `m` levels above `j`.
abbrev pub above : ℕ → ℕ → ℕ
above zero j = j
above (suc m) j = above m j / 2

-- The bytes below node `i`, itself included, are the same in `nd` and `nd'`.
abbrev pub SameBelow : ℕ → Nodes → Nodes → Type 0
SameBelow i nd nd' = (j m : ℕ) → above m j ≡ i → nd' j ≡ nd j

-- All other bytes are the same.
abbrev pub SameBeside : ℕ → Nodes → Nodes → Type 0
SameBeside i nd nd' = (j : ℕ) → ((m : ℕ) → above m j ≢ i) → nd' j ≡ nd j

pub SameBelow-left :
    {i : ℕ} {nd nd' : Nodes} → SameBelow i nd nd' → SameBelow (left_branch i) nd nd'
SameBelow-left {i} s j m e = s j (suc m) (omega arith)

pub SameBelow-right :
    {i : ℕ} {nd nd' : Nodes} → SameBelow i nd nd' → SameBelow (right_branch i) nd nd'
SameBelow-right {i} s j m e = s j (suc m) (omega arith)

pub Clean-same :
    (k : ℕ) {i : ℕ} {nd nd' : Nodes} → SameBelow i nd nd' → Clean nd i k → Clean nd' i k
Clean-same zero {i} s c = s i 0 refl ∙ c
Clean-same (suc k) {i} s (e, l, r) =
    (s i 0 refl ∙ e, Clean-same k (SameBelow-left s) l, Clean-same k (SameBelow-right s) r)

pub CleanBelow-same :
    (k : ℕ) {i : ℕ} {nd nd' : Nodes} → SameBelow i nd nd' → CleanBelow nd i k → CleanBelow nd' i k
CleanBelow-same zero s c = tt
CleanBelow-same (suc k) s (l, r) =
    (Clean-same k (SameBelow-left s) l, Clean-same k (SameBelow-right s) r)

-- A tree stays held when nothing below its node changes.
pub Holds-same :
    (t : Tree) (k : ℕ) {i : ℕ} {nd nd' : Nodes}
    → SameBelow i nd nd'
    → Holds nd i k t
    → Holds nd' i k t
Holds-same free k s h = Clean-same k s h
Holds-same used k {i} s (e, c) = (s i 0 refl ∙ e, CleanBelow-same k s c)
Holds-same (split l r) zero s h = h
Holds-same (split l r) (suc k) {i} s (v, b, hl, hr) =
    let e = s i 0 refl in
    let el = s (left_branch i) 1 (omega arith) in
    let er = s (right_branch i) 1 (omega arith) in
    (
      ground arith,
      ground arith,
      Holds-same l k (SameBelow-left s) hl,
      Holds-same r k (SameBelow-right s) hr,
    )

-- Higher up the node numbers do not grow.
pub above_le : (a b j : ℕ) → a ≤ b → above b j ≤ above a j
above_le zero zero j h = omega arith
above_le zero (suc b) j h = omega (arith, above_le zero b j (omega arith))
above_le (suc a) zero j h = elim h [ ]
above_le (suc a) (suc b) j h = omega (arith, above_le a b j (omega arith))

-- What lies below one half of a block lies beside the other half.
pub SameBeside-right :
    {i : ℕ} {nd nd' : Nodes}
    → 1 ≤ i
    → SameBeside (left_branch i) nd nd'
    → SameBelow (right_branch i) nd nd'
SameBeside-right {i} pos s j m e = s j λ n e'.
    ground (arith, above_le (suc m) n j, above_le (suc n) m j, above_le m n j, above_le n m j)

pub SameBeside-left :
    {i : ℕ} {nd nd' : Nodes}
    → 1 ≤ i
    → SameBeside (right_branch i) nd nd'
    → SameBelow (left_branch i) nd nd'
SameBeside-left {i} pos s j m e = s j λ n e'.
    ground (arith, above_le (suc m) n j, above_le (suc n) m j, above_le m n j, above_le n m j)

pub Clean-byte : (k : ℕ) (i : ℕ) (nd : Nodes) → Clean nd i k → nd i ≡ 12 + k
Clean-byte zero i nd c = c
Clean-byte (suc k) i nd c = omega (arith, c.0)

pub byte-le : (t : Tree) (k i : ℕ) (nd : Nodes) → Holds nd i k t → nd i ≤ 12 + k
byte-le free k i nd h = omega (arith, Clean-byte k i nd h)
byte-le used k i nd h = omega (arith, h.0)
byte-le (split l r) zero i nd h = absurd h
byte-le (split l r) (suc k) i nd h = omega (arith, h.1)

-- Only a free block has the byte of its own size class.
pub free_of_byte : (t : Tree) (k i : ℕ) (nd : Nodes) → Holds nd i k t → nd i ≡ 12 + k → t ≡ free
free_of_byte free k i nd h e = refl
free_of_byte used k i nd h e = absurd (omega (arith, h.0))
free_of_byte (split l r) zero i nd h e = absurd h
free_of_byte (split l r) (suc k) i nd h e = absurd (omega (arith, h.1))
