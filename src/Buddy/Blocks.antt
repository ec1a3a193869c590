-- ===== src/Buddy/Blocks.antt =====
-- The allocated blocks of a unit, and what taking a block does to them.
use mathlib.Core.List.{Perm, perm_middle, append-nil}
use mathlib.Core.List.Perm
use mathlib.Core.Path.{subst, sym}
use native.Mathlib.Nat.{pow-suc}
use nju_os_lab.Prelude.{
  ℕ, zero, suc, ◌+◌, ◌^◌, ◌≤◌, ◌≡◌, ◌∙◌, ap, ◌⊎◌, inl, inr, arith, List, [], ◌∷◌, ◌++◌, All,
  All-append, All-map,
}
use nju_os_lab.Buddy.Tree.{Tree, free, used, split}
use nju_os_lab.Buddy.Space.{Taken, whole, halve, in_left, in_right}

-- Offset and size class of the allocated blocks of a tree, whose own block has class `12 + k`.
pub blocks : (k off : ℕ) → Tree → List (ℕ × ℕ)
blocks k off free = []
blocks k off used = (off, 12 + k) ∷ []
blocks zero off (split l r) = []
blocks (suc k) off (split l r) = blocks k off l ++ blocks k (off + 2 ^ (12 + k)) r

-- The block lies in the `size` bytes from `off` on.
abbrev pub Inside : (off size : ℕ) → ℕ × ℕ → Type 0
Inside off size (o, c) = (off ≤ o) × (o + 2 ^ c ≤ off + size)

-- Two blocks have no byte in common.
abbrev pub Apart : ℕ × ℕ → ℕ × ℕ → Type 0
Apart (a, c) (b, d) = (a + 2 ^ c ≤ b) ⊎ (b + 2 ^ d ≤ a)

double : (k : ℕ) → 2 ^ (12 + suc k) ≡ 2 ^ (12 + k) + 2 ^ (12 + k)
double k = ap (λ (x : ℕ). 2 ^ x) (omega arith) ∙ (pow-suc 2 (12 + k) ∙ omega arith)

-- Every allocated block lies in the block of the tree.
pub blocks-Inside : (k off : ℕ) (t : Tree) → All (Inside off (2 ^ (12 + k))) (blocks k off t)
unfolding blocks
blocks-Inside k off free = tt
blocks-Inside k off used = ((omega arith, omega arith), tt)
blocks-Inside zero off (split l r) = tt
blocks-Inside (suc k) off (split l r) =
    All-append _ (blocks k off l) _
      (All-map _ _ (blocks k off l) (λ b h. (omega (arith, h), omega (arith, h, double k)))
        (blocks-Inside k off l))
      (All-map _ _ (blocks k (off + 2 ^ (12 + k)) r)
        (λ b h. (omega (arith, h), omega (arith, h, double k)))
        (blocks-Inside k (off + 2 ^ (12 + k)) r))

-- So does a block that is taken.
pub Taken-Inside :
    {req k off o : ℕ} {t t' : Tree} → Taken req k off t o t' → Inside off (2 ^ (12 + k)) (o, req)
Taken-Inside (whole {off} e) = (omega arith, rw e (omega arith))
Taken-Inside (halve {k} tk) = let h = Taken-Inside tk in (h.0, omega (arith, h, double k))
Taken-Inside (in_left {k} tk) = let h = Taken-Inside tk in (h.0, omega (arith, h, double k))
Taken-Inside (in_right {k} {c} e tk) =
    let h = Taken-Inside tk in
    let f : 2 ^ c ≡ 2 ^ (12 + k) = ap (λ (x : ℕ). 2 ^ x) e in
    (omega (arith, h), omega (arith, h, f, double k))

-- A block that is taken has no byte in common with a block that was allocated before.
pub Taken-Apart :
    {req k off o : ℕ} {t t' : Tree} → Taken req k off t o t' → All (Apart (o, req)) (blocks k off t)
unfolding blocks
Taken-Apart (whole e) = tt
Taken-Apart (halve tk) = tt
Taken-Apart (in_left {k} {off} {l} {r} tk) =
    let h = Taken-Inside tk in
    All-append _ (blocks k off l) _ (Taken-Apart tk) (
      All-map _ _ (blocks k (off + 2 ^ (12 + k)) r) (λ b i. inl (omega (arith, h, i)))
        (blocks-Inside k (off + 2 ^ (12 + k)) r))
Taken-Apart (in_right {k} {off} {c} {l} {r} e tk) =
    let h = Taken-Inside tk in
    let f : 2 ^ c ≡ 2 ^ (12 + k) = ap (λ (x : ℕ). 2 ^ x) e in
    All-append _ (blocks k off l) _
      (All-map _ _ (blocks k off l) (λ b i. inr (omega (arith, h, i, f))) (blocks-Inside k off l))
      (rw (← f) (Taken-Apart tk))

-- Taking a block adds it to the allocated blocks, and changes none of the others.
pub Taken-perm :
    {req k off o : ℕ} {t t' : Tree}
    → Taken req k off t o t'
    → Perm (blocks k off t') ((o, req) ∷ blocks k off t)
unfolding blocks
Taken-perm (whole {off} e) = rw e (Perm.refl _)
Taken-perm (halve {k} {off} {l} tk) = rw append-nil (Taken-perm tk)
Taken-perm (in_left {k} {off} {r} tk) =
    Perm.append (Taken-perm tk) (Perm.refl (blocks k (off + 2 ^ (12 + k)) r))
Taken-perm (in_right {k} {off} {c} {l} e tk) =
    let f : 2 ^ c ≡ 2 ^ (12 + k) = ap (λ (x : ℕ). 2 ^ x) e in
    rw (← f) (
      Perm.trans (Perm.append (Perm.refl (blocks k off l)) (Taken-perm tk))
        (perm_middle (blocks k off l) _))

All-left {ℓ κ} : {A : Type ℓ} (P : A → Type κ) (xs ys : List A) → All P (xs ++ ys) → All P xs
All-left P [] ys h = tt
All-left P (x ∷ xs) ys h = (h.0, All-left P xs ys h.1)

All-right {ℓ κ} : {A : Type ℓ} (P : A → Type κ) (xs ys : List A) → All P (xs ++ ys) → All P ys
All-right P [] ys h = h
All-right P (x ∷ xs) ys h = All-right P xs ys h.1

-- What holds of all blocks after one is taken held of all blocks before, and holds of that block.
pub Taken-All :
    {req k off o : ℕ} {t t' : Tree} (P : ℕ × ℕ → Type 0)
    → Taken req k off t o t'
    → All P (blocks k off t')
    → P (o, req) × All P (blocks k off t)
unfolding blocks
Taken-All P (whole {off} e) h = (subst (λ c. P (off, c)) (sym e) h.0, tt)
Taken-All P (halve {k} {off} {l} tk) h = ((Taken-All P tk (All-left P (blocks k off l) _ h)).0, tt)
Taken-All P (in_left {k} {off} {r} {l'} tk) h =
    let (here, rest) = Taken-All P tk (All-left P (blocks k off l') _ h) in
    (here, All-append P _ _ rest (All-right P (blocks k off l') _ h))
Taken-All P (in_right {k} {off} {c} {l} {r'} e tk) h =
    let f : 2 ^ c ≡ 2 ^ (12 + k) = ap (λ (x : ℕ). 2 ^ x) e in
    let right = All-right P (blocks k off l) _ h in
    let (here, rest) = Taken-All P tk (rw f right) in
    (here, All-append P (blocks k off l) _ (All-left P (blocks k off l) _ h) (rw (← f) rest))
