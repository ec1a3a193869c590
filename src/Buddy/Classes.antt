-- ===== src/Buddy/Classes.antt =====
-- `trans_page_size` of kernel/src/page.c: the size class of a request.
use mathlib.Core.Path.{subst}
use native.Mathlib.Decide.{ℕ_discrete}
use nju_os_lab.Prelude.{
  ℕ, zero, suc, ◌+◌, ◌^◌, ◌≤◌, ◌<◌, ◌≡◌, ◌⊎◌, inl, inr, refl, arith, leb, Bool-cases,
}
use nju_os_lab.Buddy.{p_4k, p_16m, p_refuse, trans_page_size_loop, trans_page_size}

-- The class `r` is the first from `low` on whose blocks hold `size` bytes.
pub record Fits (low size r : ℕ) : Type 0 where
  pub least : low ≤ r
  pub most : r ≤ p_16m
  pub enough : size ≤ 2 ^ r
  pub smallest : (j : ℕ) → low ≤ j → j < r → 2 ^ j < size

-- What the loop returns from class `low` on.
abbrev pub Class : (low size r : ℕ) → Type 0
Class low size r =
    Fits low size r ⊎ ((r ≡ p_refuse) × ((j : ℕ) → low ≤ j → j ≤ p_16m → 2 ^ j < size))

Class-next : (low size r : ℕ) → 2 ^ low < size → Class (low + 1) size r → Class low size r
Class-next low size r lt (inl f) = inl (record {
  least = omega (arith, f.least);
  most = f.most;
  enough = f.enough;
  smallest = λ j a b. elim (ℕ_discrete low j) [
    | yes e ↦ subst (λ k. 2 ^ k < size) e lt
    | no ne ↦ f.smallest j (omega arith) b
  ];
})
Class-next low size r lt (inr (e, all)) = inr (
  e,
  λ j a b. elim (ℕ_discrete low j) [
    | yes e' ↦ subst (λ k. 2 ^ k < size) e' lt
    | no ne ↦ all j (omega arith) b
  ],
)

loop-Class :
    (n low size : ℕ) → low + n ≡ p_refuse → Class low size (trans_page_size_loop n low size)
unfolding trans_page_size_loop
loop-Class zero low size h = inr (refl, λ j a b. absurd (omega arith))
loop-Class (suc n) low size h = elim (Bool-cases (leb size (2 ^ low))) [
  | inl fits ↦ rw fits (
      inl (record {
        least = omega arith;
        most = omega arith;
        enough = ground arith;
        smallest = λ j a b. absurd (omega arith);
      }))
  | inr more ↦ rw more (
      Class-next low size (trans_page_size_loop n (low + 1) size) (ground arith)
        (loop-Class n (low + 1) size (omega arith)))
]

-- `trans_page_size` returns the smallest class from 4 KiB to 16 MiB whose blocks hold the request,
-- and refuses exactly the requests that no class holds.
pub trans_page_size-Class : (size : ℕ) → Class p_4k size (trans_page_size size)
unfolding trans_page_size
trans_page_size-Class size = loop-Class 13 p_4k size refl

pub trans_page_size-Fits : (size : ℕ) → size ≤ 2 ^ 24 → Fits p_4k size (trans_page_size size)
trans_page_size-Fits size h = elim (trans_page_size-Class size) [
  | inl f ↦ f
  | inr (e, all) ↦ absurd (omega (arith, all 24 (omega arith) (omega arith)))
]
