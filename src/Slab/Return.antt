-- ===== src/Slab/Return.antt =====
-- `slab_free` of kernel/src/slab.c: a block goes back to its slab.
use mathlib.Core.Path.{subst}
use nju_os_lab.Prelude.{
  ℕ, ◌+◌, ◌-◌, ◌%◌, ◌^◌, ◌<◌, ◌≡◌, ◌≢◌, ◌⊎◌, inl, inr, sym, refl, true, false, List, ◌∷◌, length,
  All, arith, ltb, ◌==◌, Bool-cases,
}
use nju_os_lab.Common.{lock, unlock, try_lock, is_aligned}
use nju_os_lab.Slab.{Slabs, done, slab_size_offset, block_count, set_locked}
use nju_os_lab.Slab.Free.{put_block, free_in_slab, recover_slab, slab_free, free_at}
use nju_os_lab.Slab.Layout.{IsBlock, IsBlock-page}
use nju_os_lab.Slab.Chain.{Chain-update}
use nju_os_lab.Slab.Valid.{IsSlab, IsSlab-keep}
use nju_os_lab.Slab.Blocks.{Elsewhere}

module _ {s : Slabs} {a size : ℕ} {l : List ℕ} (v : IsSlab s a size l) (b : ℕ)
    (block : IsBlock a size b) (fresh : All (λ c. b ≢ c) l) where
  put_block-IsSlab : IsSlab (put_block a b s) a size (b ∷ l)
  put_block-IsSlab =
      let self : (a == a) ≡ true = ground arith in
      let first : (b == b) ≡ true = ground arith in
      record {
        page = v.page;
        least = v.least;
        most = v.most;
        type = rw self v.type;
        total = rw self v.total;
        chain = (
          rw self,
          omega (arith, v.page, block),
          rw first
              (Chain-update s.next b (s.slab a).free_list (s.slab a).free_list l fresh v.chain),
        );
        unique = (fresh, v.unique);
        inside = (block, v.inside);
        count = rw self (omega (arith, v.count));
      }

-- The slab is not yet whole, or it is the first of its list, so that `slab_free` does not recover it.
abbrev pub Stays : Slabs → (a size : ℕ) → List ℕ → Type 0
Stays s a size l =
    (length l + 1 < block_count size) ⊎ (s.heads (s.slab a).cpu_id (size - slab_size_offset) ≡ a)

-- `recover_slab` leaves the first slab of a list as it is.
recover_first :
    (fuel a : ℕ) (s : Slabs)
    → (s.slab a).locked ≡ 1
    → s.heads (s.slab a).cpu_id ((s.slab a).type - slab_size_offset) ≡ a
    → recover_slab fuel a s ≡ done tt (set_locked a 0 s)
unfolding recover_slab try_lock unlock
recover_first fuel a s held e =
    let word : ((s.slab a).locked == 0) ≡ false = ground arith in
    let head : (s.heads (s.slab a).cpu_id ((s.slab a).type - slab_size_offset) == a) ≡ true =
      ground arith in
    elim (Bool-cases (ltb (s.slab a).free_block_num (s.slab a).block_num)) [
      | inl part ↦ rw part
      | inr whole ↦ rw (whole, word, head)
    ]

free-Stays :
    (fuel a size b : ℕ) (l : List ℕ) (s : Slabs)
    → IsSlab s a size l
    → (s.slab a).locked ≡ 1
    → Stays s a size l
    → free_in_slab fuel a b s ≡ done tt (set_locked a 0 (put_block a b s))
unfolding free_in_slab unlock
free-Stays fuel a size b l s v held st =
    let self : (a == a) ≡ true = ground arith in
    elim (Bool-cases ((s.slab a).free_block_num + 1 == (s.slab a).block_num)) [
      | inl whole ↦
          let head : s.heads (s.slab a).cpu_id ((s.slab a).type - slab_size_offset) ≡ a = elim st [
            | inl few ↦ absurd (ground (arith, v.count, v.total))
            | inr e ↦ rw v.type e
          ] in
          rw whole (recover_first fuel a (put_block a b s) (rw self held) (rw self head))
      | inr part ↦ rw part
    ]

-- `slab_free` of a block that is not free, in a slab that stays: the block is the first free one of
-- its slab, the locks are free again, and no other slab and no list changes.
pub slab_free-IsSlab :
    (fuel a size b : ℕ) (l : List ℕ) (s : Slabs)
    → IsSlab s a size l
    → (s.slab a).locked ≡ 0
    → IsBlock a size b
    → All (λ c. b ≢ c) l
    → Stays s a size l
    → (s' : Slabs) × (slab_free fuel b s ≡ done tt s')
      × IsSlab s' a size (b ∷ l)
      × ((s'.slab a).locked ≡ 0)
      × ((s'.slab a).append ≡ (s.slab a).append)
      × Elsewhere a s s'
      × (s'.heads ≡ s.heads)
      × (s'.pages ≡ s.pages)
unfolding slab_free free_at lock is_aligned
slab_free-IsSlab fuel a size b l s v free block fresh st =
    let page = (IsBlock-page a size b v.least v.most v.page.aligned block).1 in
    let self : (a == a) ≡ true = ground arith in
    let t = set_locked a 1 s in
    let t-IsSlab : IsSlab t a size l = IsSlab-keep (ground arith) (λ c e. refl) v in
    let aligned : (a % 2 ^ 12 == 0) ≡ true = ground (arith, v.page) in
    let word : ((s.slab a).locked == 1) ≡ false = ground arith in
    (
      set_locked a 0 (put_block a b t),
      subst (λ k. free_at fuel k b s ≡ done tt (set_locked a 0 (put_block a b t))) (sym page)
          (rw (aligned, free_at, word)
            (free-Stays fuel a size b l t t-IsSlab (ground arith) (rw self st))),
      IsSlab-keep (ground arith) (λ c e. refl) (put_block-IsSlab t-IsSlab b block fresh),
      rw self,
      rw self,
      record {
        slab = λ c ne. ground arith;
        next = λ c ne.
            let apart : b ≢ c = λ e. ne (subst (λ k. k - k % 2 ^ 12 ≡ a) e page) in
            let other : (b == c) ≡ false = ground arith in rw other;
      },
      refl,
      refl,
    )
