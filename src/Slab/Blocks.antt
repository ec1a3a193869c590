-- ===== src/Slab/Blocks.antt =====
-- One slab of kernel/src/slab.c: what the steps of `slab_alloc` and `slab_free` do to it, and that
-- they leave the others alone.
use native.Mathlib.Decide.{dec_lt}
use nju_os_lab.Prelude.{
  ℕ, zero, suc, ◌+◌, ◌-◌, ◌*◌, ◌%◌, ◌^◌, ◌≤◌, ◌<◌, ◌≡◌, ◌≢◌, ◌⊎◌, inl, inr, ap, ◌∙◌, refl, true,
  false, List, ◌∷◌, arith, u64, ◌==◌, update,
}
use nju_os_lab.Common.{null, unlock, is_aligned}
use nju_os_lab.Common.Align.{pow-pos}
use nju_os_lab.Slab.{
  Slabs, done, s_8b, s_refuse, slab_space, slab_ocupy, block_count, carve, format_slab, set_locked,
  alloc_block_from_slab, take_block,
}
use nju_os_lab.Slab.Layout.{layout}
use nju_os_lab.Slab.Valid.{IsPage, IsSlab, first_block}

-- Only the slab at `a`, its page and the lists of slabs may differ.
pub record Elsewhere (a : ℕ) (s s' : Slabs) : Type 0 where
  pub slab : (c : ℕ) → a ≢ c → s'.slab c ≡ s.slab c
  pub next : (b : ℕ) → b - b % 2 ^ 12 ≢ a → s'.next b ≡ s.next b

carve-other :
    (n block size : ℕ) (next : ℕ → ℕ) (p b : ℕ)
    → block + n * 2 ^ size < 2 ^ 64
    → (b < block) ⊎ (block + n * 2 ^ size ≤ b)
    → (carve n block size next p).0 b ≡ next b
unfolding carve
carve-other zero block size next p b fit out = refl
carve-other (suc n) block size next p b fit out =
    let d = 2 ^ size in
    let pos = pow-pos size in
    let step : u64 (block + d) ≡ block + d = grind arith in
    let out' : (b < block + d) ⊎ (block + d + n * d ≤ b) = elim out [
      | inl lt ↦ inl (omega arith)
      | inr ge ↦ inr (grind arith)
    ] in
    let other : (block == b) ≡ false = elim out [
      | inl lt ↦ ground arith
      | inr ge ↦ let lt : block < b = grind arith in ground arith
    ] in
    ap (λ k. (carve n k size (update next block p) block).0 b) step
    ∙ carve-other n (block + d) size (update next block p) block b (grind arith) out'
    ∙ rw other

off_page : (a b : ℕ) → a % 2 ^ 12 ≡ 0 → b - b % 2 ^ 12 ≢ a → (b < a) ⊎ (a + slab_space ≤ b)
off_page a b al ne = elim (dec_lt b a) [ yes lt ↦ inl lt | no ge ↦ inr (omega arith) ]

pub format_slab-Elsewhere :
    (cpu size a : ℕ) (s : Slabs)
    → IsPage a
    → s_8b ≤ size
    → size < s_refuse
    → Elsewhere a s (format_slab cpu size a s)
unfolding format_slab
format_slab-Elsewhere cpu size a s page lo hi =
    let (header, _, _, end, _) = layout size lo hi in
    record {
      slab = λ c ne. let other : (a == c) ≡ false = ground arith in rw other;
      next = λ b ne. rw (first_block a size page lo hi) (
          carve-other (block_count size) (a + slab_ocupy size) size s.next null b
            (omega (arith, end, page.fits))
            (elim (off_page a b page.aligned ne) [
              | inl lt ↦ inl (omega arith)
              | inr ge ↦ inr (omega (arith, end))
            ]));
    }

-- Taking the first free block, with the lock held, and releasing the lock.
pub take_block-IsSlab :
    (a size b : ℕ) (bs : List ℕ) (s : Slabs)
    → IsSlab s a size (b ∷ bs)
    → (s' : Slabs) × (take_block a size s ≡ done b s')
      × IsSlab s' a size bs
      × ((s'.slab a).locked ≡ 0)
      × ((s'.slab a).append ≡ (s.slab a).append)
      × Elsewhere a s s'
      × (s'.heads ≡ s.heads)
      × (s'.pages ≡ s.pages)
unfolding take_block alloc_block_from_slab is_aligned unlock
take_block-IsSlab a size b bs s v =
    let there : (a == null) ≡ false = ground (arith, v.page) in
    let some' : ((s.slab a).free_block_num == 0) ≡ false = ground (arith, v.count) in
    let self : (a == a) ≡ true = ground arith in
    let aligned : (b % 2 ^ size == 0) ≡ true = ground (arith, v.inside) in
    let t = record s {
      slab = update s.slab a (record (s.slab a) {
        free_list = s.next b;
        free_block_num = (s.slab a).free_block_num - 1;
      });
    } in
    (
      set_locked a 0 t,
      rw (there, some', v.chain.0, aligned),
      record {
        page = v.page;
        least = v.least;
        most = v.most;
        type = rw self v.type;
        total = rw self v.total;
        chain = rw self v.chain.2;
        unique = v.unique.1;
        inside = v.inside.1;
        count = rw self (omega (arith, v.count));
      },
      rw self,
      rw self,
      record {
        slab = λ c ne. let other : (a == c) ≡ false = ground arith in rw other;
        next = λ c ne. refl;
      },
      refl,
      refl,
    )
