-- ===== src/Slab/Valid.antt =====
-- What a slab of kernel/src/slab.c holds: its page, and its free blocks.
use nju_os_lab.Prelude.{
  ℕ, ◌+◌, ◌-◌, ◌*◌, ◌%◌, ◌^◌, ◌≤◌, ◌<◌, ◌≡◌, ◌≢◌, ap, ◌∙◌, refl, true, List, [], ◌∷◌, length, All,
  All-map, arith, u64, ◌==◌,
}
use nju_os_lab.Common.{null}
use nju_os_lab.Slab.{Slab, Slabs, s_8b, s_refuse, slab_space, slab_ocupy, block_count, format_slab}
use nju_os_lab.Slab.Layout.{layout, by_class, IsBlock, IsBlock-page}
use nju_os_lab.Slab.Chain.{Chain, Unique, carved, length-carved, carve-Chain, carved-All}

-- A page that `page_alloc` can return.
pub record IsPage (a : ℕ) : Type 0 where
  pub there : a ≢ null
  pub aligned : a % 2 ^ 12 ≡ 0
  pub fits : a + slab_space < 2 ^ 64

-- The slab at `a` of class `size`, with these free blocks in the order of its list.
pub record IsSlab (s : Slabs) (a size : ℕ) (blocks : List ℕ) : Type 0 where
  pub page : IsPage a
  pub least : s_8b ≤ size
  pub most : size < s_refuse
  pub type : (s.slab a).type ≡ size
  pub total : (s.slab a).block_num ≡ block_count size
  pub chain : Chain s.next (s.slab a).free_list blocks
  pub unique : Unique blocks
  pub inside : All (IsBlock a size) blocks
  pub count : (s.slab a).free_block_num ≡ length blocks

-- The header, but for the lock.
abbrev pub bare : Slab → Slab
bare v = record v { locked = 0 }

Chain-keep :
    (next next' : ℕ → ℕ) (p : ℕ) (l : List ℕ)
    → All (λ b. next' b ≡ next b) l
    → Chain next p l
    → Chain next' p l
Chain-keep next next' p [] f h = h
Chain-keep next next' p (b ∷ bs) f h =
    (h.0, h.1, rw f.0 (Chain-keep next next' (next b) bs f.1 h.2))

-- The slab is the same after a change that leaves its header and its page alone.
pub IsSlab-keep :
    {s s' : Slabs} {a size : ℕ} {l : List ℕ}
    → bare (s'.slab a) ≡ bare (s.slab a)
    → ((b : ℕ) → b - b % 2 ^ 12 ≡ a → s'.next b ≡ s.next b)
    → IsSlab s a size l
    → IsSlab s' a size l
IsSlab-keep {s} {s'} {a} {size} {l} e f v = record {
  page = v.page;
  least = v.least;
  most = v.most;
  type = ap Slab.type e ∙ v.type;
  total = ap Slab.block_num e ∙ v.total;
  chain =
      let same : (s'.slab a).free_list ≡ (s.slab a).free_list = ap Slab.free_list e in
      rw same (
        Chain-keep s.next s'.next (s.slab a).free_list l
          (All-map (IsBlock a size) (λ b. s'.next b ≡ s.next b) l
            (λ b i. f b (IsBlock-page a size b v.least v.most v.page.aligned i).1) v.inside)
          v.chain);
  unique = v.unique;
  inside = v.inside;
  count = ap Slab.free_block_num e ∙ v.count;
}

-- The blocks of a fresh slab, the last one first.
pub all_blocks : (a size : ℕ) → List ℕ
all_blocks a size = carved (block_count size) (a + slab_ocupy size) (2 ^ size) []

aligned_block :
    (size : ℕ)
    → s_8b ≤ size
    → size < s_refuse
    → (a o k : ℕ) → a % 2 ^ 12 ≡ 0
    → o % 2 ^ size ≡ 0
    → (a + o + k * 2 ^ size) % 2 ^ size ≡ 0
aligned_block =
    by_class
      (λ size.
        (a o k : ℕ) → a % 2 ^ 12 ≡ 0 → o % 2 ^ size ≡ 0 → (a + o + k * 2 ^ size) % 2 ^ size ≡ 0)
      (λ a o k h g. omega arith) (λ a o k h g. omega arith) (λ a o k h g. omega arith)
      (λ a o k h g. omega arith) (λ a o k h g. omega arith) (λ a o k h g. omega arith)
      (λ a o k h g. omega arith) (λ a o k h g. omega arith) (λ a o k h g. omega arith)

module _ (a size : ℕ) (page : IsPage a) (lo : s_8b ≤ size) (hi : size < s_refuse) where
  pub first_block : u64 (a + slab_ocupy size) ≡ a + slab_ocupy size
  first_block = let (_, _, _, low, _) = layout size lo hi in grind (arith, page.fits)

  -- The `k`-th block behind the header is a block.
  nth-IsBlock : (k : ℕ) → k < block_count size → IsBlock a size (a + slab_ocupy size + k * 2 ^ size)
  nth-IsBlock k lt =
      let (_, al, _, end, _) = layout size lo hi in
      (omega arith, grind (arith), aligned_block size lo hi a (slab_ocupy size) k page.aligned al)

  -- `format_slab` makes a slab with all its blocks free.
  pub format_slab-IsSlab :
      (cpu : ℕ) (s : Slabs) → IsSlab (format_slab cpu size a s) a size (all_blocks a size)
  unfolding format_slab all_blocks
  format_slab-IsSlab cpu s =
      let (header, _, _, end, _) = layout size lo hi in
      let self : (a == a) ≡ true = ground arith in
      let (chain, unique) =
        carve-Chain (block_count size) (a + slab_ocupy size) size s.next null [] (omega arith)
          (omega (arith, end, page.fits)) tt tt refl in
      record {
        page = page;
        least = lo;
        most = hi;
        type = rw self;
        total = rw self;
        chain = rw (first_block, self) chain;
        unique = unique;
        inside =
            carved-All (IsBlock a size) (block_count size) (a + slab_ocupy size) (2 ^ size) []
              nth-IsBlock tt;
        count =
            rw (self, length-carved (block_count size) (a + slab_ocupy size) (2 ^ size) [])
              (omega arith);
      }
