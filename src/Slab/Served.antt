-- ===== src/Slab/Served.antt =====
-- What `slab_alloc` of kernel/src/slab.c does when no slab of the class has a free block.
use mathlib.Core.Path.{subst}
use nju_os_lab.Prelude.{
  ℕ, ◌-◌, ◌≤◌, ◌<◌, ◌≡◌, ◌≢◌, sym, ap, ◌∙◌, refl, true, false, List, [], ◌∷◌, ◌++◌, length, All,
  All-map, arith, ◌==◌, if◌then◌else◌,
}
use nju_os_lab.Common.{null, lock}
use nju_os_lab.Buddy.Tree.{Tree}
use nju_os_lab.Buddy.Valid.{IsValid}
use nju_os_lab.Buddy.Grant.{Fresh, Exhausted}
use nju_os_lab.Slab.{
  Slabs, Result, done, stuck, fault, out_of_fuel, s_8b, s_refuse, slab_size_offset, slab_space,
  set_locked, format_slab, slab_init, take_block, use_new, request_new_slab,
}
use nju_os_lab.Slab.Layout.{layout, IsBlock}
use nju_os_lab.Slab.Valid.{IsPage, IsSlab, IsSlab-keep, all_blocks, format_slab-IsSlab}
use nju_os_lab.Slab.Blocks.{Elsewhere, format_slab-Elsewhere, take_block-IsSlab}
use nju_os_lab.Slab.Lists.{Listed, Off, AllFull}
use nju_os_lab.Slab.Pages.{Reserved, Init, no_page, new_slab, slab_init-Init}
use nju_os_lab.Slab.Cache.{IsCache, Unlocked-Elsewhere, Listed-Elsewhere, Listed-pages}

-- What `slab_alloc` comes to for a class: the first free block of the first slab that has one, a block
-- of a new slab, which stands on a page of its own, or nothing when no page is left either.
pub data Served (cpu size : ℕ) (s : Slabs) (trees : ℕ → Tree) (l : List (ℕ × List ℕ))
    : Result ℕ → Type 0 where
  from_list :
      (front : List (ℕ × List ℕ)) (a b : ℕ) (bs : List ℕ) (back : List (ℕ × List ℕ)) {s' : Slabs}
      → l ≡ front ++ (a, b ∷ bs) ∷ back
      → AllFull front
      → IsBlock a size b
      → All (λ c. b ≢ c) bs
      → IsCache cpu size s' trees (front ++ (a, bs) ∷ back)
      → Served cpu size s trees l (done b s')
  from_new :
      (a b : ℕ) (bs : List ℕ) {s' : Slabs} (trees' : ℕ → Tree)
      → AllFull l
      → all_blocks a size ≡ b ∷ bs
      → Fresh s.pages trees (a, 12)
      → IsBlock a size b
      → IsCache cpu size s' trees' ((a, bs) ∷ l)
      → Served cpu size s trees l (done b s')
  no_room :
      {s' : Slabs}
      → AllFull l
      → Exhausted slab_space s.pages
      → IsCache cpu size s' trees l
      → Served cpu size s trees l (done null s')

pub Elsewhere-trans : {a : ℕ} {s t u : Slabs} → Elsewhere a s t → Elsewhere a t u → Elsewhere a s u
Elsewhere-trans h k = record {
  slab = λ c ne. k.slab c ne ∙ h.slab c ne;
  next = λ b ne. k.next b ne ∙ h.next b ne;
}

pub set_locked-Elsewhere : (a w : ℕ) (s : Slabs) → Elsewhere a s (set_locked a w s)
set_locked-Elsewhere a w s = record { slab = λ c ne. ground arith; next = λ b ne. refl }

use_new-take_block :
    (a size : ℕ) (s : Slabs)
    → (s.slab a).locked ≡ 0
    → 0 < (s.slab a).free_block_num
    → use_new a size s ≡ take_block a size (set_locked a 1 s)
unfolding use_new lock
use_new-take_block a size s e h =
    let word : ((s.slab a).locked == 1) ≡ false = ground arith in
    let blocks : ((s.slab a).free_block_num == 0) ≡ false = ground arith in
    rw (use_new, word, blocks)

-- The new slab, with its lock taken.
module _ (cpu size a : ℕ) (s : Slabs) (page : IsPage a) (lo : s_8b ≤ size)
    (hi : size < s_refuse) where
  fresh-IsSlab : IsSlab (set_locked a 1 (format_slab cpu size a s)) a size (all_blocks a size)
  fresh-IsSlab =
      IsSlab-keep (ground arith) (λ b q. refl) (format_slab-IsSlab a size page lo hi cpu s)

  fresh_lock : ((format_slab cpu size a s).slab a).locked ≡ 0
  unfolding format_slab
  fresh_lock = ground arith

  fresh_append :
      ((set_locked a 1 (format_slab cpu size a s)).slab a).append
      ≡ s.heads cpu (size - slab_size_offset)
  unfolding format_slab
  fresh_append = ground arith

  fresh_head : (format_slab cpu size a s).heads cpu (size - slab_size_offset) ≡ a
  unfolding format_slab
  fresh_head = ground arith

  fresh_pages : (format_slab cpu size a s).pages ≡ s.pages
  unfolding format_slab
  fresh_pages = refl

  fresh_count : 0 < ((format_slab cpu size a s).slab a).free_block_num
  unfolding format_slab
  fresh_count =
      let self : (a == a) ≡ true = ground arith in
      let (_, _, some', _, _) = layout size lo hi in rw self some'

  some_block : (b : ℕ) × (bs : List ℕ) × (all_blocks a size ≡ b ∷ bs)
  some_block =
      let v = format_slab-IsSlab a size page lo hi cpu s in
      not_empty (all_blocks a size) (omega (arith, v.count, fresh_count))
    where
      not_empty : (l : List ℕ) → 0 < length l → (b : ℕ) × (bs : List ℕ) × (l ≡ b ∷ bs)
      not_empty [] h = absurd (omega arith)
      not_empty (b ∷ bs) h = (b, bs, refl)

module _ {cpu size : ℕ} {s : Slabs} {trees : ℕ → Tree} {l : List (ℕ × List ℕ)}
    (v : IsCache cpu size s trees l) where
  serve-Init :
      (r : Result ℕ)
      → AllFull l
      → Init cpu size s trees r
      → Served cpu size s trees l (elim r [
        | done a s' ↦ if a == null then done null s' else use_new a size s'
        | stuck ↦ stuck
        | fault ↦ fault
        | out_of_fuel ↦ out_of_fuel
      ])
  serve-Init r full (no_page {pages} room valid keep) = no_room full room (record {
    least = v.least;
    most = v.most;
    listed = Listed-pages s size _ l pages v.listed;
    distinct = v.distinct;
    unlocked = v.unlocked;
    valid = valid;
    reserved =
        All-map (λ x. Reserved s.pages trees x.0) (λ x. Reserved pages trees x.0) l
          (λ x h. keep x.0 h) v.reserved;
  })
  serve-Init r full (new_slab {a} {pages} trees' page room valid fresh res keep) =
      let t = record s { pages = pages } in
      let f = format_slab cpu size a t in
      let (b, bs, all) = some_block cpu size a t page v.least v.most in
      let slab =
        subst (IsSlab (set_locked a 1 f) a size) all
          (fresh-IsSlab cpu size a t page v.least v.most) in
      let (s2, taken, slab', free, append, other, heads, same_pages) =
        take_block-IsSlab a size b bs (set_locked a 1 f) slab in
      let off : Off a l =
        All-map (λ x. Reserved s.pages trees x.0) (λ x. a ≢ x.0) l (λ x h. h a fresh) v.reserved in
      let change =
        Elsewhere-trans (format_slab-Elsewhere cpu size a t page v.least v.most)
          (Elsewhere-trans (set_locked-Elsewhere a 1 f) other) in
      let there : (a == null) ≡ false = ground (arith, page) in
      let used =
        use_new-take_block a size f (fresh_lock cpu size a t page v.least v.most)
          (fresh_count cpu size a t page v.least v.most) in
      let head =
        ap (λ h. h cpu (size - slab_size_offset)) heads
        ∙ fresh_head cpu size a t page v.least v.most in
      let behind = append ∙ fresh_append cpu size a t page v.least v.most in
      let pages' = same_pages ∙ fresh_pages cpu size a t page v.least v.most in
      rw (there, used, taken)
        (from_new a b bs trees' full all fresh slab.inside.0 (record {
          least = v.least;
          most = v.most;
          listed = (
            head,
            slab',
            subst (λ q. Listed s2 size q l) (sym behind)
                (Listed-Elsewhere size _ l change off (Listed-pages s size _ l pages v.listed)),
          );
          distinct = (off, v.distinct);
          unlocked = (free, Unlocked-Elsewhere l change off v.unlocked);
          valid = subst (λ g. IsValid g trees') (sym pages') valid;
          reserved =
              subst (λ g. All (λ x. Reserved g trees' x.0) ((a, bs) ∷ l)) (sym pages')
                (
                  res,
                  All-map (λ x. Reserved s.pages trees x.0) (λ x. Reserved pages trees' x.0) l
                      (λ x h. keep x.0 h) v.reserved,
                );
        }))

  pub serve_new : AllFull l → Served cpu size s trees l (request_new_slab cpu size s)
  unfolding request_new_slab
  serve_new full = serve-Init (slab_init cpu size s) full (slab_init-Init cpu size s trees v.valid)
