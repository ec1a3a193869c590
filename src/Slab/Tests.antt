-- ===== src/Slab/Tests.antt =====
-- The theorems about kernel/src/slab.c at a small memory.
use nju_os_lab.Prelude.{◌≡◌, inr, refl, [], ◌∷◌, arith}
use nju_os_lab.Buddy.Sample.{one_unit-IsValid}
use nju_os_lab.Buddy.Tree.{free}
use nju_os_lab.Slab.{Slabs, done, trans_slab_size, slab_ocupy, slab_alloc}
use nju_os_lab.Slab.Free.{slab_free}
use nju_os_lab.Slab.Layout.{Fits, IsBlock}
use nju_os_lab.Slab.Valid.{IsSlab}
use nju_os_lab.Slab.Blocks.{Elsewhere}
use nju_os_lab.Slab.Cache.{IsCache}
use nju_os_lab.Slab.Served.{Served}
use nju_os_lab.Slab.Alloc.{slab_alloc-Served}
use nju_os_lab.Slab.Return.{slab_free-IsSlab}
use nju_os_lab.Slab.Sample.{empty, partly, partly-IsSlab}

empty-IsCache : IsCache 0 (trans_slab_size 24) empty (λ n. free) []
unfolding trans_slab_size
empty-IsCache = record {
  least = omega arith;
  most = omega arith;
  listed = refl;
  distinct = tt;
  unlocked = tt;
  valid = one_unit-IsValid;
  reserved = tt;
}

slab_alloc_example :
    Fits 24 (trans_slab_size 24)
    × Served 0 (trans_slab_size 24) empty (λ n. free) [] (slab_alloc 0 0 24 empty)
slab_alloc_example =
    slab_alloc-Served 0 0 24 empty (λ n. free) [] (omega arith) empty-IsCache (omega arith)

slab_free_example :
    (s' : Slabs) × (slab_free 0 9216 partly ≡ done tt s')
    × IsSlab s' 8192 10 (9216 ∷ 10240 ∷ [])
    × ((s'.slab 8192).locked ≡ 0)
    × ((s'.slab 8192).append ≡ 0)
    × Elsewhere 8192 partly s'
    × (s'.heads ≡ partly.heads)
    × (s'.pages ≡ partly.pages)
slab_free_example =
    slab_free-IsSlab 0 8192 10 9216 (10240 ∷ []) partly partly-IsSlab refl block (omega arith, tt)
      (inr refl)
  where
    block : IsBlock 8192 10 9216
    block = unfold slab_ocupy in (omega arith, omega arith, refl)
