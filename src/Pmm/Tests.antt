-- ===== src/Pmm/Tests.antt =====
-- `kfree` of kernel/src/pmm.c at a block of a slab.
use nju_os_lab.Prelude.{◌≡◌, refl, true, arith}
use nju_os_lab.Slab.{slab_ocupy}
use nju_os_lab.Slab.Layout.{IsBlock}
use nju_os_lab.Slab.Sample.{partly, partly-IsSlab}
use nju_os_lab.Pmm.{kfree}
use nju_os_lab.Pmm.Route.{Origin, from_slab, proper_free, keeping, kfree-proper_free}

block : IsBlock 8192 10 9216
unfolding slab_ocupy
block = (omega arith, omega arith, refl)

in_slab : Origin partly 9216
in_slab = from_slab partly-IsSlab block

kfree_example : kfree 0 9216 true partly ≡ keeping true (proper_free 0 in_slab)
kfree_example = kfree-proper_free 0 9216 true partly in_slab
