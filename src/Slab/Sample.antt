-- ===== src/Slab/Sample.antt =====
-- A slab of 1 KiB blocks for the object allocator of kernel/src/slab.c.
use nju_os_lab.Prelude.{refl, [], ◌∷◌, arith}
use nju_os_lab.Buddy.Sample.{one_unit}
use nju_os_lab.Slab.{Slabs, slab_ocupy}
use nju_os_lab.Slab.Valid.{IsSlab}

-- No slab yet.
abbrev pub empty : Slabs
empty = record {
  pages = one_unit;
  slab = λ a. record {
    locked = 0;
    cpu_id = 0;
    block_num = 0;
    type = 0;
    free_list = 0;
    free_block_num = 0;
    append = 0;
  };
  next = λ b. 0;
  heads = λ cpu c. 0;
}

-- The slab at 8192 has blocks at 9216, 10240 and 11264, of which the second is free.
abbrev pub partly : Slabs
partly = record empty {
  slab = λ a. record {
    locked = 0;
    cpu_id = 0;
    block_num = 3;
    type = 10;
    free_list = 10240;
    free_block_num = 1;
    append = 0;
  };
  heads = λ cpu c. 8192;
}

pub partly-IsSlab : IsSlab partly 8192 10 (10240 ∷ [])
unfolding slab_ocupy
partly-IsSlab = record {
  page = record { there = omega arith; aligned = refl; fits = omega arith };
  least = omega arith;
  most = omega arith;
  type = refl;
  total = refl;
  chain = (refl, omega arith, refl);
  unique = (tt, tt);
  inside = ((omega arith, omega arith, refl), tt);
  count = refl;
}
