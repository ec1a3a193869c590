-- ===== src/Buddy/Place.antt =====
-- Which block of physical memory a node stands for, and the address that
-- `convert_page_to_phsics` computes for it.
use native.Mathlib.Nat.{pow-suc, pow-le-pow_right, mul_comm, mul-mod_left}
use nju_os_lab.Prelude.{
  ℕ, zero, suc, ◌+◌, ◌-◌, ◌*◌, ◌/◌, ◌%◌, ◌^◌, ◌≤◌, ◌<◌, ◌≡◌, refl, ap, arith, get_or, u64, sub64,
}
use nju_os_lab.Common.Align.{pow-pos}
use nju_os_lab.Buddy.{PageSystem, power_of_two, phsics_unit, max_page_size}
use nju_os_lab.Buddy.Alloc.{left_branch, right_branch, convert_page_to_phsics}

-- Node `i`, at depth `d`, stands for the block of size class `c` at offset `off` of its unit.
pub data At : ℕ → ℕ → ℕ → ℕ → Type 0 where
  root : At 0 24 1 0
  left : {d c i off : ℕ} → At d (suc c) i off → At (suc d) c (left_branch i) off
  right : {d c i off : ℕ} → At d (suc c) i off → At (suc d) c (right_branch i) (off + 2 ^ c)

-- The closed form: the `q`-th node of depth `d` has the `q`-th block of its size.
pub record Nth (d c i off : ℕ) : Type 0 where
  pub q : ℕ
  pub depth : d + c ≡ 24
  pub node : i ≡ 2 ^ d + q
  pub offset : off ≡ q * 2 ^ c
  pub below : q < 2 ^ d
  pub fits : off + 2 ^ c ≤ 2 ^ 24

pub At-Nth : {d c i off : ℕ} → At d c i off → Nth d c i off
At-Nth root = record {
  q = 0;
  depth = refl;
  node = refl;
  offset = refl;
  below = omega arith;
  fits = omega arith;
}
At-Nth (left {d} {c} a) =
    let n = At-Nth a in
    record {
      q = n.q * 2;
      depth = omega (arith, n.depth);
      node = omega (arith, n.node, pow-suc 2 d);
      offset = omega (arith, n.offset, pow-suc 2 c, ap (λ (x : ℕ). n.q * x) (pow-suc 2 c));
      below = omega (arith, n.below, pow-suc 2 d);
      fits = omega (arith, n.fits, pow-suc 2 c);
    }
At-Nth (right {d} {c} a) =
    let n = At-Nth a in
    record {
      q = n.q * 2 + 1;
      depth = omega (arith, n.depth);
      node = omega (arith, n.node, pow-suc 2 d);
      offset = omega (arith, n.offset, pow-suc 2 c, ap (λ (x : ℕ). n.q * x) (pow-suc 2 c));
      below = omega (arith, n.below, pow-suc 2 d);
      fits = omega (arith, n.fits, pow-suc 2 c);
    }

power_of_two_lem : (d : ℕ) → d ≤ 12 → get_or power_of_two d 0 ≡ 2 ^ d
power_of_two_lem zero h = refl
power_of_two_lem (suc zero) h = refl
power_of_two_lem (suc (suc zero)) h = refl
power_of_two_lem (suc (suc (suc zero))) h = refl
power_of_two_lem (suc (suc (suc (suc zero)))) h = refl
power_of_two_lem (suc (suc (suc (suc (suc zero))))) h = refl
power_of_two_lem (suc (suc (suc (suc (suc (suc zero)))))) h = refl
power_of_two_lem (suc (suc (suc (suc (suc (suc (suc zero))))))) h = refl
power_of_two_lem (suc (suc (suc (suc (suc (suc (suc (suc zero)))))))) h = refl
power_of_two_lem (suc (suc (suc (suc (suc (suc (suc (suc (suc zero))))))))) h = refl
power_of_two_lem (suc (suc (suc (suc (suc (suc (suc (suc (suc (suc zero)))))))))) h = refl
power_of_two_lem (suc (suc (suc (suc (suc (suc (suc (suc (suc (suc (suc zero))))))))))) h = refl
power_of_two_lem (suc (suc (suc (suc (suc (suc (suc (suc (suc (suc (suc (suc zero)))))))))))) h =
    refl
power_of_two_lem (suc (suc (suc (suc (suc (suc (suc (suc (suc (suc (suc (suc (suc d))))))))))))) h =
    absurd (omega arith)

-- A page record at `page` describes the unit of physical memory at `unit`, as `page_system_init`
-- lays them out.
pub record Placed (s : PageSystem) (page unit : ℕ) : Type 0 where
  pub number : ℕ
  pub page_at : page ≡ s.begin_page_addr + number * max_page_size
  pub unit_at : unit ≡ s.begin_alloc_addr + number * phsics_unit
  pub first_unit : s.begin_alloc_addr ≡ s.begin_page_addr + phsics_unit
  pub not_null : 0 < s.begin_page_addr
  pub aligned : s.begin_page_addr % phsics_unit ≡ 0
  pub no_wrap : unit + phsics_unit < 2 ^ 64

-- The offset inside the unit, as `convert_page_to_phsics` computes it.
node_offset_lem :
    {d c i off : ℕ}
    → Nth d c i off
    → 12 ≤ c
    → u64 (2 ^ c * sub64 i (get_or power_of_two (24 - c) 0)) ≡ off
node_offset_lem {d} {c} {i} {off} n h =
    let e : 24 - c ≡ d = omega (arith, n.depth) in
    let small : 2 ^ d ≤ 2 ^ 12 = pow-le-pow_right (omega arith) {j = 12} (omega (arith, n.depth)) in
    let gap : sub64 i (2 ^ d) ≡ n.q = omega (arith, n.node, n.below) in
    rw (e, power_of_two_lem d (omega (arith, n.depth)), gap, mul_comm (2 ^ c) n.q, ← n.offset)
      (omega (arith, n.fits, pow-pos c))

-- `convert_page_to_phsics` gives the address of the block of the node.
pub convert-At :
    {s : PageSystem} {page unit : ℕ} {d c i off : ℕ}
    → Placed s page unit
    → At d c i off
    → 12 ≤ c
    → convert_page_to_phsics s page i c ≡ unit + off
unfolding convert_page_to_phsics
convert-At {c} p a h =
    let n = At-Nth a in rw (node_offset_lem n h) (omega (arith, n.fits, pow-pos c, p))

At-multiple :
    (unit : ℕ) {d c i off : ℕ}
    → unit % 2 ^ 24 ≡ 0
    → At d c i off
    → (u : ℕ) × (unit + off ≡ u * 2 ^ c)
At-multiple unit h root = (unit / 2 ^ 24, omega arith)
At-multiple unit h (left {c} a) =
    let (u, e) = At-multiple unit h a in (u * 2, omega (arith, ap (λ (x : ℕ). u * x) (pow-suc 2 c)))
At-multiple unit h (right {c} a) =
    let (u, e) = At-multiple unit h a in
    (u * 2 + 1, omega (arith, ap (λ (x : ℕ). u * x) (pow-suc 2 c)))

-- The block of a node starts at a multiple of its size.
pub At-aligned :
    {s : PageSystem} {page unit : ℕ} {d c i off : ℕ}
    → Placed s page unit
    → At d c i off
    → (unit + off) % 2 ^ c ≡ 0
At-aligned {unit} {c} p a =
    let (u, e) = At-multiple unit (omega (arith, p)) a in rw e (mul-mod_left u (2 ^ c))
