-- ===== src/Vme/Marks.antt =====
-- `set_entry`, the write of `map` in abstract-machine/am/src/x86/qemu/vme.c, and the word that it writes.
use nju_os_lab.Prelude.{
  ℕ, ◌+◌, ◌%◌, ◌^◌, ◌<◌, ◌≡◌, ◌≢◌, ◌⊎◌, inl, inr, false, Bool-cases, refl, ap, ◌∙◌, arith, ◌==◌,
}
use nju_os_lab.Prelude.Masks.{and_bits}
use nju_os_lab.Prelude.Flags.{or_bits}
use nju_os_lab.Vme.{
  Machine, done, panic, remapped, not_mapped, write, set_entry, write_flag, pte_p, pte_u, mmap_none,
  mmap_write,
}
use nju_os_lab.Vme.Entries.{or_bits-entry}
use nju_os_lab.Vme.Walk.{has-present, has-absent}

-- The word for a page that is mapped: the page, present, with flags.
pub pte_word :
    (pa w : ℕ)
    → pa % 4096 ≡ 0
    → pa < 2 ^ 64
    → (w ≡ 0) ⊎ (w ≡ 2)
    → (f : ℕ) × (or_bits 64 (or_bits 64 (or_bits 64 pa pte_p) pte_u) w ≡ pa + f)
      × (f % 2 ≡ 1)
      × (f < 4096)
unfolding or_bits
pte_word pa w al lt flag =
    let zero_flag : 0 < 4096 = omega arith in
    let two : 2 < 4096 = omega arith in
    let five : 5 < 4096 = omega arith in
    let seven : 7 < 4096 = omega arith in
    let whole : pa ≡ pa + 0 = omega arith in
    let first : or_bits 64 pa 1 ≡ pa + 1 =
      ap (λ x. or_bits 64 x 1) whole ∙ or_bits-entry pa 0 1 al lt (omega arith) (omega arith) in
    let second : or_bits 64 (or_bits 64 pa 1) 4 ≡ pa + 5 =
      ap (λ x. or_bits 64 x 4) first ∙ or_bits-entry pa 1 4 al lt (omega arith) (omega arith) in
    elim flag [
      | inl e ↦ (5, rw (e, second) (or_bits-entry pa 5 0 al lt five zero_flag), refl, five)
      | inr e ↦ (7, rw (e, second) (or_bits-entry pa 5 2 al lt five two), refl, seven)
    ]

pub write_flag-cases : (prot : ℕ) → (write_flag prot ≡ 0) ⊎ (write_flag prot ≡ 2)
write_flag-cases prot = elim (Bool-cases (and_bits 32 prot mmap_write == 0)) [
  | inl e ↦ inl (rw e)
  | inr e ↦ inr (rw e)
]

pub set_entry-new :
    (prot pa cell : ℕ) (s : Machine)
    → prot ≢ mmap_none
    → s.memory cell % 2 ≡ 0
    → set_entry prot pa cell s
      ≡ done tt
          (write cell (or_bits 64 (or_bits 64 (or_bits 64 pa pte_p) pte_u) (write_flag prot)) s)
unfolding set_entry
set_entry-new prot pa cell s ne z =
    let some_prot : (prot == mmap_none) ≡ false = ground arith in
    rw (some_prot, has-absent (s.memory cell) z)

pub set_entry-remapped :
    (prot pa cell : ℕ) (s : Machine)
    → prot ≢ mmap_none
    → s.memory cell % 2 ≡ 1
    → set_entry prot pa cell s ≡ panic remapped
unfolding set_entry
set_entry-remapped prot pa cell s ne o =
    let some_prot : (prot == mmap_none) ≡ false = ground arith in
    rw (some_prot, has-present (s.memory cell) o)

pub set_entry-clear :
    (pa cell : ℕ) (s : Machine)
    → s.memory cell % 2 ≡ 1
    → set_entry mmap_none pa cell s ≡ done tt (write cell 0 s)
unfolding set_entry
set_entry-clear pa cell s o = rw (has-present (s.memory cell) o)

pub set_entry-not_mapped :
    (pa cell : ℕ) (s : Machine)
    → s.memory cell % 2 ≡ 0
    → set_entry mmap_none pa cell s ≡ panic not_mapped
unfolding set_entry
set_entry-not_mapped pa cell s z = rw (has-absent (s.memory cell) z)
