-- ===== src/Spin/Nesting.antt =====
-- Nested critical sections of one CPU (`interrupt_off`, `interrupt_on` of kernel/src/os.c).
use native.Mathlib.Decide.{dec_lt}
use nju_os_lab.Prelude.{ℕ, max, ◌+◌, ◌^◌, ◌<◌, ◌≡◌, refl, false, arith, ◌∙◌}
use nju_os_lab.Spin.{Cpu, interrupt_off, interrupt_on}

-- Well-bracketed code: nothing, or a section with its body and then the code behind it.
pub data Code : Type 0 where
  end : Code
  section : (body rest : Code) → Code

-- How deep its sections are nested.
unfoldable pub depth : Code → ℕ
depth end = 0
depth (section body rest) = max (depth body + 1) (depth rest)

-- The calls of such code in order.
pub run : Code → Cpu → Cpu
run end c = c
run (section body rest) c = run rest (interrupt_on (run body (interrupt_off c)))

-- Inside a section interrupts are off.
abbrev pub IsConsistent : Cpu → Type 0
IsConsistent c = 0 < c.i_nest_num → c.flag ≡ false

-- The state before and after, as far as the code can tell. `i_enable` matters inside sections only.
pub record Restored (c c' : Cpu) : Type 0 where
  pub flag : c'.flag ≡ c.flag
  pub nesting : c'.i_nest_num ≡ c.i_nest_num
  pub enable : 0 < c.i_nest_num → c'.i_enable ≡ c.i_enable

off-IsConsistent : (c : Cpu) → IsConsistent (interrupt_off c)
unfolding interrupt_off
off-IsConsistent c h = refl

section_restores :
    (c d : Cpu)
    → IsConsistent c
    → c.i_nest_num + 1 < 2 ^ 31
    → Restored (interrupt_off c) d
    → Restored c (interrupt_on d)
unfolding interrupt_off interrupt_on
section_restores c d h lt r = elim (dec_lt 0 c.i_nest_num) [
  | yes inner ↦
      let off = h inner in
      let saved = r.enable (omega arith) in
      record { flag = ground arith; nesting = ground arith; enable = λ _. ground arith }
  | no outer ↦
      let saved = r.enable (omega arith) in
      record { flag = ground arith; nesting = ground arith; enable = λ p. absurd (outer p) }
]

Restored-trans : {a b c : Cpu} → Restored a b → Restored b c → Restored a c
Restored-trans r q = record {
  flag = q.flag ∙ r.flag;
  nesting = q.nesting ∙ r.nesting;
  enable = λ p. q.enable (omega (arith, r.nesting)) ∙ r.enable p;
}

-- On a CPU whose interrupts are off inside sections, well-bracketed calls of `interrupt_off` and `interrupt_on`,
-- nested no deeper than an `int` counts, restore the interrupt flag and the nesting number, and what
-- is saved for an outer section.
pub run-Restored :
    (code : Code) (c : Cpu)
    → IsConsistent c
    → c.i_nest_num + depth code < 2 ^ 31
    → Restored c (run code c)
unfolding run depth interrupt_off
run-Restored end c h lt = record { flag = refl; nesting = refl; enable = λ _. refl }
run-Restored (section body rest) c h lt =
    let inner = run-Restored body (interrupt_off c) (off-IsConsistent c) (omega arith) in
    let one = section_restores c (run body (interrupt_off c)) h (omega arith) inner in
    let next = interrupt_on (run body (interrupt_off c)) in
    Restored-trans one (
      run-Restored rest next (λ p. one.flag ∙ h (omega (arith, one.nesting)))
        (omega (arith, one.nesting)))
