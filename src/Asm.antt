-- ===== src/Asm.antt =====
-- The assembly lines that tools/rewriter/GenCallAsm.cpp writes for x86-64, as data: one
-- constructor for each form of line that it passes to add_asm_line or add_raw_line. What it
-- appends to the AsmWriter is the list of them; comment lines, which assemble to nothing, are
-- left out.
use ia2_phase.Base.{ℕ}
pub mod Machine
pub mod Memory
pub mod States
use ia2_phase.Registers.{Reg}
use Prim.Native.String.{String}

-- Operands are in the order of the text, source first: `load w off base dst` is a move of `w`
-- bytes from `off(%base)`, `movq_fs_store src off` is `movq %src, %fs:(%off)`.
pub data Instr : Type 0 where
  pushq popq : Reg → Instr
  pushq_mem : ℕ → Reg → Instr
  subq addq : ℕ → Reg → Instr
  movq : Reg → Reg → Instr
  load : ℕ → ℕ → Reg → Reg → Instr
  store : ℕ → Reg → ℕ → Reg → Instr
  movdqu_store movdqu_load : Reg → Instr
  xorl : Reg → Instr
  movl_imm movq_imm : ℕ → Reg → Instr
  wrpkru : Instr
  assert_pkru : ℕ → Instr
  gottpoff : ℕ → Reg → Instr
  movq_fs_store : Reg → Reg → Instr
  movq_fs_load : Reg → Reg → Instr
  call : String → Instr
  call_reg : Reg → Instr
  ret : Instr
  text previous : Instr
  global local type_function label size_of : String → Instr
