-- ===== src/Gate/Scrub.antt =====
-- tools/rewriter/GenCallAsm.cpp, emit_scrub_regs for x86-64, and the routine that it calls, of
-- runtime/libia2/include/scrub_registers.h.
use ia2_phase.Base.{
  Bool, List, ℕ, Option, if◌then◌else◌, ◌∷◌, ◌>>=◌, ◌>>◌, not, some, ◌+◌, assert, ltb, ◌==◌, ◌||◌,
  ◌++◌, ◌&&◌, false, [],
}
use ia2_phase.Asm.{Instr}
use ia2_phase.Asm.Machine.{Machine}
use ia2_phase.Abi
use ia2_phase.Abi.{ArgLocation}
use ia2_phase.Registers.{Reg, rsp, r12, gpr, xmm, xreg, qreg}
use Prim.Native.String.{String}

unfoldable pub emit_reg_push : ArgLocation → Option (List Instr)
unfolding Abi.as_str Abi.is_128bit_float
emit_reg_push loc = do
  assert (not loc.on_stack)
  r ← Abi.as_str loc
  some (
      if Abi.is_128bit_float loc
      then Instr.subq 16 rsp ∷ Instr.movdqu_store r ∷ []
      else Instr.pushq r ∷ [])

unfoldable pub emit_reg_pop : ArgLocation → Option (List Instr)
unfolding Abi.as_str Abi.is_128bit_float
emit_reg_pop loc = do
  assert (not loc.on_stack)
  r ← Abi.as_str loc
  some (
      if Abi.is_128bit_float loc
      then Instr.movdqu_load r ∷ Instr.addq 16 rsp ∷ []
      else Instr.popq r ∷ [])

-- The loop over the locations, and the one backwards: each skips what is on the stack.
unfoldable pub push_locs : List ArgLocation → Option (List Instr)
unfolding emit_reg_push
push_locs [] = some []
push_locs (loc ∷ locs) = do
  rest ← push_locs locs
  here ← if loc.on_stack then some [] else emit_reg_push loc
  some (here ++ rest)

unfoldable pub pop_locs : List ArgLocation → Option (List Instr)
unfolding emit_reg_pop
pop_locs [] = some []
pop_locs (loc ∷ locs) = do
  rest ← pop_locs locs
  here ← if loc.on_stack then some [] else emit_reg_pop loc
  some (rest ++ here)

unfoldable pub reg_arg_count : List ArgLocation → ℕ
reg_arg_count [] = 0
reg_arg_count (loc ∷ locs) =
    let rest = reg_arg_count locs in if loc.on_stack then rest else rest + 1

abbrev pub scrub_symbol : String
scrub_symbol = "__libia2_scrub_registers"

unfoldable pub emit_scrub_regs : ℕ → List ArgLocation → Bool → Option (List Instr)
unfolding push_locs pop_locs reg_arg_count
emit_scrub_regs pkey locs indirect = do
  saves ← push_locs locs
  restores ← pop_locs locs
  let preserve_regs = ltb 0 (reg_arg_count locs) || indirect
  let fn_save = if indirect then Instr.pushq r12 ∷ [] else []
  let fn_restore = if indirect then Instr.popq r12 ∷ [] else []
  some (
      if pkey == 0
      then []
      else (if preserve_regs then saves ++ fn_save else [])
        ++ Instr.call scrub_symbol ∷ (if preserve_regs then fn_restore ++ restores else []))

-- __libia2_scrub_registers: `vzeroall`, then every general register but rsp and rbp.
unfoldable pub scrubbed : Reg → Bool
scrubbed (gpr n) = not (n == 4 || n == 5) && ltb n 16
scrubbed (xmm n) = ltb n 16
scrubbed (xreg n) = false
scrubbed (qreg n) = false

unfoldable pub scrub_registers : Machine → Machine
unfolding scrubbed
scrub_registers m = record m { reg = λ r. if scrubbed r then 0 else m.reg r }
