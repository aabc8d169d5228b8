-- ===== src/Gate/Frame.antt =====
-- tools/rewriter/GenCallAsm.cpp for x86-64: the frame of a call gate on the caller's stack, the
-- arguments saved for condition functions, and the switch between the stacks.
use ia2_phase.Base.{ℕ, Bool, List, if◌then◌else◌, ◌∷◌, ◌++◌, ◌==◌, length, ◌*◌, []}
use ia2_phase.Asm.{Instr}
use ia2_phase.Registers.{Reg, rsp, rbp, r11, x86_preserved_registers, x86_int_param_reg_order}
use Prim.Native.String.{String}

-- `for (auto &r : regs) add_asm_line(aw, "pushq %"s + r)`, and the loop backwards with `popq`.
unfoldable pub push_all : List Reg → List Instr
push_all [] = []
push_all (r ∷ rs) = Instr.pushq r ∷ push_all rs

unfoldable pub pop_all : List Reg → List Instr
pop_all [] = []
pop_all (r ∷ rs) = pop_all rs ++ Instr.popq r ∷ []

unfoldable pub emit_prologue : List Instr
unfolding push_all
emit_prologue = Instr.pushq rbp ∷ Instr.movq rsp rbp ∷ push_all x86_preserved_registers

unfoldable pub emit_epilogue : List Instr
unfolding pop_all
emit_epilogue = pop_all x86_preserved_registers ++ Instr.popq rbp ∷ []

unfoldable pub emit_return : List Instr
emit_return = Instr.ret ∷ []

unfoldable pub emit_save_args : List Instr
unfolding push_all
emit_save_args = push_all x86_int_param_reg_order

unfoldable pub emit_restore_args : Bool → List Instr
unfolding pop_all
emit_restore_args pop =
    pop_all x86_int_param_reg_order
    ++ (if pop then [] else Instr.subq (length x86_int_param_reg_order * 8) rsp ∷ [])

unfoldable pub emit_align_stack_8_to_16 : List Instr
emit_align_stack_8_to_16 = Instr.subq 8 rsp ∷ []

unfoldable pub emit_revert_align_stack_8_to_16 : List Instr
emit_revert_align_stack_8_to_16 = Instr.addq 8 rsp ∷ []

unfoldable pub emit_direct_call : String → List Instr
emit_direct_call fn_name = Instr.call fn_name ∷ []

unfoldable pub emit_condition_fn_call : String → List Instr
unfolding emit_direct_call
emit_condition_fn_call name = emit_direct_call name

-- The operand `fs:(%reg)` is the register.
unfoldable pub emit_load_sp_offset : ℕ → Reg → List Instr
emit_load_sp_offset pkey fs_offset_reg = Instr.gottpoff pkey fs_offset_reg ∷ []

unfoldable pub emit_switch_stacks : ℕ → ℕ → List Instr
unfolding emit_load_sp_offset
emit_switch_stacks old_pkey new_pkey =
    emit_load_sp_offset old_pkey r11
    ++ Instr.movq_fs_store rsp r11
      ∷ (emit_load_sp_offset new_pkey r11 ++ Instr.movq_fs_load r11 rsp ∷ [])

unfoldable pub emit_free_stack_space : ℕ → List Instr
emit_free_stack_space stack_size = if stack_size == 0 then [] else Instr.addq stack_size rsp ∷ []
