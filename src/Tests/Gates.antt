-- ===== src/Tests/Gates.antt =====
-- Tests of whole call gates.
use ia2_phase.Tests.Pieces.{env0-ScrubsRegisters}
use ia2_phase.Asm.States.{IsState, run-IsState}
use ia2_phase.Wrapper.Return.{IsReturned, leave-IsReturned}
use ia2_phase.Tests.Data.{small_sig}
use ia2_phase.Wrapper.Call.{IsAtCall, before_call-IsAtCall}
use ia2_phase.Wrapper.{before_call, leave}
use ia2_phase.Gate.MemoryReturns.{memory_return-scrubbed}
use ia2_phase.ReturnLocs.{allocate_return_locations}
use ia2_phase.Base.{fold_m, ℕ, All, Bool-cases, inr}
use ia2_phase.Wrapper.Alignment.{layout_of-aligned}
use ia2_phase.Wrapper.Passing.{IsPassing, emit_copy_args-IsPassing}
use ia2_phase.Pkru.Rights.{grants, grants-mixed_pkru_value}
use ia2_phase.Wrapper.Sizes.{Layout, layout_of}
use ia2_phase.Pkru.{pkru_value, mixed_pkru_value}
use ia2_phase.Abi
use ia2_phase.Gate.Scrub.{emit_scrub_regs}
use ia2_phase.Gate.Arguments.{emit_copy_args}
use ia2_phase.Gate.Frame.{emit_prologue}
use ia2_phase.Abi.{ArgLocation, Kind, Arch}
use ia2_phase.Base.{
  refl, Returns, ◌+◌, arith, ◌≡◌, true, some, ◌∷◌, false, [], if◌then◌else◌, ◌==◌, ◌⊎◌, none, ◌%◌,
}
use ia2_phase.Asm.Machine.{run, Machine}
use ia2_phase.Registers.{rax, rsp, rdi, Reg, reg_eq, rcx, rdx, rsi, r8, r9, xmm}
use ia2_phase.Base.{inl}
use ia2_phase.Gate.ScrubLaws.{loc_regs}
use ia2_phase.Gate.Items.{total}
use ia2_phase.Registers.{is_vector}
use ia2_phase.Tests.Data.{
  env0, machine0, machine0-IsBytes, machine0-IsWord, big_sig, machine1, machine1-IsState,
  env0-offsets,
}

abbrev in_reg : Reg → ℕ → ArgLocation
in_reg r n = let l = Abi.register Kind.integral n in record l { allocated = true; reg = some r }

abbrev big_layout : Layout
big_layout = record {
  args =
      in_reg rdi 8
      ∷ in_reg rsi 8
      ∷ in_reg rdx 8
      ∷ in_reg rcx 8
      ∷ in_reg r8 8
      ∷ in_reg r9 8
      ∷ (let l = Abi.register Kind.integral 8 in record l { allocated = true; on_stack = true })
      ∷ (let l = Abi.register Kind.float 4 in record l { allocated = true; reg = some (xmm 0) })
      ∷ [];
  rets =
      (let l = Abi.stack 24 8 in
        record l { indirect_on_stack = true; allocated = true; reg = some rax })
      ∷ [];
  wrapper_args = none;
  stack_arg_size = 8;
  stack_arg_padding = 0;
  wrapper_stack_arg_size = 8;
  stack_return_size = 24;
  stack_return_padding = 0;
  compartment_stack_space = 40;
  stack_alignment = 0;
}

big_layout_lem : layout_of big_sig none ≡ some big_layout
unfolding layout_of fold_m Abi.register Abi.stack
big_layout_lem = refl

layout_of-aligned_example :
    ((big_layout.stack_alignment ≡ 0) ⊎ (big_layout.stack_alignment ≡ 8))
    × ((8 + big_layout.compartment_stack_space + big_layout.stack_alignment) % 16 ≡ 0)
layout_of-aligned_example = layout_of-aligned big_sig none big_layout big_layout_lem

emit_copy_args-IsPassing_example :
    Returns (emit_copy_args big_layout.args none 24 0 0 8 0 8 1) (λ code.
      let t = run env0 code machine0 in
      (t.reg rsp % 16 ≡ 0) × IsPassing machine0 t 8200 (65536 + 56) 40 24 8)
unfolding reg_eq
emit_copy_args-IsPassing_example =
    emit_copy_args-IsPassing env0 machine0 big_sig big_layout 8200 65536 1 big_layout_lem
      machine0-IsBytes refl refl refl refl (omega arith) (omega arith) (omega arith) (omega arith)

grants-mixed_pkru_value_example : grants (mixed_pkru_value 1 15) 15 ≡ true
grants-mixed_pkru_value_example =
    grants-mixed_pkru_value 1 15 15 (omega arith) (omega arith) (omega arith)

memory_return-scrubbed_example :
    Returns
      (allocate_return_locations (record { args = []; ret = Abi.stack 24 8 ∷ [] }) Arch.x86)
      (λ locs.
        All (λ l. l.reg ≡ some rax) locs
        × Returns (emit_scrub_regs 2 locs false) (λ is. (run env0 is machine0).reg rax ≡ 0))
unfolding reg_eq
memory_return-scrubbed_example =
    memory_return-scrubbed env0 2 24 8 machine0 8200 env0-ScrubsRegisters (omega arith)
      machine0-IsWord refl (omega arith)

before_call-IsAtCall_example :
    Returns
      (before_call big_layout [] [] [] false 1 2)
      (λ code. IsAtCall env0 machine1 (run env0 code machine1) big_layout 65536 32776 1 2)
unfolding reg_eq loc_regs Abi.register total is_vector
before_call-IsAtCall_example =
    before_call-IsAtCall env0 machine1 big_sig big_layout 65536 32776 1 2 big_layout_lem
      env0-ScrubsRegisters (omega arith) machine1-IsState env0-offsets refl refl refl refl
      (omega arith) (omega arith) (omega arith) (omega arith)

abbrev small_layout : Layout
small_layout = record {
  args =
      in_reg rdi 8
      ∷ (let l = Abi.register Kind.float 8 in record l { allocated = true; reg = some (xmm 0) })
      ∷ [];
  rets =
      in_reg rax 8
      ∷ (let l = Abi.register Kind.float 4 in record l { allocated = true; reg = some (xmm 0) })
      ∷ [];
  wrapper_args = none;
  stack_arg_size = 0;
  stack_arg_padding = 0;
  wrapper_stack_arg_size = 0;
  stack_return_size = 0;
  stack_return_padding = 0;
  compartment_stack_space = 0;
  stack_alignment = 8;
}

small_layout_lem : layout_of small_sig none ≡ some small_layout
unfolding layout_of fold_m Abi.register
small_layout_lem = refl

-- Where the target returns to a gate that machine1 entered.
abbrev returning : Machine
returning = record {
  reg = λ r. if reg_eq r rsp then 32768 else 9;
  mem = (run env0 emit_prologue machine1).mem;
  fs = λ c. if c == 8 then 65488 else 32776;
  pkru = pkru_value 2;
  trapped = false;
}

returning-IsState : IsState returning
unfolding reg_eq pkru_value emit_prologue is_vector
returning-IsState = record {
  state_regs = λ r. elim (Bool-cases (is_vector r)) [
    | inl vec ↦ rw vec (ground arith)
    | inr scalar ↦ rw scalar (ground arith)
  ];
  state_mem =
      (run-IsState env0 emit_prologue machine1 env0-offsets (ground arith)
        machine1-IsState).state_mem;
  state_fs = λ c. ground arith;
  state_pkru = refl;
}

leave-IsReturned_example : Returns (emit_scrub_regs 2 small_layout.rets false) (λ scrub.
    IsReturned env0 machine1 returning
      (run env0 (leave small_layout scrub [] 1 2) returning)
      small_layout
      65536
      32776
      1
      2)
unfolding reg_eq loc_regs Abi.register total is_vector
leave-IsReturned_example =
    leave-IsReturned env0 machine1 returning small_sig small_layout 65536 32776 1 2 small_layout_lem
      refl env0-ScrubsRegisters (omega arith) machine1-IsState returning-IsState env0-offsets refl
      refl (omega arith) (omega arith) refl (omega arith) (omega arith) refl (λ b k j. refl)
      (omega arith)
