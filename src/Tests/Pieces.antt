-- ===== src/Tests/Pieces.antt =====
-- Tests of the pieces of a call gate.
use ia2_phase.Gate.Results.{emit_copy_stack_returns_copies}
use ia2_phase.Asm.Memory.{IsBytes}
use ia2_phase.Memcpy.{emit_memcpy}
use ia2_phase.Abi
use ia2_phase.Gate.Scrub.{emit_scrub_regs}
use ia2_phase.Gate.Arguments.{emit_copy_stack_returns}
use ia2_phase.Gate.Frame.{emit_epilogue, emit_prologue}
use ia2_phase.Abi.{ArgLocation, Kind, Arch}
use ia2_phase.Base.{
  refl, Returns, List, ◌+◌, arith, ◌≡◌, true, some, ◌∷◌, false, [], if◌then◌else◌, ◌==◌, ◌%◌, ltb,
}
use ia2_phase.Asm.Machine.{run, Machine, set_reg, exec, load_bytes}
use ia2_phase.Registers.{rax, rsp, r13, r10, rdi, Reg, reg_eq, r12, elem}
use ia2_phase.Base.{inl}
use ia2_phase.Asm.Machine.{update_reg}
use ia2_phase.Gate.Scrub.{scrub_registers}
use ia2_phase.Gate.ScrubLaws.{loc_regs}
use ia2_phase.Gate.Items.{total}
use ia2_phase.Registers.{is_vector}
use ia2_phase.Tests.Data.{env0, machine0, machine0-IsBytes, machine0-IsWord}
use ia2_phase.Gate.ScrubLaws.{emit_scrub_regs-IsScrubbed, IsScrubbed, ScrubsRegisters}
use ia2_phase.Gate.FrameLaws.{emit_prologue-IsFramed, IsFramed, epilogue_restores, frame_registers}
use ia2_phase.Gate.Items.{SameRest}
use ia2_phase.Memcpy.Copies.{emit_memcpy-IsCopied, IsCopied, copied}

pub env0-ScrubsRegisters : ScrubsRegisters env0
unfolding scrub_registers
env0-ScrubsRegisters = record {
  scrub_regs = λ m. refl;
  scrub_mem = λ m b h. refl;
  scrub_fs = λ m. refl;
  scrub_pkru = λ m. refl;
  scrub_trapped = λ m. refl;
}

-- One argument in rdi.
abbrev pub one_arg : List ArgLocation
one_arg =
    (let l = Abi.register Kind.integral 8 in record l { allocated = true; reg = some rdi }) ∷ []

emit_scrub_regs-IsScrubbed_example :
    Returns
      (emit_scrub_regs 1 one_arg true)
      (λ is. IsScrubbed (rdi ∷ r12 ∷ []) machine0 (run env0 is machine0) 8200)
unfolding reg_eq loc_regs Abi.register is_vector total
emit_scrub_regs-IsScrubbed_example =
    emit_scrub_regs-IsScrubbed env0 1 one_arg true machine0 8200 env0-ScrubsRegisters
      ((λ e. (rdi, refl, refl)), tt) (omega arith) machine0-IsWord refl (omega arith) (omega arith)

emit_prologue-IsFramed_example : IsFramed machine0 (run env0 emit_prologue machine0) 8200
unfolding reg_eq
emit_prologue-IsFramed_example =
    emit_prologue-IsFramed env0 machine0 8200 machine0-IsWord refl (omega arith) (omega arith)

-- The code between leaves other registers changed.
abbrev pub clobbered : Machine
clobbered = set_reg (run env0 emit_prologue machine0) r13 99

epilogue_restores_example :
    let u = run env0 emit_epilogue clobbered in
    (u.reg rsp ≡ 8200)
    × ((r : Reg)
        → reg_eq r rsp ≡ false
        → u.reg r ≡ (if elem r frame_registers then machine0.reg r else clobbered.reg r))
    × SameRest clobbered u
unfolding reg_eq run exec update_reg emit_prologue
epilogue_restores_example =
    epilogue_restores env0 machine0 clobbered 8200 machine0-IsWord refl (omega arith) (omega arith)
      refl (λ b l u. refl)

-- rax is the destination.
abbrev pub memcpy_start : Machine
memcpy_start = set_reg machine0 rax 100

emit_memcpy-IsCopied_example :
    IsCopied env0 rax rsp r10 0 15 memcpy_start 15
      (run env0 (emit_memcpy 15 rax rsp r10 0) memcpy_start)
unfolding reg_eq update_reg
emit_memcpy-IsCopied_example = emit_memcpy-IsCopied env0 rax rsp r10 0 15 memcpy_start (record {
  bytes = machine0-IsBytes;
  apart = inl (omega arith);
  dst_bound = omega arith;
  src_bound = omega arith;
  dst_scratch = refl;
  src_scratch = refl;
})

-- A result of 24 bytes lies behind the address 7 + 256 * 8.
abbrev pub result_start : Machine
result_start = record machine0 {
  mem = λ a. if a == 8200 then 7 else if a == 8201 then 8 else if ltb a 8208 then 0 else a % 256;
}

pub result_start-IsBytes : IsBytes result_start.mem
result_start-IsBytes = λ a. ground arith

emit_copy_stack_returns_copies_example :
    let t = run env0 (emit_copy_stack_returns 24 0) result_start in
    (t.mem ≡ copied result_start.mem 2055 (8200 + 8) 24)
    × (t.reg rax ≡ 2055)
    × (t.reg rsp ≡ 8232)
    × ((r : Reg)
        → reg_eq r rsp ≡ false
        → reg_eq r rax ≡ false
        → reg_eq r r10 ≡ false
        → t.reg r ≡ result_start.reg r)
    × (t.fs ≡ result_start.fs)
    × (t.pkru ≡ result_start.pkru)
unfolding reg_eq load_bytes
emit_copy_stack_returns_copies_example =
    emit_copy_stack_returns_copies env0 result_start 8200 2055 24 0 result_start-IsBytes
      (omega arith) refl refl (omega arith) (omega arith) (omega arith)
