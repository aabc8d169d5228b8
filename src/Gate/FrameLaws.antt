-- ===== src/Gate/FrameLaws.antt =====
-- The frame of a call gate: what the prologue saves, the epilogue brings back.
use ia2_phase.Asm.Memory.{load_bytes-congr, FitsIn}
use ia2_phase.Gate.Saves.{push_items-effect, Saved-congr, pop_items-effect}
use ia2_phase.Gate.Items.{
  push_items, push_item, total, IsWord, Saved, push_item-effect, IsBelow, pop_items, pop_item,
  SameRest,
}
use ia2_phase.Asm.States.{width}
use ia2_phase.Base.{
  List, ◌∷◌, ℕ, ◌≡◌, ◌<◌, ◌≤◌, ◌-◌, ◌⊎◌, false, arith, refl, Bool-cases, ◌∙◌, inl, inr,
  if◌then◌else◌, subst, sym,
}
use ia2_phase.Registers.{
  Reg, rsp, rbp, elem, x86_preserved_registers, is_vector, reg_eq, rbx, r12, r13, r14, r15,
  reg_eq_iff,
}
use ia2_phase.Asm.Machine.{Machine, Env, run, exec, set_reg, update_reg_other, update_reg_self}
use ia2_phase.Gate.Frame.{emit_prologue, emit_epilogue}

-- The registers of the frame, the frame pointer first.
abbrev pub frame_registers : List Reg
frame_registers = rbp ∷ x86_preserved_registers

-- The frame pointer is pushed, then set, then the other registers are pushed.
abbrev with_frame_pointer : Env → Machine → Machine
with_frame_pointer env m = let t = run env (push_item rbp) m in set_reg t rbp (t.reg rsp)

run-prologue :
    (env : Env) (m : Machine)
    → run env emit_prologue m
      ≡ run env (push_items x86_preserved_registers) (with_frame_pointer env m)
unfolding emit_prologue push_items push_item is_vector run exec
run-prologue env m = refl

with_frame_pointer-IsWord :
    (env : Env) (m : Machine) (sp : ℕ)
    → IsWord m
    → sp < 18446744073709551616
    → IsBelow m (run env (push_item rbp) m) (sp - 8) sp
    → IsWord (with_frame_pointer env m)
unfolding is_vector
with_frame_pointer-IsWord env m sp w room h = λ r e. elim (Bool-cases (reg_eq r rbp)) [
  | inl same ↦
      let top : FitsIn 8 ((run env (push_item rbp) m).reg rsp) = omega (arith, h.sp_moved) in
      subst (λ s. FitsIn (width s) ((with_frame_pointer env m).reg s))
        (sym ((reg_eq_iff r rbp).0 same))
        (rw
          (update_reg_self (run env (push_item rbp) m).reg rbp
            ((run env (push_item rbp) m).reg rsp))
          top)
  | inr other ↦
      subst (FitsIn (width r))
        (sym (
          update_reg_other (run env (push_item rbp) m).reg rbp r
            ((run env (push_item rbp) m).reg rsp) other
          ∙ h.regs_kept r e))
        (w r e)
]

-- The state of a call gate behind its prologue: `sp` is the stack pointer at its entry.
pub record IsFramed (m t : Machine) (sp : ℕ) : Type 0 where
  pub frame_top : t.reg rsp ≡ sp - 48
  pub frame_saved : Saved frame_registers t.mem sp m.reg
  pub frame_mem : (b : ℕ) → (b < sp - 48) ⊎ (sp ≤ b) → t.mem b ≡ m.mem b
  pub frame_regs : (r : Reg) → reg_eq r rsp ≡ false → reg_eq r rbp ≡ false → t.reg r ≡ m.reg r
  pub frame_fs : t.fs ≡ m.fs
  pub frame_pkru : t.pkru ≡ m.pkru
  pub frame_trapped : t.trapped ≡ m.trapped

-- From a stack pointer of at least 48, the prologue leaves the frame pointer and the five preserved
-- registers below it, in a frame of 48 bytes; nothing else in memory, no register but rsp and rbp,
-- no thread-local cell and not PKRU has changed. Registers hold values of their width.
pub emit_prologue-IsFramed :
    (env : Env) (m : Machine) (sp : ℕ)
    → IsWord m
    → m.reg rsp ≡ sp
    → sp < 18446744073709551616
    → 48 ≤ sp
    → IsFramed m (run env emit_prologue m) sp
unfolding is_vector total reg_eq
emit_prologue-IsFramed env m sp w at room fits =
    let (first, held) = push_item-effect env rbp m sp (w rbp refl) at room (omega arith) refl in
    let m1 = run env (push_item rbp) m in
    let m2 = with_frame_pointer env m in
    let kept : (r : Reg) → reg_eq r rsp ≡ false → reg_eq r rbp ≡ false → m2.reg r ≡ m.reg r =
      λ r e b. update_reg_other m1.reg rbp r (m1.reg rsp) b ∙ first.regs_kept r e in
    let top : m2.reg rsp ≡ sp - 8 =
      update_reg_other m1.reg rbp rsp (m1.reg rsp) refl ∙ first.sp_moved in
    let word : IsWord m2 = with_frame_pointer-IsWord env m sp w room first in
    let (later, saved) =
      push_items-effect env x86_preserved_registers m2 (sp - 8) word top (omega arith) (omega arith)
        refl in
    let t = run env (push_items x86_preserved_registers) m2 in
    let still = load_bytes-congr 8 t.mem m1.mem (sp - 8) (λ b l u. later.mem_kept b (inr l)) in
    rw run-prologue (record {
      frame_top = later.sp_moved ∙ omega arith;
      frame_saved = (
        still ∙ held,
        (
          saved.0 ∙ kept rbx refl refl,
          (
            saved.1.0 ∙ kept r12 refl refl,
            (
              saved.1.1.0 ∙ kept r13 refl refl,
              (saved.1.1.1.0 ∙ kept r14 refl refl, (saved.1.1.1.1.0 ∙ kept r15 refl refl, tt)),
            ),
          ),
        ),
      );
      frame_mem = λ b h. later.mem_kept b (omega arith) ∙ first.mem_kept b (omega arith);
      frame_regs = λ r e b. later.regs_kept r e ∙ kept r e b;
      frame_fs = later.fs_kept ∙ first.fs_kept;
      frame_pkru = later.pkru_kept ∙ first.pkru_kept;
      frame_trapped = later.trapped_kept ∙ first.trapped_kept;
    })

run-epilogue : emit_epilogue ≡ pop_items frame_registers
unfolding emit_epilogue pop_items pop_item is_vector
run-epilogue = refl

-- From a stack pointer of at least 48 and registers that hold values of their width: whatever the
-- code between them does, if the stack pointer is back at the frame and the 48 bytes
-- of the frame are as the prologue left them, the epilogue brings the caller's rbp, rbx and r12 to
-- r15 and its stack pointer back, and changes no other register, no memory and not PKRU.
pub epilogue_restores :
    (env : Env) (m t : Machine) (sp : ℕ)
    → IsWord m
    → m.reg rsp ≡ sp
    → sp < 18446744073709551616
    → 48 ≤ sp
    → t.reg rsp ≡ (run env emit_prologue m).reg rsp
    → ((b : ℕ) → sp - 48 ≤ b → b < sp → t.mem b ≡ (run env emit_prologue m).mem b)
    → let u = run env emit_epilogue t in
      (u.reg rsp ≡ m.reg rsp)
      × ((r : Reg)
          → reg_eq r rsp ≡ false
          → u.reg r ≡ (if elem r frame_registers then m.reg r else t.reg r))
      × SameRest t u
unfolding total is_vector reg_eq
epilogue_restores env m t sp w at room fits top frame =
    let framed = emit_prologue-IsFramed env m sp w at room fits in
    let held =
      Saved-congr frame_registers (run env emit_prologue m).mem t.mem sp m.reg m.reg (λ r e. refl)
        refl fits (λ b l u. sym (frame b l u)) framed.frame_saved in
    let (back, regs, rest) =
      pop_items-effect env frame_registers t sp m.reg (top ∙ framed.frame_top) room fits refl
        held in
    rw run-epilogue (back ∙ sym at, regs, rest)
