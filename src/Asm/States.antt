-- ===== src/Asm/States.antt =====
-- The widths of registers, memory cells and PKRU are kept by the instructions.
use ia2_phase.Registers.{Reg, is_vector, reg_eq, r10, rsp, rcx, r11, rdx, rax}
use ia2_phase.Asm.{Instr}
use ia2_phase.Base.{
  ℕ, Bool-cases, suc, ◌<◌, if◌then◌else◌, ◌≡◌, arith, inl, ◌+◌, inr, ◌*◌, false, ◌/◌, zero, refl,
  ◌||◌, ◌==◌, u64, List, All, ◌∷◌, [], subst,
}
use ia2_phase.Asm.Memory.{FitsIn, IsBytes, store_bytes-IsBytes}
use ia2_phase.Asm.Machine.{
  Machine, set_reg, load_bytes, update_reg, run, push, exec, update_mem, sub64, Env,
}

-- 16 bytes for a vector register.
abbrev pub width : Reg → ℕ
width r = if is_vector r then 16 else 8

pub record IsState (m : Machine) : Type 0 where
  pub state_regs : (r : Reg) → FitsIn (width r) (m.reg r)
  pub state_mem : IsBytes m.mem
  pub state_fs : (c : ℕ) → FitsIn 8 (m.fs c)
  pub state_pkru : FitsIn 8 m.pkru

FitsIn-word : (r : Reg) (v : ℕ) → FitsIn 8 v → FitsIn (width r) v
FitsIn-word r v h = elim (Bool-cases (is_vector r)) [
  | inl vec ↦ rw vec (omega arith)
  | inr scalar ↦ rw scalar h
]

pub FitsIn-lt : (v : ℕ) → v < 18446744073709551616 → FitsIn 8 v
FitsIn-lt v h = omega arith

FitsIn-load_bytes : (n : ℕ) (m : ℕ → ℕ) (a : ℕ) → IsBytes m → FitsIn n (load_bytes n m a)
unfolding load_bytes
FitsIn-load_bytes zero m a h = refl
FitsIn-load_bytes (suc n) m a h =
    let rest : (m a + 256 * load_bytes n m (a + 1)) / 256 ≡ load_bytes n m (a + 1) =
      omega (arith, h a) in
    rw rest (FitsIn-load_bytes n m (a + 1) h)

set_reg-IsState : (m : Machine) (r : Reg) (v : ℕ) → FitsIn 8 v → IsState m → IsState (set_reg m r v)
unfolding update_reg
set_reg-IsState m r v fits h = record {
  state_regs = λ s. elim (Bool-cases (reg_eq r s)) [
    | inl same ↦ rw same (FitsIn-word s v fits)
    | inr other ↦ rw other (h.state_regs s)
  ];
  state_mem = h.state_mem;
  state_fs = h.state_fs;
  state_pkru = h.state_pkru;
}

-- The instructions of a gate without a call and without the copies of memcpy.
abbrev pub IsPlain : Instr → Type 0
IsPlain (Instr.pushq r) = is_vector r ≡ false
IsPlain (Instr.pushq_mem off r) = Unit
IsPlain (Instr.subq n r) = Unit
IsPlain (Instr.addq n r) = Unit
IsPlain (Instr.movq src dst) = Unit
IsPlain (Instr.xorl r) = Unit
IsPlain (Instr.movl_imm v r) = v < 4294967296
IsPlain Instr.wrpkru = Unit
IsPlain (Instr.assert_pkru v) = Unit
IsPlain (Instr.gottpoff n r) = Unit
IsPlain (Instr.movq_fs_store src off) = is_vector src ≡ false
IsPlain (Instr.movq_fs_load off dst) = Unit
IsPlain _ = ⊥

push_word-IsState : (m : Machine) (v : ℕ) → IsState m → IsState (push 8 v m)
push_word-IsState m v h =
    let sp = sub64 (m.reg rsp) 8 in
    let down = set_reg-IsState m rsp sp (omega arith) h in
    record {
      state_regs = down.state_regs;
      state_mem = store_bytes-IsBytes 8 m.mem sp v h.state_mem;
      state_fs = h.state_fs;
      state_pkru = h.state_pkru;
    }

pub general-FitsIn : (r : Reg) (m : Machine) → is_vector r ≡ false → IsState m → FitsIn 8 (m.reg r)
general-FitsIn r m p h = subst (λ b. FitsIn (if b then 16 else 8) (m.reg r)) p (h.state_regs r)

moved-FitsIn :
    (src dst : Reg) (m : Machine)
    → IsState m
    → FitsIn 8 (if is_vector src || is_vector dst then u64 (m.reg src) else m.reg src)
moved-FitsIn src dst m h = elim (Bool-cases (is_vector src || is_vector dst)) [
  | inl vec ↦ rw vec (omega arith)
  | inr scalar ↦
      let plain : is_vector src ≡ false = ground arith in rw scalar (general-FitsIn src m plain h)
]

cell-FitsIn :
    (a c v : ℕ) (f : ℕ → ℕ) → FitsIn 8 v → FitsIn 8 (f c) → FitsIn 8 (if a == c then v else f c)
cell-FitsIn a c v f h k = elim (Bool-cases (a == c)) [ inl e ↦ rw e h | inr e ↦ rw e k ]

exec-IsState :
    (env : Env) (i : Instr) (m : Machine)
    → ((n : ℕ) → FitsIn 8 (env.tpoff n))
    → IsPlain i
    → IsState m
    → IsState (exec env i m)
unfolding exec update_mem
exec-IsState env (Instr.pushq r) m e p h = push_word-IsState m (m.reg r) h
exec-IsState env (Instr.pushq_mem off r) m e p h = push_word-IsState m _ h
exec-IsState env (Instr.subq n r) m e p h = set_reg-IsState m r _ (omega arith) h
exec-IsState env (Instr.addq n r) m e p h = set_reg-IsState m r _ (omega arith) h
exec-IsState env (Instr.movq src dst) m e p h = set_reg-IsState m dst _ (moved-FitsIn src dst m h) h
exec-IsState env (Instr.xorl r) m e p h = set_reg-IsState m r 0 (omega arith) h
exec-IsState env (Instr.movl_imm v r) m e p h = set_reg-IsState m r v (omega arith) h
exec-IsState env Instr.wrpkru m e p h = record {
  state_regs = h.state_regs;
  state_mem = h.state_mem;
  state_fs = h.state_fs;
  state_pkru = omega arith;
}
exec-IsState env (Instr.assert_pkru v) m e p h =
    let a = set_reg-IsState m r10 (m.reg rcx) (h.state_regs rcx) h in
    let b = set_reg-IsState _ r11 (m.reg rdx) (h.state_regs rdx) a in
    let c = set_reg-IsState _ rax m.pkru h.state_pkru b in
    record {
      state_regs = c.state_regs;
      state_mem = c.state_mem;
      state_fs = c.state_fs;
      state_pkru = c.state_pkru;
    }
exec-IsState env (Instr.gottpoff n r) m e p h = set_reg-IsState m r _ (e n) h
exec-IsState env (Instr.movq_fs_store src off) m e p h = record {
  state_regs = h.state_regs;
  state_mem = h.state_mem;
  state_fs =
      λ c. cell-FitsIn (m.reg off) c (m.reg src) m.fs (general-FitsIn src m p h) (h.state_fs c);
  state_pkru = h.state_pkru;
}
exec-IsState env (Instr.movq_fs_load off dst) m e p h =
    set_reg-IsState m dst _ (h.state_fs (m.reg off)) h
exec-IsState env _ m e p h = absurd p

pub run-IsState :
    (env : Env) (is : List Instr) (m : Machine)
    → ((n : ℕ) → FitsIn 8 (env.tpoff n))
    → All IsPlain is
    → IsState m
    → IsState (run env is m)
unfolding run
run-IsState env [] m e p h = h
run-IsState env (i ∷ is) m e p h =
    run-IsState env is (exec env i m) e p.1 (exec-IsState env i m e p.0 h)
