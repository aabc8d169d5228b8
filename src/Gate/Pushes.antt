-- ===== src/Gate/Pushes.antt =====
-- The pushes that copy stack arguments word by word, of emit_copy_args in
-- tools/rewriter/GenCallAsm.cpp.
use ia2_phase.Asm.{Instr}
use ia2_phase.Registers.{rsp, rax, Reg, reg_eq}
use ia2_phase.Asm.Memory.{IsBytes, store-load_bytes, store_bytes-IsBytes}
use ia2_phase.Base.{
  ℕ, ◌≡◌, ◌-◌, ◌*◌, ◌≤◌, ◌<◌, ◌+◌, false, ◌⊎◌, arith, u64, ◌∙◌, refl, suc, ltb, true, zero,
  Bool-cases, [], inl, ap, inr, if◌then◌else◌, ◌&&◌,
}
use ia2_phase.Asm.Machine.{Machine, exec, Env, sub64, update_reg_self, update_reg_other, run}
use ia2_phase.Base.{leb, ltb}
use ia2_phase.Gate.Arguments.{push_loop}

-- `n` words are pushed below `sp`, copied from the words that end at `top`; no byte outside them
-- and no register but rsp has changed.
pub record IsPushed (m t : Machine) (sp top n : ℕ) : Type 0 where
  pub pushed_sp : t.reg rsp ≡ sp - 8 * n
  pub pushed_regs : (r : Reg) → reg_eq r rsp ≡ false → t.reg r ≡ m.reg r
  pub pushed_bytes : (b : ℕ) → b < 8 * n → t.mem (sp - 8 * n + b) ≡ m.mem (top - 8 * n + b)
  pub pushed_outside : (b : ℕ) → (b < sp - 8 * n) ⊎ (sp ≤ b) → t.mem b ≡ m.mem b
  pub pushed_fs : t.fs ≡ m.fs
  pub pushed_pkru : t.pkru ≡ m.pkru
  pub pushed_trapped : t.trapped ≡ m.trapped

pub push_word :
    (env : Env) (m : Machine) (sp base k : ℕ)
    → IsBytes m.mem
    → m.reg rsp ≡ sp
    → m.reg rax ≡ base
    → 8 ≤ sp
    → sp < 18446744073709551616
    → base + k < 18446744073709551616
    → IsPushed m (exec env (Instr.pushq_mem k rax) m) sp (base + k + 8) 1
unfolding exec
push_word env m sp base k h at from room fits inside =
    let down : sub64 (m.reg rsp) 8 ≡ sp - 8 = omega arith in
    let src : u64 (m.reg rax + k) ≡ base + k = omega arith in
    let index : (b : ℕ) → base + k + (sp - 8 + b - (sp - 8)) ≡ base + k + 8 - 8 + b =
      λ b. omega arith in
    let same_byte : (b : ℕ)
        → b < 8
        → (if leb (sp - 8) (sp - 8 + b) && ltb (sp - 8 + b) (sp - 8 + 8)
            then m.mem (base + k + (sp - 8 + b - (sp - 8)))
            else m.mem (sp - 8 + b))
          ≡ m.mem (base + k + 8 - 8 + b) =
      λ b l. rw (index b) (ground arith) in
    rw (down, src)
      (record {
        pushed_sp = update_reg_self m.reg rsp (sp - 8) ∙ omega arith;
        pushed_regs = λ r e. update_reg_other m.reg rsp r (sp - 8) e;
        pushed_bytes = λ b l.
            store-load_bytes 8 m.mem m.mem (sp - 8) (base + k) (sp - 8 + b) h ∙ same_byte b l;
        pushed_outside =
            λ b e. store-load_bytes 8 m.mem m.mem (sp - 8) (base + k) b h ∙ ground arith;
        pushed_fs = refl;
        pushed_pkru = refl;
        pushed_trapped = refl;
      })

-- One word, then `n` more below it.
pub pushed_byte :
    (m t u : Machine) (sp top n b : ℕ)
    → 8 * suc n ≤ sp
    → 8 * suc n ≤ top
    → (top ≤ sp - 8 * suc n) ⊎ (sp + 8 * suc n ≤ top)
    → b < 8 * suc n
    → IsPushed m t sp top 1
    → IsPushed t u (sp - 8) (top - 8) n
    → u.mem (sp - 8 * suc n + b) ≡ m.mem (top - 8 * suc n + b)
pushed_byte m t u sp top n b room below apart l h k = elim (Bool-cases (ltb b (8 * n))) [
  | inl low ↦
      let inner : b < 8 * n = ground arith in
      ap u.mem (omega arith)
      ∙ k.pushed_bytes b inner
      ∙ h.pushed_outside (top - 8 - 8 * n + b) (omega arith)
      ∙ ap m.mem (omega arith)
  | inr high ↦
      let first : 8 * n ≤ b = ground arith in
      ap u.mem (omega arith)
      ∙ k.pushed_outside (sp - 8 + (b - 8 * n)) (omega arith)
      ∙ h.pushed_bytes (b - 8 * n) (omega arith)
      ∙ ap m.mem (omega arith)
]

pub IsPushed-trans :
    (m t u : Machine) (sp top n : ℕ)
    → 8 * suc n ≤ sp
    → 8 * suc n ≤ top
    → (top ≤ sp - 8 * suc n) ⊎ (sp + 8 * suc n ≤ top)
    → IsPushed m t sp top 1
    → IsPushed t u (sp - 8) (top - 8) n
    → IsPushed m u sp top (suc n)
IsPushed-trans m t u sp top n room below apart h k = record {
  pushed_sp = k.pushed_sp ∙ omega arith;
  pushed_regs = λ r e. k.pushed_regs r e ∙ h.pushed_regs r e;
  pushed_bytes = λ b l. pushed_byte m t u sp top n b room below apart l h k;
  pushed_outside = λ b e. k.pushed_outside b (omega arith) ∙ h.pushed_outside b (omega arith);
  pushed_fs = k.pushed_fs ∙ h.pushed_fs;
  pushed_pkru = k.pushed_pkru ∙ h.pushed_pkru;
  pushed_trapped = k.pushed_trapped ∙ h.pushed_trapped;
}

pub push_loop_stops :
    (fuel i size offset : ℕ) → ltb i size ≡ false → push_loop fuel i size offset ≡ []
unfolding push_loop
push_loop_stops zero i size offset h = refl
push_loop_stops (suc fuel) i size offset h = rw h refl

pub push_loop-IsPushed :
    (env : Env) (fuel i size offset n : ℕ) (m : Machine) (sp base : ℕ)
    → n ≤ fuel
    → size ≤ i + 8 * n
    → i + 8 * n < size + 8
    → i + 8 * n ≤ offset + 8
    → IsBytes m.mem
    → m.reg rsp ≡ sp
    → m.reg rax ≡ base
    → 8 * n ≤ sp
    → sp < 18446744073709551616
    → base + offset < 18446744073709551616
    → (base + (offset + 8 - i) ≤ sp - 8 * n) ⊎ (sp + 8 * n ≤ base + (offset + 8 - i))
    → IsPushed m (run env (push_loop fuel i size offset) m) sp (base + (offset + 8 - i)) n
unfolding push_loop run exec reg_eq
push_loop-IsPushed env fuel i size offset zero m sp base enough le lt inside h at from room fits
      bound apart =
    let done : ltb i size ≡ false = ground arith in
    let stop : push_loop fuel i size offset ≡ [] = push_loop_stops fuel i size offset done in
    rw stop (record {
      pushed_sp = omega arith;
      pushed_regs = λ r e. refl;
      pushed_bytes = λ b l. absurd (omega arith);
      pushed_outside = λ b e. refl;
      pushed_fs = refl;
      pushed_pkru = refl;
      pushed_trapped = refl;
    })
push_loop-IsPushed env (suc fuel) i size offset (suc n) m sp base enough le lt inside h at from room
      fits bound apart =
    let more : ltb i size ≡ true = ground arith in
    let here = push_word env m sp base (offset - i) h at from (omega arith) fits (omega arith) in
    let m' = exec env (Instr.pushq_mem (offset - i) rax) m in
    let top : base + (offset - i) + 8 ≡ base + (offset + 8 - i) = omega arith in
    let here' : IsPushed m m' sp (base + (offset + 8 - i)) 1 = rw top at here in
    let bytes : IsBytes m'.mem = store_bytes-IsBytes 8 m.mem _ _ h in
    let later =
      push_loop-IsPushed env fuel (i + 8) size offset n m' (sp - 8) base (omega arith) (omega arith)
        (omega arith) (omega arith) bytes (here.pushed_sp ∙ omega arith)
        (here.pushed_regs rax refl ∙ from) (omega arith) (omega arith) bound (omega arith) in
    let next : base + (offset + 8 - (i + 8)) ≡ base + (offset + 8 - i) - 8 = omega arith in
    rw more (
      IsPushed-trans m m' _ sp (base + (offset + 8 - i)) n room (omega arith) apart here'
        (rw next at later))
push_loop-IsPushed env zero i size offset (suc n) m sp base enough le lt inside h at from room fits
      bound apart =
    absurd (omega arith)
