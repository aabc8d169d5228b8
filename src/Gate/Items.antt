-- ===== src/Gate/Items.antt =====
-- One register kept on the stack, a general or a vector one, and what a saved list of them is.
use ia2_phase.Asm.States.{width}
use ia2_phase.Asm.Memory.{FitsIn, store_bytes-outside, load-store_bytes}
use ia2_phase.Base.{
  List, ℕ, ◌≡◌, if◌then◌else◌, ◌∷◌, ◌+◌, ◌<◌, [], ◌++◌, false, ◌≤◌, ◌-◌, Bool-cases, ◌⊎◌, inl, inr,
  arith, refl,
}
use ia2_phase.Asm.{Instr}
use ia2_phase.Registers.{Reg, rsp, is_vector, reg_eq, reg_eq_comm}
use ia2_phase.Asm.Machine.{
  Machine, Env, run, exec, load_bytes, write, sub64, set_reg, update_reg, update_reg_self,
  update_reg_other,
}

unfoldable pub push_item : Reg → List Instr
push_item r =
    if is_vector r then Instr.subq 16 rsp ∷ Instr.movdqu_store r ∷ [] else Instr.pushq r ∷ []

unfoldable pub pop_item : Reg → List Instr
pop_item r = if is_vector r then Instr.movdqu_load r ∷ Instr.addq 16 rsp ∷ [] else Instr.popq r ∷ []

unfoldable pub push_items : List Reg → List Instr
push_items [] = []
push_items (r ∷ rs) = push_item r ++ push_items rs

unfoldable pub pop_items : List Reg → List Instr
pop_items [] = []
pop_items (r ∷ rs) = pop_items rs ++ pop_item r

unfoldable pub total : List Reg → ℕ
total [] = 0
total (r ∷ rs) = width r + total rs

-- The words below `sp` hold the values `f` of the registers.
abbrev pub Saved : List Reg → (ℕ → ℕ) → ℕ → (Reg → ℕ) → Type 0
Saved [] mem sp f = Unit
Saved (r ∷ rs) mem sp f =
    (load_bytes (width r) mem (sp - width r) ≡ f r) × Saved rs mem (sp - width r) f

-- Registers but the stack pointer hold values of their width.
abbrev pub IsWord : Machine → Type 0
IsWord m = (r : Reg) → reg_eq r rsp ≡ false → FitsIn (width r) (m.reg r)

-- Only rsp and the bytes from `lo` to `sp` may differ.
pub record IsBelow (m t : Machine) (lo sp : ℕ) : Type 0 where
  pub sp_moved : t.reg rsp ≡ lo
  pub regs_kept : (r : Reg) → reg_eq r rsp ≡ false → t.reg r ≡ m.reg r
  pub mem_kept : (b : ℕ) → (b < lo) ⊎ (sp ≤ b) → t.mem b ≡ m.mem b
  pub fs_kept : t.fs ≡ m.fs
  pub pkru_kept : t.pkru ≡ m.pkru
  pub trapped_kept : t.trapped ≡ m.trapped

-- Only registers may differ.
pub record SameRest (m t : Machine) : Type 0 where
  pub same_mem : t.mem ≡ m.mem
  pub same_fs : t.fs ≡ m.fs
  pub same_pkru : t.pkru ≡ m.pkru
  pub same_trapped : t.trapped ≡ m.trapped

-- A word of `w` bytes written below the top of the stack.
pub IsBelow-write :
    (w v sp : ℕ) (m : Machine)
    → m.reg rsp ≡ sp
    → w ≤ sp
    → FitsIn w v
    → let t = write w (set_reg m rsp (sp - w)) (sp - w) v in
      IsBelow m t (sp - w) sp × (load_bytes w t.mem (sp - w) ≡ v)
IsBelow-write w v sp m at fits word = (
  record {
    sp_moved = update_reg_self m.reg rsp (sp - w);
    regs_kept = λ r e. update_reg_other m.reg rsp r (sp - w) e;
    mem_kept = λ b h. store_bytes-outside w m.mem (sp - w) v b (omega arith);
    fs_kept = refl;
    pkru_kept = refl;
    trapped_kept = refl;
  },
  load-store_bytes w m.mem (sp - w) v word,
)

pub sub64_sub : (a b : ℕ) → a < 18446744073709551616 → b ≤ a → sub64 a b ≡ a - b
sub64_sub a b h k = omega arith

pub push_item-effect :
    (env : Env) (r : Reg) (m : Machine) (sp : ℕ)
    → FitsIn (width r) (m.reg r)
    → m.reg rsp ≡ sp
    → sp < 18446744073709551616
    → width r ≤ sp
    → reg_eq r rsp ≡ false
    → let t = run env (push_item r) m in
      IsBelow m t (sp - width r) sp × (load_bytes (width r) t.mem (sp - width r) ≡ m.reg r)
unfolding push_item run exec
push_item-effect env r m sp w at room fits other = elim (Bool-cases (is_vector r)) [
  | inl vec ↦
      let small : 16 ≤ sp = ground arith in
      let down : sub64 (m.reg rsp) 16 ≡ sp - 16 = omega arith in
      let same : update_reg m.reg rsp (sp - 16) r ≡ m.reg r =
        update_reg_other m.reg rsp r (sp - 16) other in
      rw vec (
        rw (down, update_reg_self m.reg rsp (sp - 16), same)
          (IsBelow-write 16 (m.reg r) sp m at small (rw vec at w)))
  | inr scalar ↦
      let small : 8 ≤ sp = ground arith in
      let down : sub64 (m.reg rsp) 8 ≡ sp - 8 = omega arith in
      rw scalar (rw down (IsBelow-write 8 (m.reg r) sp m at small (rw scalar at w)))
]

-- The register is loaded from the top of the stack, which moves up past it.
pub pop_item-effect :
    (env : Env) (r : Reg) (t : Machine) (sp v : ℕ)
    → t.reg rsp ≡ sp - width r
    → sp < 18446744073709551616
    → width r ≤ sp
    → reg_eq r rsp ≡ false
    → load_bytes (width r) t.mem (sp - width r) ≡ v
    → let u = run env (pop_item r) t in
      (u.reg rsp ≡ sp)
      × ((s : Reg) → reg_eq s rsp ≡ false → u.reg s ≡ (if reg_eq r s then v else t.reg s))
      × SameRest t u
unfolding pop_item run exec update_reg
pop_item-effect env r t sp v at room fits other loaded = elim (Bool-cases (is_vector r)) [
  | inl vec ↦
      let small : 16 ≤ sp = ground arith in
      let top : t.reg rsp ≡ sp - 16 = ground arith in
      let value : load_bytes 16 t.mem (t.reg rsp) ≡ v = rw top (rw vec at loaded) in
      rw vec (
        ground arith,
        (λ s e. ground (arith, reg_eq_comm s rsp)),
        record { same_mem = refl; same_fs = refl; same_pkru = refl; same_trapped = refl },
      )
  | inr scalar ↦
      let small : 8 ≤ sp = ground arith in
      let top : t.reg rsp ≡ sp - 8 = ground arith in
      let value : load_bytes 8 t.mem (t.reg rsp) ≡ v = rw top (rw scalar at loaded) in
      rw scalar (
        ground arith,
        (λ s e. ground (arith, reg_eq_comm s rsp)),
        record { same_mem = refl; same_fs = refl; same_pkru = refl; same_trapped = refl },
      )
]
