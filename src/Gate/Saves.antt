-- ===== src/Gate/Saves.antt =====
-- Registers kept on the stack: what a run of pushes leaves there, and what the pops in reverse
-- order bring back.
use ia2_phase.Asm.States.{width}
use ia2_phase.Gate.Items.{
  push_item, push_items, pop_items, total, Saved, IsWord, IsBelow, SameRest, push_item-effect,
  pop_item-effect,
}
use ia2_phase.Asm.Memory.{FitsIn, load_bytes-congr}
use ia2_phase.Base.{
  List, ℕ, ◌≡◌, if◌then◌else◌, ◌∷◌, ◌+◌, ◌<◌, [], false, ◌≤◌, ◌-◌, inr, arith, refl, subst, ◌∙◌,
  sym,
}
use ia2_phase.Registers.{Reg, rsp, elem, reg_eq, reg_eq_iff}
use ia2_phase.Asm.Machine.{Machine, Env, run, load_bytes, run-append}

pub Saved-congr :
    (rs : List Reg) (mem mem' : ℕ → ℕ) (sp : ℕ) (f g : Reg → ℕ)
    → ((r : Reg) → reg_eq r rsp ≡ false → f r ≡ g r)
    → elem rsp rs ≡ false
    → total rs ≤ sp
    → ((b : ℕ) → sp - total rs ≤ b → b < sp → mem b ≡ mem' b)
    → Saved rs mem sp f
    → Saved rs mem' sp g
unfolding total
Saved-congr [] mem mem' sp f g same other fits kept h = tt
Saved-congr (r ∷ rs) mem mem' sp f g same other fits kept h =
    let apart : reg_eq r rsp ≡ false = ground arith in
    let here =
      load_bytes-congr (width r) mem mem' (sp - width r)
        (λ b l u. kept b (omega arith) (omega arith)) in
    (
      sym here ∙ h.0 ∙ same r apart,
      Saved-congr rs mem mem' (sp - width r) f g same (ground arith) (omega arith)
          (λ b l u. kept b (omega arith) (omega arith)) h.1,
    )

IsBelow-trans :
    (m t u : Machine) (lo mid sp : ℕ)
    → mid ≤ sp
    → lo ≤ mid
    → IsBelow m t mid sp
    → IsBelow t u lo mid
    → IsBelow m u lo sp
IsBelow-trans m t u lo mid sp a b h k = record {
  sp_moved = k.sp_moved;
  regs_kept = λ r e. k.regs_kept r e ∙ h.regs_kept r e;
  mem_kept = λ c e. k.mem_kept c (omega arith) ∙ h.mem_kept c (omega arith);
  fs_kept = k.fs_kept ∙ h.fs_kept;
  pkru_kept = k.pkru_kept ∙ h.pkru_kept;
  trapped_kept = k.trapped_kept ∙ h.trapped_kept;
}

-- The pushes leave the values of the registers below the old stack pointer, in order.
pub push_items-effect :
    (env : Env) (rs : List Reg) (m : Machine) (sp : ℕ)
    → IsWord m
    → m.reg rsp ≡ sp
    → sp < 18446744073709551616
    → total rs ≤ sp
    → elem rsp rs ≡ false
    → let t = run env (push_items rs) m in IsBelow m t (sp - total rs) sp × Saved rs t.mem sp m.reg
unfolding push_items total run
push_items-effect env [] m sp w at room fits other = (
  record {
    sp_moved = omega arith;
    regs_kept = λ r e. refl;
    mem_kept = λ b e. refl;
    fs_kept = refl;
    pkru_kept = refl;
    trapped_kept = refl;
  },
  tt,
)
push_items-effect env (r ∷ rs) m sp w at room fits other =
    let apart : reg_eq r rsp ≡ false = ground arith in
    let (first, held) = push_item-effect env r m sp (w r apart) at room (omega arith) apart in
    let m' = run env (push_item r) m in
    let word : IsWord m' = λ s e. subst (FitsIn (width s)) (sym (first.regs_kept s e)) (w s e) in
    let (later, saved) =
      push_items-effect env rs m' (sp - width r) word first.sp_moved (omega arith) (omega arith)
        (ground arith) in
    let t = run env (push_items rs) m' in
    let still =
      load_bytes-congr (width r) t.mem m'.mem (sp - width r) (λ b l u. later.mem_kept b (inr l)) in
    let deeper : sp - width r - total rs ≡ sp - (width r + total rs) = omega arith in
    rw run-append (
      subst (λ k. IsBelow m t k sp) deeper
          (IsBelow-trans m m' t _ (sp - width r) sp (omega arith) (omega arith) first later),
      (
        still ∙ held,
        Saved-congr rs t.mem t.mem (sp - width r) m'.reg m.reg first.regs_kept (ground arith)
            (omega arith) (λ b l u. refl) saved,
      ),
    )

-- The pops load the saved values and put the stack pointer back.
pub pop_items-effect :
    (env : Env) (rs : List Reg) (t : Machine) (sp : ℕ) (f : Reg → ℕ)
    → t.reg rsp ≡ sp - total rs
    → sp < 18446744073709551616
    → total rs ≤ sp
    → elem rsp rs ≡ false
    → Saved rs t.mem sp f
    → let u = run env (pop_items rs) t in
      (u.reg rsp ≡ sp)
      × ((s : Reg) → reg_eq s rsp ≡ false → u.reg s ≡ (if elem s rs then f s else t.reg s))
      × SameRest t u
unfolding pop_items total run
pop_items-effect env [] t sp f at room fits other saved = (
  omega arith,
  (λ s e. refl),
  record { same_mem = refl; same_fs = refl; same_pkru = refl; same_trapped = refl },
)
pop_items-effect env (r ∷ rs) t sp f at room fits other saved =
    let apart : reg_eq r rsp ≡ false = ground arith in
    let (top, regs, rest) =
      pop_items-effect env rs t (sp - width r) f (omega arith) (omega arith) (omega arith)
        (ground arith) saved.1 in
    let u = run env (pop_items rs) t in
    let loaded : load_bytes (width r) u.mem (sp - width r) ≡ f r = rw rest.same_mem saved.0 in
    let (top', regs', rest') =
      pop_item-effect env r u sp (f r) top room (omega arith) apart loaded in
    rw run-append (
      top',
      (λ s e. ground (arith, regs' s e, regs s e, reg_eq_iff r s)),
      record {
        same_mem = rest'.same_mem ∙ rest.same_mem;
        same_fs = rest'.same_fs ∙ rest.same_fs;
        same_pkru = rest'.same_pkru ∙ rest.same_pkru;
        same_trapped = rest'.same_trapped ∙ rest.same_trapped;
      },
    )
