-- ===== src/Gate/ScrubLaws.antt =====
-- What emit_scrub_regs keeps and what it clears.
use Prim.Native.String.{String}
use ia2_phase.Asm.{Instr}
use ia2_phase.Asm.Machine.{Env, Machine, Target, run, run-append, exec}
use ia2_phase.Gate.Saves.{push_items-effect, Saved-congr, pop_items-effect}
use ia2_phase.Gate.Items.{push_items, pop_items, push_item, pop_item, IsWord, total}
use ia2_phase.Base.{
  List, ◌≡◌, false, All, [], ◌∷◌, arith, if◌then◌else◌, Bool-cases, some, refl, inl, none,
  append-nil, inr, Bool, ◌++◌, sym, ap, ℕ, ◌∙◌, ◌<◌, append_assoc, ◌≤◌, true, Returns, ◌-◌,
}
use ia2_phase.Abi.{ArgLocation}
use ia2_phase.Params.Located.{IsLocated}
use ia2_phase.Registers.{Reg, rsp, elem, reg_eq, reg_eq_comm, r12, is_vector, elem-append-false}
use ia2_phase.Gate.Scrub.{
  push_locs, pop_locs, reg_arg_count, emit_scrub_regs, scrub_symbol, scrub_registers, scrubbed,
}

-- The registers of the locations that are not on the stack.
unfoldable pub loc_regs : List ArgLocation → List Reg
loc_regs [] = []
loc_regs (l ∷ ls) =
    let rest = loc_regs ls in
    if l.on_stack then rest else elim l.reg [ none ↦ rest | some r ↦ r ∷ rest ]

push_locs-items :
    (ls : List ArgLocation) → All IsLocated ls → push_locs ls ≡ some (push_items (loc_regs ls))
unfolding push_locs push_items push_item loc_regs
push_locs-items [] h = refl
push_locs-items (l ∷ ls) h = elim (Bool-cases l.on_stack) [
  | inl on ↦ rw (on, push_locs-items ls h.1) refl
  | inr off ↦ let (r, e, apart) = h.0 off in ground (arith, push_locs-items ls h.1)
]

pop_locs-items :
    (ls : List ArgLocation) → All IsLocated ls → pop_locs ls ≡ some (pop_items (loc_regs ls))
unfolding pop_locs pop_items pop_item loc_regs
pop_locs-items [] h = refl
pop_locs-items (l ∷ ls) h = elim (Bool-cases l.on_stack) [
  | inl on ↦ ground (arith, pop_locs-items ls h.1, append-nil (pop_items (loc_regs ls)))
  | inr off ↦ let (r, e, apart) = h.0 off in ground (arith, pop_locs-items ls h.1)
]

loc_regs-rsp : (ls : List ArgLocation) → All IsLocated ls → elem rsp (loc_regs ls) ≡ false
unfolding loc_regs
loc_regs-rsp [] h = refl
loc_regs-rsp (l ∷ ls) h = elim (Bool-cases l.on_stack) [
  | inl on ↦ ground (arith, loc_regs-rsp ls h.1)
  | inr off ↦ let (r, e, apart) = h.0 off in ground (arith, loc_regs-rsp ls h.1, reg_eq_comm rsp r)
]

loc_regs-none : (ls : List ArgLocation) → reg_arg_count ls ≡ 0 → loc_regs ls ≡ []
unfolding loc_regs reg_arg_count
loc_regs-none [] h = refl
loc_regs-none (l ∷ ls) h = ground (arith, loc_regs-none ls)

-- The registers that the code keeps: those of the locations, and r12 for an indirect call.
abbrev pub kept_regs : List ArgLocation → Bool → List Reg
kept_regs locs indirect = loc_regs locs ++ (if indirect then r12 ∷ [] else [])

push_items-append : (rs ss : List Reg) → push_items (rs ++ ss) ≡ push_items rs ++ push_items ss
unfolding push_items
push_items-append [] ss = refl
push_items-append (r ∷ rs) ss =
    ap (◌++◌ (push_item r)) (push_items-append rs ss)
    ∙ sym (append_assoc (push_item r) (push_items rs) (push_items ss))

pop_items-append : (rs ss : List Reg) → pop_items (rs ++ ss) ≡ pop_items ss ++ pop_items rs
unfolding pop_items
pop_items-append [] ss = sym (append-nil (pop_items ss))
pop_items-append (r ∷ rs) ss =
    ap (λ is. is ++ pop_item r) (pop_items-append rs ss)
    ∙ append_assoc (pop_items ss) (pop_items rs) (pop_item r)

-- The code: pushes, the call, and the pops in reverse order.
emit_scrub_regs-items :
    (pkey : ℕ) (locs : List ArgLocation) (indirect : Bool)
    → All IsLocated locs
    → 0 < pkey
    → emit_scrub_regs pkey locs indirect
      ≡ some (
          push_items (kept_regs locs indirect)
          ++ Instr.call scrub_symbol ∷ pop_items (kept_regs locs indirect))
unfolding emit_scrub_regs push_items pop_items push_item pop_item is_vector
emit_scrub_regs-items pkey locs true h k = ground (
  arith,
  push_locs-items locs h,
  pop_locs-items locs h,
  push_items-append (loc_regs locs) (r12 ∷ []),
  pop_items-append (loc_regs locs) (r12 ∷ []),
)
emit_scrub_regs-items pkey locs false h k = ground (
  arith,
  push_locs-items locs h,
  pop_locs-items locs h,
  loc_regs-none locs,
  append-nil (loc_regs locs),
  append-nil (push_items (loc_regs locs)),
)

-- What the gate relies on of a call of the scrubbing routine: it does to the registers what the
-- code of the routine does, and writes memory below the stack pointer at most.
pub record ScrubsRegisters (env : Env) : Type 0 where
  pub scrub_regs :
      (m : Machine) → (env.call (Target.symbol scrub_symbol) m).reg ≡ (scrub_registers m).reg
  pub scrub_mem :
      (m : Machine) (b : ℕ)
      → m.reg rsp ≤ b
      → (env.call (Target.symbol scrub_symbol) m).mem b ≡ m.mem b
  pub scrub_fs : (m : Machine) → (env.call (Target.symbol scrub_symbol) m).fs ≡ m.fs
  pub scrub_pkru : (m : Machine) → (env.call (Target.symbol scrub_symbol) m).pkru ≡ m.pkru
  pub scrub_trapped : (m : Machine) → (env.call (Target.symbol scrub_symbol) m).trapped ≡ m.trapped

kept_regs-rsp :
    (locs : List ArgLocation) (indirect : Bool)
    → All IsLocated locs
    → elem rsp (kept_regs locs indirect) ≡ false
unfolding reg_eq
kept_regs-rsp locs indirect h =
    elem-append-false rsp (loc_regs locs) _ (loc_regs-rsp locs h) (last indirect)
  where
    last : (b : Bool) → elem rsp (if b then r12 ∷ [] else []) ≡ false
    last true = refl
    last false = refl

-- The state `t` has the registers `ks` and the stack of `m`, and is scrubbed otherwise.
pub record IsScrubbed (ks : List Reg) (m t : Machine) (sp : ℕ) : Type 0 where
  pub sp_kept : t.reg rsp ≡ sp
  pub regs_scrubbed :
      (r : Reg)
      → reg_eq r rsp ≡ false
      → t.reg r ≡ (if elem r ks then m.reg r else if scrubbed r then 0 else m.reg r)
  pub mem_kept : (b : ℕ) → sp ≤ b → t.mem b ≡ m.mem b
  pub fs_kept : t.fs ≡ m.fs
  pub pkru_kept : t.pkru ≡ m.pkru
  pub trapped_kept : t.trapped ≡ m.trapped

run-call :
    (env : Env) (s : String) (is : List Instr) (m : Machine)
    → run env (Instr.call s ∷ is) m ≡ run env is (env.call (Target.symbol s) m)
unfolding run exec
run-call env s is m = refl

scrub_items :
    (env : Env) (ks : List Reg) (m : Machine) (sp : ℕ)
    → ScrubsRegisters env
    → elem rsp ks ≡ false
    → IsWord m
    → m.reg rsp ≡ sp
    → sp < 18446744073709551616
    → total ks ≤ sp
    → IsScrubbed ks m (run env (push_items ks ++ Instr.call scrub_symbol ∷ pop_items ks) m) sp
unfolding scrub_registers
scrub_items env ks m sp c apart w at room fits =
    let (below, saved) = push_items-effect env ks m sp w at room fits apart in
    let mid = run env (push_items ks) m in
    let called = env.call (Target.symbol scrub_symbol) mid in
    let reg_of = λ (r : Reg). ap (λ f. f r) (c.scrub_regs mid) in
    let kept : (b : ℕ) → sp - total ks ≤ b → called.mem b ≡ mid.mem b =
      λ b l. c.scrub_mem mid b (omega (arith, below.sp_moved)) in
    let held =
      Saved-congr ks mid.mem called.mem sp m.reg m.reg (λ r e. refl) apart fits
        (λ b l u. sym (kept b l)) saved in
    let (top, regs, rest) =
      pop_items-effect env ks called sp m.reg (reg_of rsp ∙ below.sp_moved) room fits apart held in
    rw (run-append, run-call)
      (record {
        sp_kept = top;
        regs_scrubbed = λ r e. ground (arith, regs r e, reg_of r, below.regs_kept r e);
        mem_kept =
            λ b l. ap (λ f. f b) rest.same_mem ∙ kept b (omega arith) ∙ below.mem_kept b (inr l);
        fs_kept = rest.same_fs ∙ c.scrub_fs mid ∙ below.fs_kept;
        pkru_kept = rest.same_pkru ∙ c.scrub_pkru mid ∙ below.pkru_kept;
        trapped_kept = rest.same_trapped ∙ c.scrub_trapped mid ∙ below.trapped_kept;
      })

-- With the routine's contract, on locations off the stack that have a register other than rsp, on
-- registers that hold values of their width and with room on the stack: the code of a compartment
-- other than 0 is written, and it keeps the registers of the
-- locations (and r12 for an indirect call) and the stack pointer, and leaves every other register
-- as the scrubbing routine leaves it: rbp as it was, all others zero. Memory at and above the
-- stack pointer, the thread-local cells and PKRU are unchanged.
pub emit_scrub_regs-IsScrubbed :
    (env : Env) (pkey : ℕ) (locs : List ArgLocation) (indirect : Bool) (m : Machine) (sp : ℕ)
    → ScrubsRegisters env
    → All IsLocated locs
    → 0 < pkey
    → IsWord m
    → m.reg rsp ≡ sp
    → sp < 18446744073709551616
    → total (kept_regs locs indirect) ≤ sp
    → Returns
        (emit_scrub_regs pkey locs indirect)
        (λ is. IsScrubbed (kept_regs locs indirect) m (run env is m) sp)
emit_scrub_regs-IsScrubbed env pkey locs indirect m sp c h k w at room fits =
    rw (emit_scrub_regs-items pkey locs indirect h k) (
      scrub_items env (kept_regs locs indirect) m sp c (kept_regs-rsp locs indirect h) w at room
        fits)
