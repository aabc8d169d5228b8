-- ===== src/ReturnLocs/Laws.antt =====
-- On which results allocate_return_locations returns, and which registers they get.
use ia2_phase.Params.Fit.{size-no_reg}
use ia2_phase.Registers.{is_vector, Reg}
use ia2_phase.Params.Progress.{IsFresh}
use ia2_phase.Params.Orders.{regs_of, int_order-class, float_order-class, regs_of-push_back}
use ia2_phase.Base.{
  ℕ, List, false, ◌∷◌, All, ◌≡◌, ◌<◌, length, take, true, Returns, ◌+◌, get_elem?, some,
  All-get_elem?, arith, get_elem?_total, take-suc, ◌≤◌, [], append-nil, subst, Returns->>=, fold_m,
  fold_m-Returns, refl, ◌∙◌, ap,
}
use ia2_phase.ReturnLocs.{
  ret_int_reg, Rets, int_ret_reg_order, float_reg_order, ret_float, ret_dispatch,
  allocate_return_locations, ret_step,
}
use ia2_phase.Abi.{Arch, ArgLocation, Kind, AbiSignature}

abbrev IsScalar : Kind → ArgLocation → Type 0
IsScalar Kind.integral l = (l.raw_size ≤ 8) × (l.indirect_on_stack ≡ false)
IsScalar Kind.float l = Unit
IsScalar Kind.memory l = ⊥

abbrev ints : Kind → ℕ
ints Kind.integral = 1
ints _ = 0

abbrev floats : Kind → ℕ
floats Kind.float = 1
floats _ = 0

-- The eightbytes of a return value fit in registers, `n` and `m` of which are used.
abbrev pub Fits : Arch → ℕ → ℕ → List ArgLocation → Type 0
Fits arch n m [] = Unit
Fits arch n m (l ∷ ls) =
    IsScalar l.kind l
    × (n + ints l.kind ≤ length (int_ret_reg_order arch))
    × (m + floats l.kind ≤ length (float_reg_order arch))
    × Fits arch (n + ints l.kind) (m + floats l.kind) ls

-- The integer eightbytes of a return value, and the vector ones.
abbrev pub int_count : List ArgLocation → ℕ
int_count [] = 0
int_count (l ∷ ls) = ints l.kind + int_count ls

abbrev pub float_count : List ArgLocation → ℕ
float_count [] = 0
float_count (l ∷ ls) = floats l.kind + float_count ls

record IsPrefix (arch : Arch) (s : Rets) : Type 0 where
  pub ints : regs_of false s.locs ≡ take s.ints_used (int_ret_reg_order arch)
  pub floats : regs_of true s.locs ≡ take s.floats_used (float_reg_order arch)

-- `n` and `m` registers of each class are given out in all.
abbrev Todo : Arch → ℕ → ℕ → Rets → List ArgLocation → Type 0
Todo arch n m s ls =
    All IsFresh ls
    × Fits arch s.ints_used s.floats_used ls
    × IsPrefix arch s
    × (s.ints_used + int_count ls ≡ n)
    × (s.floats_used + float_count ls ≡ m)

int_ret_order-class :
    (arch : Arch) (i : ℕ) (r : Reg)
    → get_elem? (int_ret_reg_order arch) i ≡ some r
    → is_vector r ≡ false
unfolding is_vector
int_ret_order-class Arch.x86 i r h =
    All-get_elem? (λ s. is_vector s ≡ false) (int_ret_reg_order Arch.x86) i r (ground arith) h
int_ret_order-class Arch.aarch64 i r h = int_order-class Arch.aarch64 i r h

ret_int_reg-Todo :
    (arch : Arch) (s : Rets) (l : ArgLocation)
    → IsFresh l
    → IsPrefix arch s
    → s.ints_used < length (int_ret_reg_order arch)
    → Returns
        (ret_int_reg arch l s)
        (λ t. (t.ints_used ≡ s.ints_used + 1) × (t.floats_used ≡ s.floats_used) × IsPrefix arch t)
unfolding ret_int_reg regs_of
ret_int_reg-Todo arch s l f p h =
    let (r, found) = get_elem?_total (int_ret_reg_order arch) s.ints_used h in
    ground (
      arith,
      int_ret_order-class arch s.ints_used r found,
      take-suc (int_ret_reg_order arch) s.ints_used r found,
      regs_of-push_back false s.locs (record l { allocated = true; reg = some r }),
      regs_of-push_back true s.locs (record l { allocated = true; reg = some r }),
      append-nil (regs_of true s.locs),
    )

ret_float-Todo :
    (arch : Arch) (s : Rets) (l : ArgLocation)
    → IsFresh l
    → IsPrefix arch s
    → s.floats_used < length (float_reg_order arch)
    → Returns
        (ret_float arch l s)
        (λ t. (t.ints_used ≡ s.ints_used) × (t.floats_used ≡ s.floats_used + 1) × IsPrefix arch t)
unfolding ret_float regs_of
ret_float-Todo arch s l f p h =
    let (r, found) = get_elem?_total (float_reg_order arch) s.floats_used h in
    ground (
      arith,
      float_order-class arch s.floats_used r found,
      take-suc (float_reg_order arch) s.floats_used r found,
      regs_of-push_back false s.locs (record l { allocated = true; reg = some r }),
      regs_of-push_back true s.locs (record l { allocated = true; reg = some r }),
      append-nil (regs_of false s.locs),
    )

ret_step-Todo :
    (k : Kind) (arch : Arch) (n m : ℕ) (s : Rets) (l : ArgLocation) (ls : List ArgLocation)
    → l.kind ≡ k
    → Todo arch n m s (l ∷ ls)
    → Returns (ret_dispatch k arch s l) (λ t. Todo arch n m t ls)
unfolding ret_dispatch
ret_step-Todo Kind.integral arch n m s l ls k ((f, fs), (c, i, j, rest), p, e, g) =
    let scalar = subst (λ j. IsScalar j l) k c in
    let room : s.ints_used < length (int_ret_reg_order arch) = ground arith in
    ground (arith, size-no_reg l f.no_reg, ret_int_reg-Todo arch s l f p room)
ret_step-Todo Kind.float arch n m s l ls k ((f, fs), (c, i, j, rest), p, e, g) =
    let room : s.floats_used < length (float_reg_order arch) = ground arith in
    ground (arith, ret_float-Todo arch s l f p room)
ret_step-Todo Kind.memory arch n m s l ls k ((f, fs), (c, i, j, rest), p, e, g) =
    absurd (subst (λ j. IsScalar j l) k c)

-- A return value whose eightbytes fit in the return registers is returned in them: the allocation
-- goes through, and it gives out, in order, as many of the first integer return registers as the
-- value has integer eightbytes, and as many of the first vector registers as it has vector ones.
pub allocate_return_locations_in_order :
    (func : AbiSignature) (arch : Arch)
    → All IsFresh func.ret
    → Fits arch 0 0 func.ret
    → Returns (allocate_return_locations func arch) (λ locs.
      (regs_of false locs ≡ take (int_count func.ret) (int_ret_reg_order arch))
      × (regs_of true locs ≡ take (float_count func.ret) (float_reg_order arch)))
unfolding allocate_return_locations regs_of
allocate_return_locations_in_order func arch fresh fits =
    Returns->>= _ (fold_m (ret_step arch) _ func.ret) _
      (fold_m-Returns (Todo arch (int_count func.ret) (float_count func.ret)) (ret_step arch)
        (λ s l ls h. ret_step-Todo l.kind arch _ _ s l ls refl h) _ func.ret
        (fresh, fits, record { ints = refl; floats = refl }, (omega arith), (omega arith)))
      (λ t (_, _, k, e, g). (
        k.ints ∙ ap (λ i. take i (int_ret_reg_order arch)) (omega (arith, e)),
        k.floats ∙ ap (λ i. take i (float_reg_order arch)) (omega (arith, g)),
      ))

-- The case for a 16-byte integer falls through to the vector case: the two integer return
-- registers are followed by a third location, the first vector register, whatever the slot.
pub int128_return-falls_through :
    (arch : Arch) (l : ArgLocation)
    → IsFresh l
    → l.kind ≡ Kind.integral
    → l.raw_size ≡ 16
    → l.indirect_on_stack ≡ false
    → Returns (allocate_return_locations (record { args = []; ret = l ∷ [] }) arch) (λ locs.
      (regs_of false locs ≡ take 2 (int_ret_reg_order arch))
      × (regs_of true locs ≡ take 1 (float_reg_order arch)))
unfolding allocate_return_locations regs_of is_vector
int128_return-falls_through Arch.x86 l f k z d = ground arith
int128_return-falls_through Arch.aarch64 l f k z d = ground arith
