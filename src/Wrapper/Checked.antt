-- ===== src/Wrapper/Checked.antt =====
-- emit_type_registry_checks goes through on every signature whose TypeIds lead to types.
use ia2_phase.Wrapper.Registry.{
  Param, FnSignature, Context, checked_indices, registry_checks, check_calls, emit_checks,
  emit_type_registry_checks,
}
use ia2_phase.Types.{TypeInfoInterner, get, find, is_set, has_structors}
use ia2_phase.Registers.{x86_int_param_reg_order}
use ia2_phase.Base.{
  ℕ, List, some, [], ◌∷◌, ◌+◌, ◌<◌, ◌≤◌, ◌≡◌, true, arith, All, length, Returns, Returns->>=,
  get_elem?_total, Bool-cases, inl, inr, All-get_elem?, leb, not, ◌>>=◌,
}
use Prim.Native.String.{String}

abbrev pub IsKnown : TypeInfoInterner → Param → Type 0
IsKnown types arg = Returns (get types arg.type) (λ _. Unit)

all_below : {n m : ℕ} → n ≤ m → (js : List ℕ) → All (λ j. j < n) js → All (λ j. j < m) js
all_below h [] k = tt
all_below h (j ∷ js) k = (omega arith, all_below h js k.1)

checked_indices-bounded :
    (types : TypeInfoInterner) (i : ℕ) (args : List Param)
    → All (IsKnown types) args
    → Returns (checked_indices types i args) (All (λ j. j < i + length args))
unfolding checked_indices
checked_indices-bounded types i [] h = tt
checked_indices-bounded types i (arg ∷ args) h = Returns->>= _ (get types arg.type) _ h.0 (λ type _.
    Returns->>= _ (checked_indices types (i + 1) args) _
      (checked_indices-bounded types (i + 1) args h.1)
      (λ rest k.
        let here : All (λ j. j < i + length (arg ∷ args)) rest = all_below (omega arith) rest k in
        elim (Bool-cases (not (has_structors type))) [
          | inl e ↦ rw e here
          | inr e ↦ rw e (elim (Bool-cases (leb (length x86_int_param_reg_order) i)) [
            | inl f ↦ rw f here
            | inr f ↦ rw f (omega arith, here)
          ])
        ]))
  where
    all_below : {n m : ℕ} → n ≤ m → (js : List ℕ) → All (λ j. j < n) js → All (λ j. j < m) js
    all_below h [] k = tt
    all_below h (j ∷ js) k = (omega arith, all_below h js k.1)

check_calls-Returns :
    (ctx : Context) (sig : FnSignature) (fn : String) (is : List ℕ)
    → All (IsKnown ctx.types) sig.api.args
    → All (λ j. j < length sig.api.args) is
    → Returns (check_calls ctx sig fn is) (λ _. Unit)
unfolding check_calls
check_calls-Returns ctx sig fn [] h k = tt
check_calls-Returns ctx sig fn (i ∷ is) h k =
    let (arg, e) = get_elem?_total sig.api.args i k.0 in
    rw e (
      Returns->>= _ (get ctx.types arg.type) _
        (All-get_elem? (IsKnown ctx.types) sig.api.args i arg h e)
        (λ type _.
          Returns->>= _ (check_calls ctx sig fn is) _ (check_calls-Returns ctx sig fn is h k.1)
            (λ rest _. tt)))

emit_checks-Returns :
    (ctx : Context) (sig : FnSignature) (fn : String) (is : List ℕ)
    → All (IsKnown ctx.types) sig.api.args
    → All (λ j. j < length sig.api.args) is
    → Returns (emit_checks ctx sig (fn, is)) (λ _. Unit)
unfolding emit_checks
emit_checks-Returns ctx sig fn [] h k = tt
emit_checks-Returns ctx sig fn (i ∷ is) h k =
    Returns->>= _ (check_calls ctx sig fn (i ∷ is)) _ (check_calls-Returns ctx sig fn (i ∷ is) h k)
      (λ calls _. tt)

-- A constructor or destructor takes the object.
pub record TakesObject (ctx : Context) (target : String) (count : ℕ) : Type 0 where
  pub constructs : is_set (find target ctx.constructors) ≡ true → 0 < count
  pub destructs : is_set (find target ctx.destructors) ≡ true → 0 < count

pub emit_type_registry_checks-Returns :
    (ctx : Context) (sig : FnSignature) (target : String)
    → All (IsKnown ctx.types) sig.api.args
    → TakesObject ctx target (length sig.api.args)
    → Returns (emit_type_registry_checks ctx sig (some target)) (λ _. Unit)
unfolding emit_type_registry_checks registry_checks
emit_type_registry_checks-Returns ctx sig target h o =
    elim (Bool-cases (is_set (find target ctx.constructors))) [
      | inl e ↦ rw e (emit_checks-Returns ctx sig _ (0 ∷ []) h (o.constructs e, tt))
      | inr e ↦ rw e (elim (Bool-cases (is_set (find target ctx.destructors))) [
        | inl f ↦ rw f (emit_checks-Returns ctx sig _ (0 ∷ []) h (o.destructs f, tt))
        | inr f ↦ rw f (
            Returns->>= _
              (do
                indices ← checked_indices ctx.types 0 sig.api.args
                some ("ia2_type_registry_check", indices))
              _
              (Returns->>= (λ (c : String × List ℕ). All (λ j. j < length sig.api.args) c.1)
                (checked_indices ctx.types 0 sig.api.args) _
                (checked_indices-bounded ctx.types 0 sig.api.args h)
                (λ indices k. all_below (omega arith) indices k))
              (λ checks k. emit_checks-Returns ctx sig checks.0 checks.1 h k))
      ])
    ]
