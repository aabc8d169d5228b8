-- ===== src/DetermineAbi/Resolved.antt =====
-- The TypeIds of a signature lead to the types of its parameters, and the registry checks of a
-- wrapper find them.
use ia2_phase.DetermineAbi.Api.{TypeNames, intern, intern_params, determine_api_signature_for_decl}
use ia2_phase.Types.{TypeInfo, TypeInfoInterner, get}
use ia2_phase.Types.Interner.{
  IsInterner, intern_from_strings-IsInterner, get-intern_from_strings, length-intern_from_strings,
}
use ia2_phase.Wrapper.Registry.{Param}
use ia2_phase.Base.{ℕ, List, some, [], ◌∷◌, ◌+◌, ◌<◌, ◌≤◌, ◌≡◌, arith, refl, length}
use Prim.Native.String.{String}

abbrev pub ResolvesTo : TypeInfoInterner → TypeNames → ℕ → Type 0
ResolvesTo s type id =
    (info : TypeInfo) × (get s id ≡ some info)
    × (info.canonical_name ≡ type.canonical_name)
    × (info.id ≡ id)

-- Each argument has the name and the type of its parameter.
abbrev pub Resolved : TypeInfoInterner → List (String × TypeNames) → List Param → Type 0
Resolved s [] [] = Unit
Resolved s [] (arg ∷ args) = ⊥
Resolved s (p ∷ params) [] = ⊥
Resolved s (p ∷ params) (arg ∷ args) =
    (arg.name ≡ p.0) × ResolvesTo s p.1 arg.type × Resolved s params args

abbrev Grows : TypeInfoInterner → TypeInfoInterner → Type 0
Grows s s' = (i : ℕ) (t : TypeInfo) → get s i ≡ some t → get s' i ≡ some t

ResolvesTo-Grows :
    (s s' : TypeInfoInterner) (type : TypeNames) (id : ℕ)
    → Grows s s'
    → ResolvesTo s type id
    → ResolvesTo s' type id
ResolvesTo-Grows s s' type id g (info, e, n, k) = (info, g id info e, n, k)

Resolved-Grows :
    (s s' : TypeInfoInterner) (params : List (String × TypeNames)) (args : List Param)
    → Grows s s'
    → Resolved s params args
    → Resolved s' params args
Resolved-Grows s s' [] [] g h = tt
Resolved-Grows s s' [] (arg ∷ args) g h = h
Resolved-Grows s s' (p ∷ params) [] g h = h
Resolved-Grows s s' (p ∷ params) (arg ∷ args) g (n, r, h) =
    (n, ResolvesTo-Grows s s' p.1 arg.type g r, Resolved-Grows s s' params args g h)

-- The interner after it was used at most `n` times.
pub record Interned (s : TypeInfoInterner) (n : ℕ) (s' : TypeInfoInterner) : Type 0 where
  pub well_formed : IsInterner s'
  pub bounded : length s'.infos ≤ length s.infos + n
  pub grows : Grows s s'

intern-Interned :
    (type : TypeNames) (s : TypeInfoInterner)
    → IsInterner s
    → length s.infos + 1 < 4294967296
    → let r = intern type s in Interned s 1 r.0 × ResolvesTo r.0 type r.1
unfolding intern
intern-Interned type s h room =
    let (inv, found, res) = intern_from_strings-IsInterner type.canonical_name type.name s h room in
    (
      record {
        well_formed = inv;
        bounded = length-intern_from_strings type.canonical_name type.name s;
        grows = λ i t e. get-intern_from_strings type.canonical_name type.name s i t e;
      },
      res,
    )

intern_params-Interned :
    (params : List (String × TypeNames)) (s : TypeInfoInterner)
    → IsInterner s
    → length s.infos + length params < 4294967296
    → let r = intern_params params s in Interned s (length params) r.0 × Resolved r.0 params r.1
unfolding intern_params
intern_params-Interned [] s h room =
    (record { well_formed = h; bounded = omega arith; grows = λ i t e. e }, tt)
intern_params-Interned ((name, type) ∷ params) s h room =
    let (one, res) = intern-Interned type s h (omega arith) in
    let r = intern type s in
    let (more, rest) =
      intern_params-Interned params r.0 one.well_formed (omega (arith, one.bounded)) in
    (
      record {
        well_formed = more.well_formed;
        bounded = omega (arith, one.bounded, more.bounded);
        grows = λ i t e. more.grows i t (one.grows i t e);
      },
      (refl, ResolvesTo-Grows r.0 _ type r.1 more.grows res, rest),
    )

pub determine_api_signature_for_decl-Resolved :
    (params : List (String × TypeNames)) (ret : TypeNames) (s : TypeInfoInterner)
    → IsInterner s
    → length s.infos + length params + 1 < 4294967296
    → let r = determine_api_signature_for_decl params ret s in
      IsInterner r.0 × Resolved r.0 params r.1.args × ResolvesTo r.0 ret r.1.ret.type
unfolding determine_api_signature_for_decl
determine_api_signature_for_decl-Resolved params ret s h room =
    let (some_args, res) = intern_params-Interned params s h (omega arith) in
    let r = intern_params params s in
    let (last, ret_res) =
      intern-Interned ret r.0 some_args.well_formed (omega (arith, some_args.bounded)) in
    (last.well_formed, Resolved-Grows r.0 _ params r.1 last.grows res, ret_res)
