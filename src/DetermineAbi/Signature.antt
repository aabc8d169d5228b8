-- ===== src/DetermineAbi/Signature.antt =====
-- determineFnSignatureForDecl, with what emit_asm_wrapper then does with the signature.
use ia2_phase.Abi.{Arch}
use ia2_phase.DetermineAbi.{
  determine_abi_signature, determine_abi_signature_for_decl, is_supported_convention,
}
use ia2_phase.DetermineAbi.Api.{
  TypeNames, FunctionDecl, determine_api_signature_for_decl, determine_fn_signature_for_decl,
}
use ia2_phase.DetermineAbi.Slots.{IsHandled, IsHandledArg, determine_abi_signature-located}
use ia2_phase.DetermineAbi.Resolved.{
  Resolved, ResolvesTo, determine_api_signature_for_decl-Resolved,
}
use ia2_phase.Params.{allocate_param_locations}
use ia2_phase.Types.{TypeInfoInterner}
use ia2_phase.Types.Interner.{IsInterner}
use ia2_phase.Wrapper.Registry.{Param, FnSignature, Context, emit_type_registry_checks}
use ia2_phase.Wrapper.Checked.{IsKnown, TakesObject, emit_type_registry_checks-Returns}
use ia2_phase.Base.{
  List, some, none, [], ◌∷◌, ◌+◌, ◌<◌, ◌≡◌, ◌≢◌, true, arith, refl, All, length, Returns,
  Returns->>=, ap, suc,
}
use Prim.Native.String.{String}

Resolved-length :
    (s : TypeInfoInterner) (params : List (String × TypeNames)) (args : List Param)
    → Resolved s params args
    → length params ≡ length args
Resolved-length s [] [] h = refl
Resolved-length s [] (arg ∷ args) h = absurd h
Resolved-length s (p ∷ params) [] h = absurd h
Resolved-length s (p ∷ params) (arg ∷ args) (n, r, h) = ap suc (Resolved-length s params args h)

Resolved-IsKnown :
    (s : TypeInfoInterner) (params : List (String × TypeNames)) (args : List Param)
    → Resolved s params args
    → All (IsKnown s) args
Resolved-IsKnown s [] [] h = tt
Resolved-IsKnown s [] (arg ∷ args) h = absurd h
Resolved-IsKnown s (p ∷ params) [] h = absurd h
Resolved-IsKnown s (p ∷ params) (arg ∷ args) (n, (info, e, _, _), h) =
    (rw e tt, Resolved-IsKnown s params args h)

-- The parameters have locations, each TypeId leads to its type in the interner, which is well
-- formed, and the registry checks of a wrapper with that interner are written.
pub record IsReady (fn : FunctionDecl) (arch : Arch) (ctx : Context) (target : String)
    (r : TypeInfoInterner × FnSignature) : Type 0 where
  pub located : allocate_param_locations r.1.abi arch ≢ none
  pub well_formed : IsInterner r.0
  pub args : Resolved r.0 fn.parameters r.1.api.args
  pub ret : ResolvesTo r.0 fn.return_type r.1.api.ret.type
  pub checked :
      Returns (emit_type_registry_checks (record ctx { types = r.0 }) r.1 (some target)) (λ _. Unit)

-- For a declaration with a supported calling convention whose result and arguments are indirect (of
-- an alignment other than 0), ignored, or direct with scalars of at most 8 or of 16 bytes (a struct
-- flattenable), and a well-formed interner with room for its types, the signature is returned: its parameters have
-- locations on each architecture; the names of its arguments and, through their TypeIds, the types
-- of its arguments and result are the declared ones; the interner stays well formed; and the
-- registry checks of a wrapper for any target are written, if a target that is a constructor or
-- destructor has a parameter.
pub determine_fn_signature_for_decl-IsReady :
    (fn : FunctionDecl) (arch : Arch) (ctx : Context) (target : String)
    → is_supported_convention fn.convention ≡ true
    → IsHandled fn.info.return_info.kind fn.info.return_type fn.info.return_info
    → All IsHandledArg fn.info.arguments
    → IsInterner ctx.types
    → length ctx.types.infos + length fn.parameters + 1 < 4294967296
    → TakesObject ctx target (length fn.parameters)
    → Returns (determine_fn_signature_for_decl fn ctx.types) (IsReady fn arch ctx target)
unfolding determine_fn_signature_for_decl determine_abi_signature_for_decl
determine_fn_signature_for_decl-IsReady fn arch ctx target c ret args inv room takes =
    let api = determine_api_signature_for_decl fn.parameters fn.return_type ctx.types in
    let (inv', names, result) =
      determine_api_signature_for_decl-Resolved fn.parameters fn.return_type ctx.types inv room in
    rw c (
      Returns->>= _ (determine_abi_signature fn.info) _
        (determine_abi_signature-located fn.info arch ret args)
        (λ abi (j, k, located).
          let sig : FnSignature = record { abi = abi; api = api.1; variadic = fn.is_variadic } in
          record {
            located = located;
            well_formed = inv';
            args = names;
            ret = result;
            checked =
                emit_type_registry_checks-Returns (record ctx { types = api.0 }) sig target
                  (Resolved-IsKnown api.0 fn.parameters api.1.args names)
                  (record {
                    constructs = λ e.
                        omega (arith, takes.constructs e, Resolved-length api.0 _ api.1.args names);
                    destructs = λ e.
                        omega (arith, takes.destructs e, Resolved-length api.0 _ api.1.args names);
                  });
          }))
