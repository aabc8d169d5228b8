-- ===== src/Wrapper/Alignment.antt =====
-- The stack of the target at the call: the space that emit_asm_wrapper computes.
use ia2_phase.ReturnLocs.Located.{allocate_return_locations-IsLocated}
use ia2_phase.Params.Located.{IsLocated, allocate_param_locations-IsLocated}
use ia2_phase.ReturnLocs.{allocate_return_locations}
use ia2_phase.Params.{allocate_param_locations}
use ia2_phase.Abi.{AbiSignature, Arch}
use ia2_phase.Base.{
  ℕ, ◌+◌, if◌then◌else◌, ◌%◌, ◌≡◌, ltb, u64, arith, ◌⊎◌, Option, some, >>=-eq-some, subst,
  some-injective, refl, assert, ◌<◌, false, none, ◌≤◌, All, ◌-◌, ◌∙◌, ap,
}
use ia2_phase.Wrapper.Sizes.{
  padding_to, stack_space, return_padding, Layout, layout_of, wrapper_locations, none_indirect,
}

pub padding_to_8 : (n : ℕ) → (n + padding_to 8 n) % 8 ≡ 0
unfolding padding_to
padding_to_8 n = ground arith

pub return_space :
    (size : ℕ) → ((if ltb 0 size then 8 else 0) + size + return_padding size) % 16 ≡ 0
unfolding return_padding padding_to
return_space size = ground arith

pub return_padding_lt : (size : ℕ) → return_padding size < 16
unfolding return_padding padding_to
return_padding_lt size = ground arith

pub return_padding_zero : (size : ℕ) → ltb 0 size ≡ false → size + return_padding size ≡ 0
unfolding return_padding
return_padding_zero size h = ground arith

pub padding_to_lt : (size : ℕ) → padding_to 8 size < 8
unfolding padding_to
padding_to_lt size = ground arith

-- Within 64 bits the sizes add up.
pub stack_space-exact :
    (ret arg : ℕ)
    → ret + arg + 40 < 18446744073709551616
    → stack_space ret arg
      ≡ (if ltb 0 ret then 8 else 0) + (ret + return_padding ret) + (arg + padding_to 8 arg)
unfolding stack_space
stack_space-exact ret arg h = ground (arith, return_padding_lt ret, padding_to_lt arg)

pub to_16 :
    (n : ℕ) → n % 8 ≡ 0 → let a = u64 (n + 8) % 16 in ((a ≡ 0) ⊎ (a ≡ 8)) × ((8 + n + a) % 16 ≡ 0)
to_16 n h = (omega arith, omega arith)

pub stack_space-words : (ret arg : ℕ) → stack_space ret arg % 8 ≡ 0
unfolding stack_space
stack_space-words ret arg = omega (arith, return_space ret, padding_to_8 arg)

pub stack_space-le :
    (ret arg : ℕ)
    → ret + arg + 40 < 18446744073709551616
    → stack_space ret arg + u64 (stack_space ret arg + 8) % 16 ≤ ret + arg + 40
stack_space-le ret arg h =
    let exact = stack_space-exact ret arg h in
    let aligned = to_16 _ (stack_space-words ret arg) in
    ground (arith, exact, aligned.0, return_padding_lt ret, padding_to_lt arg)

-- A result in memory has room for itself and the word of its address.
pub stack_space-result :
    (ret arg : ℕ)
    → ret + arg + 40 < 18446744073709551616
    → 0 < ret
    → ret + return_padding ret + 8 ≤ stack_space ret arg
stack_space-result ret arg h k = ground (arith, stack_space-exact ret arg h)

-- How the sizes of a layout follow from those of its results and stack arguments.
pub record IsLaidOut (l : Layout) : Type 0 where
  pub arg_padding : l.stack_arg_padding ≡ padding_to 8 l.stack_arg_size
  pub ret_padding : l.stack_return_padding ≡ return_padding l.stack_return_size
  pub space : l.compartment_stack_space ≡ stack_space l.stack_return_size l.stack_arg_size
  pub alignment : l.stack_alignment ≡ u64 (l.compartment_stack_space + 8) % 16

pub layout_of-IsLaidOut :
    (sig : AbiSignature) (wrapper_sig : Option AbiSignature) (l : Layout)
    → layout_of sig wrapper_sig ≡ some l
    → IsLaidOut l
unfolding layout_of
layout_of-IsLaidOut sig wrapper_sig l e =
    let ((args, size), e1, k1) = >>=-eq-some (allocate_param_locations sig Arch.x86) _ e in
    let (wrapper, e2, k2) = >>=-eq-some (wrapper_locations wrapper_sig size) _ k1 in
    let (rets, e3, k3) = >>=-eq-some (allocate_return_locations sig Arch.x86) _ k2 in
    let (_, e4, k4) = >>=-eq-some (assert (none_indirect args)) _ k3 in
    subst IsLaidOut (some-injective _ _ k4)
      (record { arg_padding = refl; ret_padding = refl; space = refl; alignment = refl })

-- The layout of every wrapper leaves the target's stack aligned: with the 8 bytes by which the
-- stack pointer is off before, the space for result, its address and stack arguments and the
-- alignment gap, which is 0 or 8 bytes as emit_copy_args asserts, are a multiple of 16.
pub layout_of-aligned :
    (sig : AbiSignature) (wrapper_sig : Option AbiSignature) (l : Layout)
    → layout_of sig wrapper_sig ≡ some l
    → ((l.stack_alignment ≡ 0) ⊎ (l.stack_alignment ≡ 8))
      × ((8 + l.compartment_stack_space + l.stack_alignment) % 16 ≡ 0)
layout_of-aligned sig wrapper_sig l e =
    let h = layout_of-IsLaidOut sig wrapper_sig l e in
    let words : l.compartment_stack_space % 8 ≡ 0 =
      rw h.space (stack_space-words l.stack_return_size l.stack_arg_size) in
    rw h.alignment (to_16 l.compartment_stack_space words)

-- Without a signature of its own, the wrapper has the target's stack arguments.
pub layout_of-own_args :
    (sig : AbiSignature) (l : Layout)
    → layout_of sig none ≡ some l
    → l.wrapper_stack_arg_size ≡ l.stack_arg_size
unfolding layout_of wrapper_locations
layout_of-own_args sig l e =
    let ((args, size), e1, k1) = >>=-eq-some (allocate_param_locations sig Arch.x86) _ e in
    let (rets, e3, k3) = >>=-eq-some (allocate_return_locations sig Arch.x86) _ k1 in
    let (_, e4, k4) = >>=-eq-some (assert (none_indirect args)) _ k3 in
    subst (λ x. x.wrapper_stack_arg_size ≡ x.stack_arg_size) (some-injective _ _ k4) refl

pub layout_of-no_wrapper :
    (sig : AbiSignature) (l : Layout) → layout_of sig none ≡ some l → l.wrapper_args ≡ none
unfolding layout_of wrapper_locations
layout_of-no_wrapper sig l e =
    let ((args, size), e1, k1) = >>=-eq-some (allocate_param_locations sig Arch.x86) _ e in
    let (rets, e3, k3) = >>=-eq-some (allocate_return_locations sig Arch.x86) _ k1 in
    let (_, e4, k4) = >>=-eq-some (assert (none_indirect args)) _ k3 in
    subst (λ x. x.wrapper_args ≡ none) (some-injective _ _ k4) refl

-- Every parameter of the target has a place.
pub layout_of-IsLocated :
    (sig : AbiSignature) (wrapper_sig : Option AbiSignature) (l : Layout)
    → layout_of sig wrapper_sig ≡ some l
    → All IsLocated l.args
unfolding layout_of
layout_of-IsLocated sig wrapper_sig l e =
    let ((args, size), e1, k1) = >>=-eq-some (allocate_param_locations sig Arch.x86) _ e in
    let (wrapper, e2, k2) = >>=-eq-some (wrapper_locations wrapper_sig size) _ k1 in
    let (rets, e3, k3) = >>=-eq-some (allocate_return_locations sig Arch.x86) _ k2 in
    let (_, e4, k4) = >>=-eq-some (assert (none_indirect args)) _ k3 in
    subst (λ x. All IsLocated x.args) (some-injective _ _ k4)
      (allocate_param_locations-IsLocated sig Arch.x86 (args, size) e1)

-- Without a result in memory, the bytes that emit_asm_wrapper frees are those it reserved.
pub space_freed :
    (l : Layout) (tsp : ℕ)
    → IsLaidOut l
    → l.stack_return_size ≡ 0
    → l.stack_arg_size + 40 ≤ tsp
    → tsp < 18446744073709551616
    → tsp
        - (l.compartment_stack_space + l.stack_alignment)
        + u64 (l.stack_arg_size + l.stack_arg_padding + l.stack_alignment)
      ≡ tsp
space_freed l tsp laid direct room fits =
    let exact = stack_space-exact 0 l.stack_arg_size (omega arith) in
    let nothing : return_padding 0 ≡ 0 = omega (arith, return_padding_zero 0 refl) in
    let aligned = (to_16 _ (stack_space-words 0 l.stack_arg_size)).0 in
    let space : l.compartment_stack_space ≡ stack_space 0 l.stack_arg_size =
      laid.space ∙ ap (λ r. stack_space r l.stack_arg_size) direct in
    let small = padding_to_lt l.stack_arg_size in
    let align : l.stack_alignment ≡ u64 (stack_space 0 l.stack_arg_size + 8) % 16 =
      laid.alignment ∙ ap (λ s. u64 (s + 8) % 16) space in
    omega (arith, exact, nothing, aligned, space, small, align, laid.arg_padding)

-- Every part of the result has a place.
pub layout_of-rets :
    (sig : AbiSignature) (wrapper_sig : Option AbiSignature) (l : Layout)
    → layout_of sig wrapper_sig ≡ some l
    → All IsLocated l.rets
unfolding layout_of
layout_of-rets sig wrapper_sig l e =
    let ((args, size), e1, k1) = >>=-eq-some (allocate_param_locations sig Arch.x86) _ e in
    let (wrapper, e2, k2) = >>=-eq-some (wrapper_locations wrapper_sig size) _ k1 in
    let (rets, e3, k3) = >>=-eq-some (allocate_return_locations sig Arch.x86) _ k2 in
    let (_, e4, k4) = >>=-eq-some (assert (none_indirect args)) _ k3 in
    subst (λ x. All IsLocated x.rets) (some-injective _ _ k4)
      (allocate_return_locations-IsLocated sig rets e3)
