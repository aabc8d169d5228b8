-- ===== src/Wrapper/Sizes.antt =====
-- tools/rewriter/GenCallAsm.cpp: the sizes that emit_asm_wrapper computes for x86-64 before it
-- writes any code.
use ia2_phase.Base.{
  ℕ, List, Option, ◌>>=◌, ◌∷◌, Bool, if◌then◌else◌, ◌%◌, none, ◌||◌, true, ltb, ◌==◌, some, u64,
  not, ◌+◌, ◌&&◌, ◌-◌, ◌>>◌, assert, [],
}
use ia2_phase.Abi
use ia2_phase.Abi.{Arch, ArgLocation, AbiSignature}
use ia2_phase.Params.{allocate_param_locations}
use ia2_phase.ReturnLocs.{allocate_return_locations}

pub record Layout : Type 0 where
  pub args : List ArgLocation
  pub rets : List ArgLocation
  pub wrapper_args : Option (List ArgLocation)
  pub stack_arg_size : ℕ
  pub stack_arg_padding : ℕ
  pub wrapper_stack_arg_size : ℕ
  pub stack_return_size : ℕ
  pub stack_return_padding : ℕ
  pub compartment_stack_space : ℕ
  pub stack_alignment : ℕ

-- The bytes up to the next multiple of `align`.
unfoldable pub padding_to : ℕ → ℕ → ℕ
padding_to align n = if n % align == 0 then 0 else align - n % align

-- No argument is indirect on x86-64.
unfoldable pub none_indirect : List ArgLocation → Bool
none_indirect [] = true
none_indirect (l ∷ ls) = not l.indirect_on_stack && none_indirect ls

unfoldable pub returned_in_memory : List ArgLocation → ℕ
unfolding Abi.size
returned_in_memory [] = 0
returned_in_memory (l ∷ ls) =
    let rest = returned_in_memory ls in
    if l.on_stack || l.indirect_on_stack then u64 (Abi.size l + rest) else rest

-- The space for a result in memory, its padding to 16 bytes with the caller's pointer.
unfoldable pub return_padding : ℕ → ℕ
unfolding padding_to
return_padding size = if ltb 0 size then padding_to 16 (u64 (8 + size)) else 0

unfoldable pub stack_space : ℕ → ℕ → ℕ
unfolding return_padding padding_to
stack_space stack_return_size stack_arg_size =
    let start = if ltb 0 stack_return_size then 8 else 0 in
    u64 (
      start
      + stack_return_size
      + return_padding stack_return_size
      + stack_arg_size
      + padding_to 8 stack_arg_size)

-- The locations of the wrapper's own parameters, at an indirect call site.
unfoldable pub wrapper_locations : Option AbiSignature → ℕ → Option (Option (List ArgLocation) × ℕ)
unfolding allocate_param_locations
wrapper_locations none stack_arg_size = some (none, stack_arg_size)
wrapper_locations (some w) stack_arg_size = do
  (ws, size) ← allocate_param_locations w Arch.x86
  some (some ws, size)

unfoldable pub layout_of : AbiSignature → Option AbiSignature → Option Layout
unfolding wrapper_locations none_indirect returned_in_memory stack_space allocate_param_locations
    allocate_return_locations
layout_of sig wrapper_sig = do
  (args, stack_arg_size) ← allocate_param_locations sig Arch.x86
  wrapper ← wrapper_locations wrapper_sig stack_arg_size
  rets ← allocate_return_locations sig Arch.x86
  assert (none_indirect args)
  let stack_return_size = returned_in_memory rets
  let space = stack_space stack_return_size stack_arg_size
  some (record {
    args = args;
    rets = rets;
    wrapper_args = wrapper.0;
    stack_arg_size = stack_arg_size;
    stack_arg_padding = padding_to 8 stack_arg_size;
    wrapper_stack_arg_size = wrapper.1;
    stack_return_size = stack_return_size;
    stack_return_padding = return_padding stack_return_size;
    compartment_stack_space = space;
    stack_alignment = u64 (space + 8) % 16;
  })
