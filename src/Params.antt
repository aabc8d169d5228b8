-- ===== src/Params.antt =====
-- tools/rewriter/GenCallAsm.cpp, allocate_param_locations: the register or stack slot of each
-- parameter. The loop's variables are a record; `none` is a failed assertion or a bad index.
use ia2_phase.Base.{ℕ, ◌+◌, ◌-◌, ◌%◌, Bool, true, false, not, ◌&&◌, ◌||◌, Option, some}
use ia2_phase.Base.{List, [], ◌∷◌, ◌++◌, length, get_elem?, u64, ltb, leb, ◌==◌, if◌then◌else◌}
use ia2_phase.Base.{◌>>=◌, ◌>>◌, assert, fold_m}
use ia2_phase.Registers.{
  Reg, xreg, x86_int_param_reg_order, arm_int_param_reg_order, x86_float_reg_order,
  arm_float_reg_order,
}
use ia2_phase.Abi.{Arch, ArgLocation, AbiSignature, Kind}
use ia2_phase.Abi
pub mod Progress
pub mod Orders
pub mod Assignment
pub mod Layout
pub mod Fit
pub mod Placement
pub mod Spills
pub mod Located

pub record Slots : Type 0 where
  pub args : List ArgLocation
  pub ints_used : ℕ
  pub floats_used : ℕ
  pub stack_offset : ℕ

abbrev pub int_param_reg_order : Arch → List Reg
int_param_reg_order Arch.x86 = x86_int_param_reg_order
int_param_reg_order Arch.aarch64 = arm_int_param_reg_order

abbrev pub float_reg_order : Arch → List Reg
float_reg_order Arch.x86 = x86_float_reg_order
float_reg_order Arch.aarch64 = arm_float_reg_order

abbrev pub is_x86 : Arch → Bool
is_x86 Arch.x86 = true
is_x86 Arch.aarch64 = false

abbrev pub push_back {ℓ} : {A : Type ℓ} → List A → A → List A
push_back xs a = xs ++ a ∷ []

-- `arg.allocate_reg(int_param_reg_order[ints_used]); args.push_back(arg); ints_used += 1;`
take_int_reg : Arch → ArgLocation → Slots → Option Slots
unfolding Abi.allocate_reg
take_int_reg arch arg s = do
  r ← get_elem? (int_param_reg_order arch) s.ints_used
  a ← Abi.allocate_reg r arg
  some (record s { args = push_back s.args a; ints_used = s.ints_used + 1 })

take_float_reg : Arch → ArgLocation → Slots → Option Slots
unfolding Abi.allocate_reg
take_float_reg arch arg s = do
  r ← get_elem? (float_reg_order arch) s.floats_used
  a ← Abi.allocate_reg r arg
  some (record s { args = push_back s.args a; floats_used = s.floats_used + 1 })

-- `arg.allocate_stack(stack_offset); args.push_back(arg); stack_offset += by;`
pub take_stack : ℕ → ArgLocation → Slots → Option Slots
unfolding Abi.allocate_stack
take_stack by arg s = do
  a ← Abi.allocate_stack s.stack_offset arg
  some (record s { args = push_back s.args a; stack_offset = u64 (s.stack_offset + by) })

-- Rounds an offset up to a multiple of `align`, which is not 0.
pub round_up : ℕ → ℕ → ℕ
round_up offset align =
    if offset % align == 0 then offset else u64 (offset + (align - offset % align))

unfoldable pub half_arg : ArgLocation
half_arg = Abi.register Kind.integral 8

-- A 16-byte integer in two registers.
take_two_regs : Arch → ArgLocation → Slots → Option Slots
unfolding take_int_reg half_arg Abi.register Abi.size
take_two_regs arch arg s = do
  assert (Abi.size arg == 16)
  assert (not arg.indirect_on_stack)
  s' ← take_int_reg arch half_arg s
  take_int_reg arch half_arg s'

spill_integral : Arch → ArgLocation → Slots → Option Slots
unfolding take_stack
spill_integral arch arg s = do
  assert (not (is_x86 arch) || not arg.indirect_on_stack)
  take_stack 8 arg s

alloc_integral : Arch → Slots → ArgLocation → Option Slots
unfolding take_two_regs spill_integral
alloc_integral arch s arg =
    let regs = length (int_param_reg_order arch) in
    if (leb (Abi.size arg) 8 || arg.indirect_on_stack) && ltb s.ints_used regs
    then take_int_reg arch arg s
    else if ltb (s.ints_used + 1) regs
    then take_two_regs arch arg s
    else spill_integral arch arg s

alloc_float : Arch → Slots → ArgLocation → Option Slots
unfolding take_float_reg take_stack Abi.size
alloc_float arch s arg =
    if ltb s.floats_used (length (float_reg_order arch))
    then take_float_reg arch arg s
    else take_stack (Abi.size arg) arg s

-- The remainder by an alignment of 0 has no value.
alloc_memory : Slots → ArgLocation → Option Slots
unfolding take_stack round_up Abi.size
alloc_memory s arg = do
  assert arg.on_stack
  assert (not (arg.align == 0))
  let s' = record s { stack_offset = round_up s.stack_offset arg.align }
  t ← take_stack (Abi.size arg) arg s'
  some (record t { stack_offset = round_up t.stack_offset 8 })

-- "indirect" arguments are just passed on the stack in x86.
lower_indirect : Arch → ArgLocation → ArgLocation
unfolding Abi.stack Abi.size
lower_indirect arch arg =
    if is_x86 arch && arg.indirect_on_stack then Abi.stack (Abi.size arg) arg.align else arg

pub dispatch : Kind → Arch → Slots → ArgLocation → Option Slots
unfolding alloc_integral alloc_float alloc_memory
dispatch Kind.integral arch s arg = alloc_integral arch s arg
dispatch Kind.float arch s arg = alloc_float arch s arg
dispatch Kind.memory arch s arg = alloc_memory s arg

pub alloc_step : Arch → Slots → ArgLocation → Option Slots
unfolding lower_indirect dispatch
alloc_step arch s arg = let arg' = lower_indirect arch arg in dispatch arg'.kind arch s arg'

abbrev in_memory : ArgLocation → Bool
in_memory x = x.on_stack || x.indirect_on_stack

unfoldable pub any_in_memory : List ArgLocation → Bool
any_in_memory [] = false
any_in_memory (l ∷ ls) = in_memory l || any_in_memory ls

no_slots : Slots
no_slots = record { args = []; ints_used = 0; floats_used = 0; stack_offset = 0 }

-- The hidden parameter that holds the address of a return value in memory.
return_pointer : Arch → List ArgLocation → Option Slots
unfolding take_int_reg half_arg Abi.register no_slots any_in_memory Abi.allocate_reg
return_pointer Arch.x86 ret =
    if any_in_memory ret then take_int_reg Arch.x86 half_arg no_slots else some no_slots
return_pointer Arch.aarch64 ret =
    if any_in_memory ret
    then (do
      a ← Abi.allocate_reg (xreg 8) half_arg
      some (record no_slots { args = push_back no_slots.args a }))
    else some no_slots

-- The locations, and the size of the stack arguments.
unfoldable pub allocate_param_locations : AbiSignature → Arch → Option (List ArgLocation × ℕ)
unfolding alloc_step return_pointer
allocate_param_locations func arch = do
  s ← return_pointer arch func.ret
  t ← fold_m (alloc_step arch) s func.args
  some (t.args, t.stack_offset)
