-- ===== src/ReturnLocs.antt =====
-- tools/rewriter/GenCallAsm.cpp, allocate_return_locations: the registers of the return value.
use ia2_phase.Base.{
  fold_m, List, Option, ℕ, if◌then◌else◌, leb, ◌||◌, ◌>>=◌, ◌>>◌, assert, [], get_elem?, ltb, some,
  ◌==◌, ◌+◌, length, not,
}
pub mod Laws
pub mod Located
use ia2_phase.Abi
use ia2_phase.Abi.{Arch, ArgLocation, AbiSignature, Kind}
use ia2_phase.Registers.{Reg, x86_int_ret_reg_order, arm_int_ret_reg_order}
use ia2_phase.Params.{float_reg_order, is_x86, push_back, half_arg}

-- The variables of the loop.
pub record Rets : Type 0 where
  pub locs : List ArgLocation
  pub ints_used : ℕ
  pub floats_used : ℕ

abbrev pub int_ret_reg_order : Arch → List Reg
int_ret_reg_order Arch.x86 = x86_int_ret_reg_order
int_ret_reg_order Arch.aarch64 = arm_int_ret_reg_order

pub ret_int_reg : Arch → ArgLocation → Rets → Option Rets
unfolding Abi.allocate_reg
ret_int_reg arch arg s = do
  r ← get_elem? (int_ret_reg_order arch) s.ints_used
  a ← Abi.allocate_reg r arg
  some (record s { locs = push_back s.locs a; ints_used = s.ints_used + 1 })

-- The case `Kind::Float`.
pub ret_float : Arch → ArgLocation → Rets → Option Rets
unfolding Abi.allocate_reg
ret_float arch arg s = do
  r ← get_elem? (float_reg_order arch) s.floats_used
  a ← Abi.allocate_reg r arg
  some (record s { locs = push_back s.locs a; floats_used = s.floats_used + 1 })

-- An integer of one eightbyte, or the address of a result in memory, which has no return
-- register on AArch64.
pub ret_eightbyte : Arch → ArgLocation → Rets → Option Rets
unfolding ret_int_reg
ret_eightbyte arch arg s = do
  assert (ltb s.ints_used (length (int_ret_reg_order arch)))
  (if not arg.indirect_on_stack || is_x86 arch
      then ret_int_reg arch arg s
      else some (record s { locs = push_back s.locs arg }))

-- A 16-byte integer. The case has no `break`: it goes on into the case `Kind::Float`.
pub ret_int128 : Arch → ArgLocation → Rets → Option Rets
unfolding ret_int_reg ret_float half_arg Abi.register Abi.size
ret_int128 arch arg s = do
  assert (Abi.size arg == 16)
  assert (not arg.indirect_on_stack)
  assert (ltb (s.ints_used + 1) (length (int_ret_reg_order arch)))
  s' ← ret_int_reg arch half_arg s
  s'' ← ret_int_reg arch half_arg s'
  ret_float arch arg s''

pub ret_memory : Arch → ArgLocation → Rets → Option Rets
unfolding Abi.allocate_reg Abi.set_indirect_on_stack
ret_memory arch arg s = do
  assert (is_x86 arch)
  assert (s.ints_used == 0)
  r ← get_elem? (int_ret_reg_order arch) s.ints_used
  a ← Abi.allocate_reg r arg
  b ← Abi.set_indirect_on_stack a
  some (record s { locs = push_back s.locs b })

pub ret_dispatch : Kind → Arch → Rets → ArgLocation → Option Rets
unfolding ret_eightbyte ret_int128 ret_float ret_memory Abi.size
ret_dispatch Kind.integral arch s arg =
    if leb (Abi.size arg) 8 || arg.indirect_on_stack
    then ret_eightbyte arch arg s
    else ret_int128 arch arg s
ret_dispatch Kind.float arch s arg = ret_float arch arg s
ret_dispatch Kind.memory arch s arg = ret_memory arch arg s

unfoldable pub ret_step : Arch → Rets → ArgLocation → Option Rets
unfolding ret_dispatch
ret_step arch s arg = ret_dispatch arg.kind arch s arg

unfoldable pub allocate_return_locations : AbiSignature → Arch → Option (List ArgLocation)
unfolding ret_step fold_m
allocate_return_locations func arch = do
  t ← fold_m (ret_step arch) (record { locs = []; ints_used = 0; floats_used = 0 }) func.ret
  some t.locs
