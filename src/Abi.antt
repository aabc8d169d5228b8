-- ===== src/Abi.antt =====
-- tools/rewriter/CAbi.h: where the rewriter places one argument or return slot. A register, a
-- `const char *` there, is a `Reg`; a method that asserts returns an `Option`.
use ia2_phase.Base.{ℕ, Bool, true, false, not, ◌&&◌, Option, none, some, List}
use ia2_phase.Base.{u32, if◌then◌else◌, ◌>>◌, assert}
use ia2_phase.Registers.{Reg, is_vector}

pub data Arch : Type 0 where
  aarch64 x86 : Arch

pub data Kind : Type 0 where
  integral float memory : Kind

-- `raw_size` is the member `_size`, which the method `size` refines.
pub record ArgLocation : Type 0 where
  pub on_stack : Bool
  pub indirect_on_stack : Bool
  pub allocated : Bool
  pub kind : Kind
  pub raw_size : ℕ
  pub align : ℕ
  pub reg : Option Reg
  pub stack_offset : ℕ

-- The private constructor.
abbrev arg_location : Kind → ℕ → ℕ → ArgLocation
arg_location k size align = record {
  on_stack = false;
  indirect_on_stack = false;
  allocated = false;
  kind = k;
  raw_size = size;
  align = align;
  reg = none;
  stack_offset = 0;
}

-- The factories; `size` and `align` are stored as `unsigned`.
unfoldable pub register : Kind → ℕ → ArgLocation
register k size = arg_location k (u32 size) (u32 size)

unfoldable pub stack : ℕ → ℕ → ArgLocation
stack size align =
    let loc = arg_location memory (u32 size) (u32 align) in record loc { on_stack = true }

unfoldable pub indirect : ℕ → ℕ → ArgLocation
indirect size align =
    let loc = arg_location integral (u32 size) (u32 align) in
    record loc { indirect_on_stack = true }

abbrev is_null : Option Reg → Bool
is_null none = true
is_null (some r) = false

unfoldable pub allocate_reg : Reg → ArgLocation → Option ArgLocation
allocate_reg r l = do
  assert (not l.allocated && is_null l.reg)
  some (record l { allocated = true; reg = some r })

unfoldable pub allocate_stack : ℕ → ArgLocation → Option ArgLocation
allocate_stack offset l = do
  assert (not l.allocated)
  some (record l { allocated = true; on_stack = true; stack_offset = offset })

unfoldable pub set_indirect_on_stack : ArgLocation → Option ArgLocation
set_indirect_on_stack l = do
  assert (not l.indirect_on_stack)
  some (record l { indirect_on_stack = true })

abbrev vector_name : Option Reg → Bool
unfolding is_vector
vector_name none = false
vector_name (some r) = is_vector r

unfoldable pub is_128bit_float : ArgLocation → Bool
unfolding vector_name
is_128bit_float l = vector_name l.reg

-- `none` is the string `<stack>`.
unfoldable pub as_str : ArgLocation → Option Reg
as_str l = if l.on_stack then none else l.reg

unfoldable pub size : ArgLocation → ℕ
unfolding is_128bit_float
size l = if is_128bit_float l then 16 else l.raw_size

pub record AbiSignature : Type 0 where
  pub args : List ArgLocation
  pub ret : List ArgLocation
