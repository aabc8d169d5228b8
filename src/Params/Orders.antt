-- ===== src/Params/Orders.antt =====
-- The registers that allocate_param_locations has given out, by class.
use ia2_phase.Base.{
  ℕ, ◌≤◌, ◌≡◌, refl, List, [], ◌∷◌, ◌++◌, Bool, true, false, arith, All-get_elem?, if◌then◌else◌,
  same, append-nil,
}
use ia2_phase.Base.{some, none, length, take, get_elem?}
use ia2_phase.Registers.{Reg, is_vector}
use ia2_phase.Abi.{Arch, ArgLocation}
use ia2_phase.Params.{Slots, push_back, int_param_reg_order, float_reg_order}

-- The registers among the locations that are of the vector class, or that are not.
unfoldable pub regs_of : Bool → List ArgLocation → List Reg
regs_of v [] = []
regs_of v (l ∷ ls) =
    let rest = regs_of v ls in
    elim l.reg [ none ↦ rest | some r ↦ if same v (is_vector r) then r ∷ rest else rest ]

pub regs_of-push_back :
    (v : Bool) (ls : List ArgLocation) (l : ArgLocation)
    → regs_of v (push_back ls l) ≡ regs_of v ls ++ regs_of v (l ∷ [])
unfolding regs_of
regs_of-push_back v [] l = refl
regs_of-push_back v (x ∷ ls) l = ground (arith, regs_of-push_back v ls l)

-- Every entry of the two orders is of its class.
pub int_order-class :
    (arch : Arch) (i : ℕ) (r : Reg)
    → get_elem? (int_param_reg_order arch) i ≡ some r
    → is_vector r ≡ false
unfolding is_vector
int_order-class Arch.x86 i r h =
    All-get_elem? (λ s. is_vector s ≡ false) (int_param_reg_order Arch.x86) i r (ground arith) h
int_order-class Arch.aarch64 i r h =
    All-get_elem? (λ s. is_vector s ≡ false) (int_param_reg_order Arch.aarch64) i r (ground arith) h

pub float_order-class :
    (arch : Arch) (i : ℕ) (r : Reg)
    → get_elem? (float_reg_order arch) i ≡ some r
    → is_vector r ≡ true
unfolding is_vector
float_order-class Arch.x86 i r h =
    All-get_elem? (λ s. is_vector s ≡ true) (float_reg_order Arch.x86) i r (ground arith) h
float_order-class Arch.aarch64 i r h =
    All-get_elem? (λ s. is_vector s ≡ true) (float_reg_order Arch.aarch64) i r (ground arith) h

-- The registers in use are the first of each order, behind the registers `pre`.
pub record IsPrefixed (arch : Arch) (pre : List Reg) (s : Slots) : Type 0 where
  pub ints : regs_of false s.args ≡ pre ++ take s.ints_used (int_param_reg_order arch)
  pub floats : regs_of true s.args ≡ take s.floats_used (float_reg_order arch)
  pub ints_bound : s.ints_used ≤ length (int_param_reg_order arch)
  pub floats_bound : s.floats_used ≤ length (float_reg_order arch)

-- A location with no register leaves the two lists alone.
pub regs_of-none :
    (v : Bool) (ls : List ArgLocation) (l : ArgLocation)
    → l.reg ≡ none
    → regs_of v (push_back ls l) ≡ regs_of v ls
unfolding regs_of
regs_of-none v ls l h = rw regs_of-push_back (rw (h, regs_of) (append-nil (regs_of v ls)))
