-- ===== src/Registers.antt =====
-- The registers that tools/rewriter/GenCallAsm.cpp names by strings, by class and hardware number.
use ia2_phase.Base.{ℕ, Bool, true, false, ◌≡◌, arith, ◌==◌, ◌↔◌, refl, ◌||◌, ◌++◌}
use ia2_phase.Base.{List, [], ◌∷◌}

-- x86-64 general purpose and vector registers, AArch64 x and q registers.
pub data Reg : Type 0 where
  gpr xmm xreg qreg : ℕ → Reg

abbrev pub rax : Reg
rax = gpr 0

abbrev pub rcx : Reg
rcx = gpr 1

abbrev pub rdx : Reg
rdx = gpr 2

abbrev pub rbx : Reg
rbx = gpr 3

abbrev pub rsp : Reg
rsp = gpr 4

abbrev pub rbp : Reg
rbp = gpr 5

abbrev pub rsi : Reg
rsi = gpr 6

abbrev pub rdi : Reg
rdi = gpr 7

abbrev pub r8 : Reg
r8 = gpr 8

abbrev pub r9 : Reg
r9 = gpr 9

abbrev pub r10 : Reg
r10 = gpr 10

abbrev pub r11 : Reg
r11 = gpr 11

abbrev pub r12 : Reg
r12 = gpr 12

abbrev pub r13 : Reg
r13 = gpr 13

abbrev pub r14 : Reg
r14 = gpr 14

abbrev pub r15 : Reg
r15 = gpr 15

abbrev pub x86_int_param_reg_order : List Reg
x86_int_param_reg_order = rdi ∷ rsi ∷ rdx ∷ rcx ∷ r8 ∷ r9 ∷ []

abbrev pub arm_int_param_reg_order : List Reg
arm_int_param_reg_order = xreg 0 ∷ xreg 1 ∷ xreg 2 ∷ xreg 3 ∷ xreg 4 ∷ xreg 5 ∷ xreg 6 ∷ xreg 7 ∷ []

abbrev pub x86_float_reg_order : List Reg
x86_float_reg_order = xmm 0 ∷ xmm 1 ∷ xmm 2 ∷ xmm 3 ∷ xmm 4 ∷ xmm 5 ∷ xmm 6 ∷ xmm 7 ∷ []

abbrev pub arm_float_reg_order : List Reg
arm_float_reg_order = qreg 0 ∷ qreg 1 ∷ qreg 2 ∷ qreg 3 ∷ qreg 4 ∷ qreg 5 ∷ qreg 6 ∷ qreg 7 ∷ []

abbrev pub x86_int_ret_reg_order : List Reg
x86_int_ret_reg_order = rax ∷ rdx ∷ []

abbrev pub arm_int_ret_reg_order : List Reg
arm_int_ret_reg_order = arm_int_param_reg_order

abbrev pub x86_preserved_registers : List Reg
x86_preserved_registers = rbx ∷ r12 ∷ r13 ∷ r14 ∷ r15 ∷ []

abbrev pub aarch64_preserved_registers : List Reg
aarch64_preserved_registers =
    xreg 19
    ∷ xreg 20
    ∷ xreg 21
    ∷ xreg 22
    ∷ xreg 23
    ∷ xreg 24
    ∷ xreg 25
    ∷ xreg 26
    ∷ xreg 27
    ∷ xreg 28
    ∷ []

-- The name starts with `xmm` or `q`.
unfoldable pub is_vector : Reg → Bool
is_vector (gpr n) = false
is_vector (xmm n) = true
is_vector (xreg n) = false
is_vector (qreg n) = true

-- Two names are the same register.
unfoldable pub reg_eq : Reg → Reg → Bool
reg_eq (gpr a) (gpr b) = a == b
reg_eq (xmm a) (xmm b) = a == b
reg_eq (xreg a) (xreg b) = a == b
reg_eq (qreg a) (qreg b) = a == b
reg_eq _ _ = false

abbrev pub elem : Reg → List Reg → Bool
elem r [] = false
elem r (s ∷ ss) = reg_eq s r || elem r ss

pub reg_eq_iff : (r s : Reg) → (reg_eq r s ≡ true) ↔ (r ≡ s)
unfolding reg_eq
reg_eq_iff (gpr a) (gpr b) = ground arith
reg_eq_iff (xmm a) (xmm b) = ground arith
reg_eq_iff (xreg a) (xreg b) = ground arith
reg_eq_iff (qreg a) (qreg b) = ground arith
reg_eq_iff _ _ = ground arith

pub reg_eq_self : (r : Reg) → reg_eq r r ≡ true
reg_eq_self r = (reg_eq_iff r r).1 refl

pub reg_eq_comm : (r s : Reg) → reg_eq r s ≡ reg_eq s r
unfolding reg_eq
reg_eq_comm (gpr a) (gpr b) = ground arith
reg_eq_comm (xmm a) (xmm b) = ground arith
reg_eq_comm (xreg a) (xreg b) = ground arith
reg_eq_comm (qreg a) (qreg b) = ground arith
reg_eq_comm (gpr a) _ = ground arith
reg_eq_comm (xmm a) _ = ground arith
reg_eq_comm (xreg a) _ = ground arith
reg_eq_comm (qreg a) _ = ground arith

pub elem-append-false :
    (r : Reg) (rs ss : List Reg) → elem r rs ≡ false → elem r ss ≡ false → elem r (rs ++ ss) ≡ false
elem-append-false r [] ss h k = k
elem-append-false r (s ∷ rs) ss h k = ground (arith, elem-append-false r rs ss)
