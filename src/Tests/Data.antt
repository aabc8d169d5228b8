-- ===== src/Tests/Data.antt =====
-- A signature and a machine for the tests.
use ia2_phase.Asm.States.{IsState}
use ia2_phase.Pkru.{pkru_value}
use ia2_phase.Abi.{AbiSignature, Kind}
use ia2_phase.Asm.Machine.{Machine, Env}
use ia2_phase.Gate.Scrub.{scrub_registers}
use ia2_phase.Registers.{reg_eq, is_vector, rsp}
use ia2_phase.Base.{
  arith, Bool-cases, ◌*◌, replicate, if◌then◌else◌, ◌++◌, ◌∷◌, inl, ◌%◌, inr, [], ◌==◌, false, refl,
  ℕ,
}
use ia2_phase.Abi
use ia2_phase.Asm.Memory.{IsBytes, FitsIn}
use ia2_phase.Gate.Items.{IsWord}

-- `struct { long a, b, c; } f(long, long, long, long, long, long, float)`.
abbrev pub big_sig : AbiSignature
big_sig = record {
  args = replicate 6 (Abi.register Kind.integral 8) ++ Abi.register Kind.float 4 ∷ [];
  ret = Abi.stack 24 8 ∷ [];
}

abbrev pub small_sig : AbiSignature
small_sig = record {
  args = Abi.register Kind.integral 8 ∷ Abi.register Kind.float 8 ∷ [];
  ret = Abi.register Kind.integral 8 ∷ Abi.register Kind.float 4 ∷ [];
}

-- Every call scrubs the registers and returns.
abbrev pub env0 : Env
env0 = record { call = λ t m. scrub_registers m; tpoff = λ n. 8 * (n % 16) }

-- The stack pointer is 8200; the stack of compartment 1 is saved at 65536, others at 8200; all
-- other registers hold 7.
abbrev pub machine0 : Machine
machine0 = record {
  reg = λ r. if reg_eq r rsp then 8200 else 7;
  mem = λ a. a % 256;
  fs = λ c. if c == 8 then 65536 else 8200;
  pkru = 0;
  trapped = false;
}

pub machine0-IsBytes : IsBytes machine0.mem
machine0-IsBytes = λ a. omega arith

pub machine0-IsWord : IsWord machine0
unfolding reg_eq
machine0-IsWord = λ r e.
    rw e (elim (Bool-cases (is_vector r)) [ inl vec ↦ rw vec refl | inr scalar ↦ rw scalar refl ])

-- At the entry of a gate from compartment 1 to compartment 2, whose stack is lower.
abbrev pub machine1 : Machine
machine1 = record {
  reg = λ r. if reg_eq r rsp then 65536 else 7;
  mem = λ a. a % 256;
  fs = λ c. if c == 16 then 32776 else 65536;
  pkru = pkru_value 1;
  trapped = false;
}

pub machine1-IsState : IsState machine1
unfolding reg_eq pkru_value
machine1-IsState = record {
  state_regs = λ r. elim (Bool-cases (is_vector r)) [
    | inl vec ↦ rw vec (ground arith)
    | inr scalar ↦ rw scalar (ground arith)
  ];
  state_mem = λ a. omega arith;
  state_fs = λ c. ground arith;
  state_pkru = refl;
}

pub env0-offsets : (n : ℕ) → FitsIn 8 (env0.tpoff n)
env0-offsets = λ n. omega arith
