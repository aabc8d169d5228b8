-- ===== src/Pkru.antt =====
-- tools/rewriter/GenCallAsm.cpp: the code that sets PKRU, the register of access rights on x86-64
-- (emit_wrpkru, emit_mixed_wrpkru, x86_emit_intermediate_pkru, emit_set_pkru, emit_set_return_pkru).
use ia2_phase.Base.{
  ℕ, Bool, List, Option, ◌-◌, if◌then◌else◌, ◌∷◌, bit_or, [], u32, ◌++◌, ◌*◌, ◌^◌, none, some,
}
pub mod Rights
pub mod Effects
use ia2_phase.Asm.{Instr}
use ia2_phase.Registers.{Reg, rax, rcx, rdx, r10, r11}

-- `~((0b11 << (2 * pkey)) | 0b11)` as a `uint32_t`: two bits for each key, clear for a key in use.
unfoldable pub pkru_value : ℕ → ℕ
pkru_value pkey = 4294967295 - bit_or (u32 (3 * 2 ^ (2 * pkey))) 3

unfoldable pub mixed_pkru_value : ℕ → ℕ → ℕ
mixed_pkru_value pkey0 pkey1 =
    4294967295 - bit_or (bit_or (u32 (3 * 2 ^ (2 * pkey0))) (u32 (3 * 2 ^ (2 * pkey1)))) 3

-- wrpkru requires zeroing ecx and edx.
unfoldable pub load_pkru : ℕ → List Instr
load_pkru pkru = Instr.xorl rcx ∷ Instr.xorl rdx ∷ Instr.movl_imm pkru rax ∷ Instr.wrpkru ∷ []

unfoldable pub emit_wrpkru : ℕ → List Instr
unfolding load_pkru
emit_wrpkru pkey = load_pkru (pkru_value pkey)

unfoldable pub emit_mixed_wrpkru : ℕ → ℕ → List Instr
unfolding load_pkru
emit_mixed_wrpkru pkey0 pkey1 = load_pkru (mixed_pkru_value pkey0 pkey1)

-- The two registers that hold arguments or results are kept in r10 and r11.
unfoldable pub x86_emit_intermediate_pkru : ℕ → ℕ → Reg → Reg → List Instr
unfolding emit_mixed_wrpkru
x86_emit_intermediate_pkru caller_pkey target_pkey reg1 reg2 =
    Instr.movq reg1 r10
    ∷ Instr.movq reg2 r11
    ∷ (emit_mixed_wrpkru caller_pkey target_pkey ++ Instr.movq r10 reg1 ∷ Instr.movq r11 reg2 ∷ [])

-- `libc` is the flag gLibcCompartmentEnabled; a union value gives access to two compartments.
unfoldable pub emit_set_pkru : Bool → ℕ → Option ℕ → List Instr
unfolding emit_wrpkru emit_mixed_wrpkru
emit_set_pkru libc target_pkey union_pkey =
    let one = emit_wrpkru target_pkey in
    let set =
      if libc
      then elim union_pkey [ none ↦ one | some pkey ↦ emit_mixed_wrpkru pkey target_pkey ]
      else one in
    Instr.movq rcx r10 ∷ Instr.movq rdx r11 ∷ (set ++ Instr.movq r10 rcx ∷ Instr.movq r11 rdx ∷ [])

unfoldable pub emit_set_return_pkru : ℕ → List Instr
unfolding emit_wrpkru
emit_set_return_pkru caller_pkey =
    Instr.movq rax r10
    ∷ Instr.movq rdx r11
    ∷ (emit_wrpkru caller_pkey ++ Instr.movq r10 rax ∷ Instr.movq r11 rdx ∷ [])
