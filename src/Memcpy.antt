-- ===== src/Memcpy.antt =====
-- tools/rewriter/GenCallAsm.cpp, emit_memcpy for x86-64: code that copies a number of bytes known
-- when the wrapper is generated.
use ia2_phase.Base.{ℕ, List, if◌then◌else◌, ◌++◌, u64, [], leb, suc, ◌+◌, zero, ◌∷◌, ltb}
pub mod Copies
use ia2_phase.Asm.{Instr}
use ia2_phase.Registers.{Reg}

-- One load and one store of `w` bytes at offset `i`.
move : ℕ → ℕ → Reg → Reg → Reg → ℕ → List Instr
move w i dst src scratch src_offset =
    Instr.load w (u64 (i + src_offset)) src scratch ∷ Instr.store w scratch i dst ∷ []

-- `for (; i + 8 <= byte_count; i += 8)`, with the final value of `i`. The fuel is the number of
-- rounds at most.
memcpy_loop : ℕ → ℕ → ℕ → (ℕ → List Instr) → List Instr × ℕ
memcpy_loop zero i byte_count word = ([], i)
memcpy_loop (suc fuel) i byte_count word =
    let rest = memcpy_loop fuel (i + 8) byte_count word in
    if leb (i + 8) byte_count then (word i ++ rest.0, rest.1) else ([], i)

-- `if (i + w <= byte_count) { ...; i += w; }`
memcpy_tail : ℕ → ℕ → ℕ → (ℕ → List Instr) → List Instr × ℕ
memcpy_tail w i byte_count word = if leb (i + w) byte_count then (word i, i + w) else ([], i)

unfoldable pub emit_memcpy : ℕ → Reg → Reg → Reg → ℕ → List Instr
unfolding move memcpy_loop memcpy_tail
emit_memcpy byte_count dst src scratch src_offset =
    let word = λ (w : ℕ) (i : ℕ). move w i dst src scratch src_offset in
    let (words, i) = memcpy_loop byte_count 0 byte_count (word 8) in
    let (long, j) = memcpy_tail 4 i byte_count (word 4) in
    let (short, k) = memcpy_tail 2 j byte_count (word 2) in
    let byte = if ltb k byte_count then word 1 k else [] in words ++ long ++ short ++ byte
