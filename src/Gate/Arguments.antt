-- ===== src/Gate/Arguments.antt =====
-- tools/rewriter/GenCallAsm.cpp for x86-64: emit_copy_args and emit_copy_stack_returns, which move
-- stack arguments to the target's stack and a result in memory back.
use ia2_phase.Base.{
  List, ℕ, if◌then◌else◌, length, Option, u64, [], ◌+◌, suc, ◌>>◌, ltb, ◌>>=◌, some, none,
  get_elem?, ◌-◌, max, assert, ◌∷◌, ◌*◌, ◌++◌, zero, ◌==◌, ◌%◌, ◌||◌,
}
use ia2_phase.Asm.{Instr}
use ia2_phase.Abi
use ia2_phase.Abi.{ArgLocation}
use ia2_phase.Registers.{rsp, rax, rdi, r10, r12, x86_preserved_registers}
use ia2_phase.Memcpy.{emit_memcpy}
use ia2_phase.Gate.Frame.{emit_load_sp_offset}

-- The bytes that the frame takes of the caller's stack.
abbrev pub frame_size : ℕ
frame_size = (length x86_preserved_registers + 1) * 8

-- Space for a result in memory, and the caller's address for it.
unfoldable pub allocate_return : ℕ → ℕ → List Instr
allocate_return stack_return_size stack_return_padding =
    if ltb 0 stack_return_size
    then Instr.subq (u64 (stack_return_size + stack_return_padding)) rsp
      ∷ Instr.pushq rdi
      ∷ Instr.movq rsp rdi
      ∷ Instr.addq 8 rdi
      ∷ []
    else []

-- `for (int i = 0; i < stack_arg_size; i += 8)`, one push each round; the fuel bounds the rounds.
unfoldable pub push_loop : ℕ → ℕ → ℕ → ℕ → List Instr
push_loop zero i stack_arg_size offset = []
push_loop (suc fuel) i stack_arg_size offset =
    let rest = push_loop fuel (i + 8) stack_arg_size offset in
    if ltb i stack_arg_size then Instr.pushq_mem (offset - i) rax ∷ rest else []

unfoldable pub copy_stack_args : ℕ → ℕ → ℕ → ℕ → List Instr
unfolding emit_load_sp_offset push_loop
copy_stack_args stack_arg_size stack_arg_padding wrapper_stack_arg_size caller_pkey =
    let offset = u64 (
      stack_arg_size
      + stack_arg_padding
      + frame_size
      + (wrapper_stack_arg_size + 18446744073709551616 - stack_arg_size)) in
    if ltb 0 stack_arg_size
    then emit_load_sp_offset caller_pkey r12
      ++ Instr.movq_fs_load r12 rax ∷ push_loop stack_arg_size 0 stack_arg_size offset
    else []

-- Where the caller's stack pointer has an argument of the wrapper.
unfoldable pub caller_offset : ℕ → ArgLocation → ℕ
unfolding Abi.size
caller_offset stack_arg_padding src =
    let offset = u64 (frame_size + stack_arg_padding + src.stack_offset + Abi.size src) in
    let align = max src.align 8 in
    if offset % align == 0 then offset else u64 (offset + (align - offset % align))

-- The loop over both lists of locations; it reads past the end of the wrapper's if that is shorter.
unfoldable pub copy_registers : ℕ → List ArgLocation → List ArgLocation → Option (List Instr)
unfolding Abi.as_str caller_offset
copy_registers padding srcs [] = some []
copy_registers padding [] (dest ∷ dests) = none
copy_registers padding (src ∷ srcs) (dest ∷ dests) = do
  rest ← copy_registers padding srcs dests
  here ←
      (if dest.on_stack then some [] else (do
        d ← Abi.as_str dest
        (if src.on_stack
            then some (Instr.load 8 (caller_offset padding src) rax d ∷ [])
            else (do s ← Abi.as_str src; some (Instr.movq s d ∷ [])))))
  some (here ++ rest)

abbrev tail? : List ArgLocation → Option (List ArgLocation)
tail? [] = none
tail? (l ∷ ls) = some ls

-- An indirect call site: its wrapper's first parameter is the function pointer, behind a return
-- pointer that both have.
unfoldable pub copy_wrapper_args : ℕ → ℕ → List ArgLocation → List ArgLocation → Option (List Instr)
unfolding copy_registers Abi.as_str
copy_wrapper_args stack_return_size padding wrapper_args args = do
  srcs ← if ltb 0 stack_return_size then tail? wrapper_args else some wrapper_args
  dests ← if ltb 0 stack_return_size then tail? args else some args
  fn ← get_elem? srcs 0
  r ← Abi.as_str fn
  rest ← tail? srcs
  moves ← copy_registers padding rest dests
  some (Instr.movq r r12 ∷ moves)

unfoldable pub emit_copy_args :
    List ArgLocation → Option (List ArgLocation) → ℕ → ℕ → ℕ → ℕ → ℕ → ℕ → ℕ → Option (List Instr)
unfolding allocate_return copy_stack_args copy_wrapper_args
emit_copy_args args wrapper_args stack_return_size stack_return_padding stack_alignment
      stack_arg_size stack_arg_padding wrapper_stack_arg_size caller_pkey =
    do
      assert (stack_alignment == 0 || stack_alignment == 8)
      moves ← elim wrapper_args [
        | none ↦ some []
        | some ws ↦ copy_wrapper_args stack_return_size stack_arg_padding ws args
      ]
      let align = if stack_alignment == 0 then [] else Instr.subq 8 rsp ∷ []
      some (
          allocate_return stack_return_size stack_return_padding
          ++ align
          ++ copy_stack_args stack_arg_size stack_arg_padding wrapper_stack_arg_size caller_pkey
          ++ moves)

unfoldable pub emit_copy_stack_returns : ℕ → ℕ → List Instr
unfolding emit_memcpy
emit_copy_stack_returns stack_return_size stack_return_padding =
    if ltb 0 stack_return_size
    then Instr.popq rax
      ∷ (emit_memcpy stack_return_size rax rsp r10 0
          ++ Instr.addq (u64 (stack_return_size + stack_return_padding)) rsp ∷ [])
    else []
