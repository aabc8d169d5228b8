-- ===== src/Memcpy/Copies.antt =====
-- The code that emit_memcpy writes copies its bytes, and nothing else.
use ia2_phase.Memcpy.{move, memcpy_tail, memcpy_loop, emit_memcpy}
use ia2_phase.Registers.{Reg, reg_eq}
use ia2_phase.Asm.Machine.{
  store_bytes, load_bytes, merge, Env, Machine, update_mem, run, exec, update_reg, update_reg_self,
  update_reg_other, run-append,
}
use ia2_phase.Asm.Memory.{IsBytes, store-load_bytes}
use ia2_phase.Base.{
  ℕ, if◌then◌else◌, ◌+◌, ◌≤◌, arith, leb, ◌&&◌, ◌⊎◌, ◌-◌, ltb, ◌≡◌, fun_ext, suc, ap, ◌<◌, false,
  u64, ap₂, zero, refl, ◌∙◌, ◌*◌, Bool-cases, inl, inr, leb→le, leb→lt, [], subst,
}

-- The memory `mem` with the first `n` bytes at `d` copied from `s`.
pub copied : (ℕ → ℕ) → ℕ → ℕ → ℕ → ℕ → ℕ
copied mem d s n b = if leb d b && ltb b (d + n) then mem (s + (b - d)) else mem b

-- The two regions of `n` bytes have no byte in common.
abbrev pub Disjoint : ℕ → ℕ → ℕ → Type 0
Disjoint d s n = (d + n ≤ s) ⊎ (s + n ≤ d)

copied-IsBytes : (mem : ℕ → ℕ) (d s n : ℕ) → IsBytes mem → IsBytes (copied mem d s n)
unfolding copied
copied-IsBytes mem d s n h = λ b. ground (arith, h b, h (s + (b - d)))

-- Copying `w` more bytes.
copy_word :
    (w i n : ℕ) (mem : ℕ → ℕ) (d s : ℕ)
    → IsBytes mem
    → Disjoint d s n
    → i + w ≤ n
    → store_bytes w (copied mem d s i) (d + i) (load_bytes w (copied mem d s i) (s + i))
      ≡ copied mem d s (i + w)
unfolding copied
copy_word w i n mem d s h apart fits = fun_ext λ b.
    let at : d + i ≤ b → s + i + (b - (d + i)) ≡ s + (b - d) = omega arith in
    rw
      (store-load_bytes w (copied mem d s i) (copied mem d s i) (d + i) (s + i) b
        (copied-IsBytes mem d s i h))
      (ground arith)

-- A merged register stores the bytes that were loaded into it.
store-merge :
    (w old v : ℕ) (mem : ℕ → ℕ) (a : ℕ)
    → (w ≡ 1) ⊎ (w ≡ 2) ⊎ (4 ≤ w)
    → store_bytes w mem a (merge w old v) ≡ store_bytes w mem a v
unfolding store_bytes
store-merge zero old v mem a h = refl
store-merge (suc zero) old v mem a h = ap (update_mem mem a) (omega arith)
store-merge (suc (suc zero)) old v mem a h =
    ap₂ (λ x y. update_mem (update_mem mem (a + 1) x) a y) (omega arith) (omega arith)
store-merge (suc (suc (suc zero))) old v mem a h = absurd (omega arith)
store-merge (suc (suc (suc (suc w)))) old v mem a h =
    ap (store_bytes (suc (suc (suc (suc w)))) mem a) (ground arith)

module _ (env : Env) (dst src scratch : Reg) (src_offset n : ℕ) (m : Machine) where
  -- The first `i` bytes are copied; only memory and the scratch register have changed.
  pub record IsCopied (i : ℕ) (t : Machine) : Type 0 where
    pub mem_copied : t.mem ≡ copied m.mem (m.reg dst) (m.reg src + src_offset) i
    pub regs_kept : (r : Reg) → reg_eq r scratch ≡ false → t.reg r ≡ m.reg r
    pub fs_kept : t.fs ≡ m.fs
    pub pkru_kept : t.pkru ≡ m.pkru
    pub trapped_kept : t.trapped ≡ m.trapped

  pub record IsCopyable : Type 0 where
    pub bytes : IsBytes m.mem
    pub apart : Disjoint (m.reg dst) (m.reg src + src_offset) n
    pub dst_bound : m.reg dst + n < 18446744073709551616
    pub src_bound : m.reg src + src_offset + n < 18446744073709551616
    pub dst_scratch : reg_eq dst scratch ≡ false
    pub src_scratch : reg_eq src scratch ≡ false

  move-IsCopied :
      (w i : ℕ) (t : Machine)
      → (w ≡ 1) ⊎ (w ≡ 2) ⊎ (4 ≤ w)
      → IsCopyable
      → i + w ≤ n
      → IsCopied i t
      → IsCopied (i + w) (run env (move w i dst src scratch src_offset) t)
  unfolding move run exec
  move-IsCopied w i t sizes c fits h =
      let d = m.reg dst in
      let s = m.reg src + src_offset in
      let from : u64 (t.reg src + u64 (i + src_offset)) ≡ s + i =
        omega (arith, h.regs_kept src c.src_scratch, c.src_bound) in
      let v = load_bytes w t.mem (u64 (t.reg src + u64 (i + src_offset))) in
      let loaded = merge w (t.reg scratch) v in
      let same = update_reg_self t.reg scratch loaded in
      let base = update_reg_other t.reg scratch dst loaded c.dst_scratch in
      let to : u64 (update_reg t.reg scratch loaded dst + i) ≡ d + i =
        omega (arith, base, h.regs_kept dst c.dst_scratch, c.dst_bound) in
      record {
        mem_copied = cc (
          from,
          same,
          to,
          h.mem_copied,
          store-merge w (t.reg scratch) v t.mem (d + i) sizes,
          copy_word w i n m.mem d s c.bytes c.apart fits,
        );
        regs_kept = λ r e. update_reg_other t.reg scratch r loaded e ∙ h.regs_kept r e;
        fs_kept = h.fs_kept;
        pkru_kept = h.pkru_kept;
        trapped_kept = h.trapped_kept;
      }

  -- The loop copies all whole eightbytes that are left.
  loop-IsCopied :
      (fuel i : ℕ) (t : Machine)
      → IsCopyable
      → n < i + 8 * fuel + 8
      → i ≤ n
      → IsCopied i t
      → let (is, j) = memcpy_loop fuel i n (λ k. move 8 k dst src scratch src_offset) in
        IsCopied j (run env is t) × (j ≤ n) × (n < j + 8)
  unfolding memcpy_loop run
  loop-IsCopied zero i t c bound le h = (h, le, omega arith)
  loop-IsCopied (suc fuel) i t c bound le h = elim (Bool-cases (leb (i + 8) n)) [
    | inl more ↦ rw more (
        rw run-append (
          loop-IsCopied fuel (i + 8) (run env (move 8 i dst src scratch src_offset) t) c
            (omega arith) (leb→le _ _ more)
            (move-IsCopied 8 i t (inr (inr (omega arith))) c (leb→le _ _ more) h)))
    | inr done ↦ rw done (h, le, leb→lt _ _ done)
  ]

  tail-IsCopied :
      (w i : ℕ) (t : Machine)
      → (w ≡ 1) ⊎ (w ≡ 2) ⊎ (4 ≤ w)
      → IsCopyable
      → i ≤ n
      → n < i + 2 * w
      → IsCopied i t
      → let (is, j) = memcpy_tail w i n (λ k. move w k dst src scratch src_offset) in
        IsCopied j (run env is t) × (j ≤ n) × (n < j + w)
  unfolding memcpy_tail run
  tail-IsCopied w i t sizes c le bound h = elim (Bool-cases (leb (i + w) n)) [
    | inl more ↦
        rw more (move-IsCopied w i t sizes c (leb→le _ _ more) h, leb→le _ _ more, omega arith)
    | inr done ↦ rw done (h, le, leb→lt _ _ done)
  ]

  -- At most one byte is left at the end.
  last-IsCopied :
      (i : ℕ) (t : Machine)
      → IsCopyable
      → i ≤ n
      → n < i + 2
      → IsCopied i t
      → IsCopied n (run env (if ltb i n then move 1 i dst src scratch src_offset else []) t)
  unfolding run
  last-IsCopied i t c le bound h = elim (Bool-cases (ltb i n)) [
    | inl more ↦
        let end : i + 1 ≡ n = ground arith in
        rw more (
          subst (λ k. IsCopied k (run env (move 1 i dst src scratch src_offset) t)) end
            (move-IsCopied 1 i t (inl refl) c (omega arith) h))
    | inr done ↦ rw done (subst (λ k. IsCopied k t) (ground arith) h)
  ]

  start-IsCopied : IsCopied 0 m
  unfolding copied
  start-IsCopied = record {
    mem_copied = fun_ext (λ b. ground arith);
    regs_kept = λ r e. refl;
    fs_kept = refl;
    pkru_kept = refl;
    trapped_kept = refl;
  }

  -- If the two regions of `n` bytes are apart and within 64 bits, and the scratch register is not
  -- one of the two pointers, the code copies all `n` bytes, and changes no other memory, no register
  -- but the scratch register, no thread-local cell and not PKRU.
  pub emit_memcpy-IsCopied :
      IsCopyable → IsCopied n (run env (emit_memcpy n dst src scratch src_offset) m)
  unfolding emit_memcpy
  emit_memcpy-IsCopied c =
      let (h8, le8, lt8) = loop-IsCopied n 0 m c (omega arith) (omega arith) start-IsCopied in
      let (h4, le4, lt4) = tail-IsCopied 4 _ _ (inr (inr (omega arith))) c le8 lt8 h8 in
      let (h2, le2, lt2) = tail-IsCopied 2 _ _ (inr (inl refl)) c le4 lt4 h4 in
      rw run-append (rw run-append (rw run-append (last-IsCopied _ _ c le2 lt2 h2)))
