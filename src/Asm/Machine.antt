-- ===== src/Asm/Machine.antt =====
-- What the x86-64 instructions of a call gate do to registers, memory and PKRU, after the
-- architecture manual. Memory is a function from addresses to bytes; the thread-local cells behind
-- %fs are apart from it. Calls go to code outside the gate, which the environment gives.
use ia2_phase.Base.{
  u64, List, suc, ◌+◌, ◌∷◌, ◌++◌, if◌then◌else◌, ◌*◌, ◌-◌, ◌/◌, ◌%◌, ltb, [], ◌==◌, ◌≡◌, ◌^◌, zero,
  refl, Bool, ◌||◌, not, false,
}
use ia2_phase.Registers.{
  Reg, reg_eq, rsp, rax, r10, rcx, r11, rdx, reg_eq_self, reg_eq_comm, is_vector,
}
use Prim.Native.String.{String}
use ia2_phase.Asm.{Instr, ℕ}

pub record Machine : Type 0 where
  pub reg : Reg → ℕ
  pub mem : ℕ → ℕ
  pub fs : ℕ → ℕ
  pub pkru : ℕ
  pub trapped : Bool

pub data Target : Type 0 where
  symbol : String → Target
  address : ℕ → Target

-- `call` runs the code at a target up to its return; `tpoff n` is the offset of ia2_stackptr_n.
pub record Env : Type 0 where
  pub call : Target → Machine → Machine
  pub tpoff : ℕ → ℕ

unfoldable pub update_reg : (Reg → ℕ) → Reg → ℕ → Reg → ℕ
unfolding reg_eq
update_reg f r v s = if reg_eq r s then v else f s

unfoldable pub update_mem : (ℕ → ℕ) → ℕ → ℕ → ℕ → ℕ
update_mem f a v b = if a == b then v else f b

-- `n` bytes from an address on, little end first.
unfoldable pub load_bytes : ℕ → (ℕ → ℕ) → ℕ → ℕ
load_bytes zero m a = 0
load_bytes (suc n) m a = m a + 256 * load_bytes n m (a + 1)

unfoldable pub store_bytes : ℕ → (ℕ → ℕ) → ℕ → ℕ → ℕ → ℕ
store_bytes zero m a v = m
store_bytes (suc n) m a v = update_mem (store_bytes n m (a + 1) (v / 256)) a (v % 256)

abbrev pub set_reg : Machine → Reg → ℕ → Machine
set_reg m r v = record m { reg = update_reg m.reg r v }

abbrev pub write : ℕ → Machine → ℕ → ℕ → Machine
write w m a v = record m { mem = store_bytes w m.mem a v }

abbrev pub read : ℕ → Machine → ℕ → ℕ
read w m a = load_bytes w m.mem a

-- A move of fewer than 4 bytes keeps the upper bytes of the register, one of 4 clears them.
abbrev pub merge : ℕ → ℕ → ℕ → ℕ
merge w old v = if ltb w 4 then old / 256 ^ w * 256 ^ w + v else v

abbrev pub sub64 : ℕ → ℕ → ℕ
sub64 a b = u64 (a + 18446744073709551616 - b)

abbrev pub push : ℕ → ℕ → Machine → Machine
push w v m = let sp = sub64 (m.reg rsp) w in write w (set_reg m rsp sp) sp v

-- `assert_pkru` is the macro of a debug build of runtime/libia2/include/ia2.h: it traps unless
-- PKRU is the given value, and leaves it in rax, rcx in r10 and rdx in r11.
unfoldable pub exec : Env → Instr → Machine → Machine
unfolding is_vector
exec env (Instr.pushq r) m = push 8 (m.reg r) m
exec env (Instr.popq r) m =
    let sp = m.reg rsp in set_reg (set_reg m rsp (u64 (sp + 8))) r (read 8 m sp)
exec env (Instr.pushq_mem off base) m = push 8 (read 8 m (u64 (m.reg base + off))) m
exec env (Instr.subq n r) m = set_reg m r (sub64 (m.reg r) n)
exec env (Instr.addq n r) m = set_reg m r (u64 (m.reg r + n))
exec env (Instr.movq src dst) m =
    set_reg m dst (if is_vector src || is_vector dst then u64 (m.reg src) else m.reg src)
exec env (Instr.load w off base dst) m =
    set_reg m dst (merge w (m.reg dst) (read w m (u64 (m.reg base + off))))
exec env (Instr.store w src off base) m = write w m (u64 (m.reg base + off)) (m.reg src)
exec env (Instr.movdqu_store r) m = write 16 m (m.reg rsp) (m.reg r)
exec env (Instr.movdqu_load r) m = set_reg m r (read 16 m (m.reg rsp))
exec env (Instr.xorl r) m = set_reg m r 0
exec env (Instr.movl_imm v r) m = set_reg m r v
exec env (Instr.movq_imm v r) m = set_reg m r v
exec env Instr.wrpkru m = record m { pkru = m.reg rax % 4294967296 }
exec env (Instr.assert_pkru v) m =
    record (set_reg (set_reg (set_reg m r10 (m.reg rcx)) r11 (m.reg rdx)) rax m.pkru) {
      trapped = m.trapped || not (m.pkru == v);
    }
exec env (Instr.gottpoff n r) m = set_reg m r (env.tpoff n)
exec env (Instr.movq_fs_store src off) m = record m { fs = update_mem m.fs (m.reg off) (m.reg src) }
exec env (Instr.movq_fs_load off dst) m = set_reg m dst (m.fs (m.reg off))
exec env (Instr.call s) m = env.call (Target.symbol s) m
exec env (Instr.call_reg r) m = env.call (Target.address (m.reg r)) m
exec env Instr.ret m = m
exec env _ m = m

-- Straight-line code.
unfoldable pub run : Env → List Instr → Machine → Machine
run env [] m = m
run env (i ∷ is) m = run env is (exec env i m)

pub run-append :
    (env : Env) (is js : List Instr) (m : Machine)
    → run env (is ++ js) m ≡ run env js (run env is m)
unfolding run
run-append env [] js m = refl
run-append env (i ∷ is) js m = run-append env is js (exec env i m)

pub update_reg_self : (f : Reg → ℕ) (r : Reg) (v : ℕ) → update_reg f r v r ≡ v
unfolding update_reg
update_reg_self f r v = rw (reg_eq_self r)

pub update_reg_other :
    (f : Reg → ℕ) (r s : Reg) (v : ℕ) → reg_eq s r ≡ false → update_reg f r v s ≡ f s
unfolding update_reg
update_reg_other f r s v h = rw (reg_eq_comm r s) (rw h)
