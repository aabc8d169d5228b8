-- ===== src/ReturnLocs/Located.antt =====
-- Every location that allocate_return_locations returns on x86-64 is on the stack or in a register.
use ia2_phase.Base.{
  ◌≡◌, ℕ, All, List, some, >>=-eq-some, [], get_elem?, arith, fold_m, All-append, assert,
  fold_m_inv, ◌∷◌, ltb, ◌==◌, false, All-get_elem?, ◌∙◌, not, subst, length, ◌+◌, some-injective,
}
use ia2_phase.Abi.{AbiSignature, Kind, ArgLocation, Arch}
use ia2_phase.Registers.{reg_eq, Reg, rsp}
use ia2_phase.Params.Located.{IsLocated, reg_allocated, float_order-rsp}
use ia2_phase.ReturnLocs.{
  ret_int_reg, Rets, int_ret_reg_order, ret_float, ret_dispatch, ret_eightbyte, ret_int128,
  ret_memory, allocate_return_locations, ret_step,
}
use ia2_phase.Params.{half_arg, push_back, float_reg_order}
use ia2_phase.Abi

int_ret_order-rsp :
    (i : ℕ) (r : Reg) → get_elem? (int_ret_reg_order Arch.x86) i ≡ some r → reg_eq rsp r ≡ false
unfolding reg_eq
int_ret_order-rsp i r h =
    All-get_elem? (λ s. reg_eq rsp s ≡ false) (int_ret_reg_order Arch.x86) i r (ground arith) h

ret_int_reg-IsLocated :
    (l : ArgLocation) (s t : Rets)
    → All IsLocated s.locs
    → ret_int_reg Arch.x86 l s ≡ some t
    → All IsLocated t.locs
unfolding ret_int_reg
ret_int_reg-IsLocated l s t h e =
    let (r, found, e1) = >>=-eq-some (get_elem? (int_ret_reg_order Arch.x86) s.ints_used) _ e in
    let (a, e2, e3) = >>=-eq-some (Abi.allocate_reg r l) _ e1 in
    let placed : All IsLocated (push_back s.locs a) =
      All-append IsLocated s.locs (a ∷ []) h
        ((λ _. (r, reg_allocated r l a e2, int_ret_order-rsp s.ints_used r found)), tt) in
    subst (λ u. All IsLocated u.locs) (some-injective _ t e3) placed

ret_float-IsLocated :
    (l : ArgLocation) (s t : Rets)
    → All IsLocated s.locs
    → ret_float Arch.x86 l s ≡ some t
    → All IsLocated t.locs
unfolding ret_float
ret_float-IsLocated l s t h e =
    let (r, found, e1) = >>=-eq-some (get_elem? (float_reg_order Arch.x86) s.floats_used) _ e in
    let (a, e2, e3) = >>=-eq-some (Abi.allocate_reg r l) _ e1 in
    let placed : All IsLocated (push_back s.locs a) =
      All-append IsLocated s.locs (a ∷ []) h
        ((λ _. (r, reg_allocated r l a e2, float_order-rsp Arch.x86 s.floats_used r found)), tt) in
    subst (λ u. All IsLocated u.locs) (some-injective _ t e3) placed

indirect_reg : (l a : ArgLocation) → Abi.set_indirect_on_stack l ≡ some a → a.reg ≡ l.reg
unfolding Abi.set_indirect_on_stack
indirect_reg l a e = ground arith

ret_memory-IsLocated :
    (l : ArgLocation) (s t : Rets)
    → All IsLocated s.locs
    → ret_memory Arch.x86 l s ≡ some t
    → All IsLocated t.locs
unfolding ret_memory
ret_memory-IsLocated l s t h e =
    let (_, _, e0) = >>=-eq-some (assert (s.ints_used == 0)) _ e in
    let (r, found, e1) = >>=-eq-some (get_elem? (int_ret_reg_order Arch.x86) s.ints_used) _ e0 in
    let (a, e2, e3) = >>=-eq-some (Abi.allocate_reg r l) _ e1 in
    let (b, e4, e5) = >>=-eq-some (Abi.set_indirect_on_stack a) _ e3 in
    let placed : All IsLocated (push_back s.locs b) = All-append IsLocated s.locs (b ∷ []) h (
      (λ _.
          (r, indirect_reg a b e4 ∙ reg_allocated r l a e2, int_ret_order-rsp s.ints_used r found)),
      tt,
    ) in
    subst (λ u. All IsLocated u.locs) (some-injective _ t e5) placed

ret_eightbyte-IsLocated :
    (l : ArgLocation) (s t : Rets)
    → All IsLocated s.locs
    → ret_eightbyte Arch.x86 l s ≡ some t
    → All IsLocated t.locs
unfolding ret_eightbyte
ret_eightbyte-IsLocated l s t h e =
    let (_, _, e1) =
      >>=-eq-some (assert (ltb s.ints_used (length (int_ret_reg_order Arch.x86)))) _ e in
    ground (arith, ret_int_reg-IsLocated l s t h)

ret_int128-IsLocated :
    (l : ArgLocation) (s t : Rets)
    → All IsLocated s.locs
    → ret_int128 Arch.x86 l s ≡ some t
    → All IsLocated t.locs
unfolding ret_int128
ret_int128-IsLocated l s t h e =
    let (_, _, e1) = >>=-eq-some (assert (Abi.size l == 16)) _ e in
    let (_, _, e2) = >>=-eq-some (assert (not l.indirect_on_stack)) _ e1 in
    let (_, _, e3) =
      >>=-eq-some (assert (ltb (s.ints_used + 1) (length (int_ret_reg_order Arch.x86)))) _ e2 in
    let (u, e4, e5) = >>=-eq-some (ret_int_reg Arch.x86 half_arg s) _ e3 in
    let (v, e6, e7) = >>=-eq-some (ret_int_reg Arch.x86 half_arg u) _ e5 in
    ret_float-IsLocated l v t
      (ret_int_reg-IsLocated half_arg u v (ret_int_reg-IsLocated half_arg s u h e4) e6) e7

ret_dispatch-IsLocated :
    (k : Kind) (l : ArgLocation) (s t : Rets)
    → All IsLocated s.locs
    → ret_dispatch k Arch.x86 s l ≡ some t
    → All IsLocated t.locs
unfolding ret_dispatch
ret_dispatch-IsLocated Kind.integral l s t h e =
    ground (arith, ret_eightbyte-IsLocated l s t h, ret_int128-IsLocated l s t h)
ret_dispatch-IsLocated Kind.float l s t h e = ret_float-IsLocated l s t h e
ret_dispatch-IsLocated Kind.memory l s t h e = ret_memory-IsLocated l s t h e

pub allocate_return_locations-IsLocated :
    (func : AbiSignature) (locs : List ArgLocation)
    → allocate_return_locations func Arch.x86 ≡ some locs
    → All IsLocated locs
unfolding allocate_return_locations ret_step
allocate_return_locations-IsLocated func locs e =
    let start : Rets = record { locs = []; ints_used = 0; floats_used = 0 } in
    let (t, looped, last) = >>=-eq-some (fold_m (ret_step Arch.x86) start func.ret) _ e in
    let kept =
      fold_m_inv (λ u ls. All IsLocated u.locs) (ret_step Arch.x86)
        (λ u l ls v h e'. ret_dispatch-IsLocated _ l u v h e') start func.ret t tt looped in
    subst (All IsLocated) (some-injective t.locs locs last) kept
