-- ===== src/Tracer/Isolation/Owning.antt =====
-- An event of a compartment other than the owner of an address.
use ia2_phase.MemoryMap.{IntervalTree, RegionState}
use ia2_phase.MemoryMap.Operations.{MemoryMap, region_get_prot}
use ia2_phase.MemoryMap.Splits.Whole.{lookup, IsValid}
use ia2_phase.Tracer.{
  EventInfo, mmap, munmap, mremap, madvise, mprotect, pkey_mprotect, clone, exec, exit, no_event,
  prot_indeterminate,
}
use ia2_phase.Tracer.Policy.{is_op_permitted}
use ia2_phase.Tracer.Updates.{update_memory_map, update_mremap}
use ia2_phase.Tracer.Syscalls.{with_result}
use ia2_phase.Tracer.Isolation.Steps.{Isolated}
use ia2_phase.Tracer.Isolation.Events.{
  event_pkey, EventFits, IsResult, IsRemappable, event-Isolated,
}
use ia2_phase.Base.{
  ℕ, Bool, some, ◌==◌, ◌≡◌, ◌≢◌, true, false, not, assert, refl, sym, ◌∙◌, subst, >>=-eq-some,
  from_returns, some-injective,
}

-- A compartment other than `own` makes a system call that the tracer permits and records, or one
-- that is refused, fails or concerns no memory.
pub data Step (t : IntervalTree) (own : ℕ) (m u : MemoryMap t) : Type 0 where
  idle : u ≡ m → Step t own m u
  completed :
      (event : EventInfo) (retval : ℕ)
      → event_pkey event ≢ own
      → event ≢ exec
      → EventFits (with_result retval event)
      → IsResult retval event
      → is_op_permitted t m event ≡ some true
      → update_memory_map t (with_result retval event) m ≡ some (true, u)
      → Step t own m u

module _ (t : IntervalTree) where
  passed : (b : Bool) {u : Unit {0}} → assert (not b) ≡ some u → b ≡ false
  passed true e = cc
  passed false e = refl

  -- An update that was made moved a region with one protection.
  remappable :
      (m : MemoryMap t) (event : EventInfo) (retval : ℕ) (result : Bool × MemoryMap t)
      → update_memory_map t (with_result retval event) m ≡ some result
      → IsRemappable t m event
  unfolding update_memory_map with_result update_mremap
  remappable m (mmap info) retval result e = tt
  remappable m (munmap info) retval result e = tt
  remappable m (mremap info) retval result e =
      let (prot, e1, e2) = >>=-eq-some (region_get_prot t m info.old_range) _ e in
      let (u, e3, e4) = >>=-eq-some (assert (not (prot == prot_indeterminate))) _ e2 in
      (prot, e1, passed (prot == prot_indeterminate) e3)
  remappable m (madvise info) retval result e = tt
  remappable m (mprotect info) retval result e = tt
  remappable m (pkey_mprotect info) retval result e = tt
  remappable m clone retval result e = tt
  remappable m exec retval result e = tt
  remappable m exit retval result e = tt
  remappable m no_event retval result e = tt

  -- The map is valid, initialization is over, and the address is the compartment's.
  pub record Owns (own a : ℕ) (m : MemoryMap t) : Type 0 where
    pub valid : IsValid t m
    pub finished : m.init_finished ≡ true
    pub state : RegionState
    pub mapped : lookup t m a ≡ some state
    pub owner : state.owner_pkey ≡ own

  pub Step-Owns :
      {own : ℕ} {m u : MemoryMap t} (a : ℕ) → own ≢ 0 → Step t own m u → Owns own a m → Owns own a u
  Step-Owns {own} a z (idle e) o = subst (Owns own a) (sym e) o
  Step-Owns {own} {m} {u} a z (completed event retval other x f res ok e) o =
      let (result, e', i) = from_returns (update_memory_map t (with_result retval event) m) (
        event-Isolated t m event retval o.valid o.finished x f res
          (remappable m event retval (true, u) e) ok) in
      let same : result ≡ (true, u) = some-injective result (true, u) (sym e' ∙ e) in
      let j : Isolated t (event_pkey event) m u =
        subst (λ (r : Bool × MemoryMap t). Isolated t (event_pkey event) m r.1) same i in
      let (s, k, p) =
        j.others a o.state o.mapped (λ h. z (sym o.owner ∙ h)) (λ h. other (sym h ∙ o.owner)) in
      record {
        valid = j.valid;
        finished = j.same_init ∙ o.finished;
        state = s;
        mapped = k;
        owner = p ∙ o.owner;
      }
