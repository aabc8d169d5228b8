-- ===== src/Tracer/Isolation/Steps.antt =====
-- The operations of the memory map that an event leads to, against the owners of memory.
use ia2_phase.MemoryMap.{IntervalTree, Range, RegionState}
use ia2_phase.MemoryMap.Operations.{
  MemoryMap, all_overlapping_regions_have_pkey, unmap_region, map_add_region, mprotected_state,
  pkey_mprotected_state, mprotect_region, pkey_mprotect_region,
}
use ia2_phase.MemoryMap.Splits.Whole.{Fits, in_pages, lookup, IsValid}
use ia2_phase.MemoryMap.Adds.{add_region-Added}
use ia2_phase.MemoryMap.Protects.{
  mprotect_region-Protected, pkey_mprotect_region-Protected, map_state,
}
use ia2_phase.MemoryMap.Checks.{all_overlapping_regions_iff, unmap_region-Unmapped}
use ia2_phase.Base.{
  ℕ, Bool, Option, some, none, if◌then◌else◌, ◌==◌, ◌&&◌, ◌≡◌, ◌≢◌, true, false, arith, refl, sym,
  ◌∙◌, Returns, Returns-map, Bool-cases, inl, inr, ==_iff, ap,
}

kept_by_add :
    (result inside : Bool) (after before : Option RegionState) (new s : RegionState)
    → after ≡ (if result && inside then some new else before)
    → before ≡ some s
    → (result ≡ true → inside ≡ true → before ≡ none)
    → after ≡ some s
kept_by_add true true after before new s e f free = cc (free refl refl)
kept_by_add true false after before new s e f free = e ∙ f
kept_by_add false inside after before new s e f free = e ∙ f

-- A state that was changed or left alone, with the owner it had.
changed_owner :
    (b : Bool) (change : RegionState → RegionState) (after before : Option RegionState)
    (s : RegionState)
    → after ≡ (if b then map_state change before else before)
    → before ≡ some s
    → (change s).owner_pkey ≡ s.owner_pkey
    → (s' : RegionState) × (after ≡ some s') × (s'.owner_pkey ≡ s.owner_pkey)
changed_owner true change after before s e f o = (change s, e ∙ ap (map_state change) f, o)
changed_owner false change after before s e f o = (s, e ∙ f, refl)

module _ (t : IntervalTree) where
  -- Memory of a compartment other than 0 and `pkey` stays mapped and stays its own.
  abbrev pub KeepsOthers : ℕ → MemoryMap t → MemoryMap t → Type 0
  KeepsOthers pkey m u =
      (a : ℕ) (s : RegionState)
      → lookup t m a ≡ some s
      → s.owner_pkey ≢ 0
      → s.owner_pkey ≢ pkey
      → (s' : RegionState) × (lookup t u a ≡ some s') × (s'.owner_pkey ≡ s.owner_pkey)

  pub record Isolated (pkey : ℕ) (m u : MemoryMap t) : Type 0 where
    pub valid : IsValid t u
    pub same_init : u.init_finished ≡ m.init_finished
    pub others : KeepsOthers pkey m u

  pub Isolated-refl : (pkey : ℕ) (m : MemoryMap t) → IsValid t m → Isolated pkey m m
  Isolated-refl pkey m v = record {
    valid = v;
    same_init = refl;
    others = λ a s e z p. (s, e, refl);
  }

  pub Isolated-trans :
      (pkey : ℕ) (m u w : MemoryMap t) → Isolated pkey m u → Isolated pkey u w → Isolated pkey m w
  Isolated-trans pkey m u w i j = record {
    valid = j.valid;
    same_init = j.same_init ∙ i.same_init;
    others = λ a s e z p.
        let (s', e', o) = i.others a s e z p in
        let (s'', e'', o') = j.others a s' e' (λ h. z (sym o ∙ h)) (λ h. p (sym o ∙ h)) in
        (s'', e'', o' ∙ o);
  }

  pub add-Isolated :
      (pkey owner prot : ℕ) (r : Range) (m : MemoryMap t)
      → IsValid t m
      → Fits r
      → Isolated pkey m (map_add_region t r owner prot m).1
  unfolding map_add_region
  add-Isolated pkey owner prot r m v f =
      let i = add_region-Added t r _ m v f in
      record {
        valid = i.valid;
        same_init = i.same_init;
        others = λ a s e z p. (
          s,
          kept_by_add (map_add_region t r owner prot m).0 (in_pages r a) _ (lookup t m a) _ s
              (i.states a) e (λ h k. i.free h a k),
          refl,
        );
      }

  -- The test of the owner names every mapped address of the range.
  owned :
      (pkey : ℕ) (r : Range) (m : MemoryMap t)
      → IsValid t m
      → Fits r
      → all_overlapping_regions_have_pkey t m r pkey ≡ true
      → (a : ℕ) (s : RegionState) → in_pages r a ≡ true
      → lookup t m a ≡ some s
      → pkey ≡ s.owner_pkey
  unfolding all_overlapping_regions_have_pkey
  owned pkey r m v f h a s i e =
      (==_iff pkey s.owner_pkey).0
        ((all_overlapping_regions_iff t m r (λ s. pkey == s.owner_pkey) v f).0 h a s i e)

  pub unmap-Isolated :
      (pkey : ℕ) (r : Range) (m : MemoryMap t)
      → IsValid t m
      → Fits r
      → all_overlapping_regions_have_pkey t m r pkey ≡ true
      → Returns (unmap_region t r m) (Isolated pkey m)
  unmap-Isolated pkey r m v f h =
      Returns-map (unmap_region t r m) (unmap_region-Unmapped t m r v f) (λ u k. record {
        valid = k.0;
        same_init = k.1;
        others = λ a s e z p. (
          s,
          elim (Bool-cases (in_pages r a)) [
            | inl i ↦ absurd (p (sym (owned pkey r m v f h a s i e)))
            | inr i ↦ k.2 a ∙ rw i e
          ],
          refl,
        );
      })

  pub mprotect-Isolated :
      (pkey prot : ℕ) (r : Range) (m : MemoryMap t)
      → IsValid t m
      → Fits r
      → Returns (mprotect_region t r prot m) (λ result. Isolated pkey m result.1)
  mprotect-Isolated pkey prot r m v f =
      Returns-map (mprotect_region t r prot m) (mprotect_region-Protected t m r prot v f)
        (λ result k. record {
          valid = k.valid;
          same_init = k.same_init;
          others = λ a s e z p.
              changed_owner _ (mprotected_state prot) _ (lookup t m a) s (k.states a) e refl;
        })

  pub pkey_mprotect-Isolated :
      (pkey new_owner : ℕ) (r : Range) (m : MemoryMap t)
      → IsValid t m
      → Fits r
      → m.init_finished ≡ true
      → Returns (pkey_mprotect_region t r new_owner m) (λ result. Isolated pkey m result.1)
  pkey_mprotect-Isolated pkey new_owner r m v f done =
      Returns-map (pkey_mprotect_region t r new_owner m)
        (pkey_mprotect_region-Protected t m r new_owner v f)
        (λ result k. record {
          valid = k.valid;
          same_init = k.same_init;
          others = λ a s e z p.
              changed_owner _ (pkey_mprotected_state m.init_finished new_owner) _ (lookup t m a) s
                (k.states a) e (ground arith);
        })
