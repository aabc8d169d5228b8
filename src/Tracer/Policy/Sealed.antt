-- ===== src/Tracer/Policy/Sealed.antt =====
-- Memory that was protected from writes stays so.
use ia2_phase.MemoryMap.{IntervalTree, Interval, RegionState, Range}
use ia2_phase.MemoryMap.Operations.{
  MemoryMap, same_value, region_get_prot, overlapping, all_overlapping_regions_mprotected,
}
use ia2_phase.MemoryMap.Views.{state_at, within}
use ia2_phase.MemoryMap.Splits.Whole.{Fits, IsValid, lookup, in_pages, page_start, page_end}
use ia2_phase.MemoryMap.Checks.{overlapping-keep, state_at-inside, all_overlapping_regions_iff}
use ia2_phase.Tracer.{MprotectInfo, has_flag, prot_write, prot_indeterminate}
use ia2_phase.Tracer.Policy.{mprotect_permitted, prot_allows}
use ia2_phase.Base.{
  ℕ, Bool, List, Option, some, none, [], ◌∷◌, ◌==◌, ◌≡◌, ◌≢◌, true, false, not, arith, refl, sym,
  ap, ◌∙◌, Bool-cases, inl, inr, if◌then◌else◌, same, some-injective, ==_iff,
}
use mathlib.Core.Option

-- All regions agree with the first value.
agreed :
    (f : RegionState → ℕ) (v : ℕ) (xs : List Interval) (w : Option ℕ)
    → same_value f (some v) xs ≡ (true, w)
    → w ≡ some v
unfolding same_value
agreed f v [] w e = cc
agreed f v (x ∷ xs) w e = elim (Bool-cases (v == f x.state)) [
  | inl i ↦ agreed f v xs w (ground arith)
  | inr i ↦ absurd (ground arith)
]

agrees :
    (f : RegionState → ℕ) (v : ℕ) (xs : List Interval) (w : Option ℕ) (a : ℕ) (s : RegionState)
    → same_value f (some v) xs ≡ (true, w)
    → state_at xs a ≡ some s
    → f s ≡ v
unfolding same_value state_at
agrees f v [] w a s e h = cc
agrees f v (x ∷ xs) w a s e h = elim (Bool-cases (v == f x.state)) [
  | inl i ↦
      let rest : same_value f (some v) xs ≡ (true, w) = ground arith in
      elim (Bool-cases (within x.start x.stop a)) [
        | inl k ↦
            let here : x.state ≡ s = ground arith in
            sym (ap f here) ∙ sym ((==_iff v (f x.state)).0 i)
        | inr k ↦ agrees f v xs w a s rest (ground arith)
      ]
  | inr i ↦ absurd (ground arith)
]

all_agree :
    (f : RegionState → ℕ) (v : ℕ) (xs : List Interval) (a : ℕ) (s : RegionState)
    → same_value f none xs ≡ (true, some v)
    → state_at xs a ≡ some s
    → f s ≡ v
unfolding same_value state_at
all_agree f v [] a s e h = cc
all_agree f v (x ∷ xs) a s e h =
    let first : f x.state ≡ v = some-injective _ _ (sym (agreed f (f x.state) xs (some v) e)) in
    elim (Bool-cases (within x.start x.stop a)) [
      | inl k ↦ let here : x.state ≡ s = ground arith in sym (ap f here) ∙ first
      | inr k ↦ agrees f (f x.state) xs (some v) a s e (ground arith) ∙ first
    ]

one_prot :
    (xs : List Interval) (scan : Bool × Option ℕ) (p a : ℕ) (s : RegionState)
    → same_value (λ s. s.prot) none xs ≡ scan
    → (if scan.0 then scan.1 else some 4294967295) ≡ some p
    → (p == prot_indeterminate) ≡ false
    → state_at xs a ≡ some s
    → s.prot ≡ p
one_prot xs (true, w) p a s e h k at =
    all_agree (λ s. s.prot) p xs a s (e ∙ ap (λ z. (true, z)) h) at
one_prot xs (false, w) p a s e h k at = absurd (ground arith)

by_protection :
    (unprotected finished : Bool) (found : Option ℕ) (g : ℕ → Bool)
    → (if unprotected then some true else if not finished then some true else Option.map g found)
      ≡ some true
    → unprotected ≡ false
    → finished ≡ true
    → (p : ℕ) × (found ≡ some p) × (g p ≡ true)
by_protection true finished found g h u f = cc
by_protection false false found g h u f = cc
by_protection false true none g h u f = cc
by_protection false true (some p) g h u f = (p, refl, some-injective _ _ h)

only_same :
    (wanted p : ℕ)
    → prot_allows wanted p ≡ true
    → wanted ≢ prot_indeterminate
    → ((p == prot_indeterminate) ≡ false → has_flag p prot_write ≡ false)
    → p ≡ wanted
unfolding prot_allows
only_same wanted p h known ro = elim (Bool-cases (p == prot_indeterminate)) [
  | inl i ↦ absurd (ground arith)
  | inr i ↦ let r = ro i in ground arith
]

module _ (t : IntervalTree) where
  -- The protection that was found is the protection of every mapped address of the range.
  pub region_get_prot-agrees :
      (m : MemoryMap t) (r : Range) (p a : ℕ) (s : RegionState)
      → IsValid t m
      → Fits r
      → region_get_prot t m r ≡ some p
      → (p == prot_indeterminate) ≡ false
      → in_pages r a ≡ true
      → lookup t m a ≡ some s
      → s.prot ≡ p
  unfolding region_get_prot
  region_get_prot-agrees m r p a s v f e k i h =
      let xs = t.iter m.regions in
      let o = overlapping-keep t m r v f in
      one_prot (overlapping t m r) _ p a s refl e k
        (ap (λ l. state_at l a) o ∙ sym (state_at-inside (page_start r) (page_end r) xs a v i) ∙ h)

  -- After initialization, an mprotect that the policy permits gives an address that was mprotected
  -- before and is not writable the protection it has. The map is valid, the range is not empty and
  -- does not wrap, and the protection asked for is not 0xFFFFFFFF.
  pub mprotect_permitted-sealed :
      (m : MemoryMap t) (info : MprotectInfo) (a : ℕ) (s : RegionState)
      → IsValid t m
      → m.init_finished ≡ true
      → Fits info.range
      → info.prot ≢ prot_indeterminate
      → mprotect_permitted t m info ≡ some true
      → in_pages info.range a ≡ true
      → lookup t m a ≡ some s
      → s.mprotected ≡ true
      → has_flag s.prot prot_write ≡ false
      → s.prot ≡ info.prot
  unfolding mprotect_permitted all_overlapping_regions_mprotected
  mprotect_permitted-sealed m info a s v done f known ok i h sealed ro =
      let q = λ (z : RegionState). same false z.mprotected in
      elim (Bool-cases (all_overlapping_regions_mprotected t m info.range false)) [
        | inl e ↦
            let none_sealed = (all_overlapping_regions_iff t m info.range q v f).0 e a s i h in
            absurd (ground arith)
        | inr e ↦
            let (p, found, allowed) =
              by_protection _ m.init_finished (region_get_prot t m info.range)
                (prot_allows info.prot) ok e done in
            let agrees : (p == prot_indeterminate) ≡ false → s.prot ≡ p =
              λ k. region_get_prot-agrees m info.range p a s v f found k i h in
            let same_prot =
              only_same info.prot p allowed known
                (λ k. sym (ap (λ z. has_flag z prot_write) (agrees k)) ∙ ro) in
            let k : (p == prot_indeterminate) ≡ false = ground arith in agrees k ∙ same_prot
      ]
