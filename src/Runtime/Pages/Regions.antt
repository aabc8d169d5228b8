-- ===== src/Runtime/Pages/Regions.antt =====
-- The regions of a segment that are protected are what the shared ranges leave of it.
use ia2_phase.Runtime.{AddressRange}
use ia2_phase.Runtime.Pages.{Protect, bound_step, bound_region, protect_segment}
use ia2_phase.Base.{
  ℕ, Bool, List, [], ◌∷◌, ◌+◌, ◌&&◌, ◌||◌, ◌≡◌, ◌<◌, ◌≤◌, true, false, ltb, leb, arith, refl, not,
  Returns, suc, Bool-cases, inr, inl, Returns-map, ◌-◌, Returns->>=, zero, All,
}

abbrev pub in_ranges : List AddressRange → ℕ → Bool
in_ranges [] a = false
in_ranges (r ∷ ranges) a = (leb r.start a && ltb a r.stop) || in_ranges ranges a

-- Some call protects the address.
abbrev pub is_protected : List Protect → ℕ → Bool
is_protected [] a = false
is_protected (c ∷ calls) a = (leb c.addr a && ltb a (c.addr + c.len)) || is_protected calls a

-- What one search for a region finds, from the bounds `b` on.
record IsBounded (ranges : List AddressRange) (b b' : ℕ × ℕ) : Type 0 where
  ahead : b.0 ≤ b'.0
  within_end : b'.1 ≤ b.1
  skipped : (a : ℕ) → b.0 ≤ a → a < b'.0 → in_ranges ranges a ≡ true
  unshared : (a : ℕ) → b'.0 ≤ a → a < b'.1 → in_ranges ranges a ≡ false
  moves : (lo : ℕ) → lo ≤ b.0 → lo < b.1 → lo < b'.1

bound_region-IsBounded :
    (ranges : List AddressRange) (b : ℕ × ℕ) → IsBounded ranges b (bound_region ranges b)
unfolding bound_region bound_step
bound_region-IsBounded [] b = record {
  ahead = omega arith;
  within_end = omega arith;
  skipped = λ a h k. absurd (omega arith);
  unshared = λ a h k. refl;
  moves = λ lo h k. k;
}
bound_region-IsBounded (r ∷ ranges) (s, e) =
    let b1 = bound_step r (s, e) in
    let ih = bound_region-IsBounded ranges b1 in
    record {
      ahead = ground (arith, ih.ahead);
      within_end = ground (arith, ih.within_end);
      skipped = λ a h k. ground (arith, ih.skipped a);
      unshared = λ a h k. ground (arith, ih.unshared a h k, ih.ahead, ih.within_end);
      moves = λ lo h k. ih.moves lo (ground arith) (ground arith);
    }

module _ (succeeds : Protect → Bool) (always : (c : Protect) → succeeds c ≡ true) where
  -- Exactly the addresses of the segment that are in no shared range are protected, with the tag.
  pub record IsCovered (ranges : List AddressRange) (tag start seg_end : ℕ) (calls : List Protect)
      : Type 0 where
    pub covered :
        (a : ℕ) → is_protected calls a ≡ (leb start a && ltb a seg_end && not (in_ranges ranges a))
    pub tagged : All (λ c. c.tag ≡ tag) calls

  pub protect_segment-IsCovered :
      (fuel : ℕ) (ranges : List AddressRange) (prot tag start seg_end : ℕ)
      → seg_end ≤ start + fuel
      → Returns
          (protect_segment succeeds fuel ranges prot tag start seg_end)
          (IsCovered ranges tag start seg_end)
  unfolding protect_segment
  protect_segment-IsCovered zero ranges prot tag start seg_end h = record {
    covered = λ a. ground arith;
    tagged = tt;
  }
  protect_segment-IsCovered (suc fuel) ranges prot tag start seg_end h =
      elim (Bool-cases (ltb start seg_end)) [
        | inr out ↦ rw (out, protect_segment) (record { covered = λ a. ground arith; tagged = tt })
        | inl more ↦
            let b = bound_region ranges (start, seg_end) in
            let k = bound_region-IsBounded ranges (start, seg_end) in
            let moved = k.moves start (omega arith) (ground arith) in
            rw (more, protect_segment)
              (elim (Bool-cases (ltb b.0 b.1)) [
                | inr skip ↦
                    rw (skip, protect_segment)
                      (Returns-map (protect_segment succeeds fuel ranges prot tag b.0 seg_end)
                        (protect_segment-IsCovered fuel ranges prot tag b.0 seg_end (ground arith))
                        (λ calls ih. record {
                          covered = λ a. ground (arith, ih.covered a, k.skipped a, k.ahead);
                          tagged = ih.tagged;
                        }))
                | inl found ↦
                    rw (found, protect_segment)
                      (rw (always (record { addr = b.0; len = b.1 - b.0; prot = prot; tag = tag }))
                        (Returns->>= _ (protect_segment succeeds fuel ranges prot tag b.1 seg_end) _
                          (protect_segment-IsCovered fuel ranges prot tag b.1 seg_end
                            (ground (arith, k.ahead)))
                          (λ calls ih. record {
                            covered = λ a. ground (
                              arith,
                              ih.covered a,
                              k.skipped a,
                              k.unshared a,
                              k.ahead,
                              k.within_end,
                            );
                            tagged = (refl, ih.tagged);
                          })))
              ])
      ]
