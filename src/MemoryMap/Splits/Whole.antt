-- ===== src/MemoryMap/Splits/Whole.antt =====
-- `split_out_region` as a whole, on a map that is well formed.
use ia2_phase.MemoryMap.{
  IntervalTree, Interval, Range, RegionState, range_end, round_to_4k, keep, overlaps,
}
use ia2_phase.MemoryMap.Operations.{MemoryMap, split_out_region, overlapping, split_out_pages}
use ia2_phase.MemoryMap.Views.{
  IsSorted, state_at, within, keep-IsSorted, keep-All, state_at-keep, state_at-skip, or_else,
}
use ia2_phase.MemoryMap.Inserts.{IsPage}
use ia2_phase.MemoryMap.Splits.Removal.{remove_all-keep}
use ia2_phase.MemoryMap.Splits.Rests.{insert_rests_states}
use ia2_phase.MemoryMap.Splits.Clips.{clip_states}
use ia2_phase.Base.{
  ℕ, List, Option, none, some, ◌<◌, ◌≡◌, ◌+◌, ◌*◌, ◌/◌, arith, refl, if◌then◌else◌, Returns, Bool,
  true, Returns-map, ◌∙◌, subst, sym, false,
}

-- A range that is not empty and does not wrap, and the pages that it touches.
abbrev pub Fits : Range → Type 0
Fits r = (0 < r.len) × (r.start + r.len + 4095 < 18446744073709551616)

abbrev pub page_start : Range → ℕ
page_start r = r.start / 4096 * 4096

abbrev pub page_end : Range → ℕ
page_end r = (r.start + r.len + 4095) / 4096 * 4096

abbrev pub in_pages : Range → ℕ → Bool
in_pages r a = within (page_start r) (page_end r) a

pub round_to_4k_lem :
    (r : Range)
    → Fits r
    → ((round_to_4k r).start ≡ page_start r)
      × (range_end (round_to_4k r) ≡ page_end r)
      × (page_start r < page_end r)
      × IsPage (page_start r)
      × IsPage (page_end r)
unfolding round_to_4k range_end
round_to_4k_lem r f = (refl, omega arith, omega arith, omega arith, omega arith)

put_back :
    (b : Bool) (after over rest whole : Option RegionState)
    → after ≡ or_else (if b then none else over) rest
    → whole ≡ or_else over rest
    → (b ≡ true → rest ≡ none)
    → after ≡ (if b then none else whole)
put_back true after over rest whole e f g = e ∙ g refl
put_back false after over rest whole e f g = e ∙ sym f

taken_out :
    (b : Bool) (part over rest whole : Option RegionState)
    → part ≡ (if b then over else none)
    → whole ≡ or_else over rest
    → (b ≡ true → rest ≡ none)
    → part ≡ (if b then whole else none)
taken_out true part none rest whole e f g = e ∙ sym (f ∙ g refl)
taken_out true part (some s) rest whole e f g = e ∙ sym f
taken_out false part over rest whole e f g = e

module _ (t : IntervalTree) where
  -- The state that the map has for an address.
  abbrev pub lookup : MemoryMap t → ℕ → Option RegionState
  lookup m a = state_at (t.iter m.regions) a

  abbrev pub IsValid : MemoryMap t → Type 0
  IsValid m = IsSorted 0 (t.iter m.regions)

  -- The addresses leave the map, and the parts hold what they had.
  pub record Split (m : MemoryMap t) (lo hi : ℕ) (after : MemoryMap t) (parts : List Interval)
      : Type 0 where
    pub valid : IsValid after
    pub same_init : after.init_finished ≡ m.init_finished
    pub left : (a : ℕ) → lookup after a ≡ (if within lo hi a then none else lookup m a)
    pub sorted : IsSorted 0 parts
    pub taken : (a : ℕ) → state_at parts a ≡ (if within lo hi a then lookup m a else none)

  split_out_pages-Split :
      (m : MemoryMap t) (sub : Range)
      → IsValid m
      → sub.start < range_end sub
      → IsPage sub.start
      → IsPage (range_end sub)
      → Returns (split_out_pages t sub m) (λ s. Split m sub.start (range_end sub) s.0 s.1)
  unfolding split_out_pages overlapping
  split_out_pages-Split m sub v n p q =
      let xs = t.iter m.regions in
      let lo = sub.start in
      let hi = range_end sub in
      let over = keep (overlaps lo hi) xs in
      let so = keep-IsSorted (overlaps lo hi) 0 xs v in
      let e : t.range m.regions lo hi ≡ over = t.range-overlaps m.regions lo hi n in
      let (u, e1, i1) = remove_all-keep t (overlaps lo hi) m.regions v in
      let su : IsSorted 0 (t.iter u) = rw i1 (keep-IsSorted _ 0 xs v) in
      let all = keep-All (overlaps lo hi) xs in
      let (w, e2, sw, st) =
        insert_rests_states t sub over 0 u su so n p q all
          (λ a. rw i1 (state_at-keep (overlaps lo hi) 0 xs a v).1) in
      let (ys, e3, sy, ty) = clip_states lo hi 0 over n p q so all in
      let gone : (a : ℕ) → within lo hi a ≡ true → state_at (t.iter u) a ≡ none =
        λ a h. rw i1 (state_at-skip lo hi xs a h) in
      let both : (a : ℕ) → state_at xs a ≡ or_else (state_at over a) (state_at (t.iter u) a) =
        λ a. rw i1 (state_at-keep (overlaps lo hi) 0 xs a v).0 in
      rw (e, e1, e2, e3)
        (record {
          valid = sw;
          same_init = refl;
          left = λ a.
              put_back (within lo hi a) _ (state_at over a) (state_at (t.iter u) a) _ (st a)
                (both a) (gone a);
          sorted = sy;
          taken = λ a.
              taken_out (within lo hi a) _ (state_at over a) (state_at (t.iter u) a) _ (ty a)
                (both a) (gone a);
        })

  pub split_out_region-Split :
      (m : MemoryMap t) (r : Range)
      → IsValid m
      → Fits r
      → Returns (split_out_region t r m) (λ s. Split m (page_start r) (page_end r) s.0 s.1)
  unfolding split_out_region
  split_out_region-Split m r v f =
      let (es, ee, n, p, q) = round_to_4k_lem r f in
      Returns-map (split_out_pages t (round_to_4k r) m)
        (split_out_pages-Split m (round_to_4k r) v (omega arith) (rw es p) (rw ee q))
        (λ s k. subst (λ hi. Split m (page_start r) hi s.0 s.1) ee k)
