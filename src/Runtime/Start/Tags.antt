-- ===== src/Runtime/Start/Tags.antt =====
-- The key that an address has after a sequence of calls of ia2_mprotect_with_tag.
use ia2_phase.Runtime.Pages.{Protect}
use ia2_phase.Runtime.Pages.Regions.{is_protected}
use ia2_phase.Base.{
  ℕ, Bool, List, Option, some, [], ◌∷◌, ◌++◌, ◌&&◌, ◌+◌, ◌≡◌, if◌then◌else◌, true, false, leb, ltb,
  arith, refl, Bool-cases, inl, inr,
}

abbrev pub covers : Protect → ℕ → Bool
covers c a = leb c.addr a && ltb a (c.addr + c.len)

-- The key that the last call for the address gave it; `key` where no call is for it.
abbrev pub final_tag : List Protect → Option ℕ → ℕ → Option ℕ
final_tag [] key a = key
final_tag (c ∷ calls) key a = final_tag calls (if covers c a then some c.tag else key) a

pub final_tag-append :
    (calls more : List Protect) (key : Option ℕ) (a : ℕ)
    → final_tag (calls ++ more) key a ≡ final_tag more (final_tag calls key a) a
final_tag-append [] more key a = refl
final_tag-append (c ∷ calls) more key a =
    final_tag-append calls more (if covers c a then some c.tag else key) a

pub final_tag-untouched :
    (calls : List Protect) (key : Option ℕ) (a : ℕ)
    → is_protected calls a ≡ false
    → final_tag calls key a ≡ key
final_tag-untouched [] key a h = refl
final_tag-untouched (c ∷ calls) key a h = elim (Bool-cases (covers c a)) [
  | inl k ↦ let no : true ≡ false = ground arith in cc
  | inr k ↦ rw k (final_tag-untouched calls key a (ground arith))
]
