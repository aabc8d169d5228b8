-- ===== src/Runtime/Names.antt =====
-- runtime/libia2/ia2.c, in_extra_libraries: whether a list of names, with semicolons between them,
-- has the name of a library. A text is the list of its characters.
pub mod Entries
use ia2_phase.Base.{
  ℕ, Bool, List, Option, some, none, [], ◌∷◌, ◌==◌, if◌then◌else◌, true, false, zero, suc, length,
}

-- The comparison character by character: `none` where it returns true, else what is left of the
-- list at the first difference.
unfoldable pub compare_names : List ℕ → List ℕ → Option (List ℕ)
compare_names extra [] = none
compare_names [] (n ∷ name) = none
compare_names (e ∷ extra) (n ∷ name) =
    let rest = compare_names extra name in
    if e == n then rest else if e == 59 then none else some (e ∷ extra)

-- Behind the next semicolon.
unfoldable pub skip_entry : List ℕ → List ℕ
skip_entry [] = []
skip_entry (e ∷ extra) = if e == 59 then extra else skip_entry extra

-- `while (extra_libraries_pos < extra_libraries_len)`. Each pass takes a character at least.
unfoldable pub search_libraries : ℕ → List ℕ → List ℕ → Bool
unfolding compare_names skip_entry
search_libraries zero name extra = false
search_libraries (suc fuel) name [] = false
search_libraries (suc fuel) name (e ∷ extra) = elim (compare_names (e ∷ extra) name) [
  | none ↦ true
  | some rest ↦ search_libraries fuel name (skip_entry rest)
]

unfoldable pub in_extra_libraries : List ℕ → Option (List ℕ) → Bool
unfolding search_libraries
in_extra_libraries name none = false
in_extra_libraries [] (some extra) = false
in_extra_libraries (n ∷ name) (some extra) = search_libraries (length extra) (n ∷ name) extra
