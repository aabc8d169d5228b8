-- ===== src/Runtime/Names/Entries.antt =====
-- in_extra_libraries finds a name exactly if it and an entry of the list agree as far as both go.
use ia2_phase.Runtime.Names.{compare_names, skip_entry, search_libraries, in_extra_libraries}
use ia2_phase.Base.{
  ℕ, List, some, none, [], ◌∷◌, ◌==◌, ◌≡◌, ◌≢◌, ◌≤◌, ◌⊎◌, ◌↔◌, if◌then◌else◌, true, false, zero,
  suc, length, All, arith, refl, Bool-cases, inl, inr, sym, subst,
}

unfoldable pub first_entry : List ℕ → List ℕ
first_entry [] = []
first_entry (e ∷ extra) = if e == 59 then [] else e ∷ first_entry extra

-- The entries of a list; there is none behind a semicolon at the end.
pub data IsEntry (entry : List ℕ) : List ℕ → Type 0 where
  here : {extra : List ℕ} → extra ≢ [] → first_entry extra ≡ entry → IsEntry entry extra
  later : {extra : List ℕ} → IsEntry entry (skip_entry extra) → IsEntry entry extra

-- One is a prefix of the other.
abbrev pub Agree : List ℕ → List ℕ → Type 0
Agree [] ys = Unit
Agree (x ∷ xs) [] = Unit
Agree (x ∷ xs) (y ∷ ys) = (x ≡ y) × Agree xs ys

Agree-nil : (xs : List ℕ) → Agree xs []
Agree-nil [] = tt
Agree-nil (x ∷ xs) = tt

compare_names-cases :
    (extra name : List ℕ)
    → All (λ c. c ≢ 59) name
    → ((compare_names extra name ≡ none) × Agree (first_entry extra) name)
      ⊎ ((rest : List ℕ) × (compare_names extra name ≡ some rest)
          × (skip_entry rest ≡ skip_entry extra)
          × (Agree (first_entry extra) name → ⊥))
unfolding compare_names skip_entry first_entry
compare_names-cases extra [] h = inl (refl, Agree-nil (first_entry extra))
compare_names-cases [] (n ∷ name) h = inl (refl, tt)
compare_names-cases (e ∷ extra) (n ∷ name) h = elim (Bool-cases (e == n)) [
  | inl same ↦
      let apart : (e == 59) ≡ false = ground (arith, h.0) in
      rw same (
        rw apart (elim (compare_names-cases extra name h.1) [
          | inl (found, agree) ↦ inl (found, (ground arith, agree))
          | inr (rest, f, s, bad) ↦ inr (rest, f, s, λ k. bad k.1)
        ]))
  | inr other ↦ rw other (elim (Bool-cases (e == 59)) [
    | inl semi ↦ rw semi (inl (refl, tt))
    | inr apart ↦ rw apart (inr (e ∷ extra, refl, rw apart refl, λ k. ground (arith, k.0)))
  ])
]

length-skip_entry : (extra : List ℕ) → length (skip_entry extra) ≤ length extra
unfolding skip_entry
length-skip_entry [] = omega arith
length-skip_entry (e ∷ extra) = ground (arith, length-skip_entry extra)

length-skip_entry_cons : (e : ℕ) (extra : List ℕ) → length (skip_entry (e ∷ extra)) ≤ length extra
unfolding skip_entry
length-skip_entry_cons e extra = ground (arith, length-skip_entry extra)

abbrev Found : List ℕ → List ℕ → Type 0
Found name extra = (entry : List ℕ) × IsEntry entry extra × Agree entry name

no_entry : (entry extra : List ℕ) → IsEntry entry extra → extra ≡ [] → ⊥
unfolding skip_entry
no_entry entry extra (here n e) z = n z
no_entry entry extra (later k) z = no_entry entry (skip_entry extra) k (rw z refl)

-- Not the first entry, so one behind it.
behind :
    (name extra : List ℕ)
    → (Agree (first_entry extra) name → ⊥)
    → Found name extra
    → Found name (skip_entry extra)
behind name extra bad (entry, here n e, agree) =
    absurd (bad (subst (λ x. Agree x name) (sym e) agree))
behind name extra bad (entry, later k, agree) = (entry, k, agree)

search_libraries_iff :
    (fuel : ℕ) (name extra : List ℕ)
    → All (λ c. c ≢ 59) name
    → length extra ≤ fuel
    → (search_libraries fuel name extra ≡ true) ↔ Found name extra
unfolding search_libraries
search_libraries_iff zero name [] h l =
    ((λ e. cc), (λ (entry, k, agree). absurd (no_entry entry [] k refl)))
search_libraries_iff (suc fuel) name [] h l =
    ((λ e. cc), (λ (entry, k, agree). absurd (no_entry entry [] k refl)))
search_libraries_iff zero name (e ∷ extra) h l = absurd (omega arith)
search_libraries_iff (suc fuel) name (e ∷ extra) h l =
    elim (compare_names-cases (e ∷ extra) name h) [
      | inl (found, agree) ↦
          rw (found, search_libraries)
            ((λ _. (first_entry (e ∷ extra), IsEntry.here (λ z. cc) refl, agree)), (λ _. refl))
      | inr (rest, f, s, bad) ↦
          let ih = search_libraries_iff fuel name (skip_entry rest) h (
            subst (λ x. length x ≤ fuel) (sym s) (omega (arith, length-skip_entry_cons e extra))) in
          rw (f, search_libraries)
            (
              (λ k.
                  let (entry, at, agree) = ih.0 k in
                  (entry, IsEntry.later (subst (IsEntry entry) s at), agree)),
              (λ k. ih.1 (subst (Found name) (sym s) (behind name (e ∷ extra) bad k))),
            )
    ]

-- A name that is not empty and has no semicolon is found in a list exactly if it and some entry
-- (there is none behind a semicolon at the end) agree as far as both go: the entry is a prefix of
-- the name, or the name one of the entry.
pub in_extra_libraries_iff :
    (n : ℕ) (name extra : List ℕ)
    → All (λ c. c ≢ 59) (n ∷ name)
    → (in_extra_libraries (n ∷ name) (some extra) ≡ true)
      ↔ ((entry : List ℕ) × IsEntry entry extra × Agree entry (n ∷ name))
unfolding in_extra_libraries
in_extra_libraries_iff n name extra h =
    search_libraries_iff (length extra) (n ∷ name) extra h (omega arith)
