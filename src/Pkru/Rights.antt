-- ===== src/Pkru/Rights.antt =====
-- Which protection keys a PKRU value of a call gate gives access to.
use ia2_phase.Pkru.{pkru_value, mixed_pkru_value}
use ia2_phase.Base.{
  all_below, Bool, ℕ, same, ◌<◌, ◌/◌, ◌≡◌, ◌==◌, ◌^◌, ◌%◌, ◌||◌, true, refl, sym, all_below_sound,
  false,
}

-- The access-disable and write-disable bits of key `key` are both clear.
unfoldable pub grants : ℕ → ℕ → Bool
grants pkru key = pkru / 4 ^ key % 4 == 0

one_table :
    all_below 16 (λ k. all_below 16 (λ j. same (grants (pkru_value k) j) (j == 0 || j == k))) ≡ true
unfolding all_below grants pkru_value
one_table = refl

mixed_table :
    all_below 16 (λ a. all_below 16 (λ b.
      all_below 16 (λ j. same (grants (mixed_pkru_value a b) j) (j == 0 || j == a || j == b))))
    ≡ true
unfolding all_below grants mixed_pkru_value
mixed_table = refl

same→eq : (a b : Bool) → same a b ≡ true → a ≡ b
same→eq true b h = sym h
same→eq false true h = cc
same→eq false false h = refl

-- For keys below 16, the value for a compartment gives access to its key and to key 0, and to no other key.
pub grants-pkru_value : (k j : ℕ) → k < 16 → j < 16 → grants (pkru_value k) j ≡ (j == 0 || j == k)
grants-pkru_value k j hk hj =
    same→eq _ _ (all_below_sound 16 _ j (all_below_sound 16 _ k one_table hk) hj)

-- For keys below 16, the value for two compartments gives access to their keys and to key 0, and to no other key.
pub grants-mixed_pkru_value :
    (a b j : ℕ)
    → a < 16
    → b < 16
    → j < 16
    → grants (mixed_pkru_value a b) j ≡ (j == 0 || j == a || j == b)
grants-mixed_pkru_value a b j ha hb hj =
    same→eq _ _ (
      all_below_sound 16 _ j (all_below_sound 16 _ b (all_below_sound 16 _ a mixed_table ha) hb) hj)
