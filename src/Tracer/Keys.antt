-- ===== src/Tracer/Keys.antt =====
-- runtime/tracer/track_memory_map.c: pkey_for_pkru, the compartment that a PKRU value stands for,
-- and the values that the gates set.
use ia2_phase.Pkru.{pkru_value, mixed_pkru_value}
use ia2_phase.Base.{
  ℕ, List, [], ◌∷◌, ◌==◌, if◌then◌else◌, ◌<◌, ◌≡◌, ◌-◌, ◌*◌, ◌^◌, u32, bit_or, all_below,
  all_below_sound, refl, ==_iff, true, arith, ◌≢◌, Bool-cases, ◌||◌, inl, ◌∙◌, ap, inr, ◌↔◌,
}

abbrev pub pkey_invalid : ℕ
pkey_invalid = 255

-- `PKRU(pkey)`.
unfoldable pub pkru_of : ℕ → ℕ
pkru_of pkey = 4294967295 - bit_or (u32 (3 * 2 ^ (2 * pkey))) 3

-- The cases `PKRU(x)` from `x` on.
unfoldable pub find_pkey : List ℕ → ℕ → ℕ
unfolding pkru_of
find_pkey [] pkru =
    if pkru == 0x55555550
    then 0
    else if pkru == 0x55555554
    then 0
    else if pkru == 0
    then 0
    else pkey_invalid
find_pkey (k ∷ ks) pkru = if pkru == pkru_of k then k else find_pkey ks pkru

unfoldable pub pkey_for_pkru : ℕ → ℕ
unfolding find_pkey
pkey_for_pkru pkru =
    find_pkey (0 ∷ 1 ∷ 2 ∷ 3 ∷ 4 ∷ 5 ∷ 6 ∷ 7 ∷ 8 ∷ 9 ∷ 10 ∷ 11 ∷ 12 ∷ 13 ∷ 14 ∷ 15 ∷ []) pkru

gates_table : all_below 16 (λ k. pkey_for_pkru (pkru_value k) == k) ≡ true
unfolding all_below pkey_for_pkru pkru_value
gates_table = refl

pkey_for_pkru-pkru_value : (k : ℕ) → k < 16 → pkey_for_pkru (pkru_value k) ≡ k
pkey_for_pkru-pkru_value k h = (==_iff _ k).0 (all_below_sound 16 _ k gates_table h)

find_pkey-exact :
    (ks : List ℕ) (pkru k : ℕ) → 0 < k → k < 16 → find_pkey ks pkru ≡ k → pkru ≡ pkru_of k
unfolding find_pkey
find_pkey-exact [] pkru k h l e = absurd (ground arith)
find_pkey-exact (j ∷ ks) pkru k h l e = elim (Bool-cases (pkru == pkru_of j)) [
  | inl i ↦
      let same_key : j ≡ k = ground arith in (==_iff pkru (pkru_of j)).0 i ∙ ap pkru_of same_key
  | inr i ↦ find_pkey-exact ks pkru k h l (ground arith)
]

-- For a compartment from 1 to 15, the tracer reads a PKRU value as that compartment exactly if it is
-- the value that a call gate sets for it.
pub pkey_for_pkru_iff :
    (pkru k : ℕ) → 0 < k → k < 16 → (pkey_for_pkru pkru ≡ k) ↔ (pkru ≡ pkru_value k)
unfolding pkey_for_pkru pkru_of pkru_value
pkey_for_pkru_iff pkru k h l = (
  find_pkey-exact (0 ∷ 1 ∷ 2 ∷ 3 ∷ 4 ∷ 5 ∷ 6 ∷ 7 ∷ 8 ∷ 9 ∷ 10 ∷ 11 ∷ 12 ∷ 13 ∷ 14 ∷ 15 ∷ []) pkru k
      h l,
  λ e. ap pkey_for_pkru e ∙ pkey_for_pkru-pkru_value k l,
)

mixed_table :
    all_below 16 (λ a.
      all_below 16
        (λ b. a == 0 || b == 0 || a == b || pkey_for_pkru (mixed_pkru_value a b) == pkey_invalid))
    ≡ true
unfolding all_below pkey_for_pkru mixed_pkru_value
mixed_table = refl

-- Between two different compartments from 1 to 15, the rights that a gate holds while it copies
-- arguments are those of no compartment: the tracer reads them as invalid.
pub pkey_for_pkru-mixed :
    (a b : ℕ)
    → 0 < a
    → a < 16
    → 0 < b
    → b < 16
    → a ≢ b
    → pkey_for_pkru (mixed_pkru_value a b) ≡ pkey_invalid
pkey_for_pkru-mixed a b ha la hb lb ne =
    let row = all_below_sound 16 _ b (all_below_sound 16 _ a mixed_table la) lb in
    let v = pkey_for_pkru (mixed_pkru_value a b) in (==_iff v 255).0 (ground arith)
