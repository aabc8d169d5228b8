-- ===== src/Base/Fallible.antt =====
-- Code that may stop: `none` is a failed `assert`, a `report_fatal_error` or an index out of range.
use mathlib.Core.Path.{◌≡◌, refl, subst}
use mathlib.Core.Logic.{◌⊎◌, inl, inr, ◌≢◌}
use mathlib.Core.Bool.{Bool, true, false}
use mathlib.Core.Option.{Option, none, some, some-injective}
use mathlib.Core.List.{List, [], ◌∷◌}
use ia2_phase.Base.Lists.{All}

infixl 5 ◌>>=◌ ◌>>◌
abbrev pub ◌>>=◌ {ℓ κ} : {A : Type ℓ} {B : Type κ} → Option A → (A → Option B) → Option B
none >>= f = none
some a >>= f = f a

abbrev pub ◌>>◌ {ℓ} : {B : Type ℓ} → Option (Unit {0}) → Option B → Option B
m >> k = m >>= λ _. k

abbrev pub assert : Bool → Option (Unit {0})
assert true = some tt
assert false = none

pub Option-cases {ℓ} : {A : Type ℓ} (o : Option A) → (o ≡ none) ⊎ ((a : A) × (o ≡ some a))
Option-cases none = inl refl
Option-cases (some a) = inr (a, refl)

pub >>=-eq-some {ℓ κ} :
    {A : Type ℓ} {B : Type κ} (m : Option A) (f : A → Option B) {b : B}
    → (m >>= f) ≡ some b
    → (a : A) × (m ≡ some a) × (f a ≡ some b)
>>=-eq-some none f h = cc
>>=-eq-some (some a) f h = (a, refl, h)

-- A loop over a list that may stop.
unfoldable pub fold_m {ℓ κ} : {A : Type ℓ} {S : Type κ} → (S → A → Option S) → S → List A → Option S
fold_m f s [] = some s
fold_m f s (x ∷ xs) = f s x >>= λ t. fold_m f t xs

-- The loop goes through if every element passes.
pub fold_m-ne-none {ℓ κ μ} :
    {A : Type ℓ} {S : Type κ} (P : A → Type μ) (f : S → A → Option S)
    → ((s : S) (a : A) → P a → f s a ≢ none)
    → (s : S) (xs : List A) → All P xs
    → fold_m f s xs ≢ none
unfolding fold_m
fold_m-ne-none P f pass s [] h = λ e. cc
fold_m-ne-none P f pass s (x ∷ xs) h = elim (Option-cases (f s x)) [
  | inl e ↦ absurd (pass s x h.0 e)
  | inr (t, e) ↦ rw e (fold_m-ne-none P f pass t xs h.1)
]

-- An invariant over the state and the elements still to come.
pub fold_m_inv {ℓ κ μ} :
    {A : Type ℓ} {S : Type κ} (P : S → List A → Type μ) (f : S → A → Option S)
    → ((s : S) (a : A) (xs : List A) (t : S) → P s (a ∷ xs) → f s a ≡ some t → P t xs)
    → (s : S) (xs : List A) (t : S) → P s xs
    → fold_m f s xs ≡ some t
    → P t []
unfolding fold_m
fold_m_inv P f keep s [] t h e = subst (λ u. P u []) (some-injective s t e) h
fold_m_inv P f keep s (x ∷ xs) t h e =
    let (u, e', rest) = >>=-eq-some (f s x) (λ u. fold_m f u xs) e in
    fold_m_inv P f keep u xs t (keep s x xs u h e') rest

-- Total correctness: the code returns, and what it returns satisfies `P`.
abbrev pub Returns {ℓ} : {A : Type ℓ} → Option A → (A → Type 0) → Type 0
Returns none P = ⊥
Returns (some a) P = P a

pub returns {ℓ} :
    {A : Type ℓ} {P : A → Type 0} (o : Option A)
    → o ≢ none
    → ((a : A) → o ≡ some a → P a)
    → Returns o P
returns none h p = absurd (h refl)
returns (some a) h p = p a refl

pub Returns-map {ℓ} :
    {A : Type ℓ} {P Q : A → Type 0} (o : Option A)
    → Returns o P
    → ((a : A) → P a → Q a)
    → Returns o Q
Returns-map none h f = h
Returns-map (some a) h f = f a h

pub Returns->>= {ℓ κ} :
    {A : Type ℓ} {B : Type κ} {P : A → Type 0} (Q : B → Type 0) (o : Option A) (f : A → Option B)
    → Returns o P
    → ((a : A) → P a → Returns (f a) Q)
    → Returns (o >>= f) Q
Returns->>= Q none f h g = h
Returns->>= Q (some a) f h g = g a h

-- Both at once: every step returns and keeps the invariant, so the loop does.
pub fold_m-Returns {ℓ κ} :
    {A : Type ℓ} {S : Type κ} (P : S → List A → Type 0) (f : S → A → Option S)
    → ((s : S) (a : A) (xs : List A) → P s (a ∷ xs) → Returns (f s a) (λ t. P t xs))
    → (s : S) (xs : List A) → P s xs
    → Returns (fold_m f s xs) (λ t. P t [])
unfolding fold_m
fold_m-Returns P f keep s [] h = h
fold_m-Returns P f keep s (x ∷ xs) h =
    Returns->>= _ (f s x) _ (keep s x xs h) (λ t k. fold_m-Returns P f keep t xs k)

-- The value that was returned.
pub from_returns {ℓ} :
    {A : Type ℓ} {P : A → Type 0} (o : Option A) → Returns o P → (a : A) × (o ≡ some a) × P a
from_returns none h = absurd h
from_returns (some a) h = (a, refl, h)
