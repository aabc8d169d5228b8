-- ===== src/Tracer/Processes/Removal.antt =====
-- A removal that moves the last element into the gap keeps what is in the list.
use ia2_phase.Tracer.Processes.{MapForProcess, swap_last, last, but_last, remove_pid, has_pid}
use ia2_phase.Base.{
  ℕ, List, some, [], ◌∷◌, ◌++◌, ◌==◌, ◌+◌, ◌<◌, ◌≡◌, if◌then◌else◌, true, false, arith, refl, All,
  Bool-cases, inl, inr, ◌∙◌, ◌⊎◌, sym, ap, Option-cases, subst,
}

abbrev pub total {ℓ} : {A : Type ℓ} → (A → ℕ) → List A → ℕ
total f [] = 0
total f (x ∷ xs) = f x + total f xs

-- How often a process is in a list, and in the lists of all maps.
abbrev pub occurrences : ℕ → List ℕ → ℕ
occurrences a ps = total (λ p. if p == a then 1 else 0) ps

abbrev pub thread_count {ℓ} : {A : Type ℓ} → ℕ → List (MapForProcess A) → ℕ
thread_count a ms = total (λ m. occurrences a m.pids) ms

pub total-append {ℓ} :
    {A : Type ℓ} (f : A → ℕ) (xs ys : List A) → total f (xs ++ ys) ≡ total f xs + total f ys
total-append f [] ys = omega arith
total-append f (x ∷ xs) ys = omega (arith, total-append f xs ys)

last-total {ℓ} :
    {A : Type ℓ} (f : A → ℕ) (y : A) (ys : List A)
    → f (last y ys) + total f (but_last y ys) ≡ f y + total f ys
unfolding last but_last
last-total f y [] = refl
last-total f y (z ∷ zs) = omega (arith, last-total f z zs)

pub total-swap_last {ℓ} :
    {A : Type ℓ} (f : A → ℕ) (ys : List A) → total f (swap_last ys) ≡ total f ys
unfolding swap_last
total-swap_last f [] = refl
total-swap_last f (y ∷ ys) = last-total f y ys

last-All {ℓ} :
    {A : Type ℓ} (P : A → Type 0) (y : A) (ys : List A)
    → All P (y ∷ ys)
    → P (last y ys) × All P (but_last y ys)
unfolding last but_last
last-All P y [] h = (h.0, tt)
last-All P y (z ∷ zs) h = let (a, b) = last-All P z zs h.1 in (a, (h.0, b))

pub All-swap_last {ℓ} :
    {A : Type ℓ} (P : A → Type 0) (ys : List A) → All P ys → All P (swap_last ys)
unfolding swap_last
All-swap_last P [] h = tt
All-swap_last P (y ∷ ys) h = last-All P y ys h

-- Exactly one occurrence goes.
pub remove_pid-occurrences :
    (pid a : ℕ) (ps qs : List ℕ)
    → remove_pid pid ps ≡ some qs
    → occurrences a ps ≡ occurrences a qs + (if pid == a then 1 else 0)
unfolding remove_pid
remove_pid-occurrences pid a [] qs e = cc
remove_pid-occurrences pid a (p ∷ ps) qs e = elim (Bool-cases (p == pid)) [
  | inl i ↦
      let found : swap_last ps ≡ qs = ground arith in
      let same : occurrences a (swap_last ps) ≡ occurrences a ps = total-swap_last _ ps in
      let here : p ≡ pid = ground arith in
      let n : occurrences a ps ≡ occurrences a qs = sym same ∙ ap (occurrences a) found in
      rw (here, n) (omega arith)
  | inr i ↦ elim (Option-cases (remove_pid pid ps)) [
    | inl none_left ↦ absurd (ground arith)
    | inr (rs, k) ↦
        let found : p ∷ rs ≡ qs = ground arith in
        subst (λ z. occurrences a (p ∷ ps) ≡ occurrences a z + (if pid == a then 1 else 0)) found
          (omega (arith, remove_pid-occurrences pid a ps rs k))
  ]
]

pub remove_pid-found :
    (pid : ℕ) (ps : List ℕ) → 0 < occurrences pid ps → (qs : List ℕ) × (remove_pid pid ps ≡ some qs)
unfolding remove_pid
remove_pid-found pid [] h = absurd (omega arith)
remove_pid-found pid (p ∷ ps) h = elim (Bool-cases (p == pid)) [
  | inl i ↦ (swap_last ps, rw i refl)
  | inr i ↦ let (qs, e) = remove_pid-found pid ps (ground arith) in (p ∷ qs, rw i (rw e refl))
]

pub has_pid-occurrences :
    (pid : ℕ) (ps : List ℕ)
    → ((has_pid pid ps ≡ true) × (0 < occurrences pid ps))
      ⊎ ((has_pid pid ps ≡ false) × (occurrences pid ps ≡ 0))
unfolding has_pid
has_pid-occurrences pid [] = inr (refl, refl)
has_pid-occurrences pid (p ∷ ps) = elim (Bool-cases (p == pid)) [
  | inl i ↦ rw i (inl (refl, omega arith))
  | inr i ↦ rw i (elim (has_pid-occurrences pid ps) [
    | inl (e, h) ↦ inl (e, omega arith)
    | inr (e, h) ↦ inr (e, omega arith)
  ])
]
