-- ===== src/MemoryMap/Splits/Removal.antt =====
-- The removal of the overlapping regions from the tree, one key after the other.
use ia2_phase.MemoryMap.{IntervalTree, Interval, delete, keep}
use ia2_phase.MemoryMap.Operations.{remove_all}
use ia2_phase.MemoryMap.Views.{IsSorted}
use ia2_phase.Base.{
  ℕ, Bool, List, Option, some, [], ◌∷◌, ◌<◌, ◌≡◌, arith, not, ◌>>=◌, All, refl, >>=-eq-some,
  Bool-cases, inl, inr,
}

delete_keys : List Interval → List Interval → Option (List Interval)
delete_keys [] ys = some ys
delete_keys (x ∷ xs) ys = delete x.start ys >>= delete_keys xs

delete_self : (x : Interval) (xs : List Interval) → delete x.start (x ∷ xs) ≡ some xs
unfolding delete
delete_self x xs = ground arith

delete-cons :
    (key : ℕ) (y : Interval) (ys zs : List Interval)
    → y.start < key
    → delete key ys ≡ some zs
    → delete key (y ∷ ys) ≡ some (y ∷ zs)
unfolding delete
delete-cons key y ys zs h e = rw e (ground arith)

delete_keys-cons :
    (y : Interval) (ks ys zs : List Interval)
    → All (λ k. y.start < k.start) ks
    → delete_keys ks ys ≡ some zs
    → delete_keys ks (y ∷ ys) ≡ some (y ∷ zs)
unfolding delete_keys
delete_keys-cons y [] ys zs h e = cc
delete_keys-cons y (k ∷ ks) ys zs h e =
    let (ws, e1, e2) = >>=-eq-some (delete k.start ys) (delete_keys ks) e in
    rw (delete-cons k.start y ys ws h.0 e1) (delete_keys-cons y ks ws zs h.1 e2)

keep-above :
    (p : Interval → Bool) (bound lo : ℕ) (xs : List Interval)
    → bound < lo
    → IsSorted lo xs
    → All (λ k. bound < k.start) (keep p xs)
unfolding keep
keep-above p bound lo [] h s = tt
keep-above p bound lo (x ∷ xs) h s = elim (Bool-cases (p x)) [
  | inl e ↦ rw e (omega arith, keep-above p bound x.stop xs (omega arith) s.5)
  | inr e ↦ rw e (keep-above p bound x.stop xs (omega arith) s.5)
]

delete_keys-keep :
    (p : Interval → Bool) (lo : ℕ) (xs : List Interval)
    → IsSorted lo xs
    → delete_keys (keep p xs) xs ≡ some (keep (λ x. not (p x)) xs)
unfolding delete_keys keep
delete_keys-keep p lo [] s = refl
delete_keys-keep p lo (x ∷ xs) s =
    let rest = delete_keys-keep p x.stop xs s.5 in
    elim (Bool-cases (p x)) [
      | inl e ↦ rw e (rw (delete_self x xs) rest)
      | inr e ↦
          rw e (delete_keys-cons x (keep p xs) xs _ (keep-above p x.start x.stop xs s.1 s.5) rest)
    ]

module _ (t : IntervalTree) where
  remove_all-delete_keys :
      (ks : List Interval) (tree : t.Tree) (rest : List Interval)
      → delete_keys ks (t.iter tree) ≡ some rest
      → (u : t.Tree) × (remove_all t ks tree ≡ some u) × (t.iter u ≡ rest)
  unfolding delete_keys remove_all
  remove_all-delete_keys [] tree rest e = (tree, refl, cc)
  remove_all-delete_keys (k ∷ ks) tree rest e =
      let (ys, e1, e2) = >>=-eq-some (delete k.start (t.iter tree)) (delete_keys ks) e in
      let (u, r, i) = t.iter-remove tree k.start ys e1 in
      let (v, r', i') = remove_all-delete_keys ks u rest (rw i e2) in (v, rw r r', i')

  -- No key is missing, and the other regions are left.
  pub remove_all-keep :
      (p : Interval → Bool) (tree : t.Tree)
      → IsSorted 0 (t.iter tree)
      → (u : t.Tree) × (remove_all t (keep p (t.iter tree)) tree ≡ some u)
        × (t.iter u ≡ keep (λ x. not (p x)) (t.iter tree))
  remove_all-keep p tree s =
      remove_all-delete_keys (keep p (t.iter tree)) tree _ (delete_keys-keep p 0 (t.iter tree) s)
