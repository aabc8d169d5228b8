-- ===== src/Types/Interner.antt =====
-- The interner gives one TypeId to each canonical name, the index of its TypeInfo.
use ia2_phase.Types.{TypeInfoInterner, TypeInfo, find, intern_from_strings, get, fresh_info}
use ia2_phase.Base.{
  List, ℕ, length, get_elem?, ◌+◌, ◌≡◌, ◌++◌, ◌<◌, some, ◌∷◌, [], suc, zero, refl, Option-cases,
  Bool-cases, arith, length-append, inl, u32, inr, ◌↔◌, some-injective, subst, sym, ◌≤◌, ◌∙◌, ap,
}
use Prim.Native.String.{String}
use text.Mathlib.Text.{◌==◌ as str_eq}
use text.Mathlib.TextEquality.{eq_iff}

-- Every entry of the map leads to the TypeInfo of its name, and there are fewer than 2^32 types.
pub record IsInterner (s : TypeInfoInterner) : Type 0 where
  pub indexed :
      (k : String) (i : ℕ)
      → find k s.ids ≡ some i
      → (t : TypeInfo) × (get_elem? s.infos i ≡ some t) × (t.canonical_name ≡ k) × (t.id ≡ i)
  pub room : length s.infos < 4294967296

get_elem?-append_left :
    (xs ys : List TypeInfo) (i : ℕ) (t : TypeInfo)
    → get_elem? xs i ≡ some t
    → get_elem? (xs ++ ys) i ≡ some t
get_elem?-append_left [] ys i t h = cc
get_elem?-append_left (x ∷ xs) ys zero t h = h
get_elem?-append_left (x ∷ xs) ys (suc i) t h = get_elem?-append_left xs ys i t h

get_elem?-append_last :
    (xs : List TypeInfo) (t : TypeInfo) → get_elem? (xs ++ t ∷ []) (length xs) ≡ some t
get_elem?-append_last [] t = refl
get_elem?-append_last (x ∷ xs) t = get_elem?-append_last xs t

module _ (canonical_name name : String) (s : TypeInfoInterner) (h : IsInterner s)
    (room : length s.infos + 1 < 4294967296) where
  info : TypeInfo
  info = fresh_info (length s.infos) name canonical_name

  added : TypeInfoInterner
  unfolding info
  added = record { ids = (canonical_name, length s.infos) ∷ s.ids; infos = s.infos ++ info ∷ [] }

  found-added :
      (k : String) (i : ℕ)
      → find k added.ids ≡ some i
      → (t : TypeInfo) × (get_elem? added.infos i ≡ some t) × (t.canonical_name ≡ k) × (t.id ≡ i)
  unfolding find added
  found-added k i e = elim (Bool-cases (str_eq canonical_name k)) [
    | inl same ↦
        let index : length s.infos ≡ i = some-injective _ _ (rw same at e) in
        (
          info,
          subst (λ j. get_elem? (s.infos ++ info ∷ []) j ≡ some info) index
              (get_elem?-append_last s.infos info),
          (eq_iff canonical_name k).0 same,
          index,
        )
    | inr other ↦
        let (t, at, named, numbered) = h.indexed k i (rw other at e) in
        (t, get_elem?-append_left s.infos (info ∷ []) i t at, named, numbered)
  ]

  added-IsInterner : IsInterner added
  unfolding added
  added-IsInterner = record {
    indexed = found-added;
    room = omega (arith, length-append s.infos (info ∷ []));
  }

  -- In a well-formed interner with room for one more type, interning a name returns the index of a TypeInfo with that canonical name and that id, the
  -- next lookup of the name finds the same id, and the interner stays well formed.
  pub intern_from_strings-IsInterner :
      let r = intern_from_strings canonical_name name s in
      IsInterner r.0
      × (find canonical_name r.0.ids ≡ some r.1)
      × ((i : TypeInfo) × (get r.0 r.1 ≡ some i)
          × (i.canonical_name ≡ canonical_name)
          × (i.id ≡ r.1))
  unfolding intern_from_strings get find added
  intern_from_strings-IsInterner = elim (Option-cases (find canonical_name s.ids)) [
    | inl missing ↦
        let id : u32 (length s.infos) ≡ length s.infos = omega arith in
        rw (missing, intern_from_strings)
          (rw id (
            added-IsInterner,
            rw ((eq_iff canonical_name canonical_name).1 refl),
            (info, get_elem?-append_last s.infos info, refl, refl),
          ))
    | inr (id, e) ↦ rw (e, intern_from_strings) (h, e, h.indexed canonical_name id e)
  ]

-- The empty interner.
unfoldable pub empty : TypeInfoInterner
empty = record { ids = []; infos = [] }

pub empty-IsInterner : IsInterner empty
unfolding empty find
empty-IsInterner = record { indexed = λ k i e. cc; room = omega arith }

intern_known :
    (k name : String) (s : TypeInfoInterner) (i : ℕ)
    → find k s.ids ≡ some i
    → intern_from_strings k name s ≡ (s, i)
unfolding intern_from_strings
intern_known k name s i e = rw (e, intern_from_strings)

pub length-intern_from_strings :
    (k name : String) (s : TypeInfoInterner)
    → length (intern_from_strings k name s).0.infos ≤ length s.infos + 1
unfolding intern_from_strings
length-intern_from_strings k name s =
    ground (arith, length-append s.infos (fresh_info (u32 (length s.infos)) name k ∷ []))

pub get-intern_from_strings :
    (k name : String) (s : TypeInfoInterner) (i : ℕ) (t : TypeInfo)
    → get s i ≡ some t
    → get (intern_from_strings k name s).0 i ≡ some t
unfolding intern_from_strings get
get-intern_from_strings k name s i t e =
    ground
      (arith, get_elem?-append_left s.infos (fresh_info (u32 (length s.infos)) name k ∷ []) i t e)

-- In a well-formed interner with room for two more types, interning two names in turn gives them the same id exactly when the names are equal, whatever
-- their spelled names, and a repeated name adds no entry.
pub intern_twice :
    (first second name name' : String) (s : TypeInfoInterner)
    → IsInterner s
    → length s.infos + 2 < 4294967296
    → let r = intern_from_strings first name s in
      let r' = intern_from_strings second name' r.0 in
      ((first ≡ second) ↔ (r.1 ≡ r'.1)) × (first ≡ second → r'.0 ≡ r.0)
intern_twice first second name name' s h room =
    let r = intern_from_strings first name s in
    let (inv, found, (i, at, named, numbered)) =
      intern_from_strings-IsInterner first name s h (omega arith) in
    let grown = length-intern_from_strings first name s in
    let r' = intern_from_strings second name' r.0 in
    let (inv', found', (i', at', named', numbered')) =
      intern_from_strings-IsInterner second name' r.0 inv (omega arith) in
    let again : first ≡ second → r' ≡ (r.0, r.1) =
      λ e. intern_known second name' r.0 r.1 (subst (λ k. find k r.0.ids ≡ some r.1) e found) in
    let kept = get-intern_from_strings second name' r.0 r.1 i at in
    let one : r.1 ≡ r'.1 → i ≡ i' = λ e. some-injective i i' (sym kept ∙ ap (get r'.0) e ∙ at') in
    (
      (
        (λ e. sym (ap (λ (p : TypeInfoInterner × ℕ). p.1) (again e))),
        (λ e. sym named ∙ ap (λ (t : TypeInfo). t.canonical_name) (one e) ∙ named'),
      ),
      (λ e. ap (λ (p : TypeInfoInterner × ℕ). p.0) (again e)),
    )
