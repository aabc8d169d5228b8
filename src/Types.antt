-- ===== src/Types.antt =====
-- tools/rewriter/TypeOps.h and TypeOps.cpp: the interned types, with the constructor and destructor
-- that were annotated for each. `none` is report_fatal_error, or an index out of range.
use ia2_phase.Base.{
  Bool, List, Option, ℕ, get_elem?, none, some, ◌&&◌, false, ◌>>◌, ◌∷◌, assert, u32, true,
  if◌then◌else◌, [], length, not, ◌++◌,
}
pub mod Interner
use Prim.Native.String.{String}
use text.Mathlib.Text.{◌==◌ as str_eq}

pub record TypeInfo : Type 0 where
  pub id : ℕ
  pub name : String
  pub canonical_name : String
  pub constructor : Option String
  pub destructor : Option String

abbrev pub is_set {ℓ} : {A : Type ℓ} → Option A → Bool
is_set none = false
is_set (some a) = true

unfoldable pub set_constructor : String → TypeInfo → Option TypeInfo
set_constructor constructor_name t = do
  assert (not (is_set t.constructor))
  some (record t { constructor = some constructor_name })

unfoldable pub set_destructor : String → TypeInfo → Option TypeInfo
set_destructor destructor_name t = do
  assert (not (is_set t.destructor))
  some (record t { destructor = some destructor_name })

unfoldable pub has_structors : TypeInfo → Bool
has_structors t = is_set t.constructor && is_set t.destructor

-- Fails on a type with one of the two only.
unfoldable pub check : TypeInfo → Option (Unit {0})
check t = do
  assert (not (is_set t.constructor && not (is_set t.destructor)))
  assert (not (not (is_set t.constructor) && is_set t.destructor))

-- `ids` is the map from canonical names, newest entry first.
pub record TypeInfoInterner : Type 0 where
  pub ids : List (String × ℕ)
  pub infos : List TypeInfo

unfoldable pub find : String → List (String × ℕ) → Option ℕ
find k [] = none
find k ((j, v) ∷ m) = if str_eq j k then some v else find k m

-- The designated initializer of a new entry.
abbrev pub fresh_info : ℕ → String → String → TypeInfo
fresh_info id name canonical_name = record {
  id = id;
  name = name;
  canonical_name = canonical_name;
  constructor = none;
  destructor = none;
}

abbrev add_info : String → String → ℕ → TypeInfoInterner → TypeInfoInterner × ℕ
add_info canonical_name name id s = (
  record {
    ids = (canonical_name, id) ∷ s.ids;
    infos = s.infos ++ fresh_info id name canonical_name ∷ [];
  },
  id,
)

-- The new state and the TypeId, a `uint32_t`.
unfoldable pub intern_from_strings : String → String → TypeInfoInterner → TypeInfoInterner × ℕ
unfolding find
intern_from_strings canonical_name name s = elim (find canonical_name s.ids) [
  | some id ↦ (s, id)
  | none ↦ add_info canonical_name name (u32 (length s.infos)) s
]

unfoldable pub get : TypeInfoInterner → ℕ → Option TypeInfo
get s index = get_elem? s.infos index

unfoldable pub check_all : List TypeInfo → Option (Unit {0})
unfolding check
check_all [] = some tt
check_all (t ∷ ts) = do check t; check_all ts
