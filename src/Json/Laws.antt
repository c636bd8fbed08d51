-- ===== src/Json/Laws.antt =====
-- Reading what was inserted.
use Prim.Native.String.{String}
use text.Mathlib.TextEquality.{path_by_compare}
use kou_router.Prelude.{
  true, false, inl, inr, Option-cases, unwrap_or, is_some, ◌≡◌, refl, some, str_eq, if◌then◌else◌,
  arith, eq_iff,
}
use kou_router.Json.{
  has, or_insert_field, remove_field, Value, Fields, end, field, get_field, insert_field,
}

-- `insert_field` puts the value at its key and keeps the others.
pub get_field-insert_field :
    (j k : String) (v : Value) (fs : Fields)
    → get_field j (insert_field k v fs) ≡ (if str_eq k j then some v else get_field j fs)
unfolding get_field insert_field
get_field-insert_field j k v end = refl
get_field-insert_field j k v (field i w fs) =
    ground (arith, get_field-insert_field j k v fs, eq_iff k j, eq_iff i j, path_by_compare k i)

-- A default that is there already changes nothing.
or_insert_field_present :
    (k : String) (v w : Value) (o : Fields) → get_field k o ≡ some w → or_insert_field k v o ≡ o
unfolding or_insert_field
or_insert_field_present k v w o h = rw (or_insert_field, h) refl

-- After the default is set, its field is there, and the others are as they were.
pub get_field-or_insert_field :
    (j k : String) (v : Value) (o : Fields)
    → get_field j (or_insert_field k v o)
      ≡ (if str_eq k j then some (unwrap_or v (get_field k o)) else get_field j o)
unfolding or_insert_field
get_field-or_insert_field j k v o = ground (arith, get_field-insert_field j k v o, eq_iff k j)

-- Both defaults at once: a field that is set stays so, and a default is set.
pub is_some-or_insert_field :
    (k : String) (v : Value) (o : Fields) → is_some (get_field k (or_insert_field k v o)) ≡ true
is_some-or_insert_field k v o = ground (arith, get_field-or_insert_field k k v o, eq_iff k k)

pub or_insert_field_again :
    (k : String) (v : Value) (o : Fields) → has k o ≡ true → or_insert_field k v o ≡ o
or_insert_field_again k v o h = elim (Option-cases (get_field k o)) [
  | inl e ↦ ground (arith)
  | inr (w, e) ↦ or_insert_field_present k v w o e
]

pub has-or_insert_field :
    (j k : String) (v : Value) (o : Fields) → has j o ≡ true → has j (or_insert_field k v o) ≡ true
has-or_insert_field j k v o h = ground (arith, get_field-or_insert_field j k v o)

pub has-insert_field :
    (j k : String) (v : Value) (o : Fields) → has j o ≡ true → has j (insert_field k v o) ≡ true
has-insert_field j k v o h = ground (arith, get_field-insert_field j k v o)

pub has-inserted : (k : String) (v : Value) (o : Fields) → has k (insert_field k v o) ≡ true
has-inserted k v o = ground (arith, get_field-insert_field k k v o, eq_iff k k)

-- Another field outlives the removal.
pub get_field-remove_field :
    (j k : String) (fs : Fields)
    → str_eq k j ≡ false
    → get_field j (remove_field k fs) ≡ get_field j fs
unfolding get_field remove_field
get_field-remove_field j k end d = refl
get_field-remove_field j k (field i w fs) d =
    ground (arith, get_field-remove_field j k fs d, eq_iff i j, eq_iff i k, eq_iff k j)
