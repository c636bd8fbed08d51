-- ===== src/Json.antt =====
-- serde_json's `Value`, as the router uses it: a number is a `u64`, a negative `i64` or an `f64`,
-- and an object is a `BTreeMap`, whose entries stand in the order of their keys.
pub mod Laws
use Prim.Native.Nat.{Ordering}
use Prim.Native.String.{compare}
use kou_router.Prelude.{
  is_some, ℕ, String, Bool, true, false, ◌||◌, Option, none, some, List, [], ◌∷◌, ◌==◌, ◌^◌, str_eq,
  if◌then◌else◌, and_then,
}

-- `neg_int n` is -(n + 1); `float` holds the IEEE 754 bits.
pub data Number : Type 0 where
  pos_int : ℕ → Number
  neg_int : ℕ → Number
  float : ℕ → Number

mutual
  pub data Value : Type 0 where
    null : Value
    bool : Bool → Value
    number : Number → Value
    string : String → Value
    array : Items → Value
    object : Fields → Value

  pub data Items : Type 0 where
    nil : Items
    cons : Value → Items → Items

  pub data Fields : Type 0 where
    end : Fields
    field : String → Value → Fields → Fields

-- `Map::get`.
unfoldable pub get_field : String → Fields → Option Value
get_field key end = none
get_field key (field k v rest) = if str_eq k key then some v else get_field key rest

-- `Map::insert`: replaces the entry of an equal key, and else keeps the order.
unfoldable pub insert_field : String → Value → Fields → Fields
insert_field key v end = field key v end
insert_field key v (field k w rest) = elim (compare key k) [
  | Ordering.lt ↦ field key v (field k w rest)
  | Ordering.eq ↦ field key v rest
  | Ordering.gt ↦ field k w (insert_field key v rest)
]

-- `Value::get` at a key.
unfoldable pub get : Value → String → Option Value
unfolding get_field
get (object fs) key = get_field key fs
get _ key = none

-- `Value::as_str`, `as_bool`, `as_u64`.
unfoldable pub as_str : Value → Option String
as_str (string s) = some s
as_str _ = none

unfoldable pub as_bool : Value → Option Bool
as_bool (bool b) = some b
as_bool _ = none

unfoldable pub as_u64 : Value → Option ℕ
as_u64 (number (pos_int n)) = some n
as_u64 _ = none

-- Whether `as_f64` gives a number equal to 0.0: both zeros do.
unfoldable pub is_zero_number : Number → Bool
is_zero_number (pos_int n) = n == 0
is_zero_number (neg_int n) = false
is_zero_number (float bits) = bits == 0 || bits == 2 ^ 63

-- What `json!({...})` builds: the entries are inserted in turn.
unfoldable pub insert_all : List (String × Value) → Fields → Fields
unfolding insert_field
insert_all [] fs = fs
insert_all ((k, v) ∷ kvs) fs = insert_all kvs (insert_field k v fs)

unfoldable pub json_object : List (String × Value) → Value
unfolding insert_all
json_object kvs = object (insert_all kvs end)

-- The elements of a `Vec<Value>`, and a `Vec<Value>` from its elements.
abbrev pub elements : Items → List Value
elements nil = []
elements (cons v items) = v ∷ elements items

abbrev pub items_of : List Value → Items
items_of [] = nil
items_of (v ∷ vs) = cons v (items_of vs)

abbrev pub array_of : List Value → Value
array_of vs = array (items_of vs)

-- `Value::as_array`, `as_object` and `is_null`.
unfoldable pub as_array : Value → Option (List Value)
as_array (array items) = some (elements items)
as_array _ = none

unfoldable pub as_object : Value → Option Fields
as_object (object fs) = some fs
as_object _ = none

unfoldable pub is_null : Value → Bool
is_null null = true
is_null _ = false

-- `get(key).and_then(as_str)`.
abbrev pub text_at : Value → String → Option String
text_at v key = and_then (get v key) as_str

-- `Map::remove`.
unfoldable pub remove_field : String → Fields → Fields
remove_field key end = end
remove_field key (field k v rest) = if str_eq k key then rest else field k v (remove_field key rest)

-- `entry(key).or_insert(v)`.
unfoldable pub or_insert_field : String → Value → Fields → Fields
unfolding get_field insert_field
or_insert_field key v fs = elim (get_field key fs) [ some w ↦ fs | none ↦ insert_field key v fs ]

abbrev pub has : String → Fields → Bool
has key fs = is_some (get_field key fs)
