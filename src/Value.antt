-- ===== src/Value.antt =====
-- Go's `any` as it comes out of `encoding/json`, with the typed `[]string` and `[]map[string]any`
-- that the code tells apart. A `map[string]any` is a list of fields; a number is carried as its text.
use outlook_agent.Prelude.{
  Bool, List, Option, String, arith, eq_iff, if◌then◌else◌, none, some, ◌==◌, ◌≡◌,
}

mutual
  pub data Value : Type 0 where
    null : Value
    bool : Bool → Value
    number : String → Value
    text : String → Value
    strings : List String → Value
    array : Items → Value
    object : Fields → Value
    -- a typed `[]map[string]any`
    maps : Items → Value

  pub data Items : Type 0 where
    nil : Items
    cons : Value → Items → Items

  pub data Fields : Type 0 where
    end : Fields
    field : String → Value → Fields → Fields

-- value, ok := m[k]
unfoldable pub lookup_field : String → Fields → Option Value
lookup_field k end = none
lookup_field k (field j v fs) = if j == k then some v else lookup_field k fs

-- m[k], which is nil on a missing key
unfoldable pub get_field : String → Fields → Value
unfolding lookup_field
get_field k fs = elim (lookup_field k fs) [ none ↦ null | some v ↦ v ]

-- delete(m, k)
unfoldable pub delete_field : String → Fields → Fields
delete_field k end = end
delete_field k (field j v fs) =
    let rest = delete_field k fs in if j == k then rest else field j v rest

-- m[k] = v
unfoldable pub set_field : String → Value → Fields → Fields
unfolding delete_field
set_field k v fs = field k v (delete_field k fs)

-- m, _ := v.(map[string]any)
unfoldable pub as_fields : Value → Fields
as_fields (object fs) = fs
as_fields _ = end

-- s, _ := v.(string)
unfoldable pub as_text : Value → String
as_text (text s) = s
as_text _ = ""

pub lookup_field-delete_field :
    (k j : String) (fs : Fields)
    → lookup_field j (delete_field k fs) ≡ (if k == j then none else lookup_field j fs)
unfolding lookup_field delete_field
lookup_field-delete_field k j end = ground arith
lookup_field-delete_field k j (field i v fs) =
    ground (arith, lookup_field-delete_field k j fs, eq_iff i k, eq_iff i j, eq_iff k j)

pub lookup_field-set_field :
    (k j : String) (v : Value) (fs : Fields)
    → lookup_field j (set_field k v fs) ≡ (if k == j then some v else lookup_field j fs)
unfolding lookup_field set_field
lookup_field-set_field k j v fs = rw (lookup_field-delete_field k j fs) (ground (arith, eq_iff k j))
