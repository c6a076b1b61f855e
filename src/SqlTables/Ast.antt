-- ===== src/SqlTables/Ast.antt =====
-- The JSON values that DuckDB's json_serialize_sql gives src/sql-tables.js, and the accesses and
-- text functions of JavaScript that the file uses on them. Objects have no repeated key.
use Prim.Native.Char.{code}
use ichibi_lake.Base.{
  ℕ, String, Bool, true, false, not, ◌||◌, Option, none, some, ◌==◌, nat_eq, if◌then◌else◌,
}
pub use ichibi_lake.Base.Text.{◌⊕◌}

-- A number is held as the text that String gives for it.
mutual
  pub data Json : Type 0 where
    null : Json
    bool : Bool → Json
    number : String → Json
    text : String → Json
    array : Items → Json
    object : Fields → Json

  pub data Items : Type 0 where
    nil : Items
    cons : Json → Items → Items

  pub data Fields : Type 0 where
    end : Fields
    field : String → Json → Fields → Fields

-- object[key]; `none` is undefined
unfoldable pub get : String → Fields → Option Json
get key end = none
get key (field k value rest) = if k == key then some value else get key rest

-- value?.[key], which is undefined on anything but an object
unfoldable pub property : String → Option Json → Option Json
unfolding get
property key (some (object fields)) = get key fields
property key _ = none

unfoldable pub is_truthy : Option Json → Bool
is_truthy none = false
is_truthy (some null) = false
is_truthy (some (bool b)) = b
is_truthy (some (number n)) = not (n == "0")
is_truthy (some (text t)) = not (t == "")
is_truthy (some (array _)) = true
is_truthy (some (object _)) = true

-- String(value); an array joins its items with commas, null as the empty text.
unfoldable mutual
  pub string_of : Json → String
  string_of null = "null"
  string_of (bool true) = "true"
  string_of (bool false) = "false"
  string_of (number n) = n
  string_of (text t) = t
  string_of (array xs) = joined xs
  string_of (object _) = "[object Object]"

  pub item_text : Json → String
  item_text null = ""
  item_text (bool true) = "true"
  item_text (bool false) = "false"
  item_text (number n) = n
  item_text (text t) = t
  item_text (array xs) = joined xs
  item_text (object _) = "[object Object]"

  pub joined : Items → String
  joined nil = ""
  joined (cons v nil) = item_text v
  joined (cons v (cons w vs)) = item_text v ⊕ "," ⊕ joined (cons w vs)

unfoldable pub string_of_option : Option Json → String
string_of_option none = "undefined"
string_of_option (some v) = string_of v

-- value.endsWith(suffix), value.startsWith('_')
unfoldable pub ends_with : String → String → Bool
ends_with suffix String.[] = suffix == ""
ends_with suffix (String.◌∷◌ c s) = String.◌∷◌ c s == suffix || ends_with suffix s

unfoldable pub starts_with : ℕ → String → Bool
starts_with c String.[] = false
starts_with c (String.◌∷◌ d s) = nat_eq (code d) c
