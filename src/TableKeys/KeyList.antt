-- ===== src/TableKeys/KeyList.antt =====
-- src/table-keys.js: normaliseKeyList, the key lists that a client may declare for a table.
use ichibi_lake.Base.{
  String, Option, none, some, List, [], ◌∷◌, ◌++◌, map, ltb, includes, length, if◌then◌else◌,
}
use ichibi_lake.Base.Exec.{Result, ok, err}
use ichibi_lake.Base.Text.{is_safe_identifier, split, trim}

-- What a client sends as "keys": one text, an array of values, of which `none` is no text, or
-- anything else.
pub data Requested : Type 0 where
  one_text : String → Requested
  array_of : List (Option String) → Requested
  other : Requested

pub data KeyError : Type 0 where
  no_array too_many : KeyError
  invalid_name : Option String → KeyError

-- One round of the loop: the name of an item, trimmed, where it is a safe identifier.
unfoldable pub key_name : Option String → Result KeyError String
unfolding trim
key_name none = err (invalid_name none)
key_name (some k) = if is_safe_identifier (trim k) then ok (trim k) else err (invalid_name (some k))

-- if (!out.includes(name)) out.push(name)
unfoldable pub add_key : List String → String → List String
add_key out name = if includes name out then out else out ++ name ∷ []

unfoldable pub collect_keys : List String → List (Option String) → Result KeyError (List String)
unfolding key_name add_key
collect_keys out [] = ok out
collect_keys out (k ∷ ks) = elim (key_name k) [
  | err e ↦ err e
  | ok name ↦ collect_keys (add_key out name) ks
]

abbrev pub at_most_16 : Result KeyError (List String) → Result KeyError (List String)
at_most_16 (err e) = err e
at_most_16 (ok out) = if ltb 16 (length out) then err too_many else ok out

unfoldable pub normalise_key_list : Requested → Result KeyError (List String)
unfolding split collect_keys
normalise_key_list (one_text keys) = at_most_16 (collect_keys [] (map some (split b',' keys)))
normalise_key_list (array_of keys) = at_most_16 (collect_keys [] keys)
normalise_key_list other = err no_array
