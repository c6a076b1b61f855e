-- ===== src/TableKeys/Examples.antt =====
-- Runs of normaliseKeyList of src/table-keys.js, and an instance of the theorem about it.
use ichibi_lake.Base.{◌≤◌, String, ◌≡◌, refl, none, some, [], ◌∷◌, length, includes}
use ichibi_lake.Base.Exec.{ok, err}
use ichibi_lake.Base.Text.{is_safe_identifier, split, trim}
use ichibi_lake.TableKeys.KeyList.{
  one_text, array_of, other, no_array, invalid_name, normalise_key_list, collect_keys, key_name,
  add_key,
}
use ichibi_lake.TableKeys.Accepted.{normalise_key_list_lem, AreSafe, IsDistinct, trimmed, items}

key_tests :
    (normalise_key_list (one_text "id, day,id") ≡ ok ("id" ∷ "day" ∷ []))
    × (normalise_key_list (array_of (some "id" ∷ none ∷ [])) ≡ err (invalid_name none))
    × (normalise_key_list (one_text "1st") ≡ err (invalid_name (some "1st")))
    × (normalise_key_list other ≡ err no_array)
unfolding normalise_key_list split trim collect_keys key_name add_key is_safe_identifier
key_tests = (refl, refl, refl, refl)

two_keys : normalise_key_list (one_text "id, day,id") ≡ ok ("id" ∷ "day" ∷ [])
two_keys = key_tests.0

normalise_key_list_lem_example :
    AreSafe ("id" ∷ "day" ∷ [])
    × IsDistinct ("id" ∷ "day" ∷ [])
    × (length {A = String} ("id" ∷ "day" ∷ []) ≤ 16)
    × ((n : String)
        → includes n ("id" ∷ "day" ∷ []) ≡ includes n (trimmed (items (one_text "id, day,id"))))
normalise_key_list_lem_example =
    normalise_key_list_lem (one_text "id, day,id") ("id" ∷ "day" ∷ []) two_keys
