-- ===== src/Kafka/Modes.antt =====
-- src/kafka-consumer.js: the ingestion mode of a topic, parseIngestModes and topicIngestMode.
use Prim.Native.Char.{Char, code}
use ichibi_lake.Base.{
  ℕ, String, Bool, not, ◌||◌, ◌&&◌, Option, none, some, List, [], ◌∷◌, ◌==◌, nat_eq, leb, map,
  filter, if◌then◌else◌,
}
use ichibi_lake.Base.Dict.{Dict, lookup, insert}
use ichibi_lake.Base.Text.{
  ◌⊕◌, is_letter, is_digit, trim, trim_start, split, after_prefix, same_word,
}

-- INGEST_MODES
pub data Mode : Type 0 where
  append upsert dedupe : Mode

pub record TopicMode : Type 0 where
  pub mode : Mode
  pub keys : Option (List String)

-- topic.replace(/[^a-zA-Z0-9_]/g, '_'); a character above U+FFFF counts as two.
unfoldable pub table_name_of : String → String
table_name_of String.[] = ""
table_name_of (String.◌∷◌ c s) =
    let rest = table_name_of s in
    if is_letter (code c) || is_digit (code c)
    then String.◌∷◌ c rest
    else if leb 0x10000 (code c)
    then "__" ⊕ rest
    else "_" ⊕ rest

abbrev pub push_char : Char → String × String → String × String
push_char c p = (String.◌∷◌ c p.0, p.1)

-- The longest initial of the text that a class of characters matches, and the rest.
unfoldable pub span : (ℕ → Bool) → String → String × String
span p String.[] = ("", "")
span p (String.◌∷◌ c s) =
    let rest = push_char c (span p s) in if p (code c) then rest else ("", String.◌∷◌ c s)

-- [A-Za-z0-9_.*-], [a-z] with the flag i, and [A-Za-z0-9_+]
abbrev pub is_topic_char : ℕ → Bool
is_topic_char c = is_letter c || is_digit c || nat_eq c b'.' || nat_eq c b'*' || nat_eq c b'-'

abbrev pub is_mode_char : ℕ → Bool
is_mode_char c = (leb b'A' c && leb c b'Z') || (leb b'a' c && leb c b'z')

abbrev pub is_keys_char : ℕ → Bool
is_keys_char c = is_letter c || is_digit c || nat_eq c b'+'

-- A mode by its name, in upper or lower case.
unfoldable pub mode_of : String → Option Mode
unfolding same_word
mode_of name =
    if same_word "append" name
    then some append
    else if same_word "upsert" name
    then some upsert
    else if same_word "dedupe" name
    then some dedupe
    else none

-- m[1] === '*' ? '*' : the table name of m[1]
abbrev pub topic_key : String → String
topic_key topic = if topic == "*" then "*" else table_name_of topic

abbrev pub entry_of : String → Option Mode → Option (List String) → Option (String × TopicMode)
entry_of topic none keys = none
entry_of topic (some mode) keys = some (topic_key topic, record { mode = mode; keys = keys })

-- The part of an entry after the mode: nothing, or a colon and the keys.
unfoldable pub with_key_list : String → String → String → Option (String × TopicMode)
unfolding span mode_of split after_prefix table_name_of
with_key_list topic mode rest =
    if rest == "" then entry_of topic (mode_of mode) none else elim (after_prefix ":" rest) [
      | none ↦ none
      | some keys ↦
          let found = span is_keys_char keys in
          if found.0 == "" || not (found.1 == "")
          then none
          else entry_of topic (mode_of mode)
              (some (filter (λ k. not (k == "")) (split b'+' found.0)))
    ]

-- One entry `topic=mode[:key1+key2]`; `none` where it is invalid.
unfoldable pub parse_entry : String → Option (String × TopicMode)
unfolding span with_key_list after_prefix trim_start
parse_entry entry =
    let topic = span is_topic_char entry in
    elim (after_prefix "=" (trim_start topic.1)) [
      | none ↦ none
      | some rest ↦
          let mode = span is_mode_char (trim_start rest) in
          if topic.0 == "" || mode.0 == "" then none else with_key_list topic.0 mode.0 mode.1
    ]

abbrev pub set_entry : Option (String × TopicMode) → Dict TopicMode → Dict TopicMode
set_entry none modes = modes
set_entry (some entry) modes = insert entry.0 entry.1 modes

unfoldable pub set_entries : List String → Dict TopicMode → Dict TopicMode
unfolding parse_entry insert
set_entries [] modes = modes
set_entries (entry ∷ entries) modes = set_entries entries (set_entry (parse_entry entry) modes)

-- parseIngestModes
unfoldable pub parse_ingest_modes : String → Dict TopicMode
unfolding set_entries split trim
parse_ingest_modes raw = set_entries (filter (λ s. not (s == "")) (map trim (split b',' raw))) []

abbrev pub mode_or : Option TopicMode → TopicMode → TopicMode
mode_or none other = other
mode_or (some mode) other = mode

-- topicIngestMode, for the value of KAFKA_INGEST_MODES
unfoldable pub topic_ingest_mode : String → String → TopicMode
unfolding parse_ingest_modes lookup table_name_of
topic_ingest_mode raw topic =
    let modes = parse_ingest_modes raw in
    mode_or (lookup (table_name_of topic) modes)
      (mode_or (lookup "*" modes) (record { mode = append; keys = none }))
