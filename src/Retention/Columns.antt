-- ===== src/Retention/Columns.antt =====
-- src/console/retention.js: the types of columns, and the units of Unix times in a column of
-- numbers.
use Prim.Native.Char.{code}
use ichibi_lake.Base.{
  ℕ, String, Bool, ◌||◌, ◌^◌, false, Option, none, some, List, [], ◌==◌, ◌∷◌, ltb, any,
  if◌then◌else◌,
}
use ichibi_lake.Base.Text.{◌⊕◌, is_digit, trim, trim_start, after_prefix, same_word}

unfoldable pub drop_digits : String → String
drop_digits String.[] = ""
drop_digits (String.◌∷◌ c s) =
    let rest = drop_digits s in if is_digit (code c) then rest else String.◌∷◌ c s

-- What follows /^\d+/.
unfoldable pub after_digits : String → Option String
unfolding drop_digits
after_digits String.[] = none
after_digits (String.◌∷◌ c s) = if is_digit (code c) then some (drop_digits s) else none

-- /^DECIMAL\(\d+,\s*\d+\)$/i
unfoldable pub is_decimal : String → Bool
unfolding after_digits
is_decimal type = elim (after_prefix "DECIMAL(" type) [
  | none ↦ false
  | some s ↦ elim (after_digits s) [
    | none ↦ false
    | some t ↦ elim (after_prefix "," t) [
      | none ↦ false
      | some u ↦ elim (after_digits (trim_start u)) [ none ↦ false | some v ↦ v == ")" ]
    ]
  ]
]

-- /^TIMESTAMP(\s*WITH TIME ZONE)?$/i
unfoldable pub is_timestamp : String → Bool
is_timestamp type = elim (after_prefix "TIMESTAMP" type) [
  | none ↦ false
  | some s ↦ s == "" || same_word "WITH TIME ZONE" (trim_start s)
]

abbrev pub is_word_of : List String → String → Bool
is_word_of words type = any (λ word. same_word word type) words

-- isDateType
unfoldable pub is_date_type : String → Bool
unfolding is_timestamp
is_date_type type =
    is_timestamp (trim type)
    || is_word_of
        ("DATE" ∷ "TIMESTAMP_S" ∷ "TIMESTAMP_MS" ∷ "TIMESTAMP_NS" ∷ "TIMESTAMPTZ" ∷ "DATETIME" ∷ [])
        (trim type)

abbrev epoch_types : List String
epoch_types =
    "TINYINT" ∷ "SMALLINT" ∷ "INTEGER" ∷ "BIGINT" ∷ "HUGEINT" ∷ "USMALLINT" ∷ "UINTEGER" ∷ "UBIGINT"
    ∷ "UHUGEINT" ∷ "FLOAT" ∷ "DOUBLE" ∷ "REAL" ∷ []

-- isEpochType
unfoldable pub is_epoch_type : String → Bool
unfolding is_decimal
is_epoch_type type = is_decimal (trim type) || is_word_of epoch_types (trim type)

-- CASTABLE_TYPE_RE.test(type)
unfoldable pub is_castable_type : String → Bool
unfolding is_decimal
is_castable_type type =
    is_decimal type
    || is_word_of epoch_types type
    || is_word_of
        ("BOOLEAN" ∷ "UTINYINT" ∷ "DATE" ∷ "TIME" ∷ "TIMESTAMP" ∷ "TIMESTAMP WITH TIME ZONE"
          ∷ "TIMESTAMPTZ" ∷ "TIMESTAMP_S" ∷ "TIMESTAMP_MS" ∷ "TIMESTAMP_NS" ∷ "UUID" ∷ "INTERVAL"
          ∷ [])
        type

abbrev pub epoch_units : List String
epoch_units = "auto" ∷ "s" ∷ "ms" ∷ "us" ∷ "ns" ∷ []

-- detectEpochUnit from its comparisons on: the argument is what Math.abs(Number(maxAbs)) gives, so
-- already rounded to a double, with its fraction left out; `none` is a value that is not finite.
unfoldable pub detect_epoch_unit : Option ℕ → Option String
detect_epoch_unit none = none
detect_epoch_unit (some v) =
    if ltb v (10 ^ 11)
    then some "s"
    else if ltb v (10 ^ 14)
    then some "ms"
    else if ltb v (10 ^ 17)
    then some "us"
    else some "ns"

-- epochUnitLabel
unfoldable pub epoch_unit_label : String → String
epoch_unit_label unit =
    if unit == "s"
    then "seconds"
    else if unit == "ms"
    then "milliseconds"
    else if unit == "us"
    then "microseconds"
    else if unit == "ns"
    then "nanoseconds"
    else unit

-- epochCutoff; `none` where it throws
unfoldable pub epoch_cutoff : String → String → Option String
epoch_cutoff unit cutoff =
    if unit == "s"
    then some ("epoch(" ⊕ cutoff ⊕ ")")
    else if unit == "ms"
    then some ("epoch_ms(" ⊕ cutoff ⊕ ")")
    else if unit == "us"
    then some ("epoch_us(" ⊕ cutoff ⊕ ")")
    else if unit == "ns"
    then some ("epoch_ns(" ⊕ cutoff ⊕ ")")
    else none
