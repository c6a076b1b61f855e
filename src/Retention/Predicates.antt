-- ===== src/Retention/Predicates.antt =====
-- src/console/retention.js: the SQL of a rule on one table, buildPredicates and wherePredicate.
use ichibi_lake.Base.{
  ℕ, zero, suc, String, Bool, true, false, ◌||◌, Option, none, some, List, [], ◌∷◌, ◌==◌, map,
  if◌then◌else◌,
}
use ichibi_lake.Base.Dict.{Dict, lookup}
use ichibi_lake.Base.Exec.{Result, ok, err, and_then}
use ichibi_lake.Base.Text.{◌⊕◌, or_text, trim, same_word, join_with, decimal}
use ichibi_lake.Retention.Quoting.{quote_ident}
use ichibi_lake.Retention.Columns.{is_date_type, is_epoch_type, epoch_cutoff}
use ichibi_lake.Retention.Conditions.{
  Conditions, Skip, missing_date, missing_order, unknown_unit, no_date_type, in_parentheses,
  build_condition_predicate,
}
use ichibi_lake.Retention.Rules.{Rule}

pub record Preds : Type 0 where
  pub age : Option String
  pub count : Option String
  pub matched : Option String

-- Why a table is not pruned: the rule does not apply to it, or an error is thrown.
pub data Stop : Type 0 where
  skipped : Skip → Stop
  thrown : Stop

-- The text of a name that may be null.
abbrev pub name_or_null : Option String → String
name_or_null none = "null"
name_or_null (some name) = name

abbrev pub cutoff : Rule → ℕ → String
cutoff rule n =
    "CAST(CURRENT_TIMESTAMP AS TIMESTAMP) - INTERVAL "
    ⊕ decimal n
    ⊕ " "
    ⊕ (if rule.in_hours then "HOUR" else "DAY")

-- `column < epochCutoff(unit, cutoff)`, for a unit that is known and not 'auto'
unfoldable pub epoch_age : Rule → String → String → ℕ → Option String → Result Stop (Option String)
unfolding epoch_cutoff quote_ident decimal
epoch_age rule column type n none = err (skipped (unknown_unit column type))
epoch_age rule column type n (some unit) =
    if unit == "" || unit == "auto"
    then err (skipped (unknown_unit column type))
    else elim (epoch_cutoff unit (cutoff rule n)) [
      | none ↦ err thrown
      | some limit ↦ ok (some (quote_ident column ⊕ " < " ⊕ limit))
    ]

-- The age criterion, for a column of the type.
unfoldable pub age_of_type :
    Rule → String → String → ℕ → Option String → Result Stop (Option String)
unfolding epoch_age same_word is_date_type is_epoch_type quote_ident decimal
age_of_type rule column type n unit =
    if type == ""
    then err (skipped (missing_date column))
    else if same_word "DATE" type
    then ok (some (quote_ident column ⊕ " < CAST(" ⊕ cutoff rule n ⊕ " AS DATE)"))
    else if is_date_type type
    then ok (some (quote_ident column ⊕ " < " ⊕ cutoff rule n))
    else if is_epoch_type type
    then epoch_age rule column type n unit
    else err (skipped (no_date_type column type))

-- types.get(column), where a rule without the column has none
abbrev pub type_of : Option String → Dict String → String
type_of none types = ""
type_of (some column) types = or_text (lookup column types) ""

-- An absent number and 0 count as false.
abbrev pub amount_given : Option ℕ → Bool
amount_given none = false
amount_given (some zero) = false
amount_given (some (suc n)) = true

unfoldable pub age_predicate :
    Rule → Dict String → Option String → Option ℕ → Result Stop (Option String)
unfolding age_of_type trim lookup
age_predicate rule types unit none = ok none
age_predicate rule types unit (some zero) = ok none
age_predicate rule types unit (some (suc n)) =
    age_of_type rule (name_or_null rule.date_column) (trim (type_of rule.date_column types)) (suc n)
      unit

abbrev pub in_order : String → String → ℕ → String
in_order table order n =
    "rowid IN (SELECT rowid FROM "
    ⊕ quote_ident table
    ⊕ " ORDER BY "
    ⊕ order
    ⊕ " OFFSET "
    ⊕ decimal n
    ⊕ ")"

abbrev pub ordered_by : String → String → ℕ → Option String → Result Stop (Option String)
ordered_by table column n none = err (skipped (missing_order column))
ordered_by table column n (some type) =
    ok (some (in_order table (quote_ident column ⊕ " DESC NULLS LAST, rowid DESC") n))

unfoldable pub count_predicate :
    Option String → String → Dict String → Option ℕ → Result Stop (Option String)
unfolding quote_ident decimal lookup
count_predicate order table types none = ok none
count_predicate order table types (some zero) = ok none
count_predicate none table types (some (suc n)) = ok (some (in_order table "rowid DESC" (suc n)))
count_predicate (some column) table types (some (suc n)) =
    if column == ""
    then ok (some (in_order table "rowid DESC" (suc n)))
    else ordered_by table column (suc n) (lookup column types)

abbrev pub or_skip : {A : Type 0} → Result Skip A → Result Stop A
or_skip (ok a) = ok a
or_skip (err e) = err (skipped e)

unfoldable pub match_predicate : Option Conditions → Dict String → Result Stop (Option String)
unfolding build_condition_predicate
match_predicate none types = ok none
match_predicate (some conditions) types = elim conditions.items [
  | [] ↦ ok none
  | _ ∷ _ ↦ and_then (or_skip (build_condition_predicate conditions types)) (λ sql. ok (some sql))
]

-- buildPredicates
unfoldable pub build_predicates : Rule → String → Dict String → Option String → Result Stop Preds
unfolding age_predicate count_predicate match_predicate
build_predicates rule table types unit =
    and_then (age_predicate rule types unit rule.max_age_value) λ age.
      and_then (count_predicate rule.order_column table types rule.max_rows) λ count.
        and_then (match_predicate rule.conditions types)
          λ matched. ok record { age = age; count = count; matched = matched }

abbrev pub given_texts : List (Option String) → List String
given_texts [] = []
given_texts (none ∷ ts) = given_texts ts
given_texts (some t ∷ ts) = if t == "" then given_texts ts else t ∷ given_texts ts

-- wherePredicate
unfoldable pub where_predicate : Preds → String
unfolding join_with
where_predicate preds =
    join_with " OR "
      (map in_parentheses (given_texts (preds.age ∷ preds.count ∷ preds.matched ∷ [])))
