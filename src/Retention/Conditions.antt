-- ===== src/Retention/Conditions.antt =====
-- src/console/retention.js: the match conditions of a rule, normaliseConditions, and the SQL
-- that they become on a table, buildConditionPredicate.
use Prim.Native.Char.{code}
use ichibi_lake.Base.{
  ℕ, suc, String, Bool, true, false, not, ◌||◌, ◌&&◌, Option, none, some, List, [], ◌∷◌, ◌==◌,
  nat_eq, ltb, leb, length, map, filter, if◌then◌else◌,
}
use ichibi_lake.Base.Dict.{Dict, lookup}
use ichibi_lake.Base.Exec.{Result, ok, err, and_then}
use ichibi_lake.Base.Text.{◌⊕◌, or_text, trim, split, join_with, code_units}
use ichibi_lake.Retention.Quoting.{sql_literal, quote_ident, like_escape}
use ichibi_lake.Retention.Columns.{is_castable_type}

pub data Op : Type 0 where
  equals not_equals contains not_contains starts ends gt gte lt lte one_of is_null not_null : Op

pub record Condition : Type 0 where
  pub column : String
  pub op : Op
  pub value : String

pub record Conditions : Type 0 where
  pub match_any : Bool
  pub items : List Condition

-- A condition as a client sends it: `none` is a missing column, and an operator that the list
-- of operators does not have.
pub record ConditionInput : Type 0 where
  pub column : Option String
  pub op : Option Op
  pub value : String

pub record ConditionsInput : Type 0 where
  pub match_any : Bool
  pub items : List ConditionInput

-- The errors of the validation, each a 400 answer.
pub data RuleError : Type 0 where
  too_many_conditions no_name no_table unsafe_table system_table : RuleError
  bad_epoch_unit no_criterion no_date_column bad_schedule : RuleError
  invalid_column invalid_amount : String → RuleError
  condition_without_column condition_without_op condition_value condition_list : ℕ → RuleError

unfoldable pub has_code : (ℕ → Bool) → String → Bool
has_code p String.[] = false
has_code p (String.◌∷◌ c s) = p (code c) || has_code p s

-- /[\u0000-\u001f]/ and the same without tab, line feed and carriage return
abbrev pub is_control : ℕ → Bool
is_control c = leb c 0x1f

abbrev pub is_odd_control : ℕ → Bool
is_odd_control c = leb c 8 || nat_eq c 0xb || nat_eq c 0xc || (leb 0xe c && leb c 0x1f)

-- optionalColumn
unfoldable pub optional_column : Option String → String → Result RuleError (Option String)
unfolding has_code trim code_units
optional_column none label = ok none
optional_column (some value) label =
    if trim value == ""
    then ok none
    else if ltb 128 (code_units (trim value)) || has_code is_control (trim value)
    then err (invalid_column label)
    else ok (some (trim value))

abbrev pub takes_no_value : Op → Bool
takes_no_value is_null = true
takes_no_value not_null = true
takes_no_value _ = false

-- value.split(',').map(v => v.trim()).filter(Boolean)
unfoldable pub comma_list : String → List String
unfolding split trim
comma_list value = filter (λ v. not (v == "")) (map trim (split b',' value))

-- if (c.op === 'in') ...
unfoldable pub listed_value : ℕ → Op → String → Result RuleError String
unfolding comma_list join_with
listed_value i one_of value =
    let vs = comma_list value in
    if nat_eq (length vs) 0 || ltb 50 (length vs)
    then err (condition_list i)
    else ok (join_with ", " vs)
listed_value i _ value = ok value

-- let value = ...
abbrev pub value_of : Op → String → String
value_of op value = if takes_no_value op then "" else value

unfoldable pub normalise_item : ℕ → Op → String → String → Result RuleError Condition
unfolding has_code code_units listed_value
normalise_item i op column value =
    if ltb 500 (code_units (value_of op value)) || has_code is_odd_control (value_of op value)
    then err (condition_value i)
    else and_then (listed_value i op (value_of op value))
        (λ v. ok record { column = column; op = op; value = v })

abbrev pub with_op : ℕ → Option Op → String → String → Result RuleError Condition
with_op i none column value = err (condition_without_op i)
with_op i (some op) column value = normalise_item i op column value

abbrev pub with_column : ℕ → ConditionInput → Option String → Result RuleError Condition
with_column i c none = err (condition_without_column i)
with_column i c (some column) = with_op i c.op column c.value

unfoldable pub normalise_items : ℕ → List ConditionInput → Result RuleError (List Condition)
unfolding optional_column normalise_item
normalise_items i [] = ok []
normalise_items i (c ∷ cs) = and_then (optional_column c.column "column in condition") λ column.
    and_then (with_column i c column)
      λ item. and_then (normalise_items (suc i) cs) λ items. ok (item ∷ items)

unfoldable pub normalise_conditions : Option ConditionsInput → Result RuleError (Option Conditions)
unfolding normalise_items
normalise_conditions none = ok none
normalise_conditions (some input) =
    if nat_eq (length input.items) 0
    then ok none
    else if ltb 10 (length input.items)
    then err too_many_conditions
    else and_then (normalise_items 1 input.items)
        (λ items. ok (some record { match_any = input.match_any; items = items }))

-- Why a rule cannot apply to a table.
pub data Skip : Type 0 where
  table_gone : Skip
  missing_date missing_order missing_match : String → Skip
  unknown_unit no_date_type : String → String → Skip

-- const lit = ...
abbrev pub literal : String → String → String
literal type v =
    if is_castable_type type
    then "TRY_CAST(" ⊕ sql_literal v ⊕ " AS " ⊕ type ⊕ ")"
    else sql_literal v

-- const text = ...; const target = ...
abbrev pub as_text : String → String
as_text column = "CAST(" ⊕ quote_ident column ⊕ " AS VARCHAR)"

abbrev pub target : String → String → String
target type column = if is_castable_type type then quote_ident column else as_text column

abbrev pub pattern_test : String → String → String
pattern_test operator pattern = operator ⊕ sql_literal pattern ⊕ " ESCAPE '\\'"

-- The cases of the switch.
unfoldable pub condition_sql : Condition → String → String
unfolding is_castable_type sql_literal quote_ident like_escape join_with split trim
condition_sql c type = elim c.op [
  | is_null ↦ quote_ident c.column ⊕ " IS NULL"
  | not_null ↦ quote_ident c.column ⊕ " IS NOT NULL"
  | equals ↦ target type c.column ⊕ " = " ⊕ literal type c.value
  | not_equals ↦ target type c.column ⊕ " IS DISTINCT FROM " ⊕ literal type c.value
  | gt ↦ target type c.column ⊕ " > " ⊕ literal type c.value
  | gte ↦ target type c.column ⊕ " >= " ⊕ literal type c.value
  | lt ↦ target type c.column ⊕ " < " ⊕ literal type c.value
  | lte ↦ target type c.column ⊕ " <= " ⊕ literal type c.value
  | one_of ↦
      target type c.column
      ⊕ " IN ("
      ⊕ join_with ", " (map (λ v. literal type (trim v)) (split b',' c.value))
      ⊕ ")"
  | contains ↦ as_text c.column ⊕ pattern_test " ILIKE " ("%" ⊕ like_escape c.value ⊕ "%")
  | not_contains ↦
      "("
      ⊕ as_text c.column
      ⊕ " IS NULL OR "
      ⊕ as_text c.column
      ⊕ pattern_test " NOT ILIKE " ("%" ⊕ like_escape c.value ⊕ "%")
      ⊕ ")"
  | starts ↦ as_text c.column ⊕ pattern_test " ILIKE " (like_escape c.value ⊕ "%")
  | ends ↦ as_text c.column ⊕ pattern_test " ILIKE " ("%" ⊕ like_escape c.value)
]

-- The loop over the conditions: the first column that the table does not have ends it.
unfoldable pub condition_parts : List Condition → Dict String → Result Skip (List String)
unfolding condition_sql lookup trim
condition_parts [] types = ok []
condition_parts (c ∷ cs) types =
    let type = trim (or_text (lookup c.column types) "") in
    let rest = condition_parts cs types in
    if type == ""
    then err (missing_match c.column)
    else and_then rest (λ parts. ok (condition_sql c type ∷ parts))

abbrev pub in_parentheses : String → String
in_parentheses p = "(" ⊕ p ⊕ ")"

unfoldable pub build_condition_predicate : Conditions → Dict String → Result Skip String
unfolding condition_parts join_with
build_condition_predicate conditions types =
    and_then (condition_parts conditions.items types) λ parts. ok (
      "COALESCE("
      ⊕ join_with (if conditions.match_any then " OR " else " AND ") (map in_parentheses parts)
      ⊕ ", false)")

-- CONDITION_OPS and describeConditions
abbrev pub op_label : Op → String
op_label op = elim op [
  | equals ↦ "equals"
  | not_equals ↦ "does not equal"
  | contains ↦ "contains"
  | not_contains ↦ "does not contain"
  | starts ↦ "starts with"
  | ends ↦ "ends with"
  | gt ↦ ">"
  | gte ↦ "≥"
  | lt ↦ "<"
  | lte ↦ "≤"
  | one_of ↦ "is one of"
  | is_null ↦ "is NULL"
  | not_null ↦ "is not NULL"
]

abbrev pub describe_condition : Condition → String
describe_condition c =
    c.column ⊕ " " ⊕ op_label c.op ⊕ (if takes_no_value c.op then "" else " \"" ⊕ c.value ⊕ "\"")

unfoldable pub describe_conditions : Option Conditions → String
unfolding join_with
describe_conditions none = ""
describe_conditions (some conditions) =
    join_with (if conditions.match_any then " or " else " and ")
      (map describe_condition conditions.items)
