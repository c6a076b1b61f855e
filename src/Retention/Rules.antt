-- ===== src/Retention/Rules.antt =====
-- src/console/retention.js: the rules, and normaliseRule, which validates one from the input of
-- the console.
use ichibi_lake.Base.{
  ℕ, String, Bool, true, false, not, ◌||◌, ◌&&◌, ◌*◌, ◌^◌, Option, none, some, ◌==◌, ltb, includes,
  if◌then◌else◌,
}
use ichibi_lake.Base.Exec.{Result, ok, err, and_then}
use ichibi_lake.Base.Text.{or_text, trim, code_units, is_safe_identifier}
use ichibi_lake.Retention.Columns.{epoch_units}
use ichibi_lake.Retention.Conditions.{
  RuleError, no_name, no_table, unsafe_table, system_table, bad_epoch_unit, no_criterion,
  no_date_column, bad_schedule, invalid_amount, Conditions, ConditionsInput, optional_column,
  normalise_conditions,
}
use ichibi_lake.Retention.Tables.{is_system_table}

pub record Rule : Type 0 where
  pub name : String
  pub table_pattern : String
  pub exclude_pattern : String
  pub date_column : Option String
  pub max_age_value : Option ℕ
  pub in_hours : Bool
  pub epoch_unit : String
  pub max_rows : Option ℕ
  pub order_column : Option String
  pub conditions : Option Conditions
  pub schedule : String
  pub enabled : Bool
  pub safety_limit : Option ℕ
  pub reclaim_storage : Bool

-- An amount after Number(value): null, undefined or '' count as absent; a whole number that is not
-- negative; anything else.
pub data Amount : Type 0 where
  absent : Amount
  whole : ℕ → Amount
  no_whole : Amount

-- The fields that a client sends; `none` is a missing one.
pub record RuleInput : Type 0 where
  pub name : Option String
  pub table : Option String
  pub table_pattern : Option String
  pub in_hours : Bool
  pub epoch_unit : Option String
  pub max_age_value : Amount
  pub max_rows : Amount
  pub safety_limit : Amount
  pub date_column : Option String
  pub order_column : Option String
  pub conditions : Option ConditionsInput
  pub schedule : Option String
  pub enabled : Option Bool
  pub reclaim_storage : Bool

-- optionalPositiveInt
unfoldable pub optional_positive_int : Amount → String → ℕ → Result RuleError (Option ℕ)
optional_positive_int absent label max = ok none
optional_positive_int no_whole label max = err (invalid_amount label)
optional_positive_int (whole n) label max =
    if ltb n 1 || ltb max n then err (invalid_amount label) else ok (some n)

-- MAX_AGE[maxAgeUnit]
abbrev pub max_age : Bool → ℕ
max_age in_hours = if in_hours then 24 * 36500 else 36500

abbrev pub is_none {ℓ} : {A : Type ℓ} → Option A → Bool
is_none none = true
is_none (some a) = false

-- The text of a field: value ?? other.
abbrev pub given_or : Option String → String → String
given_or none other = other
given_or (some value) other = value

-- The checks of the name and of the table.
unfoldable pub checked_name : RuleInput → Result RuleError String
unfolding trim code_units
checked_name input =
    let name = trim (or_text input.name "") in
    if name == "" || ltb 100 (code_units name) then err no_name else ok name

unfoldable pub checked_table : RuleInput → Result RuleError String
unfolding trim is_safe_identifier is_system_table
checked_table input =
    let table = trim (given_or input.table (given_or input.table_pattern "")) in
    if table == ""
    then err no_table
    else if not (is_safe_identifier table)
    then err unsafe_table
    else if is_system_table table
    then err system_table
    else ok table

unfoldable pub checked_epoch_unit : RuleInput → Result RuleError String
checked_epoch_unit input =
    let unit = or_text input.epoch_unit "auto" in
    if includes unit epoch_units then ok unit else err bad_epoch_unit

-- The two checks on the criteria.
unfoldable pub checked_criteria :
    Option ℕ → Option ℕ → Option String → Option Conditions → Result RuleError Bool
checked_criteria age rows date conditions =
    if is_none age && is_none rows && is_none conditions
    then err no_criterion
    else if not (is_none age) && is_none date
    then err no_date_column
    else ok true

-- `is_cron` is validateCron finding no error.
unfoldable pub checked_schedule : (String → Bool) → RuleInput → Result RuleError String
unfolding trim
checked_schedule is_cron input =
    let schedule = trim (or_text input.schedule "") in
    if is_cron schedule then ok schedule else err bad_schedule

-- input.enabled !== false
abbrev pub not_disabled : Option Bool → Bool
not_disabled none = true
not_disabled (some b) = b

unfoldable pub normalise_rule : (String → Bool) → RuleInput → Result RuleError Rule
unfolding optional_positive_int checked_name checked_table checked_epoch_unit checked_criteria
    checked_schedule
normalise_rule is_cron input = and_then (checked_name input) λ name.
    and_then (checked_table input) λ table. and_then (checked_epoch_unit input) λ unit.
      and_then (optional_positive_int input.max_age_value "maximum age" (max_age input.in_hours))
        λ age. and_then (optional_positive_int input.max_rows "rows to keep" (10 ^ 12)) λ rows.
          and_then (optional_column input.date_column "date column") λ date.
            and_then (optional_column input.order_column "order column") λ order.
              and_then (normalise_conditions input.conditions) λ conditions.
                and_then (checked_criteria age rows date conditions) λ criteria.
                  and_then (checked_schedule is_cron input) λ schedule.
                    and_then (optional_positive_int input.safety_limit "safety limit" (10 ^ 12))
                      λ limit. ok record {
                        name = name;
                        table_pattern = table;
                        exclude_pattern = "";
                        date_column = if is_none age then none else date;
                        max_age_value = age;
                        in_hours = input.in_hours;
                        epoch_unit = if is_none age then "auto" else unit;
                        max_rows = rows;
                        order_column = if is_none rows then none else order;
                        conditions = conditions;
                        schedule = schedule;
                        enabled = not_disabled input.enabled;
                        safety_limit = limit;
                        reclaim_storage = input.reclaim_storage;
                      }
