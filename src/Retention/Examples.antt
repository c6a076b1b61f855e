-- ===== src/Retention/Examples.antt =====
-- Runs of src/console/retention.js at concrete inputs, and instances of the theorems about it.
-- A row is a number here, the WHERE clause of a rule selects the odd ones, and `sort` keeps the order.
use ichibi_lake.Base.{ℕ, String, ◌≡◌, refl, Bool, true, false, none, some, [], ◌∷◌, nat_eq, ◌%◌}
use ichibi_lake.Base.Dict.{lookup, insert}
use ichibi_lake.Base.Exec.{ok, err}
use ichibi_lake.Base.Text.{
  ◌⊕◌, is_safe_identifier, has_prefix, split, trim, trim_start, after_prefix, same_word, fold_case,
  code_units, decimal, join_with,
}
use ichibi_lake.Retention.Quoting.{double_quotes, sql_literal, quote_ident, like_escape}
use ichibi_lake.Retention.Literals.{read_sql_quoted, read-sql_literal-quote_ident}
use ichibi_lake.Retention.Columns.{
  is_castable_type, is_epoch_type, is_date_type, is_decimal, after_digits, drop_digits,
  is_timestamp, detect_epoch_unit, epoch_cutoff,
}
use ichibi_lake.Retention.Conditions.{
  contains, one_of, is_null, system_table, unsafe_table, no_criterion, invalid_amount, has_code,
  optional_column, comma_list, listed_value, normalise_item, normalise_items, normalise_conditions,
  condition_sql, condition_parts, build_condition_predicate, missing_match,
}
use ichibi_lake.Retention.Tables.{
  is_system_table, is_prunable, glob_matches, is_selected, match_tables,
}
use ichibi_lake.Retention.Rules.{
  Rule, RuleInput, absent, whole, optional_positive_int, checked_name, checked_table,
  checked_epoch_unit, checked_criteria, checked_schedule, normalise_rule,
}
use ichibi_lake.Retention.Accepted.{IsRunnable, normalise_rule-IsRunnable}
use ichibi_lake.Retention.Predicates.{
  age_predicate, age_of_type, epoch_age, count_predicate, match_predicate, build_predicates,
  where_predicate,
}
use ichibi_lake.Retention.Evaluation.{
  Lake, Services, no_values, count_where, counted, resolve_epoch_unit, count_rows, evaluate_found,
  evaluate_table,
}
use ichibi_lake.Retention.Jobs.{
  succeeded, failed, contained_blob_path, blob_files, unlink_all, delete_selected, delete_rows,
  prune_evaluated, prune_table, prune_tables, user_table_names, reclaim, run_job,
}
use ichibi_lake.Retention.Spared.{rows_in}

-- Everything that a run of the component computes with.
runs : Unit {0}
unfolding is_safe_identifier has_prefix split trim trim_start after_prefix same_word fold_case
    code_units decimal join_with lookup insert double_quotes sql_literal quote_ident like_escape
    is_castable_type is_epoch_type is_date_type is_decimal after_digits drop_digits is_timestamp
    detect_epoch_unit epoch_cutoff has_code optional_column comma_list listed_value normalise_item
    normalise_items normalise_conditions condition_sql condition_parts build_condition_predicate
    is_system_table is_prunable glob_matches is_selected match_tables optional_positive_int
    checked_name checked_table checked_epoch_unit checked_criteria checked_schedule normalise_rule
    age_predicate age_of_type epoch_age count_predicate match_predicate build_predicates
    where_predicate count_where counted resolve_epoch_unit count_rows evaluate_found evaluate_table
    contained_blob_path blob_files unlink_all delete_selected delete_rows prune_evaluated
    prune_table prune_tables user_table_names reclaim run_job read_sql_quoted
runs = tt

read-sql_literal-quote_ident_example :
    (read_sql_quoted b'\'' (sql_literal "it's" ⊕ ")") ≡ some ("it's", ")"))
    × (read_sql_quoted b'"' (quote_ident "it's" ⊕ ")") ≡ some ("it's", ")"))
read-sql_literal-quote_ident_example = read-sql_literal-quote_ident "it's" ")" refl refl

glob_tests :
    (is_selected "logs_*, events" "logs_old?" "LOGS_new" ≡ true)
    × (is_selected "logs_*, events" "logs_old?" "logs_old1" ≡ false)
    × (is_selected "*" "" "_table_acls" ≡ true)
    × (is_system_table "_table_acls" ≡ true)
unfolding runs
glob_tests = (refl, refl, refl, refl)

abbrev input : RuleInput
input = record {
  name = some "old events";
  table = some " events ";
  table_pattern = none;
  in_hours = false;
  epoch_unit = none;
  max_age_value = absent;
  max_rows = whole 1;
  safety_limit = whole 2;
  date_column = none;
  order_column = some "id";
  conditions = none;
  schedule = some "@daily";
  enabled = none;
  reclaim_storage = false;
}

abbrev rule : Rule
rule = record {
  name = "old events";
  table_pattern = "events";
  exclude_pattern = "";
  date_column = none;
  max_age_value = none;
  in_hours = false;
  epoch_unit = "auto";
  max_rows = some 1;
  order_column = some "id";
  conditions = none;
  schedule = "@daily";
  enabled = true;
  safety_limit = some 2;
  reclaim_storage = false;
}

abbrev any_schedule : String → Bool
any_schedule s = true

accepted : normalise_rule any_schedule input ≡ ok rule
unfolding runs
accepted = refl

input_tests :
    (normalise_rule any_schedule (record input { table = some "_rbac_users" }) ≡ err system_table)
    × (normalise_rule any_schedule (record input { table = some "logs_*" }) ≡ err unsafe_table)
    × (normalise_rule any_schedule (record input { max_rows = absent }) ≡ err no_criterion)
    × (normalise_rule any_schedule (record input { max_rows = whole 0 })
        ≡ err (invalid_amount "rows to keep"))
unfolding runs
input_tests = (refl, refl, refl, refl)

normalise_rule-IsRunnable_example : IsRunnable any_schedule rule
normalise_rule-IsRunnable_example = normalise_rule-IsRunnable any_schedule input rule accepted

condition_tests :
    (build_condition_predicate
        (record {
          match_any = true;
          items =
              record { column = "state"; op = contains; value = "50%" }
              ∷ record { column = "n"; op = one_of; value = "1, 2" }
              ∷ [];
        })
        (("state", "VARCHAR") ∷ ("n", "DECIMAL(10, 2)") ∷ [])
      ≡ ok
          "COALESCE((CAST(\"state\" AS VARCHAR) ILIKE '%50\\%%' ESCAPE '\\') OR (\"n\" IN (TRY_CAST('1' AS DECIMAL(10, 2)), TRY_CAST('2' AS DECIMAL(10, 2)))), false)")
    × (build_condition_predicate
          (record {
            match_any = false;
            items = record { column = "state"; op = is_null; value = "" } ∷ [];
          })
          []
        ≡ err (missing_match "state"))
unfolding runs
condition_tests = (refl, refl)

abbrev services : Services ℕ
services = record {
  selects = λ table sql rows. some (λ now n. nat_eq (n % 2) 1);
  count_time = λ table. 1000;
  files_time = λ table. 1001;
  delete_time = λ table. 1002;
  max_abs = λ column rows. some no_values;
  cell = λ column row. none;
  resolve = λ path. path;
  sort = λ xs. xs;
  use_filesystem_blobs = false;
  blobs_path = "./data/blobs";
  reclaims = λ names. true;
}

abbrev lake : Lake ℕ
lake = record {
  tables =
      ("_table_acls", record { types = ("id", "INTEGER") ∷ []; rows = 1 ∷ 3 ∷ [] })
      ∷ ("events", record { types = ("id", "INTEGER") ∷ []; rows = 1 ∷ 2 ∷ 3 ∷ 4 ∷ [] })
      ∷ [];
  files = [];
}

job_tests :
    ((run_job services rule lake).0 ≡ succeeded)
    × (rows_in "events" (run_job services rule lake).2 ≡ 2 ∷ 4 ∷ [])
    × (rows_in "_table_acls" (run_job services rule lake).2 ≡ 1 ∷ 3 ∷ [])
    × ((run_job services (record rule { safety_limit = some 1 }) lake).0 ≡ failed)
    × (rows_in "events" (run_job services (record rule { safety_limit = some 1 }) lake).2
        ≡ 1 ∷ 2 ∷ 3 ∷ 4 ∷ [])
unfolding runs
job_tests = (refl, refl, refl, refl, refl)
