-- ===== src/Retention/Evaluation.antt =====
-- src/console/retention.js: evaluateTable, over the tables of the lake, and what a job uses of
-- the code outside the repository.
use ichibi_lake.Base.{
  ℕ, String, Bool, true, false, not, ◌||◌, ◌&&◌, Option, none, some, List, [], ◌∷◌, ◌==◌, length,
  filter, if◌then◌else◌,
}
use ichibi_lake.Base.Dict.{Dict, lookup}
use ichibi_lake.Base.Exec.{Result, ok, err, and_then}
use ichibi_lake.Retention.Columns.{is_epoch_type, detect_epoch_unit}
use ichibi_lake.Retention.Conditions.{table_gone}
use ichibi_lake.Retention.Tables.{is_prunable}
use ichibi_lake.Retention.Rules.{Rule}
use ichibi_lake.Retention.Predicates.{
  Preds, Stop, skipped, thrown, build_predicates, where_predicate, type_of, amount_given,
}

pub record Table (R : Type 0) : Type 0 where
  pub types : Dict String
  pub rows : List R

-- The main schema of the catalog, and the files that exist.
pub record Lake (R : Type 0) : Type 0 where
  pub tables : Dict (Table R)
  pub files : List String

-- max(abs(column)) as a JavaScript number, rounded to a double: no values, a number of which the
-- fraction is left out, or no finite one.
pub data MaxAbs : Type 0 where
  no_values : MaxAbs
  at_most : Option ℕ → MaxAbs

-- What the job uses of DuckDB, of path.resolve, of localeCompare and of its settings. `selects`
-- is the WHERE clause on a table of these rows, `none` where the statement is refused, and says
-- which rows it selects when CURRENT_TIMESTAMP is the given time. The three times are those of the
-- statements on a table: the count, the query for the files, and the DELETE.
pub record Services (R : Type 0) : Type 0 where
  pub selects : String → String → List R → Option (ℕ → R → Bool)
  pub count_time : String → ℕ
  pub files_time : String → ℕ
  pub delete_time : String → ℕ
  pub max_abs : String → List R → Option MaxAbs
  pub cell : String → R → Option String
  pub resolve : String → String
  pub sort : List String → List String
  pub use_filesystem_blobs : Bool
  pub blobs_path : String
  pub reclaims : List String → Bool

pub record Evaluation : Type 0 where
  pub preds : Option Preds
  pub types : Dict String
  pub row_count : ℕ
  pub total : ℕ

module _ {R : Type 0} (services : Services R) where
  -- count(*) FILTER (WHERE predicate)
  unfoldable pub count_where : String → String → List R → Option ℕ
  count_where table predicate rows = elim (services.selects table predicate rows) [
    | none ↦ none
    | some p ↦ some (length (filter (p (services.count_time table)) rows))
  ]

  -- A count that is '0' where there is no predicate, and else fails where the statement does.
  unfoldable pub counted : String → Option String → List R → Bool
  counted table none rows = true
  counted table (some predicate) rows = elim (services.selects table predicate rows) [
    | none ↦ predicate == ""
    | some p ↦ true
  ]

  -- resolveEpochUnit, which also says that the column has no values
  unfoldable pub resolve_epoch_unit : Rule → Table R → Result Stop (Option String × Bool)
  unfolding is_epoch_type detect_epoch_unit lookup
  resolve_epoch_unit rule table =
      if not (amount_given rule.max_age_value)
        || not (is_epoch_type (type_of rule.date_column table.types))
      then ok (none, false)
      else if not (rule.epoch_unit == "") && not (rule.epoch_unit == "auto")
      then ok (some rule.epoch_unit, false)
      else elim rule.date_column [
        | none ↦ ok (none, false)
        | some column ↦ elim (services.max_abs column table.rows) [
          | none ↦ err thrown
          | some no_values ↦ ok (none, true)
          | some (at_most v) ↦ ok (detect_epoch_unit v, false)
        ]
      ]

  -- The SELECT of the counts.
  unfoldable pub count_rows : String → Table R → Preds → Result Stop Evaluation
  unfolding count_where counted where_predicate
  count_rows name table preds =
      if counted name preds.age table.rows
        && counted name preds.count table.rows
        && counted name preds.matched table.rows
      then elim (count_where name (where_predicate preds) table.rows) [
        | none ↦ err thrown
        | some n ↦ ok record {
          preds = some preds;
          types = table.types;
          row_count = length table.rows;
          total = n;
        }
      ]
      else err thrown

  abbrev pub without_age : Rule → Bool → Rule
  without_age rule empty = if empty then record rule { max_age_value = none } else rule

  abbrev pub has_conditions : Rule → Bool
  has_conditions rule = elim rule.conditions [ none ↦ false | some c ↦ true ]

  -- evaluateTable after the check and the query of the columns
  unfoldable pub evaluate_found : Rule → String → Table R → Result Stop Evaluation
  unfolding resolve_epoch_unit count_rows build_predicates
  evaluate_found rule name table = and_then (resolve_epoch_unit rule table) λ epoch.
      if epoch.1 && not (amount_given rule.max_rows) && not (has_conditions rule)
      then ok record { preds = none; types = table.types; row_count = length table.rows; total = 0 }
      else and_then (build_predicates (without_age rule epoch.1) name table.types epoch.0)
          (count_rows name table)

  unfoldable pub evaluate_table : Rule → String → Lake R → Result Stop Evaluation
  unfolding evaluate_found is_prunable lookup
  evaluate_table rule name lake =
      if is_prunable name
      then elim (lookup name lake.tables) [
        | none ↦ err (skipped table_gone)
        | some table ↦ elim table.types [
          | [] ↦ err (skipped table_gone)
          | _ ∷ _ ↦ evaluate_found rule name table
        ]
      ]
      else err thrown
