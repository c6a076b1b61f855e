-- ===== src/Retention/Jobs.antt =====
-- src/console/retention.js: deleteRows and runJob. The lake changes only by the job while it
-- runs, and writing the run log does not fail.
use ichibi_lake.Base.{
  ℕ, suc, ◌+◌, String, Bool, false, not, ◌&&◌, Option, none, some, List, [], ◌∷◌, ◌++◌, ◌==◌,
  nat_eq, ltb, length, map, filter, includes, if◌then◌else◌,
}
use ichibi_lake.Base.Dict.{Dict, lookup, insert}
use ichibi_lake.Base.Exec.{Result, ok, err}
use ichibi_lake.Base.Text.{◌⊕◌, is_safe_identifier, after_prefix, has_prefix}
use ichibi_lake.Retention.Conditions.{Skip}
use ichibi_lake.Retention.Tables.{is_system_table, is_prunable, match_tables}
use ichibi_lake.Retention.Rules.{Rule}
use ichibi_lake.Retention.Predicates.{Preds, Stop, skipped, thrown, where_predicate}
use ichibi_lake.Retention.Evaluation.{Table, Lake, Services, Evaluation, evaluate_table}

-- What the job does to one table.
pub data Outcome : Type 0 where
  table_skipped : Skip → Outcome
  over_limit : ℕ → Outcome
  nothing_to_delete : Outcome
  deleted : ℕ → ℕ → Outcome
  table_failed : Outcome

pub record Totals : Type 0 where
  pub processed : ℕ
  pub skipped : ℕ
  pub failures : ℕ
  pub deleted_total : ℕ
  pub affected : List String

pub data Status : Type 0 where
  succeeded partial failed : Status

-- rule.safetyLimit && total > rule.safetyLimit
abbrev pub is_over : Option ℕ → ℕ → Bool
is_over limit total = elim limit [ none ↦ false | some n ↦ not (nat_eq n 0) && ltb n total ]

module _ {R : Type 0} (services : Services R) where
  -- containedBlobPath
  unfoldable pub contained_blob_path : String → Option String
  unfolding has_prefix
  contained_blob_path stored =
      let resolved = services.resolve stored in
      if not (stored == "") && has_prefix (services.resolve services.blobs_path ⊕ "/") resolved
      then some resolved
      else none

  abbrev pub blob_of : Option String → List String
  blob_of none = []
  blob_of (some stored) = elim (contained_blob_path stored) [ none ↦ [] | some path ↦ path ∷ [] ]

  -- The files that a column of the rows refers to. Those listed twice are removed once.
  abbrev pub blobs_in : String → List R → List String
  blobs_in column [] = []
  blobs_in column (r ∷ rs) = blob_of (services.cell column r) ++ blobs_in column rs

  unfoldable pub blob_files : Dict String → List R → List String
  unfolding after_prefix contained_blob_path
  blob_files [] rows = []
  blob_files (entry ∷ types) rows = elim (after_prefix "VARCHAR" entry.1) [
    | none ↦ blob_files types rows
    | some rest ↦ blobs_in entry.0 rows ++ blob_files types rows
  ]

  -- fs.unlink of each file; one that does not exist is passed over.
  unfoldable pub unlink_all : List String → List String → ℕ × List String
  unlink_all [] files = (0, files)
  unlink_all (path ∷ paths) files =
      let rest = unlink_all paths (filter (λ f. not (f == path)) files) in
      if includes path files then (suc rest.0, rest.1) else rest

  -- The query for the files, the DELETE, and the removal of the files.
  unfoldable pub delete_selected :
      String → Table R → Evaluation → (ℕ → R → Bool) → Lake R → Outcome × Lake R
  unfolding unlink_all blob_files insert
  delete_selected name table evaluation p lake =
      let now = services.delete_time name in
      let gone = filter (p now) table.rows in
      let kept = record table { rows = filter (λ r. not (p now r)) table.rows } in
      let named = filter (p (services.files_time name)) table.rows in
      let blobs = if services.use_filesystem_blobs then blob_files evaluation.types named else [] in
      let unlinked = unlink_all blobs lake.files in
      (
        deleted (length gone) unlinked.0,
        record { tables = insert name kept lake.tables; files = unlinked.1 },
      )

  abbrev pub delete_chosen :
      String → Table R → Evaluation → Option (ℕ → R → Bool) → Lake R → Outcome × Lake R
  delete_chosen name table evaluation none lake = (table_failed, lake)
  delete_chosen name table evaluation (some p) lake = delete_selected name table evaluation p lake

  abbrev pub delete_found :
      String → Option (Table R) → Evaluation → Preds → Lake R → Outcome × Lake R
  delete_found name none evaluation preds lake = (table_failed, lake)
  delete_found name (some table) evaluation preds lake =
      delete_chosen name table evaluation (services.selects name (where_predicate preds) table.rows)
        lake

  -- deleteRows, with the answer of the job; a lack of predicates throws.
  unfoldable pub delete_rows : String → Evaluation → Option Preds → Lake R → Outcome × Lake R
  unfolding delete_selected where_predicate is_prunable lookup
  delete_rows name evaluation none lake = (table_failed, lake)
  delete_rows name evaluation (some preds) lake =
      let done = delete_found name (lookup name lake.tables) evaluation preds lake in
      if is_prunable name then done else (table_failed, lake)

  -- The body of withConnection in runJob.
  unfoldable pub prune_evaluated :
      Rule → String → Result Stop Evaluation → Lake R → Outcome × Lake R
  unfolding delete_rows
  prune_evaluated rule name (err (skipped why)) lake = (table_skipped why, lake)
  prune_evaluated rule name (err thrown) lake = (table_failed, lake)
  prune_evaluated rule name (ok evaluation) lake =
      let done = delete_rows name evaluation evaluation.preds lake in
      if is_over rule.safety_limit evaluation.total
      then (over_limit evaluation.total, lake)
      else if nat_eq evaluation.total 0
      then (nothing_to_delete, lake)
      else done

  unfoldable pub prune_table : Rule → String → Lake R → Outcome × Lake R
  unfolding evaluate_table prune_evaluated
  prune_table rule name lake =
      prune_evaluated rule name (evaluate_table services rule name lake) lake

  -- The counters after a table.
  abbrev pub tally : String → Outcome → Totals → Totals
  tally name outcome totals = elim outcome [
    | table_skipped why ↦ record totals { skipped = suc totals.skipped }
    | over_limit n ↦ record totals { failures = suc totals.failures }
    | table_failed ↦ record totals { failures = suc totals.failures }
    | nothing_to_delete ↦ record totals { processed = suc totals.processed }
    | deleted n blobs ↦ record totals {
      processed = suc totals.processed;
      deleted_total = totals.deleted_total + n;
      affected = if nat_eq n 0 then totals.affected else totals.affected ++ name ∷ [];
    }
  ]

  -- The loop over the tables.
  unfoldable pub prune_tables : Rule → List String → Totals → Lake R → Totals × Lake R
  unfolding prune_table
  prune_tables rule [] totals lake = (totals, lake)
  prune_tables rule (name ∷ names) totals lake =
      let one = prune_table rule name lake in
      prune_tables rule names (tally name one.0 totals) one.1

  -- userTableNames
  unfoldable pub user_table_names : Lake R → List String
  unfolding is_system_table is_safe_identifier
  user_table_names lake =
      filter (λ t. not (is_system_table t) && is_safe_identifier t)
        (map (λ entry. entry.0) lake.tables)

  abbrev pub no_totals : Totals
  no_totals = record { processed = 0; skipped = 0; failures = 0; deleted_total = 0; affected = [] }

  -- The reclaim of the storage of the affected tables.
  unfoldable pub reclaim : Rule → Totals → Totals
  reclaim rule totals =
      if rule.reclaim_storage
        && not (nat_eq (length totals.affected) 0)
        && not (services.reclaims totals.affected)
      then record totals { failures = suc totals.failures }
      else totals

  abbrev pub job_status : Totals → Status
  job_status totals =
      if nat_eq totals.failures 0
      then succeeded
      else if nat_eq totals.processed 0
      then failed
      else partial

  -- runJob: its status, the counters and the lake after it.
  unfoldable pub run_job : Rule → Lake R → Status × Totals × Lake R
  unfolding prune_tables user_table_names match_tables reclaim
  run_job rule lake =
      let names =
        match_tables services.sort (user_table_names lake) rule.table_pattern
          rule.exclude_pattern in
      let done = prune_tables rule names no_totals lake in
      let totals = reclaim rule done.0 in (job_status totals, totals, done.1)
