-- ===== src/Retention/Totals.antt =====
-- src/console/retention.js: the total that evaluateTable finds is the number of rows that the WHERE
-- clause of the job selects.
use mathlib.Core.Option.{some-injective}
use ichibi_lake.Base.{
  List-cases, ap, String, ◌≡◌, refl, sym, Bool, true, false, Option, ◌∙◌, not, ◌&&◌, ◌||◌, ◌==◌,
  none, some, length, arith, inl, inr, Bool-cases, Option-cases,
}
use ichibi_lake.Base.Dict.{lookup}
use ichibi_lake.Base.Exec.{Result, ok, err, and_then, and_then-ok, ok-injective}
use ichibi_lake.Retention.Columns.{detect_epoch_unit, is_epoch_type}
use ichibi_lake.Retention.Tables.{is_prunable}
use ichibi_lake.Retention.Rules.{Rule}
use ichibi_lake.Retention.Predicates.{
  Preds, Stop, thrown, where_predicate, amount_given, type_of, build_predicates,
}
use ichibi_lake.Retention.Criteria.{IsWhere}
use ichibi_lake.Retention.Clauses.{either_branch, build_predicates-IsWhere, IsWhere-empty}
use ichibi_lake.Retention.Evaluation.{
  Table, Lake, Services, Evaluation, count_where, count_rows, evaluate_found, evaluate_table,
  resolve_epoch_unit, has_conditions, without_age, MaxAbs, no_values, at_most,
}

module _ {R : Type 0} (services : Services R) where
  -- The date column of the rule has no value in the table.
  abbrev pub HasNoValues : Rule → Table R → Type 0
  HasNoValues rule table =
      (column : String) × (rule.date_column ≡ some column)
      × (services.max_abs column table.rows ≡ some no_values)

  unfoldable pub TotalOf : Rule → String → Table R → Evaluation → Type 0
  TotalOf rule name table e =
      (preds : Preds)
      → e.preds ≡ some preds
      → (count_where services name (where_predicate preds) table.rows ≡ some e.total)
        × IsWhere (HasNoValues rule table) rule name table.types (where_predicate preds)

  count_rows-total :
      (name : String) (table : Table R) (preds : Preds) (e : Evaluation)
      → count_rows services name table preds ≡ ok e
      → (count_where services name (where_predicate preds) table.rows ≡ some e.total)
        × (e.preds ≡ some preds)
  unfolding count_rows
  count_rows-total name table preds e h =
      elim (Option-cases (count_where services name (where_predicate preds) table.rows)) [
        | inl failed ↦ absurd (ground (arith, h, failed))
        | inr (n, counted) ↦
            let made : Evaluation = record {
              preds = some preds;
              types = table.types;
              row_count = length table.rows;
              total = n;
            } in
            let r : made ≡ e = ok-injective {E = Stop} (ground (arith, h, counted)) in
            (counted ∙ ap (λ x. some x.total) r, sym (ap (λ x. x.preds) r))
      ]

  never :
      {u v : Option String}
      → Path (Result Stop (Option String × Bool)) (ok (u, false)) (ok (v, true))
      → ⊥
  never h = let e = ap (λ x. x.1) (ok-injective {E = Stop} h) in ground (arith, e)

  empty_max :
      (unit : Option String) (o : Option MaxAbs)
      → Path
          (Result Stop (Option String × Bool))
          (elim o [
            | none ↦ err thrown
            | some no_values ↦ ok (none, true)
            | some (at_most v) ↦ ok (detect_epoch_unit v, false)
          ])
          (ok (unit, true))
      → o ≡ some no_values
  empty_max unit none h = absurd (ground (arith, h))
  empty_max unit (some no_values) h = refl
  empty_max unit (some (at_most v)) h = absurd (never h)

  by_column :
      (rule : Rule) (table : Table R) (unit : Option String) (o : Option String)
      → rule.date_column ≡ o
      → Path
          (Result Stop (Option String × Bool))
          (elim o [
            | none ↦ ok (none, false)
            | some column ↦ elim (services.max_abs column table.rows) [
              | none ↦ err thrown
              | some no_values ↦ ok (none, true)
              | some (at_most v) ↦ ok (detect_epoch_unit v, false)
            ]
          ])
          (ok (unit, true))
      → HasNoValues rule table
  by_column rule table unit none e h = absurd (never h)
  by_column rule table unit (some column) e h =
      (column, e, empty_max unit (services.max_abs column table.rows) h)

  resolve_epoch_unit-empty :
      (rule : Rule) (table : Table R) (unit : Option String)
      → resolve_epoch_unit services rule table ≡ ok (unit, true)
      → HasNoValues rule table
  unfolding resolve_epoch_unit
  resolve_epoch_unit-empty rule table unit h =
      elim (either_branch
        (not (amount_given rule.max_age_value)
          || not (is_epoch_type (type_of rule.date_column table.types)))
        _ _ h) [
          | inl (_, e) ↦ absurd (never e)
          | inr (_, h1) ↦
              elim (either_branch (not (rule.epoch_unit == "") && not (rule.epoch_unit == "auto")) _
                _ h1) [
                  | inl (_, e) ↦ absurd (never e)
                  | inr (_, h2) ↦ by_column rule table unit rule.date_column refl h2
                ]
        ]

  with_age-IsWhere :
      (rule : Rule) (name : String) (table : Table R) (unit : Option String) (empty : Bool)
      (preds : Preds)
      → resolve_epoch_unit services rule table ≡ ok (unit, empty)
      → build_predicates (without_age services rule empty) name table.types unit ≡ ok preds
      → IsWhere (HasNoValues rule table) rule name table.types (where_predicate preds)
  with_age-IsWhere rule name table unit true preds e h =
      let none_there = resolve_epoch_unit-empty rule table unit e in
      IsWhere-empty (HasNoValues rule table) rule name table.types (where_predicate preds)
        none_there
        (build_predicates-IsWhere (HasNoValues rule table) (record rule { max_age_value = none })
          name table.types unit preds h)
  with_age-IsWhere rule name table unit false preds e h =
      build_predicates-IsWhere (HasNoValues rule table) rule name table.types unit preds h

  evaluate_found-total :
      (rule : Rule) (name : String) (table : Table R) (e : Evaluation)
      → evaluate_found services rule name table ≡ ok e
      → TotalOf rule name table e
  unfolding evaluate_found TotalOf
  evaluate_found-total rule name table e h others same =
      let (epoch, found, h1) = and_then-ok (resolve_epoch_unit services rule table) _ h in
      let empty =
        epoch.1 && not (amount_given rule.max_rows) && not (has_conditions services rule) in
      elim (Bool-cases empty) [
        | inl nothing ↦
            let made : Evaluation = record {
              preds = none;
              types = table.types;
              row_count = length table.rows;
              total = 0;
            } in
            let r : made ≡ e = ok-injective {E = Stop} (ground (arith, h1, nothing)) in
            absurd (ground (arith, same, ap (λ x. x.preds) r))
        | inr some_pred ↦
            let g : and_then
                  (build_predicates (without_age services rule epoch.1) name table.types epoch.0)
                  (count_rows services name table)
                ≡ ok e =
              ground (arith, h1, some_pred) in
            let (preds, built, k) =
              and_then-ok
                (build_predicates (without_age services rule epoch.1) name table.types epoch.0) _
                g in
            let (counted, made) = count_rows-total name table preds e k in
            let q : preds ≡ others = some-injective preds others (sym made ∙ same) in
            let clause = with_age-IsWhere rule name table epoch.0 epoch.1 preds found built in
            rw (← q) (counted, clause)
      ]

  pub evaluate_table-total :
      (rule : Rule) (name : String) (lake : Lake R) (table : Table R) (e : Evaluation)
      → evaluate_table services rule name lake ≡ ok e
      → lookup name lake.tables ≡ some table
      → TotalOf rule name table e
  unfolding evaluate_table TotalOf
  evaluate_table-total rule name lake table e h found = elim (Bool-cases (is_prunable name)) [
    | inr bad ↦ absurd (ground (arith, h, bad))
    | inl good ↦ elim (List-cases table.types) [
      | inl gone ↦ absurd (ground (arith, h, good, found, gone))
      | inr (x, xs, some_column) ↦
          evaluate_found-total rule name table e (ground (arith, h, good, found, some_column))
    ]
  ]
