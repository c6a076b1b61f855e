-- ===== src/Retention/Spared.antt =====
-- src/console/retention.js: what a job leaves of the tables.
use mathlib.Core.Option.{some-injective}
use ichibi_lake.Base.{
  ℕ, ◌≤◌, String, ◌≡◌, refl, sym, ◌∙◌, Bool, true, false, not, Option, none, some, List, [], ◌==◌,
  nat_eq, length, filter, arith, ◌⊎◌, inl, inr, eq_refl, Bool-cases, if◌then◌else◌,
}
use ichibi_lake.Base.Dict.{lookup, lookup-insert}
use ichibi_lake.Base.Exec.{Result, ok, err}
use ichibi_lake.Retention.Tables.{is_prunable}
use ichibi_lake.Retention.Rules.{Rule}
use ichibi_lake.Retention.Predicates.{Preds, Stop, skipped, thrown, where_predicate}
use ichibi_lake.Retention.Evaluation.{
  Table, Lake, Services, Evaluation, count_where, evaluate_table,
}
use ichibi_lake.Retention.Jobs.{
  table_failed, over_limit, nothing_to_delete, is_over, delete_selected, delete_chosen,
  delete_found, delete_rows, prune_evaluated, prune_table,
}
use ichibi_lake.Retention.Criteria.{IsWhere}
use ichibi_lake.Retention.Totals.{HasNoValues, TotalOf, evaluate_table-total}

abbrev pub WithinLimit : Option ℕ → ℕ → Type 0
WithinLimit none total = Unit
WithinLimit (some limit) total = (limit ≡ 0) ⊎ (total ≤ limit)

is_over-WithinLimit :
    (limit : Option ℕ) (total : ℕ) → is_over limit total ≡ false → WithinLimit limit total
is_over-WithinLimit none total within = tt
is_over-WithinLimit (some n) total within = elim (Bool-cases (nat_eq n 0)) [
  | inl none_set ↦ inl (ground (arith, none_set))
  | inr set ↦ inr (ground (arith, within, set))
]

abbrev pub table_in : {R : Type 0} → String → Lake R → Option (Table R)
table_in t lake = lookup t lake.tables

abbrev pub rows_of : {R : Type 0} → Option (Table R) → List R
rows_of none = []
rows_of (some table) = table.rows

abbrev pub rows_in : {R : Type 0} → String → Lake R → List R
rows_in t lake = rows_of (lookup t lake.tables)

module _ {R : Type 0} (services : Services R) where
  -- What a job may do to a table: it leaves it, or the table may be pruned, the number of rows
  -- that the clause of the rule selected when they were counted is within the limit, and the rows
  -- that the clause selects at the time of the DELETE are gone.
  abbrev pub Pruned : Rule → String → Option (Table R) → Option (Table R) → Type 0
  Pruned rule t before after =
      (after ≡ before)
      ⊎ ((table : Table R) × (sql : String) × (p : ℕ → R → Bool) × (before ≡ some table)
          × (is_prunable t ≡ true)
          × IsWhere (HasNoValues services rule table) rule t table.types sql
          × (services.selects t sql table.rows ≡ some p)
          × WithinLimit rule.safety_limit (length (filter (p (services.count_time t)) table.rows))
          × (after
              ≡ some (record table {
                rows = filter (λ r. not (p (services.delete_time t) r)) table.rows;
              })))

  table_in-delete_selected :
      (name t : String) (table : Table R) (e : Evaluation) (p : ℕ → R → Bool) (lake : Lake R)
      → table_in t (delete_selected services name table e p lake).1 ≡ (
          if name == t
          then some (record table {
            rows = filter (λ r. not (p (services.delete_time name) r)) table.rows;
          })
          else table_in t lake)
  unfolding delete_selected
  table_in-delete_selected name t table e p lake =
      lookup-insert name t
        (record table { rows = filter (λ r. not (p (services.delete_time name) r)) table.rows })
        lake.tables

  count_where-some :
      (name sql : String) (rows : List R) (p : ℕ → R → Bool)
      → services.selects name sql rows ≡ some p
      → count_where services name sql rows
        ≡ some (length (filter (p (services.count_time name)) rows))
  unfolding count_where
  count_where-some name sql rows p h = rw (count_where, h) refl

  delete_chosen-Pruned :
      (rule : Rule) (name sql : String) (table : Table R) (e : Evaluation)
      (o : Option (ℕ → R → Bool)) (lake : Lake R)
      → is_over rule.safety_limit e.total ≡ false
      → is_prunable name ≡ true
      → table_in name lake ≡ some table
      → services.selects name sql table.rows ≡ o
      → count_where services name sql table.rows ≡ some e.total
      → IsWhere (HasNoValues services rule table) rule name table.types sql
      → Pruned rule name
          (table_in name lake)
          (table_in name (delete_chosen services name table e o lake).1)
  delete_chosen-Pruned rule name sql table e none lake within good found sel counted clause =
      inl refl
  delete_chosen-Pruned rule name sql table e (some p) lake within good found sel counted clause =
      let counts : length (filter (p (services.count_time name)) table.rows) ≡ e.total =
        some-injective _ _ (sym (count_where-some name sql table.rows p sel) ∙ counted) in
      let gone = table_in-delete_selected name name table e p lake ∙ rw (eq_refl name) refl in
      inr (
        table,
        sql,
        p,
        found,
        good,
        clause,
        sel,
        rw counts (is_over-WithinLimit rule.safety_limit e.total within),
        gone,
      )

  delete_found-Pruned :
      (rule : Rule) (name : String) (e : Evaluation) (preds : Preds) (o : Option (Table R))
      (lake : Lake R)
      → e.preds ≡ some preds
      → is_over rule.safety_limit e.total ≡ false
      → is_prunable name ≡ true
      → table_in name lake ≡ o
      → ((table : Table R) → o ≡ some table → TotalOf services rule name table e)
      → Pruned rule name
          (table_in name lake)
          (table_in name (delete_found services name o e preds lake).1)
  unfolding TotalOf
  delete_found-Pruned rule name e preds none lake h within good found counted = inl refl
  delete_found-Pruned rule name e preds (some table) lake h within good found counted =
      let (total, clause) = counted table refl preds h in
      delete_chosen-Pruned rule name (where_predicate preds) table e
        (services.selects name (where_predicate preds) table.rows) lake within good found refl total
        clause

  delete_rows-Pruned :
      (rule : Rule) (name : String) (e : Evaluation) (o : Option Preds) (lake : Lake R)
      → e.preds ≡ o
      → is_over rule.safety_limit e.total ≡ false
      → ((table : Table R) → table_in name lake ≡ some table → TotalOf services rule name table e)
      → Pruned rule name (table_in name lake) (table_in name (delete_rows services name e o lake).1)
  unfolding delete_rows
  delete_rows-Pruned rule name e none lake h within counted = inl refl
  delete_rows-Pruned rule name e (some preds) lake h within counted =
      elim (is_prunable name)
          as (λ b.
            is_prunable name ≡ b
            → Pruned rule name (table_in name lake) (
                table_in name
                  (if b
                    then delete_found services name (lookup name lake.tables) e preds lake
                    else (table_failed, lake)).1)) [
                      | false ↦ λ bad. inl refl
                      | true ↦ λ good.
                          delete_found-Pruned rule name e preds (lookup name lake.tables) lake h
                            within good refl counted
                    ]
        refl

  delete_found-other :
      (name t : String) (e : Evaluation) (preds : Preds) (o : Option (Table R)) (lake : Lake R)
      → (name == t) ≡ false
      → table_in t (delete_found services name o e preds lake).1 ≡ table_in t lake
  delete_found-other name t e preds none lake apart = refl
  delete_found-other name t e preds (some table) lake apart =
      elim (services.selects name (where_predicate preds) table.rows)
        as (λ o. table_in t (delete_chosen services name table e o lake).1 ≡ table_in t lake) [
          | none ↦ refl
          | some p ↦ table_in-delete_selected name t table e p lake ∙ rw apart refl
        ]

  delete_rows-other :
      (name t : String) (e : Evaluation) (o : Option Preds) (lake : Lake R)
      → (name == t) ≡ false
      → table_in t (delete_rows services name e o lake).1 ≡ table_in t lake
  unfolding delete_rows
  delete_rows-other name t e none lake apart = refl
  delete_rows-other name t e (some preds) lake apart = elim (Bool-cases (is_prunable name)) [
    | inr bad ↦ rw bad refl
    | inl good ↦ rw good (delete_found-other name t e preds (lookup name lake.tables) lake apart)
  ]

  -- What stays of an accepted evaluation: the guard on the limit, then the rows themselves.
  prune_evaluated-Pruned :
      (rule : Rule) (name : String) (r : Result Stop Evaluation) (lake : Lake R)
      → evaluate_table services rule name lake ≡ r
      → Pruned rule name
          (table_in name lake)
          (table_in name (prune_evaluated services rule name r lake).1)
  unfolding prune_evaluated
  prune_evaluated-Pruned rule name (err (skipped why)) lake h = inl refl
  prune_evaluated-Pruned rule name (err thrown) lake h = inl refl
  prune_evaluated-Pruned rule name (ok e) lake h =
      let done = delete_rows services name e e.preds lake in
      let kept : Lake R → Type 0 =
        λ after. Pruned rule name (table_in name lake) (table_in name after) in
      elim (is_over rule.safety_limit e.total)
          as (λ b.
            is_over rule.safety_limit e.total ≡ b
            → kept
                (if b
                  then (over_limit e.total, lake)
                  else if nat_eq e.total 0
                  then (nothing_to_delete, lake)
                  else done).1) [
                    | true ↦ λ over. inl refl
                    | false ↦ λ within.
                        elim (nat_eq e.total 0)
                          as (λ b. kept (if b then (nothing_to_delete, lake) else done).1) [
                            | true ↦ inl refl
                            | false ↦
                                delete_rows-Pruned rule name e e.preds lake refl within
                                  (λ table found.
                                    evaluate_table-total services rule name lake table e h found)
                          ]
                  ]
        refl

  prune_evaluated-other :
      (rule : Rule) (name t : String) (r : Result Stop Evaluation) (lake : Lake R)
      → (name == t) ≡ false
      → table_in t (prune_evaluated services rule name r lake).1 ≡ table_in t lake
  unfolding prune_evaluated
  prune_evaluated-other rule name t (err (skipped why)) lake apart = refl
  prune_evaluated-other rule name t (err thrown) lake apart = refl
  prune_evaluated-other rule name t (ok e) lake apart =
      let done = delete_rows services name e e.preds lake in
      elim (is_over rule.safety_limit e.total)
        as (λ b.
          table_in t
            (if b
              then (over_limit e.total, lake)
              else if nat_eq e.total 0
              then (nothing_to_delete, lake)
              else done).1
          ≡ table_in t lake) [
            | true ↦ refl
            | false ↦
                elim (nat_eq e.total 0)
                  as (λ b.
                    table_in t (if b then (nothing_to_delete, lake) else done).1
                    ≡ table_in t lake) [
                      | true ↦ refl
                      | false ↦ delete_rows-other name t e e.preds lake apart
                    ]
          ]

  pub prune_table-Pruned :
      (rule : Rule) (name : String) (lake : Lake R)
      → Pruned rule name
          (table_in name lake)
          (table_in name (prune_table services rule name lake).1)
  unfolding prune_table
  prune_table-Pruned rule name lake =
      prune_evaluated-Pruned rule name (evaluate_table services rule name lake) lake refl

  pub prune_table-other :
      (rule : Rule) (name t : String) (lake : Lake R)
      → (name == t) ≡ false
      → table_in t (prune_table services rule name lake).1 ≡ table_in t lake
  unfolding prune_table
  prune_table-other rule name t lake apart =
      prune_evaluated-other rule name t (evaluate_table services rule name lake) lake apart
