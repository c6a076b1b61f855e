-- ===== src/Retention/Criteria.antt =====
-- src/console/retention.js: what the WHERE clause of a rule on a table says, written out apart from
-- buildPredicates and wherePredicate.
use ichibi_lake.Base.{
  ℕ, String, ◌≡◌, true, false, Option, none, some, [], ◌∷◌, map, includes, ◌⊎◌, if◌then◌else◌,
}
use ichibi_lake.Base.Dict.{Dict}
use ichibi_lake.Base.Exec.{ok}
use ichibi_lake.Base.Text.{◌⊕◌, trim, same_word, join_with, decimal}
use ichibi_lake.Retention.Quoting.{quote_ident}
use ichibi_lake.Retention.Columns.{is_date_type, is_epoch_type}
use ichibi_lake.Retention.Conditions.{Conditions, in_parentheses, build_condition_predicate}
use ichibi_lake.Retention.Rules.{Rule}
use ichibi_lake.Retention.Predicates.{name_or_null, type_of, amount_given, given_texts}

-- The time before which a row is too old.
abbrev pub oldest : Rule → ℕ → String
oldest rule n =
    "CAST(CURRENT_TIMESTAMP AS TIMESTAMP) - INTERVAL "
    ⊕ decimal n
    ⊕ " "
    ⊕ (if rule.in_hours then "HOUR" else "DAY")

-- The column, of the type, is before that time.
abbrev pub IsOlder : Rule → String → ℕ → String → String → Type 0
IsOlder rule column n type sql =
    ((same_word "DATE" type ≡ true)
      × (sql ≡ quote_ident column ⊕ " < CAST(" ⊕ oldest rule n ⊕ " AS DATE)"))
    ⊎ ((is_date_type type ≡ true) × (sql ≡ quote_ident column ⊕ " < " ⊕ oldest rule n))
    ⊎ ((is_epoch_type type ≡ true)
        × (f : String) × (includes f ("epoch(" ∷ "epoch_ms(" ∷ "epoch_us(" ∷ "epoch_ns(" ∷ [])
            ≡ true)
        × (sql ≡ quote_ident column ⊕ " < " ⊕ (f ⊕ oldest rule n ⊕ ")")))

-- The criterion by age; `Empty` says that there is none although the rule gives an age.
abbrev pub IsAge : Type 0 → Rule → Dict String → Option String → Type 0
IsAge Empty rule types age =
    ((age ≡ none) × ((amount_given rule.max_age_value ≡ false) ⊎ Empty))
    ⊎ ((n : ℕ) × (sql : String) × (rule.max_age_value ≡ some n)
        × (age ≡ some sql)
        × IsOlder rule (name_or_null rule.date_column) n (trim (type_of rule.date_column types))
            sql)

-- The order in which the newest rows come first.
abbrev pub IsNewest : Option String → String → Type 0
IsNewest none order = order ≡ "rowid DESC"
IsNewest (some column) order =
    ((column ≡ "") × (order ≡ "rowid DESC"))
    ⊎ (order ≡ quote_ident column ⊕ " DESC NULLS LAST, rowid DESC")

abbrev pub IsCount : Rule → String → Option String → Type 0
IsCount rule table count =
    ((count ≡ none) × (amount_given rule.max_rows ≡ false))
    ⊎ ((n : ℕ) × (order : String) × (rule.max_rows ≡ some n)
        × IsNewest rule.order_column order
        × (count
            ≡ some (
                "rowid IN (SELECT rowid FROM "
                ⊕ quote_ident table
                ⊕ " ORDER BY "
                ⊕ order
                ⊕ " OFFSET "
                ⊕ decimal n
                ⊕ ")")))

abbrev pub IsMatch : Rule → Dict String → Option String → Type 0
IsMatch rule types matched =
    ((matched ≡ none) × ((c : Conditions) → rule.conditions ≡ some c → c.items ≡ []))
    ⊎ ((c : Conditions) × (sql : String) × (rule.conditions ≡ some c)
        × (matched ≡ some sql)
        × (build_condition_predicate c types ≡ ok sql))

-- The clause of the rule on a table with these columns: any of the criteria that it gives.
pub record IsWhere (Empty : Type 0) (rule : Rule) (table : String) (types : Dict String)
    (sql : String) : Type 0 where
  pub age : Option String
  pub count : Option String
  pub matched : Option String
  pub by_age : IsAge Empty rule types age
  pub by_count : IsCount rule table count
  pub by_match : IsMatch rule types matched
  pub text : sql ≡ join_with " OR " (map in_parentheses (given_texts (age ∷ count ∷ matched ∷ [])))
