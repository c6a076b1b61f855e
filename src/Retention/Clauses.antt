-- ===== src/Retention/Clauses.antt =====
-- buildPredicates and wherePredicate of src/console/retention.js make the WHERE clause that
-- Retention/Criteria describes.
use mathlib.Core.Option.{some-injective}
use ichibi_lake.Base.{
  List-cases, ℕ, zero, suc, String, ◌≡◌, refl, sym, ap, ◌∙◌, Bool, true, false, ◌||◌, Option, none,
  some, [], ◌∷◌, ◌==◌, includes, arith, ◌⊎◌, inl, inr, if◌then◌else◌, eq_iff,
}
use ichibi_lake.Base.Dict.{Dict, lookup}
use ichibi_lake.Base.Exec.{Result, ok, err, and_then, and_then-ok, ok-injective}
use ichibi_lake.Base.Text.{◌⊕◌, trim, same_word}
use ichibi_lake.Retention.Quoting.{quote_ident}
use ichibi_lake.Retention.Columns.{is_date_type, is_epoch_type, epoch_cutoff}
use ichibi_lake.Retention.Conditions.{Conditions, Skip, build_condition_predicate}
use ichibi_lake.Retention.Rules.{Rule}
use ichibi_lake.Retention.Predicates.{
  Preds, Stop, thrown, name_or_null, cutoff, in_order, epoch_age, age_of_type, type_of,
  amount_given, age_predicate, ordered_by, count_predicate, or_skip, match_predicate,
  build_predicates, where_predicate,
}
use ichibi_lake.Retention.Criteria.{oldest, IsOlder, IsAge, IsCount, IsMatch, IsWhere}

-- One of two branches is taken.
pub either_branch {ℓ} :
    {A : Type ℓ} (b : Bool) (x y : A) {z : A}
    → (if b then x else y) ≡ z
    → ((b ≡ true) × (x ≡ z)) ⊎ ((b ≡ false) × (y ≡ z))
either_branch true x y h = inl (refl, h)
either_branch false x y h = inr (refl, h)

IsEpochLimit : String → String → Type 0
IsEpochLimit cut limit =
    (f : String) × (includes f ("epoch(" ∷ "epoch_ms(" ∷ "epoch_us(" ∷ "epoch_ns(" ∷ []) ≡ true)
    × (limit ≡ f ⊕ cut ⊕ ")")

epoch_cutoff_lem :
    (unit cut limit : String) → epoch_cutoff unit cut ≡ some limit → IsEpochLimit cut limit
unfolding epoch_cutoff IsEpochLimit
epoch_cutoff_lem unit cut limit h = elim (either_branch (unit == "s") _ _ h) [
  | inl (_, e) ↦ ("epoch(", refl, sym (some-injective _ _ e))
  | inr (_, h1) ↦ elim (either_branch (unit == "ms") _ _ h1) [
    | inl (_, e) ↦ ("epoch_ms(", refl, sym (some-injective _ _ e))
    | inr (_, h2) ↦ elim (either_branch (unit == "us") _ _ h2) [
      | inl (_, e) ↦ ("epoch_us(", refl, sym (some-injective _ _ e))
      | inr (_, h3) ↦ elim (either_branch (unit == "ns") _ _ h3) [
        | inl (_, e) ↦ ("epoch_ns(", refl, sym (some-injective _ _ e))
        | inr (_, e) ↦ absurd (ground (arith, e))
      ]
    ]
  ]
]

epoch_age_lem :
    (rule : Rule) (column type : String) (n : ℕ) (unit : Option String) (age : Option String)
    → epoch_age rule column type n unit ≡ ok age
    → (sql : String) × (age ≡ some sql)
      × (f : String) × (includes f ("epoch(" ∷ "epoch_ms(" ∷ "epoch_us(" ∷ "epoch_ns(" ∷ []) ≡ true)
      × (sql ≡ quote_ident column ⊕ " < " ⊕ (f ⊕ oldest rule n ⊕ ")"))
unfolding epoch_age IsEpochLimit
epoch_age_lem rule column type n none age h = absurd (ground (arith, h))
epoch_age_lem rule column type n (some unit) age h =
    elim (either_branch (unit == "" || unit == "auto") _ _ h) [
      | inl (_, e) ↦ absurd (ground (arith, e))
      | inr (_, h1) ↦
          elim (epoch_cutoff unit (cutoff rule n))
              as (λ o.
                epoch_cutoff unit (cutoff rule n) ≡ o
                → Path (Result Stop (Option String))
                    (elim o [
                      | none ↦ err thrown
                      | some limit ↦ ok (some (quote_ident column ⊕ " < " ⊕ limit))
                    ])
                    (ok age)
                → (sql : String) × (age ≡ some sql)
                  × (f : String) × (includes f
                        ("epoch(" ∷ "epoch_ms(" ∷ "epoch_us(" ∷ "epoch_ns(" ∷ [])
                      ≡ true)
                  × (sql ≡ quote_ident column ⊕ " < " ⊕ (f ⊕ oldest rule n ⊕ ")"))) [
                    | none ↦ λ found e. absurd (ground (arith, e))
                    | some limit ↦ λ found e.
                        let (f, known, made) = epoch_cutoff_lem unit (cutoff rule n) limit found in
                        (
                          quote_ident column ⊕ " < " ⊕ limit,
                          sym (ok-injective {E = Stop} e),
                          f,
                          known,
                          ap (λ x. quote_ident column ⊕ " < " ⊕ x) made,
                        )
                  ]
            refl h1
    ]

age_of_type_lem :
    (rule : Rule) (column type : String) (n : ℕ) (unit : Option String) (age : Option String)
    → age_of_type rule column type n unit ≡ ok age
    → (sql : String) × (age ≡ some sql) × IsOlder rule column n type sql
unfolding age_of_type
age_of_type_lem rule column type n unit age h = elim (either_branch (type == "") _ _ h) [
  | inl (_, e) ↦ absurd (ground (arith, e))
  | inr (_, h1) ↦ elim (either_branch (same_word "DATE" type) _ _ h1) [
    | inl (is_date, e) ↦ (_, sym (ok-injective {E = Stop} e), inl (is_date, refl))
    | inr (_, h2) ↦ elim (either_branch (is_date_type type) _ _ h2) [
      | inl (is_time, e) ↦ (_, sym (ok-injective {E = Stop} e), inr (inl (is_time, refl)))
      | inr (_, h3) ↦ elim (either_branch (is_epoch_type type) _ _ h3) [
        | inl (is_epoch, e) ↦
            let (sql, same, f, known, made) = epoch_age_lem rule column type n unit age e in
            (sql, same, inr (inr (is_epoch, f, known, made)))
        | inr (_, e) ↦ absurd (ground (arith, e))
      ]
    ]
  ]
]

age_predicate_lem :
    (Empty : Type 0) (rule : Rule) (types : Dict String) (unit : Option String) (o : Option ℕ)
    (age : Option String)
    → rule.max_age_value ≡ o
    → age_predicate rule types unit o ≡ ok age
    → IsAge Empty rule types age
unfolding age_predicate
age_predicate_lem Empty rule types unit none age e h =
    inl (sym (ok-injective {E = Stop} h), inl (ap amount_given e))
age_predicate_lem Empty rule types unit (some zero) age e h =
    inl (sym (ok-injective {E = Stop} h), inl (ap amount_given e))
age_predicate_lem Empty rule types unit (some (suc n)) age e h =
    let (sql, same, older) =
      age_of_type_lem rule (name_or_null rule.date_column) (trim (type_of rule.date_column types))
        (suc n) unit age h in
    inr (suc n, sql, e, same, older)

ordered_by_lem :
    (table column : String) (n : ℕ) (type count : Option String)
    → ordered_by table column n type ≡ ok count
    → count ≡ some (in_order table (quote_ident column ⊕ " DESC NULLS LAST, rowid DESC") n)
ordered_by_lem table column n none count h = absurd (ground (arith, h))
ordered_by_lem table column n (some type) count h = sym (ok-injective {E = Stop} h)

count_predicate_lem :
    (rule : Rule) (table : String) (types : Dict String) (order : Option String) (o : Option ℕ)
    (count : Option String)
    → rule.order_column ≡ order
    → rule.max_rows ≡ o
    → count_predicate order table types o ≡ ok count
    → IsCount rule table count
unfolding count_predicate
count_predicate_lem rule table types order none count by e h =
    inl (sym (ok-injective {E = Stop} h), ap amount_given e)
count_predicate_lem rule table types order (some zero) count by e h =
    inl (sym (ok-injective {E = Stop} h), ap amount_given e)
count_predicate_lem rule table types none (some (suc n)) count by e h =
    inr (suc n, "rowid DESC", e, rw by refl, sym (ok-injective {E = Stop} h))
count_predicate_lem rule table types (some column) (some (suc n)) count by e h =
    elim (either_branch (column == "") _ _ h) [
      | inl (no_name, g) ↦ inr (
        suc n,
        "rowid DESC",
        e,
        rw by (inl ((eq_iff column "").0 no_name, refl)),
        sym (ok-injective {E = Stop} g),
      )
      | inr (_, g) ↦ inr (
        suc n,
        quote_ident column ⊕ " DESC NULLS LAST, rowid DESC",
        e,
        rw by (inr refl),
        ordered_by_lem table column (suc n) (lookup column types) count g,
      )
    ]

or_skip_lem :
    (r : Result Skip String) (matched : Option String)
    → Path (Result Stop (Option String)) (and_then (or_skip r) (λ sql. ok (some sql))) (ok matched)
    → (sql : String) × (matched ≡ some sql) × (r ≡ ok sql)
or_skip_lem (ok sql) matched h = (sql, sym (ok-injective {E = Stop} h), refl)
or_skip_lem (err e) matched h = absurd (ground (arith, h))

match_predicate_lem :
    (rule : Rule) (types : Dict String) (o : Option Conditions) (matched : Option String)
    → rule.conditions ≡ o
    → match_predicate o types ≡ ok matched
    → IsMatch rule types matched
unfolding match_predicate
match_predicate_lem rule types none matched e h =
    inl (sym (ok-injective {E = Stop} h), λ c given. absurd (ground (arith, sym e ∙ given)))
match_predicate_lem rule types (some c) matched e h = elim (List-cases c.items) [
  | inl nothing ↦ inl (
    ground (arith, h, nothing),
    λ d given. ap (λ x. x.items) (some-injective _ _ (sym given ∙ e)) ∙ nothing,
  )
  | inr (x, xs, something) ↦
      let (sql, made, built) =
        or_skip_lem (build_condition_predicate c types) matched (ground (arith, h, something)) in
      inr (c, sql, e, made, built)
]

-- The clause of the predicates that a rule becomes is the clause of the rule.
pub build_predicates-IsWhere :
    (Empty : Type 0) (rule : Rule) (table : String) (types : Dict String) (unit : Option String)
    (preds : Preds)
    → build_predicates rule table types unit ≡ ok preds
    → IsWhere Empty rule table types (where_predicate preds)
unfolding build_predicates where_predicate
build_predicates-IsWhere Empty rule table types unit preds h =
    let (age, a, h1) = and_then-ok (age_predicate rule types unit rule.max_age_value) _ h in
    let (count, b, h2) =
      and_then-ok (count_predicate rule.order_column table types rule.max_rows) _ h1 in
    let (matched, c, h3) = and_then-ok (match_predicate rule.conditions types) _ h2 in
    let made : record { age = age; count = count; matched = matched } ≡ preds =
      ok-injective {E = Stop} h3 in
    record {
      age = age;
      count = count;
      matched = matched;
      by_age = age_predicate_lem Empty rule types unit rule.max_age_value age refl a;
      by_count =
          count_predicate_lem rule table types rule.order_column rule.max_rows count refl refl b;
      by_match = match_predicate_lem rule types rule.conditions matched refl c;
      text = ap where_predicate (sym made);
    }

-- A rule whose age is left out, for a column without values.
pub IsWhere-empty :
    (Empty : Type 0) (rule : Rule) (table : String) (types : Dict String) (sql : String)
    → Empty
    → IsWhere Empty (record rule { max_age_value = none }) table types sql
    → IsWhere Empty rule table types sql
IsWhere-empty Empty rule table types sql empty w = record {
  age = w.age;
  count = w.count;
  matched = w.matched;
  by_age = elim w.by_age [
    | inl (no_age, _) ↦ inl (no_age, inr empty)
    | inr (n, text, given, _, _) ↦ absurd (ground (arith, given))
  ];
  by_count = w.by_count;
  by_match = w.by_match;
  text = w.text;
}
