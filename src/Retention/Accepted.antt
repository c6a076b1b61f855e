-- ===== src/Retention/Accepted.antt =====
-- src/console/retention.js: what a rule is that normaliseRule accepts.
use ichibi_lake.Base.{
  ℕ, String, ◌≡◌, ◌==◌, refl, ap, suc, Bool, true, false, not, ◌&&◌, ◌||◌, Option, none, some, List,
  [], ◌∷◌, ◌≤◌, ◌^◌, length, nat_eq, ltb, arith, Bool-cases, inl, inr, if◌then◌else◌,
}
use ichibi_lake.Base.Exec.{ok, and_then, and_then-ok, ok-injective}
use ichibi_lake.Base.Text.{trim, is_safe_identifier, or_text}
use ichibi_lake.Retention.Conditions.{
  Conditions, ConditionsInput, ConditionInput, Condition, normalise_conditions, normalise_items,
  with_column, optional_column,
}
use ichibi_lake.Retention.Tables.{is_system_table, is_prunable, is_legacy_multi_table}
use ichibi_lake.Retention.Rules.{
  Rule, RuleInput, Amount, absent, whole, no_whole, optional_positive_int, max_age, is_none,
  given_or, checked_name, checked_table, checked_criteria, checked_schedule, checked_epoch_unit,
  normalise_rule,
}

-- A number that is given lies between 1 and `max`.
abbrev pub Within : ℕ → Option ℕ → Type 0
Within max none = Unit
Within max (some n) = (1 ≤ n) × (n ≤ max)

abbrev pub Numbered : Option Conditions → Type 0
Numbered none = Unit
Numbered (some conditions) = (1 ≤ length conditions.items) × (length conditions.items ≤ 10)

-- A rule that can run: it has one table, which may be pruned, a criterion, and its amounts are
-- in their ranges.
abbrev pub IsRunnable : (String → Bool) → Rule → Type 0
IsRunnable is_cron rule =
    (is_prunable rule.table_pattern ≡ true)
    × (is_legacy_multi_table rule.exclude_pattern rule.table_pattern ≡ false)
    × ((is_none rule.max_age_value && is_none rule.max_rows && is_none rule.conditions) ≡ false)
    × ((is_none rule.max_age_value || not (is_none rule.date_column)) ≡ true)
    × Within (max_age rule.in_hours) rule.max_age_value
    × Within (10 ^ 12) rule.max_rows
    × Within (10 ^ 12) rule.safety_limit
    × Numbered rule.conditions
    × (is_cron rule.schedule ≡ true)

optional_positive_int-Within :
    (a : Amount) (label : String) (max : ℕ) (n : Option ℕ)
    → optional_positive_int a label max ≡ ok n
    → Within max n
unfolding optional_positive_int
optional_positive_int-Within absent label max n h =
    let e : none ≡ n = ground (arith, h) in rw (← e) tt
optional_positive_int-Within no_whole label max n h = absurd (ground (arith, h))
optional_positive_int-Within (whole k) label max n h = elim (Bool-cases (ltb k 1 || ltb max k)) [
  | inl bad ↦ absurd (ground (arith, h, bad))
  | inr good ↦
      let e : some k ≡ n = ground (arith, h, good) in
      rw (← e) (ground (arith, good), ground (arith, good))
]

normalise_items-length :
    (i : ℕ) (cs : List ConditionInput) (items : List Condition)
    → normalise_items i cs ≡ ok items
    → length items ≡ length cs
unfolding normalise_items
normalise_items-length i [] items h = let e : [] ≡ items = ground (arith, h) in rw (← e) refl
normalise_items-length i (c ∷ cs) items h =
    let (column, _, g) = and_then-ok (optional_column c.column "column in condition") _ h in
    let (item, _, k) = and_then-ok (with_column i c column) _ g in
    let (rest, d, l) = and_then-ok (normalise_items (suc i) cs) _ k in
    let e : item ∷ rest ≡ items = ground (arith, l) in
    rw (← e) (ap suc (normalise_items-length (suc i) cs rest d))

normalise_conditions-Numbered :
    (input : Option ConditionsInput) (conditions : Option Conditions)
    → normalise_conditions input ≡ ok conditions
    → Numbered conditions
unfolding normalise_conditions
normalise_conditions-Numbered none conditions h =
    let e : none ≡ conditions = ground (arith, h) in rw (← e) tt
normalise_conditions-Numbered (some input) conditions h =
    elim (Bool-cases (nat_eq (length input.items) 0)) [
      | inl empty ↦ let e : none ≡ conditions = ground (arith, h, empty) in rw (← e) tt
      | inr given ↦ elim (Bool-cases (ltb 10 (length input.items))) [
        | inl many ↦ absurd (ground (arith, h, given, many))
        | inr few ↦
            let g : and_then (normalise_items 1 input.items)
                  (λ items. ok (some record { match_any = input.match_any; items = items }))
                ≡ ok conditions =
              ground (arith, h, given, few) in
            let (items, d, k) = and_then-ok (normalise_items 1 input.items) _ g in
            let e : some record { match_any = input.match_any; items = items } ≡ conditions =
              ground (arith, k) in
            let l = normalise_items-length 1 input.items items d in
            rw (← e) (ground (arith, l, given), ground (arith, l, few))
      ]
    ]

checked_table-is_prunable :
    (input : RuleInput) (table : String)
    → checked_table input ≡ ok table
    → (is_prunable table ≡ true) × (is_legacy_multi_table "" table ≡ false)
unfolding checked_table is_prunable is_legacy_multi_table
checked_table-is_prunable input table h =
    let t = trim (given_or input.table (given_or input.table_pattern "")) in
    elim (Bool-cases (t == "")) [
      | inl none_given ↦ absurd (ground (arith, h, none_given))
      | inr given ↦ elim (Bool-cases (is_safe_identifier t)) [
        | inr unsafe ↦ absurd (ground (arith, h, given, unsafe))
        | inl safe ↦ elim (Bool-cases (is_system_table t)) [
          | inl system ↦ absurd (ground (arith, h, given, safe, system))
          | inr user ↦
              let e : t ≡ table = ground (arith, h, given, safe, user) in
              rw (← e) (ground (arith, safe, user), ground (arith, safe))
        ]
      ]
    ]

checked_schedule-is_cron :
    (is_cron : String → Bool) (input : RuleInput) (schedule : String)
    → checked_schedule is_cron input ≡ ok schedule
    → is_cron schedule ≡ true
unfolding checked_schedule
checked_schedule-is_cron is_cron input schedule h =
    let s = trim (or_text input.schedule "") in
    elim (Bool-cases (is_cron s)) [
      | inr bad ↦ absurd (ground (arith, h, bad))
      | inl good ↦ let e : s ≡ schedule = ground (arith, h, good) in rw (← e) good
    ]

checked_criteria-given :
    (age rows : Option ℕ) (date : Option String) (conditions : Option Conditions) {b : Bool}
    → checked_criteria age rows date conditions ≡ ok b
    → ((is_none age && is_none rows && is_none conditions) ≡ false)
      × ((is_none age || not (is_none (if is_none age then none else date))) ≡ true)
unfolding checked_criteria
checked_criteria-given age rows date conditions h = ground (arith, h)

-- A rule that the validation accepts can run: its one table is a safe name of no system table,
-- it has at least one criterion and a date column where it has an age, its amounts and the
-- number of its conditions are in their ranges, and its schedule is a cron expression.
pub normalise_rule-IsRunnable :
    (is_cron : String → Bool) (input : RuleInput) (rule : Rule)
    → normalise_rule is_cron input ≡ ok rule
    → IsRunnable is_cron rule
unfolding normalise_rule
normalise_rule-IsRunnable is_cron input rule h =
    let (name, _, h1) = and_then-ok (checked_name input) _ h in
    let (table, t, h2) = and_then-ok (checked_table input) _ h1 in
    let (unit, _, h3) = and_then-ok (checked_epoch_unit input) _ h2 in
    let (age, a, h4) =
      and_then-ok (optional_positive_int input.max_age_value "maximum age" (max_age input.in_hours))
        _ h3 in
    let (rows, r, h5) =
      and_then-ok (optional_positive_int input.max_rows "rows to keep" (10 ^ 12)) _ h4 in
    let (date, _, h6) = and_then-ok (optional_column input.date_column "date column") _ h5 in
    let (order, _, h7) = and_then-ok (optional_column input.order_column "order column") _ h6 in
    let (conditions, c, h8) = and_then-ok (normalise_conditions input.conditions) _ h7 in
    let (criteria, k, h9) = and_then-ok (checked_criteria age rows date conditions) _ h8 in
    let (schedule, s, h10) = and_then-ok (checked_schedule is_cron input) _ h9 in
    let (limit, l, h11) =
      and_then-ok (optional_positive_int input.safety_limit "safety limit" (10 ^ 12)) _ h10 in
    let (some_criterion, dated) = checked_criteria-given age rows date conditions k in
    let (prunable, single) = checked_table-is_prunable input table t in
    rw (← ok-injective h11) (
      prunable,
      single,
      some_criterion,
      dated,
      optional_positive_int-Within input.max_age_value _ (max_age input.in_hours) age a,
      optional_positive_int-Within input.max_rows _ (10 ^ 12) rows r,
      optional_positive_int-Within input.safety_limit _ (10 ^ 12) limit l,
      normalise_conditions-Numbered input.conditions conditions c,
      checked_schedule-is_cron is_cron input schedule s,
    )
