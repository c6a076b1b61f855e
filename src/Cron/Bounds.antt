-- ===== src/Cron/Bounds.antt =====
-- src/console/cron.js: the values that a parsed schedule can hold.
use mathlib.Core.Path.{subst}
use ichibi_lake.Base.{
  ℕ, suc, ◌+◌, ◌≤◌, String, ◌≡◌, refl, true, false, Option, none, some, List, [], ◌∷◌, ◌++◌, ◌==◌,
  ltb, length, All, arith, Bool-cases, inl, inr, if◌then◌else◌,
}
use ichibi_lake.Base.Exec.{ok, and_then, and_then-ok, ok-injective}
use ichibi_lake.Base.Text.{split, trim}
use ichibi_lake.Cron.Parse.{
  Field, CronError, Cron, minute_field, hour_field, day_field, month_field, weekday_field, index_in,
  number_of, numeric_value, parse_value, checked_step, parse_pair, single, parse_range, count_up,
  first_part, second_part, parse_item, parse_items, parse_field, parse_parts, parse_cron, words,
  expanded,
}
use ichibi_lake.Cron.Values.{
  Between, Fills, Named, index_in-lt, numeric_value-Between, count_up-Between, count_up_first,
  All-append, append-length, ends, Ranges, star_Ranges, split-cons, AllFill,
}

module _ (upper lower : String → String) (step_of : String → Option ℕ) where
  parse_value-Between :
      (field : Field) (token : String) (v : ℕ)
      → Named field
      → parse_value upper lower step_of field token ≡ ok v
      → Between field v
  unfolding parse_value
  parse_value-Between field token v (ordered, fits) =
      elim (index_in field.names (upper token))
          as (λ o.
            index_in field.names (upper token) ≡ o
            → elim o [ some i ↦ ok (i + field.min) | none ↦ numeric_value field (number_of token) ]
              ≡ ok v
            → Between field v) [
              | some i ↦ λ found h.
                  let less = index_in-lt field.names (upper token) i found in
                  let e : i + field.min ≡ v = ok-injective {E = CronError} h in
                  ground (arith, less, e, fits)
              | none ↦ λ missing h. numeric_value-Between field (number_of token) v h
            ]
        refl

  pair-Ranges :
      (field : Field) (a b : String)
      → Named field
      → Ranges field (parse_pair upper lower step_of field a b)
  unfolding Ranges parse_pair
  pair-Ranges field a b good range h =
      let (lo, e, g) = and_then-ok (parse_value upper lower step_of field a) _ h in
      let (hi, d, k) = and_then-ok (parse_value upper lower step_of field b) _ g in
      let low = parse_value-Between field a lo good e in
      let high = parse_value-Between field b hi good d in
      elim (Bool-cases (ltb hi lo)) [
        | inl bad ↦ absurd (ground (arith, k, bad))
        | inr ordered ↦
            let same : (lo, hi) ≡ range =
              ok-injective {E = CronError} (ground (arith, k, ordered)) in
            rw (← same) (low.0, ground (arith, ordered), high.1)
      ]

  single-Ranges :
      (field : Field) (step : Option String) (text : String)
      → Named field
      → Ranges field (single upper lower step_of field step text)
  unfolding Ranges
  single-Ranges field step text good range h =
      let (lo, e, g) = and_then-ok (parse_value upper lower step_of field text) _ h in
      let (low, high) = parse_value-Between field text lo good e in
      rw (← ok-injective {E = CronError} g)
        (low, (ends field step lo high).0, (ends field step lo high).1)

  range-Ranges :
      (field : Field) (step : Option String) (text : String)
      → Named field
      → Ranges field (parse_range upper lower step_of field step text)
  unfolding parse_range
  range-Ranges field step text good =
      elim (text == "*")
        as (λ b. Ranges field (
          if b then ok (field.min, field.max) else elim (split b'-' text) [
            | a ∷ b ∷ rest ↦ parse_pair upper lower step_of field a b
            | _ ↦ single upper lower step_of field step text
          ])) [
            | true ↦ star_Ranges field good
            | false ↦
                elim (split b'-' text)
                  as (λ parts. Ranges field (elim parts [
                    | a ∷ b ∷ rest ↦ parse_pair upper lower step_of field a b
                    | _ ↦ single upper lower step_of field step text
                  ])) [
                    | [] ↦ single-Ranges field step text good
                    | a ∷ [] ↦ single-Ranges field step text good
                    | a ∷ b ∷ rest ↦ pair-Ranges field a b good
                  ]
          ]

  item-Fills :
      (field : Field) (part : String) (vs : List ℕ)
      → Named field
      → parse_item upper lower step_of field part ≡ ok vs
      → Fills field vs
  unfolding parse_item Ranges
  item-Fills field part vs good h =
      let parts = split b'/' part in
      elim (Bool-cases (part == "")) [
        | inl empty ↦ absurd (ground (arith, h, empty))
        | inr given ↦
            let g : and_then (checked_step upper lower step_of (second_part parts)) (λ step.
              and_then
                (parse_range upper lower step_of field (second_part parts) (first_part parts))
                (λ range. ok (count_up (suc range.1) range.0 range.1 step)))
                ≡ ok vs =
              ground (arith, h, given) in
            let (step, _, k) =
              and_then-ok (checked_step upper lower step_of (second_part parts)) _ g in
            let (range, e, l) =
              and_then-ok
                (parse_range upper lower step_of field (second_part parts) (first_part parts)) _
                k in
            let (low, ordered, high) =
              range-Ranges field (second_part parts) (first_part parts) good range e in
            rw (← ok-injective {E = CronError} l) (
              count_up_first range.1 range.0 range.1 step ordered,
              count_up-Between field (suc range.1) range.0 range.1 step low high,
            )
      ]

  items-Between :
      (field : Field) (parts : List String) (vs : List ℕ)
      → Named field
      → parse_items upper lower step_of field parts ≡ ok vs
      → All (Between field) vs
  unfolding parse_items
  items-Between field [] vs good h = rw (← ok-injective {E = CronError} h) tt
  items-Between field (part ∷ parts) vs good h =
      let (values, e, g) = and_then-ok (parse_item upper lower step_of field part) _ h in
      let (rest, d, k) = and_then-ok (parse_items upper lower step_of field parts) _ g in
      rw (← ok-injective {E = CronError} k) (
        All-append (Between field) values rest (item-Fills field part values good e).1
          (items-Between field parts rest good d))

  items-Fills :
      (field : Field) (part : String) (parts : List String) (vs : List ℕ)
      → Named field
      → parse_items upper lower step_of field (part ∷ parts) ≡ ok vs
      → Fills field vs
  unfolding parse_items
  items-Fills field part parts vs good h =
      let (values, e, g) = and_then-ok (parse_item upper lower step_of field part) _ h in
      let (rest, d, k) = and_then-ok (parse_items upper lower step_of field parts) _ g in
      let (some_value, _) = item-Fills field part values good e in
      let same : values ++ rest ≡ vs = ok-injective {E = CronError} k in
      let all_between = items-Between field (part ∷ parts) vs good h in
      let longer : length values ≤ length vs =
        subst (λ xs. length values ≤ length xs) same (append-length values rest) in
      (ground (arith, some_value, longer), all_between)

  field-Fills :
      (field : Field) (text : String) (vs : List ℕ)
      → Named field
      → parse_field upper lower step_of field text ≡ ok vs
      → Fills field vs
  unfolding parse_field
  field-Fills field text vs good h =
      let (part, parts, e) = split-cons b',' text in
      items-Fills field part parts vs good
        (subst (λ ps. parse_items upper lower step_of field ps ≡ ok vs) e h)

  parts-AllFill :
      (parts : List String) (cron : Cron)
      → parse_parts upper lower step_of parts ≡ ok cron
      → AllFill cron
  unfolding parse_parts
  parts-AllFill (a ∷ b ∷ c ∷ d ∷ e ∷ []) cron h =
      let (minutes, m1, h1) = and_then-ok (parse_field upper lower step_of minute_field a) _ h in
      let (hours, m2, h2) = and_then-ok (parse_field upper lower step_of hour_field b) _ h1 in
      let (days, m3, h3) = and_then-ok (parse_field upper lower step_of day_field c) _ h2 in
      let (months, m4, h4) = and_then-ok (parse_field upper lower step_of month_field d) _ h3 in
      let (weekdays, m5, h5) = and_then-ok (parse_field upper lower step_of weekday_field e) _ h4 in
      rw (← ok-injective {E = CronError} h5) (
        field-Fills minute_field a minutes (ground arith, ground arith) m1,
        field-Fills hour_field b hours (ground arith, ground arith) m2,
        field-Fills day_field c days (ground arith, ground arith) m3,
        field-Fills month_field d months (ground arith, ground arith) m4,
        field-Fills weekday_field e weekdays (ground arith, ground arith) m5,
      )
  parts-AllFill [] cron h = absurd (ground (arith, h))
  parts-AllFill (a ∷ []) cron h = absurd (ground (arith, h))
  parts-AllFill (a ∷ b ∷ []) cron h = absurd (ground (arith, h))
  parts-AllFill (a ∷ b ∷ c ∷ []) cron h = absurd (ground (arith, h))
  parts-AllFill (a ∷ b ∷ c ∷ d ∷ []) cron h = absurd (ground (arith, h))
  parts-AllFill (a ∷ b ∷ c ∷ d ∷ e ∷ f ∷ rest) cron h = absurd (ground (arith, h))

  -- A schedule that is accepted has at least one minute, hour, day of the month, month and day of
  -- the week, and no value of a field lies outside of the field, whatever lists, ranges, steps
  -- and names it is written with.
  pub parse_cron-AllFill :
      (expression : String) (cron : Cron)
      → parse_cron upper lower step_of expression ≡ ok cron
      → AllFill cron
  unfolding parse_cron
  parse_cron-AllFill expression cron h =
      let raw = trim expression in parts-AllFill (words (expanded (lower raw) raw)) cron h
