-- ===== src/Cron/Examples.antt =====
-- Runs of src/console/cron.js at concrete inputs, and an instance of the theorem about it. The
-- texts are in the case that toUpperCase and toLowerCase leave as it is.
use ichibi_lake.Base.{ℕ, suc, String, ◌≡◌, refl, true, Option, none, some, [], ◌∷◌}
use ichibi_lake.Base.Exec.{ok, err}
use ichibi_lake.Base.Text.{split, trim, trim_start, is_space}
use ichibi_lake.Cron.Parse.{
  Cron, invalid_range, out_of_range, empty_item, invalid_step, no_five_fields, hour_field,
  month_field, weekday_field, digits_from, number_of, numeric_value, parse_value, parse_pair,
  parse_range, count_up, parse_item, parse_items, parse_field, split_spaces, words, parse_parts,
  parse_cron,
}
use ichibi_lake.Cron.Values.{AllFill}
use ichibi_lake.Cron.Bounds.{parse_cron-AllFill}

-- Everything that a run of the component computes with.
runs : Unit {0}
unfolding split trim trim_start is_space digits_from number_of numeric_value parse_value parse_pair
    parse_range count_up parse_item parse_items parse_field split_spaces words parse_parts
    parse_cron
runs = tt

abbrev same : String → String
same text = text

abbrev positive : Option ℕ → Option ℕ
positive (some (suc n)) = some (suc n)
positive _ = none

step_of : String → Option ℕ
unfolding number_of
step_of text = positive (number_of text)

abbrev workdays : Cron
workdays = record {
  minutes = 0 ∷ 30 ∷ [];
  hours = 8 ∷ 12 ∷ 16 ∷ [];
  days = 1 ∷ 15 ∷ [];
  months = 1 ∷ 2 ∷ 3 ∷ [];
  weekdays = 1 ∷ 2 ∷ 3 ∷ 4 ∷ 5 ∷ [];
  day_restricted = true;
  weekday_restricted = true;
}

workdays_parse : parse_cron same same step_of " */30 8-16/4  1,15 JAN-MAR 1-5 " ≡ ok workdays
unfolding runs step_of
workdays_parse = refl

-- The last two: a third part of a range or of a step is passed over.
field_tests :
    (parse_field same same step_of weekday_field "7" ≡ ok (0 ∷ []))
    × (parse_field same same step_of weekday_field "5-7" ≡ err invalid_range)
    × (parse_field same same step_of hour_field "24" ≡ err out_of_range)
    × (parse_field same same step_of hour_field "1,,2" ≡ err empty_item)
    × (parse_field same same step_of hour_field "*/0" ≡ err invalid_step)
    × (parse_field same same step_of month_field "10/2" ≡ ok (10 ∷ 12 ∷ []))
    × (parse_cron same same step_of "* * * *" ≡ err no_five_fields)
    × (parse_field same same step_of hour_field "1-2-9" ≡ ok (1 ∷ 2 ∷ []))
    × (parse_field same same step_of hour_field "1-5/2/3" ≡ ok (1 ∷ 3 ∷ 5 ∷ []))
unfolding runs step_of
field_tests = (refl, refl, refl, refl, refl, refl, refl, refl, refl)

parse_cron-AllFill_example : AllFill workdays
parse_cron-AllFill_example =
    parse_cron-AllFill same same step_of " */30 8-16/4  1,15 JAN-MAR 1-5 " workdays workdays_parse
