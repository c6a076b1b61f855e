-- ===== src/Cron/Parse.antt =====
-- src/console/cron.js: parseValue, parseField, parseCron and validateCron.
use Prim.Native.Char.{code}
use Prim.Native.String
use ichibi_lake.Base.{
  ℕ, zero, suc, ◌+◌, ◌*◌, ◌-◌, String, Bool, true, false, not, ◌||◌, ◌&&◌, Option, none, some, List,
  [], ◌∷◌, ◌++◌, ◌==◌, nat_eq, ltb, leb, filter, if◌then◌else◌,
}
use ichibi_lake.Base.Exec.{Result, ok, err, and_then}
use ichibi_lake.Base.Text.{is_digit, is_space, trim, split}

pub record Field : Type 0 where
  pub min : ℕ
  pub max : ℕ
  pub names : List String
  pub is_weekday : Bool

pub data CronError : Type 0 where
  invalid_value out_of_range empty_item invalid_step invalid_range no_five_fields : CronError

-- FIELDS
abbrev pub minute_field : Field
minute_field = record { min = 0; max = 59; names = []; is_weekday = false }

abbrev pub hour_field : Field
hour_field = record { min = 0; max = 23; names = []; is_weekday = false }

abbrev pub day_field : Field
day_field = record { min = 1; max = 31; names = []; is_weekday = false }

abbrev pub month_field : Field
month_field = record {
  min = 1;
  max = 12;
  names =
      "JAN" ∷ "FEB" ∷ "MAR" ∷ "APR" ∷ "MAY" ∷ "JUN" ∷ "JUL" ∷ "AUG" ∷ "SEP" ∷ "OCT" ∷ "NOV" ∷ "DEC"
      ∷ [];
  is_weekday = false;
}

abbrev pub weekday_field : Field
weekday_field = record {
  min = 0;
  max = 6;
  names = "SUN" ∷ "MON" ∷ "TUE" ∷ "WED" ∷ "THU" ∷ "FRI" ∷ "SAT" ∷ [];
  is_weekday = true;
}

-- names.indexOf(token)
abbrev pub index_in : List String → String → Option ℕ
index_in [] token = none
index_in (name ∷ names) token =
    if name == token
    then some 0
    else elim (index_in names token) [ none ↦ none | some i ↦ some (suc i) ]

-- The value of a text of digits, after the digits before it.
unfoldable pub digits_from : ℕ → String → Option ℕ
digits_from n String.[] = some n
digits_from n (String.◌∷◌ c s) =
    let rest = digits_from (n * 10 + (code c - b'0')) s in if is_digit (code c) then rest else none

-- /^\d+$/ and Number(token)
unfoldable pub number_of : String → Option ℕ
unfolding digits_from
number_of token = if token == "" then none else digits_from 0 token

-- 7 is also Sunday.
abbrev pub as_weekday : Bool → ℕ → ℕ
as_weekday is_weekday n = if is_weekday && nat_eq n 7 then 0 else n

abbrev pub in_range : Field → ℕ → Result CronError ℕ
in_range field n = if ltb n field.min || ltb field.max n then err out_of_range else ok n

unfoldable pub numeric_value : Field → Option ℕ → Result CronError ℕ
numeric_value field none = err invalid_value
numeric_value field (some n) = in_range field (as_weekday field.is_weekday n)

-- for (let v = lo; v <= hi; v += step), in at most so many rounds
unfoldable pub count_up : ℕ → ℕ → ℕ → ℕ → List ℕ
count_up zero v hi step = []
count_up (suc rounds) v hi step = elim (leb v hi) [
  | true ↦ v ∷ count_up rounds (v + step) hi step
  | false ↦ []
]

abbrev pub first_part : List String → String
first_part [] = ""
first_part (part ∷ parts) = part

abbrev pub second_part : List String → Option String
second_part (a ∷ b ∷ rest) = some b
second_part _ = none

abbrev pub upper_end : Field → Option String → ℕ → ℕ
upper_end field none lo = lo
upper_end field (some step) lo = field.max

-- `upper` and `lower` are toUpperCase and toLowerCase; `step_of` is Number(text) where that is a
-- whole number of at least 1.
module _ (upper lower : String → String) (step_of : String → Option ℕ) where
  unfoldable pub parse_value : Field → String → Result CronError ℕ
  unfolding numeric_value number_of
  parse_value field token = elim (index_in field.names (upper token)) [
    | some i ↦ ok (i + field.min)
    | none ↦ numeric_value field (number_of token)
  ]

  -- The step of an item: a missing one is 1.
  abbrev pub checked_step : Option String → Result CronError ℕ
  checked_step none = ok 1
  checked_step (some text) = elim (step_of text) [ none ↦ err invalid_step | some n ↦ ok n ]

  -- The bounds of an item `a-b`.
  unfoldable pub parse_pair : Field → String → String → Result CronError (ℕ × ℕ)
  unfolding parse_value
  parse_pair field a b = and_then (parse_value field a) λ lo.
      and_then (parse_value field b) λ hi. if ltb hi lo then err invalid_range else ok (lo, hi)

  abbrev pub single : Field → Option String → String → Result CronError (ℕ × ℕ)
  single field step text = and_then (parse_value field text) λ lo. ok (lo, upper_end field step lo)

  -- The bounds of an item, by the parts of rangePart between the dashes.
  unfoldable pub parse_range : Field → Option String → String → Result CronError (ℕ × ℕ)
  unfolding parse_pair parse_value split
  parse_range field step text =
      if text == "*" then ok (field.min, field.max) else elim (split b'-' text) [
        | a ∷ b ∷ rest ↦ parse_pair field a b
        | _ ↦ single field step text
      ]

  -- One item of a list; hi + 1 rounds are enough, since a step is at least 1.
  unfoldable pub parse_item : Field → String → Result CronError (List ℕ)
  unfolding parse_range count_up split
  parse_item field part =
      let parts = split b'/' part in
      if part == ""
      then err empty_item
      else and_then (checked_step (second_part parts)) λ step.
        and_then (parse_range field (second_part parts) (first_part parts))
          λ range. ok (count_up (suc range.1) range.0 range.1 step)

  unfoldable pub parse_items : Field → List String → Result CronError (List ℕ)
  unfolding parse_item
  parse_items field [] = ok []
  parse_items field (part ∷ parts) =
      and_then (parse_item field part)
        λ values. and_then (parse_items field parts) λ rest. ok (values ++ rest)

  -- parseField; a value that comes twice counts once in the set that this list stands for.
  unfoldable pub parse_field : Field → String → Result CronError (List ℕ)
  unfolding parse_items split
  parse_field field text = parse_items field (split b',' text)

pub record Cron : Type 0 where
  pub minutes : List ℕ
  pub hours : List ℕ
  pub days : List ℕ
  pub months : List ℕ
  pub weekdays : List ℕ
  pub day_restricted : Bool
  pub weekday_restricted : Bool

-- MACROS
abbrev pub expanded : String → String → String
expanded name raw =
    if name == "@hourly"
    then "0 * * * *"
    else if name == "@daily" || name == "@midnight"
    then "0 0 * * *"
    else if name == "@weekly"
    then "0 0 * * 0"
    else if name == "@monthly"
    then "0 0 1 * *"
    else raw

abbrev add_char : String → List String → List String
add_char c [] = c ∷ []
add_char c (w ∷ ws) = String.◌++◌ c w ∷ ws

unfoldable pub split_spaces : String → List String
unfolding is_space
split_spaces String.[] = "" ∷ []
split_spaces (String.◌∷◌ c s) =
    let rest = split_spaces s in
    if is_space (code c) then "" ∷ rest else add_char (String.◌∷◌ c "") rest

-- text.split(/\s+/), for a text without white space at its ends
unfoldable pub words : String → List String
unfolding split_spaces
words text = filter (λ w. not (w == "")) (split_spaces text)

module _ (upper lower : String → String) (step_of : String → Option ℕ) where
  abbrev parse_as : Field → String → Result CronError (List ℕ)
  parse_as field text = parse_field upper lower step_of field text

  unfoldable pub parse_parts : List String → Result CronError Cron
  unfolding parse_field
  parse_parts (a ∷ b ∷ c ∷ d ∷ e ∷ []) = and_then (parse_as minute_field a) λ minutes.
      and_then (parse_as hour_field b) λ hours. and_then (parse_as day_field c) λ days.
        and_then (parse_as month_field d) λ months. and_then (parse_as weekday_field e) λ weekdays.
          ok record {
            minutes = minutes;
            hours = hours;
            days = days;
            months = months;
            weekdays = weekdays;
            day_restricted = not (c == "*");
            weekday_restricted = not (e == "*");
          }
  parse_parts _ = err no_five_fields

  -- parseCron
  unfoldable pub parse_cron : String → Result CronError Cron
  unfolding parse_parts words trim
  parse_cron expression =
      let raw = trim expression in parse_parts (words (expanded (lower raw) raw))

  -- validateCron finds no error
  unfoldable pub is_cron : String → Bool
  unfolding parse_cron
  is_cron expression = elim (parse_cron expression) [ ok cron ↦ true | err e ↦ false ]
