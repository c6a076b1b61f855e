-- ===== src/Maintenance/Settings.antt =====
-- src/console/maintenance.js: the settings, normaliseMaintenance and describeSteps.
use ichibi_lake.Base.{
  ℕ, String, Bool, true, not, ◌||◌, Option, none, some, List, [], ◌∷◌, ◌==◌, nat_eq, ltb,
  if◌then◌else◌,
}
use ichibi_lake.Base.Exec.{Result, ok, err, and_then}
use ichibi_lake.Base.Text.{trim, join_with}

pub record Steps : Type 0 where
  pub flush : Bool
  pub merge : Bool
  pub rewrite : Bool
  pub expire : Bool
  pub cleanup : Bool

-- A finite number as a fraction, with its sign.
pub record Fraction : Type 0 where
  pub negative : Bool
  pub numerator : ℕ
  pub denominator : ℕ

-- deleteThreshold as a client sends it, after Number(): null, undefined or '' count as absent.
pub data Threshold : Type 0 where
  absent : Threshold
  no_number : Threshold
  number : Fraction → Threshold

-- The steps that a client sends; `none` is a missing one.
pub record StepsInput : Type 0 where
  pub flush : Option Bool
  pub merge : Option Bool
  pub rewrite : Option Bool
  pub expire : Option Bool
  pub cleanup : Option Bool

pub record SettingsInput : Type 0 where
  pub enabled : Option Bool
  pub schedule : Option String
  pub steps : StepsInput
  pub delete_threshold : Threshold
  pub run_at_startup : Option Bool

pub record Settings : Type 0 where
  pub enabled : Bool
  pub schedule : String
  pub steps : Steps
  pub delete_threshold : Option Fraction
  pub run_at_startup : Bool

pub data SettingsError : Type 0 where
  invalid_schedule invalid_threshold : SettingsError

-- Every default is true: MAINTENANCE_DEFAULTS.
abbrev pub or_default : Option Bool → Bool
or_default none = true
or_default (some b) = b

abbrev pub default_schedule : String
default_schedule = "0 * * * *"

abbrev pub schedule_of : Option String → String
schedule_of none = default_schedule
schedule_of (some schedule) = schedule

unfoldable pub checked_threshold : Threshold → Result SettingsError (Option Fraction)
checked_threshold absent = ok none
checked_threshold no_number = err invalid_threshold
checked_threshold (number f) =
    if f.negative || nat_eq f.numerator 0 || ltb f.denominator f.numerator
    then err invalid_threshold
    else ok (some f)

-- `is_cron` is validateCron finding no error.
unfoldable pub normalise_maintenance :
    (String → Bool) → SettingsInput → Result SettingsError Settings
unfolding checked_threshold trim
normalise_maintenance is_cron input =
    let schedule = trim (schedule_of input.schedule) in
    if not (is_cron schedule)
    then err invalid_schedule
    else and_then (checked_threshold input.delete_threshold) λ threshold. ok record {
      enabled = or_default input.enabled;
      schedule = schedule;
      steps = record {
        flush = or_default input.steps.flush;
        merge = or_default input.steps.merge;
        rewrite = or_default input.steps.rewrite;
        expire = or_default input.steps.expire;
        cleanup = or_default input.steps.cleanup;
      };
      delete_threshold = threshold;
      run_at_startup = or_default input.run_at_startup;
    }

abbrev listed_if : Bool → String → List String → List String
listed_if on name names = if on then name ∷ names else names

unfoldable pub describe_steps : Steps → String
unfolding join_with
describe_steps steps =
    let on = listed_if steps.flush "flush" (
      listed_if steps.merge "merge" (
        listed_if steps.rewrite "rewrite"
          (listed_if steps.expire "expire" (listed_if steps.cleanup "cleanup" [])))) in
    let listed = join_with ", " on in if listed == "" then "no steps" else listed
