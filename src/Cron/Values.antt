-- ===== src/Cron/Values.antt =====
-- src/console/cron.js: the values of a field, and the loops that list them.
use Prim.Native.Char.{code}
use mathlib.Core.Path.{subst}
use ichibi_lake.Base.{
  ℕ, zero, suc, ◌+◌, ◌*◌, ◌≤◌, ◌<◌, String, ◌≡◌, refl, ap, sym, ◌∙◌, Bool, true, false, ◌||◌,
  Option, none, some, List, [], ◌∷◌, ◌++◌, ◌==◌, nat_eq, leb, length, any, All, arith, Bool-cases,
  Option-cases, inl, inr,
}
use ichibi_lake.Base.Exec.{Result, ok, ok-injective}
use ichibi_lake.Base.Text.{split}
use ichibi_lake.Cron.Parse.{
  Field, CronError, Cron, minute_field, hour_field, day_field, month_field, weekday_field, index_in,
  as_weekday, in_range, numeric_value, upper_end, count_up,
}

abbrev pub Between : Field → ℕ → Type 0
Between field v = (field.min ≤ v) × (v ≤ field.max)

-- At least one value, and none outside of the field.
abbrev pub Fills : Field → List ℕ → Type 0
Fills field vs = (1 ≤ length vs) × All (Between field) vs

-- The names of a field number values of the field.
abbrev pub Named : Field → Type 0
Named field = (field.min ≤ field.max) × (length field.names + field.min ≤ suc field.max)

pub index_in-lt :
    (names : List String) (token : String) (i : ℕ)
    → index_in names token ≡ some i
    → i < length names
index_in-lt [] token i h = absurd (ground (arith, h))
index_in-lt (name ∷ names) token i h = elim (Bool-cases (name == token)) [
  | inl same ↦ ground (arith, h, same)
  | inr apart ↦ elim (Option-cases (index_in names token)) [
    | inl missing ↦ absurd (ground (arith, h, apart, missing))
    | inr (j, found) ↦ ground (arith, h, apart, found, index_in-lt names token j found)
  ]
]

in_range-Between : (field : Field) (n v : ℕ) → in_range field n ≡ ok v → Between field v
in_range-Between field n v h = ground (arith, h)

pub numeric_value-Between :
    (field : Field) (o : Option ℕ) (v : ℕ) → numeric_value field o ≡ ok v → Between field v
unfolding numeric_value
numeric_value-Between field none v h = absurd (ground (arith, h))
numeric_value-Between field (some n) v h =
    in_range-Between field (as_weekday field.is_weekday n) v h

pub count_up-Between :
    (field : Field) (rounds v hi step : ℕ)
    → field.min ≤ v
    → hi ≤ field.max
    → All (Between field) (count_up rounds v hi step)
unfolding count_up
count_up-Between field zero v hi step low high = tt
count_up-Between field (suc rounds) v hi step low high =
    elim (leb v hi)
        as (λ b.
          leb v hi ≡ b
          → All (Between field)
              (elim b [ true ↦ v ∷ count_up rounds (v + step) hi step | false ↦ [] ])) [
                | true ↦ λ within. (
                  (low, ground (arith, within, high)),
                  count_up-Between field rounds (v + step) hi step (ground (arith, low)) high,
                )
                | false ↦ λ past. tt
              ]
      refl

pub count_up_first : (rounds v hi step : ℕ) → v ≤ hi → 1 ≤ length (count_up (suc rounds) v hi step)
unfolding count_up
count_up_first rounds v hi step h =
    elim (leb v hi)
        as (λ b.
          leb v hi ≡ b
          → 1 ≤ length (elim b [ true ↦ v ∷ count_up rounds (v + step) hi step | false ↦ [] ])) [
            | true ↦ λ within. ground arith
            | false ↦ λ past. absurd (ground (arith, past, h))
          ]
      refl

pub All-append :
    {A : Type 0} (P : A → Type 0) (xs ys : List A) → All P xs → All P ys → All P (xs ++ ys)
All-append P [] ys h g = g
All-append P (x ∷ xs) ys (p, h) g = (p, All-append P xs ys h g)

pub append-length : {A : Type 0} (xs ys : List A) → length xs ≤ length (xs ++ ys)
append-length [] ys = ground arith
append-length (x ∷ xs) ys = ground (arith, append-length xs ys)

pub ends :
    (field : Field) (step : Option String) (lo : ℕ)
    → lo ≤ field.max
    → (lo ≤ upper_end field step lo) × (upper_end field step lo ≤ field.max)
ends field none lo h = (ground arith, h)
ends field (some step) lo h = (h, ground arith)

unfoldable pub Ranges : Field → Result CronError (ℕ × ℕ) → Type 0
Ranges field r =
    (range : ℕ × ℕ)
    → r ≡ ok range
    → (field.min ≤ range.0) × (range.0 ≤ range.1) × (range.1 ≤ field.max)

pub star_Ranges : (field : Field) → Named field → Ranges field (ok (field.min, field.max))
unfolding Ranges
star_Ranges field (ordered, fits) range h =
    rw (← ok-injective {E = CronError} h) (ground arith, ordered, ground arith)

pub split-cons : (sep : ℕ) (s : String) → (w : String) × (ws : List String) × (split sep s ≡ w ∷ ws)
unfolding split
split-cons sep String.[] = ("", [], refl)
split-cons sep (String.◌∷◌ c s) =
    let (w, ws, e) = split-cons sep s in
    elim (Bool-cases (nat_eq (code c) sep)) [
      | inl at_sep ↦ ("", split sep s, rw at_sep refl)
      | inr inside ↦ (String.◌∷◌ c w, ws, rw (inside, e) refl)
    ]

or_later : (a b : Bool) → b ≡ true → (a || b) ≡ true
or_later a b h = ground (arith, h)

count_up_step :
    (rounds v hi step : ℕ)
    → leb v hi ≡ true
    → count_up (suc rounds) v hi step ≡ v ∷ count_up rounds (v + step) hi step
unfolding count_up
count_up_step rounds v hi step h =
    elim (leb v hi)
        as (λ b.
          leb v hi ≡ b
          → elim b [ true ↦ v ∷ count_up rounds (v + step) hi step | false ↦ [] ]
            ≡ v ∷ count_up rounds (v + step) hi step) [
              | true ↦ λ within. refl
              | false ↦ λ past. absurd (ground (arith, past, h))
            ]
      refl

-- The rounds of a `for` loop are enough: each value that it comes to is in the list.
count_up_complete :
    (k rounds v hi step : ℕ)
    → k < rounds
    → v + k * step ≤ hi
    → any (nat_eq (v + k * step)) (count_up rounds v hi step) ≡ true
unfolding count_up
count_up_complete k zero v hi step h l = absurd (ground (arith, h))
count_up_complete zero (suc rounds) v hi step h l =
    let within : leb v hi ≡ true = ground (arith, l) in
    ap (any (nat_eq (v + 0 * step))) (count_up_step rounds v hi step within) ∙ ground arith
count_up_complete (suc k) (suc rounds) v hi step h l =
    let within : leb v hi ≡ true = ground (arith, l) in
    let e : v + suc k * step ≡ (v + step) + k * step = ground arith in
    let later : any (nat_eq (v + suc k * step)) (count_up rounds (v + step) hi step) ≡ true =
      subst (λ x. any (nat_eq x) (count_up rounds (v + step) hi step) ≡ true) (sym e)
        (count_up_complete k rounds (v + step) hi step (ground (arith, h))
          (subst (λ x. x ≤ hi) e l)) in
    ap (any (nat_eq (v + suc k * step))) (count_up_step rounds v hi step within)
    ∙ or_later (nat_eq (v + suc k * step) v) _ later

abbrev pub AllFill : Cron → Type 0
AllFill cron =
    Fills minute_field cron.minutes
    × Fills hour_field cron.hours
    × Fills day_field cron.days
    × Fills month_field cron.months
    × Fills weekday_field cron.weekdays
