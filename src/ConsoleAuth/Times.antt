-- ===== src/ConsoleAuth/Times.antt =====
-- src/console/auth.js: the failures that are recorded, as a history and as a map.
use ichibi_lake.Base.{
  ℕ, ◌+◌, ◌-◌, ◌/◌, ◌≤◌, ◌<◌, String, ◌≡◌, refl, ap, sym, ◌∙◌, Bool, true, false, ◌||◌, none, some,
  List, [], ◌∷◌, ◌++◌, ◌==◌, arith, filter, if◌then◌else◌,
}
use ichibi_lake.Base.Dict.{lookup, insert, erase, lookup-insert, lookup-erase}
use ichibi_lake.ConsoleAuth.Throttle.{
  Failures, or_none, times_of, store_times, Attempt, asks, fails, succeeds,
}

-- The failures of a key since its last success, whatever their age.
abbrev pub noted : ℕ → List String → String → List ℕ → List ℕ
noted now [] key times = times
noted now (k ∷ ks) key times = noted now ks key (if k == key then times ++ now ∷ [] else times)

abbrev pub cleared : List String → String → List ℕ → List ℕ
cleared [] key times = times
cleared (k ∷ ks) key times = cleared ks key (if k == key then [] else times)

abbrev pub after_attempt : ℕ → Attempt → String → List ℕ → List ℕ
after_attempt now (asks keys) key times = times
after_attempt now (fails keys) key times = noted now keys key times
after_attempt now (succeeds keys) key times = cleared keys key times

abbrev pub failures_of : String → ℕ → List (ℕ × Attempt) → List ℕ → List ℕ
failures_of key now [] times = times
failures_of key now (a ∷ later) times =
    failures_of key (now + a.0) later (after_attempt (now + a.0) a.1 key times)

pub filter-append :
    (p : ℕ → Bool) (xs ys : List ℕ) → filter p (xs ++ ys) ≡ filter p xs ++ filter p ys
filter-append p [] ys = refl
filter-append p (x ∷ xs) ys =
    elim (p x)
      as (λ b.
        (if b then x ∷ filter p (xs ++ ys) else filter p (xs ++ ys))
        ≡ (if b then x ∷ filter p xs else filter p xs) ++ filter p ys) [
          | true ↦ ap (λ zs. x ∷ zs) (filter-append p xs ys)
          | false ↦ filter-append p xs ys
        ]

pub times_of-insert :
    (k j : String) (ts : List ℕ) (s : Failures)
    → times_of j (insert k ts s) ≡ (if k == j then ts else times_of j s)
times_of-insert k j ts s =
    ap or_none (lookup-insert k j ts s)
    ∙ elim (k == j)
        as (λ b. or_none (if b then some ts else lookup j s) ≡ (if b then ts else times_of j s)) [
          | true ↦ refl
          | false ↦ refl
        ]

pub times_of-erase :
    (k j : String) (s : Failures) → times_of j (erase k s) ≡ (if k == j then [] else times_of j s)
times_of-erase k j s =
    ap or_none (lookup-erase k j s)
    ∙ elim (k == j)
        as (λ b. or_none (if b then none else lookup j s) ≡ (if b then [] else times_of j s)) [
          | true ↦ refl
          | false ↦ refl
        ]

pub times_of-store_times :
    (k j : String) (ts : List ℕ) (s : Failures)
    → times_of j (store_times k ts s) ≡ (if k == j then ts else times_of j s)
unfolding store_times
times_of-store_times k j [] s = times_of-erase k j s
times_of-store_times k j (t ∷ ts) s = times_of-insert k j (t ∷ ts) s

pub head_passes :
    (p : ℕ → Bool) (xs : List ℕ) (t : ℕ) (ts : List ℕ) → filter p xs ≡ t ∷ ts → p t ≡ true
head_passes p [] t ts h = absurd (ground (arith, h))
head_passes p (x ∷ xs) t ts h =
    elim (p x)
        as (λ b. p x ≡ b → (if b then x ∷ filter p xs else filter p xs) ≡ t ∷ ts → p t ≡ true) [
          | true ↦ λ good g. let e : x ≡ t = ground (arith, g) in ap p (sym e) ∙ good
          | false ↦ λ bad g. head_passes p xs t ts g
        ]
      refl h

pub wait_pos : (x now : ℕ) → now < x → 1 ≤ (x - now + 999) / 1000
wait_pos x now h = omega arith

pub or_assoc : (a b c : Bool) → ((a || b) || c) ≡ (a || (b || c))
or_assoc a b c = ground arith
