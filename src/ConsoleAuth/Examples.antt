-- ===== src/ConsoleAuth/Examples.antt =====
-- Runs of src/console/auth.js at concrete inputs, and an instance of the theorem about it.
use ichibi_lake.Base.{ℕ, String, ◌≡◌, refl, none, some, List, [], ◌∷◌, arith, ltb, any}
use ichibi_lake.Base.Dict.{lookup, insert, erase}
use ichibi_lake.Base.Text.{code_units}
use ichibi_lake.ConsoleAuth.Throttle.{
  bad_username, password_too_short, all_username, validate_username, validate_password, store_times,
  recent, longest_wait, retry_after_seconds, fail, succeed, Attempt, asks, fails, succeeds, apply,
  run,
}
use ichibi_lake.ConsoleAuth.Times.{failures_of}
use ichibi_lake.ConsoleAuth.Lockout.{is_locked, retry_after_seconds-locked}

-- Everything that a run of the component computes with.
runs : Unit {0}
unfolding lookup insert erase code_units all_username validate_username validate_password
    store_times recent longest_wait retry_after_seconds fail succeed apply run
runs = tt

-- Two failures of a client, one of them of another user as well, a success, two failures.
abbrev attempts : List (ℕ × Attempt)
attempts =
    (0, fails ("ip:1" ∷ "user:ann" ∷ []))
    ∷ (100, fails ("ip:1" ∷ "user:bob" ∷ []))
    ∷ (100, succeeds ("user:bob" ∷ []))
    ∷ (700, asks ("ip:1" ∷ []))
    ∷ (50, fails ("user:bob" ∷ []))
    ∷ (100, fails ("ip:1" ∷ []))
    ∷ []

abbrev wait_for : List String → ℕ
wait_for keys =
    (retry_after_seconds 2 1000 (run 2 1000 5000 attempts []).0 keys
      (run 2 1000 5000 attempts []).1).0

throttle_tests :
    (wait_for ("ip:1" ∷ []) ≡ 1)
    × (wait_for ("user:bob" ∷ "user:ann" ∷ []) ≡ 0)
    × (validate_username (some "ann_1@lake") ≡ none)
    × (validate_username (some "a b") ≡ some bad_username)
    × (validate_password (some "123456789") ≡ some password_too_short)
    × (validate_password (some "1234567890") ≡ none)
unfolding runs
throttle_tests = (refl, refl, refl, refl, refl, refl)

retry_after_seconds-locked_example :
    ltb 0 (wait_for ("ip:1" ∷ "user:ann" ∷ []))
    ≡ any
        (λ key. is_locked 2 1000 (run 2 1000 5000 attempts []).0 (failures_of key 5000 attempts []))
        ("ip:1" ∷ "user:ann" ∷ [])
retry_after_seconds-locked_example =
    retry_after_seconds-locked 2 1000 5000 attempts ("ip:1" ∷ "user:ann" ∷ []) (ground arith)
