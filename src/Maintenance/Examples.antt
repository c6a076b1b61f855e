-- ===== src/Maintenance/Examples.antt =====
-- Runs of src/console/maintenance.js at concrete inputs, and instances of the theorems about it.
use ichibi_lake.Base.{
  ℕ, ◌+◌, ◌≤◌, String, ◌≡◌, ◌≢◌, ◌⊎◌, ◌↔◌, inr, refl, Bool, true, false, Option, none, some, arith,
  eq_iff, nat_eq, if◌then◌else◌,
}
use ichibi_lake.Base.Unary.{unary, unary-injective}
use ichibi_lake.Base.Exec.{ok, err}
use ichibi_lake.Base.Text.{trim, trim_start, join_with, has_prefix}
use ichibi_lake.Maintenance.Settings.{
  SettingsInput, absent, number, invalid_schedule, invalid_threshold, checked_threshold,
  normalise_maintenance, describe_steps,
}
use ichibi_lake.Maintenance.Row.{
  Row, can_claim, commit_claim, claim_update, claim_maintenance, finish_update, release_of_host,
  Claimable, claim_maintenance_iff,
}
use ichibi_lake.Maintenance.System.{
  Phase, reading, writing, claimed, running, System, set_phase, overtake, move, store_row, lease_ms,
  begin, look, commit, win, tick, Reach, here, next, init,
}
use ichibi_lake.Maintenance.Exclusion.{runs_exclude}
use ichibi_lake.Maintenance.Overlap.{claims_overlap}

-- Everything that a run of the component computes with.
runs : Unit {0}
unfolding trim trim_start join_with has_prefix checked_threshold normalise_maintenance
    describe_steps can_claim commit_claim claim_update claim_maintenance finish_update
    release_of_host unary
runs = tt

abbrev input : SettingsInput
input = record {
  enabled = none;
  schedule = some " 0 3 * * * ";
  steps = record {
    flush = none;
    merge = some false;
    rewrite = some false;
    expire = none;
    cleanup = some false;
  };
  delete_threshold = number (record { negative = false; numerator = 3; denominator = 2 });
  run_at_startup = some false;
}

settings_tests :
    (normalise_maintenance (λ s. true) input ≡ err invalid_threshold)
    × (normalise_maintenance (λ s. false) input ≡ err invalid_schedule)
    × (normalise_maintenance (λ s. true) (record input { delete_threshold = absent })
        ≡ ok record {
          enabled = true;
          schedule = "0 3 * * *";
          steps = record {
            flush = true;
            merge = false;
            rewrite = false;
            expire = true;
            cleanup = false;
          };
          delete_threshold = none;
          run_at_startup = false;
        })
unfolding runs
settings_tests = (refl, refl, refl)

abbrev leased : Row
leased = record {
  enabled = true;
  schedule = "0 * * * *";
  next_run = some 500;
  lease_until = some 2000;
  claim_token = some "host-1:7:ab:cd";
  last_run = none;
  last_status = none;
}

row_tests :
    ((claim_maintenance "t" 1999 none 9000 true leased).0 ≡ false)
    × ((claim_maintenance "t" 2000 none 9000 false leased).0 ≡ true)
    × ((finish_update "host-1:7:ab:cd" 1999 "succeeded" leased).lease_until ≡ none)
    × ((finish_update "t" 1999 "succeeded" leased).lease_until ≡ some 2000)
    × ((release_of_host "host-1:" leased).lease_until ≡ none)
    × ((release_of_host "host-2:" leased).lease_until ≡ some 2000)
unfolding runs
row_tests = (refl, refl, refl, refl, refl, refl)

claim_maintenance_iff_example :
    (((claim_maintenance "t" 2000 none 9000 false leased).0 ≡ true) ↔ Claimable 2000 false leased)
    × (Claimable 2000 false leased
        → (claim_maintenance "t" 2000 none 9000 false leased).1
          ≡ record leased { claim_token = some "t"; next_run = none; lease_until = some 9000 })
    × (¬ Claimable 2000 false leased
        → (claim_maintenance "t" 2000 none 9000 false leased).1 ≡ leased)
claim_maintenance_iff_example = claim_maintenance_iff "t" 2000 9000 none false leased refl

-- Request 0 claims the run on the gateway a and never ends; request 1 claims it on the gateway b
-- once the lease has run out.
abbrev gateway : ℕ → String
gateway p = if nat_eq p 0 then "a" else "b"

abbrev forced : ℕ → Bool
forced p = true

abbrev disabled : String → Bool
disabled g = false

abbrev compute_next : String → ℕ → Option ℕ
compute_next schedule now = none

abbrev s0 : System
s0 = init 1000 "0 * * * *" (some 500)

abbrev move_to : ℕ → Phase → System → System
move_to p ph s = move false unary gateway forced disabled compute_next p ph s

abbrev look_at : ℕ → ℕ → System → System
look_at p t s = move_to p (writing t (some 500) true false) s

abbrev win_by : ℕ → ℕ → System → System
win_by p t s = record s { phase = set_phase p (running t) (overtake s.phase) }

abbrev claim_by : ℕ → ℕ → Option ℕ → System → System
claim_by p t due s =
    store_row false unary gateway forced disabled compute_next p (claimed t)
      (commit_claim true (unary p) due (t + lease_ms) s.row) s

abbrev s1 : System
s1 = move_to 0 (reading 1000 (some 500)) s0

abbrev l1 : System
l1 = look_at 0 1000 s1

abbrev s2 : System
s2 = claim_by 0 1000 (some 500) l1

abbrev s3 : System
s3 = win_by 0 1000 s2

abbrev s4 : System
s4 = record s3 { now = 1000 + lease_ms }

abbrev s5 : System
s5 = move_to 1 (reading (1000 + lease_ms) (some 500)) s4

abbrev l5 : System
l5 = look_at 1 (1000 + lease_ms) s5

abbrev s6 : System
s6 = claim_by 1 (1000 + lease_ms) (some 500) l5

abbrev s7 : System
s7 = win_by 1 (1000 + lease_ms) s6

nothing_runs : (q t : ℕ) → gateway q ≡ gateway 0 → s0.phase q ≢ running t
nothing_runs q t e h = ground (arith, h)

elsewhere : (q t : ℕ) → gateway q ≡ gateway 1 → s4.phase q ≢ running t
elsewhere q t e h = ground (arith, e, h, eq_iff "a" "b")

overrun :
    Reach false unary gateway forced disabled compute_next (init 1000 "0 * * * *" (some 500)) s7
unfolding runs
overrun =
    next
      (next
        (next
          (next
            (next
              (next
                (next
                  (next (next here (begin s0 0 refl refl nothing_runs))
                    (look s1 0 1000 (some 500) true refl refl))
                  (commit l1 0 1000 (some 500) true false refl (λ h. ground (arith, h))))
                (win s2 0 1000 refl refl))
              (tick s3 lease_ms))
            (begin s4 1 refl refl elsewhere))
          (look s5 1 (1000 + lease_ms) (some 500) true refl refl))
        (commit l5 1 (1000 + lease_ms) (some 500) true false refl (λ h. ground (arith, h))))
      (win s6 1 (1000 + lease_ms) refl refl)

runs_exclude_example : (1000 + lease_ms ≤ s7.now) ⊎ (1000 + lease_ms + lease_ms ≤ s7.now)
runs_exclude_example =
    runs_exclude unary gateway forced disabled compute_next unary-injective 1000 "0 * * * *"
      (some 500) s7 0 1 1000 (1000 + lease_ms) overrun refl refl (λ e. ground (arith, e))

claims_overlap_example :
    (s : System) × Reach true unary gateway forced disabled compute_next
      (init 1000 "0 * * * *" (some 500))
      s
    × (s.phase 0 ≡ running 1000)
    × (s.phase 1 ≡ running 1000)
    × (s.now ≡ 1000)
claims_overlap_example =
    claims_overlap unary gateway forced disabled compute_next 1000 "0 * * * *" (some 500) 0 1
      (λ e. ground (arith, e)) refl refl (inr (500, refl, ground arith))
