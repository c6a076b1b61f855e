-- ===== src/Idempotency/Examples.antt =====
-- Tests of src/idempotency.js and the witnesses of its theorems. Claim tokens are texts of
-- distinct lengths here.
use ichibi_lake.Base.{ℕ, ◌<◌, String, ◌≡◌, refl, none, some, [], ◌∷◌, arith}
use ichibi_lake.Base.Unary.{unary, unary-injective}
use ichibi_lake.Idempotency.Rows.{
  Mark, pending, released, done, Row, idempotency_rows, purge_idempotency, collect, live,
  sort_by_seq, tokens_of,
}
use ichibi_lake.Idempotency.Begin.{
  replayed, in_progress, used_by_other, first_look, second_look, decide, decide_owner, outcome_mark,
}
use ichibi_lake.Idempotency.System.{
  cleared, claimed, running, backing_off, orphaned, System, append, move, look, claim, win, lose,
  Reach, here, next, IsRunning, init,
}
use ichibi_lake.Idempotency.Exclusion.Steps.{IsOrderly, at_most_one_runs}
use ichibi_lake.Idempotency.EarlyClose.{early_close_runs_twice}

abbrev one_hash : ℕ → String
one_hash p = "h"

-- Requests 0 and 1 read the empty table, both claim the key, 0 wins and 1 backs off.
abbrev s0 : System
s0 = init 1000

abbrev s1 : System
s1 = move unary one_hash 50 0 (cleared 1000) s0

abbrev s2 : System
s2 = move unary one_hash 50 1 (cleared 1000) s1

abbrev s3 : System
s3 = append unary one_hash 50 0 1000 1000 pending (claimed 1000) s2

abbrev s4 : System
s4 = append unary one_hash 50 1 1000 1000 pending (claimed 1000) s3

abbrev s5 : System
s5 = move unary one_hash 50 0 (running 1000) s4

abbrev s6 : System
s6 = move unary one_hash 50 1 (backing_off 1000 in_progress) s5

race : Reach unary one_hash 50 (init 1000) s6
unfolding unary idempotency_rows collect live sort_by_seq tokens_of first_look second_look decide
    decide_owner
race =
    next
      (next
        (next
          (next (next (next here (look s0 0 refl refl)) (look s1 1 refl refl))
            (claim s2 0 1000 refl))
          (claim s3 1 1000 refl))
        (win s4 0 1000 refl refl))
      (lose s5 1 1000 in_progress refl refl)

race-IsOrderly : IsOrderly unary one_hash 50 race
unfolding race
race-IsOrderly =
    let t : 1000 < 1050 = ground arith in
    let l : 1000 < 3601000 = ground arith in
    let one : (1000 < 1050) × (1000 < 3601000) = (t, l) in
    (
      (((((tt, tt, tt), tt, tt), tt, tt), tt, (one, tt)), tt, (one, (one, tt))),
      tt,
      (one, (one, tt)),
    )

at_most_one_runs_example : ◌≡◌ {A = ℕ} 0 0
at_most_one_runs_example =
    at_most_one_runs unary one_hash 50 unary-injective race race-IsOrderly 0 0 (1000, refl)
      (1000, refl)

early_close_runs_twice_example :
    (s : System) × Reach unary one_hash 50 (init 1000) s
    × (s.phase 0 ≡ orphaned 1000)
    × IsRunning s 1
early_close_runs_twice_example =
    early_close_runs_twice unary one_hash 50 1000 0 1 (ground arith)
      (λ h. ground (arith, unary-injective 0 1 h)) (ground arith)

abbrev row : ℕ → String → String → Mark → Row
row seq token hash mark = record {
  seq = seq;
  token = token;
  request_hash = hash;
  mark = mark;
  created_ms = 1000;
  expires_ms = 90000;
}

-- A finished request is replayed to the same request and refused to another one; a claim whose
-- lease has run out does not block; a status of 0 reads as 200.
replays :
    first_look "h" (tokens_of (row 3 "a" "h" pending ∷ row 4 "a" "h" (done 201 "{}") ∷ []) 2000)
    ≡ some (replayed 201 "{}")
unfolding tokens_of collect live sort_by_seq first_look decide decide_owner
replays = refl

refuses_other :
    first_look "g" (tokens_of (row 3 "a" "h" pending ∷ row 4 "a" "h" (done 201 "{}") ∷ []) 2000)
    ≡ some used_by_other
unfolding tokens_of collect live sort_by_seq first_look decide decide_owner
refuses_other = refl

lease_over : first_look "h" (tokens_of (row 3 "a" "h" pending ∷ []) 3601000) ≡ none
unfolding tokens_of collect live sort_by_seq first_look decide decide_owner
lease_over = refl

late_claim_wins :
    second_look "h" "b" (tokens_of (row 3 "a" "h" released ∷ row 4 "b" "h" pending ∷ []) 2000)
    ≡ none
unfolding tokens_of collect live sort_by_seq second_look decide decide_owner
late_claim_wins = refl

too_long : outcome_mark 200 "r" 262145 ≡ released
unfolding outcome_mark
too_long = refl

purges : purge_idempotency 90000 (row 3 "a" "h" pending ∷ []) ≡ []
unfolding purge_idempotency
purges = refl
