-- ===== src/Maintenance/Row.antt =====
-- src/console/store.js: the one row of _console_maintenance, as far as the claims use it, and the
-- statements of claimMaintenance, finishMaintenance, releaseMaintenanceLeaseOfHost,
-- updateMaintenance and setMaintenanceNextRun on it.
use ichibi_lake.Base.{
  ℕ, String, ◌≡◌, refl, Bool, true, false, ◌||◌, ◌&&◌, Option, none, some, ◌==◌, leb, arith,
  eq_refl, if◌then◌else◌, ◌≤◌, ◌⊎◌, ◌↔◌, inl, inr, Bool-cases,
}
use ichibi_lake.Base.Text.{has_prefix}

pub record Row : Type 0 where
  pub enabled : Bool
  pub schedule : String
  pub next_run : Option ℕ
  pub lease_until : Option ℕ
  pub claim_token : Option String
  pub last_run : Option ℕ
  pub last_status : Option String

-- column IS NULL OR column <= now
abbrev pub is_past : Option ℕ → ℕ → Bool
is_past none now = true
is_past (some t) now = leb t now

abbrev pub is_held : Option String → String → Bool
is_held none token = false
is_held (some t) token = t == token

abbrev pub has_token : Row → String → Bool
has_token row token = is_held row.claim_token token

-- The WHERE clause of claimMaintenance.
unfoldable pub can_claim : ℕ → Bool → Row → Bool
can_claim now force row =
    is_past row.lease_until now && (force || (row.enabled && is_past row.next_run now))

-- What the UPDATE of claimMaintenance writes, where its WHERE clause has matched.
unfoldable pub commit_claim : Bool → String → Option ℕ → ℕ → Row → Row
commit_claim matched token next lease_until row =
    if matched
    then record row { claim_token = some token; next_run = next; lease_until = some lease_until }
    else row

-- The UPDATE of claimMaintenance, with nobody between its WHERE clause and its commit.
unfoldable pub claim_update : String → ℕ → Option ℕ → ℕ → Bool → Row → Row
unfolding can_claim commit_claim
claim_update token now next lease_until force row =
    commit_claim (can_claim now force row) token next lease_until row

-- claimMaintenance with nobody between its two statements: the row after it, and its answer.
unfoldable pub claim_maintenance : String → ℕ → Option ℕ → ℕ → Bool → Row → Bool × Row
unfolding claim_update
claim_maintenance token now next lease_until force row =
    let claimed = claim_update token now next lease_until force row in
    (has_token claimed token, claimed)

unfoldable pub finish_update : String → ℕ → String → Row → Row
finish_update token now status row =
    if has_token row token
    then record row { lease_until = none; last_run = some now; last_status = some status }
    else row

abbrev pub token_starts : String → Option String → Bool
token_starts prefix none = false
token_starts prefix (some token) = has_prefix prefix token

unfoldable pub release_of_host : String → Row → Row
unfolding has_prefix
release_of_host prefix row = elim row.lease_until [
  | none ↦ row
  | some t ↦
      if token_starts prefix row.claim_token
      then record row { lease_until = none; last_status = some "abandoned" }
      else row
]

-- updateMaintenance, for the columns of the row, and setMaintenanceNextRun
unfoldable pub edit_row : Bool → String → Option ℕ → Row → Row
edit_row enabled schedule next row = record row {
  enabled = enabled;
  schedule = schedule;
  next_run = next;
}

-- The time is not set, or not later than now.
abbrev pub HasCome : Option ℕ → ℕ → Type 0
HasCome o now = (o ≡ none) ⊎ ((t : ℕ) × (o ≡ some t) × (t ≤ now))

-- When a claim should succeed: the lease is free, and the run is forced, or enabled and due.
abbrev pub Claimable : ℕ → Bool → Row → Type 0
Claimable now force row =
    HasCome row.lease_until now
    × ((force ≡ true) ⊎ ((row.enabled ≡ true) × HasCome row.next_run now))

is_past_iff : (o : Option ℕ) (now : ℕ) → (is_past o now ≡ true) ↔ HasCome o now
is_past_iff none now = ((λ h. inl refl), (λ h. refl))
is_past_iff (some t) now = (
  (λ h. inr (t, refl, ground (arith, h))),
  (λ h. elim h [
    | inl no_time ↦ absurd (ground (arith, no_time))
    | inr (u, same, past) ↦ ground (arith, same, past)
  ]),
)

or_cases : (a b : Bool) → (a || b) ≡ true → (a ≡ true) ⊎ (b ≡ true)
or_cases true b h = inl refl
or_cases false b h = inr h

pub can_claim_iff :
    (now : ℕ) (force : Bool) (row : Row)
    → (can_claim now force row ≡ true) ↔ Claimable now force row
unfolding can_claim
can_claim_iff now force row =
    let lease = is_past_iff row.lease_until now in
    let due = is_past_iff row.next_run now in
    (
      (λ h. (
        lease.0 (ground (arith, h)),
        elim (or_cases force (row.enabled && is_past row.next_run now) (ground (arith, h))) [
          | inl forced ↦ inl forced
          | inr when_due ↦ inr (ground (arith, when_due), due.0 (ground (arith, when_due)))
        ],
      )),
      (λ (free, why).
          let freed = lease.1 free in
          elim why [
            | inl forced ↦ ground (arith, freed, forced)
            | inr (on, come) ↦ let ripe = due.1 come in ground (arith, freed, on, ripe)
          ]),
    )

-- A claim with a token that the row does not hold, with nobody between its statements, answers
-- true exactly when the lease is unset or has run out and the run is forced, or enabled and its
-- time unset or come; then the row holds the token, the next run and the lease, and else the row is
-- as it was.
pub claim_maintenance_iff :
    (token : String) (now lease_until : ℕ) (next : Option ℕ) (force : Bool) (row : Row)
    → has_token row token ≡ false
    → (((claim_maintenance token now next lease_until force row).0 ≡ true)
        ↔ Claimable now force row)
      × (Claimable now force row
          → (claim_maintenance token now next lease_until force row).1 ≡ record row {
            claim_token = some token;
            next_run = next;
            lease_until = some lease_until;
          })
      × (¬ Claimable now force row
          → (claim_maintenance token now next lease_until force row).1 ≡ row)
unfolding claim_maintenance claim_update commit_claim
claim_maintenance_iff token now lease_until next force row fresh =
    let iff = can_claim_iff now force row in
    elim (Bool-cases (can_claim now force row)) [
      | inl free ↦
          rw free
            (((λ h. iff.0 free), (λ h. eq_refl token)), (λ h. refl), (λ h. absurd (h (iff.0 free))))
      | inr taken ↦
          let never : ¬ Claimable now force row = λ h. ground (arith, taken, iff.1 h) in
          rw taken (
            ((λ h. absurd (ground (arith, h, fresh))), (λ h. absurd (never h))),
            (λ h. absurd (never h)),
            (λ h. refl),
          )
    ]
