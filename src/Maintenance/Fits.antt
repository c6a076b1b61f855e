-- ===== src/Maintenance/Fits.antt =====
-- src/console/maintenance.js, src/console/store.js: what the maintenance row says of a request, and the changes of the row that keep it.
use ichibi_lake.Base.{
  ℕ, ◌+◌, ◌≤◌, String, ◌≡◌, ◌⊎◌, inl, inr, refl, ap, sym, ◌∙◌, Bool, true, false, Option, none,
  some, arith, ◌==◌, eq_iff, Bool-cases, if◌then◌else◌,
}
use ichibi_lake.Base.Text.{has_prefix}
use ichibi_lake.Maintenance.Row.{
  Row, has_token, is_held, can_claim, commit_claim, finish_update, release_of_host, edit_row,
  is_past, token_starts,
}
use ichibi_lake.Maintenance.System.{
  Phase, arrived, refused, finished, stopped, reading, writing, claimed, running, overtaken,
  lease_ms,
}

-- What the row says of a request, by where it stands.
abbrev pub Fits : String → Row → ℕ → Phase → Type 0
Fits k row now arrived = has_token row k ≡ false
Fits k row now (reading t due) = (has_token row k ≡ false) × (t ≤ now)
Fits k row now (writing t due matched behind) = (has_token row k ≡ false) × (t ≤ now)
Fits k row now (claimed t) = has_token row k ≡ true → row.lease_until ≡ some (t + lease_ms)
Fits k row now (running t) =
    ((has_token row k ≡ true) × (row.lease_until ≡ some (t + lease_ms))) ⊎ (t + lease_ms ≤ now)
Fits k row now refused = Unit
Fits k row now finished = Unit
Fits k row now stopped = Unit

pub Fits-tick :
    (k : String) (row : Row) (now d : ℕ) (ph : Phase) → Fits k row now ph → Fits k row (now + d) ph
Fits-tick k row now d arrived h = h
Fits-tick k row now d (reading t due) (h, l) = (h, ground (arith, l))
Fits-tick k row now d (writing t due matched behind) (h, l) = (h, ground (arith, l))
Fits-tick k row now d (claimed t) h = h
Fits-tick k row now d (running t) (inl h) = inl h
Fits-tick k row now d (running t) (inr l) = inr (ground (arith, l))
Fits-tick k row now d refused h = tt
Fits-tick k row now d finished h = tt
Fits-tick k row now d stopped h = tt

-- A change of the row after which it holds this token only with the lease that it had, or does not
-- hold it, as before.
unfoldable pub Keeps : String → Row → Row → Type 0
Keeps k row row' =
    ((has_token row' k ≡ has_token row k) × (row'.lease_until ≡ row.lease_until))
    ⊎ ((has_token row' k ≡ false) × (has_token row k ≡ false))

pub Fits-Keeps :
    (k : String) (row row' : Row) (now : ℕ) (ph : Phase)
    → Keeps k row row'
    → Fits k row now ph
    → Fits k row' now ph
unfolding Keeps
Fits-Keeps k row row' now arrived (inl (e, l)) h = e ∙ h
Fits-Keeps k row row' now arrived (inr (e, l)) h = e
Fits-Keeps k row row' now (reading t due) (inl (e, l)) (h, b) = (e ∙ h, b)
Fits-Keeps k row row' now (reading t due) (inr (e, l)) (h, b) = (e, b)
Fits-Keeps k row row' now (writing t due matched behind) (inl (e, l)) (h, b) = (e ∙ h, b)
Fits-Keeps k row row' now (writing t due matched behind) (inr (e, l)) (h, b) = (e, b)
Fits-Keeps k row row' now (claimed t) (inl (e, l)) h = λ g. l ∙ h (sym e ∙ g)
Fits-Keeps k row row' now (claimed t) (inr (e, l)) h = λ g. absurd (ground (arith, e, g))
Fits-Keeps k row row' now (running t) (inl (e, l)) (inl (h, b)) = inl (e ∙ h, l ∙ b)
Fits-Keeps k row row' now (running t) (inl (e, l)) (inr past) = inr past
Fits-Keeps k row row' now (running t) (inr (e, other)) (inl (h, b)) =
    absurd (ground (arith, other, h))
Fits-Keeps k row row' now (running t) (inr (e, l)) (inr past) = inr past
Fits-Keeps k row row' now refused h g = tt
Fits-Keeps k row row' now finished h g = tt
Fits-Keeps k row row' now stopped h g = tt

-- A row that holds another token leaves only a run that has outlived its lease.
pub Fits-displaced :
    (k : String) (row row' : Row) (now : ℕ) (ph : Phase)
    → has_token row' k ≡ false
    → ((t : ℕ) → ph ≡ running t → t + lease_ms ≤ now)
    → Fits k row now ph
    → Fits k row' now ph
Fits-displaced k row row' now arrived e over h = e
Fits-displaced k row row' now (reading t due) e over (h, b) = (e, b)
Fits-displaced k row row' now (writing t due matched behind) e over (h, b) = (e, b)
Fits-displaced k row row' now (claimed t) e over h = λ g. absurd (ground (arith, e, g))
Fits-displaced k row row' now (running t) e over h = inr (over t refl)
Fits-displaced k row row' now refused e over h = tt
Fits-displaced k row row' now finished e over h = tt
Fits-displaced k row row' now stopped e over h = tt

pub Fits-overtaken :
    (k : String) (row : Row) (now : ℕ) (ph : Phase)
    → Fits k row now ph
    → Fits k row now (overtaken ph)
Fits-overtaken k row now arrived h = h
Fits-overtaken k row now (reading t due) h = h
Fits-overtaken k row now (writing t due matched behind) h = h
Fits-overtaken k row now (claimed t) h = h
Fits-overtaken k row now (running t) h = h
Fits-overtaken k row now refused h = h
Fits-overtaken k row now finished h = h
Fits-overtaken k row now stopped h = h

-- A claim that matches finds every run that fits the row past its lease.
pub Fits-can_claim :
    (k : String) (row : Row) (now t u : ℕ) (force : Bool)
    → Fits k row now (running u)
    → t ≤ now
    → can_claim t force row ≡ true
    → u + lease_ms ≤ now
unfolding can_claim
Fits-can_claim k row now t u force (inr past) early free = past
Fits-can_claim k row now t u force (inl (held, lease)) early free =
    let past : is_past row.lease_until t ≡ true = ground (arith, free) in
    ground (arith, early, ap (λ o. is_past o t) (sym lease) ∙ past)

is_held-apart :
    (o : Option String) (j k : String) → is_held o j ≡ true → (j == k) ≡ false → is_held o k ≡ false
is_held-apart none j k h apart = refl
is_held-apart (some t) j k h apart = rw ((eq_iff t j).0 h) apart

token_starts-apart :
    (o : Option String) (prefix k : String)
    → token_starts prefix o ≡ true
    → has_prefix prefix k ≡ false
    → is_held o k ≡ false
token_starts-apart none prefix k h apart = refl
token_starts-apart (some t) prefix k h apart = elim (Bool-cases (t == k)) [
  | inr other ↦ other
  | inl same ↦
      let e = ap (has_prefix prefix) ((eq_iff t k).0 same) in absurd (ground (arith, h, apart, e))
]

pub commit_claim-apart :
    (j k : String) (until : ℕ) (due : Option ℕ) (row : Row)
    → (j == k) ≡ false
    → has_token (commit_claim true j due until row) k ≡ false
unfolding commit_claim
commit_claim-apart j k until due row apart = apart

pub finish-Keeps :
    (j k status : String) (t : ℕ) (row : Row)
    → (j == k) ≡ false
    → Keeps k row (finish_update j t status row)
unfolding Keeps finish_update
finish-Keeps j k status t row apart =
    let made = record row { lease_until = none; last_run = some t; last_status = some status } in
    elim (has_token row j) as (λ b. has_token row j ≡ b → Keeps k row (if b then made else row)) [
      | true ↦
          λ own. let none_of = is_held-apart row.claim_token j k own apart in inr (none_of, none_of)
      | false ↦ λ other. inl (refl, refl)
    ]
      refl

pub release-Keeps :
    (prefix k : String) (row : Row)
    → has_prefix prefix k ≡ false
    → Keeps k row (release_of_host prefix row)
unfolding Keeps release_of_host
release-Keeps prefix k row apart =
    let made = record row { lease_until = none; last_status = some "abandoned" } in
    elim row.lease_until
      as (λ o. Keeps k row (elim o [
        | none ↦ row
        | some t ↦ if token_starts prefix row.claim_token then made else row
      ])) [
        | none ↦ inl (refl, refl)
        | some t ↦
            elim (token_starts prefix row.claim_token)
                as (λ b.
                  token_starts prefix row.claim_token ≡ b → Keeps k row (if b then made else row)) [
                    | true ↦ λ own.
                        let none_of = token_starts-apart row.claim_token prefix k own apart in
                        inr (none_of, none_of)
                    | false ↦ λ other. inl (refl, refl)
                  ]
              refl
      ]

pub edit-Keeps :
    (k schedule : String) (enabled : Bool) (due : Option ℕ) (row : Row)
    → Keeps k row (edit_row enabled schedule due row)
unfolding Keeps edit_row
edit-Keeps k schedule enabled due row = inl (refl, refl)

pub commit_claim-own :
    (k : String) (now t : ℕ) (due : Option ℕ) (matched : Bool) (row : Row)
    → has_token row k ≡ false
    → Fits k (commit_claim matched k due (t + lease_ms) row) now (claimed t)
unfolding commit_claim
commit_claim-own k now t due true row fresh = λ h. refl
commit_claim-own k now t due false row fresh = λ h. absurd (ground (arith, h, fresh))

pub same_token :
    (o : Option String) (j k : String) → is_held o j ≡ true → is_held o k ≡ true → j ≡ k
same_token none j k h g = absurd (ground (arith, h))
same_token (some t) j k h g = sym ((eq_iff t j).0 h) ∙ (eq_iff t k).0 g
