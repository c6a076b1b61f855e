-- ===== src/Conflict.antt =====
-- src/conflict.js: retrying a write that loses a commit race with another gateway instance.
use ichibi_lake.Base.{
  ℕ, zero, suc, ◌-◌, ◌<◌, ◌≤◌, String, ◌≡◌, refl, Bool, true, false, ◌||◌, List, [], ◌∷◌, ◌⊎◌, inl,
  inr, arith, Bool-cases,
}
use ichibi_lake.Base.Exec.{Result, ok, err, Exec}
use ichibi_lake.Base.Text.{matches}
mod Examples

-- isTransactionConflict, on the text of the error
unfoldable pub is_transaction_conflict : String → Bool
unfolding matches
is_transaction_conflict message =
    matches "Transaction conflict" message
    || matches "Failed to commit DuckLake transaction" message

abbrev lost_race : {A : Type 0} → Result String A → Bool
lost_race (ok a) = false
lost_race (err e) = is_transaction_conflict e

-- `others i` is what the rest of the system does to the shared state during the wait after
-- attempt number i + 1.
module _ {S A : Type 0} (others : ℕ → S → S) (fn : Exec S String A) where
  -- The loop before attempt number i + 1, of which `left` may be repeated.
  unfoldable retry_from : ℕ → ℕ → Exec S String A
  retry_from i zero s = fn s
  retry_from i (suc left) s = elim (lost_race (fn s).0) [
    | true ↦ retry_from (suc i) left (others i (fn s).1)
    | false ↦ fn s
  ]

  unfoldable pub retry_on_conflict : ℕ → Exec S String A
  unfolding retry_from
  retry_on_conflict attempts = retry_from 0 (attempts - 1)

  -- The state in which the k-th attempt after number i starts, when all before it lose.
  abbrev state_after : ℕ → ℕ → S → S
  state_after i zero s = s
  state_after i (suc k) s = state_after (suc i) k (others i (fn s).1)

  abbrev AllLost : ℕ → ℕ → S → Type 0
  AllLost i zero s = Unit
  AllLost i (suc k) s = (lost_race (fn s).0 ≡ true) × AllLost (suc i) k (others i (fn s).1)

  retry_from-eq :
      (i left k : ℕ) (s : S)
      → k ≤ left
      → AllLost i k s
      → (k ≡ left) ⊎ (lost_race (fn (state_after i k s)).0 ≡ false)
      → retry_from i left s ≡ fn (state_after i k s)
  unfolding retry_from
  retry_from-eq i zero zero s b h stop = refl
  retry_from-eq i zero (suc k) s b h stop = absurd (ground (arith, b))
  retry_from-eq i (suc left) zero s b h (inl e) = absurd (ground (arith, e))
  retry_from-eq i (suc left) zero s b h (inr e) = rw (e, retry_from) refl
  retry_from-eq i (suc left) (suc k) s b (h, hs) stop =
      rw (h, retry_from)
        (retry_from-eq (suc i) left k (others i (fn s).1) (ground (arith, b)) hs
          (elim stop [ inl e ↦ inl (ground (arith, e)) | inr e ↦ inr e ]))

-- With at least one attempt allowed, and whatever the other instances do meanwhile, the call has
-- the outcome of its k-th attempt, where all before that lost a commit race and either that one
-- did not, or it is the last that is allowed.
pub retry_on_conflict_lem :
    {S A : Type 0} (others : ℕ → S → S) (fn : Exec S String A) (attempts k : ℕ) (s : S)
    → k < attempts
    → AllLost others fn 0 k s
    → (suc k ≡ attempts) ⊎ (lost_race (fn (state_after others fn 0 k s)).0 ≡ false)
    → retry_on_conflict others fn attempts s ≡ fn (state_after others fn 0 k s)
unfolding retry_on_conflict
retry_on_conflict_lem others fn attempts k s b h stop =
    retry_from-eq others fn 0 (attempts - 1) k s (ground (arith, b)) h
      (elim stop [ inl e ↦ inl (ground (arith, e)) | inr e ↦ inr e ])
