-- ===== src/Idempotency/Rows.antt =====
-- src/idempotency.js: tokensOf; src/console/store.js: idempotencyRows, appendIdempotencyRow and
-- purgeIdempotency, over the rows of one scope and key. `seq` is the row id, which grows with
-- each commit; the SELECT is ordered by it, and the table is kept in that order here.
use ichibi_lake.Base.{
  ℕ, ◌+◌, ◌*◌, String, Bool, true, false, not, List, [], ◌∷◌, ltb, leb, ◌==◌, filter, if◌then◌else◌,
}

-- The state columns of a row: `done` comes with its status code and response.
pub data Mark : Type 0 where
  pending released : Mark
  done : ℕ → String → Mark

pub record Row : Type 0 where
  pub seq : ℕ
  pub token : String
  pub request_hash : String
  pub mark : Mark
  pub created_ms : ℕ
  pub expires_ms : ℕ

-- PENDING_LEASE_MS
abbrev pub pending_lease_ms : ℕ
pending_lease_ms = 60 * 60 * 1000

-- SELECT ... WHERE expires_ms > now ORDER BY rowid
unfoldable pub idempotency_rows : ℕ → List Row → List Row
idempotency_rows now rows = filter (λ r. ltb now r.expires_ms) rows

-- DELETE ... WHERE expires_ms <= now
unfoldable pub purge_idempotency : ℕ → List Row → List Row
purge_idempotency now rows = filter (λ r. not (leb r.expires_ms now)) rows

-- The entry `t` of tokensOf for one token.
pub record Summary : Type 0 where
  pub token : String
  pub first_seq : ℕ
  pub first_ms : ℕ
  pub request_hash : String
  pub mark : Mark

-- What a row's state makes of the state of its token: done wins over released over pending.
unfoldable pub merge : Mark → Mark → Mark
merge (done status response) old = done status response
merge released (done status response) = done status response
merge released old = released
merge pending old = old

abbrev first_summary : Row → Summary
first_summary r = record {
  token = r.token;
  first_seq = r.seq;
  first_ms = r.created_ms;
  request_hash = r.request_hash;
  mark = pending;
}

abbrev absorb : Row → Summary → Summary
absorb r t = record t { mark = merge r.mark t.mark }

-- One round of the loop: byToken.get, the updates and byToken.set.
unfoldable pub note : Row → List Summary → List Summary
note r [] = absorb r (first_summary r) ∷ []
note r (t ∷ ts) = if t.token == r.token then absorb r t ∷ ts else t ∷ note r ts

unfoldable pub collect : List Summary → List Row → List Summary
unfolding note merge
collect ts [] = ts
collect ts (r ∷ rows) = collect (note r ts) rows

unfoldable pub live : ℕ → Summary → Bool
live now t = elim t.mark [
  | done _ _ ↦ true
  | pending ↦ ltb now (t.first_ms + pending_lease_ms)
  | released ↦ false
]

-- .sort((a, b) => a.firstSeq - b.firstSeq), which is stable.
unfoldable pub place : Summary → List Summary → List Summary
place t [] = t ∷ []
place t (u ∷ us) = if leb t.first_seq u.first_seq then t ∷ u ∷ us else u ∷ place t us

unfoldable pub sort_by_seq : List Summary → List Summary
unfolding place
sort_by_seq [] = []
sort_by_seq (t ∷ ts) = place t (sort_by_seq ts)

unfoldable pub tokens_of : List Row → ℕ → List Summary
tokens_of rows now = sort_by_seq (filter (live now) (collect [] rows))
