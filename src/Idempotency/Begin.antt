-- ===== src/Idempotency/Begin.antt =====
-- src/idempotency.js: the decisions of beginIdempotentRequest. Each is taken on the tokens that
-- one read of the table gives.
use ichibi_lake.Base.{
  ℕ, zero, suc, ◌*◌, String, ◌&&◌, Option, none, some, List, [], ◌∷◌, ltb, leb, ◌==◌, if◌then◌else◌,
}
use ichibi_lake.Idempotency.Rows.{Mark, released, done, Summary}

-- What is sent: a stored response, a 409 with Retry-After, a 409 for another request's key.
pub data Reply : Type 0 where
  replayed : ℕ → String → Reply
  in_progress used_by_other : Reply

-- owner.statusCode || 200
status_or_ok : ℕ → ℕ
status_or_ok zero = 200
status_or_ok (suc n) = suc n

-- What `decide` makes of the first live token: null, a response already sent, or its owner.
pub data Decision : Type 0 where
  free : Decision
  sent : Reply → Decision
  owned : String → Decision

unfoldable pub decide_owner : String → Summary → Decision
unfolding status_or_ok
decide_owner hash owner =
    if owner.request_hash == hash
    then elim owner.mark [
      | done status response ↦ sent (replayed (status_or_ok status) response)
      | _ ↦ owned owner.token
    ]
    else sent used_by_other

unfoldable pub decide : String → List Summary → Decision
unfolding decide_owner
decide hash [] = free
decide hash (owner ∷ _) = decide_owner hash owner

-- conflict(res, owner) on an owner that `decide` returned: it is pending.
-- The first look: `none` means that the request goes on to claim the key.
unfoldable pub first_look : String → List Summary → Option Reply
unfolding decide
first_look hash tokens = elim (decide hash tokens) [
  | free ↦ none
  | sent reply ↦ some reply
  | owned _ ↦ some in_progress
]

-- The second look, after the claim is written: `none` means that the request owns the key and
-- runs; a reply means that it appends `released` and stops.
unfoldable pub second_look : String → String → List Summary → Option Reply
unfolding decide
second_look hash token tokens = elim (decide hash tokens) [
  | free ↦ none
  | sent reply ↦ some reply
  | owned winner ↦ if winner == token then none else some in_progress
]

-- MAX_STORED_RESPONSE
abbrev pub max_stored_response : ℕ
max_stored_response = 256 * 1024

-- The row that res.json appends: the response of a 2xx that fits, else a release. The length of
-- the body is counted in UTF-16 units, which the caller gives.
unfoldable pub outcome_mark : ℕ → String → ℕ → Mark
outcome_mark status response size =
    if leb 200 status && ltb status 300 && leb size max_stored_response
    then done status response
    else released
