-- ===== src/Idempotency/System.antt =====
-- src/idempotency.js: requests with one Idempotency-Key on any number of gateway instances. Each
-- step of beginIdempotentRequest, of the res.json that it installs and of its 'close' listener is
-- one step of the system; a step is what runs between two awaits, with one statement of SQL at
-- most. A request's number stands for it; `token` and `hash` are its claim token and request hash.
use ichibi_lake.Base.{
  ℕ, suc, ◌+◌, String, ◌≡◌, none, some, List, [], ◌∷◌, ◌++◌, nat_eq, if◌then◌else◌,
}
use ichibi_lake.Idempotency.Rows.{
  Mark, pending, released, Row, idempotency_rows, purge_idempotency, Summary, tokens_of,
}
use ichibi_lake.Idempotency.Begin.{Reply, first_look, second_look, outcome_mark}

-- Where a request stands. The number is its `nowMs`.
pub data Phase : Type 0 where
  arrived : Phase
  cleared claimed running : ℕ → Phase
  backing_off : ℕ → Reply → Phase
  -- the client is gone and the key released, while the handler still runs
  orphaned : ℕ → Phase
  answered : Reply → Phase
  finished : Phase

pub record System : Type 0 where
  pub rows : List Row
  pub next_seq : ℕ
  pub now : ℕ
  pub phase : ℕ → Phase

abbrev pub set_phase : ℕ → Phase → (ℕ → Phase) → ℕ → Phase
set_phase p ph phases q = if nat_eq p q then ph else phases q

-- The tokens that a read of the table gives now.
abbrev pub read : System → List Summary
read s = tokens_of (idempotency_rows s.now s.rows) s.now

module _ (token hash : ℕ → String) (ttl : ℕ) where
  -- appendIdempotencyRow({ ...row, state, createdMs })
  abbrev pub append : ℕ → ℕ → ℕ → Mark → Phase → System → System
  append p started created mark ph s = record s {
    rows =
        s.rows
        ++ record {
          seq = s.next_seq;
          token = token p;
          request_hash = hash p;
          mark = mark;
          created_ms = created;
          expires_ms = started + ttl;
        }
          ∷ [];
    next_seq = suc s.next_seq;
    phase = set_phase p ph s.phase;
  }

  abbrev pub move : ℕ → Phase → System → System
  move p ph s = record s { phase = set_phase p ph s.phase }

  pub data Step : System → System → Type 0 where
    -- the first read of the table
    look :
        (s : System) (p : ℕ)
        → s.phase p ≡ Phase.arrived
        → first_look (hash p) (read s) ≡ none
        → Step s (move p (cleared s.now) s)
    refuse :
        (s : System) (p : ℕ) (r : Reply)
        → s.phase p ≡ Phase.arrived
        → first_look (hash p) (read s) ≡ some r
        → Step s (move p (answered r) s)
    -- the claim
    claim :
        (s : System) (p t : ℕ) → s.phase p ≡ cleared t → Step s (append p t t pending (claimed t) s)
    -- the second read
    win :
        (s : System) (p t : ℕ)
        → s.phase p ≡ claimed t
        → second_look (hash p) (token p) (read s) ≡ none
        → Step s (move p (running t) s)
    lose :
        (s : System) (p t : ℕ) (r : Reply)
        → s.phase p ≡ claimed t
        → second_look (hash p) (token p) (read s) ≡ some r
        → Step s (move p (backing_off t r) s)
    back_off :
        (s : System) (p t : ℕ) (r : Reply)
        → s.phase p ≡ backing_off t r
        → Step s (append p t s.now released (answered r) s)
    -- res.json(body), and the 'close' event before it
    finish :
        (s : System) (p t status size : ℕ) (response : String)
        → s.phase p ≡ running t
        → Step s (append p t s.now (outcome_mark status response size) finished s)
    close :
        (s : System) (p t : ℕ)
        → s.phase p ≡ running t
        → Step s (append p t s.now released (orphaned t) s)
    finish_orphan :
        (s : System) (p t status size : ℕ) (response : String)
        → s.phase p ≡ orphaned t
        → Step s (append p t s.now (outcome_mark status response size) finished s)
    -- purgeSoon, and the clock
    purge : (s : System) → Step s (record s { rows = purge_idempotency s.now s.rows })
    tick : (s : System) (d : ℕ) → Step s (record s { now = s.now + d })

  pub data Reach (s : System) : System → Type 0 where
    here : Reach s s
    next : {t u : System} → Reach s t → Step t u → Reach s u

-- The handler of the request is running.
abbrev pub IsRunning : System → ℕ → Type 0
IsRunning s p = (t : ℕ) × (s.phase p ≡ running t)

-- Before the first request.
abbrev pub init : ℕ → System
init now = record { rows = []; next_seq = 0; now = now; phase = λ p. Phase.arrived }
