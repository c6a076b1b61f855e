-- ===== src/Maintenance/System.antt =====
-- src/console/maintenance.js: startMaintenance, runJob and the start of the scheduler on any number
-- of gateway instances. A step is what runs between two awaits, with one statement of SQL at
-- most. A request's number stands for it; `token` is its claim token, `gateway` the instance that
-- it runs on, `forced` says that its trigger is not 'schedule'.
--
-- The UPDATE of a claim is two steps, since two of them are not exclusive: `look` is its WHERE
-- clause on the row as it is then, `commit` writes the row as it is by then. With `late`, an UPDATE
-- may also commit when another request has won its claim in between. The other statements on the row
-- are atomic.
use ichibi_lake.Base.{
  ℕ, ◌+◌, ◌*◌, String, ◌≡◌, ◌≢◌, Bool, true, false, Option, none, nat_eq, if◌then◌else◌,
}
use ichibi_lake.Base.Text.{has_prefix}
use ichibi_lake.Maintenance.Row.{
  Row, has_token, can_claim, commit_claim, finish_update, release_of_host, edit_row,
}

-- Where a request stands: `reading` once it has the time and the next run, `writing` once its UPDATE
-- has looked at the row, with whether it matched and whether another request has won since then,
-- `claimed` after the commit. The numbers are its `now`.
pub data Phase : Type 0 where
  arrived refused finished stopped : Phase
  reading : ℕ → Option ℕ → Phase
  writing : ℕ → Option ℕ → Bool → Bool → Phase
  claimed running : ℕ → Phase

pub record System : Type 0 where
  pub row : Row
  pub now : ℕ
  pub phase : ℕ → Phase

abbrev pub set_phase : ℕ → Phase → (ℕ → Phase) → ℕ → Phase
set_phase p ph phases q = if nat_eq p q then ph else phases q

-- What a won claim makes of an UPDATE that has not committed.
abbrev pub overtaken : Phase → Phase
overtaken (writing t due matched _) = writing t due matched true
overtaken arrived = arrived
overtaken refused = refused
overtaken finished = finished
overtaken stopped = stopped
overtaken (reading t due) = reading t due
overtaken (claimed t) = claimed t
overtaken (running t) = running t

abbrev pub overtake : (ℕ → Phase) → ℕ → Phase
overtake phases q = overtaken (phases q)

-- The requests of a process that is gone: their tokens start with its host.
abbrev pub stop_host : (ℕ → String) → String → (ℕ → Phase) → ℕ → Phase
stop_host token prefix phases q = if has_prefix prefix (token q) then stopped else phases q

-- LEASE_MS
abbrev pub lease_ms : ℕ
lease_ms = 6 * 3600 * 1000

module _ (late : Bool) (token gateway : ℕ → String) (forced : ℕ → Bool) (disabled : String → Bool)
    (compute_next : String → ℕ → Option ℕ) where
  abbrev pub move : ℕ → Phase → System → System
  move p ph s = record s { phase = set_phase p ph s.phase }

  abbrev pub store_row : ℕ → Phase → Row → System → System
  store_row p ph row s = record s { row = row; phase = set_phase p ph s.phase }

  -- nextRunMs of startMaintenance
  abbrev pub next_run_of : ℕ → System → Option ℕ
  next_run_of p s = if forced p then s.row.next_run else compute_next s.row.schedule s.now

  pub data Step : System → System → Type 0 where
    -- the guards, getMaintenanceConfig and Date.now()
    begin :
        (s : System) (p : ℕ)
        → s.phase p ≡ arrived
        → disabled (gateway p) ≡ false
        → ((q t : ℕ) → gateway q ≡ gateway p → s.phase q ≢ running t)
        → Step s (move p (reading s.now (next_run_of p s)) s)
    turn_away : (s : System) (p : ℕ) → s.phase p ≡ arrived → Step s (move p refused s)
    -- the UPDATE of claimMaintenance, and its conflict with another commit
    look :
        (s : System) (p t : ℕ) (due : Option ℕ) (matched : Bool)
        → s.phase p ≡ reading t due
        → can_claim t (forced p) s.row ≡ matched
        → Step s (move p (writing t due matched false) s)
    commit :
        (s : System) (p t : ℕ) (due : Option ℕ) (matched behind : Bool)
        → s.phase p ≡ writing t due matched behind
        → (behind ≡ true → late ≡ true)
        → Step s
            (store_row p (claimed t) (commit_claim matched (token p) due (t + lease_ms) s.row) s)
    conflict :
        (s : System) (p t : ℕ) (due : Option ℕ) (matched behind : Bool)
        → s.phase p ≡ writing t due matched behind
        → Step s (move p refused s)
    -- the SELECT of claimMaintenance
    win :
        (s : System) (p t : ℕ)
        → s.phase p ≡ claimed t
        → has_token s.row (token p) ≡ true
        → Step s (record s { phase = set_phase p (running t) (overtake s.phase) })
    lose :
        (s : System) (p t : ℕ)
        → s.phase p ≡ claimed t
        → has_token s.row (token p) ≡ false
        → Step s (move p refused s)
    -- finishMaintenance, at the end of runJob or after insertRun has failed; a run whose
    -- finishMaintenance fails ends without it
    finish :
        (s : System) (p t : ℕ) (status : String)
        → s.phase p ≡ running t
        → Step s (store_row p finished (finish_update (token p) s.now status s.row) s)
    abandon : (s : System) (p t : ℕ) → s.phase p ≡ running t → Step s (move p finished s)
    -- a process ends, and startMaintenanceScheduler of the next one on its host
    restart :
        (s : System) (prefix : String)
        → Step s (record s {
          row = release_of_host prefix s.row;
          phase = stop_host token prefix s.phase;
        })
    -- saveMaintenanceConfig and setMaintenanceNextRun, and the clock
    edit :
        (s : System) (enabled : Bool) (schedule : String) (due : Option ℕ)
        → Step s (record s { row = edit_row enabled schedule due s.row })
    tick : (s : System) (d : ℕ) → Step s (record s { now = s.now + d })

  pub data Reach (s : System) : System → Type 0 where
    here : Reach s s
    next : {t u : System} → Reach s t → Step t u → Reach s u

-- The row as ensureMaintenanceRow creates it, before the first request.
abbrev pub init : ℕ → String → Option ℕ → System
init now schedule due = record {
  row = record {
    enabled = true;
    schedule = schedule;
    next_run = due;
    lease_until = none;
    claim_token = none;
    last_run = none;
    last_status = none;
  };
  now = now;
  phase = λ p. arrived;
}
