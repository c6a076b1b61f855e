-- ===== src/Idempotency/EarlyClose.antt =====
-- A connection that closes while its handler still runs releases the key (src/idempotency.js, the
-- 'close' listener of beginIdempotentRequest).
use ichibi_lake.Base.{
  ℕ, ◌+◌, ◌<◌, String, ◌≡◌, ◌≢◌, refl, true, false, none, [], ◌∷◌, arith, ltb, ◌==◌, eq_iff,
  eq_refl, nat_eq,
}
use ichibi_lake.Idempotency.Rows.{
  Mark, pending, released, Row, idempotency_rows, collect, live, sort_by_seq, tokens_of,
  pending_lease_ms,
}
use ichibi_lake.Idempotency.Begin.{first_look, second_look, decide, decide_owner}
use ichibi_lake.Idempotency.System.{
  cleared, claimed, running, orphaned, System, append, move, look, claim, win, close, Reach, here,
  next, IsRunning, init,
}

empty_read :
    (hash : String) (now : ℕ) → first_look hash (tokens_of (idempotency_rows now []) now) ≡ none
unfolding tokens_of idempotency_rows collect sort_by_seq first_look decide
empty_read hash now = refl

module _ (now ttl : ℕ) (lives : 0 < ttl) where
  abbrev wrote : ℕ → String → String → Mark → Row
  wrote seq k hash mark = record {
    seq = seq;
    token = k;
    request_hash = hash;
    mark = mark;
    created_ms = now;
    expires_ms = now + ttl;
  }

  kept : ltb now (now + ttl) ≡ true
  kept = ground arith

  in_lease : ltb now (now + pending_lease_ms) ≡ true
  in_lease = ground arith

  -- A claim that is alone in the table is first.
  alone :
      (k hash : String)
      → second_look hash k (tokens_of (idempotency_rows now (wrote 0 k hash pending ∷ [])) now)
        ≡ none
  unfolding tokens_of idempotency_rows collect live sort_by_seq second_look decide decide_owner
  alone k hash = simp (kept, in_lease) (ground (arith, eq_refl hash, eq_refl k))

  -- A released claim is as none.
  reopened :
      (k hash other : String)
      → first_look other (
          tokens_of
            (idempotency_rows now (wrote 0 k hash pending ∷ wrote 1 k hash released ∷ []))
            now)
        ≡ none
  unfolding tokens_of idempotency_rows collect live sort_by_seq first_look decide decide_owner
  reopened k hash other = simp (kept, eq_refl)

  -- The next claim is first.
  retaken :
      (k hash j other : String)
      → (k == j) ≡ false
      → second_look other j (
          tokens_of
            (idempotency_rows now
              (wrote 0 k hash pending ∷ wrote 1 k hash released ∷ wrote 2 j other pending ∷ []))
            now)
        ≡ none
  unfolding tokens_of idempotency_rows collect live sort_by_seq second_look decide decide_owner
  retaken k hash j other ne =
      simp (kept, in_lease, eq_refl, ne) (ground (arith, eq_refl other, eq_refl j))

-- Whatever two requests share a key, there is a run in which both handlers are at work: the
-- connection of the first closes while its handler runs, which releases the key, and the second
-- then claims it and runs.
pub early_close_runs_twice :
    (token hash : ℕ → String) (ttl now p q : ℕ)
    → p ≢ q
    → token p ≢ token q
    → 0 < ttl
    → (s : System) × Reach token hash ttl (init now) s × (s.phase p ≡ orphaned now) × IsRunning s q
early_close_runs_twice token hash ttl now p q ne distinct lives =
    let pp : nat_eq p p ≡ true = ground arith in
    let pq : nat_eq p q ≡ false = ground arith in
    let s0 = init now in
    let s1 : System = move token hash ttl p (cleared now) s0 in
    let s2 : System = append token hash ttl p now now pending (claimed now) s1 in
    let s3 : System = move token hash ttl p (running now) s2 in
    let s4 : System = append token hash ttl p now now released (orphaned now) s3 in
    let s5 : System = move token hash ttl q (cleared now) s4 in
    let s6 : System = append token hash ttl q now now pending (claimed now) s5 in
    let s7 : System = move token hash ttl q (running now) s6 in
    (
      s7,
      next
          (next
            (next
              (next
                (next
                  (next (next here (look s0 p refl (empty_read (hash p) now)))
                    (claim s1 p now (ground arith)))
                  (win s2 p now (ground arith) (alone now ttl lives (token p) (hash p))))
                (close s3 p now (ground arith)))
              (look s4 q (ground arith) (reopened now ttl lives (token p) (hash p) (hash q))))
            (claim s5 q now (ground arith)))
          (win s6 q now (ground arith) (
            retaken now ttl lives (token p) (hash p) (token q) (hash q)
              (ground (arith, eq_iff (token p) (token q))))),
      ground arith,
      (now, ground arith),
    )
