-- ===== src/Maintenance/Overlap.antt =====
-- Two runs of the maintenance at once (src/console/maintenance.js, src/console/store.js), where an
-- UPDATE of a claim may commit after another request has won.
use ichibi_lake.Base.{
  ℕ, ◌+◌, String, ◌≡◌, ◌≢◌, refl, Bool, true, false, Option, arith, eq_refl, nat_eq, inl, inr,
  if◌then◌else◌,
}
use ichibi_lake.Maintenance.Row.{HasCome, can_claim, can_claim_iff, commit_claim}
use ichibi_lake.Maintenance.System.{
  arrived, reading, writing, claimed, running, System, set_phase, overtake, lease_ms, move,
  store_row, next_run_of, begin, look, commit, win, Reach, here, next, init,
}

module _ (token gateway : ℕ → String) (forced : ℕ → Bool) (disabled : String → Bool)
    (compute_next : String → ℕ → Option ℕ) where
  -- Where an UPDATE of a claim may commit after another request has won: for any two different
  -- requests on instances where the maintenance is not disabled, and a fresh row whose run is due (or
  -- has no time set), there is an order of their steps after which both run in the same millisecond,
  -- so inside each other's lease. Both WHERE clauses look at the row first; one commits, is read back
  -- and wins; the other commits over it and reads back its own token.
  pub claims_overlap :
      (now : ℕ) (schedule : String) (due : Option ℕ) (p q : ℕ)
      → p ≢ q
      → disabled (gateway p) ≡ false
      → disabled (gateway q) ≡ false
      → HasCome due now
      → (s : System) × Reach true token gateway forced disabled compute_next
          (init now schedule due)
          s
        × (s.phase p ≡ running now)
        × (s.phase q ≡ running now)
        × (s.now ≡ now)
  unfolding commit_claim
  claims_overlap now schedule due p q apart on_p on_q come =
      let pp : nat_eq p p ≡ true = ground arith in
      let qq : nat_eq q q ≡ true = ground arith in
      let pq : nat_eq p q ≡ false = ground (arith, apart) in
      let qp : nat_eq q p ≡ false = ground (arith, apart) in
      let s0 = init now schedule due in
      let np = next_run_of true token gateway forced disabled compute_next p s0 in
      let nq = next_run_of true token gateway forced disabled compute_next q s0 in
      let s1 = move true token gateway forced disabled compute_next p (reading now np) s0 in
      let s2 = move true token gateway forced disabled compute_next q (reading now nq) s1 in
      let s3 =
        move true token gateway forced disabled compute_next p (writing now np true false) s2 in
      let s4 =
        move true token gateway forced disabled compute_next q (writing now nq true false) s3 in
      let s5 =
        store_row true token gateway forced disabled compute_next p (claimed now)
          (commit_claim true (token p) np (now + lease_ms) s4.row) s4 in
      let s6 : System = record s5 { phase = set_phase p (running now) (overtake s5.phase) } in
      let s7 =
        store_row true token gateway forced disabled compute_next q (claimed now)
          (commit_claim true (token q) nq (now + lease_ms) s6.row) s6 in
      let s8 : System = record s7 { phase = set_phase q (running now) (overtake s7.phase) } in
      let can : (r : ℕ) → can_claim now (forced r) s0.row ≡ true =
        λ r. (can_claim_iff now (forced r) s0.row).1 (inl refl, inr (refl, come)) in
      let idle : (r t : ℕ) → gateway r ≡ gateway q → s1.phase r ≢ running t = λ r t e.
        elim (nat_eq p r) as (λ b. (if b then reading now np else arrived) ≢ running t) [
          | true ↦ λ h. ground (arith, h)
          | false ↦ λ h. ground (arith, h)
        ] in
      (
        s8,
        next
            (next
              (next
                (next
                  (next
                    (next
                      (next (next here (begin s0 p refl on_p (λ r t e h. ground (arith, h))))
                        (begin s1 q (rw pq refl) on_q idle))
                      (look s2 p now np true (rw (qp, pp) refl) (can p)))
                    (look s3 q now nq true (rw (pq, qq) refl) (can q)))
                  (commit s4 p now np true false (rw (qp, pp) refl) (λ h. refl)))
                (win s5 p now (rw pp refl) (eq_refl (token p))))
              (commit s6 q now nq true true (rw (pq, qq) refl) (λ h. refl)))
            (win s7 q now (rw qq refl) (eq_refl (token q))),
        rw (qp, pp) refl,
        rw qq refl,
        refl,
      )
