-- ===== src/Idempotency/Exclusion/Steps.antt =====
-- Every step of the requests keeps the invariant of `Exclusion`, so that no two handlers of one
-- Idempotency-Key run together while no connection closes early (src/idempotency.js).
use mathlib.Core.Path.{subst}
use mathlib.Core.Option.{some-injective}
use ichibi_lake.Base.{
  ℕ, String, ◌≡◌, ◌≢◌, inl, inr, refl, sym, ◌∙◌, none, some, List, [], ◌∷◌, arith, leb, not, eq_iff,
  eq_refl, filter,
}
use ichibi_lake.Idempotency.Rows.{
  pending, released, Row, Summary, merge, note, collect, purge_idempotency,
}
use ichibi_lake.Idempotency.Begin.{outcome_mark}
use ichibi_lake.Idempotency.System.{
  Phase, cleared, claimed, running, backing_off, orphaned, answered, finished, System, Step, look,
  refuse, claim, win, lose, back_off, finish, close, finish_orphan, purge, tick, Reach, here, next,
  IsRunning, init,
}
use ichibi_lake.Idempotency.Summaries.{mark_of, mark_of-note, leader}
use ichibi_lake.Idempotency.Leader.{Timely}
use ichibi_lake.Idempotency.Exclusion.{
  Fits, summary, Inv, Inv-move, row, Inv-append, others_fit, won,
}

purge_idempotency-eq :
    (now : ℕ) (rows : List Row) → Timely now rows → purge_idempotency now rows ≡ rows
unfolding purge_idempotency
purge_idempotency-eq now [] h = refl
purge_idempotency-eq now (r ∷ rows) (t, h) =
    let ih : filter (λ (q : Row). not (leb q.expires_ms now)) rows ≡ rows =
      purge_idempotency-eq now rows h in
    ground (arith, ih)

module _ (token hash : ℕ → String) (ttl : ℕ) where
  -- The step is not the 'close' event of a connection whose handler still runs.
  abbrev pub KeepsOpen : {s t : System} → Step token hash ttl s t → Type 0
  KeepsOpen (close s p t h) = ⊥
  KeepsOpen _ = Unit

  -- Along a run, no connection closes early, and no step is taken once a row has run out.
  abbrev pub IsOrderly : {s t : System} → Reach token hash ttl s t → Type 0
  IsOrderly here = Unit
  IsOrderly (next {t = t} r st) = IsOrderly r × KeepsOpen st × Timely t.now t.rows

claimed_mark :
    (r : Row) (ts : List Summary)
    → r.mark ≡ pending
    → mark_of r.token ts ≡ none
    → mark_of r.token (note r ts) ≡ some pending
unfolding merge
claimed_mark r ts m h = ground (arith, mark_of-note r.token r ts, eq_refl r.token)

-- Where the leader writes its result, nothing changes for the others, of which none is the leader.
keeps_Fits :
    (k : String) (r : Row) (ts : List Summary) (ph : Phase)
    → r.token ≢ k
    → leader ts ≡ some r.token
    → Fits k ts ph
    → Fits k (note r ts) ph
keeps_Fits k r ts Phase.arrived ne l h = ground (arith, mark_of-note k r ts, eq_iff r.token k)
keeps_Fits k r ts (cleared _) ne l h = ground (arith, mark_of-note k r ts, eq_iff r.token k)
keeps_Fits k r ts (claimed _) ne l h = ground (arith, mark_of-note k r ts, eq_iff r.token k)
keeps_Fits k r ts (backing_off _ _) ne l h = ground (arith, mark_of-note k r ts, eq_iff r.token k)
keeps_Fits k r ts (running _) ne l h = absurd (ne (some-injective _ _ (sym l ∙ h)))
keeps_Fits k r ts (orphaned _) ne l h = h
keeps_Fits k r ts (answered _) ne l h = tt
keeps_Fits k r ts finished ne l h = tt

module _ (token hash : ℕ → String) (ttl : ℕ)
    (distinct : (p q : ℕ) → token p ≡ token q → p ≡ q) where
  -- The phase of a request, in what the invariant says of it.
  Fits-running :
      (s : System) (p : ℕ) {ph : Phase}
      → Inv token hash ttl distinct s
      → s.phase p ≡ ph
      → Fits (token p) (summary s) ph
  Fits-running s p v e = subst (Fits (token p) (summary s)) e (v.fits p)

  Step-Inv :
      {s u : System} (st : Step token hash ttl s u)
      → KeepsOpen token hash ttl st
      → Timely s.now s.rows
      → Inv token hash ttl distinct s
      → Inv token hash ttl distinct u
  Step-Inv (look s p e l) k t v = Inv-move token hash ttl distinct s p _ v (Fits-running s p v e)
  Step-Inv (refuse s p r e l) k t v = Inv-move token hash ttl distinct s p _ v tt
  Step-Inv (claim s p t0 e) k t v =
      Inv-append token hash ttl distinct s p t0 t0 pending (claimed t0) v
        (claimed_mark (row token hash ttl distinct p t0 t0 pending s) (summary s) refl
          (Fits-running s p v e))
        (others_fit token hash ttl distinct s p t0 t0 pending v (inl refl))
  Step-Inv (win s p t0 e l) k t v =
      Inv-move token hash ttl distinct s p _ v
        (won token hash ttl distinct s p v t (Fits-running s p v e) l)
  Step-Inv (lose s p t0 r e l) k t v =
      Inv-move token hash ttl distinct s p _ v (Fits-running s p v e)
  Step-Inv (back_off s p t0 r e) k t v =
      Inv-append token hash ttl distinct s p t0 s.now released (answered r) v tt
        (others_fit token hash ttl distinct s p t0 s.now released v (inr refl))
  Step-Inv (finish s p t0 status size response e) k t v =
      Inv-append token hash ttl distinct s p t0 s.now (outcome_mark status response size) finished v
        tt
        (λ q ne.
          keeps_Fits (token q)
            (row token hash ttl distinct p t0 s.now (outcome_mark status response size) s)
            (summary s) (s.phase q) (λ same. ne (distinct p q same)) (Fits-running s p v e)
            (v.fits q))
  Step-Inv (close s p t0 e) k t v = absurd k
  Step-Inv (finish_orphan s p t0 status size response e) k t v = absurd (Fits-running s p v e)
  Step-Inv (purge s) k t v =
      subst (λ (rows : List Row). Inv token hash ttl distinct (record s { rows = rows }))
        (sym (purge_idempotency-eq s.now s.rows t)) v
  Step-Inv (tick s d) k t v = record { up = v.up; below = v.below; fits = v.fits }

  Reach-Inv :
      {s u : System} (r : Reach token hash ttl s u)
      → IsOrderly token hash ttl r
      → Inv token hash ttl distinct s
      → Inv token hash ttl distinct u
  Reach-Inv here o v = v
  Reach-Inv (next r st) (o, k, t) v = Step-Inv st k t (Reach-Inv r o v)

  Inv-init : (now : ℕ) → Inv token hash ttl distinct (init now)
  unfolding collect mark_of
  Inv-init now = record { up = tt; below = tt; fits = λ p. refl }

  -- Requests with distinct claim tokens start with an empty table and take their steps in any
  -- order, on any number of instances. As long as no connection closes before its handler has
  -- answered, and no row expires and no claim's lease runs out, at most one of them is running its
  -- handler.
  pub at_most_one_runs :
      {now : ℕ} {s : System} (r : Reach token hash ttl (init now) s)
      → IsOrderly token hash ttl r
      → (p q : ℕ) → IsRunning s p
      → IsRunning s q
      → p ≡ q
  at_most_one_runs {now} {s} r o p q (t, hp) (u, hq) =
      let v = Reach-Inv r o (Inv-init now) in
      distinct p q (some-injective _ _ (sym (Fits-running s p v hp) ∙ Fits-running s q v hq))
