-- ===== src/Maintenance/Exclusion.antt =====
-- Which runs of the maintenance exclude each other (src/console/maintenance.js,
-- src/console/store.js), where no UPDATE of a claim commits after another request has won.
use mathlib.Core.Path.{subst}
use ichibi_lake.Base.{
  ℕ, ◌+◌, ◌≤◌, String, ◌≡◌, ◌≢◌, ◌⊎◌, inl, inr, refl, ◌∙◌, Bool, true, false, Option, arith, ◌==◌,
  eq_iff, nat_eq, nat_eq_iff, Bool-cases, if◌then◌else◌,
}
use ichibi_lake.Base.Text.{has_prefix}
use ichibi_lake.Maintenance.Row.{Row, has_token, can_claim, commit_claim, release_of_host, edit_row}
use ichibi_lake.Maintenance.System.{
  Phase, refused, finished, stopped, reading, writing, claimed, running, System, set_phase,
  overtake, stop_host, lease_ms, Step, begin, turn_away, look, commit, conflict, win, lose, finish,
  abandon, restart, edit, tick, Reach, here, next, init,
}
use ichibi_lake.Maintenance.Fits.{
  Fits, Fits-tick, Keeps, Fits-Keeps, Fits-displaced, Fits-overtaken, Fits-can_claim, finish-Keeps,
  release-Keeps, edit-Keeps, commit_claim-apart, commit_claim-own, same_token,
}
use ichibi_lake.Maintenance.Free.{
  IsFree, IsFree-set_phase, IsIdle, IsFree-idle, IsFree-overtake, IsFree-stop_host, overtaken_last,
  reading-IsIdle, claimed-IsIdle, refused-IsIdle, finished-IsIdle,
}

module _ (token gateway : ℕ → String) (forced : ℕ → Bool) (disabled : String → Bool)
    (compute_next : String → ℕ → Option ℕ) (distinct : (p q : ℕ) → token p ≡ token q → p ≡ q) where
  Fit : Row → ℕ → (ℕ → Phase) → Type 0
  Fit row now phases = (p : ℕ) → Fits (token p) row now (phases p)

  tokens_apart : (p q : ℕ) → nat_eq p q ≡ false → (token p == token q) ≡ false
  tokens_apart p q h = elim (Bool-cases (token p == token q)) [
    | inr apart ↦ apart
    | inl same ↦ absurd (ground (arith, h, distinct p q ((eq_iff (token p) (token q)).0 same)))
  ]

  Fit-set_phase :
      (row row' : Row) (now : ℕ) (phases : ℕ → Phase) (p : ℕ) (ph : Phase)
      → ((q : ℕ) → nat_eq p q ≡ false → Fits (token q) row' now (phases q))
      → Fits (token p) row' now ph
      → Fit row' now (set_phase p ph phases)
  unfolding Fit
  Fit-set_phase row row' now phases p ph others own q =
      elim (nat_eq p q)
          as (λ b. nat_eq p q ≡ b → Fits (token q) row' now (if b then ph else phases q)) [
            | true ↦ λ same. subst (λ x. Fits (token x) row' now ph) ((nat_eq_iff p q).0 same) own
            | false ↦ λ other. others q other
          ]
        refl

  Fit-store_row :
      (row row' : Row) (now : ℕ) (phases : ℕ → Phase) (p : ℕ) (ph : Phase)
      → Fit row now phases
      → ((k : String) → (token p == k) ≡ false → Keeps k row row')
      → Fits (token p) row' now ph
      → Fit row' now (set_phase p ph phases)
  unfolding Fit
  Fit-store_row row row' now phases p ph v keeps own =
      Fit-set_phase row row' now phases p ph
        (λ q other.
          Fits-Keeps (token q) row row' now (phases q) (keeps (token q) (tokens_apart p q other))
            (v q))
        own

  Fit-move :
      (row : Row) (now : ℕ) (phases : ℕ → Phase) (p : ℕ) (ph : Phase)
      → Fit row now phases
      → Fits (token p) row now ph
      → Fit row now (set_phase p ph phases)
  unfolding Keeps
  Fit-move row now phases p ph v own =
      Fit-store_row row row now phases p ph v (λ k h. inl (refl, refl)) own

  at_phase :
      (row : Row) (now : ℕ) (phases : ℕ → Phase) (p : ℕ) {ph : Phase}
      → Fit row now phases
      → phases p ≡ ph
      → Fits (token p) row now ph
  unfolding Fit
  at_phase row now phases p v h = subst (λ x. Fits (token p) row now x) h (v p)

  Fit-commit :
      (row : Row) (now : ℕ) (phases : ℕ → Phase) (p t : ℕ) (due : Option ℕ) (matched : Bool)
      → Fit row now phases
      → IsFree now phases
      → phases p ≡ writing t due matched false
      → Fit
          (commit_claim matched (token p) due (t + lease_ms) row)
          now
          (set_phase p (claimed t) phases)
  unfolding Fit IsFree
  Fit-commit row now phases p t due true v free h =
      let fresh = (at_phase row now phases p v h).0 in
      let after = commit_claim true (token p) due (t + lease_ms) row in
      Fit-set_phase row after now phases p (claimed t)
        (λ q other.
          Fits-displaced (token q) row after now (phases q)
            (commit_claim-apart (token p) (token q) (t + lease_ms) due row (tokens_apart p q other))
            (λ u run. free p q t u due h run) (v q))
        (commit_claim-own (token p) now t due true row fresh)
  Fit-commit row now phases p t due false v free h =
      let fresh = (at_phase row now phases p v h).0 in
      Fit-store_row row (commit_claim false (token p) due (t + lease_ms) row) now phases p
        (claimed t) v (λ k apart. unfold Keeps commit_claim in inl (refl, refl))
        (commit_claim-own (token p) now t due false row fresh)

  Fit-restart :
      (row : Row) (now : ℕ) (phases : ℕ → Phase) (prefix : String)
      → Fit row now phases
      → Fit (release_of_host prefix row) now (stop_host token prefix phases)
  unfolding Fit
  Fit-restart row now phases prefix v q =
      let after = release_of_host prefix row in
      elim (has_prefix prefix (token q))
          as (λ b.
            has_prefix prefix (token q) ≡ b
            → Fits (token q) after now (if b then stopped else phases q)) [
              | true ↦ λ gone. tt
              | false ↦ λ other.
                  Fits-Keeps (token q) row after now (phases q)
                    (release-Keeps prefix (token q) row other) (v q)
            ]
        refl

  -- The invariant of the steps.
  Inv : System → Type 0
  Inv s = Fit s.row s.now s.phase × IsFree s.now s.phase

  Inv-idle :
      (s : System) (p : ℕ) (ph : Phase)
      → Inv s
      → IsIdle ph
      → Fits (token p) s.row s.now ph
      → Inv (record s { phase = set_phase p ph s.phase })
  unfolding Inv
  Inv-idle s p ph (v, free) idle own =
      (Fit-move s.row s.now s.phase p ph v own, IsFree-idle s.now s.phase p ph free idle)

  Inv-look :
      (s : System) (p t : ℕ) (due : Option ℕ) (matched : Bool)
      → Inv s
      → s.phase p ≡ reading t due
      → can_claim t (forced p) s.row ≡ matched
      → Inv (record s { phase = set_phase p (writing t due matched false) s.phase })
  unfolding Inv
  Inv-look s p t due matched (v, free) h found =
      let (fresh, early) = at_phase s.row s.now s.phase p v h in
      (
        Fit-move s.row s.now s.phase p (writing t due matched false) v (fresh, early),
        IsFree-set_phase s.now s.phase p (writing t due matched false) free
            (λ q a u due' e run.
              let yes : matched ≡ true = ground (arith, e) in
              Fits-can_claim (token q) s.row s.now t u (forced p)
                (at_phase s.row s.now s.phase q v run) early (found ∙ yes))
            (λ q a u due' e run. absurd (ground (arith, run))),
      )

  Inv-win :
      (s : System) (p t : ℕ)
      → Inv s
      → s.phase p ≡ claimed t
      → has_token s.row (token p) ≡ true
      → Inv (record s { phase = set_phase p (running t) (overtake s.phase) })
  unfolding Inv Fit
  Inv-win s p t (v, free) h held = (
    Fit-move s.row s.now (overtake s.phase) p (running t)
        (λ q. Fits-overtaken (token q) s.row s.now (s.phase q) (v q))
        (inl (held, at_phase s.row s.now s.phase p v h held)),
    IsFree-set_phase s.now (overtake s.phase) p (running t) (IsFree-overtake s.now s.phase)
        (λ q a u due e run. absurd (ground (arith, e)))
        (λ q a u due e run. absurd (overtaken_last (s.phase q) a due e)),
  )

  Inv-Step :
      (s u : System) → Inv s → Step false token gateway forced disabled compute_next s u → Inv u
  unfolding Inv
  Inv-Step _ _ (v, free) (begin s p h _ _) =
      Inv-idle s p _ (v, free) (reading-IsIdle _ _)
        (at_phase s.row s.now s.phase p v h, ground arith)
  Inv-Step _ _ v (turn_away s p h) = Inv-idle s p refused v refused-IsIdle tt
  Inv-Step _ _ v (look s p t due matched h found) = Inv-look s p t due matched v h found
  Inv-Step _ _ (v, free) (commit s p t due matched true h behind) =
      absurd (ground (arith, behind refl))
  Inv-Step _ _ (v, free) (commit s p t due matched false h behind) = (
    Fit-commit s.row s.now s.phase p t due matched v free h,
    IsFree-idle s.now s.phase p (claimed t) free (claimed-IsIdle t),
  )
  Inv-Step _ _ v (conflict s p t due matched behind h) = Inv-idle s p refused v refused-IsIdle tt
  Inv-Step _ _ v (win s p t h held) = Inv-win s p t v h held
  Inv-Step _ _ v (lose s p t h _) = Inv-idle s p refused v refused-IsIdle tt
  Inv-Step _ _ (v, free) (finish s p t status h) = (
    Fit-store_row s.row _ s.now s.phase p finished v
        (λ k apart. finish-Keeps (token p) k status s.now s.row apart) tt,
    IsFree-idle s.now s.phase p finished free finished-IsIdle,
  )
  Inv-Step _ _ v (abandon s p t h) = Inv-idle s p finished v finished-IsIdle tt
  Inv-Step _ _ (v, free) (restart s prefix) =
      (Fit-restart s.row s.now s.phase prefix v, IsFree-stop_host s.now token prefix s.phase free)
  Inv-Step _ _ (v, free) (edit s enabled schedule due) = (
    unfold Fit in
        λ q.
          Fits-Keeps (token q) s.row (edit_row enabled schedule due s.row) s.now (s.phase q)
            (edit-Keeps (token q) schedule enabled due s.row) (v q),
    free,
  )
  Inv-Step _ _ (v, free) (tick s d) = (
    unfold Fit in λ q. Fits-tick (token q) s.row s.now d (s.phase q) (v q),
    unfold IsFree in λ p q t u due h g. let over = free p q t u due h g in ground (arith, over),
  )

  Inv-Reach :
      (s u : System) → Inv s → Reach false token gateway forced disabled compute_next s u → Inv u
  Inv-Reach s u v here = v
  Inv-Reach s u v (next r st) = Inv-Step _ u (Inv-Reach s _ v r) st

  Inv-init : (now : ℕ) (schedule : String) (due : Option ℕ) → Inv (init now schedule due)
  unfolding Inv Fit IsFree
  Inv-init now schedule due = ((λ p. refl), (λ p q t u due' h g. absurd (ground (arith, g))))

  -- Requests have distinct claim tokens and take their steps in any order, from a fresh row, and no
  -- UPDATE of a claim commits after another request has won its claim since that UPDATE looked at the
  -- row (the row's other statements are atomic): of two requests that run the maintenance at the same
  -- time, one has outlived its lease of six hours.
  pub runs_exclude :
      (now : ℕ) (schedule : String) (due : Option ℕ) (s : System) (p q t u : ℕ)
      → Reach false token gateway forced disabled compute_next (init now schedule due) s
      → s.phase p ≡ running t
      → s.phase q ≡ running u
      → p ≢ q
      → (t + lease_ms ≤ s.now) ⊎ (u + lease_ms ≤ s.now)
  unfolding Inv
  runs_exclude now schedule due s p q t u reach at_p at_q apart =
      let (v, _) = Inv-Reach (init now schedule due) s (Inv-init now schedule due) reach in
      elim (at_phase s.row s.now s.phase p v at_p) [
        | inr past ↦ inl past
        | inl (held, _) ↦ elim (at_phase s.row s.now s.phase q v at_q) [
          | inr past ↦ inr past
          | inl (other, _) ↦
              absurd
                (apart (distinct p q (same_token s.row.claim_token (token p) (token q) held other)))
        ]
      ]
