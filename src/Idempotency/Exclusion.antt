-- ===== src/Idempotency/Exclusion.antt =====
-- At most one request with an Idempotency-Key runs its handler at a time (src/idempotency.js).
pub mod Steps
use mathlib.Core.Path.{subst}
use ichibi_lake.Base.{
  ℕ, suc, ◌+◌, ◌<◌, String, ◌≡◌, ◌≢◌, ◌⊎◌, inl, inr, refl, ap, sym, ◌∙◌, Bool, true, false, Option,
  none, some, List, [], ◌∷◌, ◌++◌, arith, ltb, leb, ◌==◌, eq_iff, nat_eq, nat_eq_iff, filter, head?,
  All, Bool-cases, if◌then◌else◌,
}
use ichibi_lake.Idempotency.Rows.{
  Mark, pending, released, done, Row, Summary, merge, note, collect, tokens_of, idempotency_rows,
  purge_idempotency,
}
use ichibi_lake.Idempotency.Begin.{Reply, free, sent, owned, decide, first_look, second_look}
use ichibi_lake.Idempotency.System.{
  Phase, cleared, claimed, running, backing_off, orphaned, answered, finished, System, set_phase,
  read, append, move, Step, Reach, here, next, IsRunning, init,
}
use ichibi_lake.Idempotency.Summaries.{
  collect-append, mark_of, mark_of-note, leader, leader-note, leader-ne-none, Ascending, Below,
  note-Below, note-Ascending,
}
use ichibi_lake.Idempotency.Leader.{Timely, token_of, tokens_of-leader}

abbrev summary : System → List Summary
summary s = collect [] s.rows

-- What the summary says of a request, by where it stands.
abbrev Fits : String → List Summary → Phase → Type 0
Fits k ts Phase.arrived = mark_of k ts ≡ none
Fits k ts (cleared _) = mark_of k ts ≡ none
Fits k ts (claimed _) = mark_of k ts ≡ some pending
Fits k ts (backing_off _ _) = mark_of k ts ≡ some pending
Fits k ts (running _) = leader ts ≡ some k
Fits k ts (orphaned _) = ⊥
Fits k ts (answered _) = Unit
Fits k ts finished = Unit

-- A token that a summary gains nothing for keeps what is said of its request.
Fits-note :
    (k : String) (r : Row) (ts : List Summary) (ph : Phase)
    → r.token ≢ k
    → (r.mark ≡ pending) ⊎ (r.mark ≡ released)
    → Fits k ts ph
    → Fits k (note r ts) ph
Fits-note k r ts Phase.arrived ne m h = ground (arith, mark_of-note k r ts, eq_iff r.token k)
Fits-note k r ts (cleared _) ne m h = ground (arith, mark_of-note k r ts, eq_iff r.token k)
Fits-note k r ts (claimed _) ne m h = ground (arith, mark_of-note k r ts, eq_iff r.token k)
Fits-note k r ts (backing_off _ _) ne m h = ground (arith, mark_of-note k r ts, eq_iff r.token k)
Fits-note k r ts (running _) ne m h = leader-note k r ts h ne m
Fits-note k r ts (orphaned _) ne m h = h
Fits-note k r ts (answered _) ne m h = tt
Fits-note k r ts finished ne m h = tt

second_look-own :
    (hash token : String) (u : Summary) (ts : List Summary)
    → second_look hash token (u ∷ ts) ≡ none
    → u.token ≡ token
unfolding second_look
second_look-own hash token u ts h = ground (arith, eq_iff u.token token)

module _ (token hash : ℕ → String) (ttl : ℕ)
    (distinct : (p q : ℕ) → token p ≡ token q → p ≡ q) where
  record Inv (s : System) : Type 0 where
    up : Ascending (summary s)
    below : Below s.next_seq (summary s)
    fits : (p : ℕ) → Fits (token p) (summary s) (s.phase p)

  -- A step that moves one request and writes nothing.
  Inv-move :
      (s : System) (p : ℕ) (ph : Phase)
      → Inv s
      → Fits (token p) (summary s) ph
      → Inv (move token hash ttl p ph s)
  Inv-move s p ph v h = record {
    up = v.up;
    below = v.below;
    fits = λ q. elim (Bool-cases (nat_eq p q)) [
      | inl same ↦ rw same (subst (λ x. Fits (token x) (summary s) ph) ((nat_eq_iff p q).0 same) h)
      | inr other ↦ rw other (v.fits q)
    ];
  }

  -- The row that `append` writes.
  abbrev row : ℕ → ℕ → ℕ → Mark → System → Row
  row p started created mark s = record {
    seq = s.next_seq;
    token = token p;
    request_hash = hash p;
    mark = mark;
    created_ms = created;
    expires_ms = started + ttl;
  }

  -- A step that writes one row for one request and moves it.
  Inv-append :
      (s : System) (p started created : ℕ) (mark : Mark) (ph : Phase)
      → Inv s
      → Fits (token p) (note (row p started created mark s) (summary s)) ph
      → ((q : ℕ)
          → p ≢ q
          → Fits (token q) (note (row p started created mark s) (summary s)) (s.phase q))
      → Inv (append token hash ttl p started created mark ph s)
  Inv-append s p started created mark ph v mine others =
      let r = row p started created mark s in
      let e = sym (collect-append [] s.rows r) in
      record {
        up = subst Ascending e (note-Ascending r (summary s) v.below v.up);
        below = subst (Below (suc s.next_seq)) e (note-Below r (summary s) v.below);
        fits = λ q. elim (Bool-cases (nat_eq p q)) [
          | inl same ↦ rw same (
              subst (λ x. Fits (token x) (collect [] (s.rows ++ r ∷ [])) ph)
                ((nat_eq_iff p q).0 same) (subst (λ ts. Fits (token p) ts ph) e mine))
          | inr other ↦ rw other (
              subst (λ ts. Fits (token q) ts (s.phase q)) e
                (others q (ground (arith, nat_eq_iff p q))))
        ];
      }

  -- What is written for one request keeps what is said of the others, if it is no result.
  others_fit :
      (s : System) (p started created : ℕ) (mark : Mark)
      → Inv s
      → (mark ≡ pending) ⊎ (mark ≡ released)
      → (q : ℕ) → p ≢ q
      → Fits (token q) (note (row p started created mark s) (summary s)) (s.phase q)
  others_fit s p started created mark v m q ne =
      Fits-note (token q) (row p started created mark s) (summary s) (s.phase q)
        (λ e. ne (distinct p q e)) m (v.fits q)

  -- A request that finds its own claim first is the leader.
  won :
      (s : System) (p : ℕ)
      → Inv s
      → Timely s.now s.rows
      → mark_of (token p) (summary s) ≡ some pending
      → second_look (hash p) (token p) (read s) ≡ none
      → leader (summary s) ≡ some (token p)
  won s p v t mine look = let first = tokens_of-leader s.now s.rows t v.up in go (read s) first look
    where
      go :
          (ts : List Summary)
          → token_of (head? ts) ≡ leader (summary s)
          → second_look (hash p) (token p) ts ≡ none
          → leader (summary s) ≡ some (token p)
      go [] e l = absurd (leader-ne-none (token p) (summary s) mine (sym e))
      go (u ∷ ts) e l = sym e ∙ ap some (second_look-own (hash p) (token p) u ts l)
