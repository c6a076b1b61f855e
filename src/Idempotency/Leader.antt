-- ===== src/Idempotency/Leader.antt =====
-- The first token that a read of src/idempotency.js gives, while no row has run out.
use ichibi_lake.Base.{
  ℕ, ◌+◌, ◌≤◌, ◌<◌, String, ◌≡◌, refl, ap, ◌∙◌, Bool, Option, none, some, List, [], ◌∷◌, arith, ltb,
  ◌==◌, filter, head?, All, Bool-cases, inl, inr,
}
use ichibi_lake.Idempotency.Rows.{
  Row, Summary, note, collect, live, place, sort_by_seq, tokens_of, idempotency_rows,
  pending_lease_ms,
}
use ichibi_lake.Idempotency.Summaries.{leader, Ascending}

-- No row has expired and no claim's lease has run out.
abbrev pub Timely : ℕ → List Row → Type 0
Timely now rows = All (λ r. (now < r.expires_ms) × (now < r.created_ms + pending_lease_ms)) rows

abbrev InLease : ℕ → List Summary → Type 0
InLease now ts = All (λ t. now < t.first_ms + pending_lease_ms) ts

idempotency_rows-eq :
    (now : ℕ) (rows : List Row) → Timely now rows → idempotency_rows now rows ≡ rows
unfolding idempotency_rows
idempotency_rows-eq now [] h = refl
idempotency_rows-eq now (r ∷ rows) (t, h) =
    let ih : filter (λ (q : Row). ltb now q.expires_ms) rows ≡ rows =
      idempotency_rows-eq now rows h in
    ground (arith, ih)

note-InLease :
    (now : ℕ) (r : Row) (ts : List Summary)
    → now < r.created_ms + pending_lease_ms
    → InLease now ts
    → InLease now (note r ts)
unfolding note
note-InLease now r [] t h = (t, tt)
note-InLease now r (u ∷ ts) t (b, h) = elim (Bool-cases (u.token == r.token)) [
  | inl same ↦ rw same (b, h)
  | inr other ↦ rw other (b, note-InLease now r ts t h)
]

collect-InLease :
    (now : ℕ) (ts : List Summary) (rows : List Row)
    → Timely now rows
    → InLease now ts
    → InLease now (collect ts rows)
unfolding collect
collect-InLease now ts [] t h = h
collect-InLease now ts (r ∷ rows) (b, t) h =
    collect-InLease now (note r ts) rows t (note-InLease now r ts b.1 h)

abbrev pub token_of : Option Summary → Option String
token_of none = none
token_of (some t) = some t.token

leader-live :
    (now : ℕ) (ts : List Summary)
    → InLease now ts
    → token_of (head? (filter (live now) ts)) ≡ leader ts
unfolding leader live
leader-live now [] h = refl
leader-live now (t ∷ ts) (b, h) = let ih = leader-live now ts h in ground (arith, ih)

All-filter :
    (n : ℕ) (p : Summary → Bool) (ts : List Summary)
    → All (λ u. n ≤ u.first_seq) ts
    → All (λ u. n ≤ u.first_seq) (filter p ts)
All-filter n p [] h = tt
All-filter n p (t ∷ ts) (b, h) = elim (Bool-cases (p t)) [
  | inl keep ↦ rw keep (b, All-filter n p ts h)
  | inr drop ↦ rw drop (All-filter n p ts h)
]

filter-Ascending : (p : Summary → Bool) (ts : List Summary) → Ascending ts → Ascending (filter p ts)
filter-Ascending p [] h = tt
filter-Ascending p (t ∷ ts) (le, h) = elim (Bool-cases (p t)) [
  | inl keep ↦ rw keep (All-filter t.first_seq p ts le, filter-Ascending p ts h)
  | inr drop ↦ rw drop (filter-Ascending p ts h)
]

place_first :
    (t : Summary) (ts : List Summary)
    → All (λ u. t.first_seq ≤ u.first_seq) ts
    → place t ts ≡ t ∷ ts
unfolding place
place_first t [] h = refl
place_first t (u ∷ ts) (le, h) = ground arith

-- The sort changes nothing: the tokens are met in the order of their first rows.
sort_by_seq-eq : (ts : List Summary) → Ascending ts → sort_by_seq ts ≡ ts
unfolding sort_by_seq
sort_by_seq-eq [] h = refl
sort_by_seq-eq (t ∷ ts) (le, h) = ap (place t) (sort_by_seq-eq ts h) ∙ place_first t ts le

pub tokens_of-leader :
    (now : ℕ) (rows : List Row)
    → Timely now rows
    → Ascending (collect [] rows)
    → token_of (head? (tokens_of (idempotency_rows now rows) now)) ≡ leader (collect [] rows)
unfolding tokens_of
tokens_of-leader now rows t up =
    rw
      (
        idempotency_rows-eq now rows t,
        sort_by_seq-eq _ (filter-Ascending (live now) (collect [] rows) up),
      )
      (leader-live now (collect [] rows) (collect-InLease now [] rows t tt))
