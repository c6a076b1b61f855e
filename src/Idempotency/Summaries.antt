-- ===== src/Idempotency/Summaries.antt =====
-- What one more row does to the summary of tokensOf in src/idempotency.js.
use ichibi_lake.Base.{
  ℕ, suc, ◌≤◌, ◌<◌, String, ◌≡◌, ◌≢◌, ◌⊎◌, inl, inr, refl, Bool, true, false, Option, none, some,
  List, [], ◌∷◌, ◌++◌, arith, ◌==◌, eq_iff, All, Bool-cases, if◌then◌else◌,
}
use ichibi_lake.Idempotency.Rows.{Mark, pending, released, Row, Summary, merge, note, collect}

pub collect-append :
    (ts : List Summary) (rows : List Row) (r : Row)
    → collect ts (rows ++ r ∷ []) ≡ note r (collect ts rows)
unfolding collect
collect-append ts [] r = refl
collect-append ts (q ∷ rows) r = collect-append (note q ts) rows r

-- The state of a token.
unfoldable pub mark_of : String → List Summary → Option Mark
mark_of k [] = none
mark_of k (t ∷ ts) = if t.token == k then some t.mark else mark_of k ts

abbrev or_pending : Option Mark → Mark
or_pending none = pending
or_pending (some m) = m

pub mark_of-note :
    (k : String) (r : Row) (ts : List Summary)
    → mark_of k (note r ts)
      ≡ (if r.token == k then some (merge r.mark (or_pending (mark_of k ts))) else mark_of k ts)
unfolding mark_of note
mark_of-note k r [] = refl
mark_of-note k r (t ∷ ts) =
    ground (arith, mark_of-note k r ts, eq_iff r.token k, eq_iff t.token k, eq_iff t.token r.token)

-- The first token that is not released.
abbrev is_alive : Mark → Bool
is_alive released = false
is_alive _ = true

unfoldable pub leader : List Summary → Option String
leader [] = none
leader (t ∷ ts) = if is_alive t.mark then some t.token else leader ts

-- A claim or a release of another token leaves the leader.
pub leader-note :
    (k : String) (r : Row) (ts : List Summary)
    → leader ts ≡ some k
    → r.token ≢ k
    → (r.mark ≡ pending) ⊎ (r.mark ≡ released)
    → leader (note r ts) ≡ some k
unfolding leader note merge
leader-note k r [] h ne m = cc
leader-note k r (t ∷ ts) h ne m = ground (arith, leader-note k r ts, eq_iff t.token r.token)

-- A pending token is the leader, or comes behind it.
pub leader-ne-none :
    (k : String) (ts : List Summary) → mark_of k ts ≡ some pending → leader ts ≢ none
unfolding leader mark_of
leader-ne-none k [] h = cc
leader-ne-none k (t ∷ ts) h = ground (arith, leader-ne-none k ts)

-- Row ids grow along the summary, below the next one.
abbrev pub Ascending : List Summary → Type 0
Ascending [] = Unit
Ascending (t ∷ ts) = All (λ u. t.first_seq ≤ u.first_seq) ts × Ascending ts

abbrev pub Below : ℕ → List Summary → Type 0
Below n ts = All (λ u. u.first_seq < n) ts

Below-suc : (n : ℕ) (ts : List Summary) → Below n ts → Below (suc n) ts
Below-suc n [] h = tt
Below-suc n (t ∷ ts) (b, h) = (omega arith, Below-suc n ts h)

pub note-Below : (r : Row) (ts : List Summary) → Below r.seq ts → Below (suc r.seq) (note r ts)
unfolding note
note-Below r [] h = (omega arith, tt)
note-Below r (t ∷ ts) (b, h) = elim (Bool-cases (t.token == r.token)) [
  | inl same ↦ rw same (omega arith, Below-suc r.seq ts h)
  | inr other ↦ rw other (omega arith, note-Below r ts h)
]

All-note :
    (n : ℕ) (r : Row) (ts : List Summary)
    → n ≤ r.seq
    → All (λ u. n ≤ u.first_seq) ts
    → All (λ u. n ≤ u.first_seq) (note r ts)
unfolding note
All-note n r [] le h = (le, tt)
All-note n r (t ∷ ts) le (b, h) = elim (Bool-cases (t.token == r.token)) [
  | inl same ↦ rw same (b, h)
  | inr other ↦ rw other (b, All-note n r ts le h)
]

pub note-Ascending :
    (r : Row) (ts : List Summary) → Below r.seq ts → Ascending ts → Ascending (note r ts)
unfolding note
note-Ascending r [] b h = (tt, tt)
note-Ascending r (t ∷ ts) (bt, b) (le, h) = elim (Bool-cases (t.token == r.token)) [
  | inl same ↦ rw same (le, h)
  | inr other ↦ rw other (All-note t.first_seq r ts (omega arith) le, note-Ascending r ts b h)
]
