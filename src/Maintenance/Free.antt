-- ===== src/Maintenance/Free.antt =====
-- What a claim that has looked at the row of src/console/store.js knows of the runs, and the steps of
-- the requests that keep it.
use ichibi_lake.Base.{
  ℕ, ◌+◌, ◌≤◌, String, ◌≡◌, ◌≢◌, sym, ◌∙◌, Bool, true, false, Option, arith, nat_eq, if◌then◌else◌,
}
use ichibi_lake.Base.Text.{has_prefix}
use ichibi_lake.Maintenance.System.{
  Phase, arrived, refused, finished, stopped, reading, writing, claimed, running, set_phase,
  overtaken, overtake, stop_host, lease_ms,
}

-- While the WHERE clause of a claim that nobody has overtaken has matched, every run has outlived its
-- lease.
unfoldable pub IsFree : ℕ → (ℕ → Phase) → Type 0
IsFree now phases =
    (p q t u : ℕ) (due : Option ℕ)
    → phases p ≡ writing t due true false
    → phases q ≡ running u
    → u + lease_ms ≤ now

not_both :
    (ph : Phase) (t u : ℕ) (due : Option ℕ) (matched behind : Bool)
    → ph ≡ writing t due matched behind
    → ph ≢ running u
not_both ph t u due matched behind h g = let e = sym h ∙ g in ground (arith, e)

pub IsFree-set_phase :
    (now : ℕ) (phases : ℕ → Phase) (p : ℕ) (ph : Phase)
    → IsFree now phases
    → ((q t u : ℕ) (due : Option ℕ)
        → ph ≡ writing t due true false
        → phases q ≡ running u
        → u + lease_ms ≤ now)
    → ((q t u : ℕ) (due : Option ℕ)
        → phases q ≡ writing t due true false
        → ph ≡ running u
        → u + lease_ms ≤ now)
    → IsFree now (set_phase p ph phases)
unfolding IsFree
IsFree-set_phase now phases p ph free writes runs a b t u due =
    elim (nat_eq p a)
      as (λ x.
        (if x then ph else phases a) ≡ writing t due true false
        → (if nat_eq p b then ph else phases b) ≡ running u
        → u + lease_ms ≤ now) [
          | true ↦
              elim (nat_eq p b)
                as (λ y.
                  ph ≡ writing t due true false
                  → (if y then ph else phases b) ≡ running u
                  → u + lease_ms ≤ now) [
                    | true ↦ λ h g. absurd (not_both ph t u due true false h g)
                    | false ↦ λ h g. writes b t u due h g
                  ]
          | false ↦
              elim (nat_eq p b)
                as (λ y.
                  phases a ≡ writing t due true false
                  → (if y then ph else phases b) ≡ running u
                  → u + lease_ms ≤ now) [
                    | true ↦ λ h g. runs a t u due h g
                    | false ↦ λ h g. free a b t u due h g
                  ]
        ]

-- A phase that neither writes nor runs.
unfoldable pub IsIdle : Phase → Type 0
IsIdle ph = ((t : ℕ) (due : Option ℕ) → ph ≢ writing t due true false) × ((u : ℕ) → ph ≢ running u)

pub IsFree-idle :
    (now : ℕ) (phases : ℕ → Phase) (p : ℕ) (ph : Phase)
    → IsFree now phases
    → IsIdle ph
    → IsFree now (set_phase p ph phases)
unfolding IsIdle
IsFree-idle now phases p ph free (no_writer, no_run) =
    IsFree-set_phase now phases p ph free (λ q t u due h g. absurd (no_writer t due h))
      (λ q t u due h g. absurd (no_run u g))

pub overtaken_last : (ph : Phase) (t : ℕ) (due : Option ℕ) → overtaken ph ≢ writing t due true false
overtaken_last (writing a due' matched _) t due h = ground (arith, h)
overtaken_last arrived t due h = ground (arith, h)
overtaken_last refused t due h = ground (arith, h)
overtaken_last finished t due h = ground (arith, h)
overtaken_last stopped t due h = ground (arith, h)
overtaken_last (reading a b) t due h = ground (arith, h)
overtaken_last (claimed a) t due h = ground (arith, h)
overtaken_last (running a) t due h = ground (arith, h)

pub IsFree-overtake : (now : ℕ) (phases : ℕ → Phase) → IsFree now (overtake phases)
unfolding IsFree
IsFree-overtake now phases p q t u due h g = absurd (overtaken_last (phases p) t due h)

was_before :
    (stopping : Bool) (ph other : Phase)
    → stopped ≢ other
    → (if stopping then stopped else ph) ≡ other
    → ph ≡ other
was_before true ph other ne h = absurd (ne h)
was_before false ph other ne h = h

pub IsFree-stop_host :
    (now : ℕ) (token : ℕ → String) (prefix : String) (phases : ℕ → Phase)
    → IsFree now phases
    → IsFree now (stop_host token prefix phases)
unfolding IsFree
IsFree-stop_host now token prefix phases free p q t u due h g =
    free p q t u due
      (was_before (has_prefix prefix (token p)) (phases p) _ (λ e. ground (arith, e)) h)
      (was_before (has_prefix prefix (token q)) (phases q) _ (λ e. ground (arith, e)) g)

pub reading-IsIdle : (t : ℕ) (due : Option ℕ) → IsIdle (reading t due)
unfolding IsIdle
reading-IsIdle t due = ((λ t due h. ground (arith, h)), (λ u h. ground (arith, h)))

pub claimed-IsIdle : (t : ℕ) → IsIdle (claimed t)
unfolding IsIdle
claimed-IsIdle t = ((λ t due h. ground (arith, h)), (λ u h. ground (arith, h)))

pub refused-IsIdle : IsIdle refused
unfolding IsIdle
refused-IsIdle = ((λ t due h. ground (arith, h)), (λ u h. ground (arith, h)))

pub finished-IsIdle : IsIdle finished
unfolding IsIdle
finished-IsIdle = ((λ t due h. ground (arith, h)), (λ u h. ground (arith, h)))
