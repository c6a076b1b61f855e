-- ===== src/Rbac/LegacyKeys.antt =====
-- The loop of legacyBootstrap of src/rbac.js over its keys, and what the keys may do after it.
use ichibi_lake.Base.{
  String, ◌≡◌, refl, ap, ◌∙◌, true, false, some, List, [], ◌∷◌, arith, ◌==◌, eq_iff, includes,
  filter, inl, inr, Bool-cases,
}
use mathlib.Core.Path.{subst}
use ichibi_lake.Base.Exec.{Result, ok, bind_ok}
use ichibi_lake.Rbac.Store.{State, Failure, clear_caches, init_rbac_tables, user_rows}
use ichibi_lake.Rbac.Lookups.{stored_user, stored_roles}
use ichibi_lake.Rbac.Access.{
  active, valid_keys, listed_keys, valid_user, is_superuser_key, is_valid_api_key,
}
use ichibi_lake.Rbac.Superusers.{is_superuser_key-eq}
use ichibi_lake.Rbac.Revocation.{is_valid_api_key-eq}
use ichibi_lake.Rbac.Coherence.{IsCoherent-empty}
use ichibi_lake.Rbac.Policy.{active_iff}
use ichibi_lake.Rbac.Bootstrap.{promote, for_each, promote_all, legacy_bootstrap, not_empty}
use ichibi_lake.Rbac.Promotion.{
  promoted, promote-eq, IsSuperuser, promoted-IsSuperuser, promoted-keeps, promoted-rows_ne,
}

-- What the loop over `ks` makes of `s`.
pub record Promotes (ks : List String) (s : State) (out : Result Failure (Unit {0}) × State)
    : Type 0 where
  pub done : out.0 ≡ ok tt
  pub ready : out.1.ready ≡ true
  pub env : out.1.env ≡ s.env
  pub listed : (k : String) → includes k ks ≡ true → IsSuperuser k out.1
  pub kept : (k : String) → IsSuperuser k s → IsSuperuser k out.1
  pub others : (k : String) → includes k ks ≡ false → user_rows k out.1.users ≡ user_rows k s.users

pub promote-Promotes :
    (ks : List String) (s : State) → s.ready ≡ true → Promotes ks s (for_each promote ks s)
promote-Promotes [] s r = record {
  done = refl;
  ready = r;
  env = refl;
  listed = λ k h. cc;
  kept = λ k h. h;
  others = λ k h. refl;
}
promote-Promotes (j ∷ ks) s r =
    let h = promote-Promotes ks (promoted j s) r in
    rw (promote-eq j s r) (record {
      done = h.done;
      ready = h.ready;
      env = h.env;
      listed = λ k m. elim (Bool-cases (j == k)) [
        | inl same ↦ h.kept k (
            subst (λ x. IsSuperuser x (promoted j s)) ((eq_iff j k).0 same)
              (promoted-IsSuperuser j s))
        | inr other ↦ h.listed k (ground arith)
      ];
      kept = λ k old. h.kept k (promoted-keeps j k s old);
      others =
          λ k m. h.others k (ground arith) ∙ promoted-rows_ne j s k (ground (arith, eq_iff j k));
    })

includes-not_empty :
    (k : String) (xs : List String) → includes k (filter not_empty xs) ≡ true → (k == "") ≡ false
includes-not_empty k [] h = cc
includes-not_empty k (x ∷ xs) h =
    ground (arith, includes-not_empty k xs, eq_iff x k, eq_iff x "", eq_iff k "")

-- legacyBootstrap over a key list that is not empty.
promote_all_lem :
    (ks : List String) (s : State) (k : String)
    → includes k ks ≡ true
    → (k == "") ≡ false
    → ((promote_all ks s).0 ≡ ok tt)
      × ((is_superuser_key k (promote_all ks s).1).0 ≡ ok true)
      × ((is_valid_api_key k (promote_all ks s).1).0 ≡ ok true)
unfolding promote_all init_rbac_tables clear_caches
promote_all_lem [] s k listed given = cc
promote_all_lem (j ∷ ks) s k listed given =
    let s0 : State = record s { ready = true } in
    let h = promote-Promotes (j ∷ ks) s0 refl in
    let s1 = (for_each promote (j ∷ ks) s0).1 in
    let s2 : State = record s1 { user_cache = []; role_cache = []; perm_cache = [] } in
    let c = IsCoherent-empty s1 in
    let su = h.listed k listed in
    let live : active su.user ≡ true = (active_iff su.user).1 su.active in
    let stored : stored_user k s2 ≡ some su.user = unfold stored_user in su.stored in
    let role : includes "superuser" (stored_roles k s2) ≡ true = unfold stored_roles in su.role in
    rw (bind_ok (for_each promote (j ∷ ks)) (λ _. clear_caches) s0 h.done) (
      refl,
      is_superuser_key-eq k s2 c h.ready ∙ rw (given, stored, live, role),
      is_valid_api_key-eq k s2 c.users h.ready ∙ rw (stored) (ap ok (unfold valid_user in live)),
    )

-- After legacyBootstrap every key of API_KEYS (or, without it, API_KEY), split on commas and
-- trimmed, is valid and a superuser's, whatever the tables and caches held before, rows that were
-- deactivated included.
pub legacy_bootstrap_promotes :
    (s : State) (k : String)
    → includes k (valid_keys s.env) ≡ true
    → ((legacy_bootstrap s).0 ≡ ok tt)
      × ((is_superuser_key k (legacy_bootstrap s).1).0 ≡ ok true)
      × ((is_valid_api_key k (legacy_bootstrap s).1).0 ≡ ok true)
unfolding legacy_bootstrap
legacy_bootstrap_promotes s k listed =
    promote_all_lem (valid_keys s.env) s k listed
      (unfold valid_keys in includes-not_empty k (listed_keys s.env) listed)
