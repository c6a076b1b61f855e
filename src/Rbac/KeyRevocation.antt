-- ===== src/Rbac/KeyRevocation.antt =====
-- syncLegacyApiKeys of src/rbac.js as a whole: a key taken off the API_KEYS list is revoked, and
-- what the assignment in its `finally` block leaves in the environment.
use ichibi_lake.Base.{
  String, ◌≡◌, refl, ap, sym, ◌∙◌, true, false, none, some, List, [], ◌∷◌, arith, eq_iff, length,
  includes, inl, inr, Bool-cases, head?, All, if◌then◌else◌, ◌||◌,
}
use mathlib.Core.Path.{subst}
use ichibi_lake.Base.Text.{join_comma, is_given}
use ichibi_lake.Base.Exec.{Result, ok, pure, ◌>>◌, bind_ok}
use ichibi_lake.Rbac.Store.{State, User, Env, Failure, clear_caches, init_rbac_tables, user_rows}
use ichibi_lake.Rbac.Lookups.{stored_user}
use ichibi_lake.Rbac.Access.{
  active, valid_user, valid_keys, is_rbac_configured, is_valid_api_key, is_superuser_key,
  listed_keys,
}
use ichibi_lake.Rbac.Coherence.{IsCoherent-empty}
use ichibi_lake.Rbac.Revocation.{is_valid_api_key-eq}
use ichibi_lake.Rbac.Bootstrap.{
  for_each, promote, promote_all, legacy_bootstrap, with_keys, deactivate_legacy, assigned,
  promote_new, removed_keys, sync_legacy_api_keys,
}
use ichibi_lake.Rbac.Superusers.{is_superuser_key-eq}
use ichibi_lake.Rbac.LegacyKeys.{promote-Promotes}
use ichibi_lake.Rbac.Sync.{IsLegacy, IsRevoked, deactivate_legacy-Deactivates}

-- The list that the next bootstrap reads when `next` is written to API_KEYS.
abbrev pub keys_of : List String → State → List String
keys_of next s = valid_keys (record s.env { api_keys = some (join_comma next) })

includes-removed_keys :
    (k : String) (next old : List String)
    → includes k old ≡ true
    → includes k next ≡ false
    → includes k (removed_keys next old) ≡ true
unfolding removed_keys
includes-removed_keys k next [] h gone = h
includes-removed_keys k next (x ∷ old) h gone =
    ground (arith, includes-removed_keys k next old, eq_iff x k)

-- legacyBootstrap on any key list: it succeeds, and leaves the rows of the other keys.
record Leaves (ks : List String) (s : State) (out : Result Failure (Unit {0}) × State)
    : Type 0 where
  done : out.0 ≡ ok tt
  ready : out.1.ready ≡ true
  others : (k : String) → includes k ks ≡ false → user_rows k out.1.users ≡ user_rows k s.users

promote_all-Leaves :
    (ks : List String) (s : State) → s.ready ≡ true → Leaves ks s (promote_all ks s)
unfolding promote_all init_rbac_tables clear_caches
promote_all-Leaves [] s r = record { done = refl; ready = r; others = λ k h. refl }
promote_all-Leaves (j ∷ ks) s r =
    let s0 : State = record s { ready = true } in
    let h = promote-Promotes (j ∷ ks) s0 refl in
    rw (bind_ok (for_each promote (j ∷ ks)) (λ _. clear_caches) s0 h.done)
      (record { done = refl; ready = h.ready; others = h.others })

promote_new-Leaves :
    (next : List String) (s : State)
    → s.ready ≡ true
    → Leaves (keys_of next s) s (promote_new next s)
unfolding promote_new with_keys legacy_bootstrap
promote_new-Leaves [] s r = record { done = refl; ready = r; others = λ k h. refl }
promote_new-Leaves (n ∷ next) s r = elim (Bool-cases (is_rbac_configured s.env)) [
  | inl configured ↦ rw configured (record { done = refl; ready = r; others = λ k h. refl })
  | inr legacy ↦
      let h =
        promote_all-Leaves (keys_of (n ∷ next) s) (with_keys (some (join_comma (n ∷ next))) s) r in
      rw legacy (record { done = h.done; ready = h.ready; others = h.others })
]

revoked_row :
    (rows : List User)
    → All (λ u. u.is_active ≡ some "false") rows
    → valid_user (head? rows) ≡ false
unfolding valid_user active
revoked_row [] h = refl
revoked_row (u ∷ rows) (off, h) = rw off

-- A key that is on the old list and not on the new one, nor among the keys that the new list gives
-- once it is joined, split and trimmed, and whose rows all come from the legacy bootstrap: after
-- syncLegacyApiKeys every row of the key is inactive and the key is not valid by the user table. The call
-- succeeds and returns the number of keys removed.
pub sync_legacy_api_keys_revokes :
    (next old : List String) (s : State) (k : String)
    → includes k old ≡ true
    → includes k next ≡ false
    → includes k (keys_of next s) ≡ false
    → IsLegacy k s.users
    → ((sync_legacy_api_keys next old s).0 ≡ ok (length (removed_keys next old)))
      × IsRevoked k (sync_legacy_api_keys next old s).1.users
      × ((is_valid_api_key k (sync_legacy_api_keys next old s).1).0 ≡ ok false)
unfolding sync_legacy_api_keys init_rbac_tables clear_caches
sync_legacy_api_keys_revokes next old s k listed gone absent legacy =
    let removed = removed_keys next old in
    let s0 : State = record s { ready = true } in
    let s1 = (for_each deactivate_legacy removed s0).1 in
    let d = deactivate_legacy-Deactivates removed s0 refl in
    let s2 = (promote_new next s1).1 in
    let l = promote_new-Leaves next s1 d.ready in
    let off = d.revoked k (includes-removed_keys k next old listed gone) legacy in
    let absent1 : includes k (keys_of next s1) ≡ false =
      ap (λ (e : Env). includes k (valid_keys (record e { api_keys = some (join_comma next) })))
        d.env
      ∙ absent in
    let off2 : IsRevoked k s2.users =
      subst (λ rows. All (λ (u : User). u.is_active ≡ some "false") rows) (sym (l.others k absent1))
        off in
    rw
      (
        bind_ok (for_each deactivate_legacy removed)
            (λ _. promote_new next >> (clear_caches >> pure (length removed))) s0 d.done,
        bind_ok (promote_new next) (λ _. clear_caches >> pure (length removed)) s1 l.done,
      )
      (
        refl,
        off2,
        is_valid_api_key-eq k _ (IsCoherent-empty s2).users l.ready
            ∙ ap ok (unfold stored_user in revoked_row (user_rows k s2.users) off2),
      )

promote_all-env : (ks : List String) (s : State) → (promote_all ks s).1.env ≡ s.env
unfolding promote_all init_rbac_tables clear_caches
promote_all-env [] s = refl
promote_all-env (j ∷ ks) s =
    let s0 : State = record s { ready = true } in
    let h = promote-Promotes (j ∷ ks) s0 refl in
    rw (bind_ok (for_each promote (j ∷ ks)) (λ _. clear_caches) s0 h.done) h.env

-- What promoteNew leaves in the environment where API_KEYS was unset.
restored_env :
    (n : String) (next : List String) (s : State)
    → s.env.api_keys ≡ none
    → is_rbac_configured s.env ≡ false
    → ((promote_new (n ∷ next) s).1.env.api_keys ≡ some "undefined")
      × (is_rbac_configured (promote_new (n ∷ next) s).1.env ≡ false)
unfolding promote_new with_keys assigned legacy_bootstrap is_rbac_configured
restored_env n next s unset legacy =
    let s' : State = with_keys (some (join_comma (n ∷ next))) s in
    let e : (promote_all (keys_of (n ∷ next) s) s').1.env ≡ s'.env =
      promote_all-env (keys_of (n ∷ next) s) s' in
    simp (legacy, unset) (refl, ap is_rbac_configured e ∙ legacy)

undefined_keys : (env : Env) → env.api_keys ≡ some "undefined" → valid_keys env ≡ "undefined" ∷ []
unfolding valid_keys
undefined_keys env h = rw h

undefined_rule :
    (env : Env)
    → env.api_keys ≡ some "undefined"
    → is_rbac_configured env ≡ false
    → (if is_given env.rbac_superusers || is_given env.rbac_users
        then false
        else includes "undefined" (listed_keys env))
      ≡ true
unfolding is_rbac_configured listed_keys
undefined_rule env h legacy = rw (legacy, h)

-- Where API_KEYS is unset and RBAC is not configured, adding any key leaves API_KEYS as the text
-- "undefined", which is then the one key of the list: it is a superuser's key as long as no user
-- of that name is stored.
pub sync_legacy_api_keys_undefined :
    (n : String) (next old : List String) (s : State)
    → s.env.api_keys ≡ none
    → is_rbac_configured s.env ≡ false
    → ((sync_legacy_api_keys (n ∷ next) old s).1.env.api_keys ≡ some "undefined")
      × (valid_keys (sync_legacy_api_keys (n ∷ next) old s).1.env ≡ "undefined" ∷ [])
      × (stored_user "undefined" (sync_legacy_api_keys (n ∷ next) old s).1 ≡ none
          → (is_superuser_key "undefined" (sync_legacy_api_keys (n ∷ next) old s).1).0 ≡ ok true)
unfolding sync_legacy_api_keys init_rbac_tables clear_caches
sync_legacy_api_keys_undefined n next old s unset legacy =
    let removed = removed_keys (n ∷ next) old in
    let s0 : State = record s { ready = true } in
    let s1 = (for_each deactivate_legacy removed s0).1 in
    let d = deactivate_legacy-Deactivates removed s0 refl in
    let s2 = (promote_new (n ∷ next) s1).1 in
    let l = promote_new-Leaves (n ∷ next) s1 d.ready in
    let env2 =
      restored_env n next s1 (ap (λ (e : Env). e.api_keys) d.env ∙ unset)
        (ap is_rbac_configured d.env ∙ legacy) in
    rw
      (
        bind_ok (for_each deactivate_legacy removed)
            (λ _. promote_new (n ∷ next) >> (clear_caches >> pure (length removed))) s0 d.done,
        bind_ok (promote_new (n ∷ next)) (λ _. clear_caches >> pure (length removed)) s1 l.done,
      )
      (
        env2.0,
        undefined_keys s2.env env2.0,
        λ missing.
            is_superuser_key-eq "undefined" _ (IsCoherent-empty s2) l.ready
            ∙ rw missing (ap ok (undefined_rule s2.env env2.0 env2.1)),
      )
