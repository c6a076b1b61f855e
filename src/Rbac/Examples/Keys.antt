-- ===== src/Rbac/Examples/Keys.antt =====
-- Instances of the theorems about the startup code of src/rbac.js and the API_KEYS list.
use ichibi_lake.Base.{
  String, ◌≡◌, refl, true, false, none, some, List, [], ◌∷◌, length, includes, ◌==◌, if◌then◌else◌,
}
use ichibi_lake.Base.Exec.{ok}
use ichibi_lake.Base.Text.{join_comma}
use ichibi_lake.Rbac.Store.{State}
use ichibi_lake.Rbac.Lookups.{stored_user}
use ichibi_lake.Rbac.Access.{valid_keys, is_rbac_configured, is_valid_api_key, is_superuser_key}
use ichibi_lake.Rbac.Bootstrap.{legacy_bootstrap, sync_legacy_api_keys, removed_keys}
use ichibi_lake.Rbac.LegacyKeys.{legacy_bootstrap_promotes}
use ichibi_lake.Rbac.Superusers.{superuser_by_tables, is_superuser_key-eq}
use ichibi_lake.Rbac.Sync.{IsLegacy, IsRevoked}
use ichibi_lake.Rbac.KeyRevocation.{
  keys_of, sync_legacy_api_keys_revokes, sync_legacy_api_keys_undefined,
}
use ichibi_lake.Rbac.Examples.{runs, env, start, booted, start-IsCoherent}

ops_listed : includes "ops" (valid_keys start.env) ≡ true
unfolding runs
ops_listed = refl

legacy_bootstrap_promotes_example :
    ((legacy_bootstrap start).0 ≡ ok tt)
    × ((is_superuser_key "ops" (legacy_bootstrap start).1).0 ≡ ok true)
    × ((is_valid_api_key "ops" (legacy_bootstrap start).1).0 ≡ ok true)
legacy_bootstrap_promotes_example = legacy_bootstrap_promotes start "ops" ops_listed

is_superuser_key-eq_example :
    (is_superuser_key "ops" start).0
    ≡ ok (if "ops" == "" then false else superuser_by_tables "ops" start (stored_user "ops" start))
is_superuser_key-eq_example = is_superuser_key-eq "ops" start start-IsCoherent refl

abbrev before : List String
before = "root" ∷ "ops" ∷ []

ops_gone : includes "ops" (keys_of ("root" ∷ []) booted) ≡ false
unfolding runs join_comma
ops_gone = refl

ops-IsLegacy : IsLegacy "ops" booted.users
unfolding runs
ops-IsLegacy = (refl, tt)

sync_legacy_api_keys_revokes_example :
    ((sync_legacy_api_keys ("root" ∷ []) before booted).0
      ≡ ok (length (removed_keys ("root" ∷ []) before)))
    × IsRevoked "ops" (sync_legacy_api_keys ("root" ∷ []) before booted).1.users
    × ((is_valid_api_key "ops" (sync_legacy_api_keys ("root" ∷ []) before booted).1).0 ≡ ok false)
sync_legacy_api_keys_revokes_example =
    sync_legacy_api_keys_revokes ("root" ∷ []) before booted "ops" refl refl ops_gone ops-IsLegacy

-- Only API_KEY is set.
abbrev single : State
single = record start { env = record env { api_keys = none; api_key = some "root" } }

single_legacy : is_rbac_configured single.env ≡ false
unfolding is_rbac_configured
single_legacy = refl

sync_legacy_api_keys_undefined_example :
    ((sync_legacy_api_keys ("root" ∷ []) [] single).1.env.api_keys ≡ some "undefined")
    × (valid_keys (sync_legacy_api_keys ("root" ∷ []) [] single).1.env ≡ "undefined" ∷ [])
    × (stored_user "undefined" (sync_legacy_api_keys ("root" ∷ []) [] single).1 ≡ none
        → (is_superuser_key "undefined" (sync_legacy_api_keys ("root" ∷ []) [] single).1).0
          ≡ ok true)
sync_legacy_api_keys_undefined_example =
    sync_legacy_api_keys_undefined "root" [] [] single refl single_legacy
