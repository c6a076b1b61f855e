-- ===== src/Rbac/Examples.antt =====
-- Runs of src/rbac.js at concrete inputs, and instances of the theorems about it.
mod Keys
use ichibi_lake.Base.{
  String, ◌≡◌, ◌≢◌, ◌↔◌, ◌⊎◌, inr, inl, refl, Bool, true, false, Option, none, some, List, [], ◌∷◌,
  ◌++◌, arith, eq_iff, length, includes, ◌==◌, if◌then◌else◌,
}
use ichibi_lake.Base.Exec.{ok, err}
use ichibi_lake.Base.Text.{join_comma}
use ichibi_lake.Base.Dict.{lookup, insert, erase}
use ichibi_lake.Rbac.Store.{
  User, State, Env, user_exists, user_not_found, invalid_role, invalid_permission, table_missing,
  insert_user, insert_role, insert_perm, update_users, update_perms, delete_roles, has_user,
  has_role, has_perm, user_rows, roles_of, perm_rows, safe_roles, safe_permissions, safe_role,
  safe_permission, invalidate_user_cache, clear_caches, init_rbac_tables,
}
use ichibi_lake.Rbac.Lookups.{
  fresh, cache_key, stored_user, stored_roles, stored_permission, find_user, get_user_roles,
  get_table_permission,
}
use ichibi_lake.Rbac.Access.{
  check_user, check_access, is_valid_api_key, is_superuser_key, valid_keys, is_rbac_configured,
  admitted, invalid_key, authenticate, superuser_row, settle, legacy_rule, valid_user, auth_result,
  legacy_auth,
}
use ichibi_lake.Rbac.Admin.{
  Updates, create_user, update_user, set_user_roles, set_table_permission, add_checked_roles,
  given_roles, write_updates, gives_any, apply_updates, check_roles, add_roles, require_user,
}
use ichibi_lake.Rbac.Bootstrap.{
  legacy_bootstrap, sync_legacy_api_keys, removed_keys, promote, promote_all, promote_new,
  ensure_role, deactivate_legacy, with_keys, assigned, is_legacy_user,
}
use ichibi_lake.Rbac.Sync.{IsLegacy, IsRevoked}
use ichibi_lake.Rbac.Keys.{NoColon}
use ichibi_lake.Rbac.Coherence.{IsCoherent, IsCoherent-empty, SameTables}
use ichibi_lake.Rbac.Policy.{IsPermitted, check_access_iff}
use ichibi_lake.Rbac.Revocation.{update_user_revokes}
use ichibi_lake.Rbac.Updates.{Updated, update_user_columns}
use ichibi_lake.Rbac.RoleUpdates.{set_user_roles_lem, set_user_roles_invalid}
use ichibi_lake.Rbac.Permissions.{set_table_permission_lem, set_table_permission_stale}
use ichibi_lake.Rbac.Creation.{created, create_user_lem, create_user_invalid}
use ichibi_lake.Rbac.LegacyKeys.{legacy_bootstrap_promotes}
use ichibi_lake.Rbac.Superusers.{superuser_by_tables, is_superuser_key-eq}
use ichibi_lake.Rbac.KeyRevocation.{
  keys_of, sync_legacy_api_keys_revokes, sync_legacy_api_keys_undefined,
}

-- Everything that a run of the component computes with.
runs : Unit {0}
unfolding insert_user insert_role insert_perm update_users update_perms delete_roles has_user
    has_role has_perm user_rows roles_of perm_rows safe_role safe_permission invalidate_user_cache
    clear_caches init_rbac_tables fresh cache_key stored_user stored_roles stored_permission
    find_user get_user_roles get_table_permission check_user check_access is_valid_api_key
    is_superuser_key superuser_row settle legacy_rule valid_user valid_keys authenticate auth_result
    create_user update_user set_user_roles set_table_permission add_checked_roles given_roles
    write_updates gives_any apply_updates check_roles add_roles require_user legacy_bootstrap
    sync_legacy_api_keys removed_keys promote promote_all promote_new ensure_role deactivate_legacy
    with_keys assigned is_legacy_user lookup insert erase legacy_auth
runs = tt

abbrev env : Env
env = record {
  rbac_superusers = none;
  rbac_users = none;
  rbac_table_permissions = none;
  api_keys = some "root, ops";
  api_key = none;
  cache_ttl = 60000;
}

abbrev start : State
start = record {
  env = env;
  now = 1000;
  ready = true;
  users = [];
  roles = [];
  perms = [];
  user_cache = [];
  role_cache = [];
  perm_cache = [];
}

-- The state after the legacy bootstrap, with its caches empty.
abbrev booted : State
booted = (legacy_bootstrap start).1

start-IsCoherent : IsCoherent start
start-IsCoherent = IsCoherent-empty start

boot_tests :
    ((check_access "root" "sales" "write" booted).0 ≡ ok true)
    × ((check_access "guest" "sales" "read" booted).0 ≡ ok false)
    × ((authenticate (some "ops") booted).0 ≡ ok (admitted "ops"))
    × ((authenticate (some "x") booted).0 ≡ ok invalid_key)
    × ((is_superuser_key "ops" start).0 ≡ ok true)
unfolding runs
boot_tests = (refl, refl, refl, refl, refl)

-- A reader of one table.
abbrev with_ann : State
with_ann = (create_user "ann" (some "Ann") none (some ("reader" ∷ [])) none start).1

ann_tests :
    ((check_access "ann" "sales" "read" with_ann).0 ≡ ok true)
    × ((check_access "ann" "sales" "write" with_ann).0 ≡ ok false)
    × (create_user "ann" none none none none with_ann ≡ (err (user_exists "ann"), with_ann))
    × ((set_user_roles "bob" [] none with_ann).0 ≡ err (user_not_found "bob"))
    × ((set_table_permission "ann" "sales" "own" none with_ann).0 ≡ err (invalid_permission "own"))
unfolding runs
ann_tests = (refl, refl, refl, refl, refl)

with_ann-IsCoherent : IsCoherent with_ann
unfolding runs
with_ann-IsCoherent = IsCoherent-empty with_ann

abbrev ann_row : User
ann_row = created "ann" (some "Ann") none none start

ann_stored : stored_user "ann" with_ann ≡ some ann_row
unfolding runs
ann_stored = refl

-- A text literal without a colon.
sales_plain : NoColon "sales"
sales_plain = ground arith

with_ann_ready : with_ann.ready ≡ true
unfolding runs
with_ann_ready = refl

check_access_iff_example :
    (b : Bool) × ((check_access "ann" "sales" "read" with_ann).0 ≡ ok b)
    × ((b ≡ true) ↔ IsPermitted "ann" "sales" "read" with_ann)
    × SameTables with_ann (check_access "ann" "sales" "read" with_ann).1
    × IsCoherent (check_access "ann" "sales" "read" with_ann).1
check_access_iff_example =
    check_access_iff "ann" "sales" "read" with_ann sales_plain with_ann-IsCoherent with_ann_ready

-- The table denies even the superuser `root`.
abbrev denied : State
denied = (set_table_permission "root" "sales" "deny" none booted).1

abbrev off : Updates
off = record { name = none; email = none; is_active = some false }

ann_known : stored_user "ann" with_ann ≢ none
ann_known e = cc (ann_stored, e)

update_user_revokes_example :
    ((update_user "ann" off with_ann).0 ≡ ok tt)
    × ((is_valid_api_key "ann" (update_user "ann" off with_ann).1).0 ≡ ok false)
    × ((t required : String)
        → NoColon t
        → (check_access "ann" t required (update_user "ann" off with_ann).1).0 ≡ ok false)
update_user_revokes_example =
    update_user_revokes "ann" off with_ann with_ann-IsCoherent with_ann_ready ann_known refl

abbrev renamed : Updates
renamed = record { name = some "Ann"; email = none; is_active = some false }

update_user_columns_example :
    ((update_user "ann" renamed with_ann).0 ≡ ok tt)
    × ((v : User) × (stored_user "ann" (update_user "ann" renamed with_ann).1 ≡ some v)
        × Updated renamed ann_row v)
    × ((j : String)
        → "ann" ≢ j
        → stored_user j (update_user "ann" renamed with_ann).1 ≡ stored_user j with_ann)
    × IsCoherent (update_user "ann" renamed with_ann).1
update_user_columns_example =
    update_user_columns "ann" renamed with_ann ann_row with_ann-IsCoherent with_ann_ready ann_stored

abbrev writers : List String
writers = "writer" ∷ "reader" ∷ []

set_user_roles_lem_example :
    ((set_user_roles "ann" writers none with_ann).0 ≡ ok tt)
    × (stored_roles "ann" (set_user_roles "ann" writers none with_ann).1 ≡ writers)
    × ((j : String)
        → "ann" ≢ j
        → stored_roles j (set_user_roles "ann" writers none with_ann).1 ≡ stored_roles j with_ann)
    × IsCoherent (set_user_roles "ann" writers none with_ann).1
unfolding safe_roles
set_user_roles_lem_example =
    set_user_roles_lem "ann" writers none with_ann with_ann-IsCoherent with_ann_ready ann_stored
      refl

abbrev bad_roles : List String
bad_roles = "writer" ∷ "owner" ∷ []

set_user_roles_invalid_example :
    (q : String) × ((set_user_roles "ann" bad_roles none with_ann).0 ≡ err (invalid_role q))
    × SameTables with_ann (set_user_roles "ann" bad_roles none with_ann).1
unfolding safe_roles
set_user_roles_invalid_example =
    set_user_roles_invalid "ann" bad_roles none with_ann with_ann-IsCoherent with_ann_ready
      ann_stored refl

-- `ann` has asked for the table once, so that no permission is cached for her as fresh.
abbrev asked : State
asked = (get_table_permission "ann" "sales" with_ann).1

asked_cached : fresh asked.now (lookup (cache_key "ann" "sales") asked.perm_cache) ≡ some none
unfolding runs
asked_cached = refl

asked_ready : asked.ready ≡ true
unfolding runs
asked_ready = refl

set_table_permission_stale_example :
    (stored_permission "ann" "sales" (set_table_permission "ann" "sales" "deny" none asked).1
      ≡ some "deny")
    × ((get_table_permission "ann" "sales"
          (set_table_permission "ann" "sales" "deny" none asked).1).0
        ≡ ok none)
unfolding safe_permissions
set_table_permission_stale_example =
    set_table_permission_stale "ann" "sales" "deny" none asked asked_ready refl asked_cached

create_user_lem_example :
    ((create_user "ann" (some "Ann") none (some writers) none start).0 ≡ ok tt)
    × (stored_user "ann" (create_user "ann" (some "Ann") none (some writers) none start).1
        ≡ some ann_row)
    × (stored_roles "ann" (create_user "ann" (some "Ann") none (some writers) none start).1
        ≡ stored_roles "ann" start ++ given_roles (some writers))
    × IsCoherent (create_user "ann" (some "Ann") none (some writers) none start).1
unfolding has_user given_roles safe_roles
create_user_lem_example =
    create_user_lem "ann" (some "Ann") none none start refl (some writers) start-IsCoherent refl
      refl

create_user_invalid_example :
    (q : String) × ((create_user "ann" (some "Ann") none (some bad_roles) none start).0
      ≡ err (invalid_role q))
    × (stored_user "ann" (create_user "ann" (some "Ann") none (some bad_roles) none start).1
        ≡ some ann_row)
unfolding has_user given_roles safe_roles
create_user_invalid_example =
    create_user_invalid "ann" (some "Ann") none none start refl (some bad_roles) refl refl
