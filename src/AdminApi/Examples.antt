-- ===== src/AdminApi/Examples.antt =====
-- Runs of src/rbac-api.js at concrete inputs, and instances of the theorems about it.
use ichibi_lake.Base.{
  String, ◌≡◌, ◌≢◌, refl, true, false, none, some, [], ◌∷◌, arith, eq_iff, includes,
}
use ichibi_lake.Base.Exec.{ok}
use ichibi_lake.Base.Text.{split, trim}
use ichibi_lake.Base.Dict.{lookup, insert, erase}
use ichibi_lake.Rbac.Store.{
  User, State, insert_user, insert_role, insert_perm, update_users, update_perms, delete_roles,
  has_user, has_perm, user_rows, roles_of, perm_rows, safe_role, safe_roles, safe_permission,
  safe_permissions, invalidate_user_cache,
}
use ichibi_lake.Rbac.Lookups.{
  fresh, cache_key, stored_user, stored_roles, stored_permission, find_user, get_user_roles,
  get_table_permission,
}
use ichibi_lake.Rbac.Access.{
  check_access, check_user, authenticate, admitted, valid_keys, listed_keys,
}
use ichibi_lake.Rbac.Admin.{
  create_user, update_user, set_user_roles, set_table_permission, add_checked_roles, given_roles,
  write_updates, gives_any, apply_updates, check_roles, add_roles, require_user,
}
use ichibi_lake.Rbac.Keys.{NoColon}
use ichibi_lake.Rbac.Coherence.{IsCoherent, IsCoherent-empty, SameTables}
use ichibi_lake.Rbac.Policy.{Holds}
use ichibi_lake.AdminApi.Lists.{list_users, list_table_permissions, list_user_permissions}
use ichibi_lake.AdminApi.Routes.{
  done, access_answer, error, Request, get_users, post_user, delete_user, put_roles, put_permission,
  get_check, is_open, with_roles, user_details, handle, admin_request,
}
use ichibi_lake.AdminApi.Gate.{admin_request_refused, deactivated_superuser_admitted}

abbrev row : String → String → User
row k active = record {
  api_key = k;
  name = none;
  email = none;
  is_active = some active;
  created_at = 0;
  created_by = none;
}

-- `ann` is a deactivated superuser whose key is still listed; `bob` is a reader.
abbrev start : State
start = record {
  env = record {
    rbac_superusers = none;
    rbac_users = none;
    rbac_table_permissions = none;
    api_keys = some "ann";
    api_key = none;
    cache_ttl = 60000;
  };
  now = 1000;
  ready = true;
  users = row "ann" "false" ∷ row "bob" "true" ∷ [];
  roles =
      record { api_key = "ann"; role = "superuser"; granted_at = 0; granted_by = "admin" }
      ∷ record { api_key = "bob"; role = "reader"; granted_at = 0; granted_by = "admin" }
      ∷ [];
  perms = [];
  user_cache = [];
  role_cache = [];
  perm_cache = [];
}

-- Everything that a run of the component computes with.
runs : Unit {0}
unfolding insert_user insert_role insert_perm update_users update_perms delete_roles has_user
    has_perm user_rows roles_of perm_rows safe_role safe_roles safe_permission safe_permissions
    invalidate_user_cache fresh cache_key stored_user stored_roles stored_permission find_user
    get_user_roles get_table_permission check_user check_access create_user update_user
    set_user_roles set_table_permission add_checked_roles given_roles write_updates gives_any
    apply_updates check_roles add_roles require_user lookup insert erase list_users
    list_table_permissions list_user_permissions with_roles user_details handle admin_request
    valid_keys listed_keys split trim
runs = tt

admin_tests :
    ((admin_request "bob" get_users start).0 ≡ error 403)
    × ((admin_request "ann" (delete_user "bob") start).0 ≡ done)
    × ((admin_request "ann" (delete_user "eve") start).0 ≡ error 404)
    × ((admin_request "ann" (put_roles "bob" (some ("owner" ∷ []))) start).0 ≡ error 400)
    × ((admin_request "ann" (post_user (some "bob") none (some "Bob") none none) start).0
        ≡ error 409)
    × ((admin_request "ann" (post_user none none (some "Bob") none none) start).0 ≡ error 400)
    × ((admin_request "ann" (put_permission none (some "bob") "sales" (some "deny")) start).0
        ≡ done)
    × ((admin_request "bob" (get_check (some "sales") none) start).0 ≡ access_answer true)
    × ((admin_request "bob" get_users (record start { ready = false })).0 ≡ error 500)
unfolding runs
admin_tests = (refl, refl, refl, refl, refl, refl, refl, refl, refl)

start-IsCoherent : IsCoherent start
start-IsCoherent = IsCoherent-empty start

bob_no_superuser : includes "superuser" (stored_roles "bob" start) ≡ false
unfolding runs
bob_no_superuser = refl

admin_request_refused_example :
    ((admin_request "bob" (delete_user "ann") start).0 ≡ error 403)
    × SameTables start (admin_request "bob" (delete_user "ann") start).1
    × IsCoherent (admin_request "bob" (delete_user "ann") start).1
admin_request_refused_example =
    admin_request_refused "bob" (delete_user "ann") start (λ t access e. ground (arith, e))
      start-IsCoherent refl bob_no_superuser

ann_stored : stored_user "ann" start ≡ some (row "ann" "false")
unfolding runs
ann_stored = refl

ann_superuser : Holds "superuser" (stored_roles "ann" start)
unfolding runs
ann_superuser = refl

ann_listed : Holds "ann" (valid_keys start.env)
unfolding runs
ann_listed = refl

ann_given : ◌≢◌ {A = String} "ann" ""
ann_given h = ground (arith, (eq_iff "ann" "").1 h)

deactivated_superuser_admitted_example :
    ((t required : String) → NoColon t → (check_access "ann" t required start).0 ≡ ok false)
    × ((authenticate (some "ann") start).0 ≡ ok (admitted "ann"))
    × ((request : Request)
        → is_open request ≡ false
        → admin_request "ann" request start ≡ handle "ann" request (get_user_roles "ann" start).1)
deactivated_superuser_admitted_example =
    deactivated_superuser_admitted "ann" (row "ann" "false") start start-IsCoherent refl ann_given
      ann_stored refl ann_superuser ann_listed
