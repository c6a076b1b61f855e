-- ===== src/AdminApi/Gate.antt =====
-- Who gets past requireSuperuser of src/rbac-api.js.
use ichibi_lake.Base.{
  String, ◌≡◌, ◌≢◌, refl, sym, ap, ◌∙◌, true, false, Option, some, List, [], ◌∷◌, ◌==◌, eq_iff,
  arith, includes, if◌then◌else◌, Bool-cases, inl, inr,
}
use mathlib.Core.Option.{some-injective}
use ichibi_lake.Base.Exec.{ok, bind_ok, pure}
use ichibi_lake.Rbac.Store.{User, State}
use ichibi_lake.Rbac.Keys.{NoColon}
use ichibi_lake.Rbac.Lookups.{find_user, get_user_roles, stored_user, stored_roles}
use ichibi_lake.Rbac.Access.{
  active, valid_user, is_valid_api_key, check_access, valid_keys, legacy_auth, auth_result,
  authenticate, admitted,
}
use ichibi_lake.Rbac.Coherence.{IsCoherent, SameTables}
use ichibi_lake.Rbac.Reads.{
  find_user-eq, find_user-SameTables, get_user_roles-eq, get_user_roles-SameTables,
  get_user_roles-IsCoherent,
}
use ichibi_lake.Rbac.Policy.{Holds, check_access_iff}
use ichibi_lake.AdminApi.Routes.{
  error, Request, get_users, post_user, get_user, patch_user, delete_user, put_roles,
  put_permission, get_permissions, get_check, is_open, handle, admin_request,
}

-- A guarded request is decided by the stored roles alone.
admin_request-eq :
    (by : String) (request : Request) (s : State)
    → is_open request ≡ false
    → IsCoherent s
    → s.ready ≡ true
    → admin_request by request s ≡ (
        if includes "superuser" (stored_roles by s)
        then handle by request (get_user_roles by s).1
        else (error 403, (get_user_roles by s).1))
unfolding admin_request
admin_request-eq by request s guarded c r =
    rw (guarded, admin_request, get_user_roles-eq by s c.roles r) refl

-- Every route but GET /admin/check is guarded.
guarded_route :
    (request : Request)
    → ((t access : Option String) → request ≢ get_check t access)
    → is_open request ≡ false
guarded_route get_users other = refl
guarded_route (post_user _ _ _ _ _) other = refl
guarded_route (get_user _) other = refl
guarded_route (patch_user _ _) other = refl
guarded_route (delete_user _) other = refl
guarded_route (put_roles _ _) other = refl
guarded_route (put_permission _ _ _ _) other = refl
guarded_route (get_permissions _) other = refl
guarded_route (get_check t access) other = absurd (other t access refl)

-- Where the tables are there and the caches coherent, a request to any route but GET /admin/check
-- from a key without a stored superuser role is answered 403, and changes no table; the caches stay
-- coherent.
pub admin_request_refused :
    (by : String) (request : Request) (s : State)
    → ((t access : Option String) → request ≢ get_check t access)
    → IsCoherent s
    → s.ready ≡ true
    → includes "superuser" (stored_roles by s) ≡ false
    → ((admin_request by request s).0 ≡ error 403)
      × SameTables s (admin_request by request s).1
      × IsCoherent (admin_request by request s).1
admin_request_refused by request s other c r no_role =
    rw (admin_request-eq by request s (guarded_route request other) c r, no_role)
      (refl, get_user_roles-SameTables by s, get_user_roles-IsCoherent by s c r)

true_not_false : ◌≢◌ {A = Option String} (some "false") (some "true")
true_not_false h = ground (arith, (eq_iff "false" "true").1 (some-injective _ _ h))

refused_access :
    (by : String) (u : User) (s : State)
    → IsCoherent s
    → s.ready ≡ true
    → stored_user by s ≡ some u
    → u.is_active ≡ some "false"
    → (t required : String) → NoColon t
    → (check_access by t required s).0 ≡ ok false
refused_access by u s c r stored off t required plain =
    let (b, e, iff, _, _) = check_access_iff by t required s plain c r in
    elim (Bool-cases b) [
      | inl granted ↦
          let p = iff.0 granted in
          let same : u ≡ p.user = some-injective _ _ (sym stored ∙ p.stored) in
          absurd (true_not_false (sym off ∙ ap (λ x. x.is_active) same ∙ p.active))
      | inr refused ↦ e ∙ ap ok refused
    ]

valid_user-off : (u : User) → u.is_active ≡ some "false" → valid_user (some u) ≡ false
unfolding valid_user active
valid_user-off u off = rw off refl

is_valid_api_key-off :
    (by : String) (u : User) (s : State)
    → IsCoherent s
    → s.ready ≡ true
    → stored_user by s ≡ some u
    → u.is_active ≡ some "false"
    → is_valid_api_key by s ≡ (ok false, (find_user by s).1)
unfolding is_valid_api_key
is_valid_api_key-off by u s c r stored off =
    bind_ok (find_user by) (λ user. pure (valid_user user)) s (find_user-eq by s c.users r)
    ∙ ap (λ x. (ok x, (find_user by s).1)) (ap valid_user stored ∙ valid_user-off u off)

legacy_auth-listed :
    (by : String) (keys : List String) → Holds by keys → legacy_auth by keys ≡ admitted by
unfolding legacy_auth
legacy_auth-listed by [] h = absurd (ground (arith, h))
legacy_auth-listed by (k ∷ ks) h = rw (h, legacy_auth) refl

legacy_admitted :
    (by : String) (u : User) (s : State)
    → IsCoherent s
    → s.ready ≡ true
    → by ≢ ""
    → stored_user by s ≡ some u
    → u.is_active ≡ some "false"
    → Holds by (valid_keys s.env)
    → (authenticate (some by) s).0 ≡ ok (admitted by)
unfolding authenticate auth_result
legacy_admitted by u s c r given stored off listed =
    let env = (find_user-SameTables by s).env in
    let not_empty : (by == "") ≡ false = ground (arith, eq_iff by "", given) in
    rw (not_empty, authenticate, is_valid_api_key-off by u s c r stored off)
      (ap (λ e. ok (legacy_auth by (valid_keys e))) env
        ∙ ap ok (legacy_auth-listed by (valid_keys s.env) listed))

-- A deactivated user who holds the superuser role and whose key is still listed in API_KEYS is
-- refused every table by checkAccess, but is admitted by the middleware, and requireSuperuser lets
-- every request of his through to its handler.
pub deactivated_superuser_admitted :
    (by : String) (u : User) (s : State)
    → IsCoherent s
    → s.ready ≡ true
    → by ≢ ""
    → stored_user by s ≡ some u
    → u.is_active ≡ some "false"
    → Holds "superuser" (stored_roles by s)
    → Holds by (valid_keys s.env)
    → ((t required : String) → NoColon t → (check_access by t required s).0 ≡ ok false)
      × ((authenticate (some by) s).0 ≡ ok (admitted by))
      × ((request : Request)
          → is_open request ≡ false
          → admin_request by request s ≡ handle by request (get_user_roles by s).1)
deactivated_superuser_admitted by u s c r given stored off role listed = (
  (λ t required plain. refused_access by u s c r stored off t required plain),
  legacy_admitted by u s c r given stored off listed,
  (λ request guarded. rw (admin_request-eq by request s guarded c r, role) refl),
)
