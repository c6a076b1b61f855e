-- ===== src/AdminApi/Routes.antt =====
-- src/rbac-api.js: requireSuperuser and the handlers. A handler sends one response; what it threw
-- becomes the status of an error.
use ichibi_lake.Base.{
  ℕ, String, Bool, true, false, Option, none, some, List, [], ◌∷◌, ◌==◌, includes, if◌then◌else◌,
}
use ichibi_lake.Base.Text.{or_text, is_given}
use ichibi_lake.Base.Exec.{Result, ok, err, pure, ◌>>=◌, ◌>>◌}
use ichibi_lake.Rbac.Store.{
  User, PermRow, State, Failure, user_exists, user_not_found, invalid_role, invalid_permission, Act,
}
use ichibi_lake.Rbac.Lookups.{find_user, get_user_roles}
use ichibi_lake.Rbac.Access.{check_access}
use ichibi_lake.Rbac.Admin.{Updates, create_user, update_user, set_user_roles, set_table_permission}
use ichibi_lake.AdminApi.Lists.{
  NamedPermission, list_users, list_table_permissions, list_user_permissions,
}

pub data Response : Type 0 where
  done : Response
  user_list : List (User × List String) → Response
  user_detail : User → List String → List PermRow → Response
  permission_list : List NamedPermission → Response
  access_answer : Bool → Response
  error : ℕ → Response

-- A request under /admin. `none` is a part of the body or the query that is not given; `roles` of
-- the two routes that take them is an array of texts, or none for anything else.
pub data Request : Type 0 where
  get_users : Request
  post_user :
      Option String → Option String → Option String → Option String → Option (List String) → Request
  get_user : String → Request
  patch_user : String → Updates → Request
  delete_user : String → Request
  put_roles : String → Option (List String) → Request
  put_permission : Option String → Option String → String → Option String → Request
  get_permissions : String → Request
  get_check : Option String → Option String → Request

abbrev pub settled : (Failure → ℕ) → Result Failure Response → Response
settled status (ok response) = response
settled status (err failure) = error (status failure)

-- The try block of a handler and its catch.
abbrev pub answer : (Failure → ℕ) → Act Response → State → Response × State
answer status act s = (settled status (act s).0, (act s).1)

abbrev always_500 : Failure → ℕ
always_500 _ = 500

abbrev exists_409 : Failure → ℕ
exists_409 (user_exists _) = 409
exists_409 _ = 500

abbrev missing_404 : Failure → ℕ
missing_404 (user_not_found _) = 404
missing_404 _ = 500

abbrev roles_status : Failure → ℕ
roles_status (user_not_found _) = 404
roles_status (invalid_role _) = 400
roles_status _ = 500

abbrev permission_400 : Failure → ℕ
permission_400 (invalid_permission _) = 400
permission_400 _ = 500

-- The loop of GET /admin/users.
unfoldable pub with_roles : List User → Act (List (User × List String))
with_roles [] = pure []
with_roles (u ∷ us) = do
  roles ← get_user_roles u.api_key
  rest ← with_roles us
  pure ((u, roles) ∷ rest)

unfoldable pub user_details : String → Option User → Act Response
user_details k none = pure (error 404)
user_details k (some user) = do
  roles ← get_user_roles k
  permissions ← list_user_permissions k
  pure (user_detail user roles permissions)

abbrev no_updates : Updates
no_updates = record { name = none; email = none; is_active = some false }

-- access = 'read'
abbrev given_access : Option String → String
given_access none = "read"
given_access (some a) = a

-- A handler past requireSuperuser; `by` is the key of the request.
unfoldable pub handle : String → Request → State → Response × State
unfolding with_roles user_details
handle by get_users =
    answer always_500
      (do users ← list_users; enriched ← with_roles users; pure (user_list enriched))
handle by (post_user api_key api_key2 name email roles) =
    let k = or_text api_key (or_text api_key2 "") in
    if k == ""
    then (λ s. (error 400, s))
    else if is_given name
    then answer exists_409 (do create_user k name email roles (some by); pure done)
    else (λ s. (error 400, s))
handle by (get_user k) = answer always_500 (do user ← find_user k; user_details k user)
handle by (patch_user k updates) = answer missing_404 (do update_user k updates; pure done)
handle by (delete_user k) = answer missing_404 (do update_user k no_updates; pure done)
handle by (put_roles k none) = λ s. (error 400, s)
handle by (put_roles k (some roles)) =
    answer roles_status (do set_user_roles k roles (some by); pure done)
handle by (put_permission api_key api_key2 t permission) =
    let k = or_text api_key (or_text api_key2 "") in
    if k == ""
    then (λ s. (error 400, s))
    else if is_given permission
    then answer permission_400
        (do set_table_permission k t (or_text permission "") (some by); pure done)
    else (λ s. (error 400, s))
handle by (get_permissions t) =
    answer always_500
      (do permissions ← list_table_permissions t; pure (permission_list permissions))
handle by (get_check table access) =
    if is_given table
    then answer always_500 (do
      allowed ← check_access by (or_text table "") (given_access access)
      pure (access_answer allowed))
    else (λ s. (error 400, s))

-- GET /admin/check is the one route without requireSuperuser.
abbrev pub is_open : Request → Bool
is_open (get_check _ _) = true
is_open _ = false

abbrev pub admit : String → Request → Result Failure (List String) → State → Response × State
admit by request (ok roles) s =
    if includes "superuser" roles then handle by request s else (error 403, s)
admit by request (err _) s = (error 500, s)

-- A request with the key that the authentication middleware admitted.
unfoldable pub admin_request : String → Request → State → Response × State
unfolding handle
admin_request by request s =
    if is_open request
    then handle by request s
    else let (roles, s') = get_user_roles by s in admit by request roles s'
