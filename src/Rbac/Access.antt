-- ===== src/Rbac/Access.antt =====
-- src/rbac.js: checkAccess, isValidApiKey, isRbacConfigured, isSuperuserKey; and the
-- authentication middleware of src/index.js that calls them.
use ichibi_lake.Base.{
  String, Bool, true, false, not, ◌||◌, Option, none, some, List, map, ◌==◌, includes, filter, [],
  ◌∷◌, if◌then◌else◌,
}
use ichibi_lake.Base.Text.{split, trim, or_text, is_given}
use ichibi_lake.Base.Exec.{Result, ok, err, pure, ◌>>=◌}
use ichibi_lake.Rbac.Store.{User, Env, State, Failure, Act}
use ichibi_lake.Rbac.Lookups.{find_user, get_user_roles, get_table_permission}

-- x === text, for a column that may be NULL
abbrev pub is_text : Option String → String → Bool
is_text none t = false
is_text (some s) t = s == t

-- user.is_active === true || user.is_active === 'true': the column is a VARCHAR.
unfoldable pub active : User → Bool
active u = is_text u.is_active "true"

-- The decision of checkAccess for an active user, from the three values it has read.
unfoldable pub grants : List String → Option String → String → Bool
grants roles perm required =
    if includes "superuser" roles
    then not (is_text perm "deny")
    else if is_text perm "deny"
    then false
    else if required == "write"
    then is_text perm "allow_write" || includes "writer" roles
    else if required == "read"
    then (is_text perm "allow_read" || is_text perm "allow_write")
      || (includes "writer" roles || includes "reader" roles)
    else false

unfoldable pub check_user : String → String → String → Option User → Act Bool
unfolding active grants
check_user k t required none = pure false
check_user k t required (some u) =
    if active u
    then (do
      roles ← get_user_roles k
      perm ← get_table_permission k t
      pure (grants roles perm required))
    else pure false

unfoldable pub check_access : String → String → String → Act Bool
check_access k t required = do user ← find_user k; check_user k t required user

unfoldable pub valid_user : Option User → Bool
unfolding active
valid_user none = false
valid_user (some u) = active u

unfoldable pub is_valid_api_key : String → Act Bool
is_valid_api_key k = do user ← find_user k; pure (valid_user user)

unfoldable pub is_rbac_configured : Env → Bool
is_rbac_configured env = is_given env.rbac_superusers || is_given env.rbac_users

-- (API_KEYS || API_KEY || '').split(',').map(trim)
unfoldable pub listed_keys : Env → List String
unfolding split trim
listed_keys env = map trim (split b',' (or_text env.api_keys (or_text env.api_key "")))

-- The RBAC half of isSuperuserKey: `none` when there is no such user.
unfoldable pub superuser_row : String → Option User → Act (Option Bool)
unfolding active
superuser_row k none = pure none
superuser_row k (some u) =
    if active u
    then (do roles ← get_user_roles k; pure (some (includes "superuser" roles)))
    else pure (some false)

-- Past the try block: a decision stands, no user and a throw go on to the legacy rule.
unfoldable pub legacy_rule : String → State → Bool
unfolding is_rbac_configured listed_keys
legacy_rule k s = if is_rbac_configured s.env then false else includes k (listed_keys s.env)

unfoldable pub settle : String → Result Failure (Option Bool) → State → Bool
unfolding legacy_rule
settle k (ok (some b)) s = b
settle k (ok none) s = legacy_rule k s
settle k (err _) s = legacy_rule k s

unfoldable pub is_superuser_key : String → Act Bool
is_superuser_key k s =
    if k == ""
    then (ok false, s)
    else let (r, s') = (find_user k >>= superuser_row k) s in (ok (settle k r s'), s')

-- What the middleware answers: next() with req.apiKey, or one of its three 401 responses.
pub data Auth : Type 0 where
  admitted : String → Auth
  missing_key invalid_key no_keys_configured : Auth

-- validKeys: the listed keys that are not empty
unfoldable pub valid_keys : Env → List String
unfolding listed_keys
valid_keys env = filter (λ k. not (k == "")) (listed_keys env)

unfoldable pub legacy_auth : String → List String → Auth
legacy_auth k [] = no_keys_configured
legacy_auth k (v ∷ vs) = if includes k (v ∷ vs) then admitted k else invalid_key

-- A throw of isValidApiKey is caught, and falls through like `false`.
unfoldable pub auth_result : String → Result Failure Bool → State → Auth
unfolding legacy_auth valid_keys
auth_result k (ok true) s = admitted k
auth_result k (ok false) s = legacy_auth k (valid_keys s.env)
auth_result k (err _) s = legacy_auth k (valid_keys s.env)

unfoldable pub authenticate : Option String → Act Auth
authenticate none s = (ok missing_key, s)
authenticate (some k) s =
    if k == ""
    then (ok missing_key, s)
    else let (r, s') = is_valid_api_key k s in (ok (auth_result k r s'), s')
