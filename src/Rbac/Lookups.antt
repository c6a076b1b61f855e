-- ===== src/Rbac/Lookups.antt =====
-- src/rbac.js: findUser, getUserRoles, getTablePermission. Each answers from its cache until the
-- entry expires, and otherwise reads the table and caches what it read, a missing row included.
use Prim.Native.String
use ichibi_lake.Base.{ℕ, ◌+◌, String, Option, none, some, List, [], ◌∷◌, ltb, head?, if◌then◌else◌}
use ichibi_lake.Base.Dict.{lookup, insert}
use ichibi_lake.Base.Exec.{ok, ◌>>=◌}
use ichibi_lake.Rbac.Store.{
  User, PermRow, Cached, State, Act, select, user_rows, roles_of, perm_rows,
}

-- cached && cached.expiresAt > now
unfoldable pub fresh : {A : Type 0} → ℕ → Option (Cached A) → Option A
fresh now none = none
fresh now (some c) = if ltb now c.expires_at then some c.value else none

-- `${apiKey}::${tableName}`
unfoldable pub cache_key : String → String → String
cache_key k t = String.◌++◌ k (String.◌++◌ "::" t)

-- The `set` of each cache: { value, expiresAt: now + RBAC_CACHE_TTL_MS }.
abbrev stamped : {A : Type 0} → A → State → Cached A
stamped a s = record { value = a; expires_at = s.now + s.env.cache_ttl }

cache_user : String → Option User → Act (Option User)
cache_user k user s = (ok user, record s { user_cache = insert k (stamped user s) s.user_cache })

cache_roles : String → List String → Act (List String)
cache_roles k roles s =
    (ok roles, record s { role_cache = insert k (stamped roles s) s.role_cache })

cache_permission : String → Option String → Act (Option String)
cache_permission k p s = (ok p, record s { perm_cache = insert k (stamped p s) s.perm_cache })

-- rows[0], or null; SELECT role, permission FROM ... WHERE ...
unfoldable pub stored_user : String → State → Option User
unfolding user_rows
stored_user k s = head? (user_rows k s.users)

unfoldable pub stored_roles : String → State → List String
unfolding roles_of
stored_roles k s = roles_of k s.roles

abbrev pub first_permission : List PermRow → Option String
first_permission [] = none
first_permission (row ∷ _) = some row.permission

unfoldable pub stored_permission : String → String → State → Option String
unfolding perm_rows
stored_permission k t s = first_permission (perm_rows k t s.perms)

unfoldable pub find_user : String → Act (Option User)
unfolding fresh cache_user
find_user k s = elim (fresh s.now (lookup k s.user_cache)) [
  | some user ↦ (ok user, s)
  | none ↦ (select (stored_user k) >>= cache_user k) s
]

unfoldable pub get_user_roles : String → Act (List String)
unfolding fresh cache_roles
get_user_roles k s = elim (fresh s.now (lookup k s.role_cache)) [
  | some roles ↦ (ok roles, s)
  | none ↦ (select (stored_roles k) >>= cache_roles k) s
]

unfoldable pub get_table_permission : String → String → Act (Option String)
unfolding fresh cache_key cache_permission
get_table_permission k t s = elim (fresh s.now (lookup (cache_key k t) s.perm_cache)) [
  | some permission ↦ (ok permission, s)
  | none ↦ (select (stored_permission k t) >>= cache_permission (cache_key k t)) s
]
