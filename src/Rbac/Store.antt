-- ===== src/Rbac/Store.antt =====
-- src/rbac.js: the three tables, the three caches, the SQL statements that the functions run and
-- the two white lists. A statement throws while initRbacTables has not created the tables.
use ichibi_lake.Base.{
  ℕ, String, Bool, true, not, ◌&&◌, ◌||◌, Option, some, List, [], ◌∷◌, ◌++◌, ◌==◌, if◌then◌else◌,
  any, filter, update_where,
}
use ichibi_lake.Base.Dict.{Dict, erase}
use ichibi_lake.Base.Exec.{ok, err, Exec}

-- A row of _rbac_users; `none` is SQL NULL. `created_at` is the column's default.
pub record User : Type 0 where
  pub api_key : String
  pub name : Option String
  pub email : Option String
  pub is_active : Option String
  pub created_at : ℕ
  pub created_by : Option String

pub record RoleRow : Type 0 where
  pub api_key : String
  pub role : String
  pub granted_at : ℕ
  pub granted_by : String

pub record PermRow : Type 0 where
  pub api_key : String
  pub table_name : String
  pub permission : String
  pub granted_at : ℕ
  pub granted_by : String

-- A cache entry { value, expiresAt }.
pub record Cached (A : Type 0) : Type 0 where
  pub value : A
  pub expires_at : ℕ

-- process.env; an unset text and an empty one are told apart where the code does so.
pub record Env : Type 0 where
  pub rbac_superusers : Option String
  pub rbac_users : Option String
  pub rbac_table_permissions : Option String
  pub api_keys : Option String
  pub api_key : Option String
  pub cache_ttl : ℕ

-- `ready` says that initRbacTables has run; `now` is Date.now().
pub record State : Type 0 where
  pub env : Env
  pub now : ℕ
  pub ready : Bool
  pub users : List User
  pub roles : List RoleRow
  pub perms : List PermRow
  pub user_cache : Dict (Cached (Option User))
  pub role_cache : Dict (Cached (List String))
  pub perm_cache : Dict (Cached (Option String))

pub data Failure : Type 0 where
  table_missing : Failure
  user_exists user_not_found : String → Failure
  invalid_role invalid_permission : String → Failure

abbrev pub Act : Type 0 → Type 0
Act A = Exec State Failure A

-- SAFE_ROLES and SAFE_PERMISSIONS.
unfoldable pub safe_roles : String → Bool
safe_roles r = r == "superuser" || r == "writer" || r == "reader"

unfoldable pub safe_permissions : String → Bool
safe_permissions p = p == "allow_read" || p == "allow_write" || p == "deny"

unfoldable pub safe_role : String → Act (Unit {0})
unfolding safe_roles
safe_role r s = if safe_roles r then (ok tt, s) else (err (invalid_role r), s)

unfoldable pub safe_permission : String → Act (Unit {0})
unfolding safe_permissions
safe_permission p s = if safe_permissions p then (ok tt, s) else (err (invalid_permission p), s)

-- invalidateUserCache(apiKey): every cache is asked to drop the entry `apiKey`.
unfoldable pub invalidate_user_cache : String → Act (Unit {0})
invalidate_user_cache k s = (
  ok tt,
  record s {
    user_cache = erase k s.user_cache;
    role_cache = erase k s.role_cache;
    perm_cache = erase k s.perm_cache;
  },
)

-- invalidateUserCache() with no key, and invalidateRbacCache().
unfoldable pub clear_caches : Act (Unit {0})
clear_caches s = (ok tt, record s { user_cache = []; role_cache = []; perm_cache = [] })

unfoldable pub init_rbac_tables : Act (Unit {0})
init_rbac_tables s = (ok tt, record s { ready = true })

-- A read of the tables, and a write of them.
abbrev pub select : {A : Type 0} → (State → A) → Act A
select f s = if s.ready then (ok (f s), s) else (err table_missing, s)

abbrev pub modify : (State → State) → Act (Unit {0})
modify f s = if s.ready then (ok tt, f s) else (err table_missing, s)

-- The WHERE clauses.
abbrev pub is_user : String → User → Bool
is_user k u = u.api_key == k

abbrev pub is_role : String → String → RoleRow → Bool
is_role k r row = row.api_key == k && row.role == r

abbrev pub is_perm : String → String → PermRow → Bool
is_perm k t row = row.api_key == k && row.table_name == t

unfoldable pub user_rows : String → List User → List User
user_rows k us = filter (is_user k) us

unfoldable pub has_user : String → List User → Bool
has_user k us = any (is_user k) us

unfoldable pub has_role : String → String → List RoleRow → Bool
has_role k r rs = any (is_role k r) rs

unfoldable pub roles_of : String → List RoleRow → List String
roles_of k [] = []
roles_of k (row ∷ rs) =
    let rest = roles_of k rs in if row.api_key == k then row.role ∷ rest else rest

unfoldable pub perm_rows : String → String → List PermRow → List PermRow
perm_rows k t ps = filter (is_perm k t) ps

unfoldable pub has_perm : String → String → List PermRow → Bool
has_perm k t ps = any (is_perm k t) ps

-- INSERT INTO _rbac_users, _rbac_user_roles and _rbac_table_permissions.
unfoldable pub insert_user :
    String → Option String → Option String → Option String → String → Act (Unit {0})
insert_user k name email is_active by = modify (λ s. record s {
  users =
      s.users
      ++ record {
        api_key = k;
        name = name;
        email = email;
        is_active = is_active;
        created_at = s.now;
        created_by = some by;
      }
        ∷ [];
})

unfoldable pub insert_role : String → String → String → Act (Unit {0})
insert_role k r by = modify (λ s. record s {
  roles = s.roles ++ record { api_key = k; role = r; granted_at = s.now; granted_by = by } ∷ [];
})

unfoldable pub insert_perm : String → String → String → String → Act (Unit {0})
insert_perm k t p by = modify (λ s. record s {
  perms =
      s.perms
      ++ record { api_key = k; table_name = t; permission = p; granted_at = s.now; granted_by = by }
        ∷ [];
})

-- UPDATE _rbac_users SET ... WHERE api_key = ?
unfoldable pub update_users : (User → Bool) → (User → User) → Act (Unit {0})
update_users p f = modify (λ s. record s { users = update_where p f s.users })

-- UPDATE _rbac_table_permissions SET permission = ? WHERE api_key = ? AND table_name = ?
unfoldable pub update_perms : String → String → String → Act (Unit {0})
update_perms k t p = modify (λ s. record s {
  perms = update_where (is_perm k t) (λ row. record row { permission = p }) s.perms;
})

-- DELETE FROM _rbac_user_roles WHERE api_key = ?
unfoldable pub delete_roles : String → Act (Unit {0})
delete_roles k = modify (λ s. record s { roles = filter (λ row. not (row.api_key == k)) s.roles })
