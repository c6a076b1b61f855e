-- ===== src/Rbac/Bootstrap.antt =====
-- src/rbac.js: bootstrapRbac, legacyBootstrap, syncLegacyApiKeys. The messages that they log are
-- left out. JSON.parse of RBAC_USERS and RBAC_TABLE_PERMISSIONS is a parameter of bootstrapRbac.
use ichibi_lake.Base.{
  String, Bool, not, ◌&&◌, Option, none, some, List, [], ◌∷◌, map, length, ◌==◌, filter, includes,
  if◌then◌else◌, ℕ,
}
use ichibi_lake.Base.Text.{split, trim, join_comma, or_text}
use ichibi_lake.Base.Exec.{pure, ◌>>=◌, ◌>>◌}
use ichibi_lake.Rbac.Store.{
  User, State, Act, safe_roles, safe_permissions, clear_caches, init_rbac_tables, select, is_user,
  has_user, has_role, has_perm, insert_user, insert_role, insert_perm, update_users, update_perms,
}
use ichibi_lake.Rbac.Access.{is_text, is_rbac_configured, valid_keys}

-- A loop `for (const x of xs) await body(x)`.
abbrev pub for_each : {A : Type 0} → (A → Act (Unit {0})) → List A → Act (Unit {0})
for_each body [] = pure tt
for_each body (x ∷ xs) = do body x; for_each body xs

abbrev pub not_empty : String → Bool
not_empty k = not (k == "")

abbrev pub set_active : String → User → User
set_active flag u = record u { is_active = some flag }

-- INSERT a role unless SELECT count(*) finds it
unfoldable pub ensure_role : String → String → String → Act (Unit {0})
ensure_role k r by = do
  exists ← select (λ s. has_role k r s.roles)
  if exists then pure tt else insert_role k r by

-- An entry of RBAC_USERS, and one of RBAC_TABLE_PERMISSIONS, with both spellings of the key.
pub record UserSpec : Type 0 where
  pub api_key_camel : Option String
  pub api_key : Option String
  pub name : Option String
  pub email : Option String
  pub roles : List String

pub record PermSpec : Type 0 where
  pub api_key_camel : Option String
  pub api_key : Option String
  pub table_name_camel : Option String
  pub table_name : Option String
  pub permission : Option String

sync_user : UserSpec → Act (Unit {0})
unfolding has_user update_users insert_user ensure_role safe_roles
sync_user u =
    let k = or_text u.api_key_camel (or_text u.api_key "") in
    let name = or_text u.name "" in
    let email = or_text u.email "" in
    if k == "" then pure tt else do
      exists ← select (λ s. has_user k s.users)
      if exists
          then update_users (is_user k)
              (λ row. record row { name = some name; email = some email; is_active = some "true" })
          else insert_user k (some name) (some email) (some "true") "bootstrap"
      for_each (λ r. ensure_role k r "bootstrap") (filter safe_roles u.roles)

sync_superuser : String → Act (Unit {0})
unfolding has_user update_users insert_user ensure_role
sync_superuser k = do
  exists ← select (λ s. has_user k s.users)
  if exists
      then update_users (is_user k) (set_active "true")
      else insert_user k (some "auto-superuser") none (some "true") "bootstrap"
  ensure_role k "superuser" "bootstrap"

sync_permission : PermSpec → Act (Unit {0})
unfolding has_perm update_perms insert_perm safe_permissions
sync_permission p =
    let k = or_text p.api_key_camel (or_text p.api_key "") in
    let t = or_text p.table_name_camel (or_text p.table_name "") in
    let permission = or_text p.permission "" in
    if not_empty k && not_empty t && not_empty permission && safe_permissions permission
    then (do
      exists ← select (λ s. has_perm k t s.perms)
      if exists then update_perms k t permission else insert_perm k t permission "bootstrap")
    else pure tt

-- safeJsonParse(text, [])
parsed_or_none : {A : Type 0} → (String → Option (List A)) → Option String → List A
parsed_or_none parse raw =
    let text = or_text raw "" in
    if text == "" then [] else elim (parse text) [ none ↦ [] | some xs ↦ xs ]

module _ (parse_users : String → Option (List UserSpec))
    (parse_perms : String → Option (List PermSpec)) where
  unfoldable pub bootstrap_rbac : Act (Unit {0})
  unfolding sync_user sync_superuser sync_permission parsed_or_none init_rbac_tables clear_caches
      split trim
  bootstrap_rbac s =
      let superusers =
        filter not_empty (map trim (split b',' (or_text s.env.rbac_superusers ""))) in
      let users = parsed_or_none parse_users s.env.rbac_users in
      let perms = parsed_or_none parse_perms s.env.rbac_table_permissions in
      (do
        init_rbac_tables
        for_each sync_user users
        for_each sync_superuser superusers
        for_each sync_permission perms
        clear_caches)
        s

-- The body of legacyBootstrap's loop.
unfoldable pub promote : String → Act (Unit {0})
promote k = do
  exists ← select (λ s. has_user k s.users)
  if exists then pure tt else insert_user k (some "legacy-user") none none "legacy-bootstrap"
  update_users (is_user k) (set_active "true")
  ensure_role k "superuser" "legacy-bootstrap"

-- legacyBootstrap over its key list: nothing at all happens when the list is empty.
unfoldable pub promote_all : List String → Act (Unit {0})
promote_all [] = pure tt
promote_all (k ∷ ks) = do init_rbac_tables; for_each promote (k ∷ ks); clear_caches

unfoldable pub legacy_bootstrap : Act (Unit {0})
legacy_bootstrap s = promote_all (valid_keys s.env) s

unfoldable pub is_legacy_user : String → User → Bool
is_legacy_user k u = u.api_key == k && is_text u.created_by "legacy-bootstrap"

-- UPDATE ... SET is_active = 'false' WHERE api_key = ? AND created_by = 'legacy-bootstrap'
unfoldable pub deactivate_legacy : String → Act (Unit {0})
deactivate_legacy k = update_users (is_legacy_user k) (set_active "false")

unfoldable pub with_keys : Option String → State → State
with_keys keys s = record s { env = record s.env { api_keys = keys } }

-- What `process.env.API_KEYS = saved` stores: an assignment turns undefined into a text.
unfoldable pub assigned : Option String → String
assigned none = "undefined"
assigned (some v) = v

-- try { legacyBootstrap() } finally { process.env.API_KEYS = saved }
unfoldable pub promote_new : List String → Act (Unit {0})
promote_new [] s = (pure tt) s
promote_new (k ∷ ks) s =
    if is_rbac_configured s.env
    then (pure tt) s
    else let (r, s') = legacy_bootstrap (with_keys (some (join_comma (k ∷ ks))) s) in
      (r, with_keys (some (assigned s.env.api_keys)) s')

-- oldKeys.filter(k => !next.has(k))
unfoldable pub removed_keys : List String → List String → List String
removed_keys next old = filter (λ k. not (includes k next)) old

unfoldable pub sync_legacy_api_keys : List String → List String → Act ℕ
sync_legacy_api_keys next old = do
  init_rbac_tables
  for_each deactivate_legacy (removed_keys next old)
  promote_new next
  clear_caches
  pure (length (removed_keys next old))
