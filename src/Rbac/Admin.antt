-- ===== src/Rbac/Admin.antt =====
-- src/rbac.js: createUser, updateUser, setUserRoles, setTablePermission.
use ichibi_lake.Base.{
  String, Bool, true, false, ◌||◌, Option, none, some, List, [], ◌∷◌, if◌then◌else◌,
}
use ichibi_lake.Base.Text.{or_text}
use ichibi_lake.Base.Exec.{pure, throw, ◌>>=◌, ◌>>◌}
use ichibi_lake.Rbac.Store.{
  User, Act, user_exists, user_not_found, safe_role, safe_permission, invalidate_user_cache, select,
  is_user, has_user, has_perm, insert_user, insert_role, insert_perm, update_users, update_perms,
  delete_roles,
}
use ichibi_lake.Rbac.Lookups.{find_user}

-- The loop of createUser: each role is checked and inserted before the next is looked at.
unfoldable pub add_checked_roles : String → String → List String → Act (Unit {0})
add_checked_roles k by [] = pure tt
add_checked_roles k by (r ∷ rs) = do safe_role r; insert_role k r by; add_checked_roles k by rs

-- Array.isArray(roles), else no role is added.
unfoldable pub given_roles : Option (List String) → List String
given_roles none = []
given_roles (some roles) = roles

unfoldable pub create_user :
    String → Option String → Option String → Option (List String) → Option String → Act (Unit {0})
create_user k name email roles granted_by = do
  existing ← select (λ s. has_user k s.users)
  if existing then throw (user_exists k) else do
    insert_user k (some (or_text name "")) (some (or_text email "")) (some "true")
        (or_text granted_by "admin")
    add_checked_roles k (or_text granted_by "admin") (given_roles roles)
    invalidate_user_cache k

-- The `updates` argument: `none` is undefined.
pub record Updates : Type 0 where
  pub name : Option String
  pub email : Option String
  pub is_active : Option Bool

abbrev is_some {ℓ} : {A : Type ℓ} → Option A → Bool
is_some none = false
is_some (some _) = true

abbrev set_text : Option String → Option String → Option String
set_text none old = old
set_text (some new) old = some new

abbrev set_flag : Option Bool → Option String → Option String
set_flag none old = old
set_flag (some flag) old = some (if flag then "true" else "false")

-- SET name = ?, email = ?, is_active = ?, for the parts that are given
unfoldable pub apply_updates : Updates → User → User
apply_updates up u = record u {
  name = set_text up.name u.name;
  email = set_text up.email u.email;
  is_active = set_flag up.is_active u.is_active;
}

-- sets.length > 0
unfoldable pub gives_any : Updates → Bool
gives_any up = is_some up.name || is_some up.email || is_some up.is_active

unfoldable pub write_updates : String → Updates → Act (Unit {0})
write_updates k up = if gives_any up then update_users (is_user k) (apply_updates up) else pure tt

-- if (!user) throw
unfoldable pub require_user : String → Option User → Act (Unit {0})
require_user k none = throw (user_not_found k)
require_user k (some _) = pure tt

unfoldable pub update_user : String → Updates → Act (Unit {0})
unfolding require_user
update_user k up = do
  user ← find_user k
  require_user k user
  write_updates k up
  invalidate_user_cache k

unfoldable pub check_roles : List String → Act (Unit {0})
check_roles [] = pure tt
check_roles (r ∷ rs) = do safe_role r; check_roles rs

unfoldable pub add_roles : String → String → List String → Act (Unit {0})
add_roles k by [] = pure tt
add_roles k by (r ∷ rs) = do insert_role k r by; add_roles k by rs

unfoldable pub set_user_roles : String → List String → Option String → Act (Unit {0})
unfolding require_user
set_user_roles k roles granted_by = do
  user ← find_user k
  require_user k user
  check_roles roles
  delete_roles k
  add_roles k (or_text granted_by "admin") roles
  invalidate_user_cache k

unfoldable pub set_table_permission : String → String → String → Option String → Act (Unit {0})
set_table_permission k t permission granted_by = do
  safe_permission permission
  existing ← select (λ s. has_perm k t s.perms)
  if existing
      then update_perms k t permission
      else insert_perm k t permission (or_text granted_by "admin")
  invalidate_user_cache k
