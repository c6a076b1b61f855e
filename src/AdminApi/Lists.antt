-- ===== src/AdminApi/Lists.antt =====
-- src/rbac.js: listUsers, listTablePermissions and listUserPermissions.
use Prim.Native.String.{compare}
use Prim.Native.Nat.{Ordering}
use ichibi_lake.Base.{
  String, Bool, true, false, Option, List, [], ◌∷◌, ◌++◌, ◌==◌, leb, filter, if◌then◌else◌,
}
use ichibi_lake.Rbac.Store.{User, PermRow, Act, select}

-- ORDER BY, stable
abbrev pub place_by : {A : Type 0} → (A → A → Bool) → A → List A → List A
place_by before x [] = x ∷ []
place_by before x (y ∷ ys) = if before x y then x ∷ y ∷ ys else y ∷ place_by before x ys

abbrev pub sort_by : {A : Type 0} → (A → A → Bool) → List A → List A
sort_by before [] = []
sort_by before (x ∷ xs) = place_by before x (sort_by before xs)

unfoldable pub list_users : Act (List User)
list_users = select (λ s. sort_by (λ u v. leb u.created_at v.created_at) s.users)

-- A permission with the name of its user.
pub record NamedPermission : Type 0 where
  pub row : PermRow
  pub user_name : Option String

-- JOIN _rbac_users u ON u.api_key = p.api_key, for one row of the permissions
abbrev pub joined_with : PermRow → List User → List NamedPermission
joined_with p [] = []
joined_with p (u ∷ us) =
    let rest = joined_with p us in
    if u.api_key == p.api_key then record { row = p; user_name = u.name } ∷ rest else rest

abbrev pub join_users : List User → List PermRow → List NamedPermission
join_users us [] = []
join_users us (p ∷ ps) = joined_with p us ++ join_users us ps

unfoldable pub list_table_permissions : String → Act (List NamedPermission)
list_table_permissions t = select (λ s.
    sort_by (λ p q. leb p.row.granted_at q.row.granted_at)
      (join_users s.users (filter (λ p. p.table_name == t) s.perms)))

abbrev pub text_leb : String → String → Bool
text_leb a b = elim (compare a b) [ Ordering.gt ↦ false | _ ↦ true ]

unfoldable pub list_user_permissions : String → Act (List PermRow)
list_user_permissions k = select (λ s.
    sort_by (λ p q. text_leb p.table_name q.table_name) (filter (λ p. p.api_key == k) s.perms))
