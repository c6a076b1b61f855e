-- ===== src/Rbac/Tables.antt =====
-- What the SQL statements of src/rbac.js do to the rows that the reads select.
use ichibi_lake.Base.{
  String, ◌≡◌, ◌≢◌, refl, Bool, true, false, not, List, [], ◌∷◌, ◌++◌, map, arith, ◌==◌, eq_iff,
  if◌then◌else◌, filter, update_where, includes,
}
use ichibi_lake.Rbac.Store.{User, RoleRow, is_user, user_rows, has_user, has_role, roles_of}

-- UPDATE _rbac_users by a change that keeps the key.
abbrev pub KeepsKey : (User → User) → Type 0
KeepsKey f = (u : User) → (f u).api_key ≡ u.api_key

pub user_rows-append :
    (k : String) (us vs : List User) → user_rows k (us ++ vs) ≡ user_rows k us ++ user_rows k vs
unfolding user_rows
user_rows-append k [] vs = refl
user_rows-append k (u ∷ us) vs = ground (arith, user_rows-append k us vs)

-- Rows of another key are not touched.
pub user_rows-update_ne :
    (k j : String) (p : User → Bool) (f : User → User) (us : List User)
    → KeepsKey f
    → ((u : User) → p u ≡ true → u.api_key ≡ k)
    → k ≢ j
    → user_rows j (update_where p f us) ≡ user_rows j us
unfolding user_rows
user_rows-update_ne k j p f [] keeps only ne = refl
user_rows-update_ne k j p f (u ∷ us) keeps only ne =
    ground
      (arith, user_rows-update_ne k j p f us keeps only ne, keeps u, only u, eq_iff u.api_key j)

-- Every row of the key is changed.
pub user_rows-update_self :
    (k : String) (f : User → User) (us : List User)
    → KeepsKey f
    → user_rows k (update_where (is_user k) f us) ≡ map f (user_rows k us)
unfolding user_rows
user_rows-update_self k f [] keeps = refl
user_rows-update_self k f (u ∷ us) keeps =
    ground (arith, user_rows-update_self k f us keeps, keeps u)

pub has_user-eq-false : (k : String) (us : List User) → has_user k us ≡ false → user_rows k us ≡ []
unfolding user_rows has_user
has_user-eq-false k [] h = refl
has_user-eq-false k (u ∷ us) h = ground (arith, has_user-eq-false k us)

pub roles_of-append :
    (k : String) (rs qs : List RoleRow) → roles_of k (rs ++ qs) ≡ roles_of k rs ++ roles_of k qs
unfolding roles_of
roles_of-append k [] qs = refl
roles_of-append k (r ∷ rs) qs = ground (arith, roles_of-append k rs qs)

-- DELETE FROM _rbac_user_roles WHERE api_key = ?
pub roles_of-delete :
    (k j : String) (rs : List RoleRow)
    → roles_of j (filter (λ row. not (row.api_key == k)) rs)
      ≡ (if k == j then [] else roles_of j rs)
unfolding roles_of
roles_of-delete k j [] = ground arith
roles_of-delete k j (r ∷ rs) =
    ground (arith, roles_of-delete k j rs, eq_iff r.api_key k, eq_iff r.api_key j, eq_iff k j)

-- SELECT count(*) > 0 agrees with the list of roles.
pub has_role-eq-includes :
    (k r : String) (rs : List RoleRow) → has_role k r rs ≡ includes r (roles_of k rs)
unfolding has_role roles_of
has_role-eq-includes k r [] = refl
has_role-eq-includes k r (q ∷ rs) = ground (arith, has_role-eq-includes k r rs)

pub includes-append :
    (k : String) (xs ys : List String) → includes k xs ≡ true → includes k (xs ++ ys) ≡ true
includes-append k [] ys h = cc
includes-append k (x ∷ xs) ys h = ground (arith, includes-append k xs ys)

pub includes-append_right :
    (k : String) (xs ys : List String) → includes k ys ≡ true → includes k (xs ++ ys) ≡ true
includes-append_right k [] ys h = h
includes-append_right k (x ∷ xs) ys h = ground (arith, includes-append_right k xs ys)
