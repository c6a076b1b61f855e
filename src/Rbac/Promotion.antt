-- ===== src/Rbac/Promotion.antt =====
-- legacyBootstrap of src/rbac.js: every listed key becomes an active superuser and stays one.
use mathlib.Core.Path.{subst}
use ichibi_lake.Base.{
  String, ◌≡◌, ◌≢◌, refl, ap, sym, ◌∙◌, true, false, none, some, List, [], ◌∷◌, ◌++◌, arith, ◌==◌,
  eq_iff, head?, update_where, includes, inl, inr, Bool-cases, if◌then◌else◌,
}
use ichibi_lake.Base.Exec.{ok}
use ichibi_lake.Rbac.Store.{
  State, User, RoleRow, is_user, has_user, has_role, user_rows, roles_of, insert_user, insert_role,
  update_users,
}
use ichibi_lake.Rbac.Tables.{
  user_rows-append, user_rows-update_self, user_rows-update_ne, has_user-eq-false, roles_of-append,
  has_role-eq-includes, includes-append, includes-append_right,
}
use ichibi_lake.Rbac.Lookups.{stored_user, stored_roles}
use ichibi_lake.Rbac.RoleUpdates.{roles_of_one}
use ichibi_lake.Rbac.Updates.{head?-map}
use ichibi_lake.Rbac.Bootstrap.{set_active, ensure_role, promote}

-- SELECT count(*) > 0 finds a row to read.
has_user-row :
    (k : String) (us : List User)
    → has_user k us ≡ true
    → (u : User) × (head? (user_rows k us) ≡ some u)
unfolding has_user user_rows
has_user-row k [] h = cc
has_user-row k (u ∷ us) h = elim (Bool-cases (u.api_key == k)) [
  | inl here ↦ (u, rw here)
  | inr there ↦ let (v, e) = has_user-row k us (ground arith) in (v, rw there e)
]

user_rows-insert_ne :
    (k : String) (us : List User) (u : User)
    → u.api_key ≢ k
    → user_rows k (us ++ u ∷ []) ≡ user_rows k us
unfolding user_rows
user_rows-insert_ne k [] u ne = ground (arith, eq_iff u.api_key k)
user_rows-insert_ne k (v ∷ us) u ne = ground (arith, user_rows-insert_ne k us u ne)

one_row : (k : String) (u : User) → u.api_key ≡ k → head? (user_rows k (u ∷ [])) ≡ some u
unfolding user_rows
one_row k u e = ground (arith, eq_iff u.api_key k)

module _ (j : String) (s : State) where
  abbrev pub legacy_row : User
  legacy_row = record {
    api_key = j;
    name = some "legacy-user";
    email = none;
    is_active = none;
    created_at = s.now;
    created_by = some "legacy-bootstrap";
  }

  pub present : List User
  present = if has_user j s.users then s.users else s.users ++ legacy_row ∷ []

  pub promoted_roles : List RoleRow
  promoted_roles =
      if has_role j "superuser" s.roles
      then s.roles
      else s.roles
        ++ record {
          api_key = j;
          role = "superuser";
          granted_at = s.now;
          granted_by = "legacy-bootstrap";
        }
          ∷ []

  -- The state after one round of the loop.
  abbrev pub promoted : State
  promoted = record s {
    users = update_where (is_user j) (set_active "true") present;
    roles = promoted_roles;
  }

  pub promote-eq : s.ready ≡ true → promote j s ≡ (ok tt, promoted)
  unfolding promote ensure_role insert_user insert_role update_users present promoted_roles
  promote-eq r = elim (Bool-cases (has_user j s.users)) [
    | inl here ↦ elim (Bool-cases (has_role j "superuser" s.roles)) [
      | inl granted ↦ simp (r, here, granted)
      | inr new ↦ simp (r, here, new)
    ]
    | inr fresh ↦ elim (Bool-cases (has_role j "superuser" s.roles)) [
      | inl granted ↦ simp (r, fresh, granted)
      | inr new ↦ simp (r, fresh, new)
    ]
  ]

  first_inserted :
      has_user j s.users ≡ false
      → head? (user_rows j (s.users ++ legacy_row ∷ [])) ≡ some legacy_row
  first_inserted absent =
      ap head? (user_rows-append j s.users (legacy_row ∷ []))
      ∙ rw (has_user-eq-false j s.users absent) (one_row j legacy_row refl)

  present-row : (u : User) × (head? (user_rows j present) ≡ some u)
  unfolding present
  present-row = elim (Bool-cases (has_user j s.users)) [
    | inl here ↦ let (u, e) = has_user-row j s.users here in (u, rw here e)
    | inr absent ↦ (legacy_row, rw absent (first_inserted absent))
  ]

  present-row_ne : (k : String) → j ≢ k → user_rows k present ≡ user_rows k s.users
  unfolding present
  present-row_ne k ne = elim (Bool-cases (has_user j s.users)) [
    | inl here ↦ rw here
    | inr absent ↦ rw absent (user_rows-insert_ne k s.users legacy_row ne)
  ]

  pub promoted-rows_ne : (k : String) → j ≢ k → user_rows k promoted.users ≡ user_rows k s.users
  promoted-rows_ne k ne =
      user_rows-update_ne j k (is_user j) (set_active "true") present (λ u. refl)
        (λ u h. (eq_iff u.api_key j).0 h) ne
      ∙ present-row_ne k ne

  promoted_roles-keeps :
      (k r : String)
      → includes r (roles_of k s.roles) ≡ true
      → includes r (roles_of k promoted_roles) ≡ true
  unfolding promoted_roles
  promoted_roles-keeps k r h = elim (Bool-cases (has_role j "superuser" s.roles)) [
    | inl granted ↦ rw granted h
    | inr new ↦ rw new (rw roles_of-append (includes-append r (roles_of k s.roles) _ h))
  ]

  abbrev pub superuser_row : RoleRow
  superuser_row = record {
    api_key = j;
    role = "superuser";
    granted_at = s.now;
    granted_by = "legacy-bootstrap";
  }

  promoted_roles-superuser : includes "superuser" (roles_of j promoted_roles) ≡ true
  unfolding promoted_roles
  promoted_roles-superuser = elim (Bool-cases (has_role j "superuser" s.roles)) [
    | inl granted ↦ rw granted (sym (has_role-eq-includes j "superuser" s.roles) ∙ granted)
    | inr new ↦ rw new (
        rw roles_of-append (
          includes-append_right "superuser" (roles_of j s.roles) _
            (ap (includes "superuser") (roles_of_one j superuser_row refl))))
  ]

-- The tables hold `k` as an active superuser.
pub record IsSuperuser (k : String) (s : State) : Type 0 where
  pub user : User
  pub stored : stored_user k s ≡ some user
  pub active : user.is_active ≡ some "true"
  pub role : includes "superuser" (stored_roles k s) ≡ true

pub promoted-IsSuperuser : (j : String) (s : State) → IsSuperuser j (promoted j s)
unfolding stored_user stored_roles
promoted-IsSuperuser j s =
    let (u, e) = present-row j s in
    record {
      user = set_active "true" u;
      stored =
          ap head? (user_rows-update_self j (set_active "true") (present j s) (λ v. refl))
          ∙ head?-map _ _ e;
      active = refl;
      role = promoted_roles-superuser j s;
    }

pub promoted-keeps : (j k : String) (s : State) → IsSuperuser k s → IsSuperuser k (promoted j s)
unfolding stored_user stored_roles
promoted-keeps j k s h = elim (Bool-cases (j == k)) [
  | inl same ↦
      subst (λ x. IsSuperuser x (promoted j s)) ((eq_iff j k).0 same) (promoted-IsSuperuser j s)
  | inr other ↦ record {
    user = h.user;
    stored = ap head? (promoted-rows_ne j s k (ground (arith, eq_iff j k))) ∙ h.stored;
    active = h.active;
    role = promoted_roles-keeps j s k "superuser" h.role;
  }
]
