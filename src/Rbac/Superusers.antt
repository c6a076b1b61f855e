-- ===== src/Rbac/Superusers.antt =====
-- isSuperuserKey of src/rbac.js on tables that exist: its answer, from the tables and the
-- environment.
use ichibi_lake.Base.{
  String, ◌≡◌, ap, ◌∙◌, Bool, true, false, ◌&&◌, ◌||◌, Option, none, some, ◌==◌, includes, inl, inr,
  Bool-cases, if◌then◌else◌,
}
use ichibi_lake.Base.Text.{is_given}
use ichibi_lake.Base.Exec.{ok, pure, bind_ok}
use ichibi_lake.Rbac.Store.{State, User}
use ichibi_lake.Rbac.Lookups.{stored_user, stored_roles, find_user, get_user_roles}
use ichibi_lake.Rbac.Access.{
  active, is_rbac_configured, listed_keys, superuser_row, legacy_rule, settle, is_superuser_key,
}
use ichibi_lake.Rbac.Coherence.{IsCoherent, SameTables, SameTables-stored_roles}
use ichibi_lake.Rbac.Reads.{
  find_user-eq, find_user-IsCoherent, find_user-SameTables, get_user_roles-eq,
}

-- The answer by the tables and the environment: a stored user decides, and without one the API_KEYS
-- list, which counts only while neither RBAC_SUPERUSERS nor RBAC_USERS is set.
abbrev pub superuser_by_tables : String → State → Option User → Bool
superuser_by_tables k s none =
    if is_given s.env.rbac_superusers || is_given s.env.rbac_users
    then false
    else includes k (listed_keys s.env)
superuser_by_tables k s (some u) = active u && includes "superuser" (stored_roles k s)

legacy_rule-SameTables :
    (k : String) {s s' : State} → SameTables s s' → legacy_rule k s' ≡ superuser_by_tables k s none
unfolding legacy_rule is_rbac_configured
legacy_rule-SameTables k same = rw same.env

module _ (k : String) (s : State) (c : IsCoherent s) (r : s.ready ≡ true) where
  -- The try block, from the state that the first lookup leaves.
  settled :
      (o : Option User) (s1 : State)
      → SameTables s s1
      → IsCoherent s1
      → s1.ready ≡ true
      → settle k (superuser_row k o s1).0 (superuser_row k o s1).1 ≡ superuser_by_tables k s o
  unfolding superuser_row settle
  settled none s1 same c1 r1 = legacy_rule-SameTables k same
  settled (some u) s1 same c1 r1 = elim (Bool-cases (active u)) [
    | inl live ↦
        let roles = get_user_roles-eq k s1 c1.roles r1 ∙ ap ok (SameTables-stored_roles same k) in
        rw (live, bind_ok (get_user_roles k) (λ rs. pure (some (includes "superuser" rs))) s1 roles)
    | inr dead ↦ rw dead
  ]

  -- Where the tables are there and the caches coherent, a key that is not empty is a superuser's
  -- exactly when its stored user is active and has the superuser role, or when no user is stored for
  -- it, neither RBAC_SUPERUSERS nor RBAC_USERS is set, and the API_KEYS list (or API_KEY, without
  -- it) names it; the empty key never is.
  pub is_superuser_key-eq :
      (is_superuser_key k s).0
      ≡ ok (if k == "" then false else superuser_by_tables k s (stored_user k s))
  unfolding is_superuser_key
  is_superuser_key-eq = elim (Bool-cases (k == "")) [
    | inl empty ↦ rw empty
    | inr given ↦
        let same = find_user-SameTables k s in
        let step = bind_ok (find_user k) (superuser_row k) s (find_user-eq k s c.users r) in
        rw (given, step)
          (ap ok (
            settled (stored_user k s) (find_user k s).1 same (find_user-IsCoherent k s c r)
              (same.ready ∙ r)))
  ]
