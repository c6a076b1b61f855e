-- ===== src/Rbac/Creation.antt =====
-- createUser of src/rbac.js: the user row is written before the roles are checked.
use ichibi_lake.Base.{
  String, ◌≡◌, refl, ap, sym, ◌∙◌, true, false, Option, some, List, [], ◌∷◌, ◌++◌, arith, eq_refl,
  all, head?, inl, inr, Bool-cases,
}
use mathlib.Core.Path.{subst}
use ichibi_lake.Base.Text.{or_text}
use ichibi_lake.Base.Exec.{ok, err, ◌>>◌, bind_ok, bind_err}
use ichibi_lake.Rbac.Store.{
  State, User, Act, user_exists, invalid_role, safe_roles, safe_role, insert_role, insert_user,
  has_user, user_rows, invalidate_user_cache,
}
use ichibi_lake.Rbac.Tables.{user_rows-append, has_user-eq-false}
use ichibi_lake.Rbac.Lookups.{stored_user, stored_roles}
use ichibi_lake.Rbac.Admin.{add_checked_roles, add_roles, given_roles, create_user}
use ichibi_lake.Rbac.Coherence.{IsCoherent}
use ichibi_lake.Rbac.Locality.{
  ChangesOnly, ChangesOnly-trans, insert_user-ChangesOnly, invalidate_user_cache-IsCoherent,
}
use ichibi_lake.Rbac.RoleUpdates.{add_roles-Adds, insert_role_lem, insert_role-users}

-- Over valid roles the checks change nothing.
add_checked_roles_ok :
    (k by : String) (roles : List String) (s : State)
    → all safe_roles roles ≡ true
    → s.ready ≡ true
    → add_checked_roles k by roles s ≡ add_roles k by roles s
unfolding add_checked_roles add_roles safe_role
add_checked_roles_ok k by [] s h r = refl
add_checked_roles_ok k by (q ∷ roles) s h r =
    let (done, r1, _) = insert_role_lem k q by s r in
    let s1 = (insert_role k q by s).1 in
    let safe : safe_roles q ≡ true = ground arith in
    let rest_safe : all safe_roles roles ≡ true = ground arith in
    rw safe (
      bind_ok (insert_role k q by) (λ _. add_checked_roles k by roles) s done
      ∙ add_checked_roles_ok k by roles s1 rest_safe r1
      ∙ sym (bind_ok (insert_role k q by) (λ _. add_roles k by roles) s done))

-- With an invalid role the loop throws; whatever it wrote, the user rows are as they were.
add_checked_roles_bad :
    (k by : String) (roles : List String) (s : State)
    → all safe_roles roles ≡ false
    → s.ready ≡ true
    → (q : String) × ((add_checked_roles k by roles s).0 ≡ err (invalid_role q))
      × ((add_checked_roles k by roles s).1.users ≡ s.users)
unfolding add_checked_roles safe_role
add_checked_roles_bad k by [] s h r = cc
add_checked_roles_bad k by (q ∷ roles) s h r = elim (Bool-cases (safe_roles q)) [
  | inl safe ↦
      let (done, r1, _) = insert_role_lem k q by s r in
      let s1 = (insert_role k q by s).1 in
      let rest_bad : all safe_roles roles ≡ false = ground arith in
      let (p, thrown, users) = add_checked_roles_bad k by roles s1 rest_bad r1 in
      let step = bind_ok (insert_role k q by) (λ _. add_checked_roles k by roles) s done in
      rw (safe, step) (p, thrown, users ∙ insert_role-users k q by s)
  | inr bad ↦ (q, rw bad, rw bad)
]

-- The row that createUser inserts.
abbrev pub created : String → Option String → Option String → Option String → State → User
created k name email by s = record {
  api_key = k;
  name = some (or_text name "");
  email = some (or_text email "");
  is_active = some "true";
  created_at = s.now;
  created_by = some (or_text by "admin");
}

-- What follows the test for an existing user in createUser.
abbrev write :
    String → Option String → Option String → Option (List String) → Option String → Act (Unit {0})
write k name email roles by =
    insert_user k (some (or_text name "")) (some (or_text email "")) (some "true")
      (or_text by "admin")
    >> (add_checked_roles k (or_text by "admin") (given_roles roles) >> invalidate_user_cache k)

module _ (k : String) (name email by : Option String) (s : State) (r : s.ready ≡ true) where
  -- A key that has a row is refused, and nothing changes.
  pub create_user_exists :
      (roles : Option (List String))
      → has_user k s.users ≡ true
      → create_user k name email roles by s ≡ (err (user_exists k), s)
  unfolding create_user
  create_user_exists roles taken = simp (r, taken)

  enter :
      (roles : Option (List String))
      → has_user k s.users ≡ false
      → create_user k name email roles by s ≡ write k name email roles by s
  unfolding create_user
  enter roles free = simp (r, free)

  abbrev inserted : State
  inserted = record s { users = s.users ++ created k name email by s ∷ [] }

  inserted_lem :
      insert_user k
        (some (or_text name ""))
        (some (or_text email ""))
        (some "true")
        (or_text by "admin")
        s
      ≡ (ok tt, inserted)
  unfolding insert_user
  inserted_lem = simp r

  stored_user-inserted :
      (t : State)
      → t.users ≡ inserted.users
      → has_user k s.users ≡ false
      → stored_user k t ≡ some (created k name email by s)
  unfolding stored_user
  stored_user-inserted t e free =
      ap (λ us. head? (user_rows k us)) e
      ∙ ap head? (user_rows-append k s.users (created k name email by s ∷ []))
      ∙ rw (has_user-eq-false k s.users free, eq_refl)

  inserted-ChangesOnly : ChangesOnly k s inserted
  inserted-ChangesOnly =
      subst (λ o. ChangesOnly k s o.1) inserted_lem
        (insert_user-ChangesOnly k s (some (or_text name "")) (some (or_text email ""))
          (some "true") (or_text by "admin"))

  -- With an invalid role among the given ones, createUser throws, and the user stays: its row is
  -- stored and active.
  pub create_user_invalid :
      (roles : Option (List String))
      → has_user k s.users ≡ false
      → all safe_roles (given_roles roles) ≡ false
      → (q : String) × ((create_user k name email roles by s).0 ≡ err (invalid_role q))
        × (stored_user k (create_user k name email roles by s).1 ≡ some (created k name email by s))
  create_user_invalid roles free bad =
      let granted_by = or_text by "admin" in
      let names = given_roles roles in
      let (q, thrown, users) = add_checked_roles_bad k granted_by names inserted bad r in
      let step =
        bind_err (add_checked_roles k granted_by names) (λ _. invalidate_user_cache k) inserted
          thrown in
      rw (enter roles free, inserted_lem, step) (q, refl, stored_user-inserted _ users free)

  -- A new key with valid roles succeeds: the row is stored, the roles are added to those that the
  -- key has, and the caches are coherent.
  pub create_user_lem :
      (roles : Option (List String))
      → IsCoherent s
      → has_user k s.users ≡ false
      → all safe_roles (given_roles roles) ≡ true
      → ((create_user k name email roles by s).0 ≡ ok tt)
        × (stored_user k (create_user k name email roles by s).1 ≡ some (created k name email by s))
        × (stored_roles k (create_user k name email roles by s).1
            ≡ stored_roles k s ++ given_roles roles)
        × IsCoherent (create_user k name email roles by s).1
  create_user_lem roles c free good =
      let granted_by = or_text by "admin" in
      let names = given_roles roles in
      let h = add_roles-Adds k granted_by names inserted r in
      let same = add_checked_roles_ok k granted_by names inserted good r in
      let only = ChangesOnly-trans inserted-ChangesOnly h.only in
      let step =
        bind_ok (add_checked_roles k granted_by names) (λ _. invalidate_user_cache k) inserted
          (ap (λ o. o.0) same ∙ h.done) in
      rw (enter roles free, inserted_lem, step, same)
        (
          unfold invalidate_user_cache in refl,
          unfold invalidate_user_cache in
              stored_user-inserted
                (invalidate_user_cache k (add_roles k granted_by names inserted).1).1 h.users free,
          unfold invalidate_user_cache stored_roles in h.now,
          invalidate_user_cache-IsCoherent c only,
        )
