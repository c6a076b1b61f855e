-- ===== src/Rbac/RoleUpdates.antt =====
-- setUserRoles of src/rbac.js: all of the roles are checked before any of them is written.
use ichibi_lake.Base.{
  String, ◌≡◌, ◌≢◌, refl, ap, sym, ◌∙◌, true, false, Option, some, List, [], ◌∷◌, ◌++◌, arith,
  eq_iff, eq_refl, all, inl, inr, Bool-cases, append_assoc, append-nil,
}
use ichibi_lake.Base.Text.{or_text}
use ichibi_lake.Base.Exec.{Result, ok, err, ◌>>◌, bind_ok}
use ichibi_lake.Rbac.Store.{
  State, User, RoleRow, Act, Failure, invalid_role, safe_roles, safe_role, insert_role,
  delete_roles, roles_of, invalidate_user_cache,
}
use ichibi_lake.Rbac.Tables.{roles_of-append, roles_of-delete}
use ichibi_lake.Rbac.Lookups.{stored_user, stored_roles, find_user}
use ichibi_lake.Rbac.Admin.{check_roles, add_roles, require_user, set_user_roles}
use ichibi_lake.Rbac.Coherence.{IsCoherent, SameTables, SameTables-stored_roles}
use ichibi_lake.Rbac.Reads.{find_user-eq, find_user-IsCoherent, find_user-SameTables}
use ichibi_lake.Rbac.Locality.{
  ChangesOnly, ChangesOnly-refl, ChangesOnly-trans, insert_role-ChangesOnly,
  delete_roles-ChangesOnly, invalidate_user_cache-IsCoherent,
}

-- The loop that checks reads and writes nothing.
check_roles_ok :
    (roles : List String) (s : State)
    → all safe_roles roles ≡ true
    → check_roles roles s ≡ (ok tt, s)
unfolding check_roles safe_role
check_roles_ok [] s h = refl
check_roles_ok (r ∷ rs) s h = ground (arith, check_roles_ok rs s)

check_roles_bad :
    (roles : List String) (s : State)
    → all safe_roles roles ≡ false
    → (r : String) × (check_roles roles s ≡ (err (invalid_role r), s))
unfolding check_roles safe_role
check_roles_bad [] s h = cc
check_roles_bad (r ∷ rs) s h = elim (Bool-cases (safe_roles r)) [
  | inl good ↦ let (q, e) = check_roles_bad rs s (ground arith) in (q, ground arith)
  | inr bad ↦ (r, rw bad)
]

delete_roles_lem :
    (k : String) (s : State)
    → s.ready ≡ true
    → ((delete_roles k s).0 ≡ ok tt)
      × ((delete_roles k s).1.ready ≡ true)
      × (stored_roles k (delete_roles k s).1 ≡ [])
unfolding delete_roles stored_roles
delete_roles_lem k s r = simp r (refl, refl, roles_of-delete k k s.roles ∙ rw eq_refl)

pub roles_of_one :
    (k : String) (row : RoleRow) → row.api_key ≡ k → roles_of k (row ∷ []) ≡ row.role ∷ []
unfolding roles_of
roles_of_one k row e = ground (arith, eq_iff row.api_key k)

pub insert_role_lem :
    (k r by : String) (s : State)
    → s.ready ≡ true
    → ((insert_role k r by s).0 ≡ ok tt)
      × ((insert_role k r by s).1.ready ≡ true)
      × (stored_roles k (insert_role k r by s).1 ≡ stored_roles k s ++ r ∷ [])
unfolding insert_role stored_roles
insert_role_lem k r by s ready =
    let row : RoleRow = record { api_key = k; role = r; granted_at = s.now; granted_by = by } in
    simp ready (
      refl,
      refl,
      roles_of-append k s.roles (row ∷ [])
          ∙ ap (λ q. roles_of k s.roles ++ q) (roles_of_one k row refl),
    )

pub insert_role-users : (k q by : String) (s : State) → (insert_role k q by s).1.users ≡ s.users
unfolding insert_role
insert_role-users k q by s = ground arith

-- The state, the answer and the roles after a loop that adds `roles` to those of `k`.
pub record Adds (k : String) (roles : List String) (s : State)
    (out : Result Failure (Unit {0}) × State) : Type 0 where
  pub done : out.0 ≡ ok tt
  pub ready : out.1.ready ≡ true
  pub now : stored_roles k out.1 ≡ stored_roles k s ++ roles
  pub users : out.1.users ≡ s.users
  pub only : ChangesOnly k s out.1

pub add_roles-Adds :
    (k by : String) (roles : List String) (s : State)
    → s.ready ≡ true
    → Adds k roles s (add_roles k by roles s)
unfolding add_roles
add_roles-Adds k by [] s r = record {
  done = refl;
  ready = r;
  now = sym (append-nil _);
  users = refl;
  only = ChangesOnly-refl k s;
}
add_roles-Adds k by (role ∷ roles) s r =
    let s1 = (insert_role k role by s).1 in
    let (done, r1, now) = insert_role_lem k role by s r in
    let h = add_roles-Adds k by roles s1 r1 in
    rw (bind_ok (insert_role k role by) (λ _. add_roles k by roles) s done) (record {
      done = h.done;
      ready = h.ready;
      now = h.now ∙ ap (λ rs. rs ++ roles) now ∙ append_assoc (stored_roles k s) (role ∷ []) roles;
      users = h.users ∙ insert_role-users k role by s;
      only = ChangesOnly-trans (insert_role-ChangesOnly k s role by) h.only;
    })

-- What follows the lookup in setUserRoles.
abbrev rest : String → List String → Option String → Option User → Act (Unit {0})
rest k roles by o =
    require_user k o
    >> (check_roles roles
        >> (delete_roles k >> (add_roles k (or_text by "admin") roles >> invalidate_user_cache k)))

rest_good :
    (k : String) (roles : List String) (by : Option String) (u : User) (s : State)
    → all safe_roles roles ≡ true
    → s.ready ≡ true
    → IsCoherent s
    → ((rest k roles by (some u) s).0 ≡ ok tt)
      × (stored_roles k (rest k roles by (some u) s).1 ≡ roles)
      × ((j : String) → k ≢ j → stored_roles j (rest k roles by (some u) s).1 ≡ stored_roles j s)
      × IsCoherent (rest k roles by (some u) s).1
unfolding require_user
rest_good k roles by u s good r c =
    let granted_by = or_text by "admin" in
    let s1 = (delete_roles k s).1 in
    let (done, r1, emptied) = delete_roles_lem k s r in
    let h = add_roles-Adds k granted_by roles s1 r1 in
    let only = ChangesOnly-trans (delete_roles-ChangesOnly k s) h.only in
    rw
      (
        check_roles_ok roles s good,
        bind_ok (delete_roles k) (λ _. add_roles k granted_by roles >> invalidate_user_cache k) s
            done,
        bind_ok (add_roles k granted_by roles) (λ _. invalidate_user_cache k) s1 h.done,
      )
      (
        unfold invalidate_user_cache in refl,
        unfold invalidate_user_cache stored_roles in h.now ∙ ap (λ rs. rs ++ roles) emptied,
        λ j ne. unfold invalidate_user_cache stored_roles in only.roles_at j ne,
        invalidate_user_cache-IsCoherent c only,
      )

rest_bad :
    (k : String) (roles : List String) (by : Option String) (u : User) (s : State)
    → all safe_roles roles ≡ false
    → (r : String) × (rest k roles by (some u) s ≡ (err (invalid_role r), s))
unfolding require_user
rest_bad k roles by u s bad = let (r, e) = check_roles_bad roles s bad in (r, rw e)

module _ (k : String) (roles : List String) (by : Option String) (s : State) {u : User}
    (c : IsCoherent s) (r : s.ready ≡ true) (found : stored_user k s ≡ some u) where
  enter : set_user_roles k roles by s ≡ rest k roles by (some u) (find_user k s).1
  unfolding set_user_roles
  enter = bind_ok (find_user k) (rest k roles by) s (find_user-eq k s c.users r ∙ ap ok found)

  -- On a stored user and valid roles, setUserRoles succeeds: the user's roles are the given ones,
  -- in order, those of the others are as they were, and the caches are coherent.
  pub set_user_roles_lem :
      all safe_roles roles ≡ true
      → ((set_user_roles k roles by s).0 ≡ ok tt)
        × (stored_roles k (set_user_roles k roles by s).1 ≡ roles)
        × ((j : String) → k ≢ j → stored_roles j (set_user_roles k roles by s).1 ≡ stored_roles j s)
        × IsCoherent (set_user_roles k roles by s).1
  set_user_roles_lem good =
      let same = find_user-SameTables k s in
      let (done, now, others, c') =
        rest_good k roles by u (find_user k s).1 good (same.ready ∙ r)
          (find_user-IsCoherent k s c r) in
      rw enter (done, now, λ j ne. others j ne ∙ SameTables-stored_roles same j, c')

  -- With an invalid role among them, setUserRoles throws and changes no table.
  pub set_user_roles_invalid :
      all safe_roles roles ≡ false
      → (q : String) × ((set_user_roles k roles by s).0 ≡ err (invalid_role q))
        × SameTables s (set_user_roles k roles by s).1
  set_user_roles_invalid bad =
      let (q, e) = rest_bad k roles by u (find_user k s).1 bad in
      rw enter (q, ap (λ o. o.0) e, rw e (find_user-SameTables k s))
