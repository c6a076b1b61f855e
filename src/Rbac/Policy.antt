-- ===== src/Rbac/Policy.antt =====
-- What checkAccess of src/rbac.js decides, against a description of the policy on the tables.
use ichibi_lake.Base.{
  String, ◌≡◌, ◌≢◌, ◌↔◌, ◌⊎◌, inl, inr, refl, ap, sym, ◌∙◌, Bool, true, false, ◌&&◌, Option, none,
  some, List, arith, eq_iff, includes, Bool-cases, Option-cases,
}
use mathlib.Core.Path.{ap₂}
use ichibi_lake.Base.Exec.{ok, bind_ok, pure, ◌>>=◌}
use ichibi_lake.Rbac.Store.{User, State, Act}
use ichibi_lake.Rbac.Lookups.{
  stored_user, stored_roles, stored_permission, find_user, get_user_roles, get_table_permission,
}
use ichibi_lake.Rbac.Access.{is_text, active, grants, check_user, check_access}
use ichibi_lake.Rbac.Keys.{NoColon}
use ichibi_lake.Rbac.Coherence.{
  IsCoherent, SameTables, SameTables-refl, SameTables-trans, SameTables-stored_roles,
  SameTables-stored_permission,
}
use ichibi_lake.Rbac.Reads.{
  find_user-eq, find_user-IsCoherent, find_user-SameTables, get_user_roles-eq,
  get_user_roles-IsCoherent, get_user_roles-SameTables, get_table_permission-eq,
  get_table_permission-IsCoherent, get_table_permission-SameTables,
}

abbrev pub Holds : String → List String → Type 0
Holds role roles = includes role roles ≡ true

-- What entitles an active user to an access, unless the table denies him.
abbrev pub Entitled : List String → Option String → String → Type 0
Entitled roles perm required =
    Holds "superuser" roles
    ⊎ ((required ≡ "write") × ((perm ≡ some "allow_write") ⊎ Holds "writer" roles))
    ⊎ ((required ≡ "read")
        × ((perm ≡ some "allow_read")
            ⊎ (perm ≡ some "allow_write")
            ⊎ Holds "writer" roles
            ⊎ Holds "reader" roles))

pub record IsPermitted (k t required : String) (s : State) : Type 0 where
  pub user : User
  pub stored : stored_user k s ≡ some user
  pub active : user.is_active ≡ some "true"
  pub not_denied : stored_permission k t s ≢ some "deny"
  pub entitled : Entitled (stored_roles k s) (stored_permission k t s) required

is_text_iff : (o : Option String) (t : String) → (is_text o t ≡ true) ↔ (o ≡ some t)
is_text_iff none t = ground arith
is_text_iff (some s) t = ground (arith, eq_iff s t)

pub active_iff : (u : User) → (active u ≡ true) ↔ (u.is_active ≡ some "true")
unfolding active
active_iff u = is_text_iff u.is_active "true"

write-ne-read : ◌≢◌ {A = String} "write" "read"
write-ne-read = ground (arith, eq_iff "write" "read")

grants_iff :
    (roles : List String) (perm : Option String) (required : String)
    → (grants roles perm required ≡ true) ↔ ((perm ≢ some "deny") × Entitled roles perm required)
unfolding grants
grants_iff roles perm required = ground (
  arith,
  is_text_iff perm "deny",
  is_text_iff perm "allow_write",
  is_text_iff perm "allow_read",
  eq_iff required "write",
  eq_iff required "read",
  write-ne-read,
)

-- The decision on the tables: what check_access computes when no cache entry is stale.
decide : String → String → String → State → Option User → Bool
decide k t required s none = false
decide k t required s (some u) =
    active u && grants (stored_roles k s) (stored_permission k t s) required

pub verdict : String → String → String → State → Bool
verdict k t required s = decide k t required s (stored_user k s)

decide-SameTables :
    {s s' : State} (k t required : String) (o : Option User)
    → SameTables s s'
    → decide k t required s' o ≡ decide k t required s o
unfolding decide
decide-SameTables k t required none same = refl
decide-SameTables k t required (some u) same =
    rw (SameTables-stored_roles same k, SameTables-stored_permission same k t)

pub verdict_iff :
    (k t required : String) (s : State)
    → (verdict k t required s ≡ true) ↔ IsPermitted k t required s
unfolding verdict decide
verdict_iff k t required s = (
  λ h. elim (Option-cases (stored_user k s)) [
    | inl missing ↦ cc (sym h, ap (decide k t required s) missing)
    | inr (u, found) ↦
        let roles = stored_roles k s in
        let perm = stored_permission k t s in
        let both : (active u && grants roles perm required) ≡ true =
          sym (ap (decide k t required s) found) ∙ h in
        let (not_denied, entitled) = (grants_iff roles perm required).0 (ground arith) in
        record {
          user = u;
          stored = found;
          active = (active_iff u).0 (ground arith);
          not_denied = not_denied;
          entitled = entitled;
        }
  ],
  λ p.
      ap (decide k t required s) p.stored
      ∙ ap₂ ◌&&◌ ((active_iff p.user).1 p.active) (
          (grants_iff (stored_roles k s) (stored_permission k t s) required).1
            (p.not_denied, p.entitled)),
)

module _ (k t required : String) (plain : NoColon t) where
  -- The two reads that follow for an active user.
  abbrev reads : Act Bool
  reads = get_user_roles k >>= λ roles.
      get_table_permission k t >>= λ perm. pure (grants roles perm required)

  reads-eq :
      (s : State)
      → IsCoherent s
      → s.ready ≡ true
      → ((reads s).0 ≡ ok (grants (stored_roles k s) (stored_permission k t s) required))
        × SameTables s (reads s).1
        × IsCoherent (reads s).1
  reads-eq s c r =
      let s1 = (get_user_roles k s).1 in
      let same1 = get_user_roles-SameTables k s in
      let c1 = get_user_roles-IsCoherent k s c r in
      let r1 : s1.ready ≡ true = same1.ready ∙ r in
      let perm_eq =
        get_table_permission-eq k t s1 c1.perms plain r1
        ∙ ap ok (SameTables-stored_permission same1 k t) in
      rw
        (
          bind_ok (get_user_roles k)
              (λ roles. get_table_permission k t >>= λ perm. pure (grants roles perm required)) s
              (get_user_roles-eq k s c.roles r),
          bind_ok (get_table_permission k t)
              (λ perm. pure (grants (stored_roles k s) perm required)) s1 perm_eq,
        )
        (
          refl,
          SameTables-trans same1 (get_table_permission-SameTables k s1 t),
          get_table_permission-IsCoherent k t s1 c1 plain r1,
        )

  check_user-eq :
      (o : Option User) (s : State)
      → IsCoherent s
      → s.ready ≡ true
      → ((check_user k t required o s).0 ≡ ok (decide k t required s o))
        × SameTables s (check_user k t required o s).1
        × IsCoherent (check_user k t required o s).1
  unfolding check_user decide
  check_user-eq none s c r = (refl, SameTables-refl s, c)
  check_user-eq (some u) s c r = elim (Bool-cases (active u)) [
    | inl live ↦ rw live (reads-eq s c r)
    | inr dead ↦ rw dead (refl, SameTables-refl s, c)
  ]

  check_access-eq-verdict :
      (s : State)
      → IsCoherent s
      → s.ready ≡ true
      → ((check_access k t required s).0 ≡ ok (verdict k t required s))
        × SameTables s (check_access k t required s).1
        × IsCoherent (check_access k t required s).1
  unfolding check_access verdict
  check_access-eq-verdict s c r =
      let s1 = (find_user k s).1 in
      let same1 = find_user-SameTables k s in
      let c1 = find_user-IsCoherent k s c r in
      let (answer, same2, c2) = check_user-eq (stored_user k s) s1 c1 (same1.ready ∙ r) in
      rw (bind_ok (find_user k) (check_user k t required) s (find_user-eq k s c.users r)) (
        answer ∙ ap ok (decide-SameTables k t required (stored_user k s) same1),
        SameTables-trans same1 same2,
        c2,
      )

-- From coherent caches and for a table name without a colon, checkAccess returns an answer, which
-- is `true` exactly when the tables permit the access: the user is stored and active, the table
-- does not deny him, and a role or a table permission entitles him. No table changes, and the
-- caches stay coherent.
pub check_access_iff :
    (k t required : String) (s : State)
    → NoColon t
    → IsCoherent s
    → s.ready ≡ true
    → (b : Bool) × ((check_access k t required s).0 ≡ ok b)
      × ((b ≡ true) ↔ IsPermitted k t required s)
      × SameTables s (check_access k t required s).1
      × IsCoherent (check_access k t required s).1
check_access_iff k t required s plain c r =
    let (answer, same, c') = check_access-eq-verdict k t required plain s c r in
    (verdict k t required s, answer, verdict_iff k t required s, same, c')

pub check_access_denied :
    (k t required : String) (s : State)
    → NoColon t
    → IsCoherent s
    → s.ready ≡ true
    → stored_permission k t s ≡ some "deny"
    → (check_access k t required s).0 ≡ ok false
check_access_denied k t required s plain c r denied =
    let (b, answer, iff, _, _) = check_access_iff k t required s plain c r in
    elim (Bool-cases b) [
      | inl granted ↦ absurd ((iff.0 granted).not_denied denied)
      | inr refused ↦ answer ∙ ap ok refused
    ]
