-- ===== src/Rbac/Locality.antt =====
-- The writes of src/rbac.js to one user leave the rows and roles of the others, and the table
-- permissions, as they are; so dropping that user's cache entries restores coherence.
use ichibi_lake.Base.{
  ℕ, String, ◌≡◌, ◌≢◌, refl, ap, sym, ◌∙◌, Bool, true, false, Option, some, List, [], ◌∷◌, ◌++◌,
  arith, ◌==◌, eq_iff, head?, append-nil, Bool-cases, if◌then◌else◌, inl, inr,
}
use mathlib.Core.Path.{ap₂}
use ichibi_lake.Base.Dict.{Dict, lookup, erase, lookup-erase}
use ichibi_lake.Rbac.Store.{
  User, RoleRow, Cached, State, is_user, invalidate_user_cache, insert_user, insert_role,
  update_users, delete_roles, user_rows, roles_of, perm_rows,
}
use ichibi_lake.Rbac.Tables.{
  KeepsKey, user_rows-append, user_rows-update_ne, roles_of-append, roles_of-delete,
}
use ichibi_lake.Rbac.Lookups.{
  fresh, cache_key, stored_user, stored_roles, stored_permission, first_permission,
}
use ichibi_lake.Rbac.Coherence.{IsCoherent}

pub record ChangesOnly (k : String) (s s' : State) : Type 0 where
  pub now : s'.now ≡ s.now
  pub user_cache : s'.user_cache ≡ s.user_cache
  pub role_cache : s'.role_cache ≡ s.role_cache
  pub perm_cache : s'.perm_cache ≡ s.perm_cache
  pub perms : s'.perms ≡ s.perms
  pub users_at : (j : String) → k ≢ j → stored_user j s' ≡ stored_user j s
  pub roles_at : (j : String) → k ≢ j → stored_roles j s' ≡ stored_roles j s

pub ChangesOnly-refl : (k : String) (s : State) → ChangesOnly k s s
ChangesOnly-refl k s = record {
  now = refl;
  user_cache = refl;
  role_cache = refl;
  perm_cache = refl;
  perms = refl;
  users_at = λ j _. refl;
  roles_at = λ j _. refl;
}

pub ChangesOnly-trans :
    {k : String} {s t u : State} → ChangesOnly k s t → ChangesOnly k t u → ChangesOnly k s u
ChangesOnly-trans a b = record {
  now = b.now ∙ a.now;
  user_cache = b.user_cache ∙ a.user_cache;
  role_cache = b.role_cache ∙ a.role_cache;
  perm_cache = b.perm_cache ∙ a.perm_cache;
  perms = b.perms ∙ a.perms;
  users_at = λ j h. b.users_at j h ∙ a.users_at j h;
  roles_at = λ j h. b.roles_at j h ∙ a.roles_at j h;
}

user_rows_other : {k j : String} → k ≢ j → (u : User) → u.api_key ≡ k → user_rows j (u ∷ []) ≡ []
unfolding user_rows
user_rows_other {k} {j} ne u e = ground (arith, eq_iff u.api_key j)

roles_of_other : {k j : String} → k ≢ j → (r : RoleRow) → r.api_key ≡ k → roles_of j (r ∷ []) ≡ []
unfolding roles_of
roles_of_other {k} {j} ne r e = ground (arith, eq_iff r.api_key j)

-- What holds of both states that a test chooses from holds of the one chosen.
pub chosen_state :
    {A : Type 0} (P : State → Type 0) (b : Bool) (x y : A × State)
    → P x.1
    → P y.1
    → P (if b then x else y).1
chosen_state P true x y p q = p
chosen_state P false x y p q = q

module _ (k : String) (s : State) where
  -- A statement that changes no table but the users and the roles, and those of `k` alone.
  local :
      (users : List User) (roles : List RoleRow)
      → ((j : String) → k ≢ j → user_rows j users ≡ user_rows j s.users)
      → ((j : String) → k ≢ j → roles_of j roles ≡ roles_of j s.roles)
      → ChangesOnly k s (record s { users = users; roles = roles })
  local users roles hu hr = record {
    now = refl;
    user_cache = refl;
    role_cache = refl;
    perm_cache = refl;
    perms = refl;
    users_at = λ j ne. unfold stored_user in ap head? (hu j ne);
    roles_at = λ j ne. unfold stored_roles in hr j ne;
  }

  pub update_users-ChangesOnly :
      (f : User → User) → KeepsKey f → ChangesOnly k s (update_users (is_user k) f s).1
  unfolding update_users
  update_users-ChangesOnly f keeps =
      chosen_state (ChangesOnly k s) s.ready _ _
        (local _ s.roles
          (λ j.
            user_rows-update_ne k j (is_user k) f s.users keeps (λ u h. (eq_iff u.api_key k).0 h))
          (λ j _. refl))
        (ChangesOnly-refl k s)

  pub insert_user-ChangesOnly :
      (name email is_active : Option String) (by : String)
      → ChangesOnly k s (insert_user k name email is_active by s).1
  unfolding insert_user
  insert_user-ChangesOnly name email is_active by =
      chosen_state (ChangesOnly k s) s.ready _ _
        (local _ s.roles
          (λ j ne.
            user_rows-append j s.users _
            ∙ ap (λ r. user_rows j s.users ++ r) (user_rows_other ne _ refl)
            ∙ append-nil _)
          (λ j _. refl))
        (ChangesOnly-refl k s)

  pub insert_role-ChangesOnly : (r by : String) → ChangesOnly k s (insert_role k r by s).1
  unfolding insert_role
  insert_role-ChangesOnly r by =
      chosen_state (ChangesOnly k s) s.ready _ _
        (local s.users _ (λ j _. refl)
          (λ j ne.
            roles_of-append j s.roles _
            ∙ ap (λ q. roles_of j s.roles ++ q) (roles_of_other ne _ refl)
            ∙ append-nil _))
        (ChangesOnly-refl k s)

  pub delete_roles-ChangesOnly : ChangesOnly k s (delete_roles k s).1
  unfolding delete_roles
  delete_roles-ChangesOnly =
      chosen_state (ChangesOnly k s) s.ready _ _
        (local s.users _ (λ j _. refl)
          (λ j ne. ground (arith, roles_of-delete k j s.roles, eq_iff k j)))
        (ChangesOnly-refl k s)

-- What a lookup finds fresh after a `delete` was there before, under another key.
pub fresh-erase :
    {A : Type 0} (now : ℕ) (k j : String) (m : Dict (Cached A)) {a : A}
    → fresh now (lookup j (erase k m)) ≡ some a
    → (k ≢ j) × (fresh now (lookup j m) ≡ some a)
unfolding fresh
fresh-erase now k j m h =
    let e = lookup-erase k j m in
    elim (Bool-cases (k == j)) [
      | inl same ↦ absurd (ground (arith, e))
      | inr other ↦ (ground (arith, eq_iff k j), ground (arith, e))
    ]

-- invalidateUserCache after writes to one user: the caches are coherent again.
pub invalidate_user_cache-IsCoherent :
    {k : String} {s s' : State}
    → IsCoherent s
    → ChangesOnly k s s'
    → IsCoherent (invalidate_user_cache k s').1
unfolding invalidate_user_cache stored_user stored_roles stored_permission
invalidate_user_cache-IsCoherent {k} {s} {s'} c h = record {
  users = record {
    at = λ j u found.
        let (ne, old) = fresh-erase s'.now k j s'.user_cache found in
        c.users.at j u (ap₂ (λ n m. fresh n (lookup j m)) (sym h.now) (sym h.user_cache) ∙ old)
        ∙ sym (h.users_at j ne);
  };
  roles = record {
    at = λ j rs found.
        let (ne, old) = fresh-erase s'.now k j s'.role_cache found in
        c.roles.at j rs (ap₂ (λ n m. fresh n (lookup j m)) (sym h.now) (sym h.role_cache) ∙ old)
        ∙ sym (h.roles_at j ne);
  };
  perms = record {
    at = λ j t p plain found.
        let (_, old) = fresh-erase s'.now k (cache_key j t) s'.perm_cache found in
        c.perms.at j t p plain
          (ap₂ (λ n m. fresh n (lookup (cache_key j t) m)) (sym h.now) (sym h.perm_cache) ∙ old)
        ∙ ap (λ ps. first_permission (perm_rows j t ps)) (sym h.perms);
  };
}
