-- ===== src/Rbac/Updates.antt =====
-- updateUser of src/rbac.js: what it does to the tables and to the caches.
use ichibi_lake.Base.{
  String, ◌≡◌, ◌≢◌, refl, ap, sym, ◌∙◌, true, false, Option, none, some, List, [], ◌∷◌, map, arith,
  head?, inl, inr, Bool-cases,
}
use ichibi_lake.Base.Exec.{ok, ◌>>◌, bind_ok}
use ichibi_lake.Rbac.Store.{User, State, Act, is_user, update_users, invalidate_user_cache}
use ichibi_lake.Rbac.Tables.{KeepsKey, user_rows-update_self}
use ichibi_lake.Rbac.Lookups.{stored_user, find_user}
use ichibi_lake.Rbac.Admin.{
  Updates, gives_any, apply_updates, write_updates, require_user, update_user,
}
use ichibi_lake.Rbac.Coherence.{IsCoherent, SameTables-stored_user}
use ichibi_lake.Rbac.Reads.{find_user-eq, find_user-IsCoherent, find_user-SameTables}
use ichibi_lake.Rbac.Locality.{
  ChangesOnly, ChangesOnly-refl, update_users-ChangesOnly, invalidate_user_cache-IsCoherent,
}

pub head?-map {ℓ} :
    {A : Type ℓ} (f : A → A) (xs : List A) {a : A}
    → head? xs ≡ some a
    → head? (map f xs) ≡ some (f a)
head?-map f [] h = cc
head?-map f (x ∷ xs) h = ground arith

nothing_given : (up : Updates) (u : User) → gives_any up ≡ false → apply_updates up u ≡ u
unfolding gives_any apply_updates
nothing_given up u h = ground arith

-- UPDATE _rbac_users on a user that is there.
pub update_users_lem :
    (k : String) (f : User → User) (s : State) {u : User}
    → KeepsKey f
    → s.ready ≡ true
    → stored_user k s ≡ some u
    → ((update_users (is_user k) f s).0 ≡ ok tt)
      × ((update_users (is_user k) f s).1.ready ≡ true)
      × (stored_user k (update_users (is_user k) f s).1 ≡ some (f u))
unfolding update_users stored_user
update_users_lem k f s keeps r found =
    let rows = user_rows-update_self k f s.users keeps in
    simp r (refl, refl, ap head? rows ∙ head?-map f _ found)

-- What follows the lookup in updateUser.
abbrev rest : String → Updates → Option User → Act (Unit {0})
rest k up o = require_user k o >> (write_updates k up >> invalidate_user_cache k)

module _ (k : String) (up : Updates) (s : State) where
  write_updates-ChangesOnly : ChangesOnly k s (write_updates k up s).1
  unfolding write_updates
  write_updates-ChangesOnly = elim (Bool-cases (gives_any up)) [
    | inl some_given ↦
        rw some_given
          (update_users-ChangesOnly k s (apply_updates up) (λ u. unfold apply_updates in refl))
    | inr none_given ↦ rw none_given (ChangesOnly-refl k s)
  ]

  write_updates_lem :
      {u : User}
      → s.ready ≡ true
      → stored_user k s ≡ some u
      → ((write_updates k up s).0 ≡ ok tt)
        × ((write_updates k up s).1.ready ≡ true)
        × (stored_user k (write_updates k up s).1 ≡ some (apply_updates up u))
  unfolding write_updates
  write_updates_lem {u} r found = elim (Bool-cases (gives_any up)) [
    | inl some_given ↦
        rw some_given
          (update_users_lem k (apply_updates up) s (λ v. unfold apply_updates in refl) r found)
    | inr none_given ↦
        rw none_given (refl, r, found ∙ ap some (sym (nothing_given up u none_given)))
  ]

  rest_found :
      {u : User}
      → s.ready ≡ true
      → stored_user k s ≡ some u
      → IsCoherent s
      → ((rest k up (some u) s).0 ≡ ok tt)
        × ((rest k up (some u) s).1.ready ≡ true)
        × (stored_user k (rest k up (some u) s).1 ≡ some (apply_updates up u))
        × IsCoherent (rest k up (some u) s).1
        × ((j : String) → k ≢ j → stored_user j (rest k up (some u) s).1 ≡ stored_user j s)
  unfolding require_user
  rest_found r found c =
      let (done, r', now) = write_updates_lem r found in
      let only = write_updates-ChangesOnly in
      rw (bind_ok (write_updates k up) (λ _. invalidate_user_cache k) s done) (
        unfold invalidate_user_cache stored_user in refl,
        unfold invalidate_user_cache in r',
        unfold invalidate_user_cache stored_user in now,
        invalidate_user_cache-IsCoherent c only,
        λ j ne. unfold invalidate_user_cache stored_user in only.users_at j ne,
      )

-- updateUser on a stored user: its row becomes what apply_updates makes of it.
pub update_user_lem :
    (k : String) (up : Updates) (s : State) {u : User}
    → IsCoherent s
    → s.ready ≡ true
    → stored_user k s ≡ some u
    → ((update_user k up s).0 ≡ ok tt)
      × ((update_user k up s).1.ready ≡ true)
      × (stored_user k (update_user k up s).1 ≡ some (apply_updates up u))
      × IsCoherent (update_user k up s).1
      × ((j : String) → k ≢ j → stored_user j (update_user k up s).1 ≡ stored_user j s)
unfolding update_user
update_user_lem k up s {u} c r found =
    let s1 = (find_user k s).1 in
    let same = find_user-SameTables k s in
    let read = find_user-eq k s c.users r ∙ ap ok found in
    let (a, b, d, e, f) =
      rest_found k up s1 (same.ready ∙ r) (SameTables-stored_user same k ∙ found)
        (find_user-IsCoherent k s c r) in
    rw (bind_ok (find_user k) (rest k up) s read)
      (a, b, d, e, λ j ne. f j ne ∙ SameTables-stored_user same j)

-- The column keeps its value when no update is given for it, and else has the given one.
abbrev pub Column : Option String → Option String → Option String → Type 0
Column given old now = (given ≡ none → now ≡ old) × ((x : String) → given ≡ some x → now ≡ some x)

-- The row after an update, column by column.
pub record Updated (up : Updates) (u v : User) : Type 0 where
  pub api_key : v.api_key ≡ u.api_key
  pub name : Column up.name u.name v.name
  pub email : Column up.email u.email v.email
  pub kept : up.is_active ≡ none → v.is_active ≡ u.is_active
  pub activated : up.is_active ≡ some true → v.is_active ≡ some "true"
  pub deactivated : up.is_active ≡ some false → v.is_active ≡ some "false"
  pub created_at : v.created_at ≡ u.created_at
  pub created_by : v.created_by ≡ u.created_by

apply_updates-Updated : (up : Updates) (u : User) → Updated up u (apply_updates up u)
unfolding apply_updates
apply_updates-Updated up u = record {
  api_key = refl;
  name = (λ h. rw h refl, λ x h. rw h refl);
  email = (λ h. rw h refl, λ x h. rw h refl);
  kept = λ h. rw h refl;
  activated = λ h. rw h refl;
  deactivated = λ h. rw h refl;
  created_at = refl;
  created_by = refl;
}

-- Where the tables are there and the caches coherent, updateUser on a stored user succeeds; its row
-- then has the given name and email and is_active 'true' or 'false' as given, keeps every column
-- that is not given and its key, creation time and creator; no other user changes, and the caches
-- stay coherent.
pub update_user_columns :
    (k : String) (up : Updates) (s : State) (u : User)
    → IsCoherent s
    → s.ready ≡ true
    → stored_user k s ≡ some u
    → ((update_user k up s).0 ≡ ok tt)
      × ((v : User) × (stored_user k (update_user k up s).1 ≡ some v) × Updated up u v)
      × ((j : String) → k ≢ j → stored_user j (update_user k up s).1 ≡ stored_user j s)
      × IsCoherent (update_user k up s).1
update_user_columns k up s u c r found =
    let (done, _, now, c', others) = update_user_lem k up s c r found in
    (done, (apply_updates up u, now, apply_updates-Updated up u), others, c')
