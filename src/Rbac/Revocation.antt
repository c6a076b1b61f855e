-- ===== src/Rbac/Revocation.antt =====
-- isValidApiKey of src/rbac.js, and what deactivating a user by updateUser takes away.
use ichibi_lake.Base.{
  String, ◌≡◌, ◌≢◌, ap, ◌∙◌, true, false, none, some, inl, inr, Bool-cases, Option-cases,
}
use ichibi_lake.Base.Exec.{ok, pure, bind_ok}
use ichibi_lake.Rbac.Store.{User, State}
use ichibi_lake.Rbac.Lookups.{stored_user, find_user}
use ichibi_lake.Rbac.Access.{active, valid_user, is_valid_api_key, check_access}
use ichibi_lake.Rbac.Admin.{Updates, apply_updates, update_user}
use ichibi_lake.Rbac.Keys.{NoColon}
use ichibi_lake.Rbac.Coherence.{UsersAgree, IsCoherent}
use ichibi_lake.Rbac.Reads.{find_user-eq}
use ichibi_lake.Rbac.Policy.{active_iff, check_access_iff}
use ichibi_lake.Rbac.Updates.{update_user_lem}

-- From user entries that agree with the table, isValidApiKey answers whether the stored user is
-- active.
pub is_valid_api_key-eq :
    (k : String) (s : State)
    → UsersAgree s
    → s.ready ≡ true
    → (is_valid_api_key k s).0 ≡ ok (valid_user (stored_user k s))
unfolding is_valid_api_key
is_valid_api_key-eq k s a r =
    rw (bind_ok (find_user k) (λ o. pure (valid_user o)) s (find_user-eq k s a r))

inactive : (u : User) → u.is_active ≡ some "false" → active u ≡ false
unfolding active
inactive u h = rw h

-- Where the tables are there and the caches coherent, deactivating a stored user by updateUser
-- succeeds, whatever other columns it sets. In the state right after the call, and in the process
-- that made it, his key is not valid, and every access to a table whose name has no colon is refused,
-- also where his entry in the user cache has not expired.
pub update_user_revokes :
    (k : String) (up : Updates) (s : State)
    → IsCoherent s
    → s.ready ≡ true
    → stored_user k s ≢ none
    → up.is_active ≡ some false
    → ((update_user k up s).0 ≡ ok tt)
      × ((is_valid_api_key k (update_user k up s).1).0 ≡ ok false)
      × ((t required : String)
          → NoColon t
          → (check_access k t required (update_user k up s).1).0 ≡ ok false)
update_user_revokes k up s c r known off = elim (Option-cases (stored_user k s)) [
  | inl missing ↦ absurd (known missing)
  | inr (u, found) ↦
      let (done, r', now, c', _) = update_user_lem k up s c r found in
      let dead : active (apply_updates up u) ≡ false =
        inactive (apply_updates up u) (unfold apply_updates in rw off) in
      (
        done,
        is_valid_api_key-eq k (update_user k up s).1 c'.users r'
            ∙ ap (λ o. ok (valid_user o)) now
            ∙ ap ok (unfold valid_user in dead),
        λ t required plain.
            let (b, answer, iff, _, _) =
              check_access_iff k t required (update_user k up s).1 plain c' r' in
            elim (Bool-cases b) [
              | inl granted ↦
                  let p = iff.0 granted in
                  let live : active p.user ≡ true = (active_iff p.user).1 p.active in
                  absurd (cc (dead, live, now, p.stored))
              | inr refused ↦ answer ∙ ap ok refused
            ],
      )
]
