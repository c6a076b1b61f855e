-- ===== src/Rbac/Sync.antt =====
-- syncLegacyApiKeys of src/rbac.js: a key taken off the API_KEYS list is revoked, and what the
-- assignment in its `finally` block leaves in the environment.
use mathlib.Core.Path.{subst}
use ichibi_lake.Base.{
  String, ◌≡◌, refl, sym, Bool, true, some, List, [], ◌∷◌, arith, ◌==◌, eq_iff, update_where,
  includes, inl, inr, Bool-cases, All,
}
use ichibi_lake.Base.Exec.{Result, ok}
use ichibi_lake.Rbac.Store.{State, User, Failure, user_rows, update_users}
use ichibi_lake.Rbac.Tables.{KeepsKey}
use ichibi_lake.Rbac.Bootstrap.{set_active, is_legacy_user, deactivate_legacy, for_each}

-- Every row of the key was created by the legacy bootstrap; every row of the key is inactive.
abbrev pub IsLegacy : String → List User → Type 0
IsLegacy k us = All (λ u. u.created_by ≡ some "legacy-bootstrap") (user_rows k us)

abbrev pub IsRevoked : String → List User → Type 0
IsRevoked k us = All (λ u. u.is_active ≡ some "false") (user_rows k us)

abbrev deactivated : String → List User → List User
deactivated j us = update_where (is_legacy_user j) (set_active "false") us

-- An UPDATE that keeps the keys commutes with the selection of a key's rows.
user_rows-update :
    (k : String) (p : User → Bool) (f : User → User) (us : List User)
    → KeepsKey f
    → user_rows k (update_where p f us) ≡ update_where p f (user_rows k us)
unfolding user_rows
user_rows-update k p f [] keeps = refl
user_rows-update k p f (u ∷ us) keeps = ground (arith, user_rows-update k p f us keeps, keeps u)

user_rows-key : (k : String) (us : List User) → All (λ u. (u.api_key == k) ≡ true) (user_rows k us)
unfolding user_rows
user_rows-key k [] = tt
user_rows-key k (u ∷ us) = elim (Bool-cases (u.api_key == k)) [
  | inl here ↦ rw here (here, user_rows-key k us)
  | inr there ↦ rw there (user_rows-key k us)
]

module _ {P Q R : User → Type 0} where
  All-both : (xs : List User) → ((u : User) → P u → Q u → R u) → All P xs → All Q xs → All R xs
  All-both [] f h g = tt
  All-both (x ∷ xs) f (p, h) (q, g) = (f x p q, All-both xs f h g)

module _ (P : User → Type 0) (p : User → Bool) (f : User → User) where
  All-update_keep :
      (xs : List User) → ((u : User) → P u → P (f u)) → All P xs → All P (update_where p f xs)
  All-update_keep [] keep h = tt
  All-update_keep (x ∷ xs) keep (px, h) = elim (Bool-cases (p x)) [
    | inl changed ↦ rw changed (keep x px, All-update_keep xs keep h)
    | inr same ↦ rw same (px, All-update_keep xs keep h)
  ]

  All-update_make :
      (xs : List User)
      → ((u : User) → P (f u))
      → All (λ u. p u ≡ true) xs
      → All P (update_where p f xs)
  All-update_make [] make h = tt
  All-update_make (x ∷ xs) make (px, h) = rw px (make x, All-update_make xs make h)

deactivated-IsLegacy :
    (j k : String) (us : List User) → IsLegacy k us → IsLegacy k (deactivated j us)
deactivated-IsLegacy j k us h =
    rw (user_rows-update k (is_legacy_user j) (set_active "false") us (λ u. refl)) (
      All-update_keep (λ u. u.created_by ≡ some "legacy-bootstrap") (is_legacy_user j)
        (set_active "false") (user_rows k us) (λ u old. old) h)

deactivated-keeps :
    (j k : String) (us : List User) → IsRevoked k us → IsRevoked k (deactivated j us)
deactivated-keeps j k us h =
    rw (user_rows-update k (is_legacy_user j) (set_active "false") us (λ u. refl)) (
      All-update_keep (λ u. u.is_active ≡ some "false") (is_legacy_user j) (set_active "false")
        (user_rows k us) (λ u old. refl) h)

legacy_row :
    (k : String) (u : User)
    → (u.api_key == k) ≡ true
    → u.created_by ≡ some "legacy-bootstrap"
    → is_legacy_user k u ≡ true
unfolding is_legacy_user
legacy_row k u key by = rw (key, by)

deactivated-IsRevoked :
    (k : String) (us : List User) → IsLegacy k us → IsRevoked k (deactivated k us)
deactivated-IsRevoked k us h =
    rw (user_rows-update k (is_legacy_user k) (set_active "false") us (λ u. refl)) (
      All-update_make (λ u. u.is_active ≡ some "false") (is_legacy_user k) (set_active "false")
        (user_rows k us) (λ u. refl)
        (All-both (user_rows k us) (legacy_row k) (user_rows-key k us) h))

-- What the loop over the removed keys makes of `s`.
pub record Deactivates (ks : List String) (s : State) (out : Result Failure (Unit {0}) × State)
    : Type 0 where
  pub done : out.0 ≡ ok tt
  pub ready : out.1.ready ≡ true
  pub env : out.1.env ≡ s.env
  pub kept : (k : String) → IsRevoked k s.users → IsRevoked k out.1.users
  pub revoked : (k : String) → includes k ks ≡ true → IsLegacy k s.users → IsRevoked k out.1.users

pub deactivate_legacy-Deactivates :
    (ks : List String) (s : State)
    → s.ready ≡ true
    → Deactivates ks s (for_each deactivate_legacy ks s)
deactivate_legacy-Deactivates [] s r = record {
  done = refl;
  ready = r;
  env = refl;
  kept = λ k h. h;
  revoked = λ k m h. cc;
}
deactivate_legacy-Deactivates (j ∷ ks) s r =
    let s1 : State = record s { users = deactivated j s.users } in
    let step : deactivate_legacy j s ≡ (ok tt, s1) =
      unfold deactivate_legacy update_users in simp r in
    let h = deactivate_legacy-Deactivates ks s1 r in
    rw step (record {
      done = h.done;
      ready = h.ready;
      env = h.env;
      kept = λ k old. h.kept k (deactivated-keeps j k s.users old);
      revoked = λ k m legacy. elim (Bool-cases (j == k)) [
        | inl same ↦ h.kept k (
            subst (λ x. IsRevoked k (deactivated x s.users)) (sym ((eq_iff j k).0 same))
              (deactivated-IsRevoked k s.users legacy))
        | inr other ↦ h.revoked k (ground arith) (deactivated-IsLegacy j k s.users legacy)
      ];
    })
