-- ===== src/Rbac/Coherence.antt =====
-- When the caches of src/rbac.js agree with the tables.
use ichibi_lake.Base.{
  [], ℕ, ◌+◌, String, ◌≡◌, Option, some, List, arith, ◌==◌, eq_iff, inl, inr, ◌⊎◌, Bool-cases,
}
use ichibi_lake.Base.Dict.{Dict, lookup, insert, lookup-insert}
use ichibi_lake.Rbac.Store.{User, Cached, State}
use ichibi_lake.Rbac.Keys.{NoColon}
use ichibi_lake.Rbac.Lookups.{fresh, cache_key, stored_user, stored_roles, stored_permission}

-- No entry that is still fresh differs from what the table holds.
pub record UsersAgree (s : State) : Type 0 where
  pub at :
      (k : String) (u : Option User)
      → fresh s.now (lookup k s.user_cache) ≡ some u
      → u ≡ stored_user k s

pub record RolesAgree (s : State) : Type 0 where
  pub at :
      (k : String) (rs : List String)
      → fresh s.now (lookup k s.role_cache) ≡ some rs
      → rs ≡ stored_roles k s

pub record PermsAgree (s : State) : Type 0 where
  pub at :
      (k t : String) (p : Option String)
      → NoColon t
      → fresh s.now (lookup (cache_key k t) s.perm_cache) ≡ some p
      → p ≡ stored_permission k t s

pub record IsCoherent (s : State) : Type 0 where
  pub users : UsersAgree s
  pub roles : RolesAgree s
  pub perms : PermsAgree s

-- A read touches the caches only.
pub record SameTables (s s' : State) : Type 0 where
  pub env : s'.env ≡ s.env
  pub now : s'.now ≡ s.now
  pub ready : s'.ready ≡ s.ready
  pub users : s'.users ≡ s.users
  pub roles : s'.roles ≡ s.roles
  pub perms : s'.perms ≡ s.perms

-- What a lookup finds fresh after a `set` was found fresh before, or is what was set.
pub fresh-insert :
    {A : Type 0} (now : ℕ) (k j : String) (c : Cached A) (m : Dict (Cached A)) {a : A}
    → fresh now (lookup j (insert k c m)) ≡ some a
    → ((k ≡ j) × (a ≡ c.value)) ⊎ (fresh now (lookup j m) ≡ some a)
unfolding fresh
fresh-insert now k j c m h = elim (Bool-cases (k == j)) [
  | inl same ↦ let e = lookup-insert k j c m in inl ((eq_iff k j).0 same, ground (arith, e))
  | inr other ↦ let e = lookup-insert k j c m in inr (ground (arith, e))
]

abbrev pub stamp : {A : Type 0} → A → State → Cached A
stamp a s = record { value = a; expires_at = s.now + s.env.cache_ttl }

pub SameTables-refl : (s : State) → SameTables s s
SameTables-refl s = ground arith

module _ {s s' : State} (same : SameTables s s') where
  pub SameTables-stored_user : (k : String) → stored_user k s' ≡ stored_user k s
  unfolding stored_user
  SameTables-stored_user k = rw same.users

  pub SameTables-stored_roles : (k : String) → stored_roles k s' ≡ stored_roles k s
  unfolding stored_roles
  SameTables-stored_roles k = rw same.roles

  pub SameTables-stored_permission :
      (k t : String) → stored_permission k t s' ≡ stored_permission k t s
  unfolding stored_permission
  SameTables-stored_permission k t = rw same.perms

  pub SameTables-trans : {s'' : State} → SameTables s' s'' → SameTables s s''
  SameTables-trans h = ground arith

-- Empty caches agree with any tables.
pub IsCoherent-empty :
    (s : State) → IsCoherent (record s { user_cache = []; role_cache = []; perm_cache = [] })
unfolding lookup fresh
IsCoherent-empty s = record {
  users = record { at = λ k u h. cc };
  roles = record { at = λ k u h. cc };
  perms = record { at = λ k t u plain h. cc };
}
