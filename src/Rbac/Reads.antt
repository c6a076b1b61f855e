-- ===== src/Rbac/Reads.antt =====
-- What the cached reads of src/rbac.js return, and that they keep the caches in agreement.
use ichibi_lake.Base.{
  String, ◌≡◌, ap, true, Option, none, some, List, arith, inl, inr, Option-cases,
}
use ichibi_lake.Base.Dict.{lookup, insert}
use ichibi_lake.Base.Exec.{ok}
use ichibi_lake.Rbac.Store.{User, State}
use ichibi_lake.Rbac.Lookups.{
  fresh, cache_key, stored_user, stored_roles, stored_permission, find_user, get_user_roles,
  get_table_permission,
}
use ichibi_lake.Rbac.Keys.{NoColon, cache_key-injective}
use ichibi_lake.Rbac.Coherence.{
  UsersAgree, RolesAgree, PermsAgree, IsCoherent, SameTables, stamp, fresh-insert,
}

module _ (k : String) (s : State) where
  pub find_user-SameTables : SameTables s (find_user k s).1
  unfolding find_user
  find_user-SameTables = ground arith

  pub get_user_roles-SameTables : SameTables s (get_user_roles k s).1
  unfolding get_user_roles
  get_user_roles-SameTables = ground arith

  pub get_table_permission-SameTables : (t : String) → SameTables s (get_table_permission k t s).1
  unfolding get_table_permission
  get_table_permission-SameTables t = ground arith

  pub find_user_hit :
      {v : Option User} → fresh s.now (lookup k s.user_cache) ≡ some v → find_user k s ≡ (ok v, s)
  unfolding find_user
  find_user_hit h = rw (h, find_user)

  pub find_user_miss :
      fresh s.now (lookup k s.user_cache) ≡ none
      → s.ready ≡ true
      → find_user k s ≡ (
        ok (stored_user k s),
        record s { user_cache = insert k (stamp (stored_user k s) s) s.user_cache },
      )
  unfolding find_user
  find_user_miss h r = rw (h, find_user, r)

  pub find_user-eq : UsersAgree s → s.ready ≡ true → (find_user k s).0 ≡ ok (stored_user k s)
  find_user-eq a r = elim (Option-cases (fresh s.now (lookup k s.user_cache))) [
    | inl miss ↦ rw (find_user_miss miss r)
    | inr (v, hit) ↦ rw (find_user_hit hit) (ap ok (a.at k v hit))
  ]

  pub find_user-IsCoherent : IsCoherent s → s.ready ≡ true → IsCoherent (find_user k s).1
  unfolding stored_user stored_roles stored_permission
  find_user-IsCoherent c r = elim (Option-cases (fresh s.now (lookup k s.user_cache))) [
    | inl miss ↦ rw (find_user_miss miss r) (record {
      users = record {
        at = λ j v h. elim (fresh-insert s.now k j _ _ h) [
          | inl (same, e) ↦ rw (← same) e
          | inr old ↦ c.users.at j v old
        ];
      };
      roles = record { at = c.roles.at };
      perms = record { at = c.perms.at };
    })
    | inr (v, hit) ↦ rw (find_user_hit hit) c
  ]

  get_user_roles_hit :
      {v : List String}
      → fresh s.now (lookup k s.role_cache) ≡ some v
      → get_user_roles k s ≡ (ok v, s)
  unfolding get_user_roles
  get_user_roles_hit h = rw (h, get_user_roles)

  get_user_roles_miss :
      fresh s.now (lookup k s.role_cache) ≡ none
      → s.ready ≡ true
      → get_user_roles k s ≡ (
        ok (stored_roles k s),
        record s { role_cache = insert k (stamp (stored_roles k s) s) s.role_cache },
      )
  unfolding get_user_roles
  get_user_roles_miss h r = rw (h, get_user_roles, r)

  pub get_user_roles-eq :
      RolesAgree s → s.ready ≡ true → (get_user_roles k s).0 ≡ ok (stored_roles k s)
  get_user_roles-eq a r = elim (Option-cases (fresh s.now (lookup k s.role_cache))) [
    | inl miss ↦ rw (get_user_roles_miss miss r)
    | inr (v, hit) ↦ rw (get_user_roles_hit hit) (ap ok (a.at k v hit))
  ]

  pub get_user_roles-IsCoherent : IsCoherent s → s.ready ≡ true → IsCoherent (get_user_roles k s).1
  unfolding stored_user stored_roles stored_permission
  get_user_roles-IsCoherent c r = elim (Option-cases (fresh s.now (lookup k s.role_cache))) [
    | inl miss ↦ rw (get_user_roles_miss miss r) (record {
      roles = record {
        at = λ j v h. elim (fresh-insert s.now k j _ _ h) [
          | inl (same, e) ↦ rw (← same) e
          | inr old ↦ c.roles.at j v old
        ];
      };
      users = record { at = c.users.at };
      perms = record { at = c.perms.at };
    })
    | inr (v, hit) ↦ rw (get_user_roles_hit hit) c
  ]

module _ (k t : String) (s : State) where
  pub get_table_permission_hit :
      {v : Option String}
      → fresh s.now (lookup (cache_key k t) s.perm_cache) ≡ some v
      → get_table_permission k t s ≡ (ok v, s)
  unfolding get_table_permission
  get_table_permission_hit h = rw (h, get_table_permission)

  get_table_permission_miss :
      fresh s.now (lookup (cache_key k t) s.perm_cache) ≡ none
      → s.ready ≡ true
      → get_table_permission k t s ≡ (
        ok (stored_permission k t s),
        record s {
          perm_cache = insert (cache_key k t) (stamp (stored_permission k t s) s) s.perm_cache;
        },
      )
  unfolding get_table_permission
  get_table_permission_miss h r = rw (h, get_table_permission, r)

  pub get_table_permission-eq :
      PermsAgree s
      → NoColon t
      → s.ready ≡ true
      → (get_table_permission k t s).0 ≡ ok (stored_permission k t s)
  get_table_permission-eq a plain r =
      elim (Option-cases (fresh s.now (lookup (cache_key k t) s.perm_cache))) [
        | inl miss ↦ rw (get_table_permission_miss miss r)
        | inr (v, hit) ↦ rw (get_table_permission_hit hit) (ap ok (a.at k t v plain hit))
      ]

  pub get_table_permission-IsCoherent :
      IsCoherent s → NoColon t → s.ready ≡ true → IsCoherent (get_table_permission k t s).1
  unfolding stored_user stored_roles stored_permission
  get_table_permission-IsCoherent c plain r =
      elim (Option-cases (fresh s.now (lookup (cache_key k t) s.perm_cache))) [
        | inl miss ↦ rw (get_table_permission_miss miss r) (record {
          users = record { at = c.users.at };
          roles = record { at = c.roles.at };
          perms = record {
            at = λ j u v plain_u h.
                elim (fresh-insert s.now (cache_key k t) (cache_key j u) _ _ h) [
                  | inl (same, e) ↦
                      let (same_k, same_t) = cache_key-injective k j t u plain plain_u same in
                      rw (← same_k, ← same_t) e
                  | inr old ↦ c.perms.at j u v plain_u old
                ];
          };
        })
        | inr (v, hit) ↦ rw (get_table_permission_hit hit) c
      ]
