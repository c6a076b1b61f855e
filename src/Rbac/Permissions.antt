-- ===== src/Rbac/Permissions.antt =====
-- setTablePermission of src/rbac.js: the row that it writes, and the cache entry that it leaves.
use ichibi_lake.Base.{
  String, ◌≡◌, ◌≢◌, ◌⊎◌, refl, ap, ◌∙◌, true, false, Option, some, List, [], ◌∷◌, ◌++◌, arith,
  eq_iff, eq_refl, inl, inr, Bool-cases, if◌then◌else◌, update_where,
}
use ichibi_lake.Base.Text.{or_text}
use ichibi_lake.Base.Dict.{lookup, erase, lookup-erase}
use ichibi_lake.Base.Exec.{ok}
use ichibi_lake.Rbac.Store.{
  PermRow, State, safe_permissions, safe_permission, is_perm, has_perm, perm_rows, update_perms,
  insert_perm, invalidate_user_cache,
}
use ichibi_lake.Rbac.Lookups.{
  fresh, cache_key, first_permission, stored_permission, get_table_permission,
}
use ichibi_lake.Rbac.Admin.{set_table_permission}
use ichibi_lake.Rbac.Keys.{cache_key-ne-key}
use ichibi_lake.Rbac.Reads.{get_table_permission_hit}

abbrev written : String → PermRow → PermRow
written p row = record row { permission = p }

-- UPDATE on a pair that has a row, and INSERT of one that has none.
permission-update :
    (k t p : String) (ps : List PermRow)
    → has_perm k t ps ≡ true
    → first_permission (perm_rows k t (update_where (is_perm k t) (written p) ps)) ≡ some p
unfolding has_perm perm_rows
permission-update k t p [] h = cc
permission-update k t p (row ∷ ps) h = ground (arith, permission-update k t p ps)

permission-update_ne :
    (k t p j u : String) (ps : List PermRow)
    → (k ≢ j) ⊎ (t ≢ u)
    → perm_rows j u (update_where (is_perm k t) (written p) ps) ≡ perm_rows j u ps
unfolding perm_rows
permission-update_ne k t p j u [] h = refl
permission-update_ne k t p j u (row ∷ ps) h = ground (
  arith,
  permission-update_ne k t p j u ps h,
  eq_iff row.api_key k,
  eq_iff row.api_key j,
  eq_iff row.table_name t,
  eq_iff row.table_name u,
)

permission-insert :
    (row : PermRow) (ps : List PermRow)
    → has_perm row.api_key row.table_name ps ≡ false
    → first_permission (perm_rows row.api_key row.table_name (ps ++ row ∷ [])) ≡ some row.permission
unfolding has_perm perm_rows
permission-insert row [] h = ground (arith, eq_refl row.api_key, eq_refl row.table_name)
permission-insert row (q ∷ ps) h = ground (arith, permission-insert row ps)

permission-insert_ne :
    (row : PermRow) (j u : String) (ps : List PermRow)
    → (row.api_key ≢ j) ⊎ (row.table_name ≢ u)
    → perm_rows j u (ps ++ row ∷ []) ≡ perm_rows j u ps
unfolding perm_rows
permission-insert_ne row j u [] h = ground (arith, eq_iff row.api_key j, eq_iff row.table_name u)
permission-insert_ne row j u (q ∷ ps) h = ground (arith, permission-insert_ne row j u ps h)

-- What setTablePermission does to the table, by whether the pair has a row.
perms_after : String → String → String → Option String → State → List PermRow
perms_after k t p by s =
    if has_perm k t s.perms
    then update_where (is_perm k t) (written p) s.perms
    else s.perms
      ++ record {
        api_key = k;
        table_name = t;
        permission = p;
        granted_at = s.now;
        granted_by = or_text by "admin";
      }
        ∷ []

set_table_permission-eq :
    (k t p : String) (by : Option String) (s : State)
    → s.ready ≡ true
    → safe_permissions p ≡ true
    → set_table_permission k t p by s
      ≡ invalidate_user_cache k (record s { perms = perms_after k t p by s })
unfolding set_table_permission safe_permission insert_perm update_perms perms_after
set_table_permission-eq k t p by s r safe = elim (Bool-cases (has_perm k t s.perms)) [
  | inl here ↦ simp (safe, r, here)
  | inr new ↦ simp (safe, r, new)
]

-- A valid permission for a pair succeeds, is what the table then holds for the pair, and leaves
-- every other pair as it was.
pub set_table_permission_lem :
    (k t p : String) (by : Option String) (s : State)
    → s.ready ≡ true
    → safe_permissions p ≡ true
    → ((set_table_permission k t p by s).0 ≡ ok tt)
      × (stored_permission k t (set_table_permission k t p by s).1 ≡ some p)
      × ((j u : String)
          → (k ≢ j) ⊎ (t ≢ u)
          → stored_permission j u (set_table_permission k t p by s).1 ≡ stored_permission j u s)
unfolding stored_permission invalidate_user_cache perms_after
set_table_permission_lem k t p by s r safe = elim (Bool-cases (has_perm k t s.perms)) [
  | inl here ↦
      rw (set_table_permission-eq k t p by s r safe, here)
        (
          refl,
          permission-update k t p s.perms here,
          λ j u h. ap first_permission (permission-update_ne k t p j u s.perms h),
        )
  | inr new ↦
      rw (set_table_permission-eq k t p by s r safe, new)
        (
          refl,
          permission-insert _ s.perms new,
          λ j u h. ap first_permission (permission-insert_ne _ j u s.perms h),
        )
]

-- A permission that is cached and fresh survives setTablePermission: the table holds the new
-- permission, and reads go on answering the old one. (invalidateUserCache drops the entry named
-- by the API key alone, and the entries are named by key and table.)
pub set_table_permission_stale :
    (k t p : String) (by : Option String) (s : State) {old : Option String}
    → s.ready ≡ true
    → safe_permissions p ≡ true
    → fresh s.now (lookup (cache_key k t) s.perm_cache) ≡ some old
    → (stored_permission k t (set_table_permission k t p by s).1 ≡ some p)
      × ((get_table_permission k t (set_table_permission k t p by s).1).0 ≡ ok old)
unfolding invalidate_user_cache
set_table_permission_stale k t p by s {old} r safe cached =
    let after : State = (invalidate_user_cache k (record s { perms = perms_after k t p by s })).1 in
    let kept : lookup (cache_key k t) (erase k s.perm_cache) ≡ lookup (cache_key k t) s.perm_cache =
      lookup-erase k (cache_key k t) s.perm_cache
      ∙ ground (arith, eq_iff k (cache_key k t), cache_key-ne-key k t) in
    let hit : fresh after.now (lookup (cache_key k t) after.perm_cache) ≡ some old =
      ap (fresh s.now) kept ∙ cached in
    (
      (set_table_permission_lem k t p by s r safe).1,
      ap (λ o. (get_table_permission k t o.1).0) (set_table_permission-eq k t p by s r safe)
          ∙ ap (λ o. o.0) (get_table_permission_hit k t after hit),
    )
