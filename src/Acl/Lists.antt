-- ===== src/Acl/Lists.antt =====
-- src/acl.js: getTableAcl, ensureTableAcl, checkReadAccess, checkWriteAccess, updateTableAcl and
-- invalidateAclCache. The columns owner_keys and reader_keys are held decoded: the text that
-- JSON.stringify wrote is read by JSON.parse alone.
use ichibi_lake.Base.{
  ℕ, ◌+◌, String, Bool, true, false, ◌||◌, Option, none, some, List, [], ◌∷◌, ◌++◌, ◌==◌, filter,
  update_where, includes, if◌then◌else◌,
}
use ichibi_lake.Base.Dict.{Dict, lookup, insert, erase}
use ichibi_lake.Base.Exec.{Result, ok, err, Exec, pure, ◌>>=◌, ◌>>◌}
use ichibi_lake.Rbac.Store.{State, Cached, Failure}
use ichibi_lake.Rbac.Lookups.{fresh}
use ichibi_lake.Rbac.Access.{check_access}

-- A row of _table_acls; `none` is SQL NULL.
pub record AclRow : Type 0 where
  pub table_name : String
  pub owner_keys : Option (List String)
  pub reader_keys : Option (List String)
  pub created_by : String

pub record Acl : Type 0 where
  pub owner_keys : List String
  pub reader_keys : List String

-- The process with the state of src/rbac.js; `acl_ready` says that initAclTable has run.
pub record World : Type 0 where
  pub rbac : State
  pub acl_cache_ttl : ℕ
  pub acl_ready : Bool
  pub acls : List AclRow
  pub acl_cache : Dict (Cached Acl)

pub data AclFailure : Type 0 where
  acl_table_missing : AclFailure

abbrev pub AclAct : Type 0 → Type 0
AclAct A = Exec World AclFailure A

unfoldable pub invalidate_acl_cache : String → AclAct (Unit {0})
invalidate_acl_cache t w = (
  ok tt,
  if t == "" then record w { acl_cache = [] } else record w { acl_cache = erase t w.acl_cache },
)

-- A statement on _table_acls.
abbrev pub run_sql : {A : Type 0} → (World → A × World) → AclAct A
run_sql f w = if w.acl_ready then (ok (f w).0, (f w).1) else (err acl_table_missing, w)

abbrev pub of_table : String → AclRow → Bool
of_table t row = row.table_name == t

-- x || '[]'
abbrev pub listed : Option (List String) → List String
listed none = []
listed (some keys) = keys

abbrev pub decoded : AclRow → Acl
decoded row = record { owner_keys = listed row.owner_keys; reader_keys = listed row.reader_keys }

abbrev pub first_acl : List AclRow → Option Acl
first_acl [] = none
first_acl (row ∷ _) = some (decoded row)

-- SELECT owner_keys, reader_keys FROM _table_acls WHERE table_name = ?
unfoldable pub stored_acl : String → List AclRow → Option Acl
stored_acl t rows = first_acl (filter (of_table t) rows)

abbrev stamped : Acl → World → Cached Acl
stamped acl w = record { value = acl; expires_at = w.rbac.now + w.acl_cache_ttl }

-- A missing row is not cached.
unfoldable pub cache_acl : String → Option Acl → AclAct (Option Acl)
cache_acl t none w = (ok none, w)
cache_acl t (some acl) w =
    (ok (some acl), record w { acl_cache = insert t (stamped acl w) w.acl_cache })

unfoldable pub get_table_acl : String → AclAct (Option Acl)
unfolding cache_acl
get_table_acl t w = elim (fresh w.rbac.now (lookup t w.acl_cache)) [
  | some acl ↦ (ok (some acl), w)
  | none ↦ (run_sql (λ v. (stored_acl t v.acls, v)) >>= cache_acl t) w
]

-- apiKey || 'public'
unfoldable pub owner_name : String → String
owner_name k = if k == "" then "public" else k

-- INSERT INTO _table_acls
unfoldable pub insert_acl : String → List String → List String → String → AclAct (Unit {0})
insert_acl t owners readers by = run_sql λ w. (
  tt,
  record w {
    acls =
        w.acls
        ++ record {
          table_name = t;
          owner_keys = some owners;
          reader_keys = some readers;
          created_by = by;
        }
          ∷ [];
  },
)

unfoldable pub create_acl : String → String → Option Acl → AclAct Acl
unfolding insert_acl invalidate_acl_cache owner_name
create_acl t k (some existing) = pure existing
create_acl t k none = do
  insert_acl t (owner_name k ∷ []) [] (owner_name k)
  invalidate_acl_cache t
  pure (record { owner_keys = owner_name k ∷ []; reader_keys = [] })

unfoldable pub ensure_table_acl : String → String → AclAct Acl
ensure_table_acl t k = do existing ← get_table_acl t; create_acl t k existing

-- UPDATE _table_acls SET owner_keys = ?, reader_keys = ? WHERE table_name = ?
abbrev pub with_lists : List String → List String → AclRow → AclRow
with_lists owners readers row = record row { owner_keys = some owners; reader_keys = some readers }

unfoldable pub update_acls : String → List String → List String → AclAct (Unit {0})
update_acls t owners readers =
    run_sql
      λ w. (tt, record w { acls = update_where (of_table t) (with_lists owners readers) w.acls })

unfoldable pub update_table_acl : String → List String → List String → AclAct (Unit {0})
unfolding invalidate_acl_cache
update_table_acl t owners readers = do update_acls t owners readers; invalidate_acl_cache t

-- The try block: a throw of RBAC falls through, like `false`.
abbrev is_granted : Result Failure Bool → Bool
is_granted (ok b) = b
is_granted (err _) = false

unfoldable pub rbac_allows : String → String → String → AclAct Bool
rbac_allows k t required w =
    let (r, rbac) = check_access k t required w.rbac in
    (ok (is_granted r), record w { rbac = rbac })

unfoldable pub can_read : String → Option Acl → Bool
unfolding owner_name
can_read k none = false
can_read k (some acl) =
    includes (owner_name k) acl.owner_keys || includes (owner_name k) acl.reader_keys

unfoldable pub can_write : String → Option Acl → Bool
unfolding owner_name
can_write k none = false
can_write k (some acl) = includes (owner_name k) acl.owner_keys

-- Past the try block, with what the two functions differ in as an argument.
unfoldable pub ask_acl : (Option Acl → Bool) → String → Bool → AclAct Bool
ask_acl test t true = pure true
ask_acl test t false = do acl ← get_table_acl t; pure (test acl)

unfoldable pub check_read_access : String → String → AclAct Bool
unfolding can_read
check_read_access t k = do granted ← rbac_allows k t "read"; ask_acl (can_read k) t granted

unfoldable pub check_write_access : String → String → AclAct Bool
unfolding can_write
check_write_access t k = do granted ← rbac_allows k t "write"; ask_acl (can_write k) t granted
