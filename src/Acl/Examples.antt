-- ===== src/Acl/Examples.antt =====
-- Runs of src/acl.js at concrete inputs, and instances of the theorems about it.
use ichibi_lake.Base.{
  String, ◌≡◌, ◌≢◌, ◌↔◌, ◌⊎◌, refl, Bool, true, false, none, some, [], ◌∷◌, arith, ◌==◌,
  if◌then◌else◌,
}
use ichibi_lake.Base.Exec.{ok, err}
use ichibi_lake.Base.Dict.{lookup, insert, erase}
use ichibi_lake.Rbac.Store.{State, perm_rows, user_rows, roles_of}
use ichibi_lake.Rbac.Lookups.{
  fresh, cache_key, stored_user, stored_roles, stored_permission, find_user, get_user_roles,
  get_table_permission,
}
use ichibi_lake.Rbac.Access.{check_access, check_user}
use ichibi_lake.Rbac.Keys.{NoColon}
use ichibi_lake.Rbac.Coherence.{IsCoherent-empty, SameTables}
use ichibi_lake.Rbac.Policy.{Holds, IsPermitted}
use ichibi_lake.Acl.Lists.{
  Acl, World, acl_table_missing, owner_name, stored_acl, get_table_acl, ensure_table_acl,
  create_acl, insert_acl, invalidate_acl_cache, update_table_acl, update_acls, rbac_allows, ask_acl,
  check_read_access, check_write_access,
}
use ichibi_lake.Acl.Reads.{AclAgrees}
use ichibi_lake.Acl.Writes.{update_table_acl_lem, ensure_table_acl_lem}
use ichibi_lake.Acl.Decisions.{
  IsSettled, OnList, CanRead, CanWrite, check_read_access_iff, check_write_access_iff,
  write_access_reads, denied_owner_writes,
}

-- An active user without roles, whom the table `sales` denies.
abbrev rbac : State
rbac = record {
  env = record {
    rbac_superusers = none;
    rbac_users = none;
    rbac_table_permissions = none;
    api_keys = none;
    api_key = none;
    cache_ttl = 60000;
  };
  now = 1000;
  ready = true;
  users =
      record {
        api_key = "ann";
        name = none;
        email = none;
        is_active = some "true";
        created_at = 0;
        created_by = none;
      }
      ∷ [];
  roles = [];
  perms =
      record {
        api_key = "ann";
        table_name = "sales";
        permission = "deny";
        granted_at = 0;
        granted_by = "root";
      }
      ∷ [];
  user_cache = [];
  role_cache = [];
  perm_cache = [];
}

abbrev bare : World
bare = record { rbac = rbac; acl_cache_ttl = 60000; acl_ready = true; acls = []; acl_cache = [] }

abbrev anns : Acl
anns = record { owner_keys = "ann" ∷ []; reader_keys = [] }

-- `sales` was created by ann, who is denied it.
abbrev owned : World
owned = record bare {
  acls =
      record {
        table_name = "sales";
        owner_keys = some ("ann" ∷ []);
        reader_keys = some [];
        created_by = "ann";
      }
      ∷ [];
}

no_entries : (w : World) → w.acl_cache ≡ [] → AclAgrees w
unfolding fresh lookup
no_entries w h = record { at = λ t a f. ground (arith, f, h) }

bare-AclAgrees : AclAgrees bare
bare-AclAgrees = no_entries bare refl

owned-IsSettled : IsSettled owned
owned-IsSettled = record {
  coherent = IsCoherent-empty rbac;
  ready = refl;
  agrees = no_entries owned refl;
  acl_ready = refl;
}

sales_plain : NoColon "sales"
sales_plain = ground arith

-- Everything that a run of the component computes with.
runs : Unit {0}
unfolding perm_rows user_rows roles_of fresh cache_key stored_user stored_roles stored_permission
    find_user get_user_roles get_table_permission check_access check_user owner_name stored_acl
    get_table_acl ensure_table_acl create_acl insert_acl invalidate_acl_cache update_table_acl
    update_acls rbac_allows ask_acl check_read_access check_write_access lookup insert erase
runs = tt

acl_tests :
    ((check_read_access "sales" "bob" owned).0 ≡ ok false)
    × ((check_read_access "sales" "bob" (update_table_acl "sales" [] ("bob" ∷ []) owned).1).0
        ≡ ok true)
    × ((check_write_access "sales" "bob" (update_table_acl "sales" [] ("bob" ∷ []) owned).1).0
        ≡ ok false)
    × ((ensure_table_acl "sales" "bob" owned).0 ≡ ok anns)
    × ((check_write_access "events" "" (ensure_table_acl "events" "" owned).1).0 ≡ ok true)
    × ((get_table_acl "events" (record bare { acl_ready = false })).0 ≡ err acl_table_missing)
unfolding runs
acl_tests = (refl, refl, refl, refl, refl, refl)

sales_lists : stored_acl "sales" owned.acls ≡ some anns
unfolding runs
sales_lists = refl

sales_denied : stored_permission "ann" "sales" rbac ≡ some "deny"
unfolding runs
sales_denied = refl

ann_owns : Holds (owner_name "ann") anns.owner_keys
unfolding runs
ann_owns = refl

denied_owner_writes_example :
    ((check_access "ann" "sales" "write" rbac).0 ≡ ok false)
    × ((check_write_access "sales" "ann" owned).0 ≡ ok true)
denied_owner_writes_example =
    denied_owner_writes "sales" "ann" owned anns sales_plain owned-IsSettled sales_denied
      sales_lists ann_owns

ann_writes : (check_write_access "sales" "ann" owned).0 ≡ ok true
unfolding runs
ann_writes = refl

write_access_reads_example : (check_read_access "sales" "ann" owned).0 ≡ ok true
write_access_reads_example =
    write_access_reads "sales" "ann" owned sales_plain owned-IsSettled ann_writes

check_read_access_iff_example :
    (b : Bool) × ((check_read_access "sales" "ann" owned).0 ≡ ok b)
    × ((b ≡ true) ↔ (IsPermitted "ann" "sales" "read" rbac ⊎ OnList "sales" (CanRead "ann") owned))
    × ((check_read_access "sales" "ann" owned).1.acls ≡ owned.acls)
    × SameTables rbac (check_read_access "sales" "ann" owned).1.rbac
    × IsSettled (check_read_access "sales" "ann" owned).1
check_read_access_iff_example =
    check_read_access_iff "sales" "ann" owned sales_plain owned-IsSettled

check_write_access_iff_example :
    (b : Bool) × ((check_write_access "sales" "bob" owned).0 ≡ ok b)
    × ((b ≡ true)
        ↔ (IsPermitted "bob" "sales" "write" rbac ⊎ OnList "sales" (CanWrite "bob") owned))
    × ((check_write_access "sales" "bob" owned).1.acls ≡ owned.acls)
    × SameTables rbac (check_write_access "sales" "bob" owned).1.rbac
    × IsSettled (check_write_access "sales" "bob" owned).1
check_write_access_iff_example =
    check_write_access_iff "sales" "bob" owned sales_plain owned-IsSettled

update_table_acl_lem_example :
    ((update_table_acl "sales" [] ("bob" ∷ []) owned).0 ≡ ok tt)
    × ((j : String)
        → stored_acl j (update_table_acl "sales" [] ("bob" ∷ []) owned).1.acls
          ≡ elim (stored_acl j owned.acls) [
            | some a ↦
                some
                  (if "sales" == j then record { owner_keys = []; reader_keys = "bob" ∷ [] } else a)
            | none ↦ none
          ])
    × AclAgrees (update_table_acl "sales" [] ("bob" ∷ []) owned).1
update_table_acl_lem_example =
    update_table_acl_lem "sales" [] ("bob" ∷ []) owned (no_entries owned refl) refl

ensure_table_acl_lem_example :
    (a : Acl) × ((ensure_table_acl "events" "bob" bare).0 ≡ ok a)
    × (a ≡ elim (stored_acl "events" bare.acls) [
      | some b ↦ b
      | none ↦ record { owner_keys = owner_name "bob" ∷ []; reader_keys = [] }
    ])
    × (stored_acl "events" (ensure_table_acl "events" "bob" bare).1.acls ≡ some a)
    × ((j : String)
        → "events" ≢ j
        → stored_acl j (ensure_table_acl "events" "bob" bare).1.acls ≡ stored_acl j bare.acls)
    × AclAgrees (ensure_table_acl "events" "bob" bare).1
ensure_table_acl_lem_example = ensure_table_acl_lem "events" "bob" bare bare-AclAgrees refl
