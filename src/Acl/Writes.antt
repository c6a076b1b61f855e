-- ===== src/Acl/Writes.antt =====
-- What ensureTableAcl and updateTableAcl of src/acl.js leave in the table, and that they keep the
-- cache in agreement.
use ichibi_lake.Base.{
  String, ◌≡◌, ◌≢◌, refl, sym, ap, ◌∙◌, true, Option, none, some, List, [], ◌∷◌, ◌++◌, arith, inl,
  inr, ◌==◌, eq_iff, eq_refl, Bool-cases, update_where, if◌then◌else◌,
}
use ichibi_lake.Base.Dict.{lookup, erase, lookup-erase}
use ichibi_lake.Base.Exec.{ok, bind_ok}
use ichibi_lake.Rbac.Lookups.{fresh}
use ichibi_lake.Acl.Lists.{
  AclRow, Acl, World, of_table, with_lists, stored_acl, get_table_acl, owner_name, create_acl,
  ensure_table_acl, update_table_acl, update_acls, insert_acl, invalidate_acl_cache,
}
use ichibi_lake.Acl.Reads.{AclAgrees, get_table_acl-eq}

fresh_none :
    (j t : String) (w : World) {a : Acl}
    → fresh w.rbac.now (lookup j (erase t w.acl_cache)) ≡ some a
    → (t ≢ j) × (fresh w.rbac.now (lookup j w.acl_cache) ≡ some a)
unfolding fresh
fresh_none j t w h = ground (arith, lookup-erase t j w.acl_cache, eq_iff t j)

-- The first row of a table after an INSERT at the end.
stored_acl-append :
    (j : String) (row : AclRow) (rows : List AclRow)
    → stored_acl j (rows ++ row ∷ [])
      ≡ elim (stored_acl j rows) [ some a ↦ some a | none ↦ stored_acl j (row ∷ []) ]
unfolding stored_acl
stored_acl-append j row [] = refl
stored_acl-append j row (r ∷ rows) = ground (arith, stored_acl-append j row rows)

-- What an UPDATE does to the first row of a table.
stored_acl-update :
    (t j : String) (owners readers : List String) (rows : List AclRow)
    → stored_acl j (update_where (of_table t) (with_lists owners readers) rows)
      ≡ elim (stored_acl j rows) [
        | some a ↦
            some (if t == j then record { owner_keys = owners; reader_keys = readers } else a)
        | none ↦ none
      ]
unfolding stored_acl
stored_acl-update t j owners readers [] = refl
stored_acl-update t j owners readers (r ∷ rows) = ground (
  arith,
  stored_acl-update t j owners readers rows,
  eq_iff r.table_name t,
  eq_iff r.table_name j,
  eq_iff t j,
)

other_lists :
    (t j : String) (owners readers : List String) (rows : List AclRow)
    → t ≢ j
    → stored_acl j (update_where (of_table t) (with_lists owners readers) rows) ≡ stored_acl j rows
other_lists t j owners readers rows ne =
    let e = stored_acl-update t j owners readers rows in ground (arith, e, eq_iff t j)

-- Once a table's entry is dropped, the entries that are left are the others'.
fresh-invalidated :
    (j t : String) (w : World) {a : Acl}
    → fresh w.rbac.now (lookup j (invalidate_acl_cache t w).1.acl_cache) ≡ some a
    → (t ≢ j) × (fresh w.rbac.now (lookup j w.acl_cache) ≡ some a)
unfolding invalidate_acl_cache fresh lookup
fresh-invalidated j t w h = elim (Bool-cases (t == "")) [
  | inl none_given ↦ ground (arith, h, none_given)
  | inr given ↦ fresh_none j t w (ground (arith, h, given))
]

invalidate_acl_cache-acls :
    (t : String) (w : World)
    → ((invalidate_acl_cache t w).1.acls ≡ w.acls)
      × ((invalidate_acl_cache t w).1.rbac ≡ w.rbac)
      × ((invalidate_acl_cache t w).1.acl_ready ≡ w.acl_ready)
unfolding invalidate_acl_cache
invalidate_acl_cache-acls t w = ground arith

-- A write to one table's row and an invalidation of its entry keep the cache in agreement.
invalidate-AclAgrees :
    (t : String) (w v : World)
    → AclAgrees w
    → v.rbac ≡ w.rbac
    → v.acl_cache ≡ w.acl_cache
    → ((j : String) → t ≢ j → stored_acl j v.acls ≡ stored_acl j w.acls)
    → AclAgrees (invalidate_acl_cache t v).1
invalidate-AclAgrees t w v c hr hc hs =
    let (e1, e2, e3) = invalidate_acl_cache-acls t v in
    record {
      at = λ j a h.
          let now =
            ap (λ x. fresh x.now (lookup j (invalidate_acl_cache t v).1.acl_cache)) (sym e2) in
          let (ne, old) = fresh-invalidated j t v (now ∙ h) in
          let then_now = ap (λ x. fresh x.now (lookup j w.acl_cache)) (sym hr) in
          let then_cache = ap (λ x. fresh v.rbac.now (lookup j x)) (sym hc) in
          ap (stored_acl j) e1 ∙ hs j ne ∙ c.at j a (then_now ∙ then_cache ∙ old);
    }

abbrev updated : String → List String → List String → World → World
updated t owners readers w = record w {
  acls = update_where (of_table t) (with_lists owners readers) w.acls;
}

update_table_acl-eq :
    (t : String) (owners readers : List String) (w : World)
    → w.acl_ready ≡ true
    → update_table_acl t owners readers w ≡ invalidate_acl_cache t (updated t owners readers w)
unfolding update_table_acl update_acls
update_table_acl-eq t owners readers w r = simp r

-- updateTableAcl replaces both lists of the table, where it has a row, and of no other; the cache
-- stays in agreement, so that the next check sees the new lists.
pub update_table_acl_lem :
    (t : String) (owners readers : List String) (w : World)
    → AclAgrees w
    → w.acl_ready ≡ true
    → ((update_table_acl t owners readers w).0 ≡ ok tt)
      × ((j : String)
          → stored_acl j (update_table_acl t owners readers w).1.acls ≡ elim (stored_acl j w.acls) [
            | some a ↦
                some (if t == j then record { owner_keys = owners; reader_keys = readers } else a)
            | none ↦ none
          ])
      × AclAgrees (update_table_acl t owners readers w).1
unfolding invalidate_acl_cache
update_table_acl_lem t owners readers w c r =
    let v = updated t owners readers w in
    rw (update_table_acl-eq t owners readers w r) (
      refl,
      (λ j.
          ap (stored_acl j) (invalidate_acl_cache-acls t v).0
          ∙ stored_acl-update t j owners readers w.acls),
      invalidate-AclAgrees t w v c refl refl (λ j ne. other_lists t j owners readers w.acls ne),
    )

abbrev sole : String → Acl
sole k = record { owner_keys = owner_name k ∷ []; reader_keys = [] }

abbrev created : String → String → World → World
created t k w = record w {
  acls =
      w.acls
      ++ record {
        table_name = t;
        owner_keys = some (owner_name k ∷ []);
        reader_keys = some [];
        created_by = owner_name k;
      }
        ∷ [];
}

create_acl-eq :
    (t k : String) (w : World)
    → w.acl_ready ≡ true
    → create_acl t k none w ≡ (ok (sole k), (invalidate_acl_cache t (created t k w)).1)
unfolding create_acl insert_acl invalidate_acl_cache
create_acl-eq t k w r = simp r

stored_acl-sole :
    (t k : String)
    → stored_acl t (
        record {
          table_name = t;
          owner_keys = some (owner_name k ∷ []);
          reader_keys = some [];
          created_by = owner_name k;
        }
        ∷ [])
      ≡ some (sole k)
unfolding stored_acl
stored_acl-sole t k = ground (arith, eq_refl t)

stored_acl-created :
    (t k : String) (w : World)
    → stored_acl t w.acls ≡ none
    → stored_acl t (created t k w).acls ≡ some (sole k)
stored_acl-created t k w h = rw (stored_acl-append t _ w.acls, h) (stored_acl-sole t k)

stored_acl-created_other :
    (t k j : String) (w : World) → t ≢ j → stored_acl j (created t k w).acls ≡ stored_acl j w.acls
unfolding stored_acl
stored_acl-created_other t k j w ne = rw (stored_acl-append j _ w.acls) (ground (arith, eq_iff t j))

create_acl_lem :
    (t k : String) (w : World) (o : Option Acl)
    → o ≡ stored_acl t w.acls
    → AclAgrees w
    → w.acl_ready ≡ true
    → (a : Acl) × ((create_acl t k o w).0 ≡ ok a)
      × (a ≡ elim o [ some b ↦ b | none ↦ sole k ])
      × (stored_acl t (create_acl t k o w).1.acls ≡ some a)
      × ((j : String) → t ≢ j → stored_acl j (create_acl t k o w).1.acls ≡ stored_acl j w.acls)
      × AclAgrees (create_acl t k o w).1
unfolding create_acl
create_acl_lem t k w (some b) e c r = (b, refl, refl, sym e, (λ j ne. refl), c)
create_acl_lem t k w none e c r =
    let kept = invalidate_acl_cache-acls t (created t k w) in
    rw (create_acl-eq t k w r) (
      sole k,
      refl,
      refl,
      ap (stored_acl t) kept.0 ∙ stored_acl-created t k w (sym e),
      (λ j ne. ap (stored_acl j) kept.0 ∙ stored_acl-created_other t k j w ne),
      invalidate-AclAgrees t w (created t k w) c refl refl
          (λ j ne. stored_acl-created_other t k j w ne),
    )

-- ensureTableAcl gives the lists that the table has, where it has any; only for a table without
-- them it stores the key (or 'public') as its one owner. No other table's lists change, and the
-- cache stays in agreement.
pub ensure_table_acl_lem :
    (t k : String) (w : World)
    → AclAgrees w
    → w.acl_ready ≡ true
    → (a : Acl) × ((ensure_table_acl t k w).0 ≡ ok a)
      × (a ≡ elim (stored_acl t w.acls) [
        | some b ↦ b
        | none ↦ record { owner_keys = owner_name k ∷ []; reader_keys = [] }
      ])
      × (stored_acl t (ensure_table_acl t k w).1.acls ≡ some a)
      × ((j : String) → t ≢ j → stored_acl j (ensure_table_acl t k w).1.acls ≡ stored_acl j w.acls)
      × AclAgrees (ensure_table_acl t k w).1
unfolding ensure_table_acl
ensure_table_acl_lem t k w c r =
    let (e, same, c') = get_table_acl-eq t w c r in
    let v = (get_table_acl t w).1 in
    let stored = ap (stored_acl t) same.acls in
    let (a, answer, which, now_stored, others, agrees) =
      create_acl_lem t k v (stored_acl t w.acls) (sym stored) c' (same.ready ∙ r) in
    rw (bind_ok (get_table_acl t) (create_acl t k) w e)
      (a, answer, which, now_stored, (λ j ne. others j ne ∙ ap (stored_acl j) same.acls), agrees)
