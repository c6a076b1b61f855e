-- ===== src/Acl/Reads.antt =====
-- What getTableAcl of src/acl.js returns while its cache agrees with the table.
use ichibi_lake.Base.{
  String, ◌≡◌, refl, sym, ap, ◌∙◌, true, Option, none, some, arith, inl, inr, Option-cases,
}
use ichibi_lake.Base.Dict.{lookup}
use ichibi_lake.Base.Exec.{ok}
use ichibi_lake.Rbac.Lookups.{fresh}
use ichibi_lake.Rbac.Coherence.{fresh-insert}
use ichibi_lake.Acl.Lists.{Acl, World, stored_acl, get_table_acl, cache_acl}

-- No entry that is still fresh differs from what the table holds.
pub record AclAgrees (w : World) : Type 0 where
  pub at :
      (t : String) (a : Acl)
      → fresh w.rbac.now (lookup t w.acl_cache) ≡ some a
      → stored_acl t w.acls ≡ some a

-- A read touches the cache only.
pub record SameLists (w w' : World) : Type 0 where
  pub rbac : w'.rbac ≡ w.rbac
  pub ready : w'.acl_ready ≡ w.acl_ready
  pub acls : w'.acls ≡ w.acls

module _ (t : String) (w : World) where
  get_table_acl_hit :
      {a : Acl}
      → fresh w.rbac.now (lookup t w.acl_cache) ≡ some a
      → get_table_acl t w ≡ (ok (some a), w)
  unfolding get_table_acl
  get_table_acl_hit h = rw (h, get_table_acl)

  get_table_acl_miss :
      fresh w.rbac.now (lookup t w.acl_cache) ≡ none
      → w.acl_ready ≡ true
      → get_table_acl t w ≡ cache_acl t (stored_acl t w.acls) w
  unfolding get_table_acl
  get_table_acl_miss h r = rw (h, get_table_acl, r)

  cache_acl-AclAgrees :
      (o : Option Acl)
      → o ≡ stored_acl t w.acls
      → AclAgrees w
      → ((cache_acl t o w).0 ≡ ok o)
        × SameLists w (cache_acl t o w).1
        × AclAgrees (cache_acl t o w).1
  unfolding cache_acl
  cache_acl-AclAgrees none e c = (refl, ground arith, c)
  cache_acl-AclAgrees (some a) e c = (
    refl,
    ground arith,
    record {
      at = λ j b h. elim (fresh-insert w.rbac.now t j _ _ h) [
        | inl (same, f) ↦ ap (λ x. stored_acl x w.acls) (sym same) ∙ sym e ∙ ap some (sym f)
        | inr old ↦ c.at j b old
      ];
    },
  )

  pub get_table_acl-eq :
      AclAgrees w
      → w.acl_ready ≡ true
      → ((get_table_acl t w).0 ≡ ok (stored_acl t w.acls))
        × SameLists w (get_table_acl t w).1
        × AclAgrees (get_table_acl t w).1
  get_table_acl-eq c r = elim (Option-cases (fresh w.rbac.now (lookup t w.acl_cache))) [
    | inl miss ↦ rw (get_table_acl_miss miss r) (cache_acl-AclAgrees (stored_acl t w.acls) refl c)
    | inr (a, hit) ↦ rw (get_table_acl_hit hit) (ap ok (sym (c.at t a hit)), ground arith, c)
  ]
