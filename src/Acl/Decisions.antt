-- ===== src/Acl/Decisions.antt =====
-- What checkReadAccess and checkWriteAccess of src/acl.js decide.
use ichibi_lake.Base.{
  String, ◌≡◌, ◌≢◌, refl, sym, ap, ◌∙◌, Bool, true, false, ◌||◌, Option, none, some, ◌⊎◌, inl, inr,
  ◌↔◌, arith, String, eq_iff,
}
use mathlib.Core.Option.{some-injective}
use ichibi_lake.Base.Exec.{Result, ok, bind_ok, ◌>>=◌}
use ichibi_lake.Rbac.Access.{check_access}
use ichibi_lake.Base.Dict.{lookup}
use ichibi_lake.Rbac.Lookups.{fresh, stored_permission}
use ichibi_lake.Rbac.Keys.{NoColon}
use ichibi_lake.Rbac.Coherence.{IsCoherent, SameTables}
use ichibi_lake.Rbac.Policy.{Holds, IsPermitted, check_access_iff, check_access_denied}
use ichibi_lake.Acl.Lists.{
  Acl, AclFailure, World, owner_name, stored_acl, get_table_acl, rbac_allows, can_read, can_write,
  ask_acl, check_read_access, check_write_access,
}
use ichibi_lake.Acl.Reads.{AclAgrees, SameLists, get_table_acl-eq}

-- The state in which the checks are made: both sets of tables exist and no cache is stale.
pub record IsSettled (w : World) : Type 0 where
  pub coherent : IsCoherent w.rbac
  pub ready : w.rbac.ready ≡ true
  pub agrees : AclAgrees w
  pub acl_ready : w.acl_ready ≡ true

abbrev pub OnList : String → (Acl → Type 0) → World → Type 0
OnList t P w = (a : Acl) × (stored_acl t w.acls ≡ some a) × P a

abbrev pub CanRead : String → Acl → Type 0
CanRead k a = Holds (owner_name k) a.owner_keys ⊎ Holds (owner_name k) a.reader_keys

abbrev pub CanWrite : String → Acl → Type 0
CanWrite k a = Holds (owner_name k) a.owner_keys

can_read-option :
    (k : String) (o : Option Acl) → (can_read k o ≡ true) ↔ ((a : Acl) × (o ≡ some a) × CanRead k a)
unfolding can_read
can_read-option k none = ((λ h. ground (arith, h)), (λ (a, e, p). ground (arith, e)))
can_read-option k (some a) = (
  (λ h. (a, refl, ground (arith, h))),
  (λ (b, e, p). let same = some-injective _ _ e in rw same (ground (arith, p))),
)

can_write-option :
    (k : String) (o : Option Acl)
    → (can_write k o ≡ true) ↔ ((a : Acl) × (o ≡ some a) × CanWrite k a)
unfolding can_write
can_write-option k none = ((λ h. ground (arith, h)), (λ (a, e, p). ground (arith, e)))
can_write-option k (some a) =
    ((λ h. (a, refl, h)), (λ (b, e, p). let same = some-injective _ _ e in rw same p))

can_read_iff :
    (k t : String) (w : World) → (can_read k (stored_acl t w.acls) ≡ true) ↔ OnList t (CanRead k) w
can_read_iff k t w = can_read-option k (stored_acl t w.acls)

can_write_iff :
    (k t : String) (w : World)
    → (can_write k (stored_acl t w.acls) ≡ true) ↔ OnList t (CanWrite k) w
can_write_iff k t w = can_write-option k (stored_acl t w.acls)

or_iff : {P : Type 0} (b c : Bool) → ((b ≡ true) ↔ P) → (((b || c) ≡ true) ↔ (P ⊎ (c ≡ true)))
or_iff true c iff = ((λ h. inl (iff.0 refl)), (λ h. refl))
or_iff false c iff =
    ((λ h. inr h), (λ h. elim h [ inl p ↦ absurd (ground (arith, iff.1 p)) | inr e ↦ e ]))

either_iff : {P Q R S : Type 0} → (P ↔ (Q ⊎ R)) → (R ↔ S) → (P ↔ (Q ⊎ S))
either_iff f g = (
  (λ p. elim (f.0 p) [ inl q ↦ inl q | inr r ↦ inr (g.0 r) ]),
  (λ h. elim h [ inl q ↦ f.1 (inl q) | inr s ↦ f.1 (inr (g.1 s)) ]),
)

ok-injective : {a b : Bool} → ◌≡◌ {A = Result AclFailure Bool} (ok a) (ok b) → a ≡ b
ok-injective h = ground (arith, h)

write_not_read : ◌≢◌ {A = String} "write" "read"
write_not_read h = ground (arith, (eq_iff "write" "read").1 h)

module _ (k t required : String) (test : Option Acl → Bool) where
  ask_acl-eq :
      (b : Bool) (w : World)
      → AclAgrees w
      → w.acl_ready ≡ true
      → ((ask_acl test t b w).0 ≡ ok (b || test (stored_acl t w.acls)))
        × SameLists w (ask_acl test t b w).1
        × AclAgrees (ask_acl test t b w).1
  unfolding ask_acl
  ask_acl-eq true w c r = (refl, ground arith, c)
  ask_acl-eq false w c r =
      let (e, same, c') = get_table_acl-eq t w c r in
      rw (bind_ok (get_table_acl t) _ w e) (refl, same, c')

  decide_lem :
      (w : World)
      → NoColon t
      → IsSettled w
      → (b : Bool) × (((rbac_allows k t required >>= ask_acl test t) w).0 ≡ ok b)
        × ((b ≡ true) ↔ (IsPermitted k t required w.rbac ⊎ (test (stored_acl t w.acls) ≡ true)))
        × (((rbac_allows k t required >>= ask_acl test t) w).1.acls ≡ w.acls)
        × SameTables w.rbac ((rbac_allows k t required >>= ask_acl test t) w).1.rbac
        × IsSettled ((rbac_allows k t required >>= ask_acl test t) w).1
  unfolding rbac_allows
  decide_lem w plain h =
      let (b, answer, iff, same, c) =
        check_access_iff k t required w.rbac plain h.coherent h.ready in
      let v = record w { rbac = (check_access k t required w.rbac).1 } in
      let agrees : AclAgrees v = record {
        at = λ j a f. h.agrees.at j a (ap (λ n. fresh n (lookup j w.acl_cache)) (sym same.now) ∙ f);
      } in
      let (e, kept, c') = ask_acl-eq b v agrees h.acl_ready in
      let allowed : (rbac_allows k t required w).0 ≡ ok b = rw answer refl in
      rw (bind_ok (rbac_allows k t required) (ask_acl test t) w allowed) (
        b || test (stored_acl t w.acls),
        e,
        or_iff b (test (stored_acl t w.acls)) iff,
        kept.acls,
        rw kept.rbac same,
        record {
          coherent = rw kept.rbac c;
          ready = ap (λ x. x.ready) kept.rbac ∙ same.ready ∙ h.ready;
          agrees = c';
          acl_ready = kept.ready ∙ h.acl_ready;
        },
      )

-- In a settled state and for a table name without a colon, checkReadAccess returns an answer, which
-- is `true` exactly when RBAC permits the read or the table's lists name the key (or 'public', for
-- no key) as an owner or a reader. No list and no RBAC table changes, and the state stays settled.
pub check_read_access_iff :
    (t k : String) (w : World)
    → NoColon t
    → IsSettled w
    → (b : Bool) × ((check_read_access t k w).0 ≡ ok b)
      × ((b ≡ true) ↔ (IsPermitted k t "read" w.rbac ⊎ OnList t (CanRead k) w))
      × ((check_read_access t k w).1.acls ≡ w.acls)
      × SameTables w.rbac (check_read_access t k w).1.rbac
      × IsSettled (check_read_access t k w).1
unfolding check_read_access
check_read_access_iff t k w plain h =
    let (b, e, iff, lists, same, settled) = decide_lem k t "read" (can_read k) w plain h in
    (b, e, either_iff iff (can_read_iff k t w), lists, same, settled)

-- In a settled state and for a table name without a colon, checkWriteAccess returns an answer,
-- which is `true` exactly when RBAC permits the write or the table's lists name the key (or
-- 'public', for no key) as an owner. No list and no RBAC table changes, and the state stays settled.
pub check_write_access_iff :
    (t k : String) (w : World)
    → NoColon t
    → IsSettled w
    → (b : Bool) × ((check_write_access t k w).0 ≡ ok b)
      × ((b ≡ true) ↔ (IsPermitted k t "write" w.rbac ⊎ OnList t (CanWrite k) w))
      × ((check_write_access t k w).1.acls ≡ w.acls)
      × SameTables w.rbac (check_write_access t k w).1.rbac
      × IsSettled (check_write_access t k w).1
unfolding check_write_access
check_write_access_iff t k w plain h =
    let (b, e, iff, lists, same, settled) = decide_lem k t "write" (can_write k) w plain h in
    (b, e, either_iff iff (can_write_iff k t w), lists, same, settled)

IsPermitted-write :
    (k t : String) (w : World) → IsPermitted k t "write" w.rbac → IsPermitted k t "read" w.rbac
IsPermitted-write k t w p = record {
  user = p.user;
  stored = p.stored;
  active = p.active;
  not_denied = p.not_denied;
  entitled = elim p.entitled [
    | inl super ↦ inl super
    | inr (inl (_, inl writes)) ↦ inr (inr (refl, inr (inl writes)))
    | inr (inl (_, inr writer)) ↦ inr (inr (refl, inr (inr (inl writer))))
    | inr (inr (other, _)) ↦ absurd (write_not_read other)
  ];
}

-- In a settled state (both sets of tables exist, no cache is stale) and for a table name without a
-- colon, whoever checkWriteAccess lets write a table is let read it by checkReadAccess.
pub write_access_reads :
    (t k : String) (w : World)
    → NoColon t
    → IsSettled w
    → (check_write_access t k w).0 ≡ ok true
    → (check_read_access t k w).0 ≡ ok true
write_access_reads t k w plain h granted =
    let (b, e, writes, _, _, _) = check_write_access_iff t k w plain h in
    let (c, f, reads, _, _, _) = check_read_access_iff t k w plain h in
    let b_true : b ≡ true = ok-injective (sym e ∙ granted) in
    f
    ∙ ap ok (
        reads.1 (elim (writes.0 b_true) [
          | inl p ↦ inl (IsPermitted-write k t w p)
          | inr (a, s, owns) ↦ inr (a, s, inl owns)
        ]))

-- A `deny` of RBAC does not bind an owner: checkAccess refuses him, and checkWriteAccess, which then
-- asks the table's lists, grants the write all the same.
pub denied_owner_writes :
    (t k : String) (w : World) (a : Acl)
    → NoColon t
    → IsSettled w
    → stored_permission k t w.rbac ≡ some "deny"
    → stored_acl t w.acls ≡ some a
    → Holds (owner_name k) a.owner_keys
    → ((check_access k t "write" w.rbac).0 ≡ ok false) × ((check_write_access t k w).0 ≡ ok true)
denied_owner_writes t k w a plain h denied stored owns =
    let (b, e, writes, _, _, _) = check_write_access_iff t k w plain h in
    (
      check_access_denied k t "write" w.rbac plain h.coherent h.ready denied,
      e ∙ ap ok (writes.1 (inr (a, stored, owns))),
    )
