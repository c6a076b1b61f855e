-- ===== src/SqlTables/Names.antt =====
-- The `names` map of analyzeUserSql in src/sql-tables.js: what it holds, up to case.
use ichibi_lake.Base.{
  String, ◌≡◌, refl, Bool, true, some, List, [], ◌∷◌, inl, inr, ◌==◌, eq_iff, eq_refl, arith, any,
  All, Bool-cases, Option-cases,
}
use ichibi_lake.Base.Dict.{Dict, lookup, insert}
use ichibi_lake.SqlTables.Analyze.{remember, values}

module _ (lower : String → String) where
  -- Every key is the name's, in lower case.
  abbrev pub AreKeyed : Dict String → Type 0
  AreKeyed names = All (λ e. e.0 ≡ lower e.1) names

  abbrev pub holds_name : String → List String → Bool
  holds_name name names = any (λ n. lower n == lower name) names

  lookup-holds_name :
      (name : String) (names : Dict String) {v : String}
      → AreKeyed names
      → lookup (lower name) names ≡ some v
      → holds_name name (values names) ≡ true
  unfolding lookup
  lookup-holds_name name [] {v} k h = ground (arith, h)
  lookup-holds_name name (e ∷ es) {v} (k, ks) h = elim (Bool-cases (e.0 == lower name)) [
    | inl same ↦ ground (arith, k, same)
    | inr other ↦ ground (arith, lookup-holds_name name es {v = v} ks (ground (arith, h, other)))
  ]

  insert-holds_name :
      (name : String) (names : Dict String)
      → holds_name name (values (insert (lower name) name names)) ≡ true
  unfolding insert
  insert-holds_name name [] = ground (arith, eq_refl (lower name))
  insert-holds_name name (e ∷ es) = ground (arith, insert-holds_name name es, eq_refl (lower name))

  insert-AreKeyed :
      (name : String) (names : Dict String)
      → AreKeyed names
      → AreKeyed (insert (lower name) name names)
  unfolding insert
  insert-AreKeyed name [] k = (refl, tt)
  insert-AreKeyed name (e ∷ es) (k, ks) = elim (Bool-cases (e.0 == lower name)) [
    | inl same ↦ rw same (refl, ks)
    | inr other ↦ rw other (k, insert-AreKeyed name es ks)
  ]

  insert-keeps :
      (name other : String) (names : Dict String)
      → AreKeyed names
      → holds_name other (values names) ≡ true
      → holds_name other (values (insert (lower name) name names)) ≡ true
  unfolding insert
  insert-keeps name other [] k h = ground (arith, h)
  insert-keeps name other (e ∷ es) (k, ks) h = elim (Bool-cases (e.0 == lower name)) [
    | inl same ↦ ground (arith, h, k, same, eq_iff e.0 (lower name))
    | inr differs ↦ elim (Bool-cases (lower e.1 == lower other)) [
      | inl found ↦ ground (arith, differs, found)
      | inr missed ↦
          ground (arith, differs, missed, insert-keeps name other es ks (ground (arith, h, missed)))
    ]
  ]

  pub remember_lem :
      (name : String) (names : Dict String)
      → AreKeyed names
      → AreKeyed (remember lower name names)
        × (holds_name name (values (remember lower name names)) ≡ true)
        × ((other : String)
            → holds_name other (values names) ≡ true
            → holds_name other (values (remember lower name names)) ≡ true)
  unfolding remember
  remember_lem name names k = elim (Option-cases (lookup (lower name) names)) [
    | inl miss ↦
        rw (miss, remember)
          (
            insert-AreKeyed name names k,
            insert-holds_name name names,
            (λ other. insert-keeps name other names k),
          )
    | inr (v, hit) ↦
        rw (hit, remember) (k, lookup-holds_name name names {v = v} k hit, (λ other h. h))
  ]
