-- ===== src/SqlTables/Allowed.antt =====
-- What analyzeUserSql of src/sql-tables.js lets pass.
use ichibi_lake.Base.{
  String, ◌≡◌, refl, true, false, List, [], ◌∷◌, ◌⊎◌, inl, inr, ◌==◌, eq_iff, arith, any, All,
}
use ichibi_lake.Base.Dict.{Dict}
use ichibi_lake.Base.Exec.{Result, ok, err}
use ichibi_lake.SqlTables.Ast.{Json, starts_with}
use ichibi_lake.SqlTables.Walk.{SqlError, Refs}
use ichibi_lake.SqlTables.Extract.{extract_table_references}
use ichibi_lake.SqlTables.Names.{AreKeyed, holds_name, remember_lem}
use ichibi_lake.SqlTables.Analyze.{
  last_name, in_lake, check_table, remember, collect_names, values, apply_policy, analyze_user_sql,
}

Result-cases :
    {A : Type 0} (r : Result SqlError A) → ((e : SqlError) × (r ≡ err e)) ⊎ ((a : A) × (r ≡ ok a))
Result-cases (err e) = inl (e, refl)
Result-cases (ok a) = inr (a, refl)

module _ (lower : String → String) where
  abbrev pub IsUserTable : String → Type 0
  IsUserTable name = starts_with b'_' name ≡ false

  -- The ways to write a table of ducklake.main that is no system table.
  abbrev pub InLake : List String → Type 0
  InLake (n ∷ []) = IsUserTable n
  InLake (q ∷ n ∷ []) = ((lower q ≡ "main") ⊎ (lower q ≡ "ducklake")) × IsUserTable n
  InLake (c ∷ s ∷ n ∷ []) = ((lower c ≡ "ducklake") × (lower s ≡ "main")) × IsUserTable n
  InLake _ = ⊥

  -- One of the names is the path's last name, up to case.
  abbrev pub IsListed : List String → List String → Type 0
  IsListed names [] = ⊥
  IsListed names (p ∷ ps) = any (λ n. lower n == lower (last_name p ps)) names ≡ true

  abbrev name_of : List String → String
  name_of [] = ""
  name_of (p ∷ ps) = last_name p ps

  check_table-InLake :
      (path : List String) (name : String)
      → check_table lower path ≡ ok name
      → InLake path × (name ≡ name_of path)
  unfolding check_table in_lake
  check_table-InLake [] name h = ground (arith, h)
  check_table-InLake (n ∷ []) name h = ground (arith, h)
  check_table-InLake (q ∷ n ∷ []) name h =
      ground (arith, h, eq_iff (lower q) "main", eq_iff (lower q) "ducklake")
  check_table-InLake (c ∷ s ∷ n ∷ []) name h =
      ground (arith, h, eq_iff (lower s) "main", eq_iff (lower c) "ducklake")
  check_table-InLake (a ∷ b ∷ c ∷ d ∷ es) name h = elim es [
    | [] ↦ absurd (ground (arith, h))
    | _ ∷ _ ↦ absurd (ground (arith, h))
  ]

  InLake-check_table :
      (path : List String) → InLake path → check_table lower path ≡ ok (name_of path)
  unfolding check_table in_lake
  InLake-check_table [] h = elim h [ ]
  InLake-check_table (n ∷ []) h = ground (arith, h)
  InLake-check_table (q ∷ n ∷ []) h =
      ground (arith, h, eq_iff (lower q) "main", eq_iff (lower q) "ducklake")
  InLake-check_table (c ∷ s ∷ n ∷ []) h =
      ground (arith, h, eq_iff (lower s) "main", eq_iff (lower c) "ducklake")
  InLake-check_table (c ∷ s ∷ n ∷ m ∷ es) h = elim h [ ]

  check_table-cases :
      (path : List String)
      → ((e : SqlError) × (check_table lower path ≡ err e))
        ⊎ ((name : String) × (check_table lower path ≡ ok name))
  check_table-cases path = Result-cases (check_table lower path)

  listed :
      (path : List String) (name : String) (names : List String)
      → InLake path
      → name ≡ name_of path
      → holds_name lower name names ≡ true
      → IsListed names path
  listed [] name names i w h = i
  listed (p ∷ ps) name names i w h = rw (← w) h

  -- What the loop accepts, and what its names then hold.
  collect_names-InLake :
      (paths : List (List String)) (names final : Dict String)
      → AreKeyed lower names
      → collect_names lower names paths ≡ ok final
      → All (λ path. InLake path × IsListed (values final) path) paths
        × ((other : String)
            → holds_name lower other (values names) ≡ true
            → holds_name lower other (values final) ≡ true)
  unfolding collect_names
  collect_names-InLake [] names final k h = (tt, (λ other f. ground (arith, h, f)))
  collect_names-InLake (path ∷ paths) names final k h = elim (check_table-cases path) [
    | inl (e, refused) ↦ absurd (ground (arith, h, refused))
    | inr (name, passed) ↦
        let (inside, which) = check_table-InLake path name passed in
        let (keyed, held, kept) = remember_lem lower name names k in
        let rest : collect_names lower (remember lower name names) paths ≡ ok final =
          ground (arith, h, passed) in
        let (all_inside, later) =
          collect_names-InLake paths (remember lower name names) final keyed rest in
        (
          ((inside, listed path name (values final) inside which (later name held)), all_inside),
          (λ other f. later other (kept other f)),
        )
  ]

  InLake-collect_names :
      (paths : List (List String)) (names : Dict String)
      → All InLake paths
      → (final : Dict String) × (collect_names lower names paths ≡ ok final)
  unfolding collect_names
  InLake-collect_names [] names h = (names, refl)
  InLake-collect_names (path ∷ paths) names (h, hs) =
      rw (InLake-check_table path h, collect_names)
        (InLake-collect_names paths (remember lower (name_of path) names) hs)

collected-cases :
    (lower : String → String) (paths : List (List String))
    → ((e : SqlError) × (collect_names lower [] paths ≡ err e))
      ⊎ ((names : Dict String) × (collect_names lower [] paths ≡ ok names))
collected-cases lower paths = Result-cases (collect_names lower [] paths)

no_call :
    (lower : String → String) (refs : Refs) (names : List String)
    → apply_policy lower refs ≡ ok names
    → refs.functions ≡ []
unfolding apply_policy
no_call lower refs names h = ground (arith, h)

apply_policy-InLake :
    (lower : String → String) (refs : Refs) (names : List String)
    → apply_policy lower refs ≡ ok names
    → (refs.functions ≡ [])
      × All (λ path. InLake lower path × IsListed lower names path) refs.tables
unfolding apply_policy
apply_policy-InLake lower refs names h =
    let none_called : refs.functions ≡ [] = no_call lower refs names h in
    elim (collected-cases lower refs.tables) [
      | inl (e, failed) ↦ absurd (ground (arith, h, failed, none_called))
      | inr (final, e) ↦
          let same : names ≡ values final = ground (arith, h, e, none_called) in
          (none_called, rw same (collect_names-InLake lower refs.tables [] final tt e).0)
    ]

-- A statement that analyzeUserSql accepts was walked without a refusal; the walk collected no table
-- function, and only tables of ducklake.main that are no system tables, each of which is listed, up
-- to case, in what it returns.
pub analyze_user_sql_collected :
    (lower : String → String) (parsed : Json) (names : List String)
    → analyze_user_sql lower parsed ≡ ok names
    → (refs : Refs) × (extract_table_references lower parsed ≡ ok refs)
      × (refs.functions ≡ [])
      × All (λ path. InLake lower path × IsListed lower names path) refs.tables
unfolding analyze_user_sql
analyze_user_sql_collected lower parsed names h =
    elim (Result-cases (extract_table_references lower parsed)) [
      | inl (e, failed) ↦ absurd (ground (arith, h, failed))
      | inr (refs, e) ↦
          let (none_called, inside) = apply_policy-InLake lower refs names (ground (arith, h, e)) in
          (refs, e, none_called, inside)
    ]

-- A statement that is walked without a refusal, where the walk collects no table function and only
-- tables of ducklake.main that are no system tables, is accepted.
pub analyze_user_sql_total :
    (lower : String → String) (parsed : Json) (refs : Refs)
    → extract_table_references lower parsed ≡ ok refs
    → refs.functions ≡ []
    → All (InLake lower) refs.tables
    → (names : List String) × (analyze_user_sql lower parsed ≡ ok names)
unfolding analyze_user_sql apply_policy
analyze_user_sql_total lower parsed refs e none_called inside =
    let (final, collected) = InLake-collect_names lower refs.tables [] inside in
    (values final, ground (arith, e, none_called, collected))
