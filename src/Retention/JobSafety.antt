-- ===== src/Retention/JobSafety.antt =====
-- src/console/retention.js: what a job as a whole leaves of the lake: the loop of runJob over the
-- tables that matchTables selects.
use ichibi_lake.Base.{String, ◌≡◌, Bool, true, not, ◌&&◌, List, [], ◌∷◌, map, includes}
use ichibi_lake.Retention.Evaluation.{Lake, Services}

-- No text stands in the list twice.
abbrev pub distinct : List String → Bool
distinct [] = true
distinct (x ∷ xs) = not (includes x xs) && distinct xs

-- What the job relies on of the sort: it keeps the members, and does not repeat them.
abbrev pub IsSort : (List String → List String) → Type 0
IsSort sort =
    ((xs : List String) (t : String) → includes t (sort xs) ≡ includes t xs)
    × ((xs : List String) → distinct xs ≡ true → distinct (sort xs) ≡ true)

module _ {R : Type 0} (services : Services R) where
  -- The tables of a lake are those that its catalog lists, each once.
  abbrev pub table_names : Lake R → List String
  table_names lake = map (λ entry. entry.0) lake.tables
