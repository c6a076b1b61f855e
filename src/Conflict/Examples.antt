-- ===== src/Conflict/Examples.antt =====
-- Runs of src/conflict.js, and an instance of the theorem about it.
use ichibi_lake.Base.{ℕ, ◌+◌, String, ◌≡◌, refl, inr, arith, ltb, if◌then◌else◌}
use ichibi_lake.Base.Exec.{ok, err, Exec}
use ichibi_lake.Base.Text.{matches}
use ichibi_lake.Conflict.{is_transaction_conflict, retry_on_conflict, retry_on_conflict_lem}

-- A write that loses until the version is 12; another instance adds 10 in each wait.
abbrev write : Exec ℕ String ℕ
write n = if ltb n 12 then (err "TRANSACTION CONFLICT: t", n + 1) else (ok n, n)

abbrev others : ℕ → ℕ → ℕ
others i n = n + 10

retry_tests :
    (retry_on_conflict others write 5 0 ≡ (ok 22, 22))
    × (retry_on_conflict others write 2 0 ≡ (err "TRANSACTION CONFLICT: t", 12))
unfolding retry_on_conflict is_transaction_conflict matches
retry_tests = (refl, refl)

retry_on_conflict_lem_example : retry_on_conflict others write 5 0 ≡ write 22
unfolding is_transaction_conflict matches
retry_on_conflict_lem_example =
    retry_on_conflict_lem others write 5 2 0 (ground arith) (refl, (refl, tt)) (inr refl)
