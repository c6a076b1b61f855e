-- ===== src/StorageConfig/Examples.antt =====
-- Runs of src/storage-config.js at concrete inputs, and instances of the theorems about it.
use ichibi_lake.Base.{
  String, ◌≡◌, refl, Bool, true, false, Option, none, some, [], ◌∷◌, ◌==◌, arith, if◌then◌else◌,
}
use ichibi_lake.Base.Dict.{lookup}
use ichibi_lake.StorageConfig.File.{
  Gateway, Settings, pick, restart, set_env, apply_storage_config_file, write_storage_file,
  save_storage_config, confirm_storage_config, note_attach_failure, revert_storage_config, redact,
  describe_setting, from_console, from_env,
}
use ichibi_lake.StorageConfig.Effect.{IsInEffect, env_with}
use ichibi_lake.StorageConfig.Recovery.{failed_change_restores, confirmed_change_stays}

-- docker/.env sets the data path; nothing was saved.
abbrev boot : String → Option String
boot k = if k == "DUCKLAKE_DATA_PATH" then some "data_files/" else none

abbrev running : Gateway
running = record {
  boot_env = boot;
  env = boot;
  file = none;
  writable = true;
  now = 5;
  loaded = none;
  applied = [];
  trying = false;
  failures = 0;
}

running-IsInEffect : IsInEffect running
unfolding lookup
running-IsInEffect k = ground arith

abbrev wanted : Settings
wanted = ("DUCKLAKE_DATA_PATH", "s3://lake") ∷ ("S3_SECRET_KEY", "x") ∷ ("OTHER", "y") ∷ []

abbrev or_running : Option Gateway → Gateway
or_running none = running
or_running (some g) = g

abbrev changed : Gateway
changed = or_running (save_storage_config wanted none [] none running)

changed-saved : save_storage_config wanted none [] none running ≡ some changed
unfolding save_storage_config write_storage_file
changed-saved = refl

storage_tests :
    ((restart changed).env "DUCKLAKE_DATA_PATH" ≡ some "s3://lake")
    × ((restart changed).env "OTHER" ≡ none)
    × ((restart (note_attach_failure "no bucket" true (restart changed)).1).env "DUCKLAKE_DATA_PATH"
        ≡ some "data_files/")
    × (describe_setting (λ k. none) "DUCKLAKE_DATA_PATH" (restart changed)
        ≡ ("s3://lake", from_console))
    × (describe_setting (λ k. none) "DUCKLAKE_DATA_PATH" running ≡ ("data_files/", from_env))
    × (redact wanted
        ≡ ("DUCKLAKE_DATA_PATH", "s3://lake") ∷ ("S3_SECRET_KEY", "********") ∷ ("OTHER", "y") ∷ [])
unfolding save_storage_config write_storage_file restart apply_storage_config_file set_env pick
    lookup note_attach_failure revert_storage_config redact describe_setting
storage_tests = (refl, refl, refl, refl, refl, refl)

failed_change_restores_example :
    let h0 = restart changed in
    let h1 = note_attach_failure "a" false h0 in
    let h2 = note_attach_failure "b" false h1.1 in
    let h3 = note_attach_failure "c" false h2.1 in
    let f = note_attach_failure "a" true h0 in
    ((h1.0 ≡ false)
      × (h2.0 ≡ false)
      × (h3.0 ≡ true)
      × ((k : String) → (restart h3.1).env k ≡ running.env k)
      × ((restart h3.1).trying ≡ false))
    × ((f.0 ≡ true)
        × ((k : String) → (restart f.1).env k ≡ running.env k)
        × ((restart f.1).trying ≡ false))
failed_change_restores_example =
    failed_change_restores wanted none [] none running changed running-IsInEffect changed-saved "a"
      "b" "c"

confirmed_change_stays_example :
    let h = confirm_storage_config none (restart changed) in
    ((k : String) → h.env k ≡ env_with wanted boot k)
    × ((m : String) (fatal : Bool) → note_attach_failure m fatal h ≡ (false, h))
    × ((k : String) → (restart h).env k ≡ h.env k)
    × ((restart h).trying ≡ false)
confirmed_change_stays_example =
    confirmed_change_stays wanted none [] none none running changed changed-saved
