-- ===== src/StorageConfig/File.antt =====
-- src/storage-config.js: the saved file, the settings in effect, and the two phases of a change.
-- Settings are maps from names to texts without the nulls.
use ichibi_lake.Base.{
  ℕ, suc, String, Bool, true, false, not, ◌&&◌, Option, none, some, List, [], ◌∷◌, ◌==◌, ltb,
  includes, if◌then◌else◌,
}
use ichibi_lake.Base.Dict.{Dict, lookup}

-- STORAGE_KEYS
abbrev pub storage_keys : List String
storage_keys =
    "DUCKLAKE_DATA_PATH" ∷ "S3_ENDPOINT" ∷ "S3_REGION" ∷ "S3_ACCESS_KEY" ∷ "S3_SECRET_KEY"
    ∷ "S3_SESSION_TOKEN" ∷ "S3_URL_STYLE" ∷ "S3_USE_SSL" ∷ "DATA_INLINING_ROW_LIMIT"
    ∷ "USE_FILESYSTEM_BLOBS" ∷ "BLOBS_PATH" ∷ []

abbrev pub pending_attempts : ℕ
pending_attempts = 3

abbrev pub Settings : Type 0
Settings = Dict String

-- switchFrom: the old data path and the settings that were in effect for it
pub record Switch : Type 0 where
  pub data_path : String
  pub settings : Settings

pub record LastError : Type 0 where
  pub at : ℕ
  pub message : String
  pub settings : Settings

-- The JSON document of the file; `none` is null or missing. `last_switch` is kept as it is.
pub record Document : Type 0 where
  pub settings : Option Settings
  pub pending : Bool
  pub previous : Option Settings
  pub switch_from : Option Switch
  pub saved_at : Option ℕ
  pub saved_by : Option String
  pub last_error : Option LastError
  pub last_switch : Option String
  pub confirmed_at : Option ℕ

-- A gateway process and its disk. `file` is what the file parses to, `none` when it is missing or
-- unreadable; `boot_env` and `env` are process.env before the file is applied and now.
pub record Gateway : Type 0 where
  pub boot_env : String → Option String
  pub env : String → Option String
  pub file : Option Document
  pub writable : Bool
  pub now : ℕ
  pub loaded : Option Document
  pub applied : Settings
  pub trying : Bool
  pub failures : ℕ

-- writeStorageFile: `none` is a throw, which leaves `loaded` and the file as they were.
unfoldable pub write_storage_file : Document → Gateway → Option Gateway
write_storage_file doc g =
    if g.writable then some (record g { file = some doc; loaded = some doc }) else none

abbrev pub pick_keys : List String → Settings → Settings
pick_keys [] settings = []
pick_keys (k ∷ ks) settings =
    let rest = pick_keys ks settings in
    elim (lookup k settings) [ some v ↦ (k, v) ∷ rest | none ↦ rest ]

unfoldable pub pick : Settings → Settings
unfolding lookup
pick settings = pick_keys storage_keys settings

abbrev pub or_empty : Option Settings → Settings
or_empty none = []
or_empty (some settings) = settings

abbrev pub or_else : Option String → Option String → Option String
or_else (some v) d = some v
or_else none d = d

-- The loop of setEnv, name by name: a name outside STORAGE_KEYS is left alone.
unfoldable pub set_env : Settings → Gateway → Gateway
unfolding lookup
set_env settings g = record g {
  env =
      λ k. if includes k storage_keys then or_else (lookup k settings) (g.boot_env k) else g.env k;
}

abbrev pub saved_settings : Option Document → Settings
saved_settings none = []
saved_settings (some doc) = or_empty doc.settings

abbrev pub is_pending : Option Document → Bool
is_pending none = false
is_pending (some doc) = doc.pending

unfoldable pub apply_storage_config_file : Gateway → Gateway
unfolding pick set_env
apply_storage_config_file g = set_env (pick (saved_settings g.file)) (record g {
  loaded = g.file;
  applied = pick (saved_settings g.file);
  trying = is_pending g.file;
  failures = 0;
})

-- The supervisor starts the process again: the environment is that of docker/.env and the module
-- is imported, which applies the file.
unfoldable pub restart : Gateway → Gateway
unfolding apply_storage_config_file
restart g = apply_storage_config_file (record g { env = g.boot_env })

-- Object.keys(applied).length ? { ...applied } : null
abbrev pub fallback : Settings → Option Settings
fallback [] = none
fallback (e ∷ es) = some (e ∷ es)

abbrev pub last_switch_of : Option Document → Option String
last_switch_of none = none
last_switch_of (some doc) = doc.last_switch

abbrev pub switch_of : Option String → Settings → Option Switch
switch_of none effective = none
switch_of (some path) effective =
    if path == "" then none else some (record { data_path = path; settings = pick effective })

-- by || null
abbrev pub or_null : Option String → Option String
or_null none = none
or_null (some by) = if by == "" then none else some by

unfoldable pub save_storage_config :
    Settings → Option String → Settings → Option String → Gateway → Option Gateway
unfolding write_storage_file pick
save_storage_config settings by effective switch_from g =
    write_storage_file
      (record {
        settings = some (pick settings);
        pending = true;
        previous = fallback g.applied;
        switch_from = switch_of switch_from effective;
        saved_at = some g.now;
        saved_by = or_null by;
        last_error = none;
        last_switch = last_switch_of g.loaded;
        confirmed_at = none;
      })
      g

-- The caller may record a finished switch in `extra`.
abbrev pub with_extra : Option String → Document → Document
with_extra none doc = doc
with_extra (some switched) doc = record doc { last_switch = some switched }

abbrev pub confirmed : ℕ → Document → Document
confirmed now doc = record doc {
  pending = false;
  switch_from = none;
  last_error = none;
  confirmed_at = some now;
}

-- A write that throws is logged.
abbrev pub or_same : Option Gateway → Gateway → Gateway
or_same none g = g
or_same (some written) g = written

unfoldable pub confirm_storage_config : Option String → Gateway → Gateway
unfolding write_storage_file
confirm_storage_config extra g = elim g.trying [
  | false ↦ g
  | true ↦ elim g.loaded [
    | none ↦ g
    | some doc ↦
        record (or_same (write_storage_file (with_extra extra (confirmed g.now doc)) g) g) {
          trying = false;
        }
  ]
]

-- redact
abbrev pub hide : String → Settings → Settings
hide k [] = []
hide k (entry ∷ rest) =
    (if entry.0 == k then (k, if entry.1 == "" then "" else "********") else entry) ∷ hide k rest

unfoldable pub redact : Settings → Settings
redact settings = hide "S3_SESSION_TOKEN" (hide "S3_SECRET_KEY" settings)

abbrev pub previous_of : Option Document → Settings
previous_of none = []
previous_of (some doc) = or_empty doc.previous

abbrev pub saved_at_of : Option Document → Option ℕ
saved_at_of none = none
saved_at_of (some doc) = doc.saved_at

abbrev pub saved_by_of : Option Document → Option String
saved_by_of none = none
saved_by_of (some doc) = doc.saved_by

-- `message` is the first line of the error, cut to 1000 characters.
unfoldable pub revert_storage_config : String → Gateway → Gateway
unfolding write_storage_file pick redact
revert_storage_config message g =
    record (or_same
      (write_storage_file
        (record {
          settings = some (pick (previous_of g.loaded));
          pending = false;
          previous = none;
          switch_from = none;
          saved_at = saved_at_of g.loaded;
          saved_by = saved_by_of g.loaded;
          last_error = some (record {
            at = g.now;
            message = message;
            settings = redact (pick (saved_settings g.loaded));
          });
          last_switch = last_switch_of g.loaded;
          confirmed_at = none;
        })
        g)
      g) { trying = false }

-- What noteAttachFailure returns, and the process after it.
unfoldable pub note_attach_failure : String → Bool → Gateway → Bool × Gateway
unfolding revert_storage_config
note_attach_failure message fatal g = elim g.trying [
  | false ↦ (false, g)
  | true ↦ elim g.loaded [
    | none ↦ (false, g)
    | some doc ↦
        let h = record g { failures = suc g.failures } in
        if not fatal && ltb h.failures pending_attempts
        then (false, h)
        else (true, revert_storage_config message h)
  ]
]

-- describeStorageSettings, for one name
pub data Source : Type 0 where
  from_console from_env from_default : Source

unfoldable pub describe_setting : (String → Option String) → String → Gateway → String × Source
unfolding lookup
describe_setting defaults k g = elim (lookup k g.applied) [
  | some v ↦ (v, from_console)
  | none ↦ elim (g.boot_env k) [
    | some v ↦
        if v == ""
        then (elim (defaults k) [ some d ↦ d | none ↦ "" ], from_default)
        else (v, from_env)
    | none ↦ (elim (defaults k) [ some d ↦ d | none ↦ "" ], from_default)
  ]
]

-- pendingSwitch
unfoldable pub pending_switch : Gateway → Option Switch
pending_switch g = elim g.trying [
  | false ↦ none
  | true ↦ elim g.loaded [ none ↦ none | some doc ↦ doc.switch_from ]
]
