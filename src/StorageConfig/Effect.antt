-- ===== src/StorageConfig/Effect.antt =====
-- src/storage-config.js: what environment saved settings put in effect.
use ichibi_lake.Base.{
  String, ◌≡◌, refl, Option, none, List, [], ◌∷◌, eq_iff, includes, arith, if◌then◌else◌,
}
use ichibi_lake.Base.Dict.{lookup}
use ichibi_lake.StorageConfig.File.{
  storage_keys, Settings, Gateway, pick_keys, pick, or_empty, or_else, set_env, saved_settings,
  apply_storage_config_file, restart, fallback,
}

lookup-pick_keys :
    (k : String) (ks : List String) (s : Settings)
    → lookup k (pick_keys ks s) ≡ (if includes k ks then lookup k s else none)
unfolding lookup
lookup-pick_keys k [] s = refl
lookup-pick_keys k (j ∷ ks) s = ground (arith, lookup-pick_keys k ks s, eq_iff j k)

lookup-pick :
    (k : String) (s : Settings)
    → lookup k (pick s) ≡ (if includes k storage_keys then lookup k s else none)
unfolding pick
lookup-pick k s = lookup-pick_keys k storage_keys s

-- What the environment is while `settings` are in effect.
abbrev pub env_with : Settings → (String → Option String) → String → Option String
env_with settings boot k =
    if includes k storage_keys then or_else (lookup k settings) (boot k) else boot k

-- The environment is that of docker/.env with the applied settings over it.
abbrev pub IsInEffect : Gateway → Type 0
IsInEffect g = (k : String) → g.env k ≡ env_with g.applied g.boot_env k

pub env_with-pick :
    (s : Settings) (boot : String → Option String) (k : String)
    → env_with (pick s) boot k ≡ env_with s boot k
env_with-pick s boot k = ground (arith, lookup-pick k s)

pub env-restart :
    (g : Gateway) (k : String) → (restart g).env k ≡ env_with (saved_settings g.file) g.boot_env k
unfolding restart apply_storage_config_file set_env
env-restart g k = env_with-pick (saved_settings g.file) g.boot_env k

-- Every start puts the saved settings in effect.
restart-IsInEffect : (g : Gateway) → IsInEffect (restart g)
unfolding restart apply_storage_config_file set_env
restart-IsInEffect g k = refl

pub or_empty-fallback : (s : Settings) → or_empty (fallback s) ≡ s
or_empty-fallback [] = refl
or_empty-fallback (e ∷ es) = refl
