-- ===== src/StorageConfig/Recovery.antt =====
-- src/storage-config.js: a change that cannot be attached is undone, a confirmed one stays.
use ichibi_lake.Base.{
  ℕ, suc, String, ◌≡◌, refl, sym, ap, ◌∙◌, Bool, true, false, not, ◌&&◌, ltb, Option, none, some,
  arith,
}
use ichibi_lake.StorageConfig.File.{
  pending_attempts, Settings, Document, Gateway, pick, is_pending, confirmed, with_extra,
  previous_of, or_empty, set_env, saved_settings, apply_storage_config_file, restart, fallback,
  write_storage_file, save_storage_config, confirm_storage_config, note_attach_failure,
  revert_storage_config,
}
use ichibi_lake.StorageConfig.Effect.{
  env_with, IsInEffect, env_with-pick, env-restart, or_empty-fallback,
}

-- Before the last attempt a failure is only counted.
note_counts :
    (m : String) (h : Gateway) {doc : Document}
    → h.trying ≡ true
    → h.loaded ≡ some doc
    → ltb (suc h.failures) pending_attempts ≡ true
    → note_attach_failure m false h ≡ (false, record h { failures = suc h.failures })
unfolding note_attach_failure
note_counts m h t l f = ground (arith, t, l, f)

-- What giving up leaves of a process.
abbrev GivenUp : Bool → Gateway → Option Settings → Gateway → Type 0
GivenUp answer before previous after =
    (answer ≡ true)
    × (saved_settings after.file ≡ pick (or_empty previous))
    × (is_pending after.file ≡ false)
    × (after.boot_env ≡ before.boot_env)
    × (after.trying ≡ false)

revert_storage_config-GivenUp :
    (m : String) (h : Gateway) {doc : Document}
    → h.loaded ≡ some doc
    → h.writable ≡ true
    → GivenUp true h doc.previous (revert_storage_config m h)
unfolding revert_storage_config write_storage_file
revert_storage_config-GivenUp m h {doc} l w =
    rw (w, revert_storage_config) (refl, ap (λ x. pick (previous_of x)) l, refl, refl, refl)

note_reverts :
    (m : String) (fatal : Bool) (h : Gateway) {doc : Document}
    → h.trying ≡ true
    → h.loaded ≡ some doc
    → (not fatal && ltb (suc h.failures) pending_attempts) ≡ false
    → note_attach_failure m fatal h
      ≡ (true, revert_storage_config m (record h { failures = suc h.failures }))
unfolding note_attach_failure
note_reverts m fatal h t l f = ground (arith, t, l, f)

note_gives_up :
    (m : String) (fatal : Bool) (h : Gateway) {doc : Document}
    → h.trying ≡ true
    → h.loaded ≡ some doc
    → h.writable ≡ true
    → (not fatal && ltb (suc h.failures) pending_attempts) ≡ false
    → GivenUp (note_attach_failure m fatal h).0 h doc.previous (note_attach_failure m fatal h).1
note_gives_up m fatal h {doc} t l w f =
    rw (note_reverts m fatal h {doc = doc} t l f)
      (revert_storage_config-GivenUp m (record h { failures = suc h.failures }) {doc = doc} l w)

-- The document of a change that is saved while `g` runs.
record IsChange (g g1 : Gateway) (settings : Settings) : Type 0 where
  doc : Document
  file : g1.file ≡ some doc
  pending : doc.pending ≡ true
  new : doc.settings ≡ some (pick settings)
  previous : doc.previous ≡ fallback g.applied
  writable : g1.writable ≡ true
  boot_env : g1.boot_env ≡ g.boot_env

write_storage_file-some :
    (doc : Document) (g g1 : Gateway)
    → write_storage_file doc g ≡ some g1
    → (g.writable ≡ true) × (g1 ≡ record g { file = some doc; loaded = some doc })
unfolding write_storage_file
write_storage_file-some doc g g1 h = ground (arith, h)

save-IsChange :
    (settings : Settings) (by : Option String) (effective : Settings) (switch_from : Option String)
    (g g1 : Gateway)
    → save_storage_config settings by effective switch_from g ≡ some g1
    → IsChange g g1 settings
unfolding save_storage_config
save-IsChange settings by effective switch_from g g1 h =
    let (w, e) = write_storage_file-some _ g g1 h in
    rw e (record {
      doc = _;
      file = refl;
      pending = refl;
      new = refl;
      previous = refl;
      writable = w;
      boot_env = refl;
    })

IsChange-pending :
    {g g1 : Gateway} {settings : Settings} (c : IsChange g g1 settings)
    → ((restart g1).trying ≡ true)
      × ((restart g1).loaded ≡ some c.doc)
      × ((restart g1).writable ≡ true)
      × ((restart g1).boot_env ≡ g.boot_env)
      × ((restart g1).failures ≡ 0)
unfolding restart apply_storage_config_file set_env
IsChange-pending c = (ap is_pending c.file ∙ c.pending, c.file, c.writable, c.boot_env, refl)

-- Where the settings before the change are the fallback, giving up brings their environment back.
restored :
    (g before after : Gateway) (answer : Bool) (previous : Option Settings)
    → IsInEffect g
    → GivenUp answer before previous after
    → previous ≡ fallback g.applied
    → before.boot_env ≡ g.boot_env
    → ((k : String) → (restart after).env k ≡ g.env k) × ((restart after).trying ≡ false)
unfolding restart apply_storage_config_file set_env
restored g before after answer previous settled (_, file, done, boot, _) p b = (
  (λ k.
      env-restart after k
      ∙ ap (λ x. env_with x after.boot_env k) file
      ∙ env_with-pick (or_empty previous) after.boot_env k
      ∙ ap (λ x. env_with (or_empty x) after.boot_env k) p
      ∙ ap (λ x. env_with x after.boot_env k) (or_empty-fallback g.applied)
      ∙ ap (λ x. env_with g.applied x k) (boot ∙ b)
      ∙ sym (settled k)),
  done,
)

-- After a change of the settings that were in effect is saved, and the gateway starts again, two
-- failures to attach the lake are counted and the third, or one that is fatal, is given up; the
-- start after that has the environment that was in effect before the change, and tries nothing.
-- The file can be written throughout.
pub failed_change_restores :
    (settings : Settings) (by : Option String) (effective : Settings) (switch_from : Option String)
    (g g1 : Gateway)
    → IsInEffect g
    → save_storage_config settings by effective switch_from g ≡ some g1
    → (m1 m2 m3 : String)
    → let h0 = restart g1 in
      let h1 = note_attach_failure m1 false h0 in
      let h2 = note_attach_failure m2 false h1.1 in
      let h3 = note_attach_failure m3 false h2.1 in
      let f = note_attach_failure m1 true h0 in
      ((h1.0 ≡ false)
        × (h2.0 ≡ false)
        × (h3.0 ≡ true)
        × ((k : String) → (restart h3.1).env k ≡ g.env k)
        × ((restart h3.1).trying ≡ false))
      × ((f.0 ≡ true)
          × ((k : String) → (restart f.1).env k ≡ g.env k)
          × ((restart f.1).trying ≡ false))
failed_change_restores settings by effective switch_from g g1 settled saved m1 m2 m3 =
    let c = save-IsChange settings by effective switch_from g g1 saved in
    let (t, l, w, boot, none_yet) = IsChange-pending c in
    let h0 = restart g1 in
    let r1 : Gateway = record h0 { failures = suc h0.failures } in
    let r2 : Gateway = record r1 { failures = suc r1.failures } in
    let first = note_counts m1 h0 {doc = c.doc} t l (ground (arith, none_yet)) in
    let second = note_counts m2 r1 {doc = c.doc} t l (ground (arith, none_yet)) in
    let third = note_gives_up m3 false r2 {doc = c.doc} t l w (ground (arith, none_yet)) in
    let at_once = note_gives_up m1 true h0 {doc = c.doc} t l w refl in
    let (env3, still3) = restored g r2 _ _ _ settled third c.previous boot in
    let (env1, still1) = restored g h0 _ _ _ settled at_once c.previous boot in
    rw (first, second) ((refl, refl, third.0, env3, still3), (at_once.0, env1, still1))

confirm_storage_config-eq :
    (extra : Option String) (h : Gateway) {doc : Document}
    → h.trying ≡ true
    → h.loaded ≡ some doc
    → h.writable ≡ true
    → let new = with_extra extra (confirmed h.now doc) in
      confirm_storage_config extra h
      ≡ record h { file = some new; loaded = some new; trying = false }
unfolding confirm_storage_config write_storage_file
confirm_storage_config-eq extra h {doc} t l w = ground (arith, t, l, w)

with_extra-confirmed :
    (extra : Option String) (now : ℕ) (doc : Document)
    → ((with_extra extra (confirmed now doc)).settings ≡ doc.settings)
      × ((with_extra extra (confirmed now doc)).pending ≡ false)
with_extra-confirmed none now doc = (refl, refl)
with_extra-confirmed (some switched) now doc = (refl, refl)

trying-restart : (h : Gateway) → is_pending h.file ≡ false → (restart h).trying ≡ false
unfolding restart apply_storage_config_file set_env
trying-restart h p = p

note_not_trying :
    (m : String) (fatal : Bool) (h : Gateway)
    → h.trying ≡ false
    → note_attach_failure m fatal h ≡ (false, h)
unfolding note_attach_failure
note_not_trying m fatal h t = ground (arith, t)

-- After a change is saved, the gateway starts on it and confirms it, the environment has the new
-- settings over that of docker/.env, no later failure to attach reverts it, and every further start
-- has the same environment. The file can be written throughout.
pub confirmed_change_stays :
    (settings : Settings) (by : Option String) (effective : Settings)
    (switch_from extra : Option String) (g g1 : Gateway)
    → save_storage_config settings by effective switch_from g ≡ some g1
    → let h = confirm_storage_config extra (restart g1) in
      ((k : String) → h.env k ≡ env_with settings g.boot_env k)
      × ((m : String) (fatal : Bool) → note_attach_failure m fatal h ≡ (false, h))
      × ((k : String) → (restart h).env k ≡ h.env k)
      × ((restart h).trying ≡ false)
confirmed_change_stays settings by effective switch_from extra g g1 saved =
    let c = save-IsChange settings by effective switch_from g g1 saved in
    let (t, l, w, boot, _) = IsChange-pending c in
    let h0 = restart g1 in
    let new = with_extra extra (confirmed h0.now c.doc) in
    let (kept, over) = with_extra-confirmed extra h0.now c.doc in
    let h : Gateway = record h0 { file = some new; loaded = some new; trying = false } in
    let started = λ (k : String).
      env-restart g1 k
      ∙ ap (λ x. env_with (saved_settings x) g1.boot_env k) c.file
      ∙ ap (λ x. env_with (or_empty x) g1.boot_env k) c.new
      ∙ env_with-pick settings g1.boot_env k
      ∙ ap (λ x. env_with settings x k) c.boot_env in
    let again = λ (k : String).
      env-restart h k
      ∙ ap (λ x. env_with (or_empty x) h.boot_env k) (kept ∙ c.new)
      ∙ env_with-pick settings h.boot_env k
      ∙ ap (λ x. env_with settings x k) boot in
    rw (confirm_storage_config-eq extra h0 {doc = c.doc} t l w) (
      started,
      (λ m fatal. note_not_trying m fatal h refl),
      (λ k. again k ∙ sym (started k)),
      trying-restart h over,
    )
