-- ===== src/Settings/Revisions/Conflicts.antt =====
-- Two requests that were made against the same configuration.
use go_pool.Prelude.{
  ℕ, suc, ◌≡◌, inl, inr, refl, sym, ap, ◌∙◌, List, Option, none, some, true, false, if◌then◌else◌,
}
use go_pool.Access.Operator.{text_equal}
use go_pool.Settings.{Config, Editable, AlertSecrets, editable, redact}
use go_pool.Settings.Validation.{validate_editable, Invalid}
use go_pool.Settings.Files.{holding, carried, load_optional, atomic_write}
use go_pool.Settings.Revisions.{
  ConfigLibrary, Store, Faults, saved, RevisionRow, current, merged, commit, save, examine,
  Examined, proceed_from, stop_with, revision_conflict, expect, go_on, unless_invalid, new_row,
}
use go_pool.Settings.Revisions.Requests.{
  save-cases, commit-cases, blanked, was_saved, stops_saved, examine-unsaved, examine-inv,
  current-holding,
}
use go_pool.Settings.Revisions.Restored.{no_faults}

-- The file behind a `Save` that answers with a revision has the hash of this revision.
saved-current :
    (l : ConfigLibrary) (f : Faults) (actor expected : List ℕ) (e : Editable)
    (secrets : AlertSecrets) (s s' : Store) (row : RevisionRow)
    → save l f actor expected e secrets s ≡ (saved row, s')
    → (c : Config) × (current l s'.file ≡ some (c, row.config_hash))
unfolding current load_optional
saved-current l f actor expected e secrets s s' row h =
    elim (save-cases l f actor expected e secrets s) [
      | inl (r, stopped, k) ↦
          let unsaved = ap stops_saved (sym stopped) ∙ examine-unsaved l expected e s.file in
          let impossible : true ≡ false = ap (λ x. was_saved x.0) (sym h ∙ k) ∙ unsaved in
          cc (impossible)
      | inr (read, passed, k) ↦
          let after = merged read (carried s.file) e secrets in
          let new = new_row l (suc s.last_id) actor read after in
          elim (commit-cases l f actor read e secrets s) [
            | inl (r, t) ↦
                let answers : saved new ≡ saved row = sym r ∙ ap (λ x. x.0) (sym k ∙ h) in
                let same : new ≡ row = cc (answers) in
                let file : s'.file ≡ holding after =
                  ap (λ x. x.1.file) (sym h ∙ k) ∙ ap (λ x. x.file) t in
                (
                  blanked after,
                  ap (current l) file ∙ ap (λ x. some (blanked after, x.config_hash)) same,
                )
            | inr (r, rest) ↦
                let impossible : true ≡ false = ap (λ x. was_saved x.0) (sym h ∙ k) ∙ r in
                cc (impossible)
          ]
    ]

pub refused-lem :
    (l : ConfigLibrary) (f : Faults) (actor : List ℕ) (e : Editable) (secrets : AlertSecrets)
    (s : Store) (v : Option Invalid) (x : Examined)
    → x ≡ stop_with revision_conflict
    → let (r, t) = go_on l f actor e secrets s (unless_invalid v x) in
      (was_saved r ≡ false) × (t ≡ s)
refused-lem l f actor e secrets s (some reason) x h = (refl, refl)
refused-lem l f actor e secrets s none x h =
    let run = ap (go_on l f actor e secrets s) h in (ap (λ y. was_saved y.0) run, ap (λ y. y.1) run)

-- Of two calls of `Save` that follow each other and expect the same hash, let the first answer with a
-- revision of another hash. Then the second, with valid settings, answers with the conflict and leaves
-- the file and the table alone.
pub save-conflicts :
    (l : ConfigLibrary) (f g : Faults) (first second expected : List ℕ) (e e' : Editable)
    (secrets secrets' : AlertSecrets) (s s' : Store) (row : RevisionRow)
    → save l f first expected e secrets s ≡ (saved row, s')
    → text_equal expected row.config_hash ≡ false
    → validate_editable l.parsers e' ≡ none
    → save l g second expected e' secrets' s' ≡ (revision_conflict, s')
unfolding save examine
save-conflicts l f g first second expected e e' secrets secrets' s s' row h other valid =
    let (c, hash) = saved-current l f first expected e secrets s s' row h in
    let stopped : expect expected (current l s'.file) ≡ stop_with revision_conflict =
      ap (expect expected) hash
      ∙ ap (λ b. if b then proceed_from c else stop_with revision_conflict) other in
    rw valid (ap (go_on l g second e' secrets' s') stopped)

-- Let two calls of `Save` pass their checks before either of them writes, as the requests of two
-- operators can. If no call fails, both answer with a revision, the file holds the settings of the
-- one that writes last, and its revision shows as the settings before those of the file at first,
-- not those of the other call.
overlapping_saves-lost :
    (l : ConfigLibrary) (first second expected : List ℕ) (e e' : Editable)
    (secrets secrets' : AlertSecrets) (s : Store) (k c c' : Config)
    → s.file ≡ holding k
    → examine l expected e s.file ≡ proceed_from c
    → examine l expected e' s.file ≡ proceed_from c'
    → let (r, s') = commit l no_faults first c e secrets s in
      let (r', t) = commit l no_faults second c' e' secrets' s' in
      (was_saved r ≡ true)
      × ((d : Config) × (t.file ≡ holding d) × (editable d ≡ e'))
      × ((row : RevisionRow) × (r' ≡ saved row) × (row.before.settings ≡ editable k))
unfolding commit merged redact atomic_write
overlapping_saves-lost l first second expected e e' secrets secrets' s k c c' held h h' =
    let (_, s') = commit l no_faults first c e secrets s in
    let d = merged c' (carried s'.file) e' secrets' in
    let (hash, found, same) = (examine-inv l expected e' s.file c' h').1 in
    let read = current-holding l k c' hash (sym (ap (current l) held) ∙ found) in
    (refl, (d, refl, refl), (new_row l (suc s'.last_id) second c' d, refl, ap editable read))
