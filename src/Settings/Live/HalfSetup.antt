-- ===== src/Settings/Live/HalfSetup.antt =====
-- A completion of the set-up that wrote the file and could not record its revision
-- (`handleSetupComplete` of internal/api/setup_handlers.go with `Save` of
-- internal/configstore/store.go).
use go_pool.Prelude.{
  ℕ, ◌≡◌, refl, ap, ◌∙◌, List, [], ◌∷◌, Option, none, some, Bool, true, false, if◌then◌else◌,
  any_of,
}
use go_pool.Access.Operator.{text_equal}
use go_pool.Settings.{
  Config, Editable, AlertSecrets, codes, from_editable, no_settings, editable, is_set,
}
use go_pool.Settings.Validation.{validate_editable}
use go_pool.Settings.Files.{absent, holding, carried, load_optional, atomic_write}
use go_pool.Settings.Revisions.{
  ConfigLibrary, Store, Faults, SaveResult, saved, invalid, unreadable_config, revision_conflict,
  write_failed, not_recorded, no_revision, save, merged, commit, current, examine, expect,
  stop_with, proceed_from,
}
use go_pool.Settings.Revisions.Requests.{save-commits, was_saved, blanked}
use go_pool.Settings.Revisions.Conflicts.{refused-lem}
use go_pool.Settings.Live.{
  Api, Outside, Reply, revision, write_error, field_errors, store_unavailable, has_field_errors,
  handle_setup_complete, completed_with, complete_decoded,
}
use go_pool.Settings.Live.Completion.{no_errors-valid}

-- What fails in a request to complete the set-up, and its body.
pub record Completion : Type 0 where
  pub faults : Faults
  pub body : Option (Editable × AlertSecrets)

-- Requests to complete the set-up, one after the other, and their answers.
unfoldable pub completions : Outside → List Completion → Api → Store → List Reply × Api × Store
completions o [] a s = ([], a, s)
completions o (c ∷ cs) a s =
    let (r, a', s') = handle_setup_complete o c.faults c.body a s in
    let (rs, a'', s'') = completions o cs a' s' in (r ∷ rs, a'', s'')

abbrev pub is_revision : Reply → Bool
is_revision (revision _) = true
is_revision _ = false

-- The answer is no revision, and nothing has changed.
abbrev Refused : Api → Store → Reply × Api × Store → Type 0
Refused a s (r, a', s') = (is_revision r ≡ false) × (a' ≡ a) × (s' ≡ s)

completed-Refused :
    (o : Outside) (r : SaveResult) (t s : Store) (a : Api)
    → was_saved r ≡ false
    → t ≡ s
    → Refused a s (completed_with o (r, t) a)
completed-Refused o (saved _) t s a h same = cc
completed-Refused o (invalid _) t s a h same = (refl, refl, same)
completed-Refused o unreadable_config t s a h same = (refl, refl, same)
completed-Refused o revision_conflict t s a h same = (refl, refl, same)
completed-Refused o write_failed t s a h same = (refl, refl, same)
completed-Refused o not_recorded t s a h same = (refl, refl, same)
completed-Refused o no_revision t s a h same = (refl, refl, same)

abbrev HashesAreSet : ConfigLibrary → Type 0
HashesAreSet l = (e : Editable) (s : AlertSecrets) → is_set (l.config_hash e s) ≡ true

empty-other : (hash : List ℕ) → is_set hash ≡ true → text_equal [] hash ≡ false
empty-other [] h = cc
empty-other (c ∷ hash) h = refl

-- Where something is configured, the set-up is not completed.
save-Refused :
    (o : Outside) (f : Faults) (e : Editable) (secrets : AlertSecrets) (a : Api) (s : Store)
    (c : Config)
    → HashesAreSet o.library
    → s.file ≡ holding c
    → Refused a s (completed_with o (save o.library f (codes "setup") [] e secrets s) a)
unfolding save examine current load_optional
save-Refused o f e secrets a s c hashes held =
    let l = o.library in
    let k = blanked c in
    let hash = l.config_hash (editable k) k.alert_secrets in
    let stopped : expect [] (current l s.file) ≡ stop_with revision_conflict =
      ap (λ file. expect [] (current l file)) held
      ∙ ap (λ b. if b then proceed_from k else stop_with revision_conflict)
          (empty-other hash (hashes (editable k) k.alert_secrets)) in
    let (unsaved, same) =
      refused-lem l f (codes "setup") e secrets s (validate_editable l.parsers e) _ stopped in
    completed-Refused o _ _ s a unsaved same

if-Refused :
    (a : Api) (s : Store) (b : Bool) (x y : Reply × Api × Store)
    → Refused a s x
    → Refused a s y
    → Refused a s (if b then x else y)
if-Refused a s true x y h k = h
if-Refused a s false x y h k = k

decoded-Refused :
    (o : Outside) (f : Faults) (body : Option (Editable × AlertSecrets)) (a : Api) (s : Store)
    (c : Config)
    → HashesAreSet o.library
    → s.file ≡ holding c
    → Refused a s (complete_decoded o f body a s)
decoded-Refused o f none a s c hashes held = (refl, refl, refl)
decoded-Refused o f (some (e, secrets)) a s c hashes held =
    if-Refused a s (has_field_errors o.library.parsers e) (field_errors, a, s) _ (refl, refl, refl)
      (save-Refused o f e secrets a s c hashes held)

handle-Refused :
    (o : Outside) (f : Faults) (body : Option (Editable × AlertSecrets)) (a : Api) (s : Store)
    (c : Config)
    → HashesAreSet o.library
    → s.file ≡ holding c
    → Refused a s (handle_setup_complete o f body a s)
unfolding handle_setup_complete
handle-Refused o f body a s c hashes held =
    if-Refused a s a.config_store _ (store_unavailable, a, s)
      (decoded-Refused o f body a s c hashes held) (refl, refl, refl)

completions-Refused :
    (o : Outside) (cs : List Completion) (a : Api) (s : Store) (c : Config)
    → HashesAreSet o.library
    → s.file ≡ holding c
    → let (rs, a', s') = completions o cs a s in
      (any_of is_revision rs ≡ false) × (a' ≡ a) × (s' ≡ s)
unfolding completions
completions-Refused o [] a s c hashes held = (refl, refl, refl)
completions-Refused o (x ∷ cs) a s c hashes held =
    let (other, api, store) = handle-Refused o x.faults x.body a s c hashes held in
    let x' = handle_setup_complete o x.faults x.body a s in
    let (others, api', store') =
      completions-Refused o cs x'.1 x'.2 c hashes (ap (λ t. t.file) store ∙ held) in
    (rw other others, api' ∙ api, store' ∙ store)

-- The file is written, and the revision cannot be inserted.
abbrev pub unrecorded : Faults
unrecorded = record { write = none; insert_refused = true }

-- Let nothing be configured, and let the set-up be completed with settings without field errors,
-- where the file is written and the insertion of the revision fails. The answer is an error although
-- the file holds the settings. If no hash of a configuration is empty, every later completion,
-- whatever it sends, is refused, and changes nothing: the set-up is never completed.
pub half_setup-never_completes :
    (o : Outside) (e : Editable) (secrets : AlertSecrets) (a : Api) (s : Store)
    (cs : List Completion)
    → HashesAreSet o.library
    → a.config_store ≡ true
    → s.file ≡ absent
    → has_field_errors o.library.parsers e ≡ false
    → let (r, a', s') = handle_setup_complete o unrecorded (some (e, secrets)) a s in
      let (rs, a'', s'') = completions o cs a' s' in
      (r ≡ write_error)
      × ((d : Config) × (s'.file ≡ holding d) × (editable d ≡ e))
      × (any_of is_revision rs ≡ false)
      × (a'' ≡ a)
      × (s'' ≡ s')
unfolding handle_setup_complete commit atomic_write merged current load_optional
half_setup-never_completes o e secrets a s cs hashes store fresh errors =
    let valid = no_errors-valid o.library.parsers e errors in
    let before = from_editable no_settings in
    let after = merged before (carried s.file) e secrets in
    let t = record s { file = holding after } in
    let written =
      save-commits o.library unrecorded (codes "setup") [] [] e secrets s before valid
        (ap (current o.library) fresh) refl in
    let run : handle_setup_complete o unrecorded (some (e, secrets)) a s ≡ (write_error, a, t) =
      ap
        (λ b.
          if b
          then complete_decoded o unrecorded (some (e, secrets)) a s
          else (store_unavailable, a, s))
        store
      ∙ ap
          (λ b.
            if b
            then (field_errors, a, s)
            else completed_with o (save o.library unrecorded (codes "setup") [] e secrets s) a)
          errors
      ∙ ap (λ x. completed_with o x a) written in
    let x = handle_setup_complete o unrecorded (some (e, secrets)) a s in
    let file = ap (λ y. y.2.file) run in
    let (others, api, same) = completions-Refused o cs x.1 x.2 after hashes file in
    (ap (λ y. y.0) run, (after, file, refl), others, api ∙ ap (λ y. y.1) run, same)
