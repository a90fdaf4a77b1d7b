-- ===== src/Settings/Revisions/Restored.antt =====
-- Restoring a revision, after any sequence of requests.
use go_pool.Prelude.{
  ℕ, suc, ◌≤◌, ◌≡◌, inl, inr, refl, sym, ap, ◌∙◌, arith, List, [], ◌∷◌, ◌++◌, Option, none, some,
  true, false, ◌==◌, All, ==_refl,
}
use go_pool.Access.Operator.{text_equal}
use go_pool.Settings.{Config, Editable, AlertSecrets, editable, no_secrets, provided, redact}
use go_pool.Settings.Validation.{validate_editable}
use go_pool.Settings.Files.{ConfigFile, holding, carried, load_optional, atomic_write}
use go_pool.Settings.Revisions.{
  ConfigLibrary, Store, Faults, saved, RevisionRow, current, merged, commit, save, restore,
  get_config_revision, new_row, restore_row,
}
use go_pool.Settings.Revisions.Requests.{
  saving, restoring, answer_request, Reaches, stop, request, save-cases, commit-cases, examine-inv,
  blanked, was_saved, with_row, save-commits, stops_saved, examine-unsaved,
}

-- No revision has an id that the table will give again.
abbrev pub IsNumbered : Store → Type 0
IsNumbered s = All (λ r. r.id ≤ s.last_id) s.revisions

get-append :
    (id : ℕ) (rs xs : List RevisionRow) (row : RevisionRow)
    → get_config_revision id rs ≡ some row
    → get_config_revision id (rs ++ xs) ≡ some row
unfolding get_config_revision
get-append id [] xs row h = cc
get-append id (r ∷ rs) xs row h = ground (arith, get-append id rs xs row)

get-last :
    (n : ℕ) (rs : List RevisionRow) (row : RevisionRow)
    → All (λ r. r.id ≤ n) rs
    → row.id ≡ suc n
    → get_config_revision row.id (rs ++ row ∷ []) ≡ some row
unfolding get_config_revision
get-last n [] row small id = rw (==_refl row.id) refl
get-last n (r ∷ rs) row small id =
    let other : (r.id == row.id) ≡ false = ground (arith, small.0) in
    rw other (get-last n rs row small.1 id)

abbrev Finds : ℕ → RevisionRow → Store → Type 0
Finds id row s = get_config_revision id s.revisions ≡ some row

save-Finds :
    (l : ConfigLibrary) (f : Faults) (actor expected : List ℕ) (e : Editable)
    (secrets : AlertSecrets) (s : Store) (id : ℕ) (row : RevisionRow)
    → Finds id row s
    → Finds id row (save l f actor expected e secrets s).1
save-Finds l f actor expected e secrets s id row found =
    let as_before : (rows : List RevisionRow)
        → rows ≡ s.revisions
        → get_config_revision id rows ≡ some row =
      λ rows same. ap (get_config_revision id) same ∙ found in
    elim (save-cases l f actor expected e secrets s) [
      | inl (r, stopped, h) ↦ as_before _ (ap (λ x. x.1.revisions) h)
      | inr (read, passed, h) ↦ elim (commit-cases l f actor read e secrets s) [
        | inl (r, t) ↦
            let after = merged read (carried s.file) e secrets in
            let new = new_row l (suc s.last_id) actor read after in
            ap (get_config_revision id) (ap (λ x. x.1.revisions) h ∙ ap (λ x. x.revisions) t)
            ∙ get-append id s.revisions (new ∷ []) row found
        | inr (r, (rows, last, file)) ↦ as_before _ (ap (λ x. x.1.revisions) h ∙ rows)
      ]
    ]

restore_row-Finds :
    (l : ConfigLibrary) (f : Faults) (actor expected : List ℕ) (s : Store) (o : Option RevisionRow)
    (id : ℕ) (row : RevisionRow)
    → Finds id row s
    → Finds id row (restore_row l f actor expected s o).1
restore_row-Finds l f actor expected s none id row found = found
restore_row-Finds l f actor expected s (some r) id row found =
    save-Finds l f actor expected r.after.settings no_secrets s id row found

-- A revision that is found is found after any requests.
Reaches-Finds :
    (l : ConfigLibrary) (s t : Store) (id : ℕ) (row : RevisionRow)
    → Reaches l s t
    → Finds id row s
    → Finds id row t
unfolding answer_request restore
Reaches-Finds l s t id row stop found = found
Reaches-Finds l s t id row (request (saving f actor expected e secrets) rest) found =
    Reaches-Finds l _ t id row rest (save-Finds l f actor expected e secrets s id row found)
Reaches-Finds l s t id row (request (restoring f actor expected k) rest) found =
    Reaches-Finds l _ t id row rest
      (restore_row-Finds l f actor expected s (get_config_revision k s.revisions) id row found)

abbrev pub no_faults : Faults
no_faults = record { write = none; insert_refused = false }

-- A valid change of a readable configuration, with its hash, is saved if no call fails.
save-accepts :
    (l : ConfigLibrary) (actor expected : List ℕ) (e : Editable) (secrets : AlertSecrets)
    (s : Store) (c : Config)
    → validate_editable l.parsers e ≡ none
    → s.file ≡ holding c
    → text_equal expected (l.config_hash (editable c) c.alert_secrets) ≡ true
    → let after = merged (blanked c) (carried s.file) e secrets in
      let row = new_row l (suc s.last_id) actor (blanked c) after in
      save l no_faults actor expected e secrets s ≡ (saved row, with_row after row s)
unfolding current load_optional commit atomic_write
save-accepts l actor expected e secrets s c valid held same =
    let hash = l.config_hash (editable c) c.alert_secrets in
    save-commits l no_faults actor expected hash e secrets s (blanked c) valid (ap (current l) held)
      same

provided-none : (s : List ℕ) → provided [] (provided s []) ≡ s
provided-none [] = refl
provided-none (c ∷ s) = refl

-- What a restore writes keeps the alert secrets that were read.
merged-secrets :
    (c : Config) (file : ConfigFile) (e : Editable)
    → (merged c (carried file) e no_secrets).alert_secrets ≡ c.alert_secrets
unfolding merged
merged-secrets c file e =
    let token = provided-none c.alert_secrets.telegram_token in
    let url = provided-none c.alert_secrets.webhook_url in
    λ i. record { telegram_token = token i; webhook_url = url i }

-- A row that `Save` answers with was committed.
committed-row :
    (l : ConfigLibrary) (f : Faults) (actor : List ℕ) (read : Config) (e : Editable)
    (secrets : AlertSecrets) (s s' : Store) (row : RevisionRow)
    → IsNumbered s
    → commit l f actor read e secrets s ≡ (saved row, s')
    → (row.after.settings ≡ e) × Finds row.id row s'
unfolding merged redact
committed-row l f actor read e secrets s s' row numbered h =
    let after = merged read (carried s.file) e secrets in
    let new = new_row l (suc s.last_id) actor read after in
    elim (commit-cases l f actor read e secrets s) [
      | inl (r, t) ↦
          let answers : saved new ≡ saved row = sym r ∙ ap (λ x. x.0) h in
          let same : new ≡ row = cc (answers) in
          let rows : s'.revisions ≡ s.revisions ++ row ∷ [] =
            ap (λ x. x.1.revisions) (sym h)
            ∙ ap (λ x. x.revisions) t
            ∙ ap (λ x. s.revisions ++ x ∷ []) same in
          let last = get-last s.last_id s.revisions row numbered (ap (λ x. x.id) (sym same)) in
          (ap (λ x. x.after.settings) (sym same), ap (get_config_revision row.id) rows ∙ last)
      | inr (r, rest) ↦
          let impossible : true ≡ false = ap (λ x. was_saved x.0) (sym h) ∙ r in cc (impossible)
    ]

-- The row that `Save` answers with has the settings that it was given, which are valid.
saved-row :
    (l : ConfigLibrary) (f : Faults) (actor expected : List ℕ) (e : Editable)
    (secrets : AlertSecrets) (s s' : Store) (row : RevisionRow)
    → IsNumbered s
    → save l f actor expected e secrets s ≡ (saved row, s')
    → (validate_editable l.parsers e ≡ none) × ((row.after.settings ≡ e) × Finds row.id row s')
saved-row l f actor expected e secrets s s' row numbered h =
    elim (save-cases l f actor expected e secrets s) [
      | inl (r, stopped, k) ↦
          let unsaved = ap stops_saved (sym stopped) ∙ examine-unsaved l expected e s.file in
          let impossible : true ≡ false = ap (λ x. was_saved x.0) (sym h ∙ k) ∙ unsaved in
          cc (impossible)
      | inr (read, passed, k) ↦ (
        (examine-inv l expected e s.file read passed).0,
        committed-row l f actor read e secrets s s' row numbered (sym k ∙ h),
      )
    ]

-- Let `Save` answer with a revision, in a table whose ids are at most the last one given, and let any
-- requests to save or to restore follow, at the end of which the file holds a configuration. Then
-- `Restore` of that revision, with the hash of this configuration and if no call fails, succeeds:
-- the file holds the settings of the first `Save` with the alert secrets of this configuration.
pub restore-save :
    (l : ConfigLibrary) (f : Faults) (first second expected expected' : List ℕ) (e : Editable)
    (secrets : AlertSecrets) (s s' t : Store) (row : RevisionRow) (c : Config)
    → IsNumbered s
    → save l f first expected e secrets s ≡ (saved row, s')
    → Reaches l s' t
    → t.file ≡ holding c
    → text_equal expected' (l.config_hash (editable c) c.alert_secrets) ≡ true
    → let (r, t') = restore l no_faults second expected' row.id t in
      (was_saved r ≡ true)
      × ((d : Config) × (t'.file ≡ holding d)
          × (editable d ≡ e)
          × (d.alert_secrets ≡ c.alert_secrets))
unfolding restore merged
restore-save l f first second expected expected' e secrets s s' t row c numbered h reached held
      same =
    let (valid, (settings, found)) = saved-row l f first expected e secrets s s' row numbered h in
    let found_t = Reaches-Finds l s' t row.id row reached found in
    let valid' : validate_editable l.parsers row.after.settings ≡ none =
      ap (validate_editable l.parsers) settings ∙ valid in
    let run =
      ap (restore_row l no_faults second expected' t) found_t
      ∙ save-accepts l second expected' row.after.settings no_secrets t c valid' held same in
    let d = merged (blanked c) (carried t.file) row.after.settings no_secrets in
    (
      ap (λ x. was_saved x.0) run,
      (d, ap (λ x. x.1.file) run, settings, merged-secrets (blanked c) t.file row.after.settings),
    )
