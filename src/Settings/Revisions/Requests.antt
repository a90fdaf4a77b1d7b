-- ===== src/Settings/Revisions/Requests.antt =====
-- Requests to save and to restore settings, in any sequence, and how one of them can end.
use go_pool.Prelude.{
  ℕ, suc, arith, ◌≡◌, ◌⊎◌, inl, inr, refl, sym, ap, ◌∙◌, List, [], Option, none, some, Bool, true,
  false, Bool-cases, if◌then◌else◌,
}
use go_pool.Access.Operator.{text_equal}
use go_pool.Settings.{Config, Editable, AlertSecrets}
use go_pool.Settings.Validation.{validate_editable, Invalid}
use go_pool.Settings.Files.{
  ConfigFile, holding, carried, load_optional, atomic_write, WriteCall, is_renamed,
}
use go_pool.Settings.Revisions.{
  ConfigLibrary, Store, Faults, SaveResult, saved, RevisionRow, current, merged, commit, save,
  restore, examine, Examined, proceed_from, stop_with, revision_conflict, unless_invalid, expect,
  go_on, record_revision, new_row, insert_config_revision,
}

pub data Request : Type 0 where
  saving : Faults → List ℕ → List ℕ → Editable → AlertSecrets → Request
  restoring : Faults → List ℕ → List ℕ → ℕ → Request

unfoldable pub answer_request : ConfigLibrary → Request → Store → SaveResult × Store
answer_request l (saving f actor expected e secrets) s = save l f actor expected e secrets s
answer_request l (restoring f actor expected id) s = restore l f actor expected id s

-- Requests that follow each other, none beginning before the one before has ended.
pub data Reaches (l : ConfigLibrary) : Store → Store → Type 0 where
  stop : {s : Store} → Reaches l s s
  request : {s t : Store} (q : Request) → Reaches l (answer_request l q s).1 t → Reaches l s t

abbrev pub was_saved : SaveResult → Bool
was_saved (saved _) = true
was_saved _ = false

abbrev StopsOr : (x : Examined) → Type 0
StopsOr x = ((r : SaveResult) × (x ≡ stop_with r)) ⊎ ((c : Config) × (x ≡ proceed_from c))

examined-cases : (x : Examined) → StopsOr x
examined-cases (stop_with r) = inl (r, refl)
examined-cases (proceed_from c) = inr (c, refl)

-- A call of `Save` stops before the write, or passed the checks and commits.
pub save-cases :
    (l : ConfigLibrary) (f : Faults) (actor expected : List ℕ) (e : Editable)
    (secrets : AlertSecrets) (s : Store)
    → ((r : SaveResult) × (examine l expected e s.file ≡ stop_with r)
        × (save l f actor expected e secrets s ≡ (r, s)))
      ⊎ ((c : Config) × (examine l expected e s.file ≡ proceed_from c)
          × (save l f actor expected e secrets s ≡ commit l f actor c e secrets s))
unfolding save
save-cases l f actor expected e secrets s = elim (examined-cases (examine l expected e s.file)) [
  | inl (r, h) ↦ inl (r, h, ap (go_on l f actor e secrets s) h)
  | inr (c, h) ↦ inr (c, h, ap (go_on l f actor e secrets s) h)
]

-- No revision was recorded, and the file is the one before or holds this configuration.
abbrev Unrecorded : Config → Store → Store → Type 0
Unrecorded c s t =
    (t.revisions ≡ s.revisions)
    × (t.last_id ≡ s.last_id)
    × ((t.file ≡ s.file) ⊎ (t.file ≡ holding c))

abbrev pub with_row : Config → RevisionRow → Store → Store
with_row c row s = insert_config_revision row (record s { file = holding c })

abbrev Ended : Config → RevisionRow → Store → SaveResult × Store → Type 0
Ended c row s (r, t) =
    ((r ≡ saved row) × (t ≡ with_row c row s)) ⊎ ((was_saved r ≡ false) × Unrecorded c s t)

inserted-cases :
    (refused : Bool) (c : Config) (row : RevisionRow) (s : Store)
    → Ended c row s (
        record_revision (record { write = none; insert_refused = refused }) row (true, holding c) s)
inserted-cases true c row s = inr (refl, (refl, refl, inr refl))
inserted-cases false c row s = inl (refl, refl)

record_revision-cases :
    (f : Faults) (c : Config) (row : RevisionRow) (s : Store) (w : Option WriteCall)
    → Ended c row s (record_revision f row (atomic_write w c s.file) s)
unfolding atomic_write
record_revision-cases f c row s none = inserted-cases f.insert_refused c row s
record_revision-cases f c row s (some call) = elim (Bool-cases (is_renamed call)) [
  | inl h ↦ inr (refl, (refl, refl, inr (rw h refl)))
  | inr h ↦ inr (refl, (refl, refl, inl (rw h refl)))
]

-- A commit records the revision and holds the new configuration, or records nothing.
pub commit-cases :
    (l : ConfigLibrary) (f : Faults) (actor : List ℕ) (c : Config) (e : Editable)
    (secrets : AlertSecrets) (s : Store)
    → let after = merged c (carried s.file) e secrets in
      Ended after (new_row l (suc s.last_id) actor c after) s (commit l f actor c e secrets s)
unfolding commit
commit-cases l f actor c e secrets s =
    let after = merged c (carried s.file) e secrets in
    record_revision-cases f after (new_row l (suc s.last_id) actor c after) s f.write

unless_invalid-inv :
    (v : Option Invalid) (x : Examined) (c : Config)
    → unless_invalid v x ≡ proceed_from c
    → (v ≡ none) × (x ≡ proceed_from c)
unless_invalid-inv none x c h = (refl, h)
unless_invalid-inv (some reason) x c h = cc

compared-inv :
    (b : Bool) (c d : Config)
    → (if b then proceed_from d else stop_with revision_conflict) ≡ proceed_from c
    → (d ≡ c) × (b ≡ true)
compared-inv true c d h = (cc (h), refl)
compared-inv false c d h = cc

expect-inv :
    (expected : List ℕ) (o : Option (Config × List ℕ)) (c : Config)
    → expect expected o ≡ proceed_from c
    → (hash : List ℕ) × (o ≡ some (c, hash)) × (text_equal expected hash ≡ true)
expect-inv expected none c h = cc
expect-inv expected (some (d, hash)) c h =
    let (same, equal) = compared-inv (text_equal expected hash) c d h in
    (hash, ap (λ k. some (k, hash)) same, equal)

abbrev pub stops_saved : Examined → Bool
stops_saved (stop_with r) = was_saved r
stops_saved (proceed_from _) = false

unless_invalid-unsaved :
    (expected : List ℕ) (v : Option Invalid) (o : Option (Config × List ℕ))
    → stops_saved (unless_invalid v (expect expected o)) ≡ false
unless_invalid-unsaved expected (some reason) o = refl
unless_invalid-unsaved expected none none = refl
unless_invalid-unsaved expected none (some (c, hash)) = ground arith

-- What the checks stop with is not a revision.
pub examine-unsaved :
    (l : ConfigLibrary) (expected : List ℕ) (e : Editable) (file : ConfigFile)
    → stops_saved (examine l expected e file) ≡ false
unfolding examine
examine-unsaved l expected e file =
    unless_invalid-unsaved expected (validate_editable l.parsers e) (current l file)

-- What passed the checks is valid, was readable, and came with the hash of what was read.
pub examine-inv :
    (l : ConfigLibrary) (expected : List ℕ) (e : Editable) (file : ConfigFile) (c : Config)
    → examine l expected e file ≡ proceed_from c
    → (validate_editable l.parsers e ≡ none)
      × ((hash : List ℕ) × (current l file ≡ some (c, hash)) × (text_equal expected hash ≡ true))
unfolding examine
examine-inv l expected e file c h =
    let v =
      unless_invalid-inv (validate_editable l.parsers e) (expect expected (current l file)) c h in
    (v.0, expect-inv expected (current l file) c v.1)

-- The configuration that is read from the file.
abbrev pub blanked : Config → Config
blanked c = record c { private_key = []; session_secret = []; wallet_json_file = [] }

pub current-holding :
    (l : ConfigLibrary) (c d : Config) (hash : List ℕ)
    → current l (holding c) ≡ some (d, hash)
    → d ≡ blanked c
unfolding current load_optional
current-holding l c d hash h = cc

-- Valid settings that come with the hash of what is read are committed.
pub save-commits :
    (l : ConfigLibrary) (f : Faults) (actor expected hash : List ℕ) (e : Editable)
    (secrets : AlertSecrets) (s : Store) (c : Config)
    → validate_editable l.parsers e ≡ none
    → current l s.file ≡ some (c, hash)
    → text_equal expected hash ≡ true
    → save l f actor expected e secrets s ≡ commit l f actor c e secrets s
unfolding save examine
save-commits l f actor expected hash e secrets s c valid read same =
    let found : expect expected (current l s.file) ≡ proceed_from c =
      ap (expect expected) read
      ∙ ap (λ b. if b then proceed_from c else stop_with revision_conflict) same in
    rw valid (ap (go_on l f actor e secrets s) found)

-- Behind a `Save` that answers with a revision, the file has the settings that it was given, which
-- are valid.
pub saved-settings :
    (l : ConfigLibrary) (f : Faults) (actor expected : List ℕ) (e : Editable)
    (secrets : AlertSecrets) (s : Store)
    → was_saved (save l f actor expected e secrets s).0 ≡ true
    → (c : Config) × ((save l f actor expected e secrets s).1.file ≡ holding c)
      × (c.shown ≡ e)
      × (validate_editable l.parsers e ≡ none)
unfolding merged
saved-settings l f actor expected e secrets s h = elim (save-cases l f actor expected e secrets s) [
  | inl (r, stopped, k) ↦
      let unsaved = ap stops_saved (sym stopped) ∙ examine-unsaved l expected e s.file in
      let impossible : true ≡ false = sym h ∙ ap (λ x. was_saved x.0) k ∙ unsaved in cc (impossible)
  | inr (read, passed, k) ↦ elim (commit-cases l f actor read e secrets s) [
    | inl (r, t) ↦ (
      merged read (carried s.file) e secrets,
      ap (λ x. x.1.file) k ∙ ap (λ x. x.file) t,
      refl,
      (examine-inv l expected e s.file read passed).0,
    )
    | inr (r, rest) ↦
        let impossible : true ≡ false = sym h ∙ ap (λ x. was_saved x.0) k ∙ r in cc (impossible)
  ]
]
