-- ===== src/Settings/Revisions.antt =====
-- Saving and restoring settings (internal/configstore/store.go), with the statements on the table of
-- revisions. The hash of a configuration is a parameter; the time of a revision is left out.
pub mod Requests
pub mod Carried
pub mod Restored
pub mod Conflicts
pub mod Loads
use go_pool.Prelude.{
  ℕ, suc, ◌≡◌, ◌⊎◌, inl, inr, refl, ap, ◌∙◌, arith, List, [], ◌∷◌, ◌++◌, Option, none, some, Bool,
  true, false, not, ◌==◌, if◌then◌else◌,
}
use go_pool.Access.Operator.{text_equal, trim_space}
use go_pool.Settings.{
  Config, Editable, AlertSecrets, Redacted, editable, from_editable, apply_secrets, redact,
  no_settings, no_secrets, is_set,
}
use go_pool.Settings.Validation.{Parsers, Invalid, validate_editable}
use go_pool.Settings.Files.{
  ConfigFile, Loaded, not_configured, load_failed, loaded, load_optional, CarriedFields, carried,
  WriteCall, atomic_write,
}

-- What the store calls: the parsers of addresses and URLs, and `ConfigHash`.
pub record ConfigLibrary : Type 0 where
  pub parsers : Parsers
  pub config_hash : Editable → AlertSecrets → List ℕ

-- A row of `config_revisions`.
pub record RevisionRow : Type 0 where
  pub id : ℕ
  pub actor : Option (List ℕ)
  pub before : Redacted
  pub after : Redacted
  pub config_hash : List ℕ

-- The file, and the table with the id it gave last.
pub record Store : Type 0 where
  pub file : ConfigFile
  pub last_id : ℕ
  pub revisions : List RevisionRow

-- What goes wrong in a call: a step of `atomicWrite`, or the insertion of the revision.
pub record Faults : Type 0 where
  pub write : Option WriteCall
  pub insert_refused : Bool

pub data SaveResult : Type 0 where
  saved : RevisionRow → SaveResult
  invalid : Invalid → SaveResult
  unreadable_config revision_conflict write_failed not_recorded no_revision : SaveResult

-- `Store.current`: the configuration and its hash.
abbrev current_of : ConfigLibrary → Loaded → Option (Config × List ℕ)
current_of l not_configured = some (from_editable no_settings, [])
current_of l load_failed = none
current_of l (loaded c) = some (c, l.config_hash (editable c) c.alert_secrets)

unfoldable pub current : ConfigLibrary → ConfigFile → Option (Config × List ℕ)
unfolding load_optional
current l file = current_of l (load_optional file)

-- What `Save` writes.
unfoldable pub merged : Config → CarriedFields → Editable → AlertSecrets → Config
unfolding apply_secrets
merged current kept e s = apply_secrets s (
    apply_secrets current.alert_secrets (record (from_editable e) {
      stuck_payout_epochs = current.stuck_payout_epochs;
      dry_run = current.dry_run;
      faucet_url = current.faucet_url;
      validator_rpc_url = current.validator_rpc_url;
      private_key = kept.private_key;
      session_secret = kept.session_secret;
    }))

-- `InsertConfigRevision`.
abbrev pub insert_config_revision : RevisionRow → Store → Store
insert_config_revision row s = record s { last_id = row.id; revisions = s.revisions ++ row ∷ [] }

abbrev pub new_row : ConfigLibrary → ℕ → List ℕ → Config → Config → RevisionRow
new_row l id actor before after = record {
  id = id;
  actor = if is_set (trim_space actor) then some actor else none;
  before = redact before;
  after = redact after;
  config_hash = l.config_hash (editable after) after.alert_secrets;
}

-- The end of `Save`, behind `atomicWrite`.
abbrev pub record_revision : Faults → RevisionRow → Bool × ConfigFile → Store → SaveResult × Store
record_revision f row (false, file) s = (write_failed, record s { file = file })
record_revision f row (true, file) s =
    let s' = record s { file = file } in
    if f.insert_refused then (not_recorded, s') else (saved row, insert_config_revision row s')

-- `Save` from the write on, for the configuration it has read.
unfoldable pub commit :
    ConfigLibrary → Faults → List ℕ → Config → Editable → AlertSecrets → Store → SaveResult × Store
unfolding merged carried atomic_write redact
commit l f actor before e secrets s =
    let after = merged before (carried s.file) e secrets in
    record_revision f (new_row l (suc s.last_id) actor before after)
      (atomic_write f.write after s.file) s

-- `Save` up to the write: the configuration it has read, or why it stops.
pub data Examined : Type 0 where
  proceed_from : Config → Examined
  stop_with : SaveResult → Examined

abbrev pub expect : List ℕ → Option (Config × List ℕ) → Examined
expect expected none = stop_with unreadable_config
expect expected (some (c, hash)) =
    if text_equal expected hash then proceed_from c else stop_with revision_conflict

abbrev pub unless_invalid : Option Invalid → Examined → Examined
unless_invalid (some reason) next = stop_with (invalid reason)
unless_invalid none next = next

unfoldable pub examine : ConfigLibrary → List ℕ → Editable → ConfigFile → Examined
unfolding current validate_editable
examine l expected e file =
    unless_invalid (validate_editable l.parsers e) (expect expected (current l file))

abbrev pub go_on :
    ConfigLibrary
    → Faults
    → List ℕ
    → Editable
    → AlertSecrets
    → Store
    → Examined
    → SaveResult × Store
go_on l f actor e secrets s (stop_with r) = (r, s)
go_on l f actor e secrets s (proceed_from c) = commit l f actor c e secrets s

-- `Save`.
unfoldable pub save :
    ConfigLibrary → Faults → List ℕ → List ℕ → Editable → AlertSecrets → Store → SaveResult × Store
unfolding examine commit
save l f actor expected e secrets s = go_on l f actor e secrets s (examine l expected e s.file)

-- `GetConfigRevision`.
unfoldable pub get_config_revision : ℕ → List RevisionRow → Option RevisionRow
get_config_revision id [] = none
get_config_revision id (r ∷ rs) = if r.id == id then some r else get_config_revision id rs

abbrev pub restore_row :
    ConfigLibrary → Faults → List ℕ → List ℕ → Store → Option RevisionRow → SaveResult × Store
restore_row l f actor expected s none = (no_revision, s)
restore_row l f actor expected s (some row) =
    save l f actor expected row.after.settings no_secrets s

-- `Restore`.
unfoldable pub restore : ConfigLibrary → Faults → List ℕ → List ℕ → ℕ → Store → SaveResult × Store
unfolding save get_config_revision
restore l f actor expected id s =
    restore_row l f actor expected s (get_config_revision id s.revisions)
