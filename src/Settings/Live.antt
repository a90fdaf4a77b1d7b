-- ===== src/Settings/Live.antt =====
-- The configuration that the API runs with: `applyLiveConfig` and the handlers of
-- internal/api/operator_settings_handlers.go, `handleSetupComplete` and `tryActivateFromStore` of
-- internal/api/setup_handlers.go, `ActivateConfigured` of internal/api/api.go.
pub mod Operators
pub mod Saved
pub mod Activation
pub mod Completion
mod Tests
pub mod HalfSetup
use go_pool.Prelude.{
  ℕ, ◌≡◌, List, [], ◌∷◌, Option, none, some, Bool, true, false, not, ◌&&◌, ◌||◌, if◌then◌else◌,
}
use go_pool.Access.Operator.{text_equal, trim_space}
use go_pool.Access.Setup.{SetupState}
use go_pool.Settings.{Config, Editable, AlertSecrets, codes, is_set}
use go_pool.Settings.Validation.{
  Parsers, Invalid, Checked, normalized, refused_as, validate_editable, validate_api, outside,
}
use go_pool.Settings.Files.{
  ConfigFile, Loaded, not_configured, load_failed, loaded, load_optional, SecretFile, not_named,
  cannot_be_read, with_text,
}
use go_pool.Settings.Revisions.{
  ConfigLibrary, Store, Faults, SaveResult, saved, invalid, unreadable_config, revision_conflict,
  write_failed, not_recorded, no_revision, RevisionRow, save, restore,
}
use go_pool.Settings.Revisions.Requests.{was_saved}

-- A client is known by the URL and the network it was made with.
pub record Client : Type 0 where
  pub url : List ℕ
  pub network : List ℕ

-- `API`: what these handlers read and write of it. `config_store` says whether it has a store.
pub record Api : Type 0 where
  pub cfg : Option Config
  pub rpc : Option Client
  pub setup_only : Bool
  pub setup : SetupState
  pub config_store : Bool

-- What is outside: whether `rpc.New` makes a client for a URL, and the file that
-- `POOL_SESSION_SECRET_FILE` names.
pub record Outside : Type 0 where
  pub library : ConfigLibrary
  pub dials : List ℕ → Bool
  pub session_secret_file : SecretFile

-- The names that `networkFromString` knows.
abbrev pub network_from_string : List ℕ → Bool
network_from_string s =
    text_equal s (codes "main-albatross")
    || text_equal s (codes "test-albatross")
    || text_equal s (codes "dev-albatross")

-- `chain.NewRPCOnly`.
unfoldable pub new_rpc_only : Outside → Config → Option Client
new_rpc_only o c =
    if network_from_string c.shown.network && o.dials c.shown.rpc_url
    then some (record { url = c.shown.rpc_url; network = c.shown.network })
    else none

-- `ActivateConfigured`.
unfoldable pub activate_configured : Config → Client → Api → Api
activate_configured c client a = record a { cfg = some c; rpc = some client; setup_only = false }

abbrev pub activate_with : Config → Option Client → Api → Api
activate_with c none a = a
activate_with c (some client) a = activate_configured c client a

abbrev pub activate_checked : Outside → Checked → Api → Api
activate_checked o (refused_as _) a = a
activate_checked o (normalized c) a = activate_with c (new_rpc_only o c) a

abbrev pub activate_loaded : Outside → SecretFile → Config → Api → Api
activate_loaded o not_named c a = activate_checked o (validate_api o.library.parsers c) a
activate_loaded o cannot_be_read c a = a
activate_loaded o (with_text s) c a =
    activate_checked o (validate_api o.library.parsers (record c { session_secret = trim_space s }))
      a

abbrev pub activate_from : Outside → Loaded → Api → Api
activate_from o not_configured a = a
activate_from o load_failed a = a
activate_from o (loaded c) a = activate_loaded o o.session_secret_file c a

-- `tryActivateFromStore`, whose error is not looked at.
unfoldable pub try_activate_from_store : Outside → ConfigFile → Api → Api
unfolding activate_configured new_rpc_only validate_api load_optional
try_activate_from_store o file a =
    if a.config_store then activate_from o (load_optional file) a else a

-- The lock of `applyLiveConfig`: the session secret stays, the client is made anew if its URL or
-- network changed, and an error of this keeps the old one.
abbrev pub keep_secret : Option Config → Config → Config
keep_secret none c = c
keep_secret (some old) c = record c { session_secret = old.session_secret }

abbrev rpc_changed : Option Config → Config → Bool
rpc_changed none c = true
rpc_changed (some old) c =
    not (text_equal old.shown.rpc_url c.shown.rpc_url)
    || not (text_equal old.shown.network c.shown.network)

abbrev or_old : Option Client → Option Client → Option Client
or_old none old = old
or_old (some client) _ = some client

abbrev pub apply_loaded : Outside → Loaded → Api → Api
apply_loaded o not_configured a = a
apply_loaded o load_failed a = a
apply_loaded o (loaded c) a =
    let live = keep_secret a.cfg c in
    record a {
      cfg = some live;
      rpc = if rpc_changed a.cfg live then or_old (new_rpc_only o live) a.rpc else a.rpc;
    }

-- `applyLiveConfig`.
unfoldable pub apply_live_config : Outside → ConfigFile → Api → Api
unfolding new_rpc_only load_optional
apply_live_config o file a = if a.config_store then apply_loaded o (load_optional file) a else a

-- The answers of the handlers, by status and code.
pub data Reply : Type 0 where
  store_unavailable invalid_body conflict validation_failed restore_failed write_error : Reply
  field_errors : Reply
  revision : RevisionRow → Reply

abbrev settings_reply : Reply → SaveResult → Reply
settings_reply failed (saved row) = revision row
settings_reply failed revision_conflict = conflict
settings_reply failed _ = failed

abbrev pub live_after : Outside → Reply → SaveResult × Store → Api → Reply × Api × Store
live_after o failed (r, s) a =
    (settings_reply failed r, if was_saved r then apply_live_config o s.file a else a, s)

-- The body of a save.
pub record SaveBody : Type 0 where
  pub expected_hash : List ℕ
  pub settings : Editable
  pub secrets : AlertSecrets

abbrev pub save_decoded :
    Outside → Faults → List ℕ → Option SaveBody → Api → Store → Reply × Api × Store
save_decoded o f actor none a s = (invalid_body, a, s)
save_decoded o f actor (some b) a s =
    live_after o validation_failed (save o.library f actor b.expected_hash b.settings b.secrets s) a

-- `handleOperatorSettingsSave`; a body that cannot be decoded is `none`.
unfoldable pub handle_operator_settings_save :
    Outside → Faults → List ℕ → Option SaveBody → Api → Store → Reply × Api × Store
unfolding save apply_live_config
handle_operator_settings_save o f actor body a s =
    if a.config_store then save_decoded o f actor body a s else (store_unavailable, a, s)

-- `handleOperatorSettingsRestore` behind the path, for an API with a store.
unfoldable handle_operator_settings_restore :
    Outside → Faults → List ℕ → ℕ → Option (List ℕ) → Api → Store → Reply × Api × Store
unfolding restore apply_live_config
handle_operator_settings_restore o f actor id none a s = (invalid_body, a, s)
handle_operator_settings_restore o f actor id (some expected) a s =
    live_after o restore_failed (restore o.library f actor expected id s) a

-- `len(editableFieldErrors(settings)) != 0`.
abbrev pub is_refused : Option Invalid → Bool
is_refused none = false
is_refused (some _) = true

unfoldable pub has_field_errors : Parsers → Editable → Bool
has_field_errors p e =
    is_refused (validate_editable p e) || outside e.pool_fee_percentage || not (is_set e.pool_name)

-- The last lock of `handleSetupComplete`.
abbrev pub close_setup : Api → Api
close_setup a = record a { setup = record a.setup { complete = true; sessions = λ _. none } }

abbrev pub completed_with : Outside → SaveResult × Store → Api → Reply × Api × Store
completed_with o (saved row, s) a =
    (revision row, try_activate_from_store o s.file (close_setup a), s)
completed_with o (_, s) a = (write_error, a, s)

abbrev pub complete_decoded :
    Outside → Faults → Option (Editable × AlertSecrets) → Api → Store → Reply × Api × Store
complete_decoded o f none a s = (invalid_body, a, s)
complete_decoded o f (some (e, secrets)) a s =
    if has_field_errors o.library.parsers e
    then (field_errors, a, s)
    else completed_with o (save o.library f (codes "setup") [] e secrets s) a

-- `handleSetupComplete`.
unfoldable pub handle_setup_complete :
    Outside → Faults → Option (Editable × AlertSecrets) → Api → Store → Reply × Api × Store
unfolding has_field_errors save try_activate_from_store
handle_setup_complete o f body a s =
    if a.config_store then complete_decoded o f body a s else (store_unavailable, a, s)
