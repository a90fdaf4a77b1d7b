-- ===== src/Settings/Live/Completion.antt =====
-- How the set-up ends (`handleSetupComplete` and `tryActivateFromStore` of
-- internal/api/setup_handlers.go).
use go_pool.Prelude.{
  ℕ, suc, ◌≡◌, refl, ap, ◌∙◌, inl, inr, List, [], Option, none, some, Bool, true, false, not, ◌&&◌,
  ◌||◌, if◌then◌else◌, Bool-cases,
}
use go_pool.Access.Operator.{trim_space}
use go_pool.Access.Setup.{setup_complete, Attempt, handle_setup_session}
use go_pool.Settings.{Config, Editable, AlertSecrets, is_set, codes, from_editable, no_settings}
use go_pool.Settings.Validation.{
  Parsers, Invalid, Checked, normalized, refused_as, validate_editable, validate_api, outside,
}
use go_pool.Settings.Files.{
  ConfigFile, absent, holding, load_optional, carried, with_text, atomic_write, SecretFile,
  not_named, cannot_be_read, Loaded, not_configured, load_failed, loaded,
}
use go_pool.Settings.Revisions.{Store, RevisionRow, save, merged, commit, new_row, current}
use go_pool.Settings.Revisions.Requests.{save-commits, with_row}
use go_pool.Settings.Revisions.Restored.{no_faults}
use go_pool.Settings.Live.{
  Api, Outside, revision, has_field_errors, is_refused, handle_setup_complete,
  try_activate_from_store, network_from_string, new_rpc_only, close_setup, activate_configured,
  completed_with, complete_decoded, store_unavailable, field_errors, activate_checked, Client,
  activate_with, activate_loaded, activate_from,
}
use go_pool.Settings.Live.Activation.{or-inv, activated}

-- Activation leaves what the set-up's lock guards alone.
with-setup :
    (c : Config) (client : Option Client) (a : Api) → (activate_with c client a).setup ≡ a.setup
unfolding activate_configured
with-setup c none a = refl
with-setup c (some client) a = refl

checked-setup : (o : Outside) (x : Checked) (a : Api) → (activate_checked o x a).setup ≡ a.setup
checked-setup o (refused_as _) a = refl
checked-setup o (normalized c) a = with-setup c (new_rpc_only o c) a

loaded-setup :
    (o : Outside) (secret : SecretFile) (c : Config) (a : Api)
    → (activate_loaded o secret c a).setup ≡ a.setup
loaded-setup o not_named c a = checked-setup o (validate_api o.library.parsers c) a
loaded-setup o cannot_be_read c a = refl
loaded-setup o (with_text raw) c a =
    checked-setup o (validate_api o.library.parsers (record c { session_secret = trim_space raw }))
      a

from-setup : (o : Outside) (x : Loaded) (a : Api) → (activate_from o x a).setup ≡ a.setup
from-setup o not_configured a = refl
from-setup o load_failed a = refl
from-setup o (loaded c) a = loaded-setup o o.session_secret_file c a

try-setup :
    (o : Outside) (file : ConfigFile) (a : Api) → (try_activate_from_store o file a).setup ≡ a.setup
unfolding try_activate_from_store
try-setup o file a = elim (Bool-cases a.config_store) [
  | inl h ↦
      ap (λ b. (if b then activate_from o (load_optional file) a else a).setup) h
      ∙ from-setup o (load_optional file) a
  | inr h ↦ ap (λ b. (if b then activate_from o (load_optional file) a else a).setup) h
]

unrefused : (v : Option Invalid) → is_refused v ≡ false → v ≡ none
unrefused none h = refl
unrefused (some reason) h = cc

-- Settings without field errors are valid.
pub no_errors-valid :
    (p : Parsers) (e : Editable) → has_field_errors p e ≡ false → validate_editable p e ≡ none
unfolding has_field_errors
no_errors-valid p e h =
    let refused = is_refused (validate_editable p e) in
    let both = or-inv (refused || outside e.pool_fee_percentage) (not (is_set e.pool_name)) h in
    unrefused (validate_editable p e) (or-inv refused (outside e.pool_fee_percentage) both.0).0

opens-not : (b only : Bool) → only ≡ true → (if b then false else only) ≡ not b
opens-not true only h = refl
opens-not false only h = h

-- Let the set-up be completed, where nothing is configured, with settings without field errors, while
-- no call fails, the session secret's file holds more than spaces, the empty text is no address, and
-- a client can be made for the URL. Then the answer is a revision and every later request for a set-up session is refused because
-- the set-up is complete; but the set-up's routes are replaced by those of the API only if the
-- settings have an address to listen on and a network other than "main", which is accepted before.
pub handle_setup_complete-activates :
    (o : Outside) (raw : List ℕ) (e : Editable) (secrets : AlertSecrets) (a : Api) (s : Store)
    (t : Attempt)
    → a.config_store ≡ true
    → a.setup_only ≡ true
    → s.file ≡ absent
    → has_field_errors o.library.parsers e ≡ false
    → o.session_secret_file ≡ with_text raw
    → is_set (trim_space (trim_space raw)) ≡ true
    → o.library.parsers.parse_address [] ≡ none
    → o.dials e.rpc_url ≡ true
    → let (r, a', s') = handle_setup_complete o no_faults (some (e, secrets)) a s in
      ((row : RevisionRow) × (r ≡ revision row))
      × (a'.setup_only ≡ not (is_set e.api_addr && network_from_string e.network))
      × ((handle_setup_session t a'.setup).0 ≡ setup_complete)
unfolding handle_setup_complete commit atomic_write merged current load_optional
    handle_setup_session
handle_setup_complete-activates o raw e secrets a s t store setup fresh errors file secret no_empty
      dials =
    let valid = no_errors-valid o.library.parsers e errors in
    let before = from_editable no_settings in
    let after = merged before (carried s.file) e secrets in
    let row = new_row o.library (suc s.last_id) (codes "setup") before after in
    let done =
      save-commits o.library no_faults (codes "setup") [] [] e secrets s before valid
        (ap (current o.library) fresh) refl in
    let a' = try_activate_from_store o (holding after) (close_setup a) in
    let run : handle_setup_complete o no_faults (some (e, secrets)) a s
        ≡ (revision row, a', with_row after row s) =
      ap
        (λ b.
          if b
          then complete_decoded o no_faults (some (e, secrets)) a s
          else (store_unavailable, a, s))
        store
      ∙ ap
          (λ b.
            if b
            then (field_errors, a, s)
            else completed_with o (save o.library no_faults (codes "setup") [] e secrets s) a)
          errors
      ∙ ap (λ x. completed_with o x a) done in
    let opened = activated o raw after (close_setup a) file store secret no_empty dials valid in
    let closed = try-setup o (holding after) (close_setup a) in
    (
      (row, ap (λ x. x.0) run),
      ap (λ x. x.1.setup_only) run
          ∙ opened
          ∙ opens-not (is_set e.api_addr && network_from_string e.network) a.setup_only setup,
      ap (λ x. (handle_setup_session t x.1.setup).0) run
          ∙ ap (λ x. (handle_setup_session t x).0) closed,
    )
