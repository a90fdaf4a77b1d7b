-- ===== src/Settings/Tests.antt =====
-- Settings on concrete texts: an address is one letter, upper or lower case, and is written in upper
-- case.
use go_pool.Prelude.{
  ℕ, ◌+◌, ◌-◌, ◌≡◌, refl, arith, List, [], ◌∷◌, Option, none, some, true, false, ◌||◌, ◌==◌, leb,
  if◌then◌else◌, any_of,
}
use go_pool.Access.Operator.{
  text_equal, trim_space, split_commas, require_operator, granted, forbidden,
}
use go_pool.Settings.{
  Config, Editable, codes, no_settings, no_secrets, from_editable, editable, redact, apply_secrets,
}
use go_pool.Settings.Validation.{
  Parsers, Url, validate_api, validate_editable, first_failing, operators_of,
}
use go_pool.Settings.Files.{
  holding, with_text, DaemonEnv, runs_with, load_daemon, load_optional, carried, atomic_write,
}
use go_pool.Settings.Revisions.{
  ConfigLibrary, Store, RevisionRow, saved, save, restore, commit, examine, proceed_from, current,
  merged, revision_conflict, new_row,
}
use go_pool.Settings.Revisions.Requests.{
  Request, saving, restoring, answer_request, Reaches, stop, request, was_saved, with_row, blanked,
}
use go_pool.Settings.Revisions.Carried.{unmanaged, requests-carry}
use go_pool.Settings.Revisions.Restored.{no_faults, restore-save}
use go_pool.Settings.Revisions.Conflicts.{save-conflicts}
use go_pool.Settings.Revisions.Loads.{save-loads, daemon_settings}
use go_pool.Settings.Live.Operators.{names, validate_api-operators}

abbrev parse_letter : List ℕ → Option ℕ
parse_letter [] = none
parse_letter (c ∷ _) = some (if leb 97 c then c - 97 else c - 65)

abbrev parse_any : List ℕ → Option Url
parse_any [] = none
parse_any (_ ∷ _) = some (record { scheme = codes "https"; host = codes "h" })

abbrev parsers : Parsers
parsers = record { parse_address = parse_letter; show = λ a. (65 + a) ∷ []; parse_url = parse_any }

abbrev pub library : ConfigLibrary
library = record {
  parsers = parsers;
  config_hash = λ e s. 1 ∷ e.min_payout_luna ∷ s.telegram_token;
}

-- The validator is B, and A is an operator, written in lower case.
abbrev pub draft : Editable
draft = record no_settings {
  rpc_url = codes "https://h";
  network = codes "main-albatross";
  pool_fee_wallet = codes "C";
  payout_mode = codes "transfer";
  min_payout_luna = 5;
  api_addr = codes ":80";
  validator_address = codes "B";
  operator_addresses = codes "D, a";
  pool_name = codes "P";
}

abbrev pub changed : Editable
changed = record draft { min_payout_luna = 7 }

abbrev pub configured : Config
configured = record (from_editable draft) { private_key = codes "k"; dry_run = true }

abbrev pub store : Store
store = record { file = holding configured; last_id = 4; revisions = [] }

abbrev pub hash : List ℕ
hash = 1 ∷ 5 ∷ []

abbrev after_changed : Config
after_changed = merged (blanked configured) (carried store.file) changed no_secrets

abbrev pub changed_row : RevisionRow
changed_row = new_row library 5 (codes "x") (blanked configured) after_changed

abbrev pub changed_store : Store
changed_store = with_row after_changed changed_row store

saved_once :
    save library no_faults (codes "x") hash changed no_secrets store
    ≡ (saved changed_row, changed_store)
unfolding save examine current load_optional commit atomic_write merged apply_secrets carried redact
    validate_editable first_failing
saved_once = refl

abbrev change : Request
change = saving no_faults (codes "x") hash changed no_secrets

-- The revision does not exist yet.
abbrev restore_missing : Request
restore_missing = restoring no_faults (codes "x") hash 9

abbrev two_requests :
    Reaches library store
      (answer_request library change (answer_request library restore_missing store).1).1
two_requests = request restore_missing (request change stop)

requests-carry_example :
    let t = (answer_request library change (answer_request library restore_missing store).1).1 in
    (d : Config) × (t.file ≡ holding d) × (unmanaged d ≡ unmanaged configured)
requests-carry_example =
    requests-carry library store
      (answer_request library change (answer_request library restore_missing store).1).1 configured
      two_requests refl

-- The settings are changed, changed again, and the first change is restored.
abbrev changed_hash : List ℕ
changed_hash = 1 ∷ 7 ∷ []

abbrev again : Request
again = saving no_faults (codes "y") changed_hash draft no_secrets

abbrev after_again : Config
after_again = merged (blanked after_changed) (carried changed_store.file) draft no_secrets

held_again : (answer_request library again changed_store).1.file ≡ holding after_again
unfolding answer_request save examine current load_optional commit atomic_write merged apply_secrets
    carried redact validate_editable first_failing
held_again = refl

restore-save_example :
    let (r, t') =
      restore library no_faults (codes "z") hash 5 (answer_request library again changed_store).1 in
    (was_saved r ≡ true)
    × ((d : Config) × (t'.file ≡ holding d)
        × (editable d ≡ changed)
        × (d.alert_secrets ≡ after_again.alert_secrets))
unfolding merged
restore-save_example =
    restore-save library no_faults (codes "x") (codes "z") hash hash changed no_secrets store
      changed_store (answer_request library again changed_store).1 changed_row after_again tt
      saved_once (request again stop) held_again refl

save-conflicts_example :
    save library no_faults (codes "y") hash draft no_secrets changed_store
    ≡ (revision_conflict, changed_store)
unfolding validate_editable first_failing merged
save-conflicts_example =
    save-conflicts library no_faults no_faults (codes "x") (codes "y") hash changed draft no_secrets
      no_secrets store changed_store changed_row saved_once refl refl

passes :
    (e : Editable)
    → validate_editable parsers e ≡ none
    → examine library hash e store.file ≡ proceed_from (blanked configured)
unfolding examine current load_optional
passes e h = rw h refl

abbrev environment : DaemonEnv
environment = record {
  pool_private_key_file = with_text (codes "key");
  pool_wallet_json_file = [];
  validator_rpc_url = [];
  faucet_url = codes "https://f";
  pool_dry_run = [];
}

save-loads_example :
    (d : Config) × (load_daemon parsers environment changed_store.file ≡ runs_with d)
    × (d.shown ≡ daemon_settings changed)
    × ((d.stuck_payout_epochs == 0) ≡ false)
unfolding merged
save-loads_example =
    save-loads library no_faults (codes "x") hash changed no_secrets store changed_store changed_row
      after_changed environment saved_once refl refl refl refl

-- Letters are written without commas and spaces, and no two alike.
letters_unspaced : (a : ℕ) → trim_space (parsers.show a) ≡ parsers.show a
letters_unspaced a = ground arith

letters_alike : (a b : ℕ) → text_equal (parsers.show a) (parsers.show b) ≡ (a == b)
letters_alike a b = ground arith

abbrev normal_draft : Config
normal_draft = record configured {
  shown = record draft { operator_addresses = codes "D,A" };
  session_secret = codes "s";
}

validate_api-operators_example :
    (v : ℕ) × (parse_letter (codes "B") ≡ some v)
    × (require_operator (codes "B") (codes "D,A") (some (codes "A")) ≡ (
        if 0 == v || any_of (names parsers 0) (split_commas (codes "D, a"))
        then granted
        else forbidden))
unfolding validate_api operators_of
validate_api-operators_example =
    validate_api-operators parsers (record configured { session_secret = codes "s" }) normal_draft 0
      ((λ a. (ground arith, tt)), letters_unspaced, (λ a. refl), letters_alike) refl
