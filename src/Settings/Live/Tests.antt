-- ===== src/Settings/Live/Tests.antt =====
-- The API on the configurations of Settings/Tests.
use go_pool.Prelude.{
  ◌≡◌, refl, List, [], ◌∷◌, none, some, true, false, not, ◌&&◌, ◌||◌, if◌then◌else◌, any_of,
}
use go_pool.Access.Operator.{
  text_equal, split_commas, is_listed, require_operator, granted, forbidden,
}
use go_pool.Access.Setup.{SetupState, setup_complete, Attempt, handle_setup_session}
use go_pool.Settings.{Config, Editable, codes, no_secrets, editable, redact, apply_secrets}
use go_pool.Settings.Validation.{validate_editable, first_failing}
use go_pool.Settings.Files.{absent, holding, with_text, load_optional, carried, atomic_write}
use go_pool.Settings.Revisions.{Store, RevisionRow, save, commit, examine, current, merged}
use go_pool.Settings.Revisions.Restored.{no_faults}
use go_pool.Settings.Live.{
  Api, Outside, revision, write_error, SaveBody, handle_operator_settings_save,
  handle_setup_complete, apply_live_config, network_from_string, new_rpc_only, has_field_errors,
}
use go_pool.Settings.Live.Saved.{live_settings-by_text}
use go_pool.Settings.Live.Completion.{handle_setup_complete-activates}
use go_pool.Settings.Live.HalfSetup.{
  Completion, completions, is_revision, unrecorded, half_setup-never_completes,
}
use go_pool.Settings.Tests.{
  library, draft, changed, configured, store, hash, changed_row, changed_store,
}

abbrev setup : SetupState
setup = record { complete = false; failures = λ ip. []; sessions = λ key. none }

abbrev surroundings : Outside
surroundings = record {
  library = library;
  dials = λ url. true;
  session_secret_file = with_text (codes "s");
}

abbrev api : Api
api = record {
  cfg = some configured;
  rpc = none;
  setup_only = false;
  setup = setup;
  config_store = true;
}

abbrev body : SaveBody
body = record { expected_hash = hash; settings = changed; secrets = no_secrets }

abbrev live_api : Api
live_api = record api {
  cfg = some (record configured { shown = changed; private_key = [] });
  rpc = none;
}

saved_live :
    handle_operator_settings_save surroundings no_faults (codes "x") (some body) api store
    ≡ (revision changed_row, live_api, changed_store)
unfolding handle_operator_settings_save apply_live_config load_optional save examine current commit
    atomic_write merged apply_secrets carried redact validate_editable first_failing new_rpc_only
saved_live = refl

live_settings-by_text_example :
    (live : Config) × (live_api.cfg ≡ some live)
    × (require_operator live.shown.validator_address live.shown.operator_addresses
          (some (codes "A"))
        ≡ (if text_equal (codes "A") (codes "B")
              || any_of (is_listed (codes "A")) (split_commas (codes "D, a"))
            then granted
            else forbidden))
live_settings-by_text_example =
    live_settings-by_text surroundings no_faults (codes "x") body api live_api store changed_store
      changed_row (codes "A") saved_live refl

abbrev setup_api : Api
setup_api = record api { cfg = none; setup_only = true }

abbrev empty_store : Store
empty_store = record { file = absent; last_id = 0; revisions = [] }

abbrev attempt : Attempt
attempt = record { ip = 1; now = 10; is_right = true; drawn = 3 }

abbrev main_draft : Editable
main_draft = record draft { network = codes "main" }

handle_setup_complete-activates_example :
    let (r, a', s') =
      handle_setup_complete surroundings no_faults
        (some (main_draft, no_secrets))
        setup_api
        empty_store in
    ((row : RevisionRow) × (r ≡ revision row))
    × (a'.setup_only ≡ not (true && network_from_string (codes "main")))
    × ((handle_setup_session attempt a'.setup).0 ≡ setup_complete)
unfolding has_field_errors validate_editable first_failing
handle_setup_complete-activates_example =
    handle_setup_complete-activates surroundings (codes "s") main_draft no_secrets setup_api
      empty_store attempt refl refl refl refl refl refl refl refl

abbrev later : List Completion
later = record { faults = no_faults; body = some (changed, no_secrets) } ∷ []

half_setup-never_completes_example :
    let (r, a', s') =
      handle_setup_complete surroundings unrecorded
        (some (draft, no_secrets))
        setup_api
        empty_store in
    let (rs, a'', s'') = completions surroundings later a' s' in
    (r ≡ write_error)
    × ((d : Config) × (s'.file ≡ holding d) × (editable d ≡ draft))
    × (any_of is_revision rs ≡ false)
    × (a'' ≡ setup_api)
    × (s'' ≡ s')
unfolding has_field_errors validate_editable first_failing
half_setup-never_completes_example =
    half_setup-never_completes surroundings draft no_secrets setup_api empty_store later
      (λ e s. refl) refl refl refl
