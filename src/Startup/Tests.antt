-- ===== src/Startup/Tests.antt =====
-- Getting ready (internal/pool/pool.go, internal/pool/bootstrap.go) with concrete answers.
use go_pool.Prelude.{
  ℕ, ◌≤◌, ◌≡◌, ◌==◌, refl, arith, [], Option, none, some, true, false, if◌then◌else◌,
}
use go_pool.Store.{create}
use go_pool.Store.Monad.{World, stmt, query, exec}
use go_pool.Store.Actions.{insert_validator_action, has_pending_validator_action}
use go_pool.Actions.{sent_as}
use go_pool.Actions.Reachable.{here, next, bootstrap}
use go_pool.Actions.Reactivation.{HasPending}
use go_pool.Startup.{ReadyError, cancelled, gave_up, waiting_for_validator, wait_ready}
use go_pool.Startup.Waiting.{IsContext, Decides, stopped, Waits, wait_ready-ends}
use go_pool.Startup.Faucet.{failed}
use go_pool.Startup.Bootstrap.{
  BootEnv, Attempts, run_bootstrap, next_bootstrap, snapshot_bootstrap, perform, register_validator,
  self_stake_amount,
}
use go_pool.Startup.Registered.{registrations, no_second_registration}

-- The validator appears in the third round.
answers : ℕ → Option ReadyError
answers i = if i == 2 then none else some waiting_for_validator

not-IsContext : ¬ IsContext waiting_for_validator
not-IsContext c = ground arith

-- The context is done in the fourth round, but the wait has ended before.
done : ℕ → Option ReadyError
done i = if i == 3 then some cancelled else none

stops : Decides (answers 3) (done 3) (gave_up cancelled)
unfolding answers done
stops = stopped not-IsContext

wait_ready-ends_example :
    (n : ℕ) × (n ≤ 3)
    × Waits answers done 0 n
    × Decides (answers n) (done n) (wait_ready answers done 0 5)
wait_ready-ends_example = wait_ready-ends answers done 3 5 (gave_up cancelled) stops (omega arith)

abbrev fresh : World
fresh = record {
  tables = record {
    cursor = none;
    epochs = [];
    stakers = [];
    rewards = [];
    payslips = [];
    transactions = [];
    audit_logs = [];
    preferences = [];
    actions = [];
    api_events = [];
  };
  io = [];
  fee_floor_alerted = [];
  balance_hold_alerted = [];
  alerts = [];
  broadcast = [];
  actions_sent = [];
}

-- A funded wallet without a validator.
abbrev env : BootEnv
env = record {
  now = 0;
  dry_run = false;
  deposit = 1000;
  min_stake = 10;
  faucet_url = false;
  on_test_network = true;
  has_wallet_json = true;
  consensus = some true;
  balance = some 2000;
  validator_exists = false;
  staker_exists = false;
  has_wallet = true;
  has_keys = true;
  create_validator = sent_as (some 7);
  head = some 100;
  builds = true;
  signs = true;
  send = sent_as (some 8);
  faucet = failed;
}

abbrev no_attempt : Attempts
no_attempt = record {
  faucet_blocked = false;
  last_faucet_at = none;
  faucet_retry_at = 0;
  last_register_at = none;
}

abbrev after_registration : World
after_registration = (run_bootstrap env no_attempt fresh).1

registered : HasPending create after_registration
unfolding run_bootstrap snapshot_bootstrap next_bootstrap perform register_validator
    has_pending_validator_action insert_validator_action self_stake_amount query exec stmt
registered = refl

still_calm : after_registration.io ≡ []
unfolding run_bootstrap snapshot_bootstrap next_bootstrap perform register_validator
    has_pending_validator_action insert_validator_action self_stake_amount query exec stmt
still_calm = refl

no_second_registration_example :
    registrations (run_bootstrap env no_attempt after_registration).1
    ≡ registrations after_registration
no_second_registration_example =
    no_second_registration env no_attempt fresh after_registration after_registration (refl, refl)
      (next here (bootstrap env no_attempt fresh)) registered here still_calm
