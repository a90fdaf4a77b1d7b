-- ===== src/Actions/Tests.antt =====
-- Runs of the daemon and of the API (internal/pool/lifecycle.go,
-- internal/api/operator_operations_handlers.go) from an empty database.
use go_pool.Prelude.{◌≤◌, ◌≡◌, ◌++◌, refl, [], none, some, true, false}
use go_pool.Store.{deactivate}
use go_pool.Store.Monad.{World, in_tx, stmt, query, exec}
use go_pool.Store.Actions.{insert_requested_validator_action, get_validator_action}
use go_pool.Confirmation.{found, insert_operator_event}
use go_pool.Actions.{
  Env, sent_as, process_requested_actions, queue_validator_action, queue_and_audit_validator_action,
}
use go_pool.Actions.Progress.{IsUndisturbed, requests_of}
use go_pool.Actions.Progress.Run.{process_requested_actions-sends}
use go_pool.Actions.Stages.{Follows, times, outstanding}
use go_pool.Actions.Reachable.{
  Reach, here, next, process, queue, requests_sent_once, one_outstanding, rows_move,
}

abbrev env : Env
env = record {
  jailed_from = some (some 50);
  head = some 100;
  signs = true;
  send = λ s. sent_as (some 7);
  check_transaction = λ h. found record { final = true; succeeded = true };
  stopped_at_claim = λ i. false;
  stopped_after = λ i. false;
}

abbrev fresh : World
fresh = record {
  tables = record {
    cursor = none;
    epochs = [];
    stakers = [];
    rewards = [];
    payslips = [];
    transactions = [];
    audit_logs = [];
    preferences = [];
    actions = [];
    api_events = [];
  };
  io = [];
  fee_floor_alerted = [];
  balance_hold_alerted = [];
  alerts = [];
  broadcast = [];
  actions_sent = [];
}

-- A deactivation is queued, and the daemon runs twice.
abbrev after_queue : World
after_queue = (queue_and_audit_validator_action deactivate fresh).1

abbrev after_run : World
after_run = (process_requested_actions env after_queue).1

abbrev after_runs : World
after_runs = (process_requested_actions env after_run).1

ran : Reach fresh after_runs
ran =
    next (next (next here (queue deactivate fresh)) (process env after_queue))
      (process env after_run)

requests_sent_once_example : times 1 after_runs.actions_sent ≤ 1
requests_sent_once_example = requests_sent_once fresh after_runs 1 (refl, refl) ran

one_outstanding_example : outstanding deactivate after_runs.tables.actions ≤ 1
one_outstanding_example = one_outstanding fresh after_runs deactivate (refl, refl) refl ran

rows_move_example : Follows after_queue.tables.actions after_run.tables.actions
rows_move_example =
    rows_move fresh after_queue after_run (refl, refl) (next here (queue deactivate fresh))
      (next here (process env after_queue))

undisturbed : IsUndisturbed env 100 (λ i. some 7)
undisturbed = record {
  head_known = refl;
  signed = refl;
  answered = λ i. refl;
  claimed = λ i. refl;
  finished = λ i. refl;
}

queue_calm : after_queue.io ≡ []
unfolding queue_and_audit_validator_action queue_validator_action insert_requested_validator_action
    get_validator_action insert_operator_event in_tx query exec stmt
queue_calm = refl

process_requested_actions-sends_example :
    (process_requested_actions env after_queue).1.actions_sent
    ≡ after_queue.actions_sent ++ requests_of after_queue.tables.actions
process_requested_actions-sends_example =
    process_requested_actions-sends env 100 (λ i. some 7) fresh after_queue (refl, refl)
      (next here (queue deactivate fresh)) undisturbed queue_calm
