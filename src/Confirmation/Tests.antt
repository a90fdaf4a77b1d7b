-- ===== src/Confirmation/Tests.antt =====
-- Runs of the confirmations (internal/pool/confirmation.go) over two awaiting transactions.
use go_pool.Prelude.{◌+◌, ◌<◌, ◌⊎◌, ◌≡◌, refl, some, true, [], ◌∷◌, ℕ, ◌==◌, if◌then◌else◌}
use go_pool.Store.{PayslipStatus, TxStatus, EpochStatus, Payslip, Transaction, Tables}
use go_pool.Store.Monad.{World, ok}
use go_pool.Store.Payslips.{finalize_payslips, update_payslip_status_failed}
use go_pool.Store.Payments.{set_transaction_status, get_pending_transactions}
use go_pool.Store.Epochs.{finalize_completed_epochs}
use go_pool.Confirmation.{
  not_found, found, Env, confirmation_outcome, is_stuck, fail_stuck_payout, fail_if_stuck,
  settle_outcome, settle_checked, confirm_tx, confirm_loop, run_confirmations, retry_payout,
}
use go_pool.Confirmation.Matching.{Matched, run_confirmations-Matched}
use go_pool.Store.Payslips.{owed}
use go_pool.Store.Statements.{RolledBack}
use go_pool.Confirmation.Retry.{refund, retried, retryable_count, retry_payout-refunds}

abbrev slip : ℕ → ℕ → PayslipStatus → Payslip
slip h a p = record { batch_number = 3; address = a; amount = 50; status = p; tx_hash = some h }

abbrev tx : ℕ → ℕ → Transaction
tx h a = record {
  hash = h;
  address = a;
  amount = 50;
  status = TxStatus.awaiting;
  submitted_height = 100;
  submitted_at = some 5;
}

abbrev tables : Tables
tables = record {
  cursor = some 140;
  epochs =
      record { number = 1; num_stakers = 2; balance = 300; status = EpochStatus.in_progress } ∷ [];
  stakers = [];
  rewards = [];
  payslips =
      slip 7 11 PayslipStatus.awaiting_confirmation
      ∷ slip 8 12 PayslipStatus.awaiting_confirmation
      ∷ [];
  transactions = tx 7 11 ∷ tx 8 12 ∷ [];
  audit_logs = [];
  preferences = [];
  actions = [];
  api_events = [];
}

abbrev world : World
world = record {
  tables = tables;
  io = [];
  fee_floor_alerted = [];
  balance_hold_alerted = [];
  alerts = [];
  broadcast = [];
  actions_sent = [];
}

-- The chain settles the first transaction and does not know the second.
abbrev env : Env
env = record {
  head = 200;
  now = 1000;
  stuck_payout_epochs = 2;
  blocks_per_epoch = 12;
  block_separation_ms = 1000;
  check_transaction =
      λ h. if h == 7 then found (record { final = true; succeeded = true }) else not_found;
}

-- The transaction that stayed away for more than two epochs is failed.
run_confirmations_runs :
    (run_confirmations env world).1.tables.payslips
    ≡ slip 7 11 PayslipStatus.completed ∷ slip 8 12 PayslipStatus.failed ∷ []
unfolding run_confirmations get_pending_transactions confirm_loop confirm_tx settle_checked
    settle_outcome confirmation_outcome fail_if_stuck fail_stuck_payout is_stuck
    set_transaction_status finalize_payslips update_payslip_status_failed finalize_completed_epochs
run_confirmations_runs = refl

run_confirmations-Matched_example :
    ((run_confirmations env world).0 ≡ ok tt)
    × ((run_confirmations env world).1.io ≡ [])
    × Matched
        (run_confirmations env world).1.tables.payslips
        (run_confirmations env world).1.tables.transactions
run_confirmations-Matched_example =
    run_confirmations-Matched env world refl ((refl, (refl, tt)), ((refl, (refl, tt)), tt))

abbrev failed : World
failed = record world {
  tables = record tables {
    payslips = slip 7 11 PayslipStatus.failed ∷ [];
    transactions = record (tx 7 11) { status = TxStatus.failed } ∷ [];
  };
}

retry_payout-refunds_example :
    let (r, w') = retry_payout 7 failed in
    RolledBack failed.tables (r, w')
    ⊎ ((n : ℕ) × (r ≡ ok n)
        × (0 < n)
        × (n ≡ retryable_count 7 failed.tables)
        × (w'.tables ≡ retried 7 failed.tables)
        × (owed 11 w'.tables.payslips
            ≡ owed 11 failed.tables.payslips + refund 7 11 failed.tables failed.tables.payslips))
retry_payout-refunds_example = retry_payout-refunds 7 11 failed

-- The payslip of 50 luna is owed again.
refund_runs : refund 7 11 failed.tables failed.tables.payslips ≡ 50
unfolding refund
refund_runs = refl
