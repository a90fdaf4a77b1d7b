-- ===== src/Payout/Tests.antt =====
-- Runs of the payouts (internal/pool/payout.go) for two stakers that are owed 300 and 50 luna.
use go_pool.Prelude.{
  ◌≡◌, ◌≤◌, ◌<◌, ◌+◌, ◌⊎◌, refl, some, none, true, false, [], ◌∷◌, ℕ, arith, length,
}
use go_pool.Store.{PayslipStatus, AuditStatus, payout_transfer, Payslip, AuditLog, Tables}
use go_pool.Store.Monad.{World, ok, in_tx}
use go_pool.Store.Statements.{RolledBack}
use go_pool.Store.Payslips.{owed, mark_payslips_out_for_payment, set_payslips_transaction}
use go_pool.Store.Payments.{claim_approved_audit_log, insert_transaction}
use go_pool.Payout.Rules.{PayoutMode, Config, Chain}
use go_pool.Payout.Approve.{run_payouts}
use go_pool.Payout.Approve.Balance.{committed, run_payouts-within_balance}
use go_pool.Payout.Approve.Once.{approved_of, run_payouts-approves_once}
use go_pool.Payout.Send.{
  submit_claimed, submission, persist_payout_submission, process_approved_payouts,
}
use go_pool.Payout.Send.Persist.{Submittable, submitted, persist_payout_submission-atomic}
use go_pool.Payout.Send.Tracking.{Tracked, approvals, sent_luna}
use go_pool.Payout.Send.Safety.{process_approved_payouts-safe}
use go_pool.Payout.Send.Underpaid.{settled_by, persist_payout_submission-settles}

abbrev slip : ℕ → ℕ → ℕ → Payslip
slip b a n = record {
  batch_number = b;
  address = a;
  amount = n;
  status = PayslipStatus.pending;
  tx_hash = none;
}

abbrev log : AuditLog
log = record {
  id = 1;
  address = 11;
  amount = 300;
  fee = 20;
  kind = payout_transfer;
  status = AuditStatus.approved;
  tx_hash = none;
}

-- The staker's payout of 300 was approved before the reward of batch 4.
abbrev tables : Tables
tables = record {
  cursor = some 140;
  epochs = [];
  stakers = [];
  rewards = [];
  payslips = slip 3 11 300 ∷ slip 4 11 90 ∷ slip 3 12 50 ∷ [];
  transactions = [];
  audit_logs = log ∷ [];
  preferences = [];
  actions = [];
  api_events = [];
}

abbrev world : World
world = record {
  tables = tables;
  io = [];
  fee_floor_alerted = [];
  balance_hold_alerted = [];
  alerts = [];
  broadcast = [];
  actions_sent = [];
}

abbrev cfg : Config
cfg = record { min_payout_luna = 10; payout_mode = PayoutMode.transfer; dry_run = false }

abbrev chain : Chain
chain = record {
  address = 1;
  block_number = some 200;
  balance = some 1000;
  parses = λ _. true;
  delegation = λ _. some 1;
  add = λ a b. some (a + b);
  builds = λ _. true;
  estimate_fee = λ _. some 5;
  signs = λ _. true;
  hash = λ p. p.recipient;
}

added : (a b s : ℕ) → some (a + b) ≡ some s → s ≡ a + b
added a b s e = cc

run_payouts-within_balance_example :
    committed (run_payouts cfg chain world).1.tables.audit_logs ≤ committed tables.audit_logs + 1000
run_payouts-within_balance_example =
    run_payouts-within_balance cfg chain world 1000 added refl (omega arith)

process_approved_payouts-safe_example :
    let w' = (process_approved_payouts cfg chain (some 9) world).1 in
    Tracked chain w'
    × (length w'.broadcast + approvals w' ≤ length world.broadcast + approvals world)
    × (sent_luna w' ≤ sent_luna world + 1000)
process_approved_payouts-safe_example =
    process_approved_payouts-safe cfg chain (some 9) world 1000 added refl (omega arith) tt

persist_payout_submission-atomic_example :
    let (r, w') = persist_payout_submission (some 9) log 11 200 world in
    RolledBack tables (r, w')
    ⊎ ((r ≡ ok tt)
        × Submittable (some 9) log 11 200 tables
        × (w'.tables ≡ submitted (some 9) log 11 200 tables))
persist_payout_submission-atomic_example =
    persist_payout_submission-atomic (some 9) log 11 200 world

persisted : (persist_payout_submission (some 9) log 11 200 world).0 ≡ ok tt
unfolding persist_payout_submission in_tx submission submit_claimed claim_approved_audit_log
    mark_payslips_out_for_payment set_payslips_transaction insert_transaction
persisted = refl

persist_payout_submission-settles_example :
    settled_by 11 (persist_payout_submission (some 9) log 11 200 world).1.tables.payslips
    ≡ owed 11 tables.payslips
persist_payout_submission-settles_example =
    persist_payout_submission-settles (some 9) log 11 200 world (refl, refl) persisted

owes : 300 < owed 11 tables.payslips
unfolding owed
owes = omega arith

run_payouts-approves_once_example : approved_of 11 (run_payouts cfg chain world).1.tables ≤ 1
run_payouts-approves_once_example = run_payouts-approves_once 11 cfg chain world (omega arith)
