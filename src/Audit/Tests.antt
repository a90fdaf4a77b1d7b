-- ===== src/Audit/Tests.antt =====
-- An approval (internal/api/operator_handlers.go) of the one log of a table.
use go_pool.Prelude.{◌≡◌, ◌⊎◌, arith, [], ◌∷◌, none, true, any_of}
use go_pool.Store.{AuditStatus, AuditLog, payout_transfer}
use go_pool.Store.Monad.{World, ok}
use go_pool.Store.Statements.{RolledBack}
use go_pool.Store.Payments.{is_pending_log}
use go_pool.Audit.{handle_audit_approve}
use go_pool.Audit.Approve.{approved, handle_audit_approve-decides}

abbrev log : AuditLog
log = record {
  id = 1;
  address = 11;
  amount = 300;
  fee = 20;
  kind = payout_transfer;
  status = AuditStatus.pending;
  tx_hash = none;
}

abbrev world : World
world = record {
  tables = record {
    cursor = none;
    epochs = [];
    stakers = [];
    rewards = [];
    payslips = [];
    transactions = [];
    audit_logs = log ∷ [];
    preferences = [];
    actions = [];
    api_events = [];
  };
  io = [];
  fee_floor_alerted = [];
  balance_hold_alerted = [];
  alerts = [];
  broadcast = [];
  actions_sent = [];
}

handle_audit_approve-decides_example :
    let (r, w') = handle_audit_approve 1 world in
    RolledBack world.tables (r, w')
    ⊎ ((r ≡ ok tt)
        × (any_of (is_pending_log 1) (log ∷ []) ≡ true)
        × (w'.tables ≡ approved 1 world.tables))
handle_audit_approve-decides_example = handle_audit_approve-decides 1 world (omega arith)
