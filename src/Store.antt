-- ===== src/Store.antt =====
-- The daemon's tables (schema/scheme.sql, internal/db/migrations) as lists of rows in the order of
-- insertion. Addresses and transaction hashes are only compared, so they are numbers; a status that the
-- program writes as text is a constructor; an int64 amount is a number.
pub mod Monad
pub mod Statements
pub mod Payslips
pub mod Payments
pub mod Epochs
pub mod Actions
pub mod Memory
use go_pool.Prelude.{ℕ, List, [], Option, Bool, true, false}

pub data PayslipStatus : Type 0 where
  pending out_for_payment awaiting_confirmation completed failed : PayslipStatus

pub data TxStatus : Type 0 where
  awaiting completed failed : TxStatus

pub data AuditStatus : Type 0 where
  pending approved executed dry_run skipped : AuditStatus

pub data EpochStatus : Type 0 where
  not_elected retired inactive jailed no_stakers in_progress completed : EpochStatus

-- `payoutKind`, also the column `kind` of an audit log.
pub data PayoutKind : Type 0 where
  payout_transfer payout_delegate : PayoutKind

pub record Epoch : Type 0 where
  pub number : ℕ
  pub num_stakers : ℕ
  pub balance : ℕ
  pub status : EpochStatus

-- The column `percentage` is a float for display only, and is left out.
pub record Staker : Type 0 where
  pub epoch_number : ℕ
  pub address : ℕ
  pub stake : ℕ

pub record Reward : Type 0 where
  pub batch_number : ℕ
  pub epoch_number : ℕ
  pub amount : ℕ
  pub pool_fee : ℕ
  pub num_stakers : ℕ

pub record Payslip : Type 0 where
  pub batch_number : ℕ
  pub address : ℕ
  pub amount : ℕ
  pub status : PayslipStatus
  pub tx_hash : Option ℕ

pub record Transaction : Type 0 where
  pub hash : ℕ
  pub address : ℕ
  pub amount : ℕ
  pub status : TxStatus
  pub submitted_height : ℕ
  pub submitted_at : Option ℕ

-- Only payouts are logged: `action_type` is always "payout".
pub record AuditLog : Type 0 where
  pub id : ℕ
  pub address : ℕ
  pub amount : ℕ
  pub fee : ℕ
  pub kind : PayoutKind
  pub status : AuditStatus
  pub tx_hash : Option ℕ

-- The column `action`.
pub data ActionKind : Type 0 where
  deactivate retire reactivate create self_stake : ActionKind

-- The column `outcome`, which the first schema had.
pub data ActionOutcome : Type 0 where
  requested pending failed cancelled : ActionOutcome

-- The column `state`, which is NULL in rows that only have an outcome.
pub data ActionState : Type 0 where
  requested processing submitted confirmed failed cancelled : ActionState

pub record ValidatorAction : Type 0 where
  pub id : ℕ
  pub action : ActionKind
  pub tx_hash : Option ℕ
  pub outcome : ActionOutcome
  pub state : Option ActionState

-- What an API handler records of a request in `operator_events` in the transaction of the request: the
-- event's type and the numbers of its context. Whose request it is, and its correlation id, are left
-- out.
pub data ApiEvent : Type 0 where
  validator_action_requested : ActionKind → ApiEvent
  validator_action_cancelled : ℕ → ActionKind → ApiEvent
  payout_retry_requested : ℕ → ℕ → ApiEvent

-- Of `operator_events` only the rows that belong to such a transaction.
pub record Tables : Type 0 where
  pub cursor : Option ℕ
  pub epochs : List Epoch
  pub stakers : List Staker
  pub rewards : List Reward
  pub payslips : List Payslip
  pub transactions : List Transaction
  pub audit_logs : List AuditLog
  pub preferences : List (ℕ × ℕ)
  pub actions : List ValidatorAction
  pub api_events : List ApiEvent

abbrev pub is_pending : PayslipStatus → Bool
is_pending PayslipStatus.pending = true
is_pending _ = false

abbrev pub is_out_for_payment : PayslipStatus → Bool
is_out_for_payment PayslipStatus.out_for_payment = true
is_out_for_payment _ = false

abbrev pub is_completed : PayslipStatus → Bool
is_completed PayslipStatus.completed = true
is_completed _ = false

abbrev pub is_failed : PayslipStatus → Bool
is_failed PayslipStatus.failed = true
is_failed _ = false

abbrev pub is_awaiting : TxStatus → Bool
is_awaiting TxStatus.awaiting = true
is_awaiting _ = false

abbrev pub is_failed_tx : TxStatus → Bool
is_failed_tx TxStatus.failed = true
is_failed_tx _ = false

abbrev pub is_approved : AuditStatus → Bool
is_approved AuditStatus.approved = true
is_approved _ = false

abbrev pub is_audit_pending : AuditStatus → Bool
is_audit_pending AuditStatus.pending = true
is_audit_pending _ = false

abbrev pub is_in_progress : EpochStatus → Bool
is_in_progress EpochStatus.in_progress = true
is_in_progress _ = false
