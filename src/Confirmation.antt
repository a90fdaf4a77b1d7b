-- ===== src/Confirmation.antt =====
-- Settling payout transactions (internal/pool/confirmation.go, internal/pool/stuck.go), and the
-- operator's retry of a failed one (internal/api/operator_operations_handlers.go). Times are
-- nanoseconds; a zero time and a NULL one are `none`. Log lines, metrics and events are left out.
pub mod Matching
pub mod Stranded
pub mod Retry
mod Tests
use go_pool.Prelude.{
  ℕ, ◌+◌, ◌*◌, List, [], ◌∷◌, ◌++◌, Option, none, some, Bool, true, false, not, ◌&&◌, ◌==◌, ltb,
  if◌then◌else◌,
}
use go_pool.Store.{TxStatus, PayslipStatus, Transaction, ApiEvent, payout_retry_requested}
use go_pool.Store.Monad.{
  Error, payout_stuck, M, ◌>>=◌, ◌>>◌, pure, raise, done, try, send_alert, exec, in_tx,
}
use go_pool.Store.Payslips.{
  finalize_payslips, update_payslip_status_failed, retry_failed_payout_payslips,
}
use go_pool.Store.Payments.{get_pending_transactions, set_transaction_status}
use go_pool.Store.Epochs.{finalize_completed_epochs}

-- `rpc.Confirmation`.
pub record Confirmation : Type 0 where
  pub final : Bool
  pub succeeded : Bool

pub data ConfirmOutcome : Type 0 where
  outcome_pending outcome_succeeded outcome_failed : ConfirmOutcome

-- `confirmationOutcome`.
unfoldable pub confirmation_outcome : Confirmation → ConfirmOutcome
confirmation_outcome conf =
    if not conf.final
    then outcome_pending
    else if conf.succeeded
    then outcome_succeeded
    else outcome_failed

-- The answer of `CheckTransaction`: `rpc.ErrNotFound`, another error, or a confirmation.
pub data Check : Type 0 where
  not_found : Check
  rpc_error : Check
  found : Confirmation → Check

-- What a run reads: the head (0 after an error), the clock, the policy, the configured number of
-- epochs (0 for a number that is not positive), and the chain's answer for each hash.
pub record Env : Type 0 where
  pub head : ℕ
  pub now : ℕ
  pub stuck_payout_epochs : ℕ
  pub blocks_per_epoch : ℕ
  pub block_separation_ms : ℕ
  pub check_transaction : ℕ → Check

-- The wall-clock test of `IsStuck`.
is_late : Env → Option ℕ → Bool
is_late env none = false
is_late env (some submitted_at) =
    ltb 0 env.blocks_per_epoch
    && ltb 0 env.block_separation_ms
    && ltb
        (submitted_at
          + env.stuck_payout_epochs * (env.blocks_per_epoch * env.block_separation_ms) * 1000000)
        env.now

-- `IsStuck`. Its int64 difference is compared by adding; its products stay below 2 ^ 63.
unfoldable pub is_stuck : Env → ℕ → Option ℕ → Bool
unfolding is_late
is_stuck env submitted_height submitted_at =
    if env.stuck_payout_epochs == 0
    then false
    else if ltb 0 submitted_height && ltb 0 env.blocks_per_epoch
    then ltb (submitted_height + env.stuck_payout_epochs * env.blocks_per_epoch) env.head
    else is_late env submitted_at

-- `Manager.failStuckPayout`.
unfoldable pub fail_stuck_payout : ℕ → M (Unit {0})
fail_stuck_payout hash =
    set_transaction_status TxStatus.failed hash
    >> (update_payslip_status_failed hash >> send_alert payout_stuck)

-- A stuck payout is failed, and an error of that is only logged.
unfoldable pub fail_if_stuck : Bool → ℕ → M (Unit {0})
unfolding fail_stuck_payout
fail_if_stuck stuck hash = if stuck then (try (fail_stuck_payout hash) >>= λ _. done) else done

-- The three cases of the loop's `switch`.
unfoldable pub settle_outcome : Bool → ℕ → ConfirmOutcome → M (Unit {0})
unfolding fail_if_stuck
settle_outcome stuck hash outcome_pending = fail_if_stuck stuck hash
settle_outcome stuck hash outcome_succeeded =
    set_transaction_status TxStatus.completed hash >> finalize_payslips hash
settle_outcome stuck hash outcome_failed =
    set_transaction_status TxStatus.failed hash >> update_payslip_status_failed hash

unfoldable pub settle_checked : Bool → ℕ → Check → M (Unit {0})
unfolding fail_if_stuck settle_outcome confirmation_outcome
settle_checked stuck hash not_found = fail_if_stuck stuck hash
settle_checked stuck hash rpc_error = done
settle_checked stuck hash (found conf) = settle_outcome stuck hash (confirmation_outcome conf)

-- One round of the loop.
unfoldable pub confirm_tx : Env → Transaction → M (Unit {0})
unfolding settle_checked
confirm_tx env tx =
    settle_checked (is_stuck env tx.submitted_height tx.submitted_at) tx.hash
      (env.check_transaction tx.hash)

unfoldable pub confirm_loop : Env → List Transaction → M (Unit {0})
confirm_loop env [] = done
confirm_loop env (tx ∷ txs) = confirm_tx env tx >> confirm_loop env txs

-- `Manager.runConfirmations`.
unfoldable pub run_confirmations : Env → M (Unit {0})
run_confirmations env = get_pending_transactions >>= λ pending.
    (confirm_loop env pending >> (finalize_completed_epochs >>= λ _. done))

-- `InsertOperatorEvent` with what `operatorOperationEvent` makes of a request.
unfoldable pub insert_operator_event : ApiEvent → M (Unit {0})
unfolding exec
insert_operator_event e = exec λ t. record t { api_events = t.api_events ++ e ∷ [] }

-- The transaction of `handleOperatorPayoutSub`: the number of payslips.
unfoldable pub retry_payout : ℕ → M ℕ
unfolding insert_operator_event
retry_payout hash = in_tx (
    retry_failed_payout_payslips hash >>= λ n.
    if n == 0
    then raise Error.invalid_retry
    else (insert_operator_event (payout_retry_requested hash n) >> pure n))
