-- ===== src/Payout/Send.antt =====
-- `processApprovedPayouts` and `persistPayoutSubmission` of internal/pool/payout.go: an approved
-- payout is signed, persisted in one transaction, and only then broadcast.
pub mod Persist
pub mod Tracking
pub mod Safety
pub mod Underpaid
use go_pool.Prelude.{
  ℕ, List, [], ◌∷◌, ◌++◌, Option, none, some, Bool, true, false, not, ◌==◌, if◌then◌else◌, sub64,
}
use go_pool.Store.{PayoutKind, TxStatus, Transaction, AuditLog}
use go_pool.Store.Monad.{
  Error, Payout, World, Result, ok, err, M, ◌>>=◌, ◌>>◌, pure, raise, done, try, or_raise, modify,
  in_tx,
}
use go_pool.Store.Payslips.{mark_payslips_out_for_payment, set_payslips_transaction}
use go_pool.Store.Payments.{list_approved_audit_logs, claim_approved_audit_log, insert_transaction}
use go_pool.Payout.Rules.{Config, Chain, payout_fits_balance, total_of}
use go_pool.Payout.Approve.{hold_for_balance, release_hold}

-- `newPayoutTransaction`; the database fills in `submitted_at`.
abbrev pub new_payout_transaction : Option ℕ → ℕ → ℕ → ℕ → ℕ → Transaction
new_payout_transaction now hash a amount head = record {
  hash = hash;
  address = a;
  amount = amount;
  status = TxStatus.awaiting;
  submitted_height = head;
  submitted_at = now;
}

-- What follows the claim of the audit log, which must have changed one row.
unfoldable pub submit_claimed : Option ℕ → AuditLog → ℕ → ℕ → ℕ → M (Unit {0})
submit_claimed now log hash head claimed =
    if claimed == 1
    then (mark_payslips_out_for_payment log.address
        >> (set_payslips_transaction hash log.address
            >> insert_transaction (new_payout_transaction now hash log.address log.amount head)))
    else raise Error.not_approved

-- The body of the transaction.
unfoldable pub submission : Option ℕ → AuditLog → ℕ → ℕ → M (Unit {0})
unfolding submit_claimed
submission now log hash head =
    claim_approved_audit_log hash log.id >>= submit_claimed now log hash head

-- `Manager.persistPayoutSubmission`.
unfoldable pub persist_payout_submission : Option ℕ → AuditLog → ℕ → ℕ → M (Unit {0})
persist_payout_submission now log hash head = in_tx (submission now log hash head)

-- `SendTransaction`: whatever the node answers, the transaction may have reached the network.
unfoldable pub send_transaction : Payout → M (Unit {0})
send_transaction tx = modify (λ w. record w { broadcast = w.broadcast ++ tx ∷ [] })

-- What follows the attempt to persist; the balance that is left is returned.
unfoldable pub broadcast_persisted : Chain → ℕ → AuditLog → Payout → Result (Unit {0}) → M ℕ
broadcast_persisted c available log tx (err _) = pure available
broadcast_persisted c available log tx (ok _) =
    release_hold log.address
    >> (send_transaction tx >> pure (sub64 available (total_of c log.amount log.fee)))

-- The transaction of an audit log.
abbrev pub payout_of : AuditLog → ℕ → Payout
payout_of log head = record {
  kind = log.kind;
  recipient = log.address;
  amount = log.amount;
  fee = log.fee;
  head = head;
}

-- One round of the loop over the approved logs.
unfoldable pub send_log : Chain → Option ℕ → ℕ → ℕ → AuditLog → M ℕ
send_log c now head available log =
    let tx = payout_of log head in
    if not (c.parses log.address)
    then pure available
    else if not (payout_fits_balance c available log.amount log.fee)
    then hold_for_balance log.address >> pure available
    else if not (c.builds tx)
    then pure available
    else if not (c.signs tx)
    then pure available
    else (try (persist_payout_submission now log (c.hash tx) head)
        >>= broadcast_persisted c available log tx)

unfoldable pub send_loop : Chain → Option ℕ → ℕ → ℕ → List AuditLog → M (Unit {0})
send_loop c now head available [] = done
send_loop c now head available (l ∷ ls) =
    send_log c now head available l >>= λ left. send_loop c now head left ls

unfoldable pub send_approved : Chain → Option ℕ → List AuditLog → M (Unit {0})
send_approved c now logs = do
  head ← or_raise c.block_number Error.rpc
  available ← or_raise c.balance Error.rpc
  send_loop c now head available logs

-- `Manager.processApprovedPayouts`.
unfoldable pub process_approved_payouts : Config → Chain → Option ℕ → M (Unit {0})
process_approved_payouts cfg c now =
    if cfg.dry_run then done else (list_approved_audit_logs >>= send_approved c now)
