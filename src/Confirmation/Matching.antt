-- ===== src/Confirmation/Matching.antt =====
-- Payslips and transactions tell the same story (internal/pool/confirmation.go): a payslip under a
-- transaction's hash is as far as the transaction is.
use go_pool.Prelude.{
  ℕ, ◌≡◌, refl, arith, List, [], ◌∷◌, Bool, true, false, ◌==◌, if◌then◌else◌, All, keep,
}
use go_pool.Store.{PayslipStatus, TxStatus, Payslip, Transaction, is_awaiting}
use go_pool.Store.Monad.{World, Result, ok, err, M, after, done, ◌>>=◌, ◌>>◌}
use go_pool.Store.Payslips.{
  has_hash, update_where, set_status, finalize_payslips, update_payslip_status_failed,
}
use go_pool.Store.Payments.{set_transaction_status, get_pending_transactions}
use go_pool.Store.Epochs.{finalize_completed_epochs}
use go_pool.Confirmation.{
  ConfirmOutcome, outcome_pending, outcome_succeeded, outcome_failed, Check, not_found, rpc_error,
  found, Env, confirmation_outcome, is_stuck, fail_if_stuck, settle_outcome, settle_checked,
  confirm_tx, confirm_loop, run_confirmations,
}

abbrev pub same_stage : PayslipStatus → TxStatus → Bool
same_stage PayslipStatus.awaiting_confirmation TxStatus.awaiting = true
same_stage PayslipStatus.completed TxStatus.completed = true
same_stage PayslipStatus.failed TxStatus.failed = true
same_stage _ _ = false

abbrev pub matches : Payslip → Transaction → Bool
matches s x = if has_hash x.hash s.tx_hash then same_stage s.status x.status else true

-- Every payslip that carries a transaction's hash is at the transaction's stage.
abbrev pub Matched : List Payslip → List Transaction → Type 0
Matched ps xs = All (λ s. All (λ x. matches s x ≡ true) xs) ps

-- Both tables are moved to one stage at a hash.
abbrev Settled : PayslipStatus → TxStatus → Type 0
Settled p t = same_stage p t ≡ true

pair_moved :
    (h : ℕ) (p : PayslipStatus) (t : TxStatus) (s : Payslip) (x : Transaction)
    → Settled p t
    → matches s x ≡ true
    → matches
        (if has_hash h s.tx_hash then set_status p s else s)
        (if x.hash == h then record x { status = t } else x)
      ≡ true
pair_moved h p t s x st m = ground arith

row_moved :
    (h : ℕ) (p : PayslipStatus) (t : TxStatus) (s : Payslip) (xs : List Transaction)
    → Settled p t
    → All (λ x. matches s x ≡ true) xs
    → All
        (λ x. matches (if has_hash h s.tx_hash then set_status p s else s) x ≡ true)
        (update_where (λ x. x.hash == h) (λ x. record x { status = t }) xs)
row_moved h p t s [] st m = tt
row_moved h p t s (x ∷ xs) st m = (pair_moved h p t s x st m.0, row_moved h p t s xs st m.1)

moved :
    (h : ℕ) (p : PayslipStatus) (t : TxStatus) (ps : List Payslip) (xs : List Transaction)
    → Settled p t
    → Matched ps xs
    → Matched
        (update_where (λ s. has_hash h s.tx_hash) (set_status p) ps)
        (update_where (λ x. x.hash == h) (λ x. record x { status = t }) xs)
moved h p t [] xs st m = tt
moved h p t (s ∷ ps) xs st m = (row_moved h p t s xs st m.0, moved h p t ps xs st m.1)

-- A database that takes every statement, and tables that match.
abbrev pub Good : World → Type 0
Good w = (w.io ≡ []) × Matched w.tables.payslips w.tables.transactions

abbrev Keeps : Result (Unit {0}) × World → Type 0
Keeps (r, w) = (r ≡ ok tt) × Good w

completed-Keeps :
    (h : ℕ) (w : World)
    → Good w
    → Keeps ((set_transaction_status TxStatus.completed h >> finalize_payslips h) w)
unfolding set_transaction_status finalize_payslips
completed-Keeps h w (calm, m) = rw calm (
  refl,
  (
    refl,
    moved h PayslipStatus.completed TxStatus.completed w.tables.payslips w.tables.transactions refl
        m,
  ),
)

failed-Keeps :
    (h : ℕ) (w : World)
    → Good w
    → Keeps ((set_transaction_status TxStatus.failed h >> update_payslip_status_failed h) w)
unfolding set_transaction_status update_payslip_status_failed
failed-Keeps h w (calm, m) = rw calm (
  refl,
  (
    refl,
    moved h PayslipStatus.failed TxStatus.failed w.tables.payslips w.tables.transactions refl m,
  ),
)

fail_if_stuck-Keeps : (stuck : Bool) (h : ℕ) (w : World) → Good w → Keeps (fail_if_stuck stuck h w)
unfolding fail_if_stuck set_transaction_status update_payslip_status_failed
fail_if_stuck-Keeps false h w g = (refl, g)
fail_if_stuck-Keeps true h w (calm, m) = rw calm (
  refl,
  (
    refl,
    moved h PayslipStatus.failed TxStatus.failed w.tables.payslips w.tables.transactions refl m,
  ),
)

settle_outcome-Keeps :
    (stuck : Bool) (h : ℕ) (o : ConfirmOutcome) (w : World)
    → Good w
    → Keeps (settle_outcome stuck h o w)
unfolding settle_outcome
settle_outcome-Keeps stuck h outcome_pending w g = fail_if_stuck-Keeps stuck h w g
settle_outcome-Keeps stuck h outcome_succeeded w g = completed-Keeps h w g
settle_outcome-Keeps stuck h outcome_failed w g = failed-Keeps h w g

confirm_tx-Keeps : (env : Env) (x : Transaction) (w : World) → Good w → Keeps (confirm_tx env x w)
unfolding confirm_tx
confirm_tx-Keeps env x w g = go (env.check_transaction x.hash)
  where
    stuck : Bool
    stuck = is_stuck env x.submitted_height x.submitted_at

    go : (c : Check) → Keeps (settle_checked stuck x.hash c w)
    go not_found = fail_if_stuck-Keeps stuck x.hash w g
    go rpc_error = (refl, g)
    go (found conf) = settle_outcome-Keeps stuck x.hash (confirmation_outcome conf) w g

Keeps-after :
    (k : M (Unit {0})) (r : Result (Unit {0}) × World)
    → ((w : World) → Good w → Keeps (k w))
    → Keeps r
    → Keeps (after (λ _. k) r)
Keeps-after k (ok _, w) next (_, g) = next w g
Keeps-after k (err e, w) next (bad, _) = cc

confirm_loop-Keeps :
    (env : Env) (xs : List Transaction) (w : World) → Good w → Keeps (confirm_loop env xs w)
unfolding confirm_loop
confirm_loop-Keeps env [] w g = (refl, g)
confirm_loop-Keeps env (x ∷ xs) w g =
    Keeps-after (confirm_loop env xs) (confirm_tx env x w)
      (λ w' g'. confirm_loop-Keeps env xs w' g') (confirm_tx-Keeps env x w g)

finalize-Keeps : (w : World) → Good w → Keeps ((finalize_completed_epochs >>= λ _. done) w)
unfolding finalize_completed_epochs
finalize-Keeps w (calm, m) = rw calm (refl, (refl, m))

-- Let the database take every statement, and let every payslip under a transaction's hash be at the
-- transaction's stage. Whatever the chain answers, a run of the confirmations succeeds and keeps it
-- so: no payslip is marked as completed or failed apart from its transaction, or the other way
-- round.
pub run_confirmations-Matched :
    (env : Env) (w : World)
    → w.io ≡ []
    → Matched w.tables.payslips w.tables.transactions
    → let (r, w') = run_confirmations env w in
      (r ≡ ok tt) × (w'.io ≡ []) × Matched w'.tables.payslips w'.tables.transactions
unfolding run_confirmations get_pending_transactions
run_confirmations-Matched env w calm m =
    let xs = keep (λ x. is_awaiting x.status) w.tables.transactions in
    let w' = record w { io = [] } in
    let kept =
      Keeps-after (finalize_completed_epochs >>= λ _. done) (confirm_loop env xs w') finalize-Keeps
        (confirm_loop-Keeps env xs w' (refl, m)) in
    rw calm (kept.0, kept.1.0, kept.1.1)
