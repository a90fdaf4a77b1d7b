-- ===== src/Confirmation/Stranded.antt =====
-- A settlement is two statements and no transaction (`runConfirmations` in
-- internal/pool/confirmation.go): what an error between them leaves behind.
use go_pool.Prelude.{
  ℕ, ◌≡◌, ◌∙◌, refl, inl, inr, arith, List, [], ◌∷◌, Bool, true, false, ◌&&◌, ◌==◌, if◌then◌else◌,
  All, any_of, keep, Bool-cases,
}
use go_pool.Store.{PayslipStatus, TxStatus, Payslip, Transaction, is_awaiting}
use go_pool.Store.Monad.{
  World, Result, ok, err, Error, M, after, done, ◌>>=◌, ◌>>◌, send_alert, payout_stuck, refused,
}
use go_pool.Store.Statements.{unwritten}
use go_pool.Store.Payslips.{
  has_hash, update_where, set_status, finalize_payslips, update_payslip_status_failed,
}
use go_pool.Store.Payments.{set_transaction_status, get_pending_transactions}
use go_pool.Store.Epochs.{finalize_completed_epochs}
use go_pool.Confirmation.{
  ConfirmOutcome, outcome_pending, outcome_succeeded, outcome_failed, Check, not_found, rpc_error,
  found, Env, confirmation_outcome, is_stuck, fail_stuck_payout, fail_if_stuck, settle_outcome,
  settle_checked, confirm_tx, confirm_loop, run_confirmations,
}

-- The payslips under a hash.
abbrev pub under : ℕ → World → List Payslip
under h w = keep (λ s. has_hash h s.tx_hash) w.tables.payslips

-- No awaiting transaction has the hash.
abbrev pub NoneAwaiting : ℕ → List Transaction → Type 0
NoneAwaiting h xs = any_of (λ x. x.hash == h && is_awaiting x.status) xs ≡ false

under-update :
    (h k : ℕ) (p : PayslipStatus) (ps : List Payslip)
    → (k == h) ≡ false
    → keep (λ s. has_hash h s.tx_hash) (update_where (λ s. has_hash k s.tx_hash) (set_status p) ps)
      ≡ keep (λ s. has_hash h s.tx_hash) ps
under-update h k p [] ne = refl
under-update h k p (s ∷ ps) ne = ground (arith, under-update h k p ps ne)

set_transaction_status-under :
    (h k : ℕ) (t : TxStatus) (w : World) → under h (set_transaction_status t k w).1 ≡ under h w
unfolding set_transaction_status
set_transaction_status-under h k t w = ground arith

finalize-under :
    (h k : ℕ) (w : World) → (k == h) ≡ false → under h (finalize_payslips k w).1 ≡ under h w
unfolding finalize_payslips
finalize-under h k w ne =
    ground (arith, under-update h k PayslipStatus.completed w.tables.payslips ne)

failed-under :
    (h k : ℕ) (w : World)
    → (k == h) ≡ false
    → under h (update_payslip_status_failed k w).1 ≡ under h w
unfolding update_payslip_status_failed
failed-under h k w ne = ground (arith, under-update h k PayslipStatus.failed w.tables.payslips ne)

-- Two steps that leave the payslips under a hash alone.
both-under {ℓ κ} :
    {A : Type ℓ} {B : Type κ} (h : ℕ) (f : A → M B) (r : Result A × World)
    → ((a : A) (w : World) → under h (f a w).1 ≡ under h w)
    → under h (after f r).1 ≡ under h r.1
both-under h f (ok a, w) next = next a w
both-under h f (err e, w) next = refl

module _ (h k : ℕ) (ne : (k == h) ≡ false) where
  fail_stuck-under : (w : World) → under h (fail_stuck_payout k w).1 ≡ under h w
  unfolding fail_stuck_payout
  fail_stuck-under w =
      both-under h (λ _. update_payslip_status_failed k >> send_alert payout_stuck)
        (set_transaction_status TxStatus.failed k w)
        (λ _ w'.
          both-under h (λ _. send_alert payout_stuck) (update_payslip_status_failed k w')
            (λ _ _. refl)
          ∙ failed-under h k w' ne)
      ∙ set_transaction_status-under h k TxStatus.failed w

  fail_if_stuck-under : (stuck : Bool) (w : World) → under h (fail_if_stuck stuck k w).1 ≡ under h w
  unfolding fail_if_stuck
  fail_if_stuck-under false w = refl
  fail_if_stuck-under true w = fail_stuck-under w

  settle_outcome-under :
      (stuck : Bool) (o : ConfirmOutcome) (w : World)
      → under h (settle_outcome stuck k o w).1 ≡ under h w
  unfolding settle_outcome
  settle_outcome-under stuck outcome_pending w = fail_if_stuck-under stuck w
  settle_outcome-under stuck outcome_succeeded w =
      both-under h (λ _. finalize_payslips k) (set_transaction_status TxStatus.completed k w)
        (λ _ w'. finalize-under h k w' ne)
      ∙ set_transaction_status-under h k TxStatus.completed w
  settle_outcome-under stuck outcome_failed w =
      both-under h (λ _. update_payslip_status_failed k)
        (set_transaction_status TxStatus.failed k w) (λ _ w'. failed-under h k w' ne)
      ∙ set_transaction_status-under h k TxStatus.failed w

  settle_checked-under :
      (stuck : Bool) (c : Check) (w : World) → under h (settle_checked stuck k c w).1 ≡ under h w
  unfolding settle_checked
  settle_checked-under stuck not_found w = fail_if_stuck-under stuck w
  settle_checked-under stuck rpc_error w = refl
  settle_checked-under stuck (found conf) w =
      settle_outcome-under stuck (confirmation_outcome conf) w

others_pending :
    (h : ℕ) (xs : List Transaction)
    → NoneAwaiting h xs
    → All (λ x. (x.hash == h) ≡ false) (keep (λ x. is_awaiting x.status) xs)
others_pending h [] n = tt
others_pending h (x ∷ xs) n = go (is_awaiting x.status) refl (others_pending h xs (ground arith))
  where
    pending : List Transaction
    pending = keep (λ y. is_awaiting y.status) xs

    go :
        (b : Bool)
        → is_awaiting x.status ≡ b
        → All (λ y. (y.hash == h) ≡ false) pending
        → All (λ y. (y.hash == h) ≡ false) (if b then x ∷ pending else pending)
    go true waiting rest = (ground arith, rest)
    go false settled rest = rest

confirm_loop-under :
    (h : ℕ) (env : Env) (xs : List Transaction) (w : World)
    → All (λ x. (x.hash == h) ≡ false) xs
    → under h (confirm_loop env xs w).1 ≡ under h w
unfolding confirm_loop confirm_tx
confirm_loop-under h env [] w _ = refl
confirm_loop-under h env (x ∷ xs) w (ne, nes) =
    both-under h (λ _. confirm_loop env xs) (confirm_tx env x w)
      (λ _ w'. confirm_loop-under h env xs w' nes)
    ∙ settle_checked-under h x.hash ne (is_stuck env x.submitted_height x.submitted_at)
        (env.check_transaction x.hash) w

finalize_completed-under : (h : ℕ) (w : World) → under h (finalize_completed_epochs w).1 ≡ under h w
unfolding finalize_completed_epochs
finalize_completed-under h w = ground arith

run_confirmations-under :
    (h : ℕ) (env : Env) (w : World)
    → NoneAwaiting h w.tables.transactions
    → under h (run_confirmations env w).1 ≡ under h w
unfolding run_confirmations get_pending_transactions
run_confirmations-under h env w n = elim (Bool-cases (refused w.io)) [
  | inl no_io ↦ rw no_io refl
  | inr io ↦
      let pending = keep (λ x. is_awaiting x.status) w.tables.transactions in
      rw io (
        both-under h (λ _. finalize_completed_epochs >>= λ _. done)
          (confirm_loop env pending (unwritten w))
          (λ _ w'.
            both-under h (λ _. done) (finalize_completed_epochs w') (λ _ _. refl)
            ∙ finalize_completed-under h w')
        ∙ confirm_loop-under h env pending (unwritten w) (others_pending h w.tables.transactions n))
]

completed-NoneAwaiting :
    (h : ℕ) (xs : List Transaction)
    → NoneAwaiting h
        (update_where (λ x. x.hash == h) (λ x. record x { status = TxStatus.completed }) xs)
completed-NoneAwaiting h [] = refl
completed-NoneAwaiting h (x ∷ xs) = ground (arith, completed-NoneAwaiting h xs)

-- Let the chain say that a transaction is final and succeeded, and let the database take the update
-- of the transaction and refuse that of the payslips. The round returns the error, and the payslips
-- under the hash are left as they were; so does every later run, whatever it reads and whichever of
-- its statements fail: it asks about awaiting transactions, and none with this hash is left.
half_settled_never_finished :
    (env : Env) (x : Transaction) (w : World) (io : List Bool) (again : Env) (io' : List Bool)
    → w.io ≡ false ∷ true ∷ io
    → env.check_transaction x.hash ≡ found (record { final = true; succeeded = true })
    → let (r, w') = confirm_tx env x w in
      (r ≡ err Error.sql)
      × (under x.hash w' ≡ under x.hash w)
      × NoneAwaiting x.hash w'.tables.transactions
      × (under x.hash (run_confirmations again (record w' { io = io' })).1 ≡ under x.hash w)
unfolding confirm_tx settle_checked settle_outcome confirmation_outcome set_transaction_status
    finalize_payslips
half_settled_never_finished env x w io again io' failing final =
    let xs =
      update_where (λ y. y.hash == x.hash) (λ y. record y { status = TxStatus.completed })
        w.tables.transactions in
    let left = record w { io = io'; tables = record w.tables { transactions = xs } } in
    let none_left = completed-NoneAwaiting x.hash w.tables.transactions in
    rw final
      (rw failing (refl, refl, none_left, run_confirmations-under x.hash again left none_left))
