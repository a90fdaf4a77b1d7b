-- ===== src/Payout/Send/Persist.antt =====
-- `persistPayoutSubmission` (internal/pool/payout.go): all of it happens, or nothing.
use go_pool.Prelude.{
  ℕ, ◌≡◌, ◌⊎◌, inl, inr, arith, sym, ap, ◌∙◌, Bool-cases, [], ◌∷◌, ◌++◌, ◌==◌, refl, Option, false,
  length, keep,
}
use go_pool.Store.{AuditLog, Transaction, Tables}
use go_pool.Store.Monad.{World, ok, Error, raise, ◌>>◌, >>=-inv}
use go_pool.Store.Memory.{Leaves, both-Leaves, when-Leaves, raise-Leaves, in_tx-Leaves}
use go_pool.Store.Statements.{unwritten, RolledBack, in_tx-cases, plain_stmt-ok}
use go_pool.Store.Payslips.{
  mark_payslips_out_for_payment, set_payslips_transaction, update_where, is_owed, is_out, set_out,
  set_sent,
}
use go_pool.Store.Payments.{
  claim_approved_audit_log, insert_transaction, is_claimable, set_executed, is_conflict,
}
use go_pool.Payout.Send.{
  new_payout_transaction, submit_claimed, submission, persist_payout_submission,
}

-- The tables behind a submission.
abbrev pub submitted : Option ℕ → AuditLog → ℕ → ℕ → Tables → Tables
submitted now log hash head t = record t {
  audit_logs = update_where (is_claimable log.id) (set_executed hash) t.audit_logs;
  payslips =
      update_where (is_out log.address) (set_sent hash)
        (update_where (is_owed log.address) set_out t.payslips);
  transactions = t.transactions ++ new_payout_transaction now hash log.address log.amount head ∷ [];
}

-- The log was approved, once, and the new transaction met no other one of its hash and no awaiting
-- one of its address.
abbrev pub Submittable : Option ℕ → AuditLog → ℕ → ℕ → Tables → Type 0
Submittable now log hash head t =
    (length (keep (is_claimable log.id) t.audit_logs) ≡ 1)
    × (is_conflict (new_payout_transaction now hash log.address log.amount head) t.transactions
        ≡ false)

abbrev claimed : ℕ → ℕ → Tables → Tables
claimed hash i t = record t {
  audit_logs = update_where (is_claimable i) (set_executed hash) t.audit_logs;
}

abbrev marked : ℕ → Tables → Tables
marked a t = record t { payslips = update_where (is_owed a) set_out t.payslips }

abbrev sent : ℕ → ℕ → Tables → Tables
sent hash a t = record t { payslips = update_where (is_out a) (set_sent hash) t.payslips }

abbrev with_tx : Transaction → Tables → Tables
with_tx x t = record t { transactions = t.transactions ++ x ∷ [] }

insert_transaction-ok :
    (x : Transaction) (w : World)
    → (insert_transaction x w).0 ≡ ok tt
    → (is_conflict x w.tables.transactions ≡ false)
      × ((insert_transaction x w).1.tables ≡ with_tx x w.tables)
unfolding insert_transaction
insert_transaction-ok x w h = ground arith

-- The statements behind the claim, each from the tables that the one before leaves.
stored-ok :
    (hash a : ℕ) (x : Transaction) (w : World)
    → let body =
        mark_payslips_out_for_payment a
        >> (set_payslips_transaction hash a >> insert_transaction x) in
      (body w).0 ≡ ok tt
      → (is_conflict x w.tables.transactions ≡ false)
        × ((body w).1.tables ≡ with_tx x (sent hash a (marked a w.tables)))
unfolding mark_payslips_out_for_payment set_payslips_transaction
stored-ok hash a x w h =
    let store = set_payslips_transaction hash a >> insert_transaction x in
    let (_, w1, mark, run) = >>=-inv (mark_payslips_out_for_payment a) (λ _. store) w h in
    let (_, w2, set, run') =
      >>=-inv (set_payslips_transaction hash a) (λ _. insert_transaction x) w1
        (ap (λ y. y.0) (sym run) ∙ h) in
    let (_, now1) = plain_stmt-ok (λ _. tt) (marked a) w w1 tt mark in
    let (_, now2) = plain_stmt-ok (λ _. tt) (sent hash a) w1 w2 tt set in
    let now : sent hash a (marked a w.tables) ≡ w2.tables = ap (sent hash a) now1 ∙ now2 in
    let (free, inserted) = insert_transaction-ok x w2 (ap (λ y. y.0) (sym run' ∙ sym run) ∙ h) in
    (
      ap (λ t. is_conflict x t.transactions) now ∙ free,
      ap (λ y. y.1.tables) (run ∙ run') ∙ inserted ∙ ap (with_tx x) (sym now),
    )

-- Exactly one row was claimed, or the body has failed.
submit_claimed-ok :
    (now : Option ℕ) (log : AuditLog) (hash head n : ℕ) (w : World)
    → (submit_claimed now log hash head n w).0 ≡ ok tt
    → let x = new_payout_transaction now hash log.address log.amount head in
      (n ≡ 1)
      × (is_conflict x w.tables.transactions ≡ false)
      × ((submit_claimed now log hash head n w).1.tables
          ≡ with_tx x (sent hash log.address (marked log.address w.tables)))
unfolding submit_claimed
submit_claimed-ok now log hash head n w h =
    let x = new_payout_transaction now hash log.address log.amount head in
    elim (Bool-cases (n == 1)) [
      | inr other ↦ let bad = rw other at h in cc
      | inl one ↦
          let (free, tables) = stored-ok hash log.address x w (rw one at h) in
          (ground arith, free, rw one tables)
    ]

submission-ok :
    (now : Option ℕ) (log : AuditLog) (hash head : ℕ) (w : World)
    → (submission now log hash head w).0 ≡ ok tt
    → Submittable now log hash head w.tables
      × ((submission now log hash head w).1.tables ≡ submitted now log hash head w.tables)
unfolding submission claim_approved_audit_log
submission-ok now log hash head w h =
    let x = new_payout_transaction now hash log.address log.amount head in
    let count : Tables → ℕ = λ t. length (keep (is_claimable log.id) t.audit_logs) in
    let (n, w1, claim, run) =
      >>=-inv (claim_approved_audit_log hash log.id) (submit_claimed now log hash head) w h in
    let (rows, now1) = plain_stmt-ok count (claimed hash log.id) w w1 n claim in
    let (one, free, tables) =
      submit_claimed-ok now log hash head n w1 (ap (λ y. y.0) (sym run) ∙ h) in
    (
      (rows ∙ one, ap (λ t. is_conflict x t.transactions) now1 ∙ free),
      ap (λ y. y.1.tables) run
          ∙ tables
          ∙ ap (λ t. with_tx x (sent hash log.address (marked log.address t))) (sym now1),
    )

-- Whatever the database refuses, persisting a payout either returns an error and leaves every table
-- as it was, or it succeeds: then the log was the one approved row of its id and becomes executed,
-- every pending payslip of the address waits for confirmation under the hash, and the transaction
-- is recorded; no transaction had that hash and none of the address was awaiting.
pub persist_payout_submission-atomic :
    (now : Option ℕ) (log : AuditLog) (hash head : ℕ) (w : World)
    → let (r, w') = persist_payout_submission now log hash head w in
      RolledBack w.tables (r, w')
      ⊎ ((r ≡ ok tt)
          × Submittable now log hash head w.tables
          × (w'.tables ≡ submitted now log hash head w.tables))
unfolding persist_payout_submission
persist_payout_submission-atomic now log hash head w =
    elim (in_tx-cases (submission now log hash head) w) [
      | inl back ↦ inl back
      | inr (tt, e, r) ↦
          let (fit, t) = submission-ok now log hash head (unwritten w) e in inr (rw r, fit, rw r t)
    ]

claim-sent_out : (hash i : ℕ) → Leaves (λ w. w.broadcast) (claim_approved_audit_log hash i)
unfolding Leaves claim_approved_audit_log
claim-sent_out hash i w = ground arith

mark-sent_out : (a : ℕ) → Leaves (λ w. w.broadcast) (mark_payslips_out_for_payment a)
unfolding Leaves mark_payslips_out_for_payment
mark-sent_out a w = ground arith

set-sent_out : (hash a : ℕ) → Leaves (λ w. w.broadcast) (set_payslips_transaction hash a)
unfolding Leaves set_payslips_transaction
set-sent_out hash a w = ground arith

insert-sent_out : (x : Transaction) → Leaves (λ w. w.broadcast) (insert_transaction x)
unfolding Leaves insert_transaction
insert-sent_out x w = ground arith

submission-sent_out :
    (now : Option ℕ) (log : AuditLog) (hash head : ℕ)
    → Leaves (λ w. w.broadcast) (submission now log hash head)
unfolding submission submit_claimed
submission-sent_out now log hash head =
    let g = λ (w : World). w.broadcast in
    let tx = new_payout_transaction now hash log.address log.amount head in
    let store = set_payslips_transaction hash log.address >> insert_transaction tx in
    both-Leaves g (claim_approved_audit_log hash log.id) (submit_claimed now log hash head)
      (claim-sent_out hash log.id)
      (λ n.
        when-Leaves g (n == 1) (mark_payslips_out_for_payment log.address >> store)
          (raise Error.not_approved)
          (both-Leaves g (mark_payslips_out_for_payment log.address) (λ _. store)
            (mark-sent_out log.address)
            (λ _.
              both-Leaves g (set_payslips_transaction hash log.address) (λ _. insert_transaction tx)
                (set-sent_out hash log.address) (λ _. insert-sent_out tx)))
          (raise-Leaves g (Unit {0}) Error.not_approved))

pub persist_payout_submission-broadcast :
    (now : Option ℕ) (log : AuditLog) (hash head : ℕ) (w : World)
    → (persist_payout_submission now log hash head w).1.broadcast ≡ w.broadcast
unfolding persist_payout_submission Leaves
persist_payout_submission-broadcast now log hash head w =
    in_tx-Leaves (λ v. v.broadcast) (submission now log hash head) (λ v io t. refl)
      (submission-sent_out now log hash head) w
