-- ===== src/Payout/Send/Underpaid.antt =====
-- Which payslips a payout settles (`persistPayoutSubmission` in internal/pool/payout.go): all that
-- are pending when it is sent, also those that came after its amount was approved.
use go_pool.Prelude.{
  ℕ, ◌<◌, ◌≡◌, inl, inr, refl, arith, List, [], ◌∷◌, Option, true, false, ◌==◌, ◌&&◌, if◌then◌else◌,
  any_of, any_of-append_last, sum_of,
}
use go_pool.Store.{AuditLog, Payslip}
use go_pool.Store.Monad.{World, ok}
use go_pool.Store.Payslips.{has_hash, update_where, is_owed, is_out, set_out, set_sent, owed}
use go_pool.Payout.Send.{new_payout_transaction, persist_payout_submission}
use go_pool.Payout.Send.Persist.{submitted, persist_payout_submission-atomic}

-- The luna of the payslips that a transaction settles.
unfoldable pub settled_by : ℕ → List Payslip → ℕ
settled_by h ps = sum_of (λ s. if has_hash h s.tx_hash then s.amount else 0) ps

-- The hash is new, and no payslip of the address is between two statements.
abbrev pub IsFresh : ℕ → ℕ → List Payslip → Type 0
IsFresh h a ps = (any_of (λ s. has_hash h s.tx_hash) ps ≡ false) × (any_of (is_out a) ps ≡ false)

settled_by-submitted :
    (h a : ℕ) (ps : List Payslip)
    → IsFresh h a ps
    → settled_by h (update_where (is_out a) (set_sent h) (update_where (is_owed a) set_out ps))
      ≡ owed a ps
unfolding settled_by owed
settled_by-submitted h a [] f = refl
settled_by-submitted h a (s ∷ ps) f = ground (arith, settled_by-submitted h a ps)

module _ (now : Option ℕ) (log : AuditLog) (hash head : ℕ) (w : World) where
  submitted_tables :
      (persist_payout_submission now log hash head w).0 ≡ ok tt
      → (persist_payout_submission now log hash head w).1.tables
        ≡ submitted now log hash head w.tables
  submitted_tables h = elim (persist_payout_submission-atomic now log hash head w) [
    | inl (e, bad, _) ↦ cc
    | inr (_, _, t) ↦ t
  ]

  -- A payout that is persisted under a new hash, with no payslip of its address caught between the
  -- two updates before, settles exactly what the address is owed at that moment.
  pub persist_payout_submission-settles :
      IsFresh hash log.address w.tables.payslips
      → (persist_payout_submission now log hash head w).0 ≡ ok tt
      → settled_by hash (persist_payout_submission now log hash head w).1.tables.payslips
        ≡ owed log.address w.tables.payslips
  persist_payout_submission-settles fresh h =
      rw (submitted_tables h) (settled_by-submitted hash log.address w.tables.payslips fresh)

  -- So if the address is owed more than the amount that was approved, as after a reward that came
  -- while the approved payout was held back, a persisted payout is recorded with an amount below
  -- the sum of the payslips that it settles: the difference is marked as paid, and never sent.
  late_payslips_underpaid :
      IsFresh hash log.address w.tables.payslips
      → (persist_payout_submission now log hash head w).0 ≡ ok tt
      → log.amount < owed log.address w.tables.payslips
      → let t = (persist_payout_submission now log hash head w).1.tables in
        (any_of (λ x. x.hash == hash && x.amount == log.amount) t.transactions ≡ true)
        × (log.amount < settled_by hash t.payslips)
  late_payslips_underpaid fresh h late =
      let x = new_payout_transaction now hash log.address log.amount head in
      (
        rw (submitted_tables h) (
            any_of-append_last (λ y. y.hash == hash && y.amount == log.amount) w.tables.transactions
              x (ground arith)),
        rw (persist_payout_submission-settles fresh h) late,
      )
