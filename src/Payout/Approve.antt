-- ===== src/Payout/Approve.antt =====
-- `runPayouts` of internal/pool/payout.go: each eligible staker gets an audit log, or is held.
pub mod Balance
pub mod Once
use go_pool.Prelude.{
  ℕ, List, [], ◌∷◌, Option, none, some, Bool, true, false, not, ◌==◌, if◌then◌else◌, keep, sub64,
}
use go_pool.Store.{PayoutKind, AuditStatus}
use go_pool.Store.Monad.{
  Error, Payout, Alert, fee_floor, insufficient_payout_balance, World, Result, ok, err, M, ◌>>=◌,
  ◌>>◌, pure, done, try, or_raise, modify, send_alert,
}
use go_pool.Store.Payslips.{get_eligible_for_payout}
use go_pool.Store.Payments.{insert_audit_log, get_staker_preference}
use go_pool.Payout.Rules.{
  Config, Chain, payout_worth_sending, payout_fits_balance, total_of, mark_hold, prune_holds,
  payout_kind_for,
}

-- `prefPtr`: nil if the query failed or found no row.
abbrev pub preference : Result (Option ℕ) → Option Bool
preference (err _) = none
preference (ok none) = none
preference (ok (some v)) = some (v == 1)

-- The first alert of a hold, for the two maps of the `Manager`.
unfoldable pub hold_for_fee : ℕ → M (Unit {0})
unfolding mark_hold
hold_for_fee a w =
    let (alerted, first) = mark_hold w.fee_floor_alerted a in
    let w' = record w { fee_floor_alerted = alerted } in
    if first then send_alert (fee_floor a) w' else (ok tt, w')

unfoldable pub hold_for_balance : ℕ → M (Unit {0})
unfolding mark_hold
hold_for_balance a w =
    let (alerted, first) = mark_hold w.balance_hold_alerted a in
    let w' = record w { balance_hold_alerted = alerted } in
    if first then send_alert (insufficient_payout_balance a) w' else (ok tt, w')

-- `delete(m.balanceHoldAlerted, …)`.
unfoldable pub release_hold : ℕ → M (Unit {0})
release_hold a =
    modify
      (λ w. record w { balance_hold_alerted = keep (λ s. not (s == a)) w.balance_hold_alerted })

-- What the loop carries from row to row: the balance that is left, and the stakers that are held.
abbrev pub Carried : Type 0
Carried = ℕ × List ℕ

-- What follows the insertion of the audit log.
logged : Chain → Carried → ℕ → ℕ → ℕ → Result ℕ → M Carried
unfolding release_hold
logged c (available, held) a amount fee (err _) = pure (available, held)
logged c (available, held) a amount fee (ok _) =
    release_hold a >> pure (sub64 available (total_of c amount fee), held)

-- One row behind the estimate of its fee.
unfoldable pub approve : Config → Chain → Carried → ℕ → ℕ → PayoutKind → ℕ → M Carried
unfolding logged
approve cfg c (available, held) a amount kind fee =
    if not (payout_worth_sending amount fee)
    then hold_for_fee a >> pure (available, a ∷ held)
    else if not (payout_fits_balance c available amount fee)
    then hold_for_balance a >> pure (available, held)
    else (try (
          insert_audit_log a amount fee kind
            (if cfg.dry_run then AuditStatus.dry_run else AuditStatus.approved))
        >>= logged c (available, held) a amount fee)

-- The transaction whose fee is estimated.
estimated : Config → Chain → ℕ → Carried → ℕ → ℕ → PayoutKind → M Carried
unfolding approve
estimated cfg c head acc a amount kind =
    let tx : Payout = record {
      kind = kind;
      recipient = a;
      amount = amount;
      fee = 0;
      head = head;
    } in
    if c.builds tx
    then elim (c.estimate_fee tx) [
      | none ↦ pure acc
      | some fee ↦ approve cfg c acc a amount kind fee
    ]
    else pure acc

-- One row of the loop.
unfoldable pub payout_row : Config → Chain → ℕ → Carried → ℕ × ℕ → M Carried
unfolding estimated
payout_row cfg c head acc (a, amount) =
    if c.parses a
    then (try (get_staker_preference a) >>= λ r.
        estimated cfg c head acc a amount (payout_kind_for cfg c a (preference r)))
    else pure acc

unfoldable pub payout_loop : Config → Chain → ℕ → Carried → List (ℕ × ℕ) → M Carried
payout_loop cfg c head acc [] = pure acc
payout_loop cfg c head acc (r ∷ rs) =
    payout_row cfg c head acc r >>= λ acc'. payout_loop cfg c head acc' rs

-- `pruneFeeFloorHolds` at the end.
unfoldable pub prune : Carried → M (Unit {0})
prune acc = modify (λ w. record w { fee_floor_alerted = prune_holds acc.1 w.fee_floor_alerted })

-- The loop over the eligible stakers, and what follows it.
unfoldable pub pay_all : Config → Chain → List (ℕ × ℕ) → ℕ → ℕ → M (Unit {0})
pay_all cfg c eligible head available = payout_loop cfg c head (available, []) eligible >>= prune

-- What follows the query of the eligible stakers.
unfoldable pub pay_eligible : Config → Chain → List (ℕ × ℕ) → M (Unit {0})
pay_eligible cfg c eligible = do
  head ← or_raise c.block_number Error.rpc
  available ← or_raise c.balance Error.rpc
  pay_all cfg c eligible head available

-- `Manager.runPayouts`.
unfoldable pub run_payouts : Config → Chain → M (Unit {0})
run_payouts cfg c = get_eligible_for_payout cfg.min_payout_luna >>= pay_eligible cfg c
