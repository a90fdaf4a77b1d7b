-- ===== src/Store/Payslips.antt =====
-- The statements on the table of payslips (internal/db/queries.sql.go).
use go_pool.Prelude.{
  ℕ, List, [], ◌∷◌, ◌++◌, map, Option, none, some, Bool, false, not, ◌&&◌, ◌==◌, leb, if◌then◌else◌,
  length, sum_of, any_of, keep,
}
use go_pool.Store.{
  PayslipStatus, Payslip, Transaction, AuditLog, Tables, is_pending, is_out_for_payment, is_failed,
  is_awaiting, is_failed_tx, is_approved,
}
use go_pool.Store.Monad.{M, stmt, query, exec}

-- `tx_hash = ?`, which no row with a NULL hash satisfies.
abbrev pub has_hash : ℕ → Option ℕ → Bool
has_hash h none = false
has_hash h (some h') = h' == h

abbrev pub reward_exists_in : ℕ → Tables → Bool
reward_exists_in b t = any_of (λ r. r.batch_number == b) t.rewards

-- `InsertPayslip`, refused by the foreign key if the batch has no reward.
unfoldable pub insert_payslip : ℕ → ℕ → ℕ → PayslipStatus → M (Unit {0})
unfolding stmt
insert_payslip b a amount status = stmt λ t.
    if reward_exists_in b t
    then some (
      tt,
      record t {
        payslips =
            t.payslips
            ++ record {
              batch_number = b;
              address = a;
              amount = amount;
              status = status;
              tx_hash = none;
            }
              ∷ [];
      },
    )
    else none

-- `UPDATE … SET … WHERE …` on every row.
abbrev pub update_where {ℓ} : {A : Type ℓ} → (A → Bool) → (A → A) → List A → List A
update_where p f [] = []
update_where p f (x ∷ xs) = (if p x then f x else x) ∷ update_where p f xs

abbrev pub is_owed : ℕ → Payslip → Bool
is_owed a s = s.address == a && is_pending s.status

abbrev pub is_out : ℕ → Payslip → Bool
is_out a s = s.address == a && is_out_for_payment s.status

abbrev pub set_out : Payslip → Payslip
set_out s = record s { status = PayslipStatus.out_for_payment }

abbrev pub set_sent : ℕ → Payslip → Payslip
set_sent h s = record s { tx_hash = some h; status = PayslipStatus.awaiting_confirmation }

abbrev pub set_status : PayslipStatus → Payslip → Payslip
set_status status s = record s { status = status }

unfoldable pub mark_payslips_out_for_payment : ℕ → M (Unit {0})
unfolding exec
mark_payslips_out_for_payment a =
    exec λ t. record t { payslips = update_where (is_owed a) set_out t.payslips }

unfoldable pub set_payslips_transaction : ℕ → ℕ → M (Unit {0})
unfolding exec
set_payslips_transaction h a =
    exec λ t. record t { payslips = update_where (is_out a) (set_sent h) t.payslips }

unfoldable pub finalize_payslips : ℕ → M (Unit {0})
unfolding exec
finalize_payslips h = exec λ t. record t {
  payslips =
      update_where (λ s. has_hash h s.tx_hash) (set_status PayslipStatus.completed) t.payslips;
}

unfoldable pub update_payslip_status_failed : ℕ → M (Unit {0})
unfolding exec
update_payslip_status_failed h = exec λ t. record t {
  payslips = update_where (λ s. has_hash h s.tx_hash) (set_status PayslipStatus.failed) t.payslips;
}

-- The rows that `RetryFailedPayoutPayslips` takes: failed ones of a failed transaction, whose
-- address waits for no other transaction.
abbrev pub is_retryable : ℕ → Tables → Payslip → Bool
is_retryable h t s =
    has_hash h s.tx_hash
    && is_failed s.status
    && any_of (λ x. x.hash == h && is_failed_tx x.status) t.transactions
    && not (
        any_of (λ x. x.address == s.address && not (x.hash == h) && is_awaiting x.status)
          t.transactions)

abbrev pub set_retried : Payslip → Payslip
set_retried s = record s { status = PayslipStatus.pending; tx_hash = none }

-- The number of rows stands for the ids that the statement returns.
unfoldable pub retry_failed_payout_payslips : ℕ → M ℕ
unfolding stmt
retry_failed_payout_payslips h = stmt λ t. some (
  length (keep (is_retryable h t) t.payslips),
  record t { payslips = update_where (is_retryable h t) set_retried t.payslips },
)

-- What an address is owed: the sum of its pending payslips.
unfoldable pub owed : ℕ → List Payslip → ℕ
owed a ps = sum_of (λ s. if is_owed a s then s.amount else 0) ps

abbrev pub has_approved_log : ℕ → List AuditLog → Bool
has_approved_log a ls = any_of (λ l. l.address == a && is_approved l.status) ls

abbrev pub has_awaiting_tx : ℕ → List Transaction → Bool
has_awaiting_tx a xs = any_of (λ x. x.address == a && is_awaiting x.status) xs

-- The addresses with a pending payslip, each once.
unfoldable pub pending_addresses : List Payslip → List ℕ
pending_addresses [] = []
pending_addresses (s ∷ ps) =
    let rest = pending_addresses ps in
    if is_pending s.status && not (any_of (λ a. a == s.address) rest)
    then s.address ∷ rest
    else rest

abbrev pub is_eligible : ℕ → Tables → ℕ → Bool
is_eligible min t a =
    not (has_approved_log a t.audit_logs)
    && not (has_awaiting_tx a t.transactions)
    && leb min (owed a t.payslips)

-- `GetEligibleForPayout`: address and total of each group, in no particular order.
unfoldable pub get_eligible_for_payout : ℕ → M (List (ℕ × ℕ))
unfolding query
get_eligible_for_payout min =
    query λ t.
      map (λ a. (a, owed a t.payslips)) (keep (is_eligible min t) (pending_addresses t.payslips))
