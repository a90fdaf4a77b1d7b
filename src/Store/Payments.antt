-- ===== src/Store/Payments.antt =====
-- The statements on the tables of audit logs, transactions and staker preferences
-- (internal/db/queries.sql.go).
use go_pool.Prelude.{
  ◌≡◌, ◌⊎◌, inl, inr, Bool-cases, ℕ, ◌+◌, List, [], ◌∷◌, ◌++◌, Option, none, some, Bool, ◌&&◌, ◌||◌,
  ◌==◌, if◌then◌else◌, length, any_of, keep,
}
use go_pool.Store.{
  Tables, PayoutKind, TxStatus, AuditStatus, Transaction, AuditLog, is_awaiting, is_approved,
  is_audit_pending,
}
use go_pool.Store.Statements.{unwritten, wrote}
use go_pool.Store.Monad.{World, ok, err, Error, refused, M, stmt, query, exec}
use go_pool.Store.Payslips.{update_where, has_awaiting_tx}

-- The row of a new audit log; no row is ever deleted, so the next id is the number of rows plus one.
abbrev pub new_log : Tables → ℕ → ℕ → ℕ → PayoutKind → AuditStatus → AuditLog
new_log t a amount fee kind status = record {
  id = length t.audit_logs + 1;
  address = a;
  amount = amount;
  fee = fee;
  kind = kind;
  status = status;
  tx_hash = none;
}

-- `InsertAuditLog`.
unfoldable pub insert_audit_log : ℕ → ℕ → ℕ → PayoutKind → AuditStatus → M ℕ
insert_audit_log a amount fee kind status = stmt λ t. some (
  length t.audit_logs + 1,
  record t { audit_logs = t.audit_logs ++ new_log t a amount fee kind status ∷ [] },
)

pub insert_audit_log-cases :
    (a amount fee : ℕ) (kind : PayoutKind) (status : AuditStatus) (w : World)
    → let t = w.tables in
      (insert_audit_log a amount fee kind status w ≡ (err Error.sql, unwritten w))
      ⊎ (insert_audit_log a amount fee kind status w ≡ (
        ok (length t.audit_logs + 1),
        wrote w (record t { audit_logs = t.audit_logs ++ new_log t a amount fee kind status ∷ [] }),
      ))
unfolding insert_audit_log stmt
insert_audit_log-cases a amount fee kind status w = elim (Bool-cases (refused w.io)) [
  | inl no_io ↦ inl (rw no_io)
  | inr io ↦ inr (rw io)
]

-- `ListApprovedAuditLogs`: `ORDER BY created_at` is the order of insertion.
unfoldable pub list_approved_audit_logs : M (List AuditLog)
unfolding query
list_approved_audit_logs = query λ t. keep (λ l. is_approved l.status) t.audit_logs

abbrev pub is_claimable : ℕ → AuditLog → Bool
is_claimable i l = l.id == i && is_approved l.status

abbrev pub set_executed : ℕ → AuditLog → AuditLog
set_executed h l = record l { status = AuditStatus.executed; tx_hash = some h }

-- `ClaimApprovedAuditLog` returns the number of rows that it changed.
unfoldable pub claim_approved_audit_log : ℕ → ℕ → M ℕ
unfolding stmt
claim_approved_audit_log h i = stmt λ t. some (
  length (keep (is_claimable i) t.audit_logs),
  record t { audit_logs = update_where (is_claimable i) (set_executed h) t.audit_logs },
)

abbrev pub is_pending_log : ℕ → AuditLog → Bool
is_pending_log i l = l.id == i && is_audit_pending l.status

abbrev pub approve_log : AuditLog → AuditLog
approve_log l = record l { status = AuditStatus.approved }

-- `ApprovePendingAuditLog`: the number of rows that it changes.
unfoldable pub approve_pending_audit_log : ℕ → M ℕ
unfolding stmt
approve_pending_audit_log i = stmt λ t. some (
  length (keep (is_pending_log i) t.audit_logs),
  record t { audit_logs = update_where (is_pending_log i) approve_log t.audit_logs },
)

-- `UpdateAuditLogStatus`, whatever the status was.
unfoldable pub update_audit_log_status : AuditStatus → ℕ → M (Unit {0})
unfolding exec
update_audit_log_status status i = exec λ t. record t {
  audit_logs = update_where (λ l. l.id == i) (λ l. record l { status = status }) t.audit_logs;
}

-- The primary key on hashes, and the unique index that allows an address one awaiting transaction.
abbrev pub is_conflict : Transaction → List Transaction → Bool
is_conflict x xs =
    any_of (λ y. y.hash == x.hash) xs || is_awaiting x.status && has_awaiting_tx x.address xs

-- `InsertTransaction`.
unfoldable pub insert_transaction : Transaction → M (Unit {0})
unfolding stmt
insert_transaction x = stmt λ t.
    if is_conflict x t.transactions
    then none
    else some (tt, record t { transactions = t.transactions ++ x ∷ [] })

unfoldable pub get_pending_transactions : M (List Transaction)
unfolding query
get_pending_transactions = query λ t. keep (λ x. is_awaiting x.status) t.transactions

-- `SetTransactionStatus`, which the daemon calls with "completed" and "failed" only.
unfoldable pub set_transaction_status : TxStatus → ℕ → M (Unit {0})
unfolding exec
set_transaction_status status h = exec λ t. record t {
  transactions = update_where (λ x. x.hash == h) (λ x. record x { status = status }) t.transactions;
}

abbrev pub preference_of : ℕ → List (ℕ × ℕ) → Option ℕ
preference_of a [] = none
preference_of a ((k, v) ∷ ps) = if k == a then some v else preference_of a ps

-- `GetStakerPreference`; a missing row is an error to the caller, here `none`.
unfoldable pub get_staker_preference : ℕ → M (Option ℕ)
unfolding query
get_staker_preference a = query λ t. preference_of a t.preferences
