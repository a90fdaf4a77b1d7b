-- ===== src/Audit/Approve.antt =====
-- An approval succeeds exactly where it changes a row (internal/api/operator_handlers.go).
use go_pool.Prelude.{
  ℕ, ◌≤◌, ◌≡◌, ◌⊎◌, ◌==◌, ap, refl, inl, inr, arith, List, [], ◌∷◌, true, length, any_of, keep,
  Bool-cases,
}
use go_pool.Store.{AuditLog, Tables}
use go_pool.Store.Monad.{World, ok, Error, refused}
use go_pool.Store.Statements.{RolledBack}
use go_pool.Store.Payslips.{update_where}
use go_pool.Store.Payments.{is_pending_log, approve_log, approve_pending_audit_log}
use go_pool.Audit.{handle_audit_approve}

-- The tables with the pending log of an id approved.
abbrev pub approved : ℕ → Tables → Tables
approved i t = record t { audit_logs = update_where (is_pending_log i) approve_log t.audit_logs }

keep-pending_le :
    (i : ℕ) (ls : List AuditLog)
    → length (keep (is_pending_log i) ls) ≤ length (keep (λ l. l.id == i) ls)
keep-pending_le i [] = omega arith
keep-pending_le i (l ∷ ls) = ground (arith, keep-pending_le i ls)

untouched :
    (i : ℕ) (ls : List AuditLog)
    → length (keep (is_pending_log i) ls) ≡ 0
    → update_where (is_pending_log i) approve_log ls ≡ ls
untouched i [] h = refl
untouched i (l ∷ ls) h = ground (arith, untouched i ls)

some_pending :
    (i : ℕ) (ls : List AuditLog)
    → length (keep (is_pending_log i) ls) ≡ 1
    → any_of (is_pending_log i) ls ≡ true
some_pending i [] h = cc
some_pending i (l ∷ ls) h = ground (arith, some_pending i ls)

-- Let no two logs have the id. An approval is answered by an error and leaves every table as it
-- was, or it succeeds: then a log of the id was pending, and it is approved now.
pub handle_audit_approve-decides :
    (i : ℕ) (w : World)
    → length (keep (λ l. l.id == i) w.tables.audit_logs) ≤ 1
    → let (r, w') = handle_audit_approve i w in
      RolledBack w.tables (r, w')
      ⊎ ((r ≡ ok tt)
          × (any_of (is_pending_log i) w.tables.audit_logs ≡ true)
          × (w'.tables ≡ approved i w.tables))
unfolding handle_audit_approve approve_pending_audit_log
handle_audit_approve-decides i w unique = elim (Bool-cases (refused w.io)) [
  | inl no_io ↦ rw no_io (inl (Error.sql, refl, refl))
  | inr io ↦ elim (Bool-cases (length (keep (is_pending_log i) w.tables.audit_logs) == 1)) [
    | inl one ↦ rw io (rw one (inr (refl, some_pending i w.tables.audit_logs (ground arith), refl)))
    | inr other ↦
        let n_le = keep-pending_le i w.tables.audit_logs in
        let same = untouched i w.tables.audit_logs (ground arith) in
        rw io (
          rw other
            (inl (Error.not_approved, refl, ap (λ ls. record w.tables { audit_logs = ls }) same)))
  ]
]
