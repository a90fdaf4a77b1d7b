-- ===== src/Audit.antt =====
-- The operator's decisions about audit logs (internal/api/operator_handlers.go). A response is the
-- result of the call: `not_approved` stands for the conflict, `sql` for an internal error. A body
-- that cannot be decoded is answered before the state is looked at, and is left out.
pub mod Approve
mod Tests
use go_pool.Prelude.{ℕ, ◌==◌, if◌then◌else◌}
use go_pool.Store.{AuditStatus}
use go_pool.Store.Monad.{Error, M, ◌>>=◌, done, raise}
use go_pool.Store.Payments.{approve_pending_audit_log, update_audit_log_status}

-- `handleAuditApprove`.
unfoldable pub handle_audit_approve : ℕ → M (Unit {0})
handle_audit_approve i = approve_pending_audit_log i >>= λ updated.
    if updated == 1 then done else raise Error.not_approved

-- `handleAuditSkip`.
unfoldable pub handle_audit_skip : ℕ → M (Unit {0})
handle_audit_skip i = update_audit_log_status AuditStatus.skipped i
