-- ===== src/Payout.antt =====
-- Payouts (internal/pool/payout.go, internal/pool/compounding.go): which stakers are paid, what the
-- audit log approves, and how an approved payout is persisted and broadcast. Log lines, metrics,
-- recorded events and the JSON of the intent are left out; the notifier is present, as `NewManager`
-- makes it.
pub mod Rules
pub mod Approve
pub mod Send
mod Tests
pub use Rules.*
