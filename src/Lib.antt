-- ===== src/Lib.antt =====
-- Correctness of GoPool, its daemon (internal/pool, internal/db) and its API (internal/api): the
-- accounting of a Nimiq staking pool, from the block rewards of its validator to the payouts of its
-- stakers.
--
-- The daemon follows the chain block by block. At an election block it records the stakers of the
-- next epoch; at a checkpoint it books the reward of the batch before as one payslip for each
-- staker; it approves payouts for what is pending, signs, persists and broadcasts the approved
-- ones; and it settles the ones that the chain has decided. All parts meet in the SQL tables, and
-- each statement can be refused.
--
-- The files, with the code that each is about:
-- - Prelude: lists, Booleans and machine words that the parts share.
-- - Policy: classify, epochAt, batchAt, epochEndHeight and EpochClockAt of internal/pool/pool.go.
--   Heights are numbers below 2 ^ 32; each 32-bit operation wraps as in the code.
-- - Store: the tables of schema/scheme.sql as lists of rows, the statements of
--   internal/db/queries.sql.go as functions on them, and InTx of internal/db/transactions.go. A
--   call is a function from a World (tables, the outcome of each statement to come, the alert
--   memory of the Manager, what was alerted and broadcast) to a result and a World.
-- - Checkpoint: splitReward and handleCheckpoint of internal/pool/checkpoint.go.
-- - Payout: runPayouts (Payout/Approve), processApprovedPayouts and persistPayoutSubmission
--   (Payout/Send) of internal/pool/payout.go, with the decisions about one payout (Payout/Rules).
-- - Confirmation: runConfirmations and failStuckPayout of internal/pool/confirmation.go, IsStuck of
--   internal/pool/stuck.go, and the retry of a failed payout of
--   internal/api/operator_operations_handlers.go.
-- - Election: handleElection of internal/pool/election.go, and validatorLiveState of
--   internal/pool/lifecycle.go.
-- - Daemon: processHeight and the replay in Run of internal/pool/pool.go.
-- - Lag: the lag alerts of internal/pool/lag.go.
-- - Slots: slotShare of internal/pool/slots.go; an index out of range is a value.
-- - Participation: the refresh and the alert of internal/pool/epoch_participation.go, which uses
--   Slots.
-- - Audit: handleAuditApprove and handleAuditSkip of internal/api/operator_handlers.go.
-- - Actions: the validator's lifecycle transactions, runAutoReactivate, ProcessRequestedActions and
--   its helpers of internal/pool/lifecycle.go, and the API's side of the queue in
--   internal/api/operator_operations_handlers.go. Actions/Stages has the transitions of a row as a
--   step relation, Actions/Keeping what each operation does to the rows, Actions/Reachable the
--   operations in any order, Actions/Progress an undisturbed run. The table is in Store/Actions.
-- - Startup: validatePoolWallet, waitReady and ensureReady of internal/pool/pool.go;
--   Startup/Bootstrap and Startup/Faucet are internal/pool/bootstrap.go and internal/pool/faucet.go.
--   The bootstrap writes to the same table as Actions and is one of the operations of
--   Actions/Reachable.
-- - Access: login challenges and session tokens of internal/api/auth.go, and in Access/Setup the
--   guard of the set-up in internal/api/setup_auth.go; Access/Operator is requireOperator of
--   internal/api/operator_handlers.go.
-- - Onboarding: internal/api/stake_handlers.go, the bytes that a staker signs, and the quote and the
--   submission of a stake in Onboarding/Handlers.
-- - Settings: internal/config/config.go, its checks in Settings/Validation and its files in
--   Settings/Files; Settings/Revisions is internal/configstore/store.go, with any sequence of requests
--   in Settings/Revisions/Requests; Settings/Live is the configuration that the API runs with, from
--   internal/api/operator_settings_handlers.go and internal/api/setup_handlers.go.
-- - Console: the feed of events, the telemetry and the overview of
--   internal/api/operator_overview_handlers.go.
-- - Stakers: internal/api/staker_handlers.go, whose choice of compounding Payout reads.
--
-- The nimiq library, the RPC node and cryptography are parameters: records of functions and answers
-- (Chain of Payout/Rules, Env of Checkpoint, Election, Confirmation and Actions, Answers of Daemon,
-- Reading of Participation, BootEnv of Startup/Bootstrap, Library of Access, Tokens of
-- Access/Sessions, Sdk of Onboarding/Handlers, ConfigLibrary of Settings/Revisions, Outside of
-- Settings/Live), and so are the parsing of URLs and the hash of a configuration. A theorem assumes of
-- them at most that a checked addition adds, that text and base64 are read back as they were written,
-- that an address is written in one way, without commas, that a hash is not empty, and that a
-- transaction is built with the arguments it is given. Loops are structural recursion on the rows or the number of
-- heights they go through. Four run on fuel: waitReady, by the rounds that are looked at, of which
-- one more than up to a round that can end it is enough; appendUvarint on nine rounds, enough for 64 bits; and
-- the decimal digits of a number on as many rounds as the number says; and
-- the client of Console/Activity on one request more than there are rows, with no answer if rows still
-- follow then.
--
-- Not modelled: the handlers of the HTTP API that only copy rows, CSV files, JSON (what is written of
-- a configuration is read back), the migrations, logging, metrics, the text of alerts and messages,
-- the events that the daemon and the submission of a stake record outside of transactions,
-- floating point (a fee is given in basis points, telemetry in whole numbers), and the columns of the
-- tables that no decision reads.
pub mod Prelude
pub mod Policy
pub mod Store
pub mod Checkpoint
pub mod Payout
pub mod Confirmation
pub mod Election
pub mod Daemon
pub mod Lag
pub mod Settings
pub mod Console
pub mod Stakers
pub mod Slots
pub mod Participation
pub mod Audit
pub mod Actions
pub mod Access
pub mod Startup
pub mod Onboarding
