-- ===== src/Startup.antt =====
-- Getting ready (internal/pool/pool.go): the check of the wallet, and the loop that waits for it;
-- before it, funding, registering and staking the validator (internal/pool/bootstrap.go,
-- internal/pool/faucet.go), which is in Startup/Bootstrap.
pub mod Bootstrap
pub mod Faucet
pub mod Waiting
pub mod Wallet
pub mod Registered
mod Tests
use go_pool.Prelude.{ℕ, zero, suc, Option, none, some, Bool, true, false, ◌==◌, if◌then◌else◌}

-- The part of `rpc.Validator` that the check reads.
pub record LiveValidator : Type 0 where
  pub address : ℕ
  pub reward_address : ℕ

pub data WalletError : Type 0 where
  bad_configured bad_derived configured_mismatch no_validator bad_live live_mismatch bad_reward
        reward_mismatch :
      WalletError

abbrev pub check_reward : ℕ → Option ℕ → Option WalletError
check_reward derived none = some bad_reward
check_reward derived (some reward) = if reward == derived then none else some reward_mismatch

abbrev pub check_live : (ℕ → Option ℕ) → ℕ → LiveValidator → Option ℕ → Option WalletError
check_live parse derived v none = some bad_live
check_live parse derived v (some live) =
    if live == derived then check_reward derived (parse v.reward_address) else some live_mismatch

abbrev pub check_validator : (ℕ → Option ℕ) → ℕ → Option LiveValidator → Option WalletError
check_validator parse derived none = some no_validator
check_validator parse derived (some v) = check_live parse derived v (parse v.address)

abbrev pub check_identities :
    (ℕ → Option ℕ) → Option ℕ → Option ℕ → Option LiveValidator → Option WalletError
check_identities parse none _ validator = some bad_configured
check_identities parse (some configured) none validator = some bad_derived
check_identities parse (some configured) (some derived) validator =
    if configured == derived
    then check_validator parse derived validator
    else some configured_mismatch

-- `validatePoolWallet`, with the parser of the nimiq library; `none` is no error.
unfoldable pub validate_pool_wallet :
    (ℕ → Option ℕ) → ℕ → ℕ → Option LiveValidator → Option WalletError
validate_pool_wallet parse configured derived validator =
    check_identities parse (parse configured) (parse derived) validator

-- Why the daemon is not ready; the two errors of a context among them.
pub data ReadyError : Type 0 where
  cancelled deadline_exceeded no_policy waiting_for_validator : ReadyError
  wallet : WalletError → ReadyError

-- `readinessRetryable` for an error.
abbrev pub readiness_retryable : ReadyError → Bool
readiness_retryable cancelled = false
readiness_retryable deadline_exceeded = false
readiness_retryable _ = true

-- How a wait ends; `still_waiting` when the rounds that are looked at are used up.
pub data Waited : Type 0 where
  is_ready : Waited
  gave_up : ReadyError → Waited
  still_waiting : Waited

abbrev pub decide_round : Option ReadyError → Option ReadyError → Waited → Waited
decide_round none stopped rest = is_ready
decide_round (some e) stopped rest =
    if readiness_retryable e
    then elim stopped [ none ↦ rest | some why ↦ gave_up why ]
    else gave_up e

-- `waitReady`: what `ensure` answers in each round, and whether the context is done after it.
unfoldable pub wait_ready : (ℕ → Option ReadyError) → (ℕ → Option ReadyError) → ℕ → ℕ → Waited
wait_ready ensure stopped round zero = still_waiting
wait_ready ensure stopped round (suc fuel) =
    let rest = wait_ready ensure stopped (suc round) fuel in
    decide_round (ensure round) (stopped round) rest

-- What `ensureReady` makes of the validator, which is `none` if the node has none; `none` is no
-- error. The whole of it is in Startup/Bootstrap.
unfoldable pub readiness : (ℕ → Option ℕ) → ℕ → ℕ → Option LiveValidator → Option ReadyError
unfolding validate_pool_wallet
readiness parse configured derived none = some waiting_for_validator
readiness parse configured derived (some v) =
    elim (validate_pool_wallet parse configured derived (some v)) as (λ _. Option ReadyError) [
      | none ↦ none
      | some e ↦ some (wallet e)
    ]
