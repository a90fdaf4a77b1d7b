-- ===== src/Startup/Bootstrap.antt =====
-- Funding, registering and staking the validator (internal/pool/bootstrap.go). Amounts are luna,
-- times nanoseconds. Log lines and recorded events are left out, and so is the text of what the
-- daemon waits for.
use go_pool.Prelude.{
  ℕ, ◌+◌, ◌-◌, Option, none, some, Bool, false, not, ◌&&◌, ltb, leb, if◌then◌else◌,
}
use go_pool.Store.{create, self_stake}
use go_pool.Store.Monad.{
  own, Result, ok, err, Error, M, ◌>>=◌, ◌>>◌, pure, raise, done, try, or_raise,
}
use go_pool.Store.Actions.{has_pending_validator_action}
use go_pool.Actions.{Sending, answer, record_outcome}
use go_pool.Startup.{LiveValidator, ReadyError, no_policy, readiness}
use go_pool.Startup.Faucet.{FaucetReply, default_faucet_retry, fund_address}

-- `feeReserveLuna` and `registerCooldown`.
abbrev pub fee_reserve_luna : ℕ
fee_reserve_luna = 1000000

abbrev pub register_cooldown : ℕ
register_cooldown = 60000000000

pub data BootstrapAction : Type 0 where
  bootstrap_wait bootstrap_faucet bootstrap_register bootstrap_self_stake bootstrap_ready :
      BootstrapAction

-- The fields of `bootstrapSnapshot` that decide.
pub record BootstrapSnapshot : Type 0 where
  pub balance : ℕ
  pub deposit : ℕ
  pub min_stake : ℕ
  pub faucet_enabled : Bool
  pub has_wallet_json : Bool
  pub local_consensus : Bool
  pub validator_exists : Bool
  pub has_self_staker : Bool
  pub pending_register : Bool
  pub pending_self_stake : Bool
  pub dry_run : Bool

-- `selfStakeAmount`.
unfoldable pub self_stake_amount : ℕ → ℕ → ℕ
self_stake_amount balance min_stake =
    if leb balance fee_reserve_luna
    then 0
    else if ltb (balance - fee_reserve_luna) min_stake
    then 0
    else balance - fee_reserve_luna

-- `nextBootstrap`.
unfoldable pub next_bootstrap : BootstrapSnapshot → BootstrapAction
unfolding self_stake_amount
next_bootstrap s =
    if s.dry_run
    then bootstrap_wait
    else if s.validator_exists && s.has_self_staker
    then bootstrap_ready
    else if s.validator_exists
    then (if not s.pending_self_stake && ltb 0 (self_stake_amount s.balance s.min_stake)
        then bootstrap_self_stake
        else bootstrap_wait)
    else if s.has_wallet_json
        && s.local_consensus
        && leb s.deposit s.balance
        && not s.pending_register
    then bootstrap_register
    else if s.faucet_enabled && ltb s.balance s.deposit
    then bootstrap_faucet
    else bootstrap_wait

-- What the `Manager` remembers of its attempts; a zero time is `none`.
pub record Attempts : Type 0 where
  pub faucet_blocked : Bool
  pub last_faucet_at : Option ℕ
  pub faucet_retry_at : ℕ
  pub last_register_at : Option ℕ

-- The configuration, the clock, and what the node, the wallet, the files and the faucet answer; a
-- value that cannot be had is `none`.
pub record BootEnv : Type 0 where
  pub now : ℕ
  pub dry_run : Bool
  pub deposit : ℕ
  pub min_stake : ℕ
  pub faucet_url : Bool
  pub on_test_network : Bool
  pub has_wallet_json : Bool
  pub consensus : Option Bool
  pub balance : Option ℕ
  pub validator_exists : Bool
  pub staker_exists : Bool
  pub has_wallet : Bool
  pub has_keys : Bool
  pub create_validator : Sending
  pub head : Option ℕ
  pub builds : Bool
  pub signs : Bool
  pub send : Sending
  pub faucet : FaucetReply

abbrev pub value_or {ℓ} : {A : Type ℓ} → A → Option A → A
value_or default none = default
value_or default (some a) = a

abbrev pub flag_of : Result Bool → Bool
flag_of (ok b) = b
flag_of (err _) = false

abbrev pub observed : BootEnv → Result Bool → Result Bool → BootstrapSnapshot
observed env registering staking = record {
  balance = value_or 0 env.balance;
  deposit = env.deposit;
  min_stake = env.min_stake;
  faucet_enabled = env.faucet_url && env.on_test_network;
  has_wallet_json = env.has_wallet_json;
  local_consensus = value_or false env.consensus;
  validator_exists = env.validator_exists;
  has_self_staker = env.staker_exists;
  pending_register = flag_of registering;
  pending_self_stake = flag_of staking;
  dry_run = env.dry_run;
}

-- `snapshotBootstrap`: an answer that is an error leaves the zero value.
unfoldable pub snapshot_bootstrap : BootEnv → M BootstrapSnapshot
snapshot_bootstrap env = try (has_pending_validator_action create) >>= λ registering.
    (try (has_pending_validator_action self_stake) >>= λ staking.
    pure (observed env registering staking))

abbrev pub require : Bool → M (Unit {0})
require b = if b then done else raise Error.bad_tx

-- `registerValidator`.
unfoldable pub register_validator : BootEnv → M (Unit {0})
register_validator env =
    require env.has_wallet
    >> (require env.has_keys
        >> (try (answer (own create) env.create_validator) >>= record_outcome create))

-- `selfStake`; the amount and the fee only enter the transaction.
unfoldable pub self_stake_leftover : BootEnv → M (Unit {0})
self_stake_leftover env = or_raise env.head Error.rpc >>= λ _.
    (require env.builds
      >> (require env.signs
          >> (try (answer (own self_stake) env.send) >>= record_outcome self_stake)))

abbrev pub too_soon : ℕ → Attempts → Bool
too_soon now m = elim m.last_faucet_at [ none ↦ false | some _ ↦ ltb now m.faucet_retry_at ]

-- The case of the faucet.
unfoldable pub ask_faucet : BootEnv → Attempts → Attempts
ask_faucet env m =
    let result = fund_address env.faucet_url env.faucet in
    if too_soon env.now m then m else record m {
      faucet_blocked = not result.is_ok;
      last_faucet_at = some env.now;
      faucet_retry_at =
          env.now + (if ltb 0 result.retry_after then result.retry_after else default_faucet_retry);
    }

abbrev pub in_cooldown : ℕ → Attempts → Bool
in_cooldown now m = elim m.last_register_at [
  | none ↦ false
  | some at ↦ ltb (now - at) register_cooldown
]

-- What a step of the bootstrap does.
unfoldable pub perform : BootEnv → Attempts → BootstrapAction → M Attempts
unfolding ask_faucet
perform env m bootstrap_faucet = pure (ask_faucet env m)
perform env m bootstrap_register =
    if in_cooldown env.now m
    then pure m
    else (try (register_validator env) >>= λ _. pure (record m { last_register_at = some env.now }))
perform env m bootstrap_self_stake = try (self_stake_leftover env) >>= λ _. pure m
perform env m bootstrap_wait = pure m
perform env m bootstrap_ready = pure m

-- `runBootstrap`: no error gets out of it.
unfoldable pub run_bootstrap : BootEnv → Attempts → M Attempts
run_bootstrap env m = snapshot_bootstrap env >>= λ s. perform env m (next_bootstrap s)

-- `ensureReady`: nothing is tried unless the policy can be read.
unfoldable pub ensure_ready :
    (ℕ → Option ℕ)
    → ℕ
    → ℕ
    → Bool
    → BootEnv
    → Option LiveValidator
    → Attempts
    → M (Attempts × Option ReadyError)
unfolding run_bootstrap
ensure_ready parse configured derived has_policy env validator m =
    if has_policy
    then (run_bootstrap env m >>= λ m'. pure (m', readiness parse configured derived validator))
    else pure (m, some no_policy)
