-- ===== src/Actions/Keeping/Bootstraps.antt =====
-- The bootstrap keeps the invariant of the validator actions (internal/pool/bootstrap.go).
use go_pool.Prelude.{refl, Option, Bool}
use go_pool.Store.{create, self_stake}
use go_pool.Store.Monad.{Result, Error, ◌>>=◌, or_raise, raise, pure, done, try}
use go_pool.Store.Actions.{has_pending_validator_action}
use go_pool.Actions.Keeping.{Keeps, Good-refl, both, when, or_raise-Keeps, query-Keeps}
use go_pool.Actions.Keeping.Reactivations.{own_action-Keeps}
use go_pool.Startup.Bootstrap.{
  BootEnv, BootstrapAction, bootstrap_wait, bootstrap_faucet, bootstrap_register,
  bootstrap_self_stake, bootstrap_ready, Attempts, observed, snapshot_bootstrap, require,
  register_validator, self_stake_leftover, in_cooldown, perform, run_bootstrap, next_bootstrap,
}

require-Keeps : (b : Bool) → Keeps (require b)
require-Keeps b = when b done (raise Error.bad_tx) Good-refl Good-refl

register_validator-Keeps : (env : BootEnv) → Keeps (register_validator env)
unfolding register_validator
register_validator-Keeps env = both (require env.has_wallet) _ (require-Keeps env.has_wallet) (λ _.
    both (require env.has_keys) _ (require-Keeps env.has_keys)
      (λ _. own_action-Keeps create env.create_validator refl))

self_stake-Keeps : (env : BootEnv) → Keeps (self_stake_leftover env)
unfolding self_stake_leftover
self_stake-Keeps env =
    both (or_raise env.head Error.rpc) _ (or_raise-Keeps env.head Error.rpc) (λ _.
      both (require env.builds) _ (require-Keeps env.builds) (λ _.
        both (require env.signs) _ (require-Keeps env.signs)
          (λ _. own_action-Keeps self_stake env.send refl)))

perform-Keeps : (env : BootEnv) (m : Attempts) (a : BootstrapAction) → Keeps (perform env m a)
unfolding perform
perform-Keeps env m bootstrap_wait = Good-refl
perform-Keeps env m bootstrap_ready = Good-refl
perform-Keeps env m bootstrap_faucet = Good-refl
perform-Keeps env m bootstrap_self_stake =
    both (try (self_stake_leftover env)) (λ _. pure m) (self_stake-Keeps env) (λ _. Good-refl)
perform-Keeps env m bootstrap_register = when (in_cooldown env.now m) (pure m) _ Good-refl (
    both (try (register_validator env))
      (λ _. pure (record m { last_register_at = Option.some env.now }))
      (register_validator-Keeps env) (λ _. Good-refl))

pub run_bootstrap-Keeps : (env : BootEnv) (m : Attempts) → Keeps (run_bootstrap env m)
unfolding run_bootstrap snapshot_bootstrap has_pending_validator_action
run_bootstrap-Keeps env m =
    let second = λ (r : Result Bool).
      try (has_pending_validator_action self_stake) >>= λ staking. pure (observed env r staking) in
    both (snapshot_bootstrap env) (λ s. perform env m (next_bootstrap s))
      (both (try (has_pending_validator_action create)) second (query-Keeps _) (λ r.
        both (try (has_pending_validator_action self_stake))
          (λ staking. pure (observed env r staking)) (query-Keeps _) (λ _. Good-refl)))
      (λ s. perform-Keeps env m (next_bootstrap s))
