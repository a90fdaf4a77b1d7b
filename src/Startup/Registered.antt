-- ===== src/Startup/Registered.antt =====
-- What one registration of the validator leaves behind for the later ones
-- (internal/pool/bootstrap.go).
use go_pool.Prelude.{
  ℕ, ◌≡◌, refl, inl, inr, arith, List, [], ◌∷◌, ◌++◌, Option, none, some, Bool, true, false, any_of,
  keep, length, Bool-cases,
}
use go_pool.Store.{ActionKind, create, self_stake, ActionOutcome}
use go_pool.Store.Monad.{
  SentAction, own, World, Result, ok, err, Error, M, or_raise, raise, pure, done, try, stmt, query,
  exec, refused,
}
use go_pool.Store.Memory.{Leaves, both-Leaves, when-Leaves, raise-Leaves}
use go_pool.Store.Actions.{insert_validator_action, has_pending_validator_action}
use go_pool.Actions.{Sending, not_sent, unanswered, sent_as, answer, record_outcome}
use go_pool.Actions.Reachable.{IsFresh, Reach, Reach-Good, IsFresh-IsGood}
use go_pool.Actions.Reactivation.{HasPending, is_pending_row, Follows-pending}
use go_pool.Startup.Bootstrap.{
  BootEnv, BootstrapSnapshot, BootstrapAction, bootstrap_wait, bootstrap_faucet, bootstrap_register,
  bootstrap_self_stake, bootstrap_ready, Attempts, observed, snapshot_bootstrap, require,
  self_stake_leftover, ask_faucet, perform, run_bootstrap, next_bootstrap,
}

abbrev is_registration : SentAction → Bool
is_registration (own create) = true
is_registration _ = false

-- How many registrations went out.
abbrev pub registrations : World → ℕ
registrations w = length (keep is_registration w.actions_sent)

stake-append :
    (xs : List SentAction)
    → length (keep is_registration (xs ++ own self_stake ∷ [])) ≡ length (keep is_registration xs)
stake-append [] = refl
stake-append (x ∷ xs) = ground (arith, stake-append xs)

answer-Leaves : (reply : Sending) → Leaves registrations (answer (own self_stake) reply)
unfolding Leaves
answer-Leaves not_sent w = refl
answer-Leaves unanswered w = stake-append w.actions_sent
answer-Leaves (sent_as hash) w = stake-append w.actions_sent

insert-Leaves :
    (k : ActionKind) (hash : Option ℕ) (o : ActionOutcome)
    → Leaves registrations (insert_validator_action k hash o)
unfolding insert_validator_action exec stmt Leaves
insert-Leaves k hash o w = elim (Bool-cases (refused w.io)) [
  | inl no_io ↦ rw no_io refl
  | inr io ↦ rw io refl
]

outcome-Leaves :
    (k : ActionKind) (r : Result (Option ℕ)) → Leaves registrations (record_outcome k r)
outcome-Leaves k (ok hash) = insert-Leaves k hash ActionOutcome.pending
outcome-Leaves k (err e) =
    both-Leaves registrations (insert_validator_action k none ActionOutcome.failed) (λ _. raise e)
      (insert-Leaves k none ActionOutcome.failed) (λ _. raise-Leaves registrations (Unit {0}) e)

pure-Leaves : {A : Type 0} (a : A) → Leaves registrations (pure a)
unfolding Leaves
pure-Leaves a w = refl

require-Leaves : (b : Bool) → Leaves registrations (require b)
require-Leaves b =
    when-Leaves registrations b done (raise Error.bad_tx) (pure-Leaves tt)
      (raise-Leaves registrations (Unit {0}) Error.bad_tx)

head-Leaves : (o : Option ℕ) → Leaves registrations (or_raise o Error.rpc)
head-Leaves none = raise-Leaves registrations ℕ Error.rpc
head-Leaves (some h) = pure-Leaves h

try-Leaves : {A : Type 0} (m : M A) → Leaves registrations m → Leaves registrations (try m)
unfolding Leaves
try-Leaves m h = h

self_stake-Leaves : (env : BootEnv) → Leaves registrations (self_stake_leftover env)
unfolding self_stake_leftover
self_stake-Leaves env =
    let g = registrations in
    let sent_it = answer (own self_stake) env.send in
    both-Leaves g (or_raise env.head Error.rpc) _ (head-Leaves env.head) (λ _.
      both-Leaves g (require env.builds) _ (require-Leaves env.builds) (λ _.
        both-Leaves g (require env.signs) _ (require-Leaves env.signs) (λ _.
          both-Leaves g (try sent_it) (record_outcome self_stake)
            (try-Leaves sent_it (answer-Leaves env.send)) (outcome-Leaves self_stake))))

perform-Leaves :
    (env : BootEnv) (m : Attempts) (a : BootstrapAction)
    → ¬ (a ≡ bootstrap_register)
    → Leaves registrations (perform env m a)
unfolding perform
perform-Leaves env m bootstrap_wait h = pure-Leaves m
perform-Leaves env m bootstrap_ready h = pure-Leaves m
perform-Leaves env m bootstrap_faucet h = pure-Leaves (ask_faucet env m)
perform-Leaves env m bootstrap_self_stake h =
    both-Leaves registrations (try (self_stake_leftover env)) (λ _. pure m)
      (try-Leaves (self_stake_leftover env) (self_stake-Leaves env)) (λ _. pure-Leaves m)
perform-Leaves env m bootstrap_register h = absurd (h refl)

never_while_pending :
    (s : BootstrapSnapshot) → s.pending_register ≡ true → ¬ (next_bootstrap s ≡ bootstrap_register)
unfolding next_bootstrap
never_while_pending s h r = ground arith

-- From a database without validator actions: once the registration of the validator has the outcome
-- "pending", the bootstrap never sends another one while the database can be read, whatever happened
-- in between, and even if the registration failed.
pub no_second_registration :
    (env : BootEnv) (m : Attempts) (w v u : World)
    → IsFresh w
    → Reach w v
    → HasPending create v
    → Reach v u
    → u.io ≡ []
    → registrations (run_bootstrap env m u).1 ≡ registrations u
unfolding run_bootstrap snapshot_bootstrap has_pending_validator_action query stmt Leaves
no_second_registration env m w v u f r h s calm =
    let g = Reach-Good r (IsFresh-IsGood w f) in
    let still = Follows-pending create v.tables.actions u.tables.actions (Reach-Good s g.0).1 h in
    let staking = ok (any_of (is_pending_row self_stake) u.tables.actions) in
    let next = next_bootstrap (observed env (ok true) staking) in
    rw calm (
      rw still (
        perform-Leaves env m next (never_while_pending (observed env (ok true) staking) refl)
          (record u { io = [] })))
