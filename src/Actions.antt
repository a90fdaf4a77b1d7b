-- ===== src/Actions.antt =====
-- The validator's lifecycle transactions (internal/pool/lifecycle.go): automatic reactivation, the
-- requests that an operator queues, and the API's side of the queue
-- (internal/api/operator_operations_handlers.go). Log lines, metrics and the daemon's events are
-- left out, and of a transaction only what it was sent for is kept.
pub mod Stages
pub mod Rows
pub mod Keeping
pub mod Reachable
pub mod Reactivation
pub mod Queue
pub mod Progress
mod Tests
use go_pool.Prelude.{
  ℕ, List, [], ◌∷◌, ◌++◌, Option, none, some, Bool, true, false, not, leb, if◌then◌else◌,
}
use go_pool.Store.{
  validator_action_requested, validator_action_cancelled, ActionKind, deactivate, retire,
  reactivate, ActionOutcome, ActionState, ValidatorAction,
}
use go_pool.Store.Monad.{
  SentAction, for_request, own, Result, ok, err, Error, World, M, ◌>>=◌, ◌>>◌, pure, raise, done,
  try, or_raise, modify, in_tx,
}
use go_pool.Store.Actions.{
  insert_validator_action, has_pending_validator_action, has_outstanding_validator_action,
  get_requested_validator_actions, mark_validator_action_processing,
  release_validator_action_processing, submit_validator_action, complete_submitted_validator_action,
  cancel_requested_validator_action, update_validator_action_state,
  insert_requested_validator_action, get_validator_action, list_submitted_validator_actions,
}
use go_pool.Confirmation.{Confirmation, Check, not_found, rpc_error, found, insert_operator_event}

-- The answer of `SendTransaction`: an error before the transaction went out, an error although it
-- did, or its hash, `none` for an empty one.
pub data Sending : Type 0 where
  not_sent unanswered : Sending
  sent_as : Option ℕ → Sending

-- What a run finds: the field `JailedFrom` of the validator (`none` if `GetValidator` fails), the
-- head, whether transactions can be built and signed, the answers of the chain, and whether the
-- context is cancelled when a request is claimed, and when its transaction has been tried.
pub record Env : Type 0 where
  pub jailed_from : Option (Option ℕ)
  pub head : Option ℕ
  pub signs : Bool
  pub send : SentAction → Sending
  pub check_transaction : ℕ → Check
  pub stopped_at_claim : ℕ → Bool
  pub stopped_after : ℕ → Bool

-- `shouldReactivate`.
unfoldable pub should_reactivate : Option ℕ → ℕ → Bool
should_reactivate none height = false
should_reactivate (some jailed_from) height = leb jailed_from height

abbrev pub add_sent : SentAction → M (Unit {0})
add_sent s = modify (λ w. record w { actions_sent = w.actions_sent ++ s ∷ [] })

abbrev pub answer : SentAction → Sending → M (Option ℕ)
answer s not_sent = raise Error.rpc
answer s unanswered = add_sent s >> raise Error.rpc
answer s (sent_as hash) = add_sent s >> pure hash

abbrev pub sign : Env → M (Unit {0})
sign env = if env.signs then done else raise Error.bad_tx

-- `Manager.Deactivate` and `Manager.Retire` for a request: they differ in the transaction alone.
unfoldable pub submit_request : Env → ℕ → M (Option ℕ)
submit_request env i = or_raise env.head Error.rpc >>= λ _.
    (sign env >> answer (for_request i) (env.send (for_request i)))

-- `actionForRequest`: whether an action has a method.
abbrev pub action_for_request : ActionKind → Bool
action_for_request deactivate = true
action_for_request retire = true
action_for_request _ = false

-- `if err == sql.ErrNoRows { … }` in front of `return err`.
abbrev pub on_no_rows {ℓ} : {A : Type ℓ} → Error → M A → M A
on_no_rows Error.no_rows instead = instead
on_no_rows e instead = raise e

-- `sql.ErrNoRows` is not an error.
abbrev pub skip_no_rows : Result (Unit {0}) → M (Unit {0})
skip_no_rows (ok _) = done
skip_no_rows (err e) = on_no_rows e done

-- `recoverClaimedValidatorAction`.
unfoldable pub recover_claimed_validator_action : ℕ → M (Unit {0})
recover_claimed_validator_action i = try (release_validator_action_processing i) >>= skip_no_rows

-- What a request comes to when its transaction has been tried.
unfoldable pub record_result : ℕ → Result (Option ℕ) → M (Unit {0})
record_result i (err _) = update_validator_action_state i ActionState.failed
record_result i (ok hash) = submit_validator_action i hash

-- A claimed request.
unfoldable pub handle_claimed : Env → ℕ → M (Unit {0})
unfolding submit_request recover_claimed_validator_action record_result
handle_claimed env i =
    if env.stopped_at_claim i
    then recover_claimed_validator_action i >> raise Error.cancelled
    else (try (submit_request env i) >>= λ r.
        if env.stopped_after i then raise Error.cancelled else record_result i r)

abbrev pub after_claim : Env → ℕ → Result (Unit {0}) → M (Unit {0})
after_claim env i (ok _) = handle_claimed env i
after_claim env i (err e) = on_no_rows e done

-- One round of the loop.
unfoldable pub handle_request : Env → ValidatorAction → M (Unit {0})
unfolding handle_claimed
handle_request env a =
    if action_for_request a.action
    then (try (mark_validator_action_processing a.id) >>= λ r. after_claim env a.id r)
    else update_validator_action_state a.id ActionState.failed

unfoldable pub handle_requests : Env → List ValidatorAction → M (Unit {0})
handle_requests env [] = done
handle_requests env (a ∷ rest) = handle_request env a >> handle_requests env rest

abbrev pub final_state : Bool → ActionState
final_state true = ActionState.confirmed
final_state false = ActionState.failed

abbrev pub settle_action : ℕ → Check → M (Unit {0})
settle_action i not_found = done
settle_action i rpc_error = done
settle_action i (found conf) =
    if conf.final
    then (try (complete_submitted_validator_action i (final_state conf.succeeded)) >>= skip_no_rows)
    else done

-- One round of the loop of `checkSubmittedValidatorActions`.
abbrev pub check_action : Env → ℕ → Option ℕ → M (Unit {0})
check_action env i none = done
check_action env i (some hash) = settle_action i (env.check_transaction hash)

unfoldable pub check_actions : Env → List ValidatorAction → M (Unit {0})
check_actions env [] = done
check_actions env (a ∷ rest) = check_action env a.id a.tx_hash >> check_actions env rest

-- `checkSubmittedValidatorActions`.
unfoldable pub check_submitted_validator_actions : Env → M (Unit {0})
unfolding check_actions
check_submitted_validator_actions env = list_submitted_validator_actions 100 >>= check_actions env

-- `ProcessRequestedActions`.
unfoldable pub process_requested_actions : Env → M (Unit {0})
process_requested_actions env = get_requested_validator_actions >>= λ requests.
    (handle_requests env requests >> check_submitted_validator_actions env)

-- The row that records a transaction on the daemon's own account, and its error.
abbrev pub record_outcome : ActionKind → Result (Option ℕ) → M (Unit {0})
record_outcome k (ok hash) = insert_validator_action k hash ActionOutcome.pending
record_outcome k (err e) = insert_validator_action k none ActionOutcome.failed >> raise e

-- The transaction of `runAutoReactivate`.
abbrev pub send_reactivation : Env → M (Unit {0})
send_reactivation env =
    sign env
    >> (try (answer (own reactivate) (env.send (own reactivate))) >>= record_outcome reactivate)

unfoldable pub reactivate_unless_busy : Env → M (Unit {0})
reactivate_unless_busy env = has_pending_validator_action reactivate >>= λ is_pending.
    if is_pending
    then done
    else (has_outstanding_validator_action deactivate >>= λ deactivating.
        if deactivating
        then done
        else (has_outstanding_validator_action retire >>= λ retiring.
            if retiring then done else send_reactivation env))

unfoldable pub reactivate_if_free : Env → Option ℕ → M (Unit {0})
unfolding should_reactivate reactivate_unless_busy
reactivate_if_free env jailed_from = or_raise env.head Error.rpc >>= λ head.
    if should_reactivate jailed_from head then reactivate_unless_busy env else done

-- `runAutoReactivate`.
unfoldable pub run_auto_reactivate : Env → M (Unit {0})
run_auto_reactivate env = elim env.jailed_from as (λ _. M (Unit {0})) [
  | none ↦ done
  | some jailed_from ↦ reactivate_if_free env jailed_from
]

abbrev pub after_insert : Result ℕ → M ValidatorAction
after_insert (ok i) = get_validator_action i
after_insert (err e) = on_no_rows e (raise Error.duplicate)

-- `queueValidatorAction`.
unfoldable pub queue_validator_action : ActionKind → M ValidatorAction
queue_validator_action k =
    if action_for_request k
    then (try (insert_requested_validator_action k) >>= after_insert)
    else raise Error.unsupported

-- `queueAndAuditValidatorAction`.
unfoldable pub queue_and_audit_validator_action : ActionKind → M ValidatorAction
queue_and_audit_validator_action k = in_tx (
    queue_validator_action k >>= λ queued.
    (insert_operator_event (validator_action_requested k) >> pure queued))

-- The transaction of `handleOperatorActionSub`.
unfoldable pub cancel_action : ℕ → M ValidatorAction
cancel_action i = in_tx (
    cancel_requested_validator_action i
    >> (get_validator_action i >>= λ stored.
        (insert_operator_event (validator_action_cancelled i stored.action) >> pure stored)))

-- The status of a response.
pub data Status : Type 0 where
  created accepted success bad_request conflict internal_error : Status

-- The response of `handleOperatorActionCreate` to an operator.
abbrev pub create_status : ActionKind → Result ValidatorAction → Status
create_status k (ok _) = created
create_status k (err Error.duplicate) = conflict
create_status k (err _) = if action_for_request k then internal_error else bad_request

-- The response of `handleOperatorAction` in internal/api/operator_handlers.go.
abbrev pub action_status : Result ValidatorAction → Status
action_status (ok _) = accepted
action_status (err Error.duplicate) = conflict
action_status (err _) = internal_error

-- The response of `handleOperatorActionSub` to a cancellation.
abbrev pub cancel_status : Result ValidatorAction → Status
cancel_status (ok _) = success
cancel_status (err Error.no_rows) = conflict
cancel_status (err _) = internal_error
