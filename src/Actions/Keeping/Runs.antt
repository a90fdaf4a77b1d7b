-- ===== src/Actions/Keeping/Runs.antt =====
-- `ProcessRequestedActions` and its check of what was submitted keep the invariant
-- (internal/pool/lifecycle.go).
use go_pool.Prelude.{
  ℕ, ◌≡◌, refl, inl, inr, arith, List, [], ◌∷◌, Option, none, some, Bool, true, false, All, keep,
  Bool-cases,
}
use go_pool.Store.{ActionState, ValidatorAction}
use go_pool.Store.Monad.{SentAction, ◌>>=◌, done, try, refused, later, stmt, query}
use go_pool.Store.Actions.{
  stage, is_requested, is_sent, set_state, get_requested_validator_actions,
  complete_submitted_validator_action, list_submitted_validator_actions,
}
use go_pool.Confirmation.{Check, not_found, rpc_error, found}
use go_pool.Actions.{
  action_for_request, Env, skip_no_rows, final_state, settle_action, check_action, check_actions,
  check_submitted_validator_actions, handle_requests, process_requested_actions,
}
use go_pool.Actions.Stages.{stay, move, confirm, fail, RowOk, is_submitted-inv}
use go_pool.Actions.Rows.{Change}
use go_pool.Actions.Keeping.{
  Keeps, Good-refl, both, when, query-Keeps, everywhere, update_returning-Good, skip_no_rows-Keeps,
}
use go_pool.Actions.Keeping.Changes.{one_move, past-RowOk}
use go_pool.Actions.Keeping.Requests.{handle_requests-Keeps}

final-Change :
    (sent : List SentAction) (i : ℕ) (succeeded : Bool) (a : ValidatorAction)
    → Change sent (is_sent i) (set_state (final_state succeeded)) a
final-Change sent i true a r h =
    let at : stage a ≡ ActionState.submitted = is_submitted-inv (stage a) (ground arith) in
    let b = set_state ActionState.confirmed a in
    (past-RowOk sent b refl, one_move a b refl refl (rw at (move stay confirm)) (λ e. e))
final-Change sent i false a r h =
    let at : stage a ≡ ActionState.submitted = is_submitted-inv (stage a) (ground arith) in
    let b = set_state ActionState.failed a in
    (past-RowOk sent b refl, one_move a b refl refl (rw at (move stay fail)) (λ e. e))

settle_action-Keeps : (i : ℕ) (c : Check) → Keeps (settle_action i c)
unfolding complete_submitted_validator_action
settle_action-Keeps i not_found = Good-refl
settle_action-Keeps i rpc_error = Good-refl
settle_action-Keeps i (found conf) =
    let m = complete_submitted_validator_action i (final_state conf.succeeded) in
    when conf.final (try m >>= skip_no_rows) done
      (both (try m) skip_no_rows
        (λ w inv.
          update_returning-Good (is_sent i) (set_state (final_state conf.succeeded)) w inv
            (everywhere (λ a. final-Change w.actions_sent i conf.succeeded a) w.tables.actions))
        skip_no_rows-Keeps)
      Good-refl

check_action-Keeps : (env : Env) (i : ℕ) (hash : Option ℕ) → Keeps (check_action env i hash)
check_action-Keeps env i none = Good-refl
check_action-Keeps env i (some hash) = settle_action-Keeps i (env.check_transaction hash)

check_actions-Keeps : (env : Env) (xs : List ValidatorAction) → Keeps (check_actions env xs)
unfolding check_actions
check_actions-Keeps env [] = Good-refl
check_actions-Keeps env (a ∷ rest) =
    both (check_action env a.id a.tx_hash) (λ _. check_actions env rest)
      (check_action-Keeps env a.id a.tx_hash) (λ _. check_actions-Keeps env rest)

requests-requestable :
    (sent : List SentAction) (xs : List ValidatorAction)
    → All (RowOk sent) xs
    → All (λ a. action_for_request a.action ≡ true) (keep (λ a. is_requested (stage a)) xs)
requests-requestable sent [] rs = tt
requests-requestable sent (a ∷ xs) rs = elim (Bool-cases (is_requested (stage a))) [
  | inl yes_it_is ↦ rw yes_it_is (rs.0.kind (rw yes_it_is refl), requests-requestable sent xs rs.1)
  | inr other ↦ rw other (requests-requestable sent xs rs.1)
]

check_submitted-Keeps : (env : Env) → Keeps (check_submitted_validator_actions env)
unfolding check_submitted_validator_actions list_submitted_validator_actions
check_submitted-Keeps env =
    both (list_submitted_validator_actions 100) (check_actions env) (query-Keeps _)
      (check_actions-Keeps env)

-- The whole run of the daemon.
pub process_requested_actions-Keeps : (env : Env) → Keeps (process_requested_actions env)
unfolding process_requested_actions get_requested_validator_actions query stmt
process_requested_actions-Keeps env w inv = elim (Bool-cases (refused w.io)) [
  | inl no_io ↦ rw no_io (Good-refl w inv)
  | inr io ↦
      let v = record w { io = later w.io } in
      let rs = keep (λ a. is_requested (stage a)) w.tables.actions in
      rw io (
        both (handle_requests env rs) (λ _. check_submitted_validator_actions env)
          (handle_requests-Keeps env rs
            (requests-requestable w.actions_sent w.tables.actions inv.rows))
          (λ _. check_submitted-Keeps env) v inv)
]
