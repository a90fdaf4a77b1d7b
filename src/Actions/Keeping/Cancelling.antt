-- ===== src/Actions/Keeping/Cancelling.antt =====
-- Cancelling a request keeps the invariant (internal/api/operator_operations_handlers.go).
use go_pool.Prelude.{
  ℕ, ◌≡◌, refl, arith, inl, inr, List, [], ◌∷◌, ◌++◌, some, ◌==◌, keep, Bool-cases,
}
use go_pool.Store.{ActionState, ValidatorAction, ApiEvent, validator_action_cancelled}
use go_pool.Store.Monad.{SentAction, Error, M, ◌>>=◌, ◌>>◌, raise, pure, query, exec, stmt, refused}
use go_pool.Store.Actions.{
  stage, is_open_request, set_cancelled, cancel_requested_validator_action, get_validator_action,
}
use go_pool.Confirmation.{insert_operator_event}
use go_pool.Actions.{cancel_action}
use go_pool.Actions.Stages.{stay, move, cancel, is_requested-inv}
use go_pool.Actions.Rows.{Change}
use go_pool.Actions.Keeping.{Keeps, Good-refl, both, query-Keeps, everywhere, update_returning-Good}
use go_pool.Actions.Keeping.Changes.{one_move, past-RowOk}
use go_pool.Store.Memory.{Leaves, both-Leaves, stmt-Leaves}
use go_pool.Actions.Keeping.Transactions.{
  in_tx-Keeps, sent_of, sent-IsMemory, update_returning-sent_of,
}

pub get_validator_action-Keeps : (i : ℕ) → Keeps (get_validator_action i)
unfolding get_validator_action
get_validator_action-Keeps i =
    both (query (λ t. keep (λ a. a.id == i) t.actions)) _ (query-Keeps _) found_rows
  where
    found_rows :
        (rows : List ValidatorAction)
        → Keeps
            (elim rows as (λ _. M ValidatorAction) [ [] ↦ raise Error.no_rows | a ∷ _ ↦ pure a ])
    found_rows [] = Good-refl
    found_rows (a ∷ _) = Good-refl

pub get_validator_action-sent_of : (i : ℕ) → Leaves sent_of (get_validator_action i)
unfolding get_validator_action query Leaves
get_validator_action-sent_of i =
    both-Leaves sent_of (query (λ t. keep (λ a. a.id == i) t.actions)) _
      (stmt-Leaves sent_of (λ t. some (keep (λ a. a.id == i) t.actions, t)) sent-IsMemory)
      found_rows
  where
    found_rows :
        (rows : List ValidatorAction)
        → Leaves sent_of
            (elim rows as (λ _. M ValidatorAction) [ [] ↦ raise Error.no_rows | a ∷ _ ↦ pure a ])
    found_rows [] w = refl
    found_rows (a ∷ _) w = refl

pub event-Keeps : (e : ApiEvent) → Keeps (insert_operator_event e)
unfolding insert_operator_event exec stmt
event-Keeps e w inv = elim (Bool-cases (refused w.io)) [
  | inl no_io ↦ rw no_io (Good-refl w inv)
  | inr io ↦ rw io (Good-refl w inv)
]

pub event-sent_of : (e : ApiEvent) → Leaves sent_of (insert_operator_event e)
unfolding insert_operator_event exec
event-sent_of e =
    stmt-Leaves sent_of (λ t. some (tt, record t { api_events = t.api_events ++ e ∷ [] }))
      sent-IsMemory

pub then_event-Keeps :
    (e : ApiEvent) (a : ValidatorAction) → Keeps (insert_operator_event e >> pure a)
then_event-Keeps e a = both (insert_operator_event e) (λ _. pure a) (event-Keeps e) (λ _. Good-refl)

pub then_event-sent_of :
    (e : ApiEvent) (a : ValidatorAction) → Leaves sent_of (insert_operator_event e >> pure a)
unfolding Leaves
then_event-sent_of e a =
    both-Leaves sent_of (insert_operator_event e) (λ _. pure a) (event-sent_of e) (λ _ w. refl)

cancel-Change :
    (sent : List SentAction) (i : ℕ) (a : ValidatorAction)
    → Change sent (is_open_request i) set_cancelled a
cancel-Change sent i a r h =
    let at : stage a ≡ ActionState.requested = is_requested-inv (stage a) (ground arith) in
    let not_pending = r.outcome (rw at refl) in
    (
      past-RowOk sent (set_cancelled a) refl,
      one_move a (set_cancelled a) refl refl (rw at (move stay cancel))
          (λ e. absurd (ground arith)),
    )

pub cancel_action-Keeps : (i : ℕ) → Keeps (cancel_action i)
unfolding cancel_action cancel_requested_validator_action
cancel_action-Keeps i =
    let m = cancel_requested_validator_action i in
    let event : ValidatorAction → ApiEvent = λ stored. validator_action_cancelled i stored.action in
    let rest =
      get_validator_action i >>= λ stored. (insert_operator_event (event stored) >> pure stored) in
    in_tx-Keeps (m >> rest)
      (both m (λ _. rest)
        (λ w inv.
          update_returning-Good (is_open_request i) set_cancelled w inv
            (everywhere (λ a. cancel-Change w.actions_sent i a) w.tables.actions))
        (λ _.
          both (get_validator_action i) _ (get_validator_action-Keeps i)
            (λ stored. then_event-Keeps (event stored) stored)))
      (both-Leaves sent_of m (λ _. rest)
        (update_returning-sent_of (is_open_request i) set_cancelled)
        (λ _.
          both-Leaves sent_of (get_validator_action i) _ (get_validator_action-sent_of i)
            (λ stored. then_event-sent_of (event stored) stored)))
