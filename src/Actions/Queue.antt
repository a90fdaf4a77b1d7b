-- ===== src/Actions/Queue.antt =====
-- The answers to an operator's requests (`handleOperatorActionCreate` in
-- internal/api/operator_operations_handlers.go) while the database works.
use go_pool.Prelude.{
  ℕ, suc, ◌+◌, ◌==◌, ◌≡◌, refl, inl, inr, arith, List, [], ◌∷◌, ◌++◌, none, some, false,
  if◌then◌else◌, any_of, length, keep, Bool-cases,
}
use go_pool.Store.{ActionKind, ActionOutcome, ActionState, ValidatorAction}
use go_pool.Store.Monad.{World, stmt, query, exec, in_tx}
use go_pool.Store.Actions.{
  is_outstanding, new_action, insert_requested_validator_action, get_validator_action,
}
use go_pool.Confirmation.{insert_operator_event}
use go_pool.Actions.{
  Status, created, conflict, bad_request, action_for_request, queue_validator_action,
  queue_and_audit_validator_action, create_status,
}
use go_pool.Actions.Stages.{IsNumbered}

-- The row that a request adds.
abbrev pub request_row : World → ActionKind → ValidatorAction
request_row w k = new_action w.tables k none ActionOutcome.requested (some ActionState.requested)

-- The rows after a request.
abbrev pub queued : World → ActionKind → List ValidatorAction
queued w k =
    if action_for_request k
    then (if any_of (is_outstanding k) w.tables.actions
        then w.tables.actions
        else w.tables.actions ++ request_row w k ∷ [])
    else w.tables.actions

-- What an operator is told.
abbrev pub expected_status : World → ActionKind → Status
expected_status w k =
    if action_for_request k
    then (if any_of (is_outstanding k) w.tables.actions then conflict else created)
    else bad_request

found_last :
    (n : ℕ) (xs : List ValidatorAction) (a : ValidatorAction)
    → IsNumbered n xs
    → a.id ≡ n + length xs
    → keep (λ x. x.id == a.id) (xs ++ a ∷ []) ≡ a ∷ []
found_last n [] a k h = ground arith
found_last n (x ∷ xs) a k h =
    let at = k.0 in
    let other : (x.id == a.id) ≡ false = ground arith in
    rw other (found_last (suc n) xs a k.1 (omega arith))

-- Let the rows be numbered from 1 and let the database refuse nothing. A request for an action that
-- an operator cannot ask for is a bad request, one for an action that is already requested, claimed
-- or submitted a conflict, and both leave the rows alone; any other one is created, with one new
-- row, which is requested.
queue_and_audit-answers :
    (k : ActionKind) (w : World)
    → IsNumbered 1 w.tables.actions
    → w.io ≡ []
    → let (r, w') = queue_and_audit_validator_action k w in
      (create_status k r ≡ expected_status w k) × (w'.tables.actions ≡ queued w k)
unfolding queue_and_audit_validator_action queue_validator_action insert_requested_validator_action
    get_validator_action insert_operator_event in_tx stmt query exec
queue_and_audit-answers k w numbered calm = elim (Bool-cases (action_for_request k)) [
  | inr other ↦ rw calm (rw other (rw other refl, refl))
  | inl requestable ↦ elim (Bool-cases (any_of (is_outstanding k) w.tables.actions)) [
    | inl taken ↦ rw calm (rw requestable (rw taken (refl, refl)))
    | inr free ↦ rw calm (
        rw requestable (
          rw free (
            rw (found_last 1 w.tables.actions (request_row w k) numbered (omega arith))
              (refl, refl))))
  ]
]
