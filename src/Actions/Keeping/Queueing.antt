-- ===== src/Actions/Keeping/Queueing.antt =====
-- Queueing a request keeps the invariant (internal/api/operator_operations_handlers.go).
use go_pool.Prelude.{
  ℕ, ◌+◌, ◌≡◌, refl, sym, inl, inr, arith, List, [], ◌∷◌, ◌++◌, none, some, true, false, length,
  any_of, Bool-cases,
}
use go_pool.Store.{
  validator_action_requested, ActionKind, ActionOutcome, ActionState, ValidatorAction,
}
use go_pool.Store.Monad.{
  World, Result, ok, err, Error, ◌>>=◌, ◌>>◌, raise, pure, try, refused, stmt,
}
use go_pool.Store.Actions.{is_outstanding, insert_requested_validator_action, new_action}
use go_pool.Actions.Keeping.Reactivations.{append-Inv, same_action-inv}
use go_pool.Confirmation.{insert_operator_event}
use go_pool.Actions.{
  action_for_request, after_insert, queue_validator_action, queue_and_audit_validator_action,
}
use go_pool.Actions.Stages.{Follows, outstanding, Inv}
use go_pool.Actions.Keeping.{on_no_rows-Keeps, IsGood, Keeps, Good-refl, both}
use go_pool.Store.Memory.{raise-Leaves, Leaves, after-Leaves, both-Leaves}
use go_pool.Actions.Keeping.Transactions.{in_tx-Keeps, sent_of, on_no_rows-sent_of}
use go_pool.Actions.Keeping.Cancelling.{
  get_validator_action-Keeps, get_validator_action-sent_of, then_event-Keeps, then_event-sent_of,
}

none_outstanding :
    (k : ActionKind) (xs : List ValidatorAction)
    → any_of (is_outstanding k) xs ≡ false
    → outstanding k xs ≡ 0
none_outstanding k [] h = refl
none_outstanding k (a ∷ xs) h = ground (arith, none_outstanding k xs)

request-Inv :
    (k : ActionKind) (w : World)
    → IsGood w
    → action_for_request k ≡ true
    → any_of (is_outstanding k) w.tables.actions ≡ false
    → let row = new_action w.tables k none ActionOutcome.requested (some ActionState.requested) in
      Inv (w.tables.actions ++ row ∷ []) w.actions_sent
      × Follows w.tables.actions (w.tables.actions ++ row ∷ [])
request-Inv k w inv requestable free =
    let row = new_action w.tables k none ActionOutcome.requested (some ActionState.requested) in
    append-Inv w.actions_sent w.tables.actions row inv refl
      record {
        unsent = λ _. inv.fresh (length w.tables.actions + 1) (omega arith);
        kind = λ _. requestable;
        outcome = λ _. refl;
      }
      (λ j h out.
        let same : k ≡ j = same_action-inv k j (ground arith) in
        rw (sym same) (none_outstanding k w.tables.actions free))

insert_requested-Keeps :
    (k : ActionKind) → action_for_request k ≡ true → Keeps (insert_requested_validator_action k)
unfolding insert_requested_validator_action stmt
insert_requested-Keeps k requestable w inv = elim (Bool-cases (refused w.io)) [
  | inl no_io ↦ rw no_io (Good-refl w inv)
  | inr io ↦ rw io (elim (Bool-cases (any_of (is_outstanding k) w.tables.actions)) [
    | inl taken ↦ rw taken (Good-refl w inv)
    | inr free ↦ rw free (request-Inv k w inv requestable free)
  ])
]

insert_requested-sent_of : (k : ActionKind) → Leaves sent_of (insert_requested_validator_action k)
unfolding insert_requested_validator_action stmt Leaves
insert_requested-sent_of k w = elim (Bool-cases (refused w.io)) [
  | inl no_io ↦ rw no_io refl
  | inr io ↦ rw io (elim (Bool-cases (any_of (is_outstanding k) w.tables.actions)) [
    | inl taken ↦ rw taken refl
    | inr free ↦ rw free refl
  ])
]

queue-Keeps : (k : ActionKind) → Keeps (queue_validator_action k)
unfolding queue_validator_action
queue-Keeps k w inv = elim (Bool-cases (action_for_request k)) [
  | inl requestable ↦ rw requestable (
      both (try (insert_requested_validator_action k)) after_insert
        (insert_requested-Keeps k requestable) after_insert-Keeps w inv)
  | inr other ↦ rw other (Good-refl w inv)
]
  where
    after_insert-Keeps : (r : Result ℕ) → Keeps (after_insert r)
    after_insert-Keeps (ok i) = get_validator_action-Keeps i
    after_insert-Keeps (err e) = on_no_rows-Keeps e (raise Error.duplicate) Good-refl

queue-sent_of : (k : ActionKind) → Leaves sent_of (queue_validator_action k)
unfolding queue_validator_action Leaves
queue-sent_of k w = elim (Bool-cases (action_for_request k)) [
  | inl requestable ↦ rw requestable (
      after-Leaves sent_of after_insert w (try (insert_requested_validator_action k) w)
        (insert_requested-sent_of k w) after_insert-sent_of)
  | inr other ↦ rw other refl
]
  where
    after_insert-sent_of : (r : Result ℕ) → Leaves sent_of (after_insert r)
    after_insert-sent_of (ok i) = get_validator_action-sent_of i
    after_insert-sent_of (err e) =
        on_no_rows-sent_of e (raise Error.duplicate)
          (raise-Leaves sent_of ValidatorAction Error.duplicate)

pub queue_and_audit-Keeps : (k : ActionKind) → Keeps (queue_and_audit_validator_action k)
unfolding queue_and_audit_validator_action
queue_and_audit-Keeps k =
    in_tx-Keeps
      (queue_validator_action k >>= λ queued.
        (insert_operator_event (validator_action_requested k) >> pure queued))
      (both (queue_validator_action k) _ (queue-Keeps k)
        (then_event-Keeps (validator_action_requested k)))
      (both-Leaves sent_of (queue_validator_action k) _ (queue-sent_of k)
        (then_event-sent_of (validator_action_requested k)))
