-- ===== src/Store/Actions.antt =====
-- The statements on the table of validator actions (internal/db/queries.sql.go). A statement with
-- RETURNING that changes no row fails with `no_rows`, as `sql.ErrNoRows`.
use go_pool.Prelude.{
  ℕ, zero, suc, ◌+◌, List, [], ◌∷◌, ◌++◌, Option, none, some, Bool, true, false, ◌&&◌, ◌||◌, ◌==◌,
  if◌then◌else◌, length, any_of, keep,
}
use go_pool.Store.{
  Tables, ActionKind, deactivate, retire, reactivate, create, self_stake, ActionOutcome,
  ActionState, ValidatorAction,
}
use go_pool.Store.Monad.{Error, M, stmt, query, exec, ◌>>=◌, raise, pure, done}
use go_pool.Store.Payslips.{update_where}

abbrev pub same_action : ActionKind → ActionKind → Bool
same_action deactivate deactivate = true
same_action retire retire = true
same_action reactivate reactivate = true
same_action create create = true
same_action self_stake self_stake = true
same_action _ _ = false

-- The state of a row, or the one that its outcome stands for: `COALESCE(state, CASE outcome …)` of
-- `ListValidatorActions`.
abbrev pub stage_of : ActionOutcome → Option ActionState → ActionState
stage_of outcome (some state) = state
stage_of ActionOutcome.requested none = ActionState.requested
stage_of ActionOutcome.pending none = ActionState.submitted
stage_of ActionOutcome.failed none = ActionState.failed
stage_of ActionOutcome.cancelled none = ActionState.failed

abbrev pub stage : ValidatorAction → ActionState
stage a = stage_of a.outcome a.state

abbrev pub is_requested : ActionState → Bool
is_requested ActionState.requested = true
is_requested _ = false

abbrev pub is_processing : ActionState → Bool
is_processing ActionState.processing = true
is_processing _ = false

abbrev pub is_submitted : ActionState → Bool
is_submitted ActionState.submitted = true
is_submitted _ = false

abbrev pub is_pending_outcome : ActionOutcome → Bool
is_pending_outcome ActionOutcome.pending = true
is_pending_outcome _ = false

-- `state = 'requested' OR (state IS NULL AND outcome = 'requested')`.
abbrev pub is_open_request : ℕ → ValidatorAction → Bool
is_open_request i a = a.id == i && is_requested (stage a)

-- `state = 'processing'`.
abbrev pub is_claimed : ℕ → ValidatorAction → Bool
is_claimed i a = a.id == i && is_processing (stage a)

-- `state = 'submitted' OR (state IS NULL AND outcome = 'pending')`.
abbrev pub is_sent : ℕ → ValidatorAction → Bool
is_sent i a = a.id == i && is_submitted (stage a)

-- `state IN ('requested', 'processing', 'submitted') OR (state IS NULL AND outcome IN …)`.
abbrev pub is_outstanding : ActionKind → ValidatorAction → Bool
is_outstanding k a =
    same_action a.action k
    && (is_requested (stage a) || is_processing (stage a) || is_submitted (stage a))

abbrev pub set_state : ActionState → ValidatorAction → ValidatorAction
set_state s a = record a { state = some s }

abbrev pub set_submitted : Option ℕ → ValidatorAction → ValidatorAction
set_submitted hash a = record a {
  state = some ActionState.submitted;
  outcome = ActionOutcome.pending;
  tx_hash = hash;
}

abbrev pub set_cancelled : ValidatorAction → ValidatorAction
set_cancelled a = record a { state = some ActionState.cancelled; outcome = ActionOutcome.cancelled }

-- `UPDATE … WHERE … RETURNING id`.
unfoldable pub update_returning :
    (ValidatorAction → Bool) → (ValidatorAction → ValidatorAction) → M (Unit {0})
unfolding stmt
update_returning p f =
    stmt (λ t. some (any_of p t.actions, record t { actions = update_where p f t.actions }))
    >>= λ found. if found then done else raise Error.no_rows

-- The next row; no row is ever deleted.
abbrev pub new_action :
    Tables → ActionKind → Option ℕ → ActionOutcome → Option ActionState → ValidatorAction
new_action t k hash outcome state = record {
  id = length t.actions + 1;
  action = k;
  tx_hash = hash;
  outcome = outcome;
  state = state;
}

-- `InsertValidatorAction`.
unfoldable pub insert_validator_action : ActionKind → Option ℕ → ActionOutcome → M (Unit {0})
unfolding exec
insert_validator_action k hash outcome =
    exec λ t. record t { actions = t.actions ++ new_action t k hash outcome none ∷ [] }

-- `HasPendingValidatorAction`, which reads the outcome alone.
unfoldable pub has_pending_validator_action : ActionKind → M Bool
unfolding query
has_pending_validator_action k =
    query λ t. any_of (λ a. same_action a.action k && is_pending_outcome a.outcome) t.actions

-- `HasOutstandingValidatorAction`.
unfoldable pub has_outstanding_validator_action : ActionKind → M Bool
unfolding query
has_outstanding_validator_action k = query λ t. any_of (is_outstanding k) t.actions

-- `GetRequestedValidatorActions`, in the order of insertion.
unfoldable pub get_requested_validator_actions : M (List ValidatorAction)
unfolding query
get_requested_validator_actions = query λ t. keep (λ a. is_requested (stage a)) t.actions

-- `MarkValidatorActionProcessing`.
unfoldable pub mark_validator_action_processing : ℕ → M (Unit {0})
unfolding update_returning
mark_validator_action_processing i =
    update_returning (is_open_request i) (set_state ActionState.processing)

-- `ReleaseValidatorActionProcessing`.
unfoldable pub release_validator_action_processing : ℕ → M (Unit {0})
unfolding update_returning
release_validator_action_processing i =
    update_returning (is_claimed i) (set_state ActionState.requested)

-- `SubmitValidatorAction`.
unfoldable pub submit_validator_action : ℕ → Option ℕ → M (Unit {0})
unfolding update_returning
submit_validator_action i hash = update_returning (is_claimed i) (set_submitted hash)

-- `CompleteSubmittedValidatorAction`.
unfoldable pub complete_submitted_validator_action : ℕ → ActionState → M (Unit {0})
unfolding update_returning
complete_submitted_validator_action i s = update_returning (is_sent i) (set_state s)

-- `CancelRequestedValidatorAction`.
unfoldable pub cancel_requested_validator_action : ℕ → M (Unit {0})
unfolding update_returning
cancel_requested_validator_action i = update_returning (is_open_request i) set_cancelled

-- `UpdateValidatorActionState`, whatever the state was.
unfoldable pub update_validator_action_state : ℕ → ActionState → M (Unit {0})
unfolding exec
update_validator_action_state i s =
    exec λ t. record t { actions = update_where (λ a. a.id == i) (set_state s) t.actions }

-- `InsertRequestedValidatorAction`: the new id, or `no_rows` if one is outstanding.
unfoldable pub insert_requested_validator_action : ActionKind → M ℕ
unfolding stmt
insert_requested_validator_action k =
    stmt (λ t.
      if any_of (is_outstanding k) t.actions
      then some (none, t)
      else some (
        some (length t.actions + 1),
        record t {
          actions =
              t.actions
              ++ new_action t k none ActionOutcome.requested (some ActionState.requested) ∷ [];
        },
      ))
    >>= λ id. elim id as (λ _. M ℕ) [ none ↦ raise Error.no_rows | some i ↦ pure i ]

-- `GetValidatorAction`.
unfoldable pub get_validator_action : ℕ → M ValidatorAction
unfolding query
get_validator_action i = query (λ t. keep (λ a. a.id == i) t.actions) >>= λ rows.
    elim rows as (λ _. M ValidatorAction) [ [] ↦ raise Error.no_rows | a ∷ _ ↦ pure a ]

-- The first rows, at most this many.
abbrev pub take : ℕ → List ValidatorAction → List ValidatorAction
take zero as_listed = []
take (suc n) [] = []
take (suc n) (a ∷ rest) = a ∷ take n rest

abbrev pub backwards : List ValidatorAction → List ValidatorAction → List ValidatorAction
backwards acc [] = acc
backwards acc (a ∷ rest) = backwards (a ∷ acc) rest

-- `ListValidatorActions` with the status "submitted", the newest first.
unfoldable pub list_submitted_validator_actions : ℕ → M (List ValidatorAction)
unfolding query
list_submitted_validator_actions limit =
    query λ t. take limit (backwards [] (keep (λ a. is_submitted (stage a)) t.actions))
