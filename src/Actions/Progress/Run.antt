-- ===== src/Actions/Progress/Run.antt =====
-- The whole of an undisturbed `ProcessRequestedActions` (internal/pool/lifecycle.go).
use go_pool.Prelude.{ℕ, ◌≡◌, ◌∙◌, refl, ap, arith, List, [], ◌∷◌, ◌++◌, Option, none, some, All}
use go_pool.Store.{ActionState, ValidatorAction}
use go_pool.Store.Monad.{World, SentAction, Result, ok, err, ◌>>=◌, after, try, done, stmt, query}
use go_pool.Store.Memory.{Leaves, both-Leaves, when-Leaves}
use go_pool.Store.Actions.{
  complete_submitted_validator_action, get_requested_validator_actions,
  list_submitted_validator_actions,
}
use go_pool.Confirmation.{Check, not_found, rpc_error, found}
use go_pool.Actions.{
  Env, skip_no_rows, final_state, settle_action, check_action, check_actions,
  check_submitted_validator_actions, process_requested_actions,
}
use go_pool.Actions.Stages.{RowOk}
use go_pool.Actions.Keeping.Transactions.{sent_of, update_returning-sent_of, on_no_rows-sent_of}
use go_pool.Actions.Reachable.{IsFresh, Reach, Reach-Good, IsFresh-IsGood}
use go_pool.Actions.Progress.{
  IsUndisturbed, requests_of, with_rows, AllRequestable, handle_requests-send,
}

done-sent_of : Leaves sent_of done
unfolding Leaves
done-sent_of w = refl

skip-sent_of : (r : Result (Unit {0})) → Leaves sent_of (skip_no_rows r)
skip-sent_of (ok _) = done-sent_of
skip-sent_of (err e) = on_no_rows-sent_of e done done-sent_of

complete-sent_of :
    (i : ℕ) (s : ActionState) → Leaves sent_of (try (complete_submitted_validator_action i s))
unfolding complete_submitted_validator_action Leaves
complete-sent_of i s = update_returning-sent_of _ _

settle-sent_of : (i : ℕ) (c : Check) → Leaves sent_of (settle_action i c)
settle-sent_of i not_found = done-sent_of
settle-sent_of i rpc_error = done-sent_of
settle-sent_of i (found conf) =
    let m = try (complete_submitted_validator_action i (final_state conf.succeeded)) in
    when-Leaves sent_of conf.final (m >>= skip_no_rows) done
      (both-Leaves sent_of m skip_no_rows (complete-sent_of i (final_state conf.succeeded))
        skip-sent_of)
      done-sent_of

check_action-sent_of :
    (env : Env) (i : ℕ) (hash : Option ℕ) → Leaves sent_of (check_action env i hash)
check_action-sent_of env i none = done-sent_of
check_action-sent_of env i (some hash) = settle-sent_of i (env.check_transaction hash)

check_actions-sent_of :
    (env : Env) (xs : List ValidatorAction) → Leaves sent_of (check_actions env xs)
unfolding check_actions
check_actions-sent_of env [] = done-sent_of
check_actions-sent_of env (a ∷ rest) =
    both-Leaves sent_of (check_action env a.id a.tx_hash) (λ _. check_actions env rest)
      (check_action-sent_of env a.id a.tx_hash) (λ _. check_actions-sent_of env rest)

list-sent_of : (n : ℕ) → Leaves sent_of (list_submitted_validator_actions n)
unfolding list_submitted_validator_actions query stmt Leaves
list-sent_of n w = ground arith

check_submitted-sent_of : (env : Env) → Leaves sent_of (check_submitted_validator_actions env)
unfolding check_submitted_validator_actions
check_submitted-sent_of env =
    both-Leaves sent_of (list_submitted_validator_actions 100) (check_actions env)
      (list-sent_of 100) (check_actions-sent_of env)

rows-requestable :
    (sent : List SentAction) (xs : List ValidatorAction) → All (RowOk sent) xs → AllRequestable xs
rows-requestable sent [] h = tt
rows-requestable sent (a ∷ xs) h = ((λ r. h.0.kind (rw r refl)), rows-requestable sent xs h.1)

-- From a database without validator actions, whatever happened before: a run of the daemon that the
-- database, the node and the context leave undisturbed sends one transaction for each requested
-- row, in their order, and no other.
pub process_requested_actions-sends :
    (env : Env) (head : ℕ) (hash : ℕ → Option ℕ) (w v : World)
    → IsFresh w
    → Reach w v
    → IsUndisturbed env head hash
    → v.io ≡ []
    → (process_requested_actions env v).1.actions_sent
      ≡ v.actions_sent ++ requests_of v.tables.actions
unfolding process_requested_actions get_requested_validator_actions query stmt Leaves
process_requested_actions-sends env head hash w v f r u calm =
    let inv = (Reach-Good r (IsFresh-IsGood w f)).0 in
    let (ys, sent_all) =
      handle_requests-send env head hash v u 1 [] v.tables.actions v.actions_sent (λ i le. tt)
        inv.numbered (rows-requestable v.actions_sent v.tables.actions inv.rows) in
    let final = with_rows v ys (v.actions_sent ++ requests_of v.tables.actions) in
    let rest = λ (_ : Unit {0}). check_submitted_validator_actions env in
    rw calm (ap (λ x. (after rest x).1.actions_sent) sent_all ∙ check_submitted-sent_of env final)
