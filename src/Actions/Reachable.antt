-- ===== src/Actions/Reachable.antt =====
-- The daemon's runs and the API's calls in any order (internal/pool/lifecycle.go,
-- internal/api/operator_operations_handlers.go).
use go_pool.Prelude.{ℕ, arith, ◌≤◌, ◌≡◌, refl, List, [], Bool, true}
use go_pool.Store.{ActionKind}
use go_pool.Store.Monad.{World}
use go_pool.Actions.{
  Env, action_for_request, process_requested_actions, run_auto_reactivate, cancel_action,
  queue_and_audit_validator_action,
}
use go_pool.Actions.Stages.{Follows, times, outstanding, Inv}
use go_pool.Actions.Keeping.{IsGood, Good, Good-refl, Good-trans}
use go_pool.Actions.Keeping.Runs.{process_requested_actions-Keeps}
use go_pool.Actions.Keeping.Reactivations.{run_auto_reactivate-Keeps}
use go_pool.Startup.Bootstrap.{BootEnv, Attempts, run_bootstrap}
use go_pool.Actions.Keeping.Bootstraps.{run_bootstrap-Keeps}
use go_pool.Actions.Keeping.Cancelling.{cancel_action-Keeps}
use go_pool.Actions.Keeping.Queueing.{queue_and_audit-Keeps}

-- One operation, whatever the chain answers; `outcomes` chooses what the database does next.
pub data Step : World → World → Type 0 where
  process : (env : Env) (w : World) → Step w (process_requested_actions env w).1
  reactivate : (env : Env) (w : World) → Step w (run_auto_reactivate env w).1
  bootstrap : (env : BootEnv) (m : Attempts) (w : World) → Step w (run_bootstrap env m w).1
  queue : (k : ActionKind) (w : World) → Step w (queue_and_audit_validator_action k w).1
  cancel : (i : ℕ) (w : World) → Step w (cancel_action i w).1
  outcomes : (io : List Bool) (w : World) → Step w (record w { io = io })

pub data Reach (w : World) : World → Type 0 where
  here : Reach w w
  next : {v u : World} → Reach w v → Step v u → Reach w u

pub Step-Good : {w v : World} → Step w v → IsGood w → Good w v
Step-Good (process env w) inv = process_requested_actions-Keeps env w inv
Step-Good (reactivate env w) inv = run_auto_reactivate-Keeps env w inv
Step-Good (bootstrap env m w) inv = run_bootstrap-Keeps env m w inv
Step-Good (queue k w) inv = queue_and_audit-Keeps k w inv
Step-Good (cancel i w) inv = cancel_action-Keeps i w inv
Step-Good (outcomes io w) inv = Good-refl w inv

pub Reach-Good : {w v : World} → Reach w v → IsGood w → Good w v
Reach-Good {w} here inv = Good-refl w inv
Reach-Good {w} (next {v} {u} r s) inv =
    let g = Reach-Good r inv in Good-trans w v u g (Step-Good s g.0)

-- No row of validator actions, and nothing sent.
abbrev pub IsFresh : World → Type 0
IsFresh w = (w.tables.actions ≡ []) × (w.actions_sent ≡ [])

pub IsFresh-IsGood : (w : World) → IsFresh w → IsGood w
IsFresh-IsGood w (no_rows, none_sent) =
    let empty : Inv [] [] = record {
      numbered = tt;
      rows = tt;
      once = λ i. omega arith;
      fresh = λ i h. refl;
      single = λ k h. omega arith;
    } in
    rw no_rows (rw none_sent empty)

-- From a database without validator actions, in whatever order the daemon runs, the operator queues
-- and cancels, the chain answers and the database refuses statements, no more than one transaction
-- goes out for a request.
pub requests_sent_once : (w v : World) (i : ℕ) → IsFresh w → Reach w v → times i v.actions_sent ≤ 1
requests_sent_once w v i f r = let g = Reach-Good r (IsFresh-IsGood w f) in g.0.once i

-- From a database without validator actions, and whatever happens, no more than one deactivation and
-- no more than one retirement is requested, claimed or submitted at a time.
pub one_outstanding :
    (w v : World) (k : ActionKind)
    → IsFresh w
    → action_for_request k ≡ true
    → Reach w v
    → outstanding k v.tables.actions ≤ 1
one_outstanding w v k f h r = let g = Reach-Good r (IsFresh-IsGood w f) in g.0.single k h

-- From a database without validator actions, whatever happens between a reachable state and a later
-- one, each row keeps its place, its id and its action, its state has moved by the transitions of
-- `Move` alone, and its outcome is still "pending" if it was.
pub rows_move :
    (w v u : World) → IsFresh w → Reach w v → Reach v u → Follows v.tables.actions u.tables.actions
rows_move w v u f r s = let g = Reach-Good r (IsFresh-IsGood w f) in (Reach-Good s g.0).1
