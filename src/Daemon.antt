-- ===== src/Daemon.antt =====
-- How the daemon follows the chain (`processHeight` and the replay in `Manager.Run`,
-- internal/pool/pool.go). Log lines and metrics are left out.
pub mod Kept
pub mod Replay
mod Tests
use go_pool.Prelude.{ℕ, zero, suc, ◌-◌, List, Option, none, some, add32}
use go_pool.Policy.{Policy, BlockKind, block_micro, block_checkpoint, block_election, classify}
use go_pool.Store.Monad.{Result, ok, err, M, ◌>>=◌, ◌>>◌, done, try}
use go_pool.Store.Epochs.{get_cursor, upsert_cursor}
use go_pool.Checkpoint.{Inherent, handle_checkpoint}
use go_pool.Checkpoint
use go_pool.Election.{Validator, handle_election}
use go_pool.Election

-- The policy and the configuration, and the chain's answers at each height.
pub record Answers : Type 0 where
  pub policy : Policy
  pub address : ℕ
  pub fee_basis_points : ℕ
  pub inherents : ℕ → Option (List Inherent)
  pub validator : ℕ → Option Validator
  pub stakers : ℕ → Option (List (ℕ × ℕ))

abbrev pub election_env : Answers → ℕ → Election.Env
election_env a height = record {
  policy = a.policy;
  validator = a.validator height;
  stakers = a.stakers height;
}

abbrev pub checkpoint_env : Answers → ℕ → Checkpoint.Env
checkpoint_env a height = record {
  policy = a.policy;
  address = a.address;
  fee_basis_points = a.fee_basis_points;
  inherents = a.inherents height;
}

unfoldable pub process_kind : Answers → ℕ → BlockKind → M (Unit {0})
process_kind a height block_election =
    handle_election (election_env a height) height
    >> handle_checkpoint (checkpoint_env a height) height
process_kind a height block_checkpoint = handle_checkpoint (checkpoint_env a height) height
process_kind a height block_micro = done

-- `Manager.processHeight`.
unfoldable pub process_height : Answers → ℕ → M (Unit {0})
unfolding process_kind
process_height a height = process_kind a height (classify a.policy height)

-- The first height of the replay: genesis if there is no cursor, or if the query failed.
unfoldable pub start_of : Policy → Result (Option ℕ) → ℕ
start_of p (ok (some cursor)) = add32 cursor 1
start_of p (ok none) = p.genesis_block_number
start_of p (err e) = p.genesis_block_number

-- The loop over this many heights; it ends at the first error, which is logged by its caller.
unfoldable pub replay : Answers → ℕ → ℕ → M (Unit {0})
replay a height zero = done
replay a height (suc n) =
    process_height a height >> (upsert_cursor height >> replay a (suc height) n)

-- The part of a tick of `Run` that reads the cursor and replays up to a head below 2 ^ 32 - 1.
unfoldable pub catch_up : Answers → ℕ → M (Unit {0})
catch_up a head = try get_cursor >>= λ r.
    let start = start_of a.policy r in (try (replay a start (suc head - start)) >>= λ _. done)
