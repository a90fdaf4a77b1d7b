-- ===== src/Election/Tests.antt =====
-- Runs of the election handler (internal/pool/election.go) at genesis and behind it.
use go_pool.Prelude.{
  ℕ, ◌<◌, ◌≡◌, ◌≢◌, refl, arith, List, [], ◌∷◌, none, some, false, ◌==◌, keep, add32,
}
use go_pool.Policy.{Policy, epoch_at, batch_at, div_ceil}
use go_pool.Store.{Tables}
use go_pool.Store.Statements.{calm}
use go_pool.Store.Monad.{World, ok, err, Error}
use go_pool.Store.Epochs.{epoch_exists_in}
use go_pool.Checkpoint.{handle_checkpoint, reward_epoch}
use go_pool.Checkpoint
use go_pool.Election.{Validator, Env, election_status, handle_election}
use go_pool.Election.Snapshot.{with_snapshot, rows_of, handle_election-snapshots}
use go_pool.Election.Genesis.{failing, half_genesis_never_completed}

abbrev policy : Policy
policy = record {
  genesis_block_number = 10;
  blocks_per_epoch = 12;
  blocks_per_batch = 4;
  block_separation_time = 1000;
}

abbrev validator : Validator
validator = record {
  retired = false;
  inactivity_flag = some 9;
  jailed_from = none;
  num_stakers = 2;
  balance = 300;
}

abbrev stakers : List (ℕ × ℕ)
stakers = (11, 100) ∷ (12, 0) ∷ (13, 200) ∷ []

abbrev env : Env
env = record { policy = policy; validator = some validator; stakers = some stakers }

abbrev check : Checkpoint.Env
check = record { policy = policy; address = 1; fee_basis_points = 500; inherents = some [] }

abbrev tables : Tables
tables = record {
  cursor = none;
  epochs = [];
  stakers = [];
  rewards = [];
  payslips = [];
  transactions = [];
  audit_logs = [];
  preferences = [];
  actions = [];
  api_events = [];
}

abbrev world : World
world = record {
  tables = tables;
  io = [];
  fee_floor_alerted = [];
  balance_hold_alerted = [];
  alerts = [];
  broadcast = [];
  actions_sent = [];
}

earns : (height : ℕ) → 9 < height → election_status validator height ≡ none
unfolding election_status
earns height le = ground arith

absent : epoch_exists_in (add32 (epoch_at policy 22) 1) tables ≡ false
absent = refl

handle_election-snapshots_example :
    let n = add32 (epoch_at policy 22) 1 in
    (handle_election env 22 (calm world tables)
      ≡ (ok tt, calm world (with_snapshot n validator stakers tables)))
    × (keep (λ r. r.epoch_number == n) (with_snapshot n validator stakers tables).stakers
        ≡ rows_of n stakers)
handle_election-snapshots_example =
    handle_election-snapshots env 22 world tables validator stakers refl refl
      (earns 22 (omega arith)) refl absent refl refl

epoch_zero : reward_epoch check 14 ≡ 0
unfolding epoch_at
epoch_zero = refl

behind : 0 < batch_at policy 14
unfolding batch_at div_ceil
behind = omega arith

-- At height 14 the first batch ends; its reward belongs to epoch 0.
half_genesis_never_completed_example :
    let (r, w') = handle_election env 10 (failing world []) in
    let again = (handle_election env 10 (record w' { io = [] })).1 in
    (r ≡ err Error.sql)
    × (again.tables ≡ w'.tables)
    × (epoch_exists_in 0 again.tables ≡ false)
    × ((handle_checkpoint check 14 again).0 ≢ ok tt)
half_genesis_never_completed_example =
    half_genesis_never_completed env validator stakers world [] refl (earns 10 (omega arith)) refl
      refl refl env check 14 [] refl epoch_zero behind refl
