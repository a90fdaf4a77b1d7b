-- ===== src/Daemon/Tests.antt =====
-- A replay (internal/pool/pool.go) of the first heights of a small chain.
use go_pool.Prelude.{◌<◌, ◌≡◌, ◌≢◌, refl, arith, [], ◌∷◌, none, some, true, false}
use go_pool.Policy.{Policy, block_micro, block_checkpoint, classify, batch_at, div_ceil}
use go_pool.Store.Monad.{World}
use go_pool.Election.{Validator}
use go_pool.Daemon.{Answers, catch_up}
use go_pool.Daemon.Replay.{NoneSkipped, catch_up-NoneSkipped}

abbrev policy : Policy
policy = record {
  genesis_block_number = 10;
  blocks_per_epoch = 12;
  blocks_per_batch = 4;
  block_separation_time = 1000;
}

abbrev validator : Validator
validator = record {
  retired = false;
  inactivity_flag = none;
  jailed_from = none;
  num_stakers = 1;
  balance = 300;
}

abbrev answers : Answers
answers = record {
  policy = policy;
  address = 1;
  fee_basis_points = 500;
  inherents = λ _. some (record { is_reward = true; validator_address = 1; value = 1000 } ∷ []);
  validator = λ _. some validator;
  stakers = λ _. some ((11, 300) ∷ []);
}

abbrev world : World
world = record {
  tables = record {
    cursor = none;
    epochs = [];
    stakers = [];
    rewards = [];
    payslips = [];
    transactions = [];
    audit_logs = [];
    preferences = [];
    actions = [];
    api_events = [];
  };
  io = [];
  fee_floor_alerted = [];
  balance_hold_alerted = [];
  alerts = [];
  broadcast = [];
  actions_sent = [];
}

is_checkpoint : classify policy 18 ≡ block_checkpoint
unfolding classify
is_checkpoint = refl

is_boundary : classify policy 18 ≢ block_micro
is_boundary e = cc (is_checkpoint, e)

behind : 0 < batch_at policy 18
unfolding batch_at div_ceil
behind = omega arith

catch_up-NoneSkipped_example : NoneSkipped policy 18 (catch_up answers 20 world).1.tables
catch_up-NoneSkipped_example = catch_up-NoneSkipped answers 20 18 world is_boundary behind refl
