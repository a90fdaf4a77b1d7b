-- ===== src/Election/Genesis.antt =====
-- At genesis two epochs are recorded, and not in a transaction (internal/pool/election.go): what an
-- error between them leaves behind.
use go_pool.Prelude.{
  ℕ, ◌-◌, ◌<◌, ◌≡◌, ◌≢◌, ◌==◌, refl, sym, ap, arith, List, [], ◌∷◌, ◌++◌, Option, none, some, Bool,
  true, false, any_of-append, any_of-append_last, length, add32, ◌∙◌,
}
use go_pool.Policy.{epoch_at, batch_at}
use go_pool.Store.{EpochStatus, Tables, Reward, Staker}
use go_pool.Store.Monad.{World, Result, ok, err, Error, >>=-inv, or_raise, ◌>>=◌}
use go_pool.Store.Payslips.{reward_exists_in}
use go_pool.Store.Epochs.{
  epoch_exists_in, epoch_exists, insert_epoch, reward_exists, insert_reward, get_stakers_for_epoch,
}
use go_pool.Checkpoint.{
  handle_checkpoint, collect, book, fan_out, reward_epoch, booked, Inherent, reward_of,
}
use go_pool.Checkpoint
use go_pool.Checkpoint.Retry.{reward_exists-inv, unless_booked}
use go_pool.Election.{
  Validator, Env, election_status, upcoming, any_exists, insert_epochs, record_snapshot,
  record_validator, record_epochs, handle_election,
}

-- The handler does nothing for an epoch that is there, whatever the database and the chain answer.
pub handle_election-existing :
    (env : Env) (height : ℕ) (w : World)
    → epoch_exists_in (add32 (epoch_at env.policy height) 1) w.tables ≡ true
    → (handle_election env height w).1.tables ≡ w.tables
unfolding handle_election upcoming any_exists epoch_exists
handle_election-existing env height w h = ground arith

-- A reward of an epoch that is not there cannot be inserted.
insert_reward-unknown :
    (r : Reward) (w : World)
    → epoch_exists_in r.epoch_number w.tables ≡ false
    → (insert_reward r w).0 ≢ ok tt
unfolding insert_reward
insert_reward-unknown r w h = ground arith

get_stakers-tables : (n : ℕ) (w : World) → (get_stakers_for_epoch n w).1.tables ≡ w.tables
unfolding get_stakers_for_epoch
get_stakers-tables n w = ground arith

or_raise-world : {A : Type 0} (o : Option A) (e : Error) (w : World) → (or_raise o e w).1 ≡ w
or_raise-world none e w = refl
or_raise-world (some a) e w = refl

collect-unknown :
    (env : Checkpoint.Env) (height batch : ℕ) (w : World)
    → epoch_exists_in (reward_epoch env height) w.tables ≡ false
    → (collect env height batch w).0 ≢ ok tt
unfolding collect book
collect-unknown env height batch w unknown h =
    let get = get_stakers_for_epoch (reward_epoch env height) in
    let k = λ (ins : List Inherent) (ss : List Staker). book env height batch ins ss in
    let (ins, w1, e1, c1) = >>=-inv (or_raise env.inherents Error.rpc) (λ i. get >>= k i) w h in
    let (ss, w2, e2, c2) = >>=-inv get (k ins) w1 (rw c1 at h) in
    let row = booked env height batch ins ss in
    let (_, w3, e3, c3) =
      >>=-inv (insert_reward row) (λ _. fan_out batch (reward_of env.address 0 ins) row.amount ss)
        w2 (rw c2 at (rw c1 at h)) in
    let t1 : w1.tables ≡ w.tables =
      ap (λ (x : Result (List Inherent) × World). x.1.tables) (sym e1)
      ∙ ap (λ (x : World). x.tables) (or_raise-world env.inherents Error.rpc w) in
    let t2 : w2.tables ≡ w1.tables =
      ap (λ (x : Result (List Staker) × World). x.1.tables) (sym e2)
      ∙ get_stakers-tables (reward_epoch env height) w1 in
    insert_reward-unknown row w2
      (ap (λ t. epoch_exists_in (reward_epoch env height) t) (t2 ∙ t1) ∙ unknown)
      (ap (λ (x : Result (Unit {0}) × World). x.0) e3)

unless_booked-unknown :
    (env : Checkpoint.Env) (height batch : ℕ) (found : Bool) (w : World)
    → found ≡ false
    → epoch_exists_in (reward_epoch env height) w.tables ≡ false
    → (unless_booked env height batch found w).0 ≢ ok tt
unless_booked-unknown env height batch true w new unknown h = cc
unless_booked-unknown env height batch false w new unknown h =
    collect-unknown env height batch w unknown h

-- A reward that is not booked stays so while its epoch is missing.
pub handle_checkpoint-unknown :
    (env : Checkpoint.Env) (height : ℕ) (w : World)
    → 0 < batch_at env.policy height
    → reward_exists_in (batch_at env.policy height - 1) w.tables ≡ false
    → epoch_exists_in (reward_epoch env height) w.tables ≡ false
    → (handle_checkpoint env height w).0 ≢ ok tt
unfolding handle_checkpoint
handle_checkpoint-unknown env height w pos new unknown h =
    let b = batch_at env.policy height - 1 in
    let behind : (batch_at env.policy height == 0) ≡ false = ground arith in
    let run = rw behind at h in
    let (found, w', e, c) = >>=-inv (reward_exists b) (unless_booked env height b) w run in
    let (same, is_found) = reward_exists-inv b w w' found e in
    unless_booked-unknown env height b found w' (sym is_found ∙ new)
      (ap (λ t. epoch_exists_in (reward_epoch env height) t) same ∙ unknown) (rw c at run)

-- The tables with one more epoch.
abbrev pub with_epoch : ℕ → ℕ → ℕ → Tables → Tables
with_epoch n stakers balance t = record t {
  epochs =
      t.epochs
      ++ record {
        number = n;
        num_stakers = stakers;
        balance = balance;
        status = EpochStatus.in_progress;
      }
        ∷ [];
}

-- A database that takes three statements and refuses the fourth.
abbrev pub failing : World → List Bool → World
failing w io = record w { io = false ∷ false ∷ false ∷ true ∷ io }

module _ (env : Env) (v : Validator) (ss : List (ℕ × ℕ)) (w : World) (io : List Bool)
    (elected : env.validator ≡ some v)
    (earns : election_status v env.policy.genesis_block_number ≡ none)
    (listed : env.stakers ≡ some ss) (no_zero : epoch_exists_in 0 w.tables ≡ false)
    (no_one : epoch_exists_in 1 w.tables ≡ false) where
  opens_two : upcoming env.policy env.policy.genesis_block_number ≡ 1 ∷ 0 ∷ []
  unfolding upcoming epoch_at
  opens_two = ground arith

  both_new :
      any_exists (1 ∷ 0 ∷ []) (failing w io) ≡ (ok false, record w { io = false ∷ true ∷ io })
  unfolding any_exists epoch_exists
  both_new = rw no_one (rw no_zero)

  second_refused :
      insert_epochs
        (length ss)
        v.balance
        EpochStatus.in_progress
        (1 ∷ 0 ∷ [])
        (record w { io = false ∷ true ∷ io })
      ≡ (err Error.sql, record w { tables = with_epoch 1 (length ss) v.balance w.tables; io = io })
  unfolding insert_epochs insert_epoch
  second_refused = rw no_one

  recorded :
      record_epochs env env.policy.genesis_block_number
        (1 ∷ 0 ∷ [])
        env.validator
        (record w { io = false ∷ true ∷ io })
      ≡ (err Error.sql, record w { tables = with_epoch 1 (length ss) v.balance w.tables; io = io })
  unfolding record_epochs record_validator record_snapshot
  recorded = rw elected (rw earns (rw listed (rw second_refused)))

  failing_election :
      handle_election env env.policy.genesis_block_number (failing w io)
      ≡ (err Error.sql, record w { tables = with_epoch 1 (length ss) v.balance w.tables; io = io })
  unfolding handle_election
  failing_election = rw opens_two (rw both_new recorded)

  one_there : epoch_exists_in 1 (with_epoch 1 (length ss) v.balance w.tables) ≡ true
  one_there =
      any_of-append_last (λ e. e.number == 1) w.tables.epochs
        (record {
          number = 1;
          num_stakers = length ss;
          balance = v.balance;
          status = EpochStatus.in_progress;
        })
        refl

  zero_missing : epoch_exists_in 0 (with_epoch 1 (length ss) v.balance w.tables) ≡ false
  zero_missing = ground (
    arith,
    any_of-append (λ e. e.number == 0) w.tables.epochs
        (record {
          number = 1;
          num_stakers = length ss;
          balance = v.balance;
          status = EpochStatus.in_progress;
        }
          ∷ []),
  )

  one_next :
      (later : Env)
      → later.policy ≡ env.policy
      → add32 (epoch_at later.policy env.policy.genesis_block_number) 1 ≡ 1
  unfolding epoch_at
  one_next later same = rw same (ground arith)

  -- The genesis block opens the epochs 1 and 0, one after the other and not in a transaction. Let
  -- the validator be elected, and let the database refuse the second insertion. The handler returns
  -- the error, and is run again at genesis; but then, and whatever the database and the chain
  -- answer, it finds epoch 1, returns and writes nothing, so that epoch 0 is missing for good. No
  -- reward that belongs to it can be booked: the checkpoint handler returns an error at every height
  -- whose batch lies in epoch 0 and is not booked yet.
  pub half_genesis_never_completed :
      (later : Env) (check : Checkpoint.Env) (height : ℕ) (io' : List Bool)
      → later.policy ≡ env.policy
      → reward_epoch check height ≡ 0
      → 0 < batch_at check.policy height
      → reward_exists_in (batch_at check.policy height - 1) w.tables ≡ false
      → let (r, w') = handle_election env env.policy.genesis_block_number (failing w io) in
        let again =
          (handle_election later env.policy.genesis_block_number (record w' { io = io' })).1 in
        (r ≡ err Error.sql)
        × (again.tables ≡ w'.tables)
        × (epoch_exists_in 0 again.tables ≡ false)
        × ((handle_checkpoint check height again).0 ≢ ok tt)
  half_genesis_never_completed later check height io' same zero_epoch pos new =
      let g = env.policy.genesis_block_number in
      let t = with_epoch 1 (length ss) v.balance w.tables in
      let w' = record w { tables = t; io = io' } in
      let there = ap (λ n. epoch_exists_in n t) (one_next later same) ∙ one_there in
      let stays = handle_election-existing later g w' there in
      let missing = ap (λ x. epoch_exists_in 0 x) stays ∙ zero_missing in
      let again = (handle_election later g w').1 in
      let unbooked = ap (λ x. reward_exists_in (batch_at check.policy height - 1) x) stays ∙ new in
      let unknown = ap (λ n. epoch_exists_in n again.tables) zero_epoch ∙ missing in
      rw failing_election
        (refl, stays, missing, handle_checkpoint-unknown check height again pos unbooked unknown)
