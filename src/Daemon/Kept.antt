-- ===== src/Daemon/Kept.antt =====
-- Handling a height keeps every booked reward, and leaves the cursor alone
-- (internal/pool/checkpoint.go, internal/pool/election.go).
use go_pool.Prelude.{
  ℕ, ◌≡◌, ◌∙◌, ◌==◌, refl, arith, List, [], ◌∷◌, Option, none, some, Bool, true, false, ◌||◌, ◌-◌,
  if◌then◌else◌, any_of-append, length,
}
use go_pool.Policy.{batch_at, BlockKind, block_micro, block_checkpoint, block_election, classify}
use go_pool.Store.{Reward, Staker, Epoch, EpochStatus, PayslipStatus}
use go_pool.Store.Monad.{
  World, Result, ok, err, Error, M, after, or_raise, done, pure, ◌>>=◌, ◌>>◌, send_alert,
  missed_election, validator_state,
}
use go_pool.Store.Payslips.{insert_payslip, reward_exists_in}
use go_pool.Store.Epochs.{
  epoch_exists, insert_epoch, insert_staker, reward_exists, insert_reward, get_stakers_for_epoch,
}
use go_pool.Checkpoint.{
  share_of, total_stake, pay_stakers, reward_of, Inherent, reward_epoch, booked, fan_out, book,
  collect, handle_checkpoint,
}
use go_pool.Checkpoint
use go_pool.Election
use go_pool.Election.{
  return_error, Validator, election_status, upcoming, any_exists, insert_epochs, insert_stakers,
  insert_snapshots, record_missed, record_snapshot, record_validator, record_epochs,
  handle_election,
}
use go_pool.Daemon.{Answers, election_env, checkpoint_env, process_kind, process_height}

-- From one world to another, a batch stays booked and the cursor stays the same.
pub record Kept (b : ℕ) (w w' : World) : Type 0 where
  pub booked : reward_exists_in b w.tables ≡ true → reward_exists_in b w'.tables ≡ true
  pub cursor : w'.tables.cursor ≡ w.tables.cursor

abbrev pub Keeps {ℓ} : {A : Type ℓ} → ℕ → M A → Type 0
Keeps b m = (w : World) → Kept b w (m w).1

module _ (b : ℕ) where
  same : (w : World) → Kept b w w
  same w = record { booked = λ h. h; cursor = refl }

  both-Kept {ℓ κ} :
      {A : Type ℓ} {B : Type κ} (f : A → M B) (w : World) (r : Result A × World)
      → Kept b w r.1
      → ((a : A) → Keeps b (f a))
      → Kept b w (after f r).1
  both-Kept f w (err e, w') k next = k
  both-Kept f w (ok a, w') k next =
      let k' = next a w' in
      record { booked = λ h. k'.booked (k.booked h); cursor = k'.cursor ∙ k.cursor }

  -- A step and what follows it.
  both {ℓ κ} :
      {A : Type ℓ} {B : Type κ} (m : M A) (f : A → M B)
      → Keeps b m
      → ((a : A) → Keeps b (f a))
      → Keeps b (m >>= f)
  both m f k next w = both-Kept f w (m w) (k w) next

  when {ℓ} :
      {A : Type ℓ} (c : Bool) (m n : M A) → Keeps b m → Keeps b n → Keeps b (if c then m else n)
  when true m n km kn = km
  when false m n km kn = kn

  or_raise-Keeps {ℓ} : {A : Type ℓ} (o : Option A) (e : Error) → Keeps b (or_raise o e)
  or_raise-Keeps none e w = same w
  or_raise-Keeps (some a) e w = same w

  insert_payslip-Keeps : (n a x : ℕ) (s : PayslipStatus) → Keeps b (insert_payslip n a x s)
  unfolding insert_payslip
  insert_payslip-Keeps n a x s w = record { booked = λ h. ground arith; cursor = ground arith }

  insert_reward-Keeps : (r : Reward) → Keeps b (insert_reward r)
  unfolding insert_reward
  insert_reward-Keeps r w = record {
    booked =
        λ h. ground (arith, any_of-append (λ x. x.batch_number == b) w.tables.rewards (r ∷ []));
    cursor = ground arith;
  }

  insert_epoch-Keeps : (e : Epoch) → Keeps b (insert_epoch e)
  unfolding insert_epoch
  insert_epoch-Keeps e w = record { booked = λ h. ground arith; cursor = ground arith }

  insert_staker-Keeps : (s : Staker) → Keeps b (insert_staker s)
  unfolding insert_staker
  insert_staker-Keeps s w = record { booked = λ h. ground arith; cursor = ground arith }

  epoch_exists-Keeps : (n : ℕ) → Keeps b (epoch_exists n)
  unfolding epoch_exists
  epoch_exists-Keeps n w = record { booked = λ h. ground arith; cursor = ground arith }

  reward_exists-Keeps : (n : ℕ) → Keeps b (reward_exists n)
  unfolding reward_exists
  reward_exists-Keeps n w = record { booked = λ h. ground arith; cursor = ground arith }

  get_stakers-Keeps : (n : ℕ) → Keeps b (get_stakers_for_epoch n)
  unfolding get_stakers_for_epoch
  get_stakers-Keeps n w = record { booked = λ h. ground arith; cursor = ground arith }

  pay_stakers-Keeps : (n a total : ℕ) (ss : List Staker) → Keeps b (pay_stakers n a total ss)
  unfolding pay_stakers
  pay_stakers-Keeps n a total [] = same
  pay_stakers-Keeps n a total (s ∷ ss) =
      let rest = pay_stakers n a total ss in
      let share = share_of a s.stake total in
      let one = insert_payslip n s.address share PayslipStatus.pending in
      let rest-Keeps = pay_stakers-Keeps n a total ss in
      when (share == 0) rest (one >> rest) rest-Keeps (
        both one (λ _. rest) (insert_payslip-Keeps n s.address share PayslipStatus.pending)
          (λ _. rest-Keeps))

  fan_out-Keeps : (n reward a : ℕ) (ss : List Staker) → Keeps b (fan_out n reward a ss)
  unfolding fan_out
  fan_out-Keeps n reward a ss =
      let total = total_stake 0 ss in
      when (reward == 0 || length ss == 0 || total == 0) done (pay_stakers n a total ss) same
        (pay_stakers-Keeps n a total ss)

  collect-Keeps : (env : Checkpoint.Env) (height n : ℕ) → Keeps b (collect env height n)
  unfolding collect book
  collect-Keeps env height n =
      let get = get_stakers_for_epoch (reward_epoch env height) in
      let k = λ (ins : List Inherent) (ss : List Staker). book env height n ins ss in
      both (or_raise env.inherents Error.rpc) (λ ins. get >>= k ins)
        (or_raise-Keeps env.inherents Error.rpc)
        (λ ins. both get (k ins) (get_stakers-Keeps (reward_epoch env height)) (λ ss.
          let row = booked env height n ins ss in
          both (insert_reward row) (λ _. fan_out n (reward_of env.address 0 ins) row.amount ss)
            (insert_reward-Keeps row)
            (λ _. fan_out-Keeps n (reward_of env.address 0 ins) row.amount ss)))

  handle_checkpoint-Keeps :
      (env : Checkpoint.Env) (height : ℕ) → Keeps b (handle_checkpoint env height)
  unfolding handle_checkpoint
  handle_checkpoint-Keeps env height =
      let current = batch_at env.policy height in
      let gather = λ (found : Bool). if found then done else collect env height (current - 1) in
      when (current == 0) done (reward_exists (current - 1) >>= gather) same (
        both (reward_exists (current - 1)) gather (reward_exists-Keeps (current - 1)) (λ found.
          when found done (collect env height (current - 1)) same
            (collect-Keeps env height (current - 1))))

  insert_epochs-Keeps :
      (n balance : ℕ) (s : EpochStatus) (es : List ℕ) → Keeps b (insert_epochs n balance s es)
  unfolding insert_epochs
  insert_epochs-Keeps n balance s [] = same
  insert_epochs-Keeps n balance s (e ∷ es) =
      let row : Epoch = record { number = e; num_stakers = n; balance = balance; status = s } in
      both (insert_epoch row) (λ _. insert_epochs n balance s es) (insert_epoch-Keeps row)
        (λ _. insert_epochs-Keeps n balance s es)

  insert_stakers-Keeps : (e : ℕ) (ss : List (ℕ × ℕ)) → Keeps b (insert_stakers e ss)
  unfolding insert_stakers
  insert_stakers-Keeps e [] = same
  insert_stakers-Keeps e ((a, stake) ∷ ss) =
      let rest = insert_stakers e ss in
      let row : Staker = record { epoch_number = e; address = a; stake = stake } in
      let rest-Keeps = insert_stakers-Keeps e ss in
      when (stake == 0) rest (insert_staker row >> rest) rest-Keeps
        (both (insert_staker row) (λ _. rest) (insert_staker-Keeps row) (λ _. rest-Keeps))

  insert_snapshots-Keeps : (es : List ℕ) (ss : List (ℕ × ℕ)) → Keeps b (insert_snapshots es ss)
  unfolding insert_snapshots
  insert_snapshots-Keeps [] ss = same
  insert_snapshots-Keeps (e ∷ es) ss =
      both (insert_stakers e ss) (λ _. insert_snapshots es ss) (insert_stakers-Keeps e ss)
        (λ _. insert_snapshots-Keeps es ss)

  any_exists-Keeps : (es : List ℕ) → Keeps b (any_exists es)
  unfolding any_exists
  any_exists-Keeps [] = same
  any_exists-Keeps (e ∷ es) =
      let rest = any_exists es in
      let rest-Keeps = any_exists-Keeps es in
      both (epoch_exists e) (λ found. if found then pure true else rest) (epoch_exists-Keeps e)
        (λ found. when found (pure true) rest same rest-Keeps)

  record_missed-Keeps : (es : List ℕ) → Keeps b (record_missed es)
  unfolding record_missed
  record_missed-Keeps es w =
      let k = insert_epochs-Keeps 0 0 EpochStatus.not_elected es w in
      go (insert_epochs 0 0 EpochStatus.not_elected es w) k
    where
      go :
          (r : Result (Unit {0}) × World)
          → Kept b w r.1
          → Kept b w ((send_alert missed_election >> return_error r.0) r.1).1
      go (ok a, w') k = record { booked = k.booked; cursor = k.cursor }
      go (err e, w') k = record { booked = k.booked; cursor = k.cursor }

  record_validator-Keeps :
      (env : Election.Env) (es : List ℕ) (balance : ℕ) (s : Option EpochStatus)
      → Keeps b (record_validator env es balance s)
  unfolding record_validator record_snapshot
  record_validator-Keeps env es balance (some s) =
      both (insert_epochs 0 balance s es) (λ _. send_alert validator_state)
        (insert_epochs-Keeps 0 balance s es) (λ _ w. record { booked = λ h. h; cursor = refl })
  record_validator-Keeps env es balance none =
      both (or_raise env.stakers Error.rpc)
        (λ ss.
          insert_epochs (length ss) balance EpochStatus.in_progress es >> insert_snapshots es ss)
        (or_raise-Keeps env.stakers Error.rpc)
        (λ ss.
          both (insert_epochs (length ss) balance EpochStatus.in_progress es)
            (λ _. insert_snapshots es ss)
            (insert_epochs-Keeps (length ss) balance EpochStatus.in_progress es)
            (λ _. insert_snapshots-Keeps es ss))

  record_epochs-Keeps :
      (env : Election.Env) (height : ℕ) (es : List ℕ) (v : Option Validator)
      → Keeps b (record_epochs env height es v)
  unfolding record_epochs
  record_epochs-Keeps env height es none = record_missed-Keeps es
  record_epochs-Keeps env height es (some v) =
      record_validator-Keeps env es v.balance (election_status v height)

  handle_election-Keeps : (env : Election.Env) (height : ℕ) → Keeps b (handle_election env height)
  unfolding handle_election
  handle_election-Keeps env height =
      let es = upcoming env.policy height in
      let go_on = record_epochs env height es env.validator in
      both (any_exists es) (λ found. if found then done else go_on) (any_exists-Keeps es)
        (λ found. when found done go_on same (record_epochs-Keeps env height es env.validator))

  process_kind-Keeps :
      (a : Answers) (height : ℕ) (k : BlockKind) → Keeps b (process_kind a height k)
  unfolding process_kind
  process_kind-Keeps a height block_election =
      both (handle_election (election_env a height) height)
        (λ _. handle_checkpoint (checkpoint_env a height) height)
        (handle_election-Keeps (election_env a height) height)
        (λ _. handle_checkpoint-Keeps (checkpoint_env a height) height)
  process_kind-Keeps a height block_checkpoint =
      handle_checkpoint-Keeps (checkpoint_env a height) height
  process_kind-Keeps a height block_micro = same

  -- Handling a height, whatever comes of it.
  pub process_height-Keeps : (a : Answers) (height : ℕ) → Keeps b (process_height a height)
  unfolding process_height
  process_height-Keeps a height = process_kind-Keeps a height (classify a.policy height)
