-- ===== src/Checkpoint/Retry.antt =====
-- A height whose handler failed is handled again on the next tick: what `handleCheckpoint`
-- (internal/pool/checkpoint.go) does then, whichever statements the database refused.
use go_pool.Prelude.{
  ℕ, ◌-◌, ◌<◌, ◌≡◌, ◌==◌, refl, arith, List, [], ◌∷◌, ◌++◌, some, Bool, true, false, ◌||◌,
  if◌then◌else◌, length, any_of-append_last, ==_refl, ap,
}
use go_pool.Policy.{batch_at}
use go_pool.Store.{Staker, Reward, PayslipStatus, Tables}
use go_pool.Store.Monad.{World, ok, err, Error, ◌>>=◌, >>=-inv, or_raise, done, M}
use go_pool.Store.Payslips.{insert_payslip, reward_exists_in}
use go_pool.Store.Epochs.{reward_exists, insert_reward, get_stakers_for_epoch, epoch_exists_in}
use go_pool.Checkpoint.{
  share_of, total_stake, pay_stakers, reward_of, Inherent, Env, reward_epoch, booked, fan_out, book,
  collect, handle_checkpoint,
}
use go_pool.Checkpoint.Booking.{stakers_in}

-- Writing payslips leaves the rewards alone.
insert_payslip-rewards :
    (b a x : ℕ) (s : PayslipStatus) (w : World)
    → (insert_payslip b a x s w).1.tables.rewards ≡ w.tables.rewards
unfolding insert_payslip
insert_payslip-rewards b a x s w = ground arith

pay_stakers-rewards :
    (b a total : ℕ) (ss : List Staker) (w : World)
    → (pay_stakers b a total ss w).1.tables.rewards ≡ w.tables.rewards
unfolding pay_stakers
pay_stakers-rewards b a total [] w = refl
pay_stakers-rewards b a total (s ∷ ss) w =
    let x = share_of a s.stake total in
    let paid = insert_payslip b s.address x PayslipStatus.pending w in
    ground (
      arith,
      pay_stakers-rewards b a total ss w,
      pay_stakers-rewards b a total ss paid.1,
      insert_payslip-rewards b s.address x PayslipStatus.pending w,
    )

-- A booked batch is not touched again, whatever the database and the chain answer.
pub handle_checkpoint-booked :
    (env : Env) (height : ℕ) (w : World)
    → reward_exists_in (batch_at env.policy height - 1) w.tables ≡ true
    → (handle_checkpoint env height w).1.tables ≡ w.tables
unfolding handle_checkpoint reward_exists
handle_checkpoint-booked env height w h = ground arith

insert_reward-booked :
    (r : Reward) (w : World) (w' : World)
    → insert_reward r w ≡ (ok tt, w')
    → reward_exists_in r.batch_number w'.tables ≡ true
unfolding insert_reward
insert_reward-booked r w w' h = grind (
  arith,
  any_of-append_last (λ x. x.batch_number == r.batch_number) w.tables.rewards r
      (==_refl r.batch_number),
)

fan_out-rewards :
    (b reward a : ℕ) (ss : List Staker) (w : World)
    → (fan_out b reward a ss w).1.tables.rewards ≡ w.tables.rewards
unfolding fan_out
fan_out-rewards b reward a ss w = ground (arith, pay_stakers-rewards b a (total_stake 0 ss) ss w)

book-booked :
    (env : Env) (height batch : ℕ) (ins : List Inherent) (ss : List Staker) (w : World)
    → (book env height batch ins ss w).0 ≡ ok tt
    → reward_exists_in batch (book env height batch ins ss w).1.tables ≡ true
unfolding book
book-booked env height batch ins ss w h =
    let row = booked env height batch ins ss in
    let reward = reward_of env.address 0 ins in
    let (_, w', e, c) = >>=-inv (insert_reward row) (λ _. fan_out batch reward row.amount ss) w h in
    rw c (rw (fan_out-rewards batch reward row.amount ss w') (insert_reward-booked row w w' e))

-- A run that collected a reward has booked it.
collect-booked :
    (env : Env) (height batch : ℕ) (w : World)
    → (collect env height batch w).0 ≡ ok tt
    → reward_exists_in batch (collect env height batch w).1.tables ≡ true
unfolding collect
collect-booked env height batch w h =
    let k = λ (ins : List Inherent) (ss : List Staker). book env height batch ins ss in
    let get = get_stakers_for_epoch (reward_epoch env height) in
    let (ins, w1, e1, c1) = >>=-inv (or_raise env.inherents Error.rpc) (λ ins. get >>= k ins) w h in
    let (ss, w2, e2, c2) = >>=-inv get (k ins) w1 (rw c1 at h) in
    rw c1 (rw c2 (book-booked env height batch ins ss w2 (rw c2 at (rw c1 at h))))

pub reward_exists-inv :
    (b : ℕ) (w w' : World) (found : Bool)
    → reward_exists b w ≡ (ok found, w')
    → (w'.tables ≡ w.tables) × (reward_exists_in b w.tables ≡ found)
unfolding reward_exists
reward_exists-inv b w w' found h = (ground arith, ground arith)

abbrev pub unless_booked : Env → ℕ → ℕ → Bool → M (Unit {0})
unless_booked env height batch found = if found then done else collect env height batch

unless_booked-booked :
    (env : Env) (height batch : ℕ) (w w' : World) (found : Bool)
    → reward_exists batch w ≡ (ok found, w')
    → (unless_booked env height batch found w').0 ≡ ok tt
    → reward_exists_in batch (unless_booked env height batch found w').1.tables ≡ true
unless_booked-booked env height batch w w' true e h =
    let f = reward_exists-inv batch w w' true e in rw f.0 f.1
unless_booked-booked env height batch w w' false e h = collect-booked env height batch w' h

pub handled-booked :
    (env : Env) (height : ℕ) (w : World)
    → 0 < batch_at env.policy height
    → (handle_checkpoint env height w).0 ≡ ok tt
    → reward_exists_in (batch_at env.policy height - 1) (handle_checkpoint env height w).1.tables
      ≡ true
unfolding handle_checkpoint
handled-booked env height w pos h =
    let b = batch_at env.policy height - 1 in
    let behind : (batch_at env.policy height == 0) ≡ false = ground arith in
    let (found, w', e, c) =
      >>=-inv (reward_exists b) (unless_booked env height b) w (rw behind at h) in
    rw behind (rw c (unless_booked-booked env height b w w' found e (rw c at (rw behind at h))))

-- Once the handler has returned without an error at a height behind the first batch, it changes
-- nothing any more, whatever the database and the chain answer later.
pub handle_checkpoint-once :
    (env later : Env) (height : ℕ) (w : World) (io : List Bool)
    → later.policy ≡ env.policy
    → 0 < batch_at env.policy height
    → (handle_checkpoint env height w).0 ≡ ok tt
    → let t = (handle_checkpoint env height w).1.tables in
      (reward_exists_in (batch_at env.policy height - 1) t ≡ true)
      × ((handle_checkpoint later height (record w { tables = t; io = io })).1.tables ≡ t)
handle_checkpoint-once env later height w io same pos h =
    let b = handled-booked env height w pos h in
    let w' = record w { tables = (handle_checkpoint env height w).1.tables; io = io } in
    (b, handle_checkpoint-booked later height w' (rw same b))

-- A database that takes three statements and refuses the fourth.
abbrev pub failing : World → Tables → World
failing w t = record w { tables = t; io = false ∷ false ∷ false ∷ true ∷ [] }

-- The tables with the reward of the closed batch booked, and nothing else.
abbrev pub with_reward : Env → ℕ → Tables → List Inherent → List Staker → Tables
with_reward env height t ins ss = record t {
  rewards = t.rewards ++ booked env height (batch_at env.policy height - 1) ins ss ∷ [];
}

module _ (env : Env) (height : ℕ) (w : World) (t : Tables) (ins : List Inherent) (s : Staker)
    (ss : List Staker) (answered : env.inherents ≡ some ins) (pos : 0 < batch_at env.policy height)
    (new : reward_exists_in (batch_at env.policy height - 1) t ≡ false)
    (known : epoch_exists_in (reward_epoch env height) t ≡ true)
    (first : stakers_in env height t ≡ s ∷ ss) (earned : 0 < reward_of env.address 0 ins)
    (staked : 0 < total_stake 0 (s ∷ ss))
    (due : 0
      < share_of
          (booked env height (batch_at env.policy height - 1) ins (s ∷ ss)).amount
          s.stake
          (total_stake 0 (s ∷ ss))) where
  fan_out_refused :
      (b reward a : ℕ) (w' : World)
      → 0 < reward
      → 0 < share_of a s.stake (total_stake 0 (s ∷ ss))
      → fan_out b reward a (s ∷ ss) (record w' { io = true ∷ [] })
        ≡ (err Error.sql, record w' { io = [] })
  unfolding fan_out pay_stakers insert_payslip
  fan_out_refused b reward a w' r d =
      let total = total_stake 0 (s ∷ ss) in
      let go_on : (reward == 0 || length (s ∷ ss) == 0 || total == 0) ≡ false = ground arith in
      let owing : (share_of a s.stake total == 0) ≡ false = ground arith in rw go_on (rw owing)

  failing_run :
      handle_checkpoint env height (failing w t)
      ≡ (err Error.sql, record w { tables = (with_reward env height t ins (s ∷ ss)); io = [] })
  unfolding handle_checkpoint reward_exists insert_reward get_stakers_for_epoch
  failing_run =
      let behind : (batch_at env.policy height == 0) ≡ false = ground arith in
      let b = batch_at env.policy height - 1 in
      let reward = reward_of env.address 0 ins in
      let a = (booked env height b ins (s ∷ ss)).amount in
      rw behind (
        rw new (
          rw answered (
            rw first (
              rw new (
                rw known (
                  rw first (
                    fan_out_refused b reward a
                      (record w { tables = (with_reward env height t ins (s ∷ ss)) }) earned
                      due)))))))

  reward_stays :
      reward_exists_in (batch_at env.policy height - 1) (with_reward env height t ins (s ∷ ss))
      ≡ true
  reward_stays =
      let b = batch_at env.policy height - 1 in
      any_of-append_last (λ r. r.batch_number == b) t.rewards (booked env height b ins (s ∷ ss))
        (==_refl b)

  -- The handler writes without a transaction. Let the reward of a batch be new, with a positive
  -- reward and stake and a share for the first staker, and let the database refuse the first
  -- payslip only: the run fails, with the reward booked and no payslip written; and a later run at
  -- that height, whatever the database and the chain answer, writes no payslip either. The daemon
  -- retries the height, and the stakers' part of the reward is lost.
  pub failed_payslip_never_retried :
      (later : Env) (io : List Bool)
      → later.policy ≡ env.policy
      → let (r, w') = handle_checkpoint env height (failing w t) in
        let again = handle_checkpoint later height (record w' { io = io }) in
        (r ≡ err Error.sql)
        × (w'.tables ≡ (with_reward env height t ins (s ∷ ss)))
        × (w'.tables.payslips ≡ t.payslips)
        × (again.1.tables.payslips ≡ t.payslips)
  failed_payslip_never_retried later io same =
      let w' = record w { tables = (with_reward env height t ins (s ∷ ss)); io = io } in
      let stays = handle_checkpoint-booked later height w' (rw same reward_stays) in
      rw failing_run (refl, refl, refl, ap (λ (x : Tables). x.payslips) stays)
