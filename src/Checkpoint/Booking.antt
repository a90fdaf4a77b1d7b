-- ===== src/Checkpoint/Booking.antt =====
-- What `handleCheckpoint` (internal/pool/checkpoint.go) writes when the database takes every
-- statement.
use mathlib.Core.List.{append_assoc, append-nil}
use go_pool.Prelude.{
  ℕ, ◌-◌, ◌<◌, ◌≡◌, ◌⊎◌, ◌%◌, ◌==◌, ◌∙◌, refl, inl, inr, arith, List, [], ◌∷◌, ◌++◌, some, true,
  false, ◌||◌, length, keep, any_of-append_last, Bool-cases, ==_refl,
}
use go_pool.Policy.{batch_at}
use go_pool.Store.{Staker, Reward, PayslipStatus, Tables}
use go_pool.Store.Statements.{calm}
use go_pool.Store.Monad.{World, ok, >>=-ok}
use go_pool.Store.Payslips.{insert_payslip, reward_exists_in}
use go_pool.Store.Epochs.{reward_exists, insert_reward, get_stakers_for_epoch, epoch_exists_in}
use go_pool.Checkpoint.{
  reward_of, total_stake, share_of, pay_stakers, Inherent, Env, reward_epoch, booked, fan_out,
  collect, handle_checkpoint,
}
use go_pool.Checkpoint.Slips.{
  slip, slips_of, slips_due, nothing_paid, something_paid, AddsUp, AddsUp-cases,
}
use go_pool.Checkpoint.Shares.{stakes, Overflows, total_stake-mod}

insert_payslip-calm :
    (b a x : ℕ) (w : World) (t : Tables)
    → reward_exists_in b t ≡ true
    → insert_payslip b a x PayslipStatus.pending (calm w t)
      ≡ (ok tt, calm w (record t { payslips = t.payslips ++ slip b a x ∷ [] }))
unfolding insert_payslip
insert_payslip-calm b a x w t h = rw h

pay_stakers-pays :
    (b a total : ℕ) (ss : List Staker) (w : World) (t : Tables)
    → reward_exists_in b t ≡ true
    → pay_stakers b a total ss (calm w t)
      ≡ (ok tt, calm w (record t { payslips = t.payslips ++ slips_of b a total ss }))
unfolding pay_stakers
pay_stakers-pays b a total [] w t h = rw append-nil
pay_stakers-pays b a total (s ∷ ss) w t h = elim (Bool-cases (share_of a s.stake total == 0)) [
  | inl nothing ↦ rw nothing (pay_stakers-pays b a total ss w t h)
  | inr some_luna ↦
      let x = share_of a s.stake total in
      let t' = record t { payslips = t.payslips ++ slip b s.address x ∷ [] } in
      let one = insert_payslip b s.address x PayslipStatus.pending in
      rw some_luna (
        >>=-ok one (λ _. pay_stakers b a total ss) (calm w t)
          (insert_payslip-calm b s.address x w t h)
        ∙ pay_stakers-pays b a total ss w t' h
        ∙ rw append_assoc)
]

fan_out-pays :
    (b reward a : ℕ) (ss : List Staker) (w : World) (t : Tables)
    → reward_exists_in b t ≡ true
    → fan_out b reward a ss (calm w t)
      ≡ (ok tt, calm w (record t { payslips = t.payslips ++ slips_due b reward a ss }))
unfolding fan_out
fan_out-pays b reward a ss w t h =
    let total = stakes ss % 18446744073709551616 in
    let e : total_stake 0 ss ≡ total = total_stake-mod 0 ss (omega arith) ∙ omega arith in
    elim (Bool-cases (reward == 0 || total == 0)) [
      | inl nothing ↦
          rw e
            (rw (nothing_paid reward total (length ss) nothing) (rw nothing (rw append-nil refl)))
      | inr pays ↦
          rw e (rw (something_paid reward ss pays) (rw pays (pay_stakers-pays b a total ss w t h)))
    ]

-- The stakers of the epoch that the reward is booked under.
abbrev pub stakers_in : Env → ℕ → Tables → List Staker
stakers_in env height t = keep (λ s. s.epoch_number == reward_epoch env height) t.stakers

-- The number of the batch that has closed, and its row.
abbrev pub row_number : Env → ℕ → ℕ
row_number env height = batch_at env.policy height - 1

abbrev pub row : Env → ℕ → Tables → List Inherent → Reward
row env height t ins = booked env height (row_number env height) ins (stakers_in env height t)

module _ (env : Env) (height : ℕ) (w : World) (t : Tables) (ins : List Inherent)
    (answered : env.inherents ≡ some ins)
    (new : reward_exists_in (batch_at env.policy height - 1) t ≡ false)
    (known : epoch_exists_in (reward_epoch env height) t ≡ true) where
  insert_reward-calm :
      insert_reward (row env height t ins) (calm w t)
      ≡ (ok tt, calm w (record t { rewards = t.rewards ++ (row env height t ins) ∷ [] }))
  unfolding insert_reward
  insert_reward-calm = rw new (rw known)

  collect-books :
      collect env height (batch_at env.policy height - 1) (calm w t)
      ≡ fan_out
          (batch_at env.policy height - 1)
          (reward_of env.address 0 ins)
          (row env height t ins).amount
          (stakers_in env height t)
          (calm w (record t { rewards = t.rewards ++ (row env height t ins) ∷ [] }))
  unfolding collect get_stakers_for_epoch
  collect-books = rw answered (
      >>=-ok (insert_reward (row env height t ins))
        (λ _.
          fan_out (batch_at env.policy height - 1) (reward_of env.address 0 ins)
            (row env height t ins).amount (stakers_in env height t))
        (calm w t) insert_reward-calm)

  handle-collects :
      0 < batch_at env.policy height
      → handle_checkpoint env height (calm w t)
        ≡ collect env height (batch_at env.policy height - 1) (calm w t)
  unfolding handle_checkpoint reward_exists
  handle-collects pos =
      let later : (batch_at env.policy height == 0) ≡ false = ground arith in rw later (rw new)

  reward_booked :
      reward_exists_in
        (row_number env height)
        (record t { rewards = t.rewards ++ (row env height t ins) ∷ [] })
      ≡ true
  reward_booked =
      any_of-append_last (λ r. r.batch_number == (row_number env height)) t.rewards
        (row env height t ins) (==_refl (row_number env height))

  -- At the end of a batch k > 0 whose predecessor has no reward yet and whose epoch is known, with
  -- an answer of the RPC client and a database that takes every statement, whatever the reward and
  -- the stakes are: the handler succeeds; it adds one reward row and, if there are a reward and a
  -- total stake, as a uint64, one pending payslip for each staker of the epoch whose share is not 0,
  -- and changes nothing else. Unless there is no reward or no stake, or a uint64 sum or product of
  -- the loop wraps, the payslips add up to at most the amount of the row, and fall short of it by
  -- less than one luna for each staker.
  pub handle_checkpoint-pays :
      0 < batch_at env.policy height
      → let ss = stakers_in env height t in
        let reward = reward_of env.address 0 ins in
        let amount = (row env height t ins).amount in
        let slips = slips_due (row_number env height) reward amount ss in
        (handle_checkpoint env height (calm w t) ≡ (
          ok tt,
          calm w (record t {
            rewards = t.rewards ++ (row env height t ins) ∷ [];
            payslips = t.payslips ++ slips;
          }),
        ))
        × ((reward ≡ 0) ⊎ (stakes ss ≡ 0) ⊎ Overflows amount ss ⊎ AddsUp amount ss slips)
  handle_checkpoint-pays pos =
      let ss = stakers_in env height t in
      let t' = record t { rewards = t.rewards ++ (row env height t ins) ∷ [] } in
      let reward = reward_of env.address 0 ins in
      let amount = (row env height t ins).amount in
      (
        handle-collects pos
            ∙ collect-books
            ∙ fan_out-pays (row_number env height) reward amount ss w t' reward_booked,
        AddsUp-cases (row_number env height) reward amount ss,
      )
