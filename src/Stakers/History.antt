-- ===== src/Stakers/History.antt =====
-- The rewards of a staker, epoch by epoch (`stakerHistory` of internal/api/staker_handlers.go).
pub mod Sums
use go_pool.Prelude.{
  ℕ, ◌+◌, ◌<◌, ◌≡◌, refl, sym, ap, ◌∙◌, arith, inl, inr, List, [], ◌∷◌, map, Option, none, some,
  Bool, true, false, ◌==◌, any_of, if◌then◌else◌, All, sum_of, add64, u64_mod,
}
use go_pool.Store.{Tables, Staker}
use go_pool.Store.Monad.{M, World, ok, err, query, ◌>>=◌, pure, >>=-inv}
use go_pool.Store.Statements.{stmt-cases, wrote}
use go_pool.Stakers.{PayslipRow, staker_exists, epochs_of, get_staker_epochs, payslips_of}

-- `SUM … GROUP BY r.epoch_number`.
abbrev pub add_reward : ℕ → ℕ → List (ℕ × ℕ) → List (ℕ × ℕ)
add_reward e n [] = (e, n) ∷ []
add_reward e n ((k, m) ∷ g) =
    let rest = add_reward e n g in if k == e then (k, n + m) ∷ g else (k, m) ∷ rest

abbrev pub by_epoch : List PayslipRow → List (ℕ × ℕ)
by_epoch [] = []
by_epoch (r ∷ rs) = add_reward r.epoch_number r.amount (by_epoch rs)

-- `GetStakerRewardsByEpoch`, in no particular order here.
unfoldable pub get_staker_rewards_by_epoch : ℕ → M (List (ℕ × ℕ))
unfolding query
get_staker_rewards_by_epoch a = query λ t. by_epoch (payslips_of a t)

-- `rewardsMap[epoch]`: 0 for a key that is missing.
abbrev pub reward_in : ℕ → List (ℕ × ℕ) → ℕ
reward_in e [] = 0
reward_in e ((k, m) ∷ g) = let rest = reward_in e g in if k == e then m else rest

-- `cumulative += r.Reward`, an int64, as its residue modulo 2 ^ 64.
abbrev pub cumulative_of : ℕ → List (ℕ × ℕ) → ℕ
cumulative_of acc [] = acc
cumulative_of acc ((k, m) ∷ g) = cumulative_of (add64 acc m) g

pub record HistoryEpoch : Type 0 where
  pub epoch_number : ℕ
  pub stake : ℕ
  pub reward : ℕ

pub record StakerHistory : Type 0 where
  pub epochs : List HistoryEpoch
  pub cumulative : ℕ

abbrev pub history_epoch : List (ℕ × ℕ) → Staker → HistoryEpoch
history_epoch rewards s = record {
  epoch_number = s.epoch_number;
  stake = s.stake;
  reward = reward_in s.epoch_number rewards;
}

abbrev pub history_of : List Staker → List (ℕ × ℕ) → StakerHistory
history_of stakers rewards = record {
  epochs = map (history_epoch rewards) stakers;
  cumulative = cumulative_of 0 rewards;
}

abbrev pub found_history : ℕ → M (Option StakerHistory)
found_history a = get_staker_epochs a >>= λ stakers.
    get_staker_rewards_by_epoch a >>= λ rewards. pure (some (history_of stakers rewards))

-- `stakerHistory`; `none` is `errStakerNotFound`.
unfoldable pub staker_history : ℕ → M (Option StakerHistory)
unfolding staker_exists get_staker_epochs get_staker_rewards_by_epoch
staker_history a = staker_exists a >>= λ exists. if exists then found_history a else pure none
