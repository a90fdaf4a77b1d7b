-- ===== src/Checkpoint/Split.antt =====
-- `splitReward` of internal/pool/checkpoint.go keeps every luna, and takes the fee rounded down.
use go_pool.Prelude.{ℕ, ◌+◌, ◌*◌, ◌≤◌, ◌<◌, ◌≡◌, arith}
use go_pool.Checkpoint.{split_reward}

-- For a fee of at most 10000 basis points, and as long as the product with the reward fits a
-- uint64: the two parts make up the reward, and the fee is the largest number whose 10000-fold does
-- not pass the product.
pub split_reward-conserves :
    (reward basis_points : ℕ)
    → basis_points ≤ 10000
    → reward * basis_points < 18446744073709551616
    → reward < 18446744073709551616
    → let (rest, fee) = split_reward reward basis_points in
      (rest + fee ≡ reward)
      × (fee * 10000 ≤ reward * basis_points)
      × (reward * basis_points < fee * 10000 + 10000)
unfolding split_reward
split_reward-conserves reward basis_points small fits fits' =
    let below : reward * basis_points ≤ reward * 10000 = grind arith in
    (omega arith, omega arith, omega arith)
