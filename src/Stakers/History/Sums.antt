-- ===== src/Stakers/History/Sums.antt =====
-- The history of a staker adds up (`stakerHistory` of internal/api/staker_handlers.go).
use go_pool.Prelude.{
  ℕ, ◌+◌, ◌<◌, ◌≡◌, refl, sym, ap, ◌∙◌, arith, List, [], ◌∷◌, map, Option, none, some, Bool, true,
  false, ◌==◌, any_of, if◌then◌else◌, All, sum_of, add64, u64_mod,
}
use go_pool.Store.{Tables, Staker}
use go_pool.Store.Monad.{M, World, ok, query, ◌>>=◌, pure, >>=-inv}
use go_pool.Store.Statements.{ok-value, plain_stmt-ok}
use go_pool.Stakers.{PayslipRow, staker_exists, epochs_of, get_staker_epochs, payslips_of}
use go_pool.Stakers.History.{
  add_reward, by_epoch, get_staker_rewards_by_epoch, reward_in, cumulative_of, history_epoch,
  history_of, found_history, staker_history, StakerHistory,
}

-- How many of the rows are of an epoch.
abbrev rows_in : ℕ → List Staker → ℕ
rows_in e [] = 0
rows_in e (s ∷ ss) = (if s.epoch_number == e then 1 else 0) + rows_in e ss

abbrev shown_sum : List Staker → List (ℕ × ℕ) → ℕ
shown_sum stakers rewards = sum_of (λ s. reward_in s.epoch_number rewards) stakers

reward_in-add :
    (e k n : ℕ) (g : List (ℕ × ℕ))
    → reward_in e (add_reward k n g) ≡ (if k == e then n + reward_in e g else reward_in e g)
reward_in-add e k n [] = ground arith
reward_in-add e k n ((j, m) ∷ g) = ground (arith, reward_in-add e k n g)

shown_sum-add :
    (k n : ℕ) (g : List (ℕ × ℕ)) (stakers : List Staker)
    → rows_in k stakers ≡ 0
    → shown_sum stakers (add_reward k n g) ≡ shown_sum stakers g
shown_sum-add k n g [] absent = refl
shown_sum-add k n g (s ∷ ss) absent =
    ground (arith, reward_in-add s.epoch_number k n g, shown_sum-add k n g ss)

shown_sum-once :
    (k n : ℕ) (g : List (ℕ × ℕ)) (stakers : List Staker)
    → rows_in k stakers ≡ 1
    → shown_sum stakers (add_reward k n g) ≡ n + shown_sum stakers g
shown_sum-once k n g [] once = absurd (omega arith)
shown_sum-once k n g (s ∷ ss) once =
    ground
      (arith, reward_in-add s.epoch_number k n g, shown_sum-add k n g ss, shown_sum-once k n g ss)

shown_sum-empty : (stakers : List Staker) → shown_sum stakers [] ≡ 0
shown_sum-empty [] = refl
shown_sum-empty (s ∷ ss) = omega (arith, shown_sum-empty ss)

-- The epochs that are shown have the amounts of all the rows.
shown_sum-rows :
    (stakers : List Staker) (rows : List PayslipRow)
    → All (λ r. rows_in r.epoch_number stakers ≡ 1) rows
    → shown_sum stakers (by_epoch rows) ≡ sum_of (λ r. r.amount) rows
shown_sum-rows stakers [] all = shown_sum-empty stakers
shown_sum-rows stakers (r ∷ rs) all = omega (
  arith,
  shown_sum-once r.epoch_number r.amount (by_epoch rs) stakers all.0,
  shown_sum-rows stakers rs all.1,
)

epochs-sum :
    (rewards : List (ℕ × ℕ)) (stakers : List Staker)
    → sum_of (λ e. e.reward) (map (history_epoch rewards) stakers) ≡ shown_sum stakers rewards
epochs-sum rewards [] = refl
epochs-sum rewards (s ∷ ss) = omega (arith, epochs-sum rewards ss)

groups_sum : List (ℕ × ℕ) → ℕ
groups_sum g = sum_of (λ x. x.1) g

groups_sum-add : (e n : ℕ) (g : List (ℕ × ℕ)) → groups_sum (add_reward e n g) ≡ n + groups_sum g
unfolding groups_sum
groups_sum-add e n [] = refl
groups_sum-add e n ((k, m) ∷ g) = ground (arith, groups_sum-add e n g)

groups_sum-rows :
    (rows : List PayslipRow) → groups_sum (by_epoch rows) ≡ sum_of (λ r. r.amount) rows
unfolding groups_sum
groups_sum-rows [] = refl
groups_sum-rows (r ∷ rs) =
    omega (arith, groups_sum-add r.epoch_number r.amount (by_epoch rs), groups_sum-rows rs)

cumulative-sum :
    (acc : ℕ) (g : List (ℕ × ℕ))
    → acc + groups_sum g < u64_mod
    → cumulative_of acc g ≡ acc + groups_sum g
unfolding groups_sum
cumulative-sum acc [] fits = omega arith
cumulative-sum acc ((k, m) ∷ g) fits =
    let added : add64 acc m ≡ acc + m = ground arith in
    ap (λ s. cumulative_of s g) added ∙ cumulative-sum (acc + m) g (omega arith) ∙ omega arith

-- A query that is answered has read the tables.
query-inv {ℓ} :
    {A : Type ℓ} (f : Tables → A) (w w' : World) (a : A)
    → query f w ≡ (ok a, w')
    → (f w.tables ≡ a) × (w'.tables ≡ w.tables)
unfolding query
query-inv f w w' a h =
    let (value, tables) = plain_stmt-ok f (λ t. t) w w' a h in (value, sym tables)

existing-inv :
    (a : ℕ) (exists : Bool) (w w' : World) (h : StakerHistory)
    → (if exists then found_history a else pure none) w ≡ (ok (some h), w')
    → found_history a w ≡ (ok (some h), w')
existing-inv a true w w' h found = found
existing-inv a false w w' h found =
    let impossible : none ≡ some h = ok-value none (some h) (ap (λ x. x.0) found) in cc (impossible)

-- A history that is found is made of the rows of the tables.
found_history-inv :
    (a : ℕ) (w w' : World) (h : StakerHistory)
    → found_history a w ≡ (ok (some h), w')
    → h ≡ history_of (epochs_of a w.tables) (by_epoch (payslips_of a w.tables))
unfolding get_staker_epochs get_staker_rewards_by_epoch
found_history-inv a w w' h found =
    let answer : List Staker → M (Option StakerHistory) = λ stakers.
      get_staker_rewards_by_epoch a >>= λ rewards. pure (some (history_of stakers rewards)) in
    let (stakers, w1, first, next) = >>=-inv (get_staker_epochs a) answer w (ap (λ x. x.0) found) in
    let (rows, same1) = query-inv (epochs_of a) w w1 stakers first in
    let (rewards, w2, second, last) =
      >>=-inv (get_staker_rewards_by_epoch a) (λ rewards. pure (some (history_of stakers rewards)))
        w1 (ap (λ x. x.0) (sym next ∙ found)) in
    let (groups, same2) = query-inv (λ t. by_epoch (payslips_of a t)) w1 w2 rewards second in
    let ended : some (history_of stakers rewards) ≡ some h =
      ok-value _ _ (ap (λ x. x.0) (sym last ∙ sym next ∙ found)) in
    let is : history_of stakers rewards ≡ h = cc (ended) in
    sym is
    ∙ (λ i. history_of (sym rows i) (sym groups i))
    ∙ ap (λ t. history_of (epochs_of a w.tables) (by_epoch (payslips_of a t))) same1

history-sums :
    (stakers : List Staker) (rows : List PayslipRow) (h : StakerHistory)
    → h ≡ history_of stakers (by_epoch rows)
    → All (λ r. rows_in r.epoch_number stakers ≡ 1) rows
    → sum_of (λ r. r.amount) rows < u64_mod
    → (h.cumulative ≡ sum_of (λ r. r.amount) rows)
      × (sum_of (λ e. e.reward) h.epochs ≡ h.cumulative)
history-sums stakers rows h is covered fits =
    let groups = groups_sum-rows rows in
    let total = cumulative-sum 0 (by_epoch rows) (omega (arith, groups, fits)) in
    let cumulative : h.cumulative ≡ sum_of (λ r. r.amount) rows =
      ap (λ x. x.cumulative) is ∙ total ∙ omega (arith, groups) in
    let shown : sum_of (λ e. e.reward) h.epochs ≡ sum_of (λ r. r.amount) rows =
      ap (λ x. sum_of (λ e. e.reward) x.epochs) is
      ∙ epochs-sum (by_epoch rows) stakers
      ∙ shown_sum-rows stakers rows covered in
    (cumulative, shown ∙ sym cumulative)

-- Let the history of a staker be found, let each payslip be in an epoch for which the staker has one
-- row, and let the amounts of the payslips add up to less than 2 ^ 64. Then the cumulative reward is
-- their sum, and so is the sum of the rewards of the epochs that are listed.
staker_history-sums :
    (a : ℕ) (w w' : World) (h : StakerHistory)
    → staker_history a w ≡ (ok (some h), w')
    → All (λ r. rows_in r.epoch_number (epochs_of a w.tables) ≡ 1) (payslips_of a w.tables)
    → sum_of (λ r. r.amount) (payslips_of a w.tables) < u64_mod
    → (h.cumulative ≡ sum_of (λ r. r.amount) (payslips_of a w.tables))
      × (sum_of (λ e. e.reward) h.epochs ≡ h.cumulative)
unfolding staker_history staker_exists get_staker_epochs get_staker_rewards_by_epoch
staker_history-sums a w w' h found covered fits =
    let (exists, w1, asked, next) =
      >>=-inv (staker_exists a) (λ b. if b then found_history a else pure none) w
        (ap (λ x. x.0) found) in
    let (_, same1) = query-inv (λ t. any_of (λ s. s.address == a) t.stakers) w w1 exists asked in
    let inner = existing-inv a exists w1 w' h (sym next ∙ found) in
    let is_history = ap (λ t. history_of (epochs_of a t) (by_epoch (payslips_of a t))) same1 in
    history-sums (epochs_of a w.tables) (payslips_of a w.tables) h
      (found_history-inv a w1 w' h inner ∙ is_history) covered fits
