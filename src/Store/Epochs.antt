-- ===== src/Store/Epochs.antt =====
-- The statements on the tables of epochs, stakers, rewards and the cursor
-- (internal/db/queries.sql.go).
use go_pool.Prelude.{
  ℕ, List, [], ◌∷◌, ◌++◌, map, Option, none, some, Bool, not, ◌&&◌, ◌||◌, ◌==◌, if◌then◌else◌,
  any_of, keep,
}
use go_pool.Store.{
  EpochStatus, Epoch, Staker, Reward, Payslip, Tables, is_completed, is_in_progress,
}
use go_pool.Store.Monad.{M, stmt, query, exec}
use go_pool.Store.Payslips.{update_where, reward_exists_in}

abbrev pub epoch_exists_in : ℕ → Tables → Bool
epoch_exists_in n t = any_of (λ e. e.number == n) t.epochs

unfoldable pub epoch_exists : ℕ → M Bool
unfolding query
epoch_exists n = query (epoch_exists_in n)

-- `InsertEpoch`, refused by the primary key if the number is taken.
unfoldable pub insert_epoch : Epoch → M (Unit {0})
unfolding stmt
insert_epoch e = stmt λ t.
    if epoch_exists_in e.number t then none else some (tt, record t { epochs = t.epochs ++ e ∷ [] })

abbrev pub staker_exists_in : Staker → Tables → Bool
staker_exists_in s t =
    any_of (λ r. r.epoch_number == s.epoch_number && r.address == s.address) t.stakers

-- `InsertStaker`, with its primary key and its foreign key.
unfoldable pub insert_staker : Staker → M (Unit {0})
unfolding stmt
insert_staker s = stmt λ t.
    if staker_exists_in s t || not (epoch_exists_in s.epoch_number t)
    then none
    else some (tt, record t { stakers = t.stakers ++ s ∷ [] })

unfoldable pub get_stakers_for_epoch : ℕ → M (List Staker)
unfolding query
get_stakers_for_epoch n = query λ t. keep (λ s. s.epoch_number == n) t.stakers

unfoldable pub reward_exists : ℕ → M Bool
unfolding query
reward_exists b = query (reward_exists_in b)

-- `InsertReward`, with its primary key and its foreign key.
unfoldable pub insert_reward : Reward → M (Unit {0})
unfolding stmt
insert_reward r = stmt λ t.
    if reward_exists_in r.batch_number t || not (epoch_exists_in r.epoch_number t)
    then none
    else some (tt, record t { rewards = t.rewards ++ r ∷ [] })

-- The payslips of the batches that are booked under an epoch.
abbrev pub is_slip_of : ℕ → Tables → Payslip → Bool
is_slip_of n t s = any_of (λ r. r.batch_number == s.batch_number && r.epoch_number == n) t.rewards

-- An epoch in progress that has payslips, all of them completed.
abbrev pub is_settled : Tables → Epoch → Bool
is_settled t e =
    is_in_progress e.status
    && any_of (is_slip_of e.number t) t.payslips
    && not (any_of (λ s. is_slip_of e.number t s && not (is_completed s.status)) t.payslips)

-- `FinalizeCompletedEpochs`.
unfoldable pub finalize_completed_epochs : M (List ℕ)
unfolding stmt
finalize_completed_epochs = stmt λ t. some (
  map (λ e. e.number) (keep (is_settled t) t.epochs),
  record t {
    epochs =
        update_where (is_settled t) (λ e. record e { status = EpochStatus.completed }) t.epochs;
  },
)

unfoldable pub get_cursor : M (Option ℕ)
unfolding query
get_cursor = query λ t. t.cursor

-- `UpsertCursor`; the daemon keeps one cursor.
unfoldable pub upsert_cursor : ℕ → M (Unit {0})
unfolding exec
upsert_cursor h = exec λ t. record t { cursor = some h }
