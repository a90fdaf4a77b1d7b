-- ===== src/Stakers/Tests.antt =====
-- A staker with two payslips of one epoch.
use go_pool.Prelude.{ℕ, ◌≡◌, refl, [], ◌∷◌, none, some, true, false, if◌then◌else◌}
use go_pool.Store.{Tables, Reward, Payslip, PayslipStatus}
use go_pool.Store.Monad.{World, ok, err, Error, refused, query, exec, stmt}
use go_pool.Store.Payments.{get_staker_preference}
use go_pool.Payout.Rules.{Config, PayoutMode, Chain, is_delegate, payout_kind_for}
use go_pool.Payout.Approve.{preference}
use go_pool.Stakers.{
  payslips_of, epochs_of, effective_compound, handle_put_my_preference, upsert_staker_preference,
  staker_exists, get_staker_epochs,
}
use go_pool.Stakers.Preference.{chosen_kind, put_preference-paid}
use go_pool.Stakers.History.{
  StakerHistory, history_of, by_epoch, get_staker_rewards_by_epoch, staker_history,
}

abbrev slip : ℕ → Payslip
slip b = record {
  batch_number = b;
  address = 7;
  amount = 10;
  status = PayslipStatus.pending;
  tx_hash = none;
}

abbrev reward : ℕ → Reward
reward b = record { batch_number = b; epoch_number = 1; amount = 10; pool_fee = 0; num_stakers = 1 }

abbrev tables : Tables
tables = record {
  cursor = none;
  epochs = [];
  stakers = record { epoch_number = 1; address = 7; stake = 100 } ∷ [];
  rewards = reward 3 ∷ reward 4 ∷ [];
  payslips = slip 3 ∷ slip 4 ∷ [];
  transactions = [];
  audit_logs = [];
  preferences = [];
  actions = [];
  api_events = [];
}

abbrev world : World
world = record {
  tables = tables;
  io = [];
  fee_floor_alerted = [];
  balance_hold_alerted = [];
  alerts = [];
  broadcast = [];
  actions_sent = [];
}

abbrev history : StakerHistory
history = history_of (epochs_of 7 tables) (by_epoch (payslips_of 7 tables))

found : staker_history 7 world ≡ (ok (some history), world)
unfolding staker_history staker_exists get_staker_epochs get_staker_rewards_by_epoch query stmt
found = refl

abbrev chosen : World
chosen = record world { tables = record tables { preferences = (7, 1) ∷ [] } }

put : handle_put_my_preference 7 true world ≡ (ok true, chosen)
unfolding handle_put_my_preference upsert_staker_preference exec stmt
put = refl

abbrev cfg : Config
cfg = record { min_payout_luna = 10; payout_mode = PayoutMode.transfer; dry_run = false }

abbrev chain : Chain
chain = record {
  address = 1;
  block_number = none;
  balance = none;
  parses = λ _. true;
  delegation = λ _. some 1;
  add = λ a b. none;
  builds = λ _. true;
  estimate_fee = λ _. none;
  signs = λ _. true;
  hash = λ p. p.recipient;
}

put_preference-paid_example :
    let choice = if refused chosen.io then is_delegate cfg.payout_mode else true in
    (true ≡ true)
    × (payout_kind_for cfg chain 7 (preference (get_staker_preference 7 chosen).0)
        ≡ chosen_kind chain 7 choice)
    × ((effective_compound PayoutMode.transfer 7 chosen).0
        ≡ (if refused chosen.io then err Error.sql else ok true))
put_preference-paid_example =
    put_preference-paid cfg chain PayoutMode.transfer 7 true true world chosen chosen put refl
