-- ===== src/Stakers.antt =====
-- What a staker sees and chooses (internal/api/staker_handlers.go), with the statements it rests on.
-- The percentage of a stake, the columns for display and the CSV file's text are left out.
pub mod Preference
pub mod History
mod Totals
mod Tests
use go_pool.Prelude.{
  ℕ, ◌+◌, ◌<◌, List, [], ◌∷◌, ◌++◌, map, Option, none, some, Bool, true, false, ◌&&◌, ◌||◌, ◌==◌,
  leb, ltb, if◌then◌else◌, any_of, keep, add64,
}
use go_pool.Store.{
  Tables, Staker, Reward, Payslip, PayslipStatus, Transaction, TxStatus, is_pending,
  is_out_for_payment, is_completed,
}
use go_pool.Store.Monad.{
  M, World, Result, ok, err, Error, query, exec, ◌>>=◌, ◌>>◌, pure, raise, or_raise,
}
use go_pool.Store.Payments.{get_staker_preference}
use go_pool.Payout.Rules.{PayoutMode, is_delegate}

-- `StakerExists`.
unfoldable pub staker_exists : ℕ → M Bool
unfolding query
staker_exists a = query λ t. any_of (λ s. s.address == a) t.stakers

-- `ORDER BY … DESC`: a row goes in front of the rows that are not larger.
abbrev insert_desc {ℓ} : {A : Type ℓ} → (A → ℕ) → A → List A → List A
insert_desc key x [] = x ∷ []
insert_desc key x (y ∷ ys) =
    let rest = insert_desc key x ys in if leb (key y) (key x) then x ∷ y ∷ ys else y ∷ rest

abbrev sort_desc {ℓ} : {A : Type ℓ} → (A → ℕ) → List A → List A
sort_desc key [] = []
sort_desc key (x ∷ xs) = insert_desc key x (sort_desc key xs)

-- `GetStakerEpochs`; `GetStakerLatest` is its first row.
abbrev pub epochs_of : ℕ → Tables → List Staker
epochs_of a t = sort_desc (λ s. s.epoch_number) (keep (λ s. s.address == a) t.stakers)

unfoldable pub get_staker_epochs : ℕ → M (List Staker)
unfolding query
get_staker_epochs a = query (epochs_of a)

abbrev first_of {ℓ} : {A : Type ℓ} → List A → Option A
first_of [] = none
first_of (x ∷ _) = some x

unfoldable get_staker_latest : ℕ → M (Option Staker)
unfolding query
get_staker_latest a = query λ t. first_of (epochs_of a t)

-- A row of `GetPayslipsForAddress`.
pub record PayslipRow : Type 0 where
  pub batch_number : ℕ
  pub epoch_number : ℕ
  pub amount : ℕ
  pub status : PayslipStatus
  pub tx_hash : Option ℕ

abbrev row_of : Payslip → Reward → PayslipRow
row_of p r = record {
  batch_number = p.batch_number;
  epoch_number = r.epoch_number;
  amount = p.amount;
  status = p.status;
  tx_hash = p.tx_hash;
}

-- `JOIN rewards r ON r.batch_number = p.batch_number`.
abbrev join_rewards : List Reward → List Payslip → List PayslipRow
join_rewards rewards [] = []
join_rewards rewards (p ∷ ps) =
    map (row_of p) (keep (λ r. r.batch_number == p.batch_number) rewards) ++ join_rewards rewards ps

abbrev pub payslips_of : ℕ → Tables → List PayslipRow
payslips_of a t = join_rewards t.rewards (keep (λ p. p.address == a) t.payslips)

unfoldable get_payslips_for_address : ℕ → M (List PayslipRow)
unfolding query
get_payslips_for_address a = query λ t. sort_desc (λ r. r.batch_number) (payslips_of a t)

-- `GetTransactionsForAddress`, in no particular order here.
unfoldable get_transactions_for_address : ℕ → M (List Transaction)
unfolding query
get_transactions_for_address a = query λ t. keep (λ x. x.address == a) t.transactions

pub record StakerDetail : Type 0 where
  pub address : ℕ
  pub stake : ℕ
  pub payslips : List PayslipRow
  pub transactions : List Transaction

-- `stakerDetail`; `none` is `errStakerNotFound`.
abbrev found_detail : ℕ → M (Option StakerDetail)
found_detail a = get_staker_latest a >>= λ latest. or_raise latest Error.no_rows >>= λ s.
    get_payslips_for_address a >>= λ payslips. get_transactions_for_address a >>= λ txs.
    pure (some (record { address = a; stake = s.stake; payslips = payslips; transactions = txs }))

unfoldable staker_detail : ℕ → M (Option StakerDetail)
unfolding staker_exists get_staker_latest get_payslips_for_address get_transactions_for_address
staker_detail a = staker_exists a >>= λ exists. if exists then found_detail a else pure none

-- The loop of `handleMe`: what is pending, and what is paid. Each is an int64 in the source, and here
-- its residue modulo 2 ^ 64, which is the number itself below 2 ^ 63.
abbrev pub count_payslip : PayslipStatus → ℕ → ℕ × ℕ → ℕ × ℕ
count_payslip PayslipStatus.completed n (pending, paid) = (pending, add64 paid n)
count_payslip PayslipStatus.pending n (pending, paid) = (add64 pending n, paid)
count_payslip PayslipStatus.out_for_payment n (pending, paid) = (add64 pending n, paid)
count_payslip PayslipStatus.awaiting_confirmation n (pending, paid) = (add64 pending n, paid)
count_payslip PayslipStatus.failed n (pending, paid) = (pending, paid)

unfoldable totals : List PayslipRow → ℕ × ℕ → ℕ × ℕ
totals [] acc = acc
totals (p ∷ ps) acc = totals ps (count_payslip p.status p.amount acc)

-- `effectiveCompound`.
abbrev pub compound_from : PayoutMode → Option ℕ → Bool
compound_from mode none = is_delegate mode
compound_from mode (some v) = v == 1

unfoldable pub effective_compound : PayoutMode → ℕ → M Bool
unfolding get_staker_preference
effective_compound mode a = get_staker_preference a >>= λ pref. pure (compound_from mode pref)

-- `UpsertStakerPreference`: the address is the key of the table.
abbrev pub upsert : ℕ → ℕ → List (ℕ × ℕ) → List (ℕ × ℕ)
upsert a v [] = (a, v) ∷ []
upsert a v ((k, u) ∷ ps) = let rest = upsert a v ps in if k == a then (k, v) ∷ ps else (k, u) ∷ rest

unfoldable pub upsert_staker_preference : ℕ → ℕ → M (Unit {0})
unfolding exec
upsert_staker_preference a v = exec λ t. record t { preferences = upsert a v t.preferences }

abbrev pub bool_to_int : Bool → ℕ
bool_to_int true = 1
bool_to_int false = 0

-- `handlePutMyPreference` behind the session and the decoding of its body: the choice it answers with.
unfoldable pub handle_put_my_preference : ℕ → Bool → M Bool
unfolding upsert_staker_preference
handle_put_my_preference a compound =
    upsert_staker_preference a (bool_to_int compound) >> pure compound

pub record Me : Type 0 where
  pub detail : StakerDetail
  pub pending : ℕ
  pub paid : ℕ
  pub delegated : Bool
  pub compound : Bool

-- `handleMe`: someone who never staked has an empty detail. `delegation` is what the RPC client says,
-- `none` where it is not asked or fails, and `validator` the configured address.
abbrev or_empty : ℕ → Option StakerDetail → StakerDetail
or_empty a none = record { address = a; stake = 0; payslips = []; transactions = [] }
or_empty a (some d) = d

abbrev delegates_to : ℕ → Option ℕ → Bool
delegates_to validator none = false
delegates_to validator (some d) = d == validator

abbrev me_of : StakerDetail → ℕ × ℕ → Bool → Bool → Me
me_of d (pending, paid) delegated compound = record {
  detail = d;
  pending = pending;
  paid = paid;
  delegated = delegated;
  compound = compound;
}

unfoldable handle_me : PayoutMode → ℕ → Option ℕ → ℕ → M Me
unfolding staker_detail totals effective_compound
handle_me mode validator delegation a = staker_detail a >>= λ found.
    let d = or_empty a found in
    effective_compound mode a >>= λ compound.
    pure (me_of d (totals d.payslips (0, 0)) (delegates_to validator delegation) compound)
