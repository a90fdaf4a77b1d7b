-- ===== src/Payout/Rules.antt =====
-- The decisions about one payout (internal/pool/payout.go, internal/pool/compounding.go), and what
-- they are taken from.
use go_pool.Prelude.{
  ◌+◌, ◌≡◌, ℕ, List, ◌∷◌, Option, none, some, Bool, true, false, ◌&&◌, ◌==◌, leb, if◌then◌else◌,
  any_of, keep, mul64,
}
use go_pool.Store.{PayoutKind, payout_transfer, payout_delegate}
use go_pool.Store.Monad.{Payout}

-- The configured payout mode; every text but "delegate" means a transfer.
pub data PayoutMode : Type 0 where
  transfer delegate : PayoutMode

pub record Config : Type 0 where
  pub min_payout_luna : ℕ
  pub payout_mode : PayoutMode
  pub dry_run : Bool

-- What one round of payouts is answered by the chain's RPC client and the nimiq library: the heads
-- and balances (`none` is an error), whether an address parses, the validator that a staker
-- delegates to, checked addition, whether a transaction can be built, its fee, whether signing it
-- succeeds, and its hash.
pub record Chain : Type 0 where
  pub address : ℕ
  pub block_number : Option ℕ
  pub balance : Option ℕ
  pub parses : ℕ → Bool
  pub delegation : ℕ → Option ℕ
  pub add : ℕ → ℕ → Option ℕ
  pub builds : Payout → Bool
  pub estimate_fee : Payout → Option ℕ
  pub signs : Payout → Bool
  pub hash : Payout → ℕ

-- `Luna.Add` is the sum, or an error if it passes a uint64.
abbrev pub AddsChecked : Chain → Type 0
AddsChecked c = (a b s : ℕ) → c.add a b ≡ some s → s ≡ a + b

unfoldable pub payout_worth_sending : ℕ → ℕ → Bool
payout_worth_sending amount fee = if fee == 0 then true else leb (mul64 fee 10) amount

-- The sum of amount and fee, if the balance covers it.
unfoldable pub payout_fits_balance : Chain → ℕ → ℕ → ℕ → Bool
payout_fits_balance c balance amount fee = elim (c.add amount fee) [
  | some total ↦ leb total balance
  | none ↦ false
]

-- The total that is taken off the balance; 0 where `Add` failed.
abbrev pub total_of : Chain → ℕ → ℕ → ℕ
total_of c amount fee = elim (c.add amount fee) [ some total ↦ total | none ↦ 0 ]

abbrev pub member : ℕ → List ℕ → Bool
member a xs = any_of (λ x. x == a) xs

-- `markHold`: the map of alerted stakers, and whether the staker is new in it.
unfoldable pub mark_hold : List ℕ → ℕ → List ℕ × Bool
mark_hold alerted staker =
    if member staker alerted then (alerted, false) else (staker ∷ alerted, true)

-- `pruneHolds`.
unfoldable pub prune_holds : List ℕ → List ℕ → List ℕ
prune_holds held alerted = keep (λ s. member s held) alerted

abbrev pub is_delegate : PayoutMode → Bool
is_delegate delegate = true
is_delegate transfer = false

unfoldable pub choose_payout_tx : PayoutMode → Bool → PayoutKind
choose_payout_tx mode still_delegated =
    if is_delegate mode && still_delegated then payout_delegate else payout_transfer

-- The mode that a stored preference asks for, or the global one.
abbrev pub resolved_mode : PayoutMode → Option Bool → PayoutMode
resolved_mode global none = global
resolved_mode global (some true) = delegate
resolved_mode global (some false) = transfer

unfoldable pub effective_payout_kind : PayoutMode → Option Bool → Bool → PayoutKind
unfolding choose_payout_tx
effective_payout_kind global pref still_delegated =
    choose_payout_tx (resolved_mode global pref) still_delegated

abbrev pub is_delegate_kind : PayoutKind → Bool
is_delegate_kind payout_delegate = true
is_delegate_kind payout_transfer = false

-- `err == nil && staker.Delegation == m.chain.Address()`.
abbrev pub still_delegated : Chain → ℕ → Bool
still_delegated c a = elim (c.delegation a) [ none ↦ false | some d ↦ d == c.address ]

-- The kind of one staker's payout: the chain is asked only if the mode is delegate.
unfoldable pub payout_kind_for : Config → Chain → ℕ → Option Bool → PayoutKind
unfolding effective_payout_kind
payout_kind_for cfg c a pref =
    if is_delegate_kind (effective_payout_kind cfg.payout_mode pref true)
    then effective_payout_kind cfg.payout_mode pref (still_delegated c a)
    else payout_transfer
