-- ===== src/Onboarding/Handlers.antt =====
-- The two handlers of the onboarding (internal/api/stake_handlers.go).
use go_pool.Prelude.{
  ℕ, zero, suc, List, [], ◌∷◌, Option, none, some, Bool, true, false, ltb, if◌then◌else◌,
}
use go_pool.Onboarding.{StakingTx, unsigned_staking_bytes, stake_tx_matches}

-- What the handlers call: the nimiq library, hex, and the node; `none` is an error.
pub record Sdk : Type 0 where
  pub new_create_staker : List ℕ → List ℕ → ℕ → ℕ → ℕ → ℕ → Option StakingTx
  pub is_extended : StakingTx → Bool
  pub format_code : ℕ
  pub decode_hex : List ℕ → Option (List ℕ)
  pub parse_transaction : List ℕ → Option StakingTx
  pub parse_proof : List ℕ → Option ℕ
  pub verify : ℕ → StakingTx → Bool
  pub add : ℕ → ℕ → Option ℕ
  pub head : Option ℕ
  pub minimum_stake : Option ℕ
  pub balance : List ℕ → Option ℕ
  pub estimate_fee : StakingTx → Option ℕ
  pub send_raw : List ℕ → Option ℕ

-- The network and the pool's validator: `stakeOnboardingReady`, `none` if the pool is not
-- configured for it.
abbrev pub Ready : Type 0
Ready = Option (ℕ × List ℕ)

pub data QuoteResponse : Type 0 where
  not_logged_in bad_request unavailable bad_gateway internal_error panicked : QuoteResponse
  quoted : (bytes : List ℕ) → (amount fee height : ℕ) → QuoteResponse

abbrev pub write_quote : Sdk → ℕ → ℕ → ℕ → Option StakingTx → QuoteResponse
write_quote k amount fee head none = internal_error
write_quote k amount fee head (some tx) =
    elim (unsigned_staking_bytes (k.is_extended tx) k.format_code tx) [
      | none ↦ panicked
      | some bytes ↦ quoted bytes amount fee head
    ]

abbrev pub check_total : ℕ → Option ℕ → QuoteResponse → QuoteResponse
check_total balance none next = bad_request
check_total balance (some total) next = if ltb balance total then bad_request else next

abbrev pub quote_fee : Sdk → List ℕ → ℕ → List ℕ → ℕ → ℕ → ℕ → Option ℕ → QuoteResponse
quote_fee k addr network validator amount balance head none = bad_gateway
quote_fee k addr network validator amount balance head (some fee) =
    check_total balance (k.add amount fee)
      (write_quote k amount fee head (k.new_create_staker addr validator amount fee head network))

abbrev pub quote_probe : Sdk → List ℕ → ℕ → List ℕ → ℕ → ℕ → ℕ → Option StakingTx → QuoteResponse
quote_probe k addr network validator amount balance head none = internal_error
quote_probe k addr network validator amount balance head (some probe) =
    quote_fee k addr network validator amount balance head (k.estimate_fee probe)

abbrev pub quote_from_chain :
    Sdk → List ℕ → ℕ → List ℕ → ℕ → Option ℕ → Option ℕ → Option ℕ → QuoteResponse
quote_from_chain k addr network validator amount none _ _ = bad_gateway
quote_from_chain k addr network validator amount (some head) none _ = bad_gateway
quote_from_chain k addr network validator amount (some head) (some minimum) none = bad_gateway
quote_from_chain k addr network validator amount (some head) (some minimum) (some balance) =
    if ltb amount minimum
    then bad_request
    else quote_probe k addr network validator amount balance head
        (k.new_create_staker addr validator amount 0 head network)

-- `handleStakeQuote` of a session's address, for an amount that is not negative.
unfoldable pub handle_stake_quote : Sdk → Ready → Option (List ℕ) → ℕ → QuoteResponse
unfolding unsigned_staking_bytes
handle_stake_quote k ready none amount = not_logged_in
handle_stake_quote k ready (some addr) zero = bad_request
handle_stake_quote k none (some addr) (suc n) = unavailable
handle_stake_quote k (some (network, validator)) (some addr) (suc n) =
    quote_from_chain k addr network validator (suc n) k.head k.minimum_stake (k.balance addr)

-- `stakeSubmitRequest`.
pub record SubmitRequest : Type 0 where
  pub signed_tx : List ℕ
  pub amount : ℕ
  pub fee : ℕ
  pub height : ℕ

-- The answer, with the bytes that went to the node.
pub data SubmitResponse : Type 0 where
  refused : SubmitResponse
  panicked_in_submit : SubmitResponse
  sent_to_node : (bytes : List ℕ) → (hash : Option ℕ) → SubmitResponse

abbrev pub check_proof : Sdk → List ℕ → StakingTx → Option ℕ → SubmitResponse
check_proof k signed tx none = refused
check_proof k signed tx (some proof) =
    if k.verify proof tx then sent_to_node signed (k.send_raw signed) else refused

abbrev pub check_match : Sdk → List ℕ → StakingTx → Option Bool → SubmitResponse
check_match k signed tx none = panicked_in_submit
check_match k signed tx (some false) = refused
check_match k signed tx (some true) = check_proof k signed tx (k.parse_proof tx.proof)

abbrev pub check_expected : Sdk → List ℕ → Option StakingTx → Option StakingTx → SubmitResponse
check_expected k signed none _ = refused
check_expected k signed (some tx) none = refused
check_expected k signed (some tx) (some want) = check_match k signed tx (stake_tx_matches tx want)

abbrev pub submit_signed :
    Sdk → ℕ → List ℕ → List ℕ → SubmitRequest → Option (List ℕ) → SubmitResponse
submit_signed k network validator addr req none = refused
submit_signed k network validator addr req (some signed) =
    check_expected k signed (k.parse_transaction signed)
      (k.new_create_staker addr validator req.amount req.fee req.height network)

-- A request needs a signed transaction, in hex.
abbrev pub decode_signed : Sdk → List ℕ → Option (List ℕ)
decode_signed k [] = none
decode_signed k (c ∷ s) = k.decode_hex (c ∷ s)

-- `handleStakeSubmit`; the event that it records afterwards, outside of a transaction, is left out.
unfoldable pub handle_stake_submit : Sdk → Ready → Option (List ℕ) → SubmitRequest → SubmitResponse
unfolding stake_tx_matches
handle_stake_submit k ready none req = refused
handle_stake_submit k none (some addr) req = refused
handle_stake_submit k (some (network, validator)) (some addr) req =
    submit_signed k network validator addr req (decode_signed k req.signed_tx)
