-- ===== src/Startup/Wallet.antt =====
-- One wallet for everything (`validatePoolWallet` in internal/pool/pool.go).
use go_pool.Prelude.{ℕ, ◌≡◌, ◌↔◌, ◌∙◌, ap, refl, arith, Option, none, some, ==_refl}
use go_pool.Startup.{
  LiveValidator, check_reward, check_live, check_validator, check_identities, validate_pool_wallet,
}

-- A validator whose address and reward address are an account.
abbrev pub IsAt : (ℕ → Option ℕ) → ℕ → Option LiveValidator → Type 0
IsAt parse a none = ⊥
IsAt parse a (some v) = (parse v.address ≡ some a) × (parse v.reward_address ≡ some a)

-- One account is behind all four names.
abbrev pub IsOneWallet : (ℕ → Option ℕ) → ℕ → ℕ → Option LiveValidator → Type 0
IsOneWallet parse configured derived validator =
    (a : ℕ) × (parse configured ≡ some a) × (parse derived ≡ some a) × IsAt parse a validator

reward_ok : (a : ℕ) (o : Option ℕ) → check_reward a o ≡ none → o ≡ some a
reward_ok a none h = cc
reward_ok a (some r) h = let same : r ≡ a = ground arith in ap some same

live_ok :
    (parse : ℕ → Option ℕ) (a : ℕ) (v : LiveValidator) (o : Option ℕ)
    → check_live parse a v o ≡ none
    → (o ≡ some a) × (parse v.reward_address ≡ some a)
live_ok parse a v none h = cc
live_ok parse a v (some l) h =
    let same : l ≡ a = ground arith in
    let rest : check_reward a (parse v.reward_address) ≡ none = ground arith in
    (ap some same, reward_ok a (parse v.reward_address) rest)

validator_ok :
    (parse : ℕ → Option ℕ) (a : ℕ) (v : Option LiveValidator)
    → check_validator parse a v ≡ none
    → IsAt parse a v
validator_ok parse a none h = cc
validator_ok parse a (some v) h = live_ok parse a v (parse v.address) h

identities_ok :
    (parse : ℕ → Option ℕ) (c d : Option ℕ) (v : Option LiveValidator)
    → check_identities parse c d v ≡ none
    → (a : ℕ) × (c ≡ some a) × (d ≡ some a) × IsAt parse a v
identities_ok parse none d v h = cc
identities_ok parse (some c) none v h = cc
identities_ok parse (some c) (some d) v h =
    let same : c ≡ d = ground arith in
    let rest : check_validator parse d v ≡ none = ground arith in
    (d, ap some same, refl, validator_ok parse d v rest)

passes :
    (parse : ℕ → Option ℕ) (a : ℕ) (v : Option LiveValidator)
    → IsAt parse a v
    → check_validator parse a v ≡ none
passes parse a none h = absurd h
passes parse a (some v) h =
    let same = ==_refl a in
    ap (λ o. check_live parse a v o) h.0 ∙ rw same (ap (λ o. check_reward a o) h.1 ∙ rw same refl)

-- The check passes exactly if the configured address, the address derived from the key, and the
-- live validator's address and reward address can all be read, and are the same account.
validate_pool_wallet-IsOneWallet :
    (parse : ℕ → Option ℕ) (configured derived : ℕ) (validator : Option LiveValidator)
    → (validate_pool_wallet parse configured derived validator ≡ none)
      ↔ IsOneWallet parse configured derived validator
unfolding validate_pool_wallet
validate_pool_wallet-IsOneWallet parse configured derived validator = (
  identities_ok parse (parse configured) (parse derived) validator,
  λ (a, is_c, is_d, at).
      rw is_c (rw is_d (let same = ==_refl a in rw same (passes parse a validator at))),
)
