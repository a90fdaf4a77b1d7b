-- ===== src/Onboarding/Tests.antt =====
-- A stake with concrete bytes (internal/api/stake_handlers.go).
use go_pool.Prelude.{ℕ, zero, suc, ◌≡◌, refl, arith, List, [], ◌∷◌, none, some, true}
use go_pool.Onboarding.{StakingTx, append_uvarint, unsigned_staking_bytes, stake_tx_matches}
use go_pool.Onboarding.Handlers.{Sdk, SubmitRequest, handle_stake_submit}
use go_pool.Onboarding.Bytes.{read_staking_tx, unsigned_staking_bytes-read}
use go_pool.Onboarding.Signed.{IsAuthorized, sent_bytes, handle_stake_submit-IsAuthorized}

abbrev zeros : ℕ → List ℕ
zeros zero = []
zeros (suc n) = 0 ∷ zeros n

abbrev stake_for : List ℕ → List ℕ → ℕ → ℕ → ℕ → ℕ → StakingTx
stake_for addr validator amount fee height network = record {
  sender = addr;
  sender_type = 0;
  sender_data = [];
  recipient = zeros 20;
  recipient_type = 3;
  recipient_data = 5 ∷ zeros 98;
  value = amount;
  fee = fee;
  validity_start_height = height;
  network = network;
  flags = 0;
  proof = [];
}

abbrev stake : StakingTx
stake = stake_for (zeros 20) (zeros 20) 300 2 70000 5

unsigned_staking_bytes-read_example :
    (bytes : List ℕ) × (unsigned_staking_bytes true 1 stake ≡ some bytes)
    × (read_staking_tx bytes ≡ some stake)
unsigned_staking_bytes-read_example = unsigned_staking_bytes-read 1 stake record {
  sender = refl;
  recipient = refl;
  sender_data = omega arith;
  recipient_data = omega arith;
  value = omega arith;
  fee = omega arith;
  height = omega arith;
  proof = refl;
}

long_length : append_uvarint 9 300 ≡ 172 ∷ 2 ∷ []
unfolding append_uvarint
long_length = refl

abbrev sdk : Sdk
sdk = record {
  new_create_staker = λ addr validator amount fee height network.
      some (stake_for addr validator amount fee height network);
  is_extended = λ tx. true;
  format_code = 1;
  decode_hex = λ s. some s;
  parse_transaction = λ s. some (stake_for (zeros 20) (zeros 20) 300 2 70000 5);
  parse_proof = λ p. some 9;
  verify = λ p tx. true;
  add = λ a b. none;
  head = none;
  minimum_stake = none;
  balance = λ a. none;
  estimate_fee = λ tx. none;
  send_raw = λ s. some 77;
}

abbrev request : SubmitRequest
request = record { signed_tx = 1 ∷ 2 ∷ []; amount = 300; fee = 2; height = 70000 }

is_sent :
    sent_bytes (handle_stake_submit sdk (some (5, zeros 20)) (some (zeros 20)) request)
    ≡ some (1 ∷ 2 ∷ [])
unfolding handle_stake_submit stake_tx_matches
is_sent = refl

handle_stake_submit-IsAuthorized_example :
    (tx : StakingTx) × (sdk.parse_transaction (1 ∷ 2 ∷ []) ≡ some tx)
    × IsAuthorized sdk 5 (zeros 20) (zeros 20) request (1 ∷ 2 ∷ []) tx
    × (tx.sender ≡ zeros 20)
    × (tx.value ≡ 300)
    × (tx.fee ≡ 2)
handle_stake_submit-IsAuthorized_example =
    handle_stake_submit-IsAuthorized sdk 5 (zeros 20) (zeros 20) request (1 ∷ 2 ∷ [])
      (λ want h. (ground (arith, h), ground (arith, h), ground (arith, h))) is_sent
