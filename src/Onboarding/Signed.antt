-- ===== src/Onboarding/Signed.antt =====
-- Only the quoted stake is sent (`handleStakeSubmit` in internal/api/stake_handlers.go).
use go_pool.Prelude.{
  ℕ, ◌-◌, ◌≡◌, ◌∙◌, refl, ap, sym, inl, inr, arith, List, [], ◌∷◌, Option, none, some, Bool, true,
  false, length, Bool-cases,
}
use go_pool.Onboarding.{
  StakingTx, bytes_equal, first_bytes, same_fields, staking_inner_proof_len, stake_tx_matches,
}
use go_pool.Onboarding.Handlers.{
  Sdk, decode_signed, SubmitRequest, SubmitResponse, refused, panicked_in_submit, sent_to_node,
  check_proof, check_match, check_expected, submit_signed, handle_stake_submit,
}

-- The fields of a signed transaction are those of the quoted one, but for the data of the sender, the
-- proofs, and the last bytes of the payload.
pub record IsQuoted (got want : StakingTx) : Type 0 where
  pub sender : got.sender ≡ want.sender
  pub sender_type : got.sender_type ≡ want.sender_type
  pub recipient : got.recipient ≡ want.recipient
  pub recipient_type : got.recipient_type ≡ want.recipient_type
  pub value : got.value ≡ want.value
  pub fee : got.fee ≡ want.fee
  pub height : got.validity_start_height ≡ want.validity_start_height
  pub network : got.network ≡ want.network
  pub flags : got.flags ≡ want.flags
  pub size : length got.recipient_data ≡ length want.recipient_data
  pub payload :
      let prefix = length want.recipient_data - staking_inner_proof_len in
      first_bytes prefix got.recipient_data ≡ first_bytes prefix want.recipient_data

bytes_equal-inv : (s t : List ℕ) → bytes_equal s t ≡ true → s ≡ t
bytes_equal-inv [] [] h = refl
bytes_equal-inv [] (b ∷ t) h = cc
bytes_equal-inv (a ∷ s) [] h = cc
bytes_equal-inv (a ∷ s) (b ∷ t) h =
    let head : a ≡ b = ground arith in
    let rest = bytes_equal-inv s t (ground arith) in rw head (ap (λ x. b ∷ x) rest)

matches-IsQuoted :
    (got want : StakingTx) → stake_tx_matches got want ≡ some true → IsQuoted got want
unfolding stake_tx_matches
matches-IsQuoted got want h = elim (Bool-cases (same_fields got want)) [
  | inr differ ↦ absurd (ground arith)
  | inl same ↦ record {
    sender = bytes_equal-inv got.sender want.sender (ground arith);
    sender_type = ground arith;
    recipient = bytes_equal-inv got.recipient want.recipient (ground arith);
    recipient_type = ground arith;
    value = ground arith;
    fee = ground arith;
    height = ground arith;
    network = ground arith;
    flags = ground arith;
    size = ground arith;
    payload = bytes_equal-inv _ _ (ground arith);
  }
]

-- What the nimiq library promises of the transaction that it builds for a staker.
abbrev pub BuildsStake : Sdk → ℕ → List ℕ → List ℕ → SubmitRequest → Type 0
BuildsStake k network validator addr req =
    (want : StakingTx)
    → k.new_create_staker addr validator req.amount req.fee req.height network ≡ some want
    → (want.sender ≡ addr) × (want.value ≡ req.amount) × (want.fee ≡ req.fee)

-- The signed transaction is the quoted one, and its proof is valid.
abbrev pub IsAuthorized : Sdk → ℕ → List ℕ → List ℕ → SubmitRequest → List ℕ → StakingTx → Type 0
IsAuthorized k network validator addr req bytes tx =
    (want : StakingTx) × (proof : ℕ) × (k.new_create_staker addr validator req.amount req.fee
        req.height network
      ≡ some want)
    × IsQuoted tx want
    × (k.parse_proof tx.proof ≡ some proof)
    × (k.verify proof tx ≡ true)

-- The bytes that went to the node.
abbrev pub sent_bytes : SubmitResponse → Option (List ℕ)
sent_bytes refused = none
sent_bytes panicked_in_submit = none
sent_bytes (sent_to_node bytes hash) = some bytes

proof_lem :
    (k : Sdk) (signed bytes : List ℕ) (tx : StakingTx) (o : Option ℕ)
    → sent_bytes (check_proof k signed tx o) ≡ some bytes
    → (proof : ℕ) × (o ≡ some proof) × (k.verify proof tx ≡ true) × (signed ≡ bytes)
proof_lem k signed bytes tx none h = cc
proof_lem k signed bytes tx (some proof) h = (proof, refl, ground arith, ground arith)

match_lem :
    (k : Sdk) (signed bytes : List ℕ) (tx : StakingTx) (o : Option Bool)
    → sent_bytes (check_match k signed tx o) ≡ some bytes
    → (o ≡ some true) × (sent_bytes (check_proof k signed tx (k.parse_proof tx.proof)) ≡ some bytes)
match_lem k signed bytes tx none h = cc
match_lem k signed bytes tx (some false) h = cc
match_lem k signed bytes tx (some true) h = (refl, h)

expected_lem :
    (k : Sdk) (signed bytes : List ℕ) (got want : Option StakingTx)
    → sent_bytes (check_expected k signed got want) ≡ some bytes
    → (tx : StakingTx) × (quote : StakingTx) × (proof : ℕ) × (got ≡ some tx)
      × (want ≡ some quote)
      × IsQuoted tx quote
      × (k.parse_proof tx.proof ≡ some proof)
      × (k.verify proof tx ≡ true)
      × (signed ≡ bytes)
expected_lem k signed bytes none want h = cc
expected_lem k signed bytes (some tx) none h = cc
expected_lem k signed bytes (some tx) (some quote) h =
    let (matches, rest) = match_lem k signed bytes tx (stake_tx_matches tx quote) h in
    let (proof, parsed, valid, same) = proof_lem k signed bytes tx (k.parse_proof tx.proof) rest in
    (tx, quote, proof, refl, refl, matches-IsQuoted tx quote matches, parsed, valid, same)

-- Let the nimiq library build a stake with the sender, the amount and the fee that it is given. If
-- bytes go to the node, they are a transaction whose proof is valid, that agrees with the quoted
-- one in all fields but the data of the sender, the proof and the last 98 bytes of the payload, that
-- the address of the session sends, and that moves the amount and the fee of the request.
pub handle_stake_submit-IsAuthorized :
    (k : Sdk) (network : ℕ) (validator addr : List ℕ) (req : SubmitRequest) (bytes : List ℕ)
    → BuildsStake k network validator addr req
    → sent_bytes (handle_stake_submit k (some (network, validator)) (some addr) req) ≡ some bytes
    → (tx : StakingTx) × (k.parse_transaction bytes ≡ some tx)
      × IsAuthorized k network validator addr req bytes tx
      × (tx.sender ≡ addr)
      × (tx.value ≡ req.amount)
      × (tx.fee ≡ req.fee)
unfolding handle_stake_submit
handle_stake_submit-IsAuthorized k network validator addr req bytes builds h =
    go (decode_signed k req.signed_tx) h
  where
    go :
        (o : Option (List ℕ))
        → sent_bytes (submit_signed k network validator addr req o) ≡ some bytes
        → (tx : StakingTx) × (k.parse_transaction bytes ≡ some tx)
          × IsAuthorized k network validator addr req bytes tx
          × (tx.sender ≡ addr)
          × (tx.value ≡ req.amount)
          × (tx.fee ≡ req.fee)
    go none h = cc
    go (some signed) h =
        let (tx, quote, proof, got, want, is_quoted, parsed, valid, same) =
          expected_lem k signed bytes (k.parse_transaction signed)
            (k.new_create_staker addr validator req.amount req.fee req.height network) h in
        let (sender, value, fee) = builds quote want in
        (
          tx,
          ap k.parse_transaction (sym same) ∙ got,
          (quote, proof, want, is_quoted, parsed, valid),
          is_quoted.sender ∙ sender,
          is_quoted.value ∙ value,
          is_quoted.fee ∙ fee,
        )
