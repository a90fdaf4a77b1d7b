-- ===== src/Onboarding.antt =====
-- Delegating to the pool (internal/api/stake_handlers.go): the bytes of an unsigned transaction, and
-- the comparison of a signed one with what was quoted; the two handlers are in Onboarding/Handlers.
-- Bytes are numbers below 256, amounts are luna; the nimiq library, the node and the decoding of
-- requests are parameters.
pub mod Bytes
pub mod Reader
pub mod Handlers
pub mod Signed
mod Tests
use go_pool.Prelude.{
  ℕ, zero, suc, ◌+◌, ◌-◌, ◌/◌, ◌%◌, List, [], ◌∷◌, ◌++◌, Option, none, some, Bool, true, false, not,
  ◌&&◌, ◌||◌, ◌==◌, ltb, leb, if◌then◌else◌, length,
}

-- `nimiq.Transaction`.
pub record StakingTx : Type 0 where
  pub sender : List ℕ
  pub sender_type : ℕ
  pub sender_data : List ℕ
  pub recipient : List ℕ
  pub recipient_type : ℕ
  pub recipient_data : List ℕ
  pub value : ℕ
  pub fee : ℕ
  pub validity_start_height : ℕ
  pub network : ℕ
  pub flags : ℕ
  pub proof : List ℕ

-- `appendUvarint`, as the bytes that it appends; 64 bits take at most nine rounds.
unfoldable pub append_uvarint : ℕ → ℕ → List ℕ
append_uvarint zero v = v % 256 ∷ []
append_uvarint (suc rounds) v =
    let rest = append_uvarint rounds (v / 128) in
    if leb 128 v then (128 + v % 128) ∷ rest else v ∷ []

-- `binary.BigEndian.AppendUint64` and `AppendUint32`, by the number of bytes.
unfoldable pub big_endian : ℕ → ℕ → List ℕ
big_endian zero n = []
big_endian (suc k) n = big_endian k (n / 256) ++ (n % 256) ∷ []

-- `unsignedStakingBytes` of a transaction in the extended format, whose code is a byte; another
-- format panics (`none`).
unfoldable pub unsigned_staking_bytes : Bool → ℕ → StakingTx → Option (List ℕ)
unfolding append_uvarint big_endian
unsigned_staking_bytes is_extended format t =
    if is_extended
    then some (
        format ∷ t.sender
        ++ (t.sender_type ∷ append_uvarint 9 (length t.sender_data)
            ++ (t.sender_data
                ++ (t.recipient
                    ++ (t.recipient_type ∷ append_uvarint 9 (length t.recipient_data)
                        ++ (t.recipient_data
                            ++ (big_endian 8 t.value
                                ++ (big_endian 8 t.fee
                                    ++ (big_endian 4 t.validity_start_height
                                        ++ (t.network ∷ t.flags ∷ append_uvarint 9 0))))))))))
    else none

-- `bytes.Equal`.
abbrev pub bytes_equal : List ℕ → List ℕ → Bool
bytes_equal [] [] = true
bytes_equal (a ∷ s) (b ∷ t) = a == b && bytes_equal s t
bytes_equal _ _ = false

-- The first bytes of a slice.
abbrev pub first_bytes : ℕ → List ℕ → List ℕ
first_bytes zero s = []
first_bytes (suc k) [] = []
first_bytes (suc k) (b ∷ s) = b ∷ first_bytes k s

-- `stakingInnerProofLen`.
abbrev pub staking_inner_proof_len : ℕ
staking_inner_proof_len = 98

abbrev pub same_fields : StakingTx → StakingTx → Bool
same_fields got want =
    bytes_equal got.sender want.sender
    && (got.sender_type == want.sender_type
        && (bytes_equal got.recipient want.recipient
            && (got.recipient_type == want.recipient_type
                && (got.value == want.value
                    && (got.fee == want.fee
                        && (got.validity_start_height == want.validity_start_height
                            && (got.network == want.network
                                && (got.flags == want.flags
                                    && length got.recipient_data
                                      == length want.recipient_data))))))))

-- `stakeTxMatches`; a payload that is shorter than a proof panics (`none`).
unfoldable pub stake_tx_matches : StakingTx → StakingTx → Option Bool
stake_tx_matches got want =
    if not (same_fields got want)
    then some false
    else if ltb (length want.recipient_data) staking_inner_proof_len
    then none
    else (let prefix = length want.recipient_data - staking_inner_proof_len in
        some (
          bytes_equal (first_bytes prefix got.recipient_data)
            (first_bytes prefix want.recipient_data)))
