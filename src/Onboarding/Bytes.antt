-- ===== src/Onboarding/Bytes.antt =====
-- The bytes that a wallet signs determine the transaction (`unsignedStakingBytes` in
-- internal/api/stake_handlers.go).
use go_pool.Prelude.{
  ℕ, ◌<◌, ◌^◌, ◌≡◌, refl, ap, sym, arith, List, [], ◌∷◌, ◌++◌, Option, some, true, length,
}
use go_pool.Onboarding.{StakingTx, append_uvarint, big_endian, unsigned_staking_bytes}
use go_pool.Onboarding.Reader.{
  and_then, read_byte, read_bytes, read_uvarint, read_number, read_bytes-append,
  read_uvarint-append, read_number-append,
}

-- The end of a transaction: the amounts, the height, the network, the flags and an empty proof.
abbrev read_end : List ℕ → ℕ → List ℕ → List ℕ → ℕ → List ℕ → List ℕ → Option StakingTx
read_end sender sender_type sender_data recipient recipient_type recipient_data s =
    and_then (read_number 8 0 s) λ value s. and_then (read_number 8 0 s) λ fee s.
      and_then (read_number 4 0 s) λ height s. and_then (read_byte s) λ network s.
        and_then (read_byte s) λ flags s. and_then (read_uvarint s) λ proof_length s. some record {
          sender = sender;
          sender_type = sender_type;
          sender_data = sender_data;
          recipient = recipient;
          recipient_type = recipient_type;
          recipient_data = recipient_data;
          value = value;
          fee = fee;
          validity_start_height = height;
          network = network;
          flags = flags;
          proof = s;
        }

-- A whole transaction, with addresses of 20 bytes.
unfoldable pub read_staking_tx : List ℕ → Option StakingTx
read_staking_tx s = and_then (read_byte s) λ format s. and_then (read_bytes 20 s) λ sender s.
    and_then (read_byte s) λ sender_type s. and_then (read_uvarint s) λ n s.
      and_then (read_bytes n s) λ sender_data s. and_then (read_bytes 20 s) λ recipient s.
        and_then (read_byte s) λ recipient_type s. and_then (read_uvarint s) λ m s.
          and_then (read_bytes m s) λ recipient_data s.
            read_end sender sender_type sender_data recipient recipient_type recipient_data s

-- The fields fit into what is written of them, and there is no proof.
pub record IsUnsigned (t : StakingTx) : Type 0 where
  pub sender : length t.sender ≡ 20
  pub recipient : length t.recipient ≡ 20
  pub sender_data : length t.sender_data < 2 ^ 63
  pub recipient_data : length t.recipient_data < 2 ^ 63
  pub value : t.value < 2 ^ 64
  pub fee : t.fee < 2 ^ 64
  pub height : t.validity_start_height < 2 ^ 32
  pub proof : t.proof ≡ []

unfoldable write_end : StakingTx → List ℕ
write_end t =
    big_endian 8 t.value
    ++ (big_endian 8 t.fee
        ++ (big_endian 4 t.validity_start_height ++ (t.network ∷ t.flags ∷ append_uvarint 9 0)))

read-end :
    (t : StakingTx)
    → IsUnsigned t
    → read_end t.sender t.sender_type t.sender_data t.recipient t.recipient_type t.recipient_data
        (write_end t)
      ≡ some t
unfolding write_end append_uvarint
read-end t u =
    let tail = t.network ∷ t.flags ∷ 0 ∷ [] in
    let height = read_number-append 4 t.validity_start_height tail (omega (arith, u.height)) in
    let fee =
      read_number-append 8 t.fee (big_endian 4 t.validity_start_height ++ tail)
        (omega (arith, u.fee)) in
    let value =
      read_number-append 8 t.value
        (big_endian 8 t.fee ++ (big_endian 4 t.validity_start_height ++ tail))
        (omega (arith, u.value)) in
    rw value (rw fee (rw height (ap (λ p. some (record t { proof = p })) (sym u.proof))))

read_exactly : (k : ℕ) (a rest : List ℕ) → length a ≡ k → read_bytes k (a ++ rest) ≡ some (a, rest)
read_exactly k a rest h = rw (sym h) (read_bytes-append a rest)

-- The bytes of an unsigned staking transaction are read back as that transaction, whatever its
-- format code is: two transactions with the same bytes agree in every field.
pub unsigned_staking_bytes-read :
    (format : ℕ) (t : StakingTx)
    → IsUnsigned t
    → (bytes : List ℕ) × (unsigned_staking_bytes true format t ≡ some bytes)
      × (read_staking_tx bytes ≡ some t)
unfolding unsigned_staking_bytes read_staking_tx write_end
unsigned_staking_bytes-read format t u =
    let end = write_end t in
    let payload = t.recipient_data ++ end in
    let m = length t.recipient_data in
    let to = t.recipient_type ∷ append_uvarint 9 m ++ payload in
    let n = length t.sender_data in
    let from = t.sender_data ++ (t.recipient ++ to) in
    let r1 = read_exactly 20 t.sender (t.sender_type ∷ append_uvarint 9 n ++ from) u.sender in
    let r2 = read_uvarint-append 9 n from (omega (arith, u.sender_data)) in
    let r3 = read_bytes-append t.sender_data (t.recipient ++ to) in
    let r4 = read_exactly 20 t.recipient to u.recipient in
    let r5 = read_uvarint-append 9 m payload (omega (arith, u.recipient_data)) in
    let r6 = read_bytes-append t.recipient_data end in
    (_, refl, rw r1 (rw r2 (rw r3 (rw r4 (rw r5 (rw r6 (read-end t u)))))))
