-- ===== src/Access.antt =====
-- Logging in to the API (internal/api/auth.go). Signatures, addresses, the message authentication
-- code and base64 are parameters; times are Unix seconds. Text is a list of codes, and where it is
-- only compared, a number.
pub mod Nonces
pub mod Decimal
pub mod Sessions
pub mod Setup
pub mod Operator
mod Tests
use go_pool.Prelude.{
  ℕ, ◌+◌, List, [], ◌∷◌, ◌++◌, Option, none, some, Bool, true, false, not, ◌==◌, ltb, if◌then◌else◌,
  keep,
}

-- `nonceTTL` and `sessionTTL`.
abbrev pub nonce_ttl : ℕ
nonce_ttl = 300

abbrev pub session_ttl : ℕ
session_ttl = 86400

-- `nonceEntry` under its key.
pub record NonceEntry : Type 0 where
  pub nonce : ℕ
  pub challenge : ℕ
  pub expires : ℕ

-- The map of `nonceStore`, without two entries of a key.
abbrev pub NonceStore : Type 0
NonceStore = List NonceEntry

abbrev pub delete_nonce : ℕ → NonceStore → NonceStore
delete_nonce n s = keep (λ e. not (e.nonce == n)) s

abbrev pub get_nonce : ℕ → NonceStore → Option NonceEntry
get_nonce n [] = none
get_nonce n (e ∷ s) = if e.nonce == n then some e else get_nonce n s

-- What `internal/api/auth.go` calls: the text of a challenge, and the functions of the nimiq
-- library.
pub record Library : Type 0 where
  pub challenge_text : ℕ → ℕ → ℕ
  pub parse_address : ℕ → Option ℕ
  pub parse_public_key : ℕ → Option ℕ
  pub parse_signature : ℕ → Option ℕ
  pub verify_message_from : ℕ → ℕ → ℕ → ℕ → Bool

-- `nonceStore.issue`, given the nonce that was drawn.
unfoldable pub issue : Library → ℕ → ℕ → NonceStore → NonceStore
issue l nonce now s =
    record {
      nonce = nonce;
      challenge = l.challenge_text nonce (now + nonce_ttl);
      expires = now + nonce_ttl;
    }
    ∷ delete_nonce nonce s

abbrev pub still_valid : ℕ → Option NonceEntry → Option ℕ
still_valid now none = none
still_valid now (some e) = if ltb e.expires now then none else some e.challenge

-- `nonceStore.consume`.
unfoldable pub consume : ℕ → ℕ → NonceStore → Option ℕ × NonceStore
consume nonce now s = (still_valid now (get_nonce nonce s), delete_nonce nonce s)

pub record VerifyRequest : Type 0 where
  pub nonce : ℕ
  pub address : ℕ
  pub public_key : ℕ
  pub signature : ℕ

-- The answer: whom the session is for, or a status.
pub data LoginResponse : Type 0 where
  session_for : ℕ → LoginResponse
  bad_request unauthorized : LoginResponse

abbrev pub check_signature : Library → ℕ → Option ℕ → Option ℕ → Option ℕ → LoginResponse
check_signature l challenge none _ _ = bad_request
check_signature l challenge (some address) none _ = bad_request
check_signature l challenge (some address) (some key) none = bad_request
check_signature l challenge (some address) (some key) (some signature) =
    if l.verify_message_from address key challenge signature
    then session_for address
    else unauthorized

abbrev pub verify_challenge : Library → VerifyRequest → Option ℕ → LoginResponse
verify_challenge l req none = bad_request
verify_challenge l req (some challenge) =
    check_signature l challenge (l.parse_address req.address) (l.parse_public_key req.public_key)
      (l.parse_signature req.signature)

-- `handleAuthVerify` for a body that can be decoded.
unfoldable pub handle_auth_verify :
    Library → VerifyRequest → ℕ → NonceStore → LoginResponse × NonceStore
unfolding consume
handle_auth_verify l req now s =
    let (challenge, s') = consume req.nonce now s in (verify_challenge l req challenge, s')
