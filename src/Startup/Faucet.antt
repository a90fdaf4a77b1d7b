-- ===== src/Startup/Faucet.antt =====
-- Asking the faucet of the test network (internal/pool/faucet.go). Durations are nanoseconds; a
-- negative one is 0, since the caller treats both alike. The text of a message is left out.
use go_pool.Prelude.{ℕ, ◌*◌, ◌%◌, Bool, true, false, ltb, if◌then◌else◌}

-- `defaultFaucetRetry` and `transientFaucetRetry`.
abbrev pub default_faucet_retry : ℕ
default_faucet_retry = 86400000000000

abbrev pub transient_faucet_retry : ℕ
transient_faucet_retry = 3600000000000

pub record FaucetResult : Type 0 where
  pub is_ok : Bool
  pub rate_limited : Bool
  pub retry_after : ℕ

-- The body of a response: empty, a JSON object with a field "success", or anything else.
pub data FaucetBody : Type 0 where
  blank : FaucetBody
  unreadable : FaucetBody
  payload : (success : Bool) → (is_rate_limit : Bool) → (wait : ℕ) → FaucetBody

-- `time.Duration(wait) * time.Second` on 64 bits.
abbrev pub seconds : ℕ → ℕ
seconds wait =
    let d = (wait * 1000000000) % 18446744073709551616 in if ltb d 9223372036854775808 then d else 0

abbrev pub faucet_accepted : FaucetResult
faucet_accepted = record { is_ok = true; rate_limited = false; retry_after = default_faucet_retry }

-- `parseFaucetBody`.
unfoldable pub parse_faucet_body : FaucetBody → FaucetResult
parse_faucet_body blank = faucet_accepted
parse_faucet_body unreadable = faucet_accepted
parse_faucet_body (payload true is_rate_limit wait) = faucet_accepted
parse_faucet_body (payload false is_rate_limit wait) = record {
  is_ok = false;
  rate_limited = is_rate_limit;
  retry_after = if ltb 0 wait then seconds wait else default_faucet_retry;
}

-- What the HTTP client answers.
pub data FaucetReply : Type 0 where
  failed not_ok : FaucetReply
  answered : FaucetBody → FaucetReply

abbrev pub declined : ℕ → FaucetResult
declined retry = record { is_ok = false; rate_limited = false; retry_after = retry }

-- `fundAddress`, for a faucet that is configured or not.
unfoldable pub fund_address : Bool → FaucetReply → FaucetResult
fund_address false reply = declined default_faucet_retry
fund_address true failed = declined transient_faucet_retry
fund_address true not_ok = declined transient_faucet_retry
fund_address true (answered body) = parse_faucet_body body
