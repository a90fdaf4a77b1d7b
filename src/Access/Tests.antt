-- ===== src/Access/Tests.antt =====
-- A login and its session (internal/api/auth.go) with concrete functions for what is called.
use go_pool.Prelude.{
  ℕ, ◌+◌, ◌≤◌, ◌<◌, ◌≡◌, refl, arith, List, [], ◌∷◌, Option, none, some, true, false, All, ltb,
  if◌then◌else◌,
}
use go_pool.Access.{Library, VerifyRequest, session_ttl}
use go_pool.Access.Nonces.{
  AuthCall, challenge_call, verify_call, logins, challenges, logins-single_use,
}
use go_pool.Access.Setup.{
  SetupState, Attempt, handle_setup_session, forget_old, note_failure, open_session,
}
use go_pool.Access.Setup.RateLimit.{IsWrongWithin, tried, tried-rate_limited}
use go_pool.Access.Operator.{is_operator_allowed}
use go_pool.Access.Sessions.{Tokens, issue_session, require_session, require_session-issue}

abbrev library : Library
library = record {
  challenge_text = λ nonce expires. nonce;
  parse_address = λ a. some a;
  parse_public_key = λ k. some k;
  parse_signature = λ s. some s;
  verify_message_from = λ a k c s. true;
}

abbrev request : VerifyRequest
request = record { nonce = 7; address = 11; public_key = 12; signature = 13 }

-- One challenge, and the same login twice.
abbrev calls : List AuthCall
calls = challenge_call 7 100 ∷ verify_call request 110 ∷ verify_call request 111 ∷ []

logins-single_use_example : logins library 7 calls [] ≤ challenges 7 calls
logins-single_use_example = logins-single_use library 7 calls

-- The first code of a text.
first_code : List ℕ → Option ℕ
first_code [] = none
first_code (c ∷ _) = some c

abbrev tokens : Tokens
tokens = record {
  compact = λ a. a ∷ [];
  parse_address = first_code;
  mac = λ s. 99;
  encode = λ m. m ∷ [];
  decode = first_code;
}

require_session-issue_example :
    require_session tokens 2000 (some (issue_session tokens 1000 65))
    ≡ (if ltb (1000 + session_ttl) 2000 then none else some 65)
unfolding first_code
require_session-issue_example =
    require_session-issue tokens 65 1000 2000 (refl, tt) refl (λ m. refl) (omega arith)

abbrev setup : SetupState
setup = record { complete = false; failures = λ ip. []; sessions = λ s. none }

abbrev attempt : ℕ → Attempt
attempt now = record { ip = 1; now = now; is_right = false; drawn = 5 }

abbrev attempts : List Attempt
attempts = attempt 100 ∷ attempt 101 ∷ attempt 102 ∷ attempt 102 ∷ attempt 103 ∷ attempt 150 ∷ []

attempt-IsWrongWithin : (t : ℕ) → 100 ≤ t → t < 160 → IsWrongWithin 1 100 (attempt t)
attempt-IsWrongWithin t low high = (low, high, λ _. refl)

attempts-IsWrongWithin : All (IsWrongWithin 1 100) attempts
attempts-IsWrongWithin =
    let at = attempt-IsWrongWithin in
    (
      at 100 (omega arith) (omega arith),
      (
        at 101 (omega arith) (omega arith),
        (
          at 102 (omega arith) (omega arith),
          (
            at 102 (omega arith) (omega arith),
            (at 103 (omega arith) (omega arith), (at 150 (omega arith) (omega arith), tt)),
          ),
        ),
      ),
    )

tried-rate_limited_example : tried 1 attempts setup ≤ 5
tried-rate_limited_example = tried-rate_limited 1 100 attempts setup refl attempts-IsWrongWithin

sixth_is_refused : tried 1 attempts setup ≡ 5
unfolding tried handle_setup_session forget_old note_failure open_session
sixth_is_refused = refl

-- "a, b" lists both addresses.
second_is_listed : is_operator_allowed (97 ∷ 44 ∷ 32 ∷ 98 ∷ []) (98 ∷ []) ≡ true
unfolding is_operator_allowed
second_is_listed = refl
