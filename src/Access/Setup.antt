-- ===== src/Access/Setup.antt =====
-- The guard of the set-up (`handleSetupSession` and `requireSetup` in internal/api/setup_auth.go).
-- Times are seconds; whether a token has the hash that was configured is part of a request. Request
-- bodies that cannot be decoded and a failing random source are left out.
pub mod RateLimit
use go_pool.Prelude.{
  ℕ, ◌+◌, ◌-◌, List, [], ◌∷◌, ◌++◌, Option, none, some, Bool, true, false, ◌==◌, ltb, leb,
  if◌then◌else◌, length, keep,
}

-- `setupSessionTTL`.
abbrev pub setup_session_ttl : ℕ
setup_session_ttl = 1800

-- What the mutex guards: maps are functions, and a missing key is `none`, or no failure.
pub record SetupState : Type 0 where
  pub complete : Bool
  pub failures : ℕ → List ℕ
  pub sessions : ℕ → Option ℕ

abbrev pub put {ℓ} : {A : Type ℓ} → ℕ → A → (ℕ → A) → ℕ → A
put k v m j = if j == k then v else m j

pub data SetupAnswer : Type 0 where
  setup_complete rate_limited invalid_token session_required : SetupAnswer
  session_until : ℕ → SetupAnswer
  passed : SetupAnswer

-- The failures of the last minute.
abbrev pub recent : ℕ → List ℕ → List ℕ
recent now attempts = keep (λ attempted. ltb (now - attempted) 60) attempts

-- A request: where it comes from, when, whether its token is right, and the session that is drawn.
pub record Attempt : Type 0 where
  pub ip : ℕ
  pub now : ℕ
  pub is_right : Bool
  pub drawn : ℕ

-- The first locked section.
unfoldable pub forget_old : Attempt → SetupState → SetupState
forget_old a s = record s { failures = put a.ip (recent a.now (s.failures a.ip)) s.failures }

-- The last locked section of a wrong token, and of the right one.
unfoldable pub note_failure : Attempt → SetupState → SetupState
note_failure a s = record s { failures = put a.ip (s.failures a.ip ++ a.now ∷ []) s.failures }

unfoldable pub open_session : Attempt → SetupState → SetupState
open_session a s = record s {
  failures = put a.ip [] s.failures;
  sessions = put a.drawn (some (a.now + setup_session_ttl)) s.sessions;
}

-- `handleSetupSession`, without another request between its locked sections.
unfoldable pub handle_setup_session : Attempt → SetupState → SetupAnswer × SetupState
unfolding forget_old note_failure open_session
handle_setup_session a s =
    let s' = forget_old a s in
    if s.complete
    then (setup_complete, s')
    else if leb 5 (length (recent a.now (s.failures a.ip)))
    then (rate_limited, s')
    else if a.is_right
    then (session_until (a.now + setup_session_ttl), open_session a s')
    else (invalid_token, note_failure a s')

abbrev pub setup_session_valid : ℕ → Option ℕ → Bool
setup_session_valid now none = false
setup_session_valid now (some expires) = leb now expires

-- `requireSetup` for the cookie of a request.
unfoldable pub require_setup : ℕ → Option ℕ → SetupState → SetupAnswer × SetupState
require_setup now none s = (if s.complete then setup_complete else session_required, s)
require_setup now (some cookie) s =
    if s.complete
    then (setup_complete, s)
    else if setup_session_valid now (s.sessions cookie)
    then (passed, s)
    else (session_required, record s { sessions = put cookie none s.sessions })
