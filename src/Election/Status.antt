-- ===== src/Election/Status.antt =====
-- The election handler and the gauge read the state of the validator in the same way
-- (internal/pool/election.go, internal/pool/lifecycle.go).
use go_pool.Prelude.{ℕ, ◌≡◌, arith, Option, none, some, ◌==◌, if◌then◌else◌}
use go_pool.Store.{EpochStatus}
use go_pool.Election.{
  Validator, election_status, LiveState, live_retired, live_inactive, live_jailed, live_active,
  validator_live_state,
}

-- The status of an epoch by the state of the gauge, which does not look at the stakers.
abbrev pub status_of : LiveState → ℕ → Option EpochStatus
status_of live_retired n = some EpochStatus.retired
status_of live_inactive n = some EpochStatus.inactive
status_of live_jailed n = some EpochStatus.jailed
status_of live_active n = if n == 0 then some EpochStatus.no_stakers else none

-- At every height, the handler records an epoch as retired, inactive or jailed exactly if the gauge
-- shows that state, and an active validator's epoch as one without stakers or in progress by the
-- number of its stakers.
election_status-live_state :
    (v : Validator) (height : ℕ)
    → election_status v height ≡ status_of (validator_live_state v height) v.num_stakers
unfolding election_status validator_live_state
election_status-live_state v height = ground arith
