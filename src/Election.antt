-- ===== src/Election.antt =====
-- The snapshot of stakers at an election block (internal/pool/election.go) and the state of the
-- validator (validatorLiveState of internal/pool/lifecycle.go). Log lines, metrics, events and the
-- display percentage are left out.
pub mod Status
pub mod Snapshot
pub mod Genesis
mod Tests
use go_pool.Prelude.{
  ℕ, List, [], ◌∷◌, Option, none, some, Bool, true, false, ◌==◌, ltb, if◌then◌else◌, length, add32,
}
use go_pool.Policy.{Policy, epoch_at}
use go_pool.Store.{EpochStatus, Epoch, Staker}
use go_pool.Store.Monad.{
  Error, missed_election, validator_state, Result, ok, err, M, ◌>>=◌, ◌>>◌, pure, raise, done, try,
  or_raise, send_alert,
}
use go_pool.Store.Epochs.{epoch_exists, insert_epoch, insert_staker}

-- The fields of `rpc.Validator` that are read.
pub record Validator : Type 0 where
  pub retired : Bool
  pub inactivity_flag : Option ℕ
  pub jailed_from : Option ℕ
  pub num_stakers : ℕ
  pub balance : ℕ

-- A flag that is set and lies behind the height.
abbrev pub is_ahead : Option ℕ → ℕ → Bool
is_ahead none height = false
is_ahead (some flag) height = ltb height flag

-- The `switch` of the handler; `none` is the empty text.
unfoldable pub election_status : Validator → ℕ → Option EpochStatus
election_status v height =
    if v.retired
    then some EpochStatus.retired
    else if is_ahead v.inactivity_flag height
    then some EpochStatus.inactive
    else if is_ahead v.jailed_from height
    then some EpochStatus.jailed
    else if v.num_stakers == 0
    then some EpochStatus.no_stakers
    else none

pub data LiveState : Type 0 where
  live_retired live_inactive live_jailed live_active : LiveState

-- `validatorLiveState`.
unfoldable pub validator_live_state : Validator → ℕ → LiveState
validator_live_state v height =
    if v.retired
    then live_retired
    else if is_ahead v.inactivity_flag height
    then live_inactive
    else if is_ahead v.jailed_from height
    then live_jailed
    else live_active

-- What the handler reads: the policy, and the chain's answers about the validator and about its
-- stakers (address and balance); `none` is an error.
pub record Env : Type 0 where
  pub policy : Policy
  pub validator : Option Validator
  pub stakers : Option (List (ℕ × ℕ))

-- The epochs that the block opens: the next one, and at genesis the current one as well.
unfoldable pub upcoming : Policy → ℕ → List ℕ
upcoming p height =
    add32 (epoch_at p height) 1
    ∷ (if height == p.genesis_block_number then epoch_at p height ∷ [] else [])

-- The loop that returns at the first epoch that exists.
unfoldable pub any_exists : List ℕ → M Bool
any_exists [] = pure false
any_exists (e ∷ es) =
    let rest = any_exists es in epoch_exists e >>= λ found. if found then pure true else rest

-- The loops over `InsertEpoch`, which end at the first error.
unfoldable pub insert_epochs : ℕ → ℕ → EpochStatus → List ℕ → M (Unit {0})
insert_epochs stakers balance status [] = done
insert_epochs stakers balance status (e ∷ es) =
    insert_epoch (record { number = e; num_stakers = stakers; balance = balance; status = status })
    >> insert_epochs stakers balance status es

-- The stakers of one epoch; a balance of 0 is passed over.
unfoldable pub insert_stakers : ℕ → List (ℕ × ℕ) → M (Unit {0})
insert_stakers e [] = done
insert_stakers e ((a, stake) ∷ ss) =
    let rest = insert_stakers e ss in
    if stake == 0
    then rest
    else insert_staker (record { epoch_number = e; address = a; stake = stake }) >> rest

unfoldable pub insert_snapshots : List ℕ → List (ℕ × ℕ) → M (Unit {0})
insert_snapshots [] ss = done
insert_snapshots (e ∷ es) ss = insert_stakers e ss >> insert_snapshots es ss

-- The error that is returned behind the alert.
abbrev pub return_error : Result (Unit {0}) → M (Unit {0})
return_error (ok _) = done
return_error (err e) = raise e

-- The three ways to go on: no validator, one that cannot earn, and one that can.
unfoldable pub record_missed : List ℕ → M (Unit {0})
record_missed es = try (insert_epochs 0 0 EpochStatus.not_elected es) >>= λ r.
    send_alert missed_election >> return_error r

unfoldable pub record_snapshot : Env → List ℕ → ℕ → M (Unit {0})
record_snapshot env es balance = or_raise env.stakers Error.rpc >>= λ ss.
    (insert_epochs (length ss) balance EpochStatus.in_progress es >> insert_snapshots es ss)

unfoldable pub record_validator : Env → List ℕ → ℕ → Option EpochStatus → M (Unit {0})
record_validator env es balance (some status) =
    insert_epochs 0 balance status es >> send_alert validator_state
record_validator env es balance none = record_snapshot env es balance

unfoldable pub record_epochs : Env → ℕ → List ℕ → Option Validator → M (Unit {0})
record_epochs env height es none = record_missed es
record_epochs env height es (some v) = record_validator env es v.balance (election_status v height)

-- `Manager.handleElection`.
unfoldable pub handle_election : Env → ℕ → M (Unit {0})
handle_election env height =
    let es = upcoming env.policy height in
    any_exists es >>= λ found. if found then done else record_epochs env height es env.validator
