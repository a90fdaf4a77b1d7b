-- ===== src/Lag.antt =====
-- Alerts about the lag behind the chain's head (internal/pool/lag.go). Times are nanoseconds.
pub mod Episode
mod Tests
use go_pool.Prelude.{
  ℕ, ◌+◌, ◌-◌, List, [], ◌∷◌, Bool, true, false, not, ◌&&◌, leb, ltb, if◌then◌else◌,
}

abbrev pub lag_warn_blocks : ℕ
lag_warn_blocks = 30

abbrev pub lag_recover_blocks : ℕ
lag_recover_blocks = 2

abbrev pub lag_escalate_after : ℕ
lag_escalate_after = 120000000000

pub data LagAlertKind : Type 0 where
  lag_alert_none lag_alert_warning lag_alert_error : LagAlertKind

pub record LagAlertState : Type 0 where
  pub warning_sent : Bool
  pub error_sent : Bool
  pub since : ℕ

-- `lagAlertState{}`.
abbrev pub fresh : LagAlertState
fresh = record { warning_sent = false; error_sent = false; since = 0 }

-- `chainLag`, which is 0 where the cursor is ahead.
unfoldable pub chain_lag : ℕ → ℕ → ℕ
chain_lag head processed = head - processed

-- `nextLagAlert`.
unfoldable pub next_lag_alert : LagAlertState → ℕ → ℕ → LagAlertState × LagAlertKind
next_lag_alert s lag now =
    if leb lag lag_recover_blocks
    then (fresh, lag_alert_none)
    else if not s.warning_sent
    then (if ltb lag lag_warn_blocks
        then (s, lag_alert_none)
        else (record s { warning_sent = true; since = now }, lag_alert_warning))
    else if not s.error_sent && leb (s.since + lag_escalate_after) now
    then (record s { error_sent = true }, lag_alert_error)
    else (s, lag_alert_none)

-- What one tick reads: the head, the cursor and the clock.
pub record Tick : Type 0 where
  pub head : ℕ
  pub processed : ℕ
  pub now : ℕ

-- `Manager.maybeAlertChainLag`: the new state, and the alert that is sent.
unfoldable pub maybe_alert_chain_lag : LagAlertState → Tick → LagAlertState × LagAlertKind
maybe_alert_chain_lag s t = next_lag_alert s (chain_lag t.head t.processed) t.now

abbrev sent : LagAlertKind → List LagAlertKind → List LagAlertKind
sent lag_alert_none rest = rest
sent kind rest = kind ∷ rest

-- The alerts that a sequence of ticks sends.
unfoldable pub alerts : LagAlertState → List Tick → List LagAlertKind
alerts s [] = []
alerts s (t ∷ ts) =
    let (s', kind) = maybe_alert_chain_lag s t in let rest = alerts s' ts in sent kind rest
