-- ===== src/Lag/Episode.antt =====
-- Which alerts an episode of lag sends (internal/pool/lag.go).
use go_pool.Prelude.{
  ◌+◌, ◌-◌, ◌<◌, ◌≡◌, refl, arith, List, [], ◌∷◌, true, false, leb, ltb, if◌then◌else◌, any_of, All,
}
use go_pool.Lag.{
  lag_warn_blocks, lag_recover_blocks, lag_escalate_after, LagAlertKind, lag_alert_warning,
  lag_alert_error, LagAlertState, fresh, chain_lag, next_lag_alert, Tick, maybe_alert_chain_lag,
  alerts,
}

-- The tick is more blocks behind than a recovery allows.
abbrev pub Lagging : Tick → Type 0
Lagging t = lag_recover_blocks < t.head - t.processed

-- What an episode should send: a warning at the first tick that is 30 blocks behind, and an error
-- if a later tick comes two minutes after it.
abbrev pub expected : List Tick → List LagAlertKind
expected [] = []
expected (t ∷ ts) =
    let rest = expected ts in
    if ltb (t.head - t.processed) lag_warn_blocks
    then rest
    else lag_alert_warning
      ∷ (if any_of (λ u. leb (t.now + lag_escalate_after) u.now) ts
          then lag_alert_error ∷ []
          else [])

alerts-escalated :
    (s : LagAlertState) (ts : List Tick)
    → s.warning_sent ≡ true
    → s.error_sent ≡ true
    → All Lagging ts
    → alerts s ts ≡ []
unfolding alerts maybe_alert_chain_lag next_lag_alert chain_lag
alerts-escalated s [] w e lagging = refl
alerts-escalated s (t ∷ ts) w e (l, ls) = ground (arith, alerts-escalated s ts w e ls)

alerts-warned :
    (s : LagAlertState) (ts : List Tick)
    → s.warning_sent ≡ true
    → s.error_sent ≡ false
    → All Lagging ts
    → alerts s ts ≡ (
        if any_of (λ u. leb (s.since + lag_escalate_after) u.now) ts
        then lag_alert_error ∷ []
        else [])
unfolding alerts maybe_alert_chain_lag next_lag_alert chain_lag
alerts-warned s [] w e lagging = refl
alerts-warned s (t ∷ ts) w e (l, ls) = ground (
  arith,
  alerts-warned s ts w e ls,
  alerts-escalated (record s { error_sent = true }) ts w refl ls,
)

-- From a fresh state, as long as the lag does not recover, the alerts are one warning, at the first
-- tick that is at least 30 blocks behind, and then one error if a later tick comes at least two
-- minutes after that one, and no other alert.
pub alerts-episode : (ts : List Tick) → All Lagging ts → alerts fresh ts ≡ expected ts
unfolding alerts maybe_alert_chain_lag next_lag_alert chain_lag
alerts-episode [] lagging = refl
alerts-episode (t ∷ ts) (l, ls) =
    let warned = record fresh { warning_sent = true; since = t.now } in
    ground (arith, alerts-episode ts ls, alerts-warned warned ts refl refl ls)
