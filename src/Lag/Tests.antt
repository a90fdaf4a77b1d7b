-- ===== src/Lag/Tests.antt =====
-- A lag (internal/pool/lag.go) that crosses the limit and does not recover.
use go_pool.Prelude.{ℕ, ◌+◌, ◌≡◌, refl, arith, List, [], ◌∷◌}
use go_pool.Lag.{Tick, fresh, alerts, lag_alert_warning, lag_alert_error}
use go_pool.Lag.Episode.{expected, alerts-episode}

abbrev tick : ℕ → ℕ → Tick
tick lag now = record { head = 100 + lag; processed = 100; now = now }

abbrev ticks : List Tick
ticks = tick 10 0 ∷ tick 40 1000 ∷ tick 45 2000 ∷ tick 20 120000001000 ∷ tick 9 130000000000 ∷ []

expected-ticks : expected ticks ≡ lag_alert_warning ∷ lag_alert_error ∷ []
expected-ticks = refl

alerts-episode_example : alerts fresh ticks ≡ expected ticks
alerts-episode_example =
    alerts-episode ticks
      (omega arith, (omega arith, (omega arith, (omega arith, (omega arith, tt)))))
