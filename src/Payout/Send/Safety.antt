-- ===== src/Payout/Send/Safety.antt =====
-- Every step of `processApprovedPayouts` (internal/pool/payout.go) sends safely, and so does a run.
use mathlib.Core.Path.{subst}
use go_pool.Store.Statements.{RolledBack}
use go_pool.Prelude.{
  sym, ℕ, ◌+◌, ◌-◌, ◌≤◌, ◌<◌, ◌≡◌, ◌⊎◌, inl, inr, refl, arith, List, [], ◌∷◌, ◌++◌, Option, some,
  true, not, ◌==◌, length, keep, sum_of, Bool-cases, Option-cases, sub64, ◌∙◌, ap,
}
use go_pool.Store.{AuditLog, Tables, is_approved}
use go_pool.Store.Monad.{
  Payout, World, Result, ok, err, Error, M, after, pure, ◌>>=◌, >>=-ok, or_raise, or_raise-some,
}
use go_pool.Store.Payments.{list_approved_audit_logs}
use go_pool.Payout.Rules.{Config, Chain, AddsChecked, payout_fits_balance, total_of}
use go_pool.Payout.Approve.{hold_for_balance, release_hold}
use go_pool.Payout.Approve.Balance.{hold_for_balance-logs, hold_for_balance-ok, fits-total}
use go_pool.Payout.Send.{
  send_transaction, broadcast_persisted, payout_of, send_log, send_loop, send_approved,
  process_approved_payouts,
}
use go_pool.Payout.Send.Persist.{
  Submittable, submitted, persist_payout_submission-atomic, persist_payout_submission-broadcast,
}
use go_pool.Payout.Send.Tracking.{
  Tracked, approvals, sent_luna, Sends, Sends-trans, Sends-same, Sends-sent,
}

abbrev Progress : Chain → World → ℕ → Result ℕ × World → Type 0
Progress c w a (ok left, w') = Sends c w w' a left
Progress c w a (err e, w') = ⊥

hold_for_balance-broadcast : (a : ℕ) (w : World) → (hold_for_balance a w).1.broadcast ≡ w.broadcast
unfolding hold_for_balance
hold_for_balance-broadcast a w = ground arith

left-eq :
    (c : Chain) (a x f : ℕ)
    → AddsChecked c
    → a < 18446744073709551616
    → payout_fits_balance c a x f ≡ true
    → (sub64 a (total_of c x f) ≡ a - (x + f)) × (x + f ≤ a)
left-eq c a x f add small fits =
    let (total, le) = fits-total c a x f add fits in (rw total (omega arith), le)

persisted-Progress :
    (c : Chain) (now : Option ℕ) (log : AuditLog) (head a : ℕ) (w : World) (r : Result (Unit {0}))
    (w' : World)
    → AddsChecked c
    → a < 18446744073709551616
    → payout_fits_balance c a log.amount log.fee ≡ true
    → w'.broadcast ≡ w.broadcast
    → RolledBack w.tables (r, w')
      ⊎ ((r ≡ ok tt)
          × Submittable now log (c.hash (payout_of log head)) head w.tables
          × (w'.tables ≡ submitted now log (c.hash (payout_of log head)) head w.tables))
    → Progress c w a (broadcast_persisted c a log (payout_of log head) r w')
unfolding broadcast_persisted release_hold send_transaction
persisted-Progress c now log head a w (err e) w' add small fits b (inl (_, _, t)) =
    Sends-same c w w' a t b small
persisted-Progress c now log head a w (err e) w' add small fits b (inr (bad, _, _)) = cc
persisted-Progress c now log head a w (ok _) w' add small fits b (inl (e, bad, _)) = cc
persisted-Progress c now log head a w (ok _) w' add small fits b (inr (_, fit, t)) =
    let p = payout_of log head in
    let (left, le) = left-eq c a log.amount log.fee add small fits in
    let w'' = record w' {
      balance_hold_alerted = keep (λ s. not (s == log.address)) w'.balance_hold_alerted;
      broadcast = w'.broadcast ++ p ∷ [];
    } in
    subst (λ n. Sends c w w'' a n) (sym left)
      (Sends-sent c now log head a w w'' fit t (rw b refl) le small)

held-Progress :
    (c : Chain) (a : ℕ) (w : World) (r : Result (Unit {0}) × World)
    → r.0 ≡ ok tt
    → r.1.tables ≡ w.tables
    → r.1.broadcast ≡ w.broadcast
    → a < 18446744073709551616
    → Progress c w a (after (λ _. pure a) r)
held-Progress c a w (ok _, w') e t b small = Sends-same c w w' a t b small
held-Progress c a w (err x, w') e t b small = cc

send_log-Progress :
    (c : Chain) (now : Option ℕ) (head a : ℕ) (log : AuditLog) (w : World)
    → AddsChecked c
    → a < 18446744073709551616
    → Progress c w a (send_log c now head a log w)
unfolding send_log
send_log-Progress c now head a log w add small =
    let p = payout_of log head in
    let same = Sends-same c w w a refl refl small in
    elim (Bool-cases (c.parses log.address)) [
      | inr no_parse ↦ rw no_parse same
      | inl parse ↦ elim (Bool-cases (payout_fits_balance c a log.amount log.fee)) [
        | inr short ↦ rw parse (
            rw short (
              held-Progress c a w (hold_for_balance log.address w)
                (hold_for_balance-ok log.address w) (hold_for_balance-logs log.address w)
                (hold_for_balance-broadcast log.address w) small))
        | inl fits ↦ elim (Bool-cases (c.builds p)) [
          | inr no_build ↦ rw parse (rw fits (rw no_build same))
          | inl build ↦ elim (Bool-cases (c.signs p)) [
            | inr no_sign ↦ rw parse (rw fits (rw build (rw no_sign same)))
            | inl sign ↦ rw parse (
                rw fits (
                  rw build (
                    rw sign (
                      persisted-Progress c now log head a w _ _ add small fits
                        (persist_payout_submission-broadcast now log (c.hash p) head w)
                        (persist_payout_submission-atomic now log (c.hash p) head w)))))
          ]
        ]
      ]
    ]

-- How a run of the whole loop ends.
abbrev Done : Chain → World → ℕ → Result (Unit {0}) × World → Type 0
Done c w a (ok _, w') = (left : ℕ) × Sends c w w' a left
Done c w a (err e, w') = ⊥

Done-shift :
    (c : Chain) (w w' : World) (a left : ℕ) (r : Result (Unit {0}) × World)
    → Sends c w w' a left
    → Done c w' left r
    → Done c w a r
Done-shift c w w' a left (ok _, w'') p (rest, q) = (rest, Sends-trans a left rest p q)
Done-shift c w w' a left (err e, w'') p q = elim q [ ]

Done-after :
    (c : Chain) (w : World) (a : ℕ) (k : ℕ → M (Unit {0})) (r : Result ℕ × World)
    → ((left : ℕ) (w' : World) → left < 18446744073709551616 → Done c w' left (k left w'))
    → Progress c w a r
    → Done c w a (after k r)
Done-after c w a k (ok left, w') next p =
    Done-shift c w w' a left (k left w') p (next left w' p.fits)
Done-after c w a k (err e, w') next p = elim p [ ]

send_loop-Done :
    (c : Chain) (now : Option ℕ) (head a : ℕ) (ls : List AuditLog) (w : World)
    → AddsChecked c
    → a < 18446744073709551616
    → Done c w a (send_loop c now head a ls w)
unfolding send_loop
send_loop-Done c now head a [] w add small = (a, Sends-same c w w a refl refl small)
send_loop-Done c now head a (l ∷ ls) w add small =
    Done-after c w a (λ left. send_loop c now head left ls) (send_log c now head a l w)
      (λ left w' small'. send_loop-Done c now head left ls w' add small')
      (send_log-Progress c now head a l w add small)

-- What is promised of a run, by the world behind it.
abbrev Safe : Chain → World → ℕ → World → Type 0
Safe c w b w' =
    Tracked c w'
    × (length w'.broadcast + approvals w' ≤ length w.broadcast + approvals w)
    × (sent_luna w' ≤ sent_luna w + b)

Safe-same :
    (c : Chain) (w : World) (b : ℕ) (w' : World)
    → Tracked c w
    → w'.tables ≡ w.tables
    → w'.broadcast ≡ w.broadcast
    → Safe c w b w'
Safe-same c w b w' h t e = (rw t (rw e h), rw t (rw e (omega arith)), rw e (omega arith))

Done-Safe :
    (c : Chain) (w : World) (b : ℕ) (r : Result (Unit {0}) × World)
    → Tracked c w
    → Done c w b r
    → Safe c w b r.1
Done-Safe c w b (ok _, w') h (left, p) = (p.tracked h, p.once, omega (arith, p.paid))
Done-Safe c w b (err e, w') h p = elim p [ ]

send_approved-Safe :
    (c : Chain) (now : Option ℕ) (ls : List AuditLog) (w : World) (b : ℕ)
    → AddsChecked c
    → c.balance ≡ some b
    → b < 18446744073709551616
    → Tracked c w
    → Safe c w b (send_approved c now ls w).1
unfolding send_approved
send_approved-Safe c now ls w b add bal small h = elim (Option-cases c.block_number) [
  | inl no_head ↦ rw no_head (Safe-same c w b w h refl refl)
  | inr (head, e) ↦
      let loop = λ (x : ℕ) (a : ℕ). send_loop c now x a ls in
      let asked = λ (x : ℕ). or_raise c.balance Error.rpc >>= loop x in
      let steps =
        >>=-ok (or_raise c.block_number Error.rpc) asked w
          (or_raise-some c.block_number Error.rpc w e)
        ∙ >>=-ok (or_raise c.balance Error.rpc) (loop head) w
            (or_raise-some c.balance Error.rpc w bal) in
      rw steps (Done-Safe c w b (loop head b w) h (send_loop-Done c now head b ls w add small))
]

list_approved_audit_logs-same :
    (w : World)
    → ((list_approved_audit_logs w).1.tables ≡ w.tables)
      × ((list_approved_audit_logs w).1.broadcast ≡ w.broadcast)
unfolding list_approved_audit_logs
list_approved_audit_logs-same w = (ground arith, ground arith)

-- Let every transaction that went out be recorded under its hash, let `Luna.Add` add and let the
-- wallet's balance b fit a uint64. Whatever the database refuses, sending the approved payouts keeps
-- it so that everything that went out is recorded; each transaction that goes out uses up an
-- approval of its own, so no approval is paid twice; and what goes out, fees included, is at most
-- b.
pub process_approved_payouts-safe :
    (cfg : Config) (c : Chain) (now : Option ℕ) (w : World) (b : ℕ)
    → AddsChecked c
    → c.balance ≡ some b
    → b < 18446744073709551616
    → Tracked c w
    → let w' = (process_approved_payouts cfg c now w).1 in
      Tracked c w'
      × (length w'.broadcast + approvals w' ≤ length w.broadcast + approvals w)
      × (sent_luna w' ≤ sent_luna w + b)
unfolding process_approved_payouts
process_approved_payouts-safe cfg c now w b add bal small h = elim (Bool-cases cfg.dry_run) [
  | inl dry ↦ rw dry (Safe-same c w b w h refl refl)
  | inr live ↦
      let r = list_approved_audit_logs w in
      let same = list_approved_audit_logs-same w in rw live (go r.0 r.1 same.0 same.1)
]
  where
    go :
        (r : Result (List AuditLog)) (w' : World)
        → w'.tables ≡ w.tables
        → w'.broadcast ≡ w.broadcast
        → Safe c w b (after (send_approved c now) (r, w')).1
    go (err e) w' t s = Safe-same c w b w' h t s
    go (ok ls) w' t s =
        let safe = send_approved-Safe c now ls w' b add bal small (rw t (rw s h)) in
        let n = ap (λ (x : Tables). length (keep (λ l. is_approved l.status) x.audit_logs)) t in
        let m = ap (λ (x : List Payout). length x) s in
        let luna = ap (λ (x : List Payout). sum_of (λ p. p.amount + p.fee) x) s in
        (safe.0, omega arith, omega arith)
