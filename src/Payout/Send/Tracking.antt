-- ===== src/Payout/Send/Tracking.antt =====
-- What `processApprovedPayouts` (internal/pool/payout.go) sends: only what is recorded, at most once
-- for each approval, and no more than the wallet holds.
use go_pool.Prelude.{
  ℕ, ◌+◌, ◌-◌, ◌≤◌, ◌<◌, ◌≡◌, refl, arith, List, [], ◌∷◌, ◌++◌, Option, Bool, true, ◌==◌, length,
  keep, any_of, sum_of, All, All-append, sum_of-append, length-append, any_of-append,
  any_of-append_last, ==_refl,
}
use go_pool.Store.{AuditLog, Transaction, is_approved}
use go_pool.Store.Monad.{Payout, World}
use go_pool.Store.Payslips.{update_where}
use go_pool.Store.Payments.{is_claimable, set_executed}
use go_pool.Payout.Rules.{Chain}
use go_pool.Payout.Send.{new_payout_transaction, payout_of}
use go_pool.Payout.Send.Persist.{Submittable, submitted}

abbrev pub is_recorded : Chain → List Transaction → Payout → Bool
is_recorded c xs p = any_of (λ x. x.hash == c.hash p) xs

-- Every transaction that went out is in the table.
abbrev pub Tracked : Chain → World → Type 0
Tracked c w = All (λ p. is_recorded c w.tables.transactions p ≡ true) w.broadcast

abbrev pub approvals : World → ℕ
approvals w = length (keep (λ l. is_approved l.status) w.tables.audit_logs)

abbrev pub sent_luna : World → ℕ
sent_luna w = sum_of (λ p. p.amount + p.fee) w.broadcast

-- What sending does to the world, from a balance to what is left of it.
pub record Sends (c : Chain) (w w' : World) (available left : ℕ) : Type 0 where
  pub tracked : Tracked c w → Tracked c w'
  pub once : length w'.broadcast + approvals w' ≤ length w.broadcast + approvals w
  pub paid : sent_luna w' + left ≡ sent_luna w + available
  pub fits : left < 18446744073709551616

pub Sends-trans :
    {c : Chain} {u v w : World} (a b d : ℕ) → Sends c u v a b → Sends c v w b d → Sends c u w a d
Sends-trans a b d p q = record {
  tracked = λ t. q.tracked (p.tracked t);
  once = omega arith;
  paid = omega arith;
  fits = q.fits;
}

All-imp {ℓ} :
    {A : Type 0} {P Q : A → Type ℓ} (xs : List A) → ((x : A) → P x → Q x) → All P xs → All Q xs
All-imp [] f h = tt
All-imp (x ∷ xs) f h = (f x h.0, All-imp xs f h.1)

claim-approvals :
    (i h : ℕ) (ls : List AuditLog)
    → length (keep (λ l. is_approved l.status) (update_where (is_claimable i) (set_executed h) ls))
        + length (keep (is_claimable i) ls)
      ≡ length (keep (λ l. is_approved l.status) ls)
claim-approvals i h [] = omega arith
claim-approvals i h (l ∷ ls) = ground (arith, claim-approvals i h ls)

recorded_later :
    (c : Chain) (xs ys : List Transaction) (p : Payout)
    → is_recorded c xs p ≡ true
    → is_recorded c (xs ++ ys) p ≡ true
recorded_later c xs ys p h = ground (arith, any_of-append (λ x. x.hash == c.hash p) xs ys)

-- A world that differs in neither the tables nor what was sent.
pub Sends-same :
    (c : Chain) (w w' : World) (a : ℕ)
    → w'.tables ≡ w.tables
    → w'.broadcast ≡ w.broadcast
    → a < 18446744073709551616
    → Sends c w w' a a
Sends-same c w w' a t b small = record {
  tracked = λ h. rw t (rw b h);
  once = rw t (rw b (omega arith));
  paid = rw b refl;
  fits = small;
}

-- A world whose tables record a payout that was sent.
pub Sends-sent :
    (c : Chain) (now : Option ℕ) (log : AuditLog) (head a : ℕ) (w w' : World)
    → let p = payout_of log head in
      Submittable now log (c.hash p) head w.tables
      → w'.tables ≡ submitted now log (c.hash p) head w.tables
      → w'.broadcast ≡ w.broadcast ++ p ∷ []
      → log.amount + log.fee ≤ a
      → a < 18446744073709551616
      → Sends c w w' a (a - (log.amount + log.fee))
Sends-sent c now log head a w w' fit t b le small =
    let p = payout_of log head in
    let x = new_payout_transaction now (c.hash p) log.address log.amount head in
    let claimed = claim-approvals log.id (c.hash p) w.tables.audit_logs in
    let one = fit.0 in
    record {
      tracked = λ h. rw t (
          rw b (
            All-append (λ q. is_recorded c (w.tables.transactions ++ x ∷ []) q ≡ true) w.broadcast
              (p ∷ [])
              (All-imp w.broadcast (λ q e. recorded_later c w.tables.transactions (x ∷ []) q e) h)
              (
                any_of-append_last (λ y. y.hash == c.hash p) w.tables.transactions x
                    (==_refl (c.hash p)),
                tt,
              )));
      once = rw t (rw b (omega (arith, length-append w.broadcast (p ∷ []))));
      paid = rw b (omega (arith, sum_of-append (λ q. q.amount + q.fee) w.broadcast (p ∷ [])));
      fits = omega arith;
    }
