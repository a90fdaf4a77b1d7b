-- ===== src/Payout/Approve/Balance.antt =====
-- `runPayouts` (internal/pool/payout.go) does not approve more than the pool wallet holds.
use mathlib.Core.Path.{subst}
use go_pool.Prelude.{
  ℕ, ◌+◌, ◌≤◌, ◌<◌, ◌≡◌, ◌∙◌, refl, arith, List, [], ◌∷◌, Option, none, some, true, if◌then◌else◌,
  sum_of, sum_of-append, inl, inr, Bool-cases, Option-cases,
}
use go_pool.Store.{AuditLog, AuditStatus, PayoutKind}
use go_pool.Store.Monad.{
  Error, World, Result, ok, err, Payout, M, pure, or_raise, or_raise-some, after, ◌>>=◌, >>=-ok,
}
use go_pool.Store.Payslips.{get_eligible_for_payout}
use go_pool.Store.Payments.{insert_audit_log-cases, new_log, get_staker_preference}
use go_pool.Payout.Rules.{
  Config, Chain, AddsChecked, payout_fits_balance, total_of, payout_kind_for,
}
use go_pool.Payout.Approve.{
  Carried, hold_for_fee, hold_for_balance, release_hold, approve, estimated, payout_row,
  payout_loop, prune, pay_all, pay_eligible, run_payouts, preference,
}

-- What the logs commit the wallet to.
abbrev pub committed : List AuditLog → ℕ
committed ls = sum_of (λ l. l.amount + l.fee) ls

abbrev committed_in : World → ℕ
committed_in w = committed w.tables.audit_logs

-- A row of the loop keeps the sum of what is committed and what is left.
abbrev Balanced : ℕ → ℕ → Result Carried × World → Type 0
Balanced available before (ok acc, w) =
    (committed_in w + acc.0 ≡ before + available) × (acc.0 < 18446744073709551616)
Balanced available before (err e, w) = committed_in w ≤ before + available

Balanced-shift :
    (available before left now : ℕ) (r : Result Carried × World)
    → now + left ≡ before + available
    → Balanced left now r
    → Balanced available before r
Balanced-shift available before left now (ok acc, w) e h = (omega arith, h.1)
Balanced-shift available before left now (err x, w) e h = omega arith

Balanced-le :
    (available before : ℕ) (r : Result Carried × World)
    → Balanced available before r
    → committed_in r.1 ≤ before + available
Balanced-le available before (ok acc, w) h = omega arith
Balanced-le available before (err x, w) h = h

pub hold_for_fee-logs : (a : ℕ) (w : World) → (hold_for_fee a w).1.tables ≡ w.tables
unfolding hold_for_fee
hold_for_fee-logs a w = ground arith

pub hold_for_balance-logs : (a : ℕ) (w : World) → (hold_for_balance a w).1.tables ≡ w.tables
unfolding hold_for_balance
hold_for_balance-logs a w = ground arith

pub hold_for_balance-ok : (a : ℕ) (w : World) → (hold_for_balance a w).0 ≡ ok tt
unfolding hold_for_balance
hold_for_balance-ok a w = ground arith

hold_for_fee-ok : (a : ℕ) (w : World) → (hold_for_fee a w).0 ≡ ok tt
unfolding hold_for_fee
hold_for_fee-ok a w = ground arith

pub fits-total :
    (c : Chain) (b a f : ℕ)
    → AddsChecked c
    → payout_fits_balance c b a f ≡ true
    → (total_of c a f ≡ a + f) × (a + f ≤ b)
unfolding payout_fits_balance
fits-total c b a f add h = elim (Option-cases (c.add a f)) [
  | inl failed ↦ ground arith
  | inr (s, e) ↦ let sum = add a f s e in ground arith
]

approve-Balanced :
    (cfg : Config) (c : Chain) (available : ℕ) (held : List ℕ) (a x : ℕ) (k : PayoutKind) (f : ℕ)
    (w : World)
    → AddsChecked c
    → available < 18446744073709551616
    → Balanced available (committed_in w) (approve cfg c (available, held) a x k f w)
unfolding approve release_hold
approve-Balanced cfg c available held a x k f w add small =
    let status = if cfg.dry_run then AuditStatus.dry_run else AuditStatus.approved in
    let new = new_log w.tables a x f k status in
    ground (
      arith,
      hold_for_fee-logs a w,
      hold_for_fee-ok a w,
      hold_for_balance-logs a w,
      hold_for_balance-ok a w,
      fits-total c available x f add,
      insert_audit_log-cases a x f k status w,
      sum_of-append (λ l. l.amount + l.fee) w.tables.audit_logs (new ∷ []),
    )

get_staker_preference-logs :
    (a : ℕ) (w : World) → committed_in (get_staker_preference a w).1 ≡ committed_in w
unfolding get_staker_preference
get_staker_preference-logs a w = ground arith

estimated-Balanced :
    (cfg : Config) (c : Chain) (head : ℕ) (acc : Carried) (a x : ℕ) (k : PayoutKind) (w : World)
    → AddsChecked c
    → acc.0 < 18446744073709551616
    → Balanced acc.0 (committed_in w) (estimated cfg c head acc a x k w)
unfolding estimated
estimated-Balanced cfg c head (available, held) a x k w add small =
    let tx : Payout = record { kind = k; recipient = a; amount = x; fee = 0; head = head } in
    elim (Bool-cases (c.builds tx)) [
      | inl built ↦ rw built (priced (c.estimate_fee tx))
      | inr unbuilt ↦ rw unbuilt (refl, small)
    ]
  where
    priced :
        (fee : Option ℕ)
        → Balanced available (committed_in w) (
            (elim fee as (λ _. M Carried) [
              | none ↦ pure (available, held)
              | some f ↦ approve cfg c (available, held) a x k f
            ])
              w)
    priced none = (refl, small)
    priced (some f) = approve-Balanced cfg c available held a x k f w add small

payout_row-Balanced :
    (cfg : Config) (c : Chain) (head : ℕ) (acc : Carried) (r : ℕ × ℕ) (w : World)
    → AddsChecked c
    → acc.0 < 18446744073709551616
    → Balanced acc.0 (committed_in w) (payout_row cfg c head acc r w)
unfolding payout_row
payout_row-Balanced cfg c head acc (a, x) w add small = elim (Bool-cases (c.parses a)) [
  | inl parsed ↦
      let w' = (get_staker_preference a w).1 in
      let k = payout_kind_for cfg c a (preference (get_staker_preference a w).0) in
      rw parsed (
        subst (λ n. Balanced acc.0 n (estimated cfg c head acc a x k w'))
          (get_staker_preference-logs a w) (estimated-Balanced cfg c head acc a x k w' add small))
  | inr unparsed ↦ rw unparsed (refl, small)
]

Balanced-after :
    (available before : ℕ) (k : Carried → M Carried) (r : Result Carried × World)
    → ((acc : Carried) (w : World)
        → acc.0 < 18446744073709551616
        → Balanced acc.0 (committed_in w) (k acc w))
    → Balanced available before r
    → Balanced available before (after k r)
Balanced-after available before k (ok acc, w) next h =
    Balanced-shift available before acc.0 (committed_in w) (k acc w) h.0 (next acc w h.1)
Balanced-after available before k (err e, w) next h = h

payout_loop-Balanced :
    (cfg : Config) (c : Chain) (head : ℕ) (acc : Carried) (rs : List (ℕ × ℕ)) (w : World)
    → AddsChecked c
    → acc.0 < 18446744073709551616
    → Balanced acc.0 (committed_in w) (payout_loop cfg c head acc rs w)
unfolding payout_loop
payout_loop-Balanced cfg c head acc [] w add small = (refl, small)
payout_loop-Balanced cfg c head acc (r ∷ rs) w add small =
    Balanced-after acc.0 (committed_in w) (λ acc'. payout_loop cfg c head acc' rs)
      (payout_row cfg c head acc r w)
      (λ acc' w' small'. payout_loop-Balanced cfg c head acc' rs w' add small')
      (payout_row-Balanced cfg c head acc r w add small)

get_eligible_for_payout-tables :
    (m : ℕ) (w : World) → (get_eligible_for_payout m w).1.tables ≡ w.tables
unfolding get_eligible_for_payout
get_eligible_for_payout-tables m w = ground arith

prune-logs : (r : Result Carried × World) → (after prune r).1.tables ≡ r.1.tables
unfolding prune
prune-logs (ok acc, w) = refl
prune-logs (err e, w) = refl

pay_all-within :
    (cfg : Config) (c : Chain) (rs : List (ℕ × ℕ)) (head b : ℕ) (w : World)
    → AddsChecked c
    → b < 18446744073709551616
    → committed_in (pay_all cfg c rs head b w).1 ≤ committed_in w + b
unfolding pay_all
pay_all-within cfg c rs head b w add small =
    let loop = payout_loop cfg c head (b, []) rs w in
    let kept = payout_loop-Balanced cfg c head (b, []) rs w add small in
    rw (prune-logs loop) (Balanced-le b (committed_in w) loop kept)

pay_eligible-within :
    (cfg : Config) (c : Chain) (rs : List (ℕ × ℕ)) (w : World) (b : ℕ)
    → AddsChecked c
    → c.balance ≡ some b
    → b < 18446744073709551616
    → committed_in (pay_eligible cfg c rs w).1 ≤ committed_in w + b
unfolding pay_eligible
pay_eligible-within cfg c rs w b add bal small = elim (Option-cases c.block_number) [
  | inl no_head ↦ rw no_head (omega arith)
  | inr (head, e) ↦
      let asked = λ (h : ℕ). or_raise c.balance Error.rpc >>= pay_all cfg c rs h in
      let steps =
        >>=-ok (or_raise c.block_number Error.rpc) asked w
          (or_raise-some c.block_number Error.rpc w e)
        ∙ >>=-ok (or_raise c.balance Error.rpc) (pay_all cfg c rs head) w
            (or_raise-some c.balance Error.rpc w bal) in
      rw steps (pay_all-within cfg c rs head b w add small)
]

-- Let the RPC client answer with the balance of the pool wallet. Then a round of payouts approves,
-- fees included, at most that balance, whatever the database refuses. `Luna.Add` is taken to add,
-- and the balance fits a uint64.
pub run_payouts-within_balance :
    (cfg : Config) (c : Chain) (w : World) (b : ℕ)
    → AddsChecked c
    → c.balance ≡ some b
    → b < 18446744073709551616
    → committed (run_payouts cfg c w).1.tables.audit_logs ≤ committed w.tables.audit_logs + b
unfolding run_payouts
run_payouts-within_balance cfg c w b add bal small =
    let listed = get_eligible_for_payout cfg.min_payout_luna w in
    go listed.0 listed.1 (get_eligible_for_payout-tables cfg.min_payout_luna w)
  where
    go :
        (r : Result (List (ℕ × ℕ))) (w' : World)
        → w'.tables ≡ w.tables
        → committed_in (after (pay_eligible cfg c) (r, w')).1 ≤ committed_in w + b
    go (ok rs) w' same = rw (← same) (pay_eligible-within cfg c rs w' b add bal small)
    go (err e) w' same = rw same (omega arith)
