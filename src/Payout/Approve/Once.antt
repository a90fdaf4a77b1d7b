-- ===== src/Payout/Approve/Once.antt =====
-- `runPayouts` (internal/pool/payout.go) approves no second payout for an address whose first one
-- has not been sent.
use go_pool.Prelude.{
  ℕ, ◌+◌, ◌≤◌, ◌≡◌, ◌==◌, ◌∙◌, refl, ap, inl, inr, arith, List, [], ◌∷◌, map, Option, none, some,
  Bool, true, false, ◌&&◌, if◌then◌else◌, sum_of, sum_of-append, any_of, keep, Bool-cases,
}
use go_pool.Store.{PayoutKind, AuditStatus, AuditLog, Payslip, Tables, is_approved}
use go_pool.Store.Monad.{
  World, Result, ok, err, Error, Payout, M, after, refused, or_raise, pure, ◌>>=◌,
}
use go_pool.Store.Statements.{unwritten, wrote}
use go_pool.Store.Payslips.{
  has_approved_log, pending_addresses, is_eligible, owed, get_eligible_for_payout,
}
use go_pool.Store.Payments.{new_log, insert_audit_log-cases, get_staker_preference}
use go_pool.Payout.Rules.{Config, Chain, payout_kind_for}
use go_pool.Payout.Approve.{
  Carried, preference, release_hold, approve, estimated, payout_row, payout_loop, prune, pay_all,
  pay_eligible, run_payouts,
}
use go_pool.Payout.Approve.Balance.{hold_for_fee-logs, hold_for_balance-logs}

-- The number of approved logs of an address, and of its rows among the eligible ones.
abbrev pub approved_of : ℕ → Tables → ℕ
approved_of x t = sum_of (λ l. if l.address == x && is_approved l.status then 1 else 0) t.audit_logs

abbrev rows_for : ℕ → List (ℕ × ℕ) → ℕ
rows_for x rs = sum_of (λ r. if r.0 == x then 1 else 0) rs

abbrev times : ℕ → List ℕ → ℕ
times x addrs = sum_of (λ a. if a == x then 1 else 0) addrs

times-none : (x : ℕ) (addrs : List ℕ) → any_of (λ a. a == x) addrs ≡ false → times x addrs ≡ 0
times-none x [] h = refl
times-none x (a ∷ addrs) h = ground (arith, times-none x addrs)

pending-once : (x : ℕ) (ps : List Payslip) → times x (pending_addresses ps) ≤ 1
unfolding pending_addresses
pending-once x [] = omega arith
pending-once x (s ∷ ps) = ground (arith, pending-once x ps, times-none x (pending_addresses ps))

rows_for-le :
    (x : ℕ) (p : ℕ → Bool) (f : ℕ → ℕ) (addrs : List ℕ)
    → rows_for x (map (λ a. (a, f a)) (keep p addrs)) ≤ times x addrs
rows_for-le x p f [] = omega arith
rows_for-le x p f (a ∷ addrs) = ground (arith, rows_for-le x p f addrs)

rows_for-none :
    (x : ℕ) (p : ℕ → Bool) (f : ℕ → ℕ) (addrs : List ℕ)
    → p x ≡ false
    → rows_for x (map (λ a. (a, f a)) (keep p addrs)) ≡ 0
rows_for-none x p f [] h = refl
rows_for-none x p f (a ∷ addrs) h = elim (Bool-cases (a == x)) [
  | inl here ↦
      let same : a ≡ x = ground arith in
      let out : p a ≡ false = ap p same ∙ h in rw out (rows_for-none x p f addrs h)
  | inr apart ↦ ground (arith, rows_for-none x p f addrs h)
]

unapproved :
    (x : ℕ) (ls : List AuditLog)
    → has_approved_log x ls ≡ false
    → sum_of (λ l. if l.address == x && is_approved l.status then 1 else 0) ls ≡ 0
unapproved x [] h = refl
unapproved x (l ∷ ls) h = ground (arith, unapproved x ls)

-- At most this many approved logs are added for an address.
abbrev Adds : ℕ → ℕ → World → World → Type 0
Adds x n w w' = approved_of x w'.tables ≤ approved_of x w.tables + n

approve-Adds :
    (x : ℕ) (cfg : Config) (c : Chain) (acc : Carried) (a amount : ℕ) (k : PayoutKind) (fee : ℕ)
    (w : World)
    → Adds x (if a == x then 1 else 0) w (approve cfg c acc a amount k fee w).1
unfolding approve release_hold
approve-Adds x cfg c (available, held) a amount k fee w =
    let status = if cfg.dry_run then AuditStatus.dry_run else AuditStatus.approved in
    let new = new_log w.tables a amount fee k status in
    ground (
      arith,
      hold_for_fee-logs a w,
      hold_for_balance-logs a w,
      insert_audit_log-cases a amount fee k status w,
      sum_of-append (λ l. if l.address == x && is_approved l.status then 1 else 0)
          w.tables.audit_logs (new ∷ []),
    )

estimated-Adds :
    (x : ℕ) (cfg : Config) (c : Chain) (head : ℕ) (acc : Carried) (a amount : ℕ) (k : PayoutKind)
    (w : World)
    → Adds x (if a == x then 1 else 0) w (estimated cfg c head acc a amount k w).1
unfolding estimated
estimated-Adds x cfg c head acc a amount k w =
    let tx : Payout = record { kind = k; recipient = a; amount = amount; fee = 0; head = head } in
    elim (Bool-cases (c.builds tx)) [
      | inl built ↦ rw built (priced (c.estimate_fee tx))
      | inr unbuilt ↦ rw unbuilt (omega arith)
    ]
  where
    priced :
        (fee : Option ℕ)
        → Adds x
            (if a == x then 1 else 0)
            w
            ((elim fee as (λ _. M Carried) [
              | none ↦ pure acc
              | some f ↦ approve cfg c acc a amount k f
            ])
              w).1
    priced none = omega arith
    priced (some f) = approve-Adds x cfg c acc a amount k f w

get_staker_preference-same :
    (x a : ℕ) (w : World)
    → approved_of x (get_staker_preference a w).1.tables ≡ approved_of x w.tables
unfolding get_staker_preference
get_staker_preference-same x a w = ground arith

payout_row-Adds :
    (x : ℕ) (cfg : Config) (c : Chain) (head : ℕ) (acc : Carried) (r : ℕ × ℕ) (w : World)
    → Adds x (if r.0 == x then 1 else 0) w (payout_row cfg c head acc r w).1
unfolding payout_row
payout_row-Adds x cfg c head acc (a, amount) w = elim (Bool-cases (c.parses a)) [
  | inl parsed ↦
      let w' = (get_staker_preference a w).1 in
      let k = payout_kind_for cfg c a (preference (get_staker_preference a w).0) in
      let added = estimated-Adds x cfg c head acc a amount k w' in
      let same = get_staker_preference-same x a w in rw parsed (omega (arith, added, same))
  | inr unparsed ↦ rw unparsed (omega arith)
]

after-Adds {ℓ κ} :
    {A : Type ℓ} {B : Type κ} (x n m : ℕ) (w : World) (f : A → M B) (r : Result A × World)
    → Adds x n w r.1
    → ((a : A) (w' : World) → Adds x m w' (f a w').1)
    → Adds x (n + m) w (after f r).1
after-Adds x n m w f (ok a, w') h next = omega (arith, h, next a w')
after-Adds x n m w f (err e, w') h next = omega (arith, h)

payout_loop-Adds :
    (x : ℕ) (cfg : Config) (c : Chain) (head : ℕ) (acc : Carried) (rs : List (ℕ × ℕ)) (w : World)
    → Adds x (rows_for x rs) w (payout_loop cfg c head acc rs w).1
unfolding payout_loop
payout_loop-Adds x cfg c head acc [] w = omega arith
payout_loop-Adds x cfg c head acc (r ∷ rs) w =
    after-Adds x (if r.0 == x then 1 else 0) (rows_for x rs) w
      (λ acc'. payout_loop cfg c head acc' rs) (payout_row cfg c head acc r w)
      (payout_row-Adds x cfg c head acc r w) (λ acc' w'. payout_loop-Adds x cfg c head acc' rs w')

pay_all-Adds :
    (x : ℕ) (cfg : Config) (c : Chain) (rs : List (ℕ × ℕ)) (head b : ℕ) (w : World)
    → Adds x (rows_for x rs) w (pay_all cfg c rs head b w).1
unfolding pay_all prune
pay_all-Adds x cfg c rs head b w =
    let loop = payout_loop cfg c head (b, []) rs w in
    let added =
      after-Adds x (rows_for x rs) 0 w prune loop (payout_loop-Adds x cfg c head (b, []) rs w)
        (λ acc w'. omega arith) in
    omega (arith, added)

or_raise-Adds :
    (x n : ℕ) (o : Option ℕ) (f : ℕ → M (Unit {0})) (w : World)
    → ((a : ℕ) → Adds x n w (f a w).1)
    → Adds x n w ((or_raise o Error.rpc >>= f) w).1
or_raise-Adds x n none f w next = omega arith
or_raise-Adds x n (some a) f w next = next a

pay_eligible-Adds :
    (x : ℕ) (cfg : Config) (c : Chain) (rs : List (ℕ × ℕ)) (w : World)
    → Adds x (rows_for x rs) w (pay_eligible cfg c rs w).1
unfolding pay_eligible
pay_eligible-Adds x cfg c rs w =
    or_raise-Adds x (rows_for x rs) c.block_number
      (λ head. or_raise c.balance Error.rpc >>= pay_all cfg c rs head) w
      (λ head.
        or_raise-Adds x (rows_for x rs) c.balance (pay_all cfg c rs head) w
          (λ b. pay_all-Adds x cfg c rs head b w))

eligible_rows : ℕ → Tables → List (ℕ × ℕ)
eligible_rows min t =
    map (λ a. (a, owed a t.payslips)) (keep (is_eligible min t) (pending_addresses t.payslips))

-- An address among the eligible ones is there once, and has no approved log.
eligible-fits :
    (x min : ℕ) (t : Tables)
    → approved_of x t ≤ 1
    → approved_of x t + rows_for x (eligible_rows min t) ≤ 1
unfolding eligible_rows
eligible-fits x min t h =
    let addrs = pending_addresses t.payslips in
    let total = λ (a : ℕ). owed a t.payslips in
    elim (Bool-cases (has_approved_log x t.audit_logs)) [
      | inl approved ↦
          let out : is_eligible min t x ≡ false = ground arith in
          omega (arith, rows_for-none x (is_eligible min t) total addrs out)
      | inr unseen ↦
          let le = rows_for-le x (is_eligible min t) total addrs in
          let one = pending-once x t.payslips in
          omega (arith, unapproved x t.audit_logs unseen, le, one)
    ]

-- If an address has at most one approved payout, it has at most one behind a round of payouts, even
-- if the database refuses statements and whatever the chain answers: a payout that waits to be sent
-- is not approved a second time.
pub run_payouts-approves_once :
    (x : ℕ) (cfg : Config) (c : Chain) (w : World)
    → approved_of x w.tables ≤ 1
    → approved_of x (run_payouts cfg c w).1.tables ≤ 1
unfolding run_payouts get_eligible_for_payout eligible_rows
run_payouts-approves_once x cfg c w h = go (refused w.io)
  where
    rows : List (ℕ × ℕ)
    rows = eligible_rows cfg.min_payout_luna w.tables

    go :
        (b : Bool)
        → let r : Result (List (ℕ × ℕ)) × World =
            if b then (err Error.sql, unwritten w) else (ok rows, wrote w w.tables) in
          approved_of x (after (pay_eligible cfg c) r).1.tables ≤ 1
    go true = h
    go false =
        let fits = eligible-fits x cfg.min_payout_luna w.tables h in
        omega (arith, pay_eligible-Adds x cfg c rows (wrote w w.tables), fits)
