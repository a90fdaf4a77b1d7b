-- ===== src/Stakers/Totals.antt =====
-- What a staker is shown as pending and as paid (`handleMe` of internal/api/staker_handlers.go).
use go_pool.Prelude.{
  ℕ, ◌+◌, ◌<◌, ◌≡◌, ◌∙◌, ap, arith, List, [], ◌∷◌, Bool, true, false, if◌then◌else◌, sum_of, add64,
  u64_mod,
}
use go_pool.Store.{PayslipStatus}
use go_pool.Stakers.{PayslipRow, count_payslip, totals}

-- The payslips that are still to be settled, those that are, and those that failed.
abbrev is_open : PayslipStatus → Bool
is_open PayslipStatus.pending = true
is_open PayslipStatus.out_for_payment = true
is_open PayslipStatus.awaiting_confirmation = true
is_open PayslipStatus.completed = false
is_open PayslipStatus.failed = false

abbrev is_settled : PayslipStatus → Bool
is_settled PayslipStatus.completed = true
is_settled PayslipStatus.pending = false
is_settled PayslipStatus.out_for_payment = false
is_settled PayslipStatus.awaiting_confirmation = false
is_settled PayslipStatus.failed = false

abbrev amount_if : (PayslipStatus → Bool) → List PayslipRow → ℕ
amount_if test rows = sum_of (λ r. if test r.status then r.amount else 0) rows

same_pair : {a b c d : ℕ} → a ≡ c → b ≡ d → ◌≡◌ {A = ℕ × ℕ} (a, b) (c, d)
same_pair e f i = (e i, f i)

add64-fits : (a b : ℕ) → a + b < u64_mod → add64 a b ≡ a + b
add64-fits a b fits = ground arith

-- One payslip of status `s` more.
one-counted :
    (s : PayslipStatus) (n pending paid : ℕ)
    → pending + (if is_open s then n else 0) < u64_mod
    → paid + (if is_settled s then n else 0) < u64_mod
    → count_payslip s n (pending, paid)
      ≡ (pending + (if is_open s then n else 0), paid + (if is_settled s then n else 0))
one-counted PayslipStatus.completed n p q fits settled =
    same_pair (omega arith) (add64-fits q n settled)
one-counted PayslipStatus.pending n p q fits settled = same_pair (add64-fits p n fits) (omega arith)
one-counted PayslipStatus.out_for_payment n p q fits settled =
    same_pair (add64-fits p n fits) (omega arith)
one-counted PayslipStatus.awaiting_confirmation n p q fits settled =
    same_pair (add64-fits p n fits) (omega arith)
one-counted PayslipStatus.failed n p q fits settled = same_pair (omega arith) (omega arith)

-- Where the amounts stay below 2 ^ 64, what is pending is what the payslips still to be settled add
-- up to, and what is paid is what the completed ones do; a failed payslip counts for neither.
totals-sums :
    (rows : List PayslipRow) (pending paid : ℕ)
    → pending + amount_if is_open rows < u64_mod
    → paid + amount_if is_settled rows < u64_mod
    → totals rows (pending, paid)
      ≡ (pending + amount_if is_open rows, paid + amount_if is_settled rows)
unfolding totals
totals-sums [] pending paid fits settled = same_pair (omega arith) (omega arith)
totals-sums (r ∷ rs) pending paid fits settled =
    let o = if is_open r.status then r.amount else 0 in
    let c = if is_settled r.status then r.amount else 0 in
    ap (totals rs) (one-counted r.status r.amount pending paid (omega arith) (omega arith))
    ∙ totals-sums rs (pending + o) (paid + c) (omega arith) (omega arith)
    ∙ same_pair (omega arith) (omega arith)
