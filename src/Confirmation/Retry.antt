-- ===== src/Confirmation/Retry.antt =====
-- The operator's retry of a failed payout (handleOperatorPayoutSub in
-- internal/api/operator_operations_handlers.go) gives back what the failed payout would have paid.
use go_pool.Prelude.{
  ℕ, ◌+◌, ◌<◌, ◌≡◌, ◌⊎◌, ◌==◌, ◌∙◌, refl, sym, ap, inl, inr, arith, List, [], ◌∷◌, ◌++◌, ◌&&◌,
  if◌then◌else◌, sum_of, length, keep, Bool-cases,
}
use go_pool.Store.{Payslip, Tables, payout_retry_requested}
use go_pool.Store.Monad.{
  World, Result, ok, Error, stmt, exec, refused, M, ◌>>=◌, ◌>>◌, >>=-inv, pure, raise,
}
use go_pool.Store.Statements.{unwritten, RolledBack, in_tx-cases, ok-value, plain_stmt-ok}
use go_pool.Store.Payslips.{
  update_where, is_retryable, set_retried, retry_failed_payout_payslips, owed,
}
use go_pool.Confirmation.{insert_operator_event, retry_payout}

-- What a retry gives back to an address.
unfoldable pub refund : ℕ → ℕ → Tables → List Payslip → ℕ
refund h a t ps = sum_of (λ s. if is_retryable h t s && s.address == a then s.amount else 0) ps

-- The payslips of a failed payout are pending again.
abbrev retried_slips : ℕ → Tables → Tables
retried_slips h t = record t { payslips = update_where (is_retryable h t) set_retried t.payslips }

-- With the event of the retry of this many payslips.
abbrev with_event : ℕ → ℕ → Tables → Tables
with_event h n t = record t { api_events = t.api_events ++ payout_retry_requested h n ∷ [] }

-- How many payslips of a failed payout there are to give back.
abbrev pub retryable_count : ℕ → Tables → ℕ
retryable_count h t = length (keep (is_retryable h t) t.payslips)

-- The tables behind a retry.
abbrev pub retried : ℕ → Tables → Tables
retried h t = with_event h (retryable_count h t) (retried_slips h t)

owed-retried :
    (h a : ℕ) (t : Tables) (ps : List Payslip)
    → owed a (update_where (is_retryable h t) set_retried ps) ≡ owed a ps + refund h a t ps
unfolding owed refund
owed-retried h a t [] = omega arith
owed-retried h a t (s ∷ ps) = ground (arith, owed-retried h a t ps)

retried-tables :
    (h n : ℕ) (w w' : World)
    → retry_failed_payout_payslips h w ≡ (ok n, w')
    → (n ≡ retryable_count h w.tables) × (w'.tables ≡ retried_slips h w.tables)
unfolding retry_failed_payout_payslips
retried-tables h n w w' e =
    let (count, slips) = plain_stmt-ok (retryable_count h) (retried_slips h) w w' n e in
    (sym count, sym slips)

-- What follows the statement.
abbrev noted : ℕ → ℕ → M ℕ
noted h n =
    if n == 0
    then raise Error.invalid_retry
    else (insert_operator_event (payout_retry_requested h n) >> pure n)

-- The body of the transaction.
abbrev body : ℕ → M ℕ
body h = retry_failed_payout_payslips h >>= noted h

noted-ok :
    (h n m : ℕ) (w : World)
    → (noted h n w).0 ≡ ok m
    → (0 < n) × (m ≡ n) × ((noted h n w).1.tables ≡ with_event h n w.tables)
unfolding insert_operator_event stmt exec
noted-ok h n m w e = elim (Bool-cases (n == 0)) [
  | inl nothing ↦ let bad = rw nothing at e in cc
  | inr retried_some ↦
      let run = rw retried_some at e in
      elim (Bool-cases (refused w.io)) [
        | inl no_io ↦ let bad = rw no_io at run in cc
        | inr io ↦
            let went = rw io at run in
            (ground arith, ok-value _ n (sym went), rw retried_some (rw io refl))
      ]
]

body-ok :
    (h n : ℕ) (w : World)
    → (body h w).0 ≡ ok n
    → (0 < n) × (n ≡ retryable_count h w.tables) × ((body h w).1.tables ≡ retried h w.tables)
body-ok h n w e =
    let (m, w', step, run) = >>=-inv (retry_failed_payout_payslips h) (noted h) w e in
    let (pos, same, event) = noted-ok h m n w' (rw run at e) in
    let (count, slips) = retried-tables h m w w' step in
    (
      rw same pos,
      same ∙ count,
      ap (λ (x : Result ℕ × World). x.1.tables) run
          ∙ event
          ∙ (λ i. with_event h (count i) (slips i)),
    )

-- Whatever the database refuses, a retry either returns an error and leaves every table as it was,
-- or it succeeds: then there was a payslip to give back, their number is returned, only payslips
-- changed, apart from the event of the retry that is added, and what each address is owed has grown
-- by exactly its failed payslips under the hash, counted only if the transaction failed and the
-- address waits for no other one.
pub retry_payout-refunds :
    (h a : ℕ) (w : World)
    → let (r, w') = retry_payout h w in
      RolledBack w.tables (r, w')
      ⊎ ((n : ℕ) × (r ≡ ok n)
          × (0 < n)
          × (n ≡ retryable_count h w.tables)
          × (w'.tables ≡ retried h w.tables)
          × (owed a w'.tables.payslips
              ≡ owed a w.tables.payslips + refund h a w.tables w.tables.payslips))
unfolding retry_payout
retry_payout-refunds h a w = elim (in_tx-cases (body h) w) [
  | inl back ↦ inl back
  | inr (n, e, r) ↦
      let (pos, count, t) = body-ok h n (unwritten w) e in
      let now : (retry_payout h w).1.tables ≡ retried h w.tables =
        ap (λ (x : Result ℕ × World). x.1.tables) r ∙ t in
      inr (
        n,
        ap (λ (x : Result ℕ × World). x.0) r,
        pos,
        count,
        now,
        ap (λ (x : Tables). owed a x.payslips) now ∙ owed-retried h a w.tables w.tables.payslips,
      )
]
