-- ===== src/Actions/Keeping/Requests.antt =====
-- `ProcessRequestedActions` claims a request before its transaction goes out, and keeps the
-- invariant (internal/pool/lifecycle.go).
use go_pool.Prelude.{
  ℕ, ◌+◌, ◌≡◌, refl, sym, inl, inr, arith, List, [], ◌∷◌, ◌++◌, Option, true, ◌==◌, if◌then◌else◌,
  All, Bool-cases, Option-cases,
}
use go_pool.Store.{ActionState, ValidatorAction}
use go_pool.Store.Monad.{done, World, SentAction, for_request, Result, ok, err, Error, raise, try}
use go_pool.Store.Actions.{
  stage, is_open_request, is_claimed, set_state, set_submitted, mark_validator_action_processing,
  submit_validator_action, release_validator_action_processing,
}
use go_pool.Actions.{
  action_for_request, Env, Sending, not_sent, unanswered, sent_as, answer, submit_request,
  recover_claimed_validator_action, record_result, handle_claimed, on_no_rows, skip_no_rows,
  after_claim, handle_request, handle_requests,
}
use go_pool.Actions.Stages.{Follows-refl, times, is_for, RowOk, Inv, is_requested-inv}
use go_pool.Actions.Rows.{update-length}
use go_pool.Actions.Keeping.{
  IsGood, Good, Keeps, Good-refl, Good-trans, after-Good, both, All-map, everywhere,
  update_returning-Good, update_returning-ok, update_state-Good, skip_no_rows-Keeps,
  on_no_rows-Keeps,
}
use go_pool.Actions.Keeping.Changes.{
  IsProcessing, Claimed, claim-Change, release-Change, submit-Change, give_up-Change, claim-rows,
}

-- A transaction for a request goes out.
times-append :
    (i : ℕ) (xs : List SentAction) (s : SentAction)
    → times i (xs ++ s ∷ []) ≡ times i xs + (if is_for i s then 1 else 0)
times-append i [] s = ground arith
times-append i (x ∷ xs) s = ground (arith, times-append i xs s)

sent-RowOk :
    (i : ℕ) (xs : List SentAction) (a : ValidatorAction)
    → IsProcessing i a × RowOk xs a
    → RowOk (xs ++ for_request i ∷ []) a
sent-RowOk i xs a (p, r) = record {
  unsent = λ e.
      let at : stage a ≡ ActionState.requested = is_requested-inv (stage a) e in
      let none_sent = r.unsent e in
      let count = times-append a.id xs (for_request i) in
      elim (Bool-cases (a.id == i)) [
        | inl same ↦ absurd (let bad = p same in cc)
        | inr other ↦ ground arith
      ];
  kind = r.kind;
  outcome = r.outcome;
}

sent-rows :
    (i : ℕ) (sent : List SentAction) (xs : List ValidatorAction)
    → All (IsProcessing i) xs
    → All (RowOk sent) xs
    → All (RowOk (sent ++ for_request i ∷ [])) xs
sent-rows i sent [] ps rs = tt
sent-rows i sent (a ∷ xs) ps rs = (sent-RowOk i sent a (ps.0, rs.0), sent-rows i sent xs ps.1 rs.1)

sent-Inv :
    (i : ℕ) (w : World)
    → IsGood w
    → Claimed i w
    → Inv w.tables.actions (w.actions_sent ++ for_request i ∷ [])
sent-Inv i w inv (rows, none_sent, bound) = record {
  numbered = inv.numbered;
  rows = sent-rows i w.actions_sent w.tables.actions rows inv.rows;
  once = λ j.
      let count = times-append j w.actions_sent (for_request i) in
      let before = inv.once j in
      elim (Bool-cases (i == j)) [
        | inl same ↦ (let e : i ≡ j = ground arith in rw (sym e) (ground arith))
        | inr other ↦ ground arith
      ];
  fresh = λ j h.
      let count = times-append j w.actions_sent (for_request i) in
      let before = inv.fresh j h in ground arith;
  single = inv.single;
}

-- A state with the same rows, all of a request claimed.
Sendable : ℕ → World → World → Type 0
Sendable i w v = IsGood v × All (IsProcessing i) v.tables.actions × (v.tables ≡ w.tables)

answer-Sendable :
    (i : ℕ) (reply : Sending) (w : World)
    → IsGood w
    → Claimed i w
    → Sendable i w (answer (for_request i) reply w).1
unfolding Sendable
answer-Sendable i not_sent w inv c = (inv, c.0, refl)
answer-Sendable i unanswered w inv c = (sent-Inv i w inv c, c.0, refl)
answer-Sendable i (sent_as hash) w inv c = (sent-Inv i w inv c, c.0, refl)

submit_request-Sendable :
    (env : Env) (i : ℕ) (w : World)
    → IsGood w
    → Claimed i w
    → Sendable i w (submit_request env i w).1
unfolding submit_request Sendable
submit_request-Sendable env i w inv c = elim (Option-cases env.head) [
  | inl no_head ↦ rw no_head (inv, c.0, refl)
  | inr (head, is_head) ↦ rw is_head (elim (Bool-cases env.signs) [
    | inl signs ↦ rw signs (answer-Sendable i (env.send (for_request i)) w inv c)
    | inr unsigned ↦ rw unsigned (inv, c.0, refl)
  ])
]

record_result-Good :
    (i : ℕ) (r : Result (Option ℕ)) (w : World)
    → IsGood w
    → All (IsProcessing i) w.tables.actions
    → Good w (record_result i r w).1
unfolding record_result submit_validator_action
record_result-Good i (err e) w inv rows =
    update_state-Good i ActionState.failed w inv
      (All-map (λ a p. give_up-Change w.actions_sent i a p) w.tables.actions rows)
record_result-Good i (ok hash) w inv rows =
    update_returning-Good (is_claimed i) (set_submitted hash) w inv
      (everywhere (λ a. submit-Change w.actions_sent i hash a) w.tables.actions)

recover-Good :
    (i : ℕ) (w : World) → IsGood w → Claimed i w → Good w (recover_claimed_validator_action i w).1
unfolding recover_claimed_validator_action release_validator_action_processing
recover-Good i w inv c =
    after-Good skip_no_rows w (try (release_validator_action_processing i) w)
      (update_returning-Good (is_claimed i) (set_state ActionState.requested) w inv
        (everywhere (λ a. release-Change w.actions_sent i a c.1) w.tables.actions))
      skip_no_rows-Keeps

handle_claimed-Good :
    (env : Env) (i : ℕ) (w : World) → IsGood w → Claimed i w → Good w (handle_claimed env i w).1
unfolding handle_claimed Sendable
handle_claimed-Good env i w inv c = elim (Bool-cases (env.stopped_at_claim i)) [
  | inl stopped ↦ rw stopped (
      after-Good (λ _. raise Error.cancelled) w (recover_claimed_validator_action i w)
        (recover-Good i w inv c) (λ _. Good-refl))
  | inr going ↦
      let (inv', rows, same) = submit_request-Sendable env i w inv c in
      let v = (submit_request env i w).1 in
      let g : Good w v = (inv', rw same (Follows-refl w.tables.actions)) in
      rw going (elim (Bool-cases (env.stopped_after i)) [
        | inl stopped ↦ rw stopped g
        | inr going_on ↦ rw going_on (
            Good-trans w v (record_result i (submit_request env i w).0 v).1 g
              (record_result-Good i (submit_request env i w).0 v inv' rows))
      ])
]

claim-Claimed :
    (i : ℕ) (w : World)
    → IsGood w
    → (mark_validator_action_processing i w).0 ≡ ok tt
    → Claimed i (mark_validator_action_processing i w).1
unfolding mark_validator_action_processing
claim-Claimed i w inv h =
    let p = is_open_request i in
    let (some_open, rows, same_sent) =
      update_returning-ok p (set_state ActionState.processing) w h in
    let (claimed, none_sent, low, high) =
      claim-rows w.actions_sent i 1 w.tables.actions inv.numbered inv.rows some_open in
    let len = update-length p (set_state ActionState.processing) w.tables.actions in
    (rw rows claimed, rw same_sent none_sent, rw rows (omega arith))

-- The two outcomes of a claim that the code tells apart, and the others.
after_claim-Good :
    (env : Env) (i : ℕ) (w : World) (r : Result (Unit {0})) (v : World)
    → Good w v
    → (r ≡ ok tt → Claimed i v)
    → Good w (after_claim env i r v).1
after_claim-Good env i w (ok _) v g c =
    Good-trans w v (handle_claimed env i v).1 g (handle_claimed-Good env i v g.0 (c refl))
after_claim-Good env i w (err e) v g c =
    Good-trans w v (on_no_rows e done v).1 g (on_no_rows-Keeps e done Good-refl v g.0)

handle_request-Keeps :
    (env : Env) (a : ValidatorAction)
    → action_for_request a.action ≡ true
    → Keeps (handle_request env a)
unfolding handle_request mark_validator_action_processing
handle_request-Keeps env a requestable w inv =
    let m = mark_validator_action_processing a.id in
    rw requestable (
      after_claim-Good env a.id w (m w).0 (m w).1
        (update_returning-Good (is_open_request a.id) (set_state ActionState.processing) w inv
          (everywhere (λ x. claim-Change w.actions_sent a.id x) w.tables.actions))
        (claim-Claimed a.id w inv))

pub handle_requests-Keeps :
    (env : Env) (rs : List ValidatorAction)
    → All (λ a. action_for_request a.action ≡ true) rs
    → Keeps (handle_requests env rs)
unfolding handle_requests
handle_requests-Keeps env [] h = Good-refl
handle_requests-Keeps env (a ∷ rest) h =
    both (handle_request env a) (λ _. handle_requests env rest) (handle_request-Keeps env a h.0)
      (λ _. handle_requests-Keeps env rest h.1)
