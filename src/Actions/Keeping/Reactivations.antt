-- ===== src/Actions/Keeping/Reactivations.antt =====
-- New rows and automatic reactivations keep the invariant (internal/pool/lifecycle.go).
use go_pool.Prelude.{
  ℕ, suc, ◌+◌, ◌≡◌, refl, ap, ◌∙◌, inl, inr, arith, List, [], ◌∷◌, ◌++◌, Option, none, Bool, true,
  false, ◌||◌, if◌then◌else◌, All-append, length, Bool-cases, Option-cases, length-append,
}
use go_pool.Store.{
  ActionKind, deactivate, retire, reactivate, create, self_stake, ActionOutcome, ValidatorAction,
}
use go_pool.Store.Monad.{
  SentAction, own, Result, ok, err, Error, ◌>>=◌, or_raise, raise, done, try, refused, stmt, exec,
}
use go_pool.Store.Actions.{
  same_action, stage_of, is_requested, is_processing, is_outstanding, insert_validator_action,
  has_pending_validator_action, has_outstanding_validator_action, new_action,
}
use go_pool.Actions.{
  action_for_request, Env, Sending, not_sent, unanswered, sent_as, answer, sign, record_outcome,
  send_reactivation, reactivate_unless_busy, reactivate_if_free, should_reactivate,
  run_auto_reactivate,
}
use go_pool.Actions.Stages.{
  Follows, Follows-refl, Follows-append, times, RowOk, IsNumbered, outstanding, Inv,
}
use go_pool.Actions.Keeping.{Keeps, Good-refl, both, when, or_raise-Keeps, query-Keeps, All-map}
use go_pool.Actions.Keeping.Changes.{past-RowOk}

append-IsNumbered :
    (n : ℕ) (xs : List ValidatorAction) (a : ValidatorAction)
    → IsNumbered n xs
    → a.id ≡ n + length xs
    → IsNumbered n (xs ++ a ∷ [])
append-IsNumbered n [] a k h = (omega arith, tt)
append-IsNumbered n (x ∷ xs) a k h = (k.0, append-IsNumbered (suc n) xs a k.1 (omega arith))

append-outstanding :
    (k : ActionKind) (xs : List ValidatorAction) (a : ValidatorAction)
    → outstanding k (xs ++ a ∷ []) ≡ outstanding k xs + (if is_outstanding k a then 1 else 0)
append-outstanding k [] a = ground arith
append-outstanding k (x ∷ xs) a = ground (arith, append-outstanding k xs a)

-- A new row that is the only outstanding one of its kind, or none.
pub append-Inv :
    (sent : List SentAction) (xs : List ValidatorAction) (a : ValidatorAction)
    → Inv xs sent
    → a.id ≡ length xs + 1
    → RowOk sent a
    → ((k : ActionKind)
        → action_for_request k ≡ true
        → is_outstanding k a ≡ true
        → outstanding k xs ≡ 0)
    → Inv (xs ++ a ∷ []) sent × Follows xs (xs ++ a ∷ [])
append-Inv sent xs a inv id r alone =
    let len = length-append xs (a ∷ []) in
    (
      record {
        numbered = append-IsNumbered 1 xs a inv.numbered (omega arith);
        rows = All-append (RowOk sent) xs (a ∷ []) inv.rows (r, tt);
        once = inv.once;
        fresh = λ i h. inv.fresh i (omega arith);
        single = λ k h.
            let count = append-outstanding k xs a in
            let before = inv.single k h in
            elim (Bool-cases (is_outstanding k a)) [
              | inl out ↦ (let none_before = alone k h out in ground arith)
              | inr not_out ↦ ground arith
            ];
      },
      Follows-append xs (a ∷ []),
    )

pub same_action-inv : (j k : ActionKind) → same_action j k ≡ true → j ≡ k
same_action-inv deactivate deactivate h = refl
same_action-inv retire retire h = refl
same_action-inv reactivate reactivate h = refl
same_action-inv create create h = refl
same_action-inv self_stake self_stake h = refl
same_action-inv deactivate retire h = cc
same_action-inv deactivate reactivate h = cc
same_action-inv deactivate create h = cc
same_action-inv deactivate self_stake h = cc
same_action-inv retire deactivate h = cc
same_action-inv retire reactivate h = cc
same_action-inv retire create h = cc
same_action-inv retire self_stake h = cc
same_action-inv reactivate deactivate h = cc
same_action-inv reactivate retire h = cc
same_action-inv reactivate create h = cc
same_action-inv reactivate self_stake h = cc
same_action-inv create deactivate h = cc
same_action-inv create retire h = cc
same_action-inv create reactivate h = cc
same_action-inv create self_stake h = cc
same_action-inv self_stake deactivate h = cc
same_action-inv self_stake retire h = cc
same_action-inv self_stake reactivate h = cc
same_action-inv self_stake create h = cc

insert-Keeps :
    (k : ActionKind) (hash : Option ℕ) (o : ActionOutcome)
    → action_for_request k ≡ false
    → (is_requested (stage_of o none) || is_processing (stage_of o none)) ≡ false
    → Keeps (insert_validator_action k hash o)
unfolding insert_validator_action exec stmt
insert-Keeps k hash o own_account past w inv =
    let row = new_action w.tables k hash o none in
    elim (Bool-cases (refused w.io)) [
      | inl no_io ↦ rw no_io (Good-refl w inv)
      | inr io ↦ rw io (
          append-Inv w.actions_sent w.tables.actions row inv refl
            (past-RowOk w.actions_sent row past)
            (λ j h out.
              let same : k ≡ j = same_action-inv k j (ground arith) in
              absurd (let not_asked = ap action_for_request same in cc)))
    ]

record_outcome-Keeps :
    (k : ActionKind)
    → action_for_request k ≡ false
    → (r : Result (Option ℕ)) → Keeps (record_outcome k r)
record_outcome-Keeps k h (ok hash) = insert-Keeps k hash ActionOutcome.pending h refl
record_outcome-Keeps k h (err e) =
    both (insert_validator_action k none ActionOutcome.failed) (λ _. raise e)
      (insert-Keeps k none ActionOutcome.failed h refl) (λ _. Good-refl)

times-own :
    (i : ℕ) (k : ActionKind) (xs : List SentAction) → times i (xs ++ own k ∷ []) ≡ times i xs
times-own i k [] = refl
times-own i k (x ∷ xs) = ground (arith, times-own i k xs)

own-Inv :
    (k : ActionKind) (xs : List ValidatorAction) (sent : List SentAction)
    → Inv xs sent
    → Inv xs (sent ++ own k ∷ [])
own-Inv k xs sent inv = record {
  numbered = inv.numbered;
  rows =
      All-map
        (λ a r. record {
          unsent = λ h. times-own a.id k sent ∙ r.unsent h;
          kind = r.kind;
          outcome = r.outcome;
        })
        xs inv.rows;
  once = λ i. rw times-own (inv.once i);
  fresh = λ i h. times-own i k sent ∙ inv.fresh i h;
  single = inv.single;
}

answer-Keeps : (k : ActionKind) (reply : Sending) → Keeps (answer (own k) reply)
answer-Keeps k not_sent w inv = Good-refl w inv
answer-Keeps k unanswered w inv =
    (own-Inv k w.tables.actions w.actions_sent inv, Follows-refl w.tables.actions)
answer-Keeps k (sent_as hash) w inv =
    (own-Inv k w.tables.actions w.actions_sent inv, Follows-refl w.tables.actions)

-- A transaction on the daemon's own account is tried and recorded.
pub own_action-Keeps :
    (k : ActionKind) (reply : Sending)
    → action_for_request k ≡ false
    → Keeps (try (answer (own k) reply) >>= record_outcome k)
own_action-Keeps k reply h =
    both (try (answer (own k) reply)) (record_outcome k) (answer-Keeps k reply)
      (record_outcome-Keeps k h)

send_reactivation-Keeps : (env : Env) → Keeps (send_reactivation env)
send_reactivation-Keeps env =
    both (sign env)
      (λ _. try (answer (own reactivate) (env.send (own reactivate))) >>= record_outcome reactivate)
      (when env.signs done (raise Error.bad_tx) Good-refl Good-refl)
      (λ _. own_action-Keeps reactivate (env.send (own reactivate)) refl)

unless_busy-Keeps : (env : Env) → Keeps (reactivate_unless_busy env)
unfolding reactivate_unless_busy has_pending_validator_action has_outstanding_validator_action
unless_busy-Keeps env =
    let after_retiring = λ (b : Bool). if b then done else send_reactivation env in
    let after_deactivating = λ (b : Bool).
      if b then done else (has_outstanding_validator_action retire >>= after_retiring) in
    both (has_pending_validator_action reactivate)
      (λ b.
        if b then done else (has_outstanding_validator_action deactivate >>= after_deactivating))
      (query-Keeps _)
      (λ b. when b done _ Good-refl (
        both (has_outstanding_validator_action deactivate) after_deactivating (query-Keeps _) (λ c.
          when c done _ Good-refl (
            both (has_outstanding_validator_action retire) after_retiring (query-Keeps _)
              (λ d. when d done _ Good-refl (send_reactivation-Keeps env))))))

pub run_auto_reactivate-Keeps : (env : Env) → Keeps (run_auto_reactivate env)
unfolding run_auto_reactivate reactivate_if_free
run_auto_reactivate-Keeps env w inv = elim (Option-cases env.jailed_from) [
  | inl none_found ↦ rw none_found (Good-refl w inv)
  | inr (jailed_from, is_found) ↦ rw is_found (
      both (or_raise env.head Error.rpc)
        (λ head. if should_reactivate jailed_from head then reactivate_unless_busy env else done)
        (or_raise-Keeps env.head Error.rpc)
        (λ head. when _ (reactivate_unless_busy env) done (unless_busy-Keeps env) Good-refl) w inv)
]
