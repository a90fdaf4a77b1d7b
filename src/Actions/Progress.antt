-- ===== src/Actions/Progress.antt =====
-- An undisturbed run of `ProcessRequestedActions` (internal/pool/lifecycle.go) sends what was
-- requested.
pub mod Run
use go_pool.Prelude.{
  ℕ, suc, ◌+◌, ◌<◌, ◌≡◌, ◌∙◌, refl, ap, sym, inl, inr, arith, List, [], ◌∷◌, ◌++◌, Option, none,
  some, Bool, true, false, ◌&&◌, ◌==◌, if◌then◌else◌, All, any_of, keep, length, All-append, ◌≤◌,
  Bool-cases, ==_refl,
}
use go_pool.Store.{ActionState, ActionOutcome, ValidatorAction}
use go_pool.Store.Monad.{
  World, SentAction, for_request, Result, ok, err, Error, M, ◌>>=◌, ◌>>◌, >>=-ok, after, try, done,
  raise, or_raise, pure, stmt, query, exec, refused, later,
}
use go_pool.Store.Payslips.{update_where}
use go_pool.Store.Memory.{Leaves, both-Leaves, when-Leaves}
use go_pool.Store.Actions.{
  stage, is_requested, is_open_request, is_claimed, set_state, set_submitted, update_returning,
  mark_validator_action_processing, submit_validator_action, get_requested_validator_actions,
}
use go_pool.Actions.{
  Env, sent_as, action_for_request, submit_request, sign, answer, record_result, handle_claimed,
  after_claim, handle_request, handle_requests, check_submitted_validator_actions,
  process_requested_actions,
}
use go_pool.Actions.Stages.{IsNumbered, is_requested-inv}

-- Nothing stands in the way of a run: the node answers, transactions are signed and sent, and the
-- context is not cancelled.
pub record IsUndisturbed (env : Env) (head : ℕ) (hash : ℕ → Option ℕ) : Type 0 where
  pub head_known : env.head ≡ some head
  pub signed : env.signs ≡ true
  pub answered : (i : ℕ) → env.send (for_request i) ≡ sent_as (hash i)
  pub claimed : (i : ℕ) → env.stopped_at_claim i ≡ false
  pub finished : (i : ℕ) → env.stopped_after i ≡ false

-- The transactions for the requested rows, in their order.
abbrev pub requests_of : List ValidatorAction → List SentAction
requests_of [] = []
requests_of (a ∷ xs) =
    let rest = requests_of xs in if is_requested (stage a) then for_request a.id ∷ rest else rest

-- A world with these rows, whose database takes every statement.
abbrev pub with_rows : World → List ValidatorAction → List SentAction → World
with_rows w xs sent = record w {
  tables = record w.tables { actions = xs };
  io = [];
  actions_sent = sent;
}

update_returning-calm :
    (p : ValidatorAction → Bool) (f : ValidatorAction → ValidatorAction) (w : World)
    (xs : List ValidatorAction) (sent : List SentAction)
    → any_of p xs ≡ true
    → update_returning p f (with_rows w xs sent) ≡ (ok tt, with_rows w (update_where p f xs) sent)
unfolding update_returning stmt
update_returning-calm p f w xs sent h = rw h refl

-- A test that only the row in the middle passes.
update-middle :
    (p : ValidatorAction → Bool) (f : ValidatorAction → ValidatorAction)
    (pre : List ValidatorAction) (a : ValidatorAction) (post : List ValidatorAction)
    → All (λ x. p x ≡ false) pre
    → p a ≡ true
    → All (λ x. p x ≡ false) post
    → (update_where p f (pre ++ a ∷ post) ≡ pre ++ f a ∷ post) × (any_of p (pre ++ a ∷ post) ≡ true)
update-middle p f [] a post before here behind =
    (rw here (ap (λ xs. f a ∷ xs) (untouched post behind)), rw here refl)
  where
    untouched : (xs : List ValidatorAction) → All (λ x. p x ≡ false) xs → update_where p f xs ≡ xs
    untouched [] h = refl
    untouched (x ∷ xs) h = rw h.0 (ap (λ ys. x ∷ ys) (untouched xs h.1))
update-middle p f (x ∷ pre) a post before here behind =
    let (rows, some_row) = update-middle p f pre a post before.1 here behind in
    (rw before.0 (ap (λ ys. x ∷ ys) rows), ground arith)

-- No row has an id.
abbrev pub Lacks : ℕ → List ValidatorAction → Type 0
Lacks i xs = All (λ x. (x.id == i) ≡ false) xs

Lacks-open :
    (i : ℕ) (xs : List ValidatorAction) → Lacks i xs → All (λ x. is_open_request i x ≡ false) xs
Lacks-open i [] h = tt
Lacks-open i (x ∷ xs) h = (rw h.0 refl, Lacks-open i xs h.1)

Lacks-claimed :
    (i : ℕ) (xs : List ValidatorAction) → Lacks i xs → All (λ x. is_claimed i x ≡ false) xs
Lacks-claimed i [] h = tt
Lacks-claimed i (x ∷ xs) h = (rw h.0 refl, Lacks-claimed i xs h.1)

module _ (env : Env) (head : ℕ) (hash : ℕ → Option ℕ) (w : World) (u : IsUndisturbed env head hash)
    (pre : List ValidatorAction) (a : ValidatorAction) (post : List ValidatorAction)
    (before : Lacks a.id pre) (behind : Lacks a.id post) where
  mark-claims :
      (sent : List SentAction)
      → is_requested (stage a) ≡ true
      → mark_validator_action_processing a.id (with_rows w (pre ++ a ∷ post) sent)
        ≡ (ok tt, with_rows w (pre ++ set_state ActionState.processing a ∷ post) sent)
  unfolding mark_validator_action_processing
  mark-claims sent requested =
      let p = is_open_request a.id in
      let f = set_state ActionState.processing in
      let self = ==_refl a.id in
      let here : p a ≡ true = rw self requested in
      let (rows, found) =
        update-middle p f pre a post (Lacks-open a.id pre before) here
          (Lacks-open a.id post behind) in
      update_returning-calm p f w (pre ++ a ∷ post) sent found
      ∙ ap (λ xs. (ok tt, with_rows w xs sent)) rows

  submit-submits :
      (sent : List SentAction)
      → submit_validator_action a.id
          (hash a.id)
          (with_rows w (pre ++ set_state ActionState.processing a ∷ post) sent)
        ≡ (ok tt, with_rows w (pre ++ set_submitted (hash a.id) a ∷ post) sent)
  unfolding submit_validator_action
  submit-submits sent =
      let p = is_claimed a.id in
      let f = set_submitted (hash a.id) in
      let b = set_state ActionState.processing a in
      let self = ==_refl a.id in
      let here : p b ≡ true = rw self refl in
      let (rows, found) =
        update-middle p f pre b post (Lacks-claimed a.id pre before) here
          (Lacks-claimed a.id post behind) in
      update_returning-calm p f w (pre ++ b ∷ post) sent found
      ∙ ap (λ xs. (ok tt, with_rows w xs sent)) rows

  sends :
      (xs : List ValidatorAction) (sent : List SentAction)
      → submit_request env a.id (with_rows w xs sent)
        ≡ (ok (hash a.id), with_rows w xs (sent ++ for_request a.id ∷ []))
  unfolding submit_request
  sends xs sent = rw u.head_known (rw u.signed (rw (u.answered a.id) refl))

  -- One request, all of it.
  handle_request-sends :
      (sent : List SentAction)
      → action_for_request a.action ≡ true
      → is_requested (stage a) ≡ true
      → handle_request env a (with_rows w (pre ++ a ∷ post) sent) ≡ (
        ok tt,
        with_rows w (pre ++ set_submitted (hash a.id) a ∷ post) (sent ++ for_request a.id ∷ []),
      )
  unfolding handle_request handle_claimed record_result
  handle_request-sends sent requestable requested =
      let marked = mark-claims sent requested in
      let sending = sends (pre ++ set_state ActionState.processing a ∷ post) sent in
      let claim = u.claimed a.id in
      let finish = u.finished a.id in
      rw requestable (
        ap (λ r. after_claim env a.id r.0 r.1) marked
        ∙ rw claim (
            ap
              (λ r.
                (if env.stopped_after a.id then raise Error.cancelled else record_result a.id r.0)
                  r.1)
              sending
            ∙ rw finish (submit-submits (sent ++ for_request a.id ∷ []))))

append_nil : {A : Type 0} (xs : List A) → xs ++ [] ≡ xs
append_nil [] = refl
append_nil (x ∷ xs) = ap (λ ys. x ∷ ys) (append_nil xs)

append_assoc : {A : Type 0} (xs ys zs : List A) → (xs ++ ys) ++ zs ≡ xs ++ (ys ++ zs)
append_assoc [] ys zs = refl
append_assoc (x ∷ xs) ys zs = ap (λ s. x ∷ s) (append_assoc xs ys zs)

Lacks-behind : (i n : ℕ) (xs : List ValidatorAction) → IsNumbered n xs → i < n → Lacks i xs
Lacks-behind i n [] k lt = tt
Lacks-behind i n (x ∷ xs) k lt = (ground (arith, k.0), Lacks-behind i (suc n) xs k.1 (omega arith))

-- The rows before a number have smaller ids.
abbrev pub IsBefore : ℕ → List ValidatorAction → Type 0
IsBefore n pre = (i : ℕ) → n ≤ i → Lacks i pre

IsBefore-next :
    (n : ℕ) (pre : List ValidatorAction) (x : ValidatorAction)
    → IsBefore n pre
    → x.id ≡ n
    → IsBefore (suc n) (pre ++ x ∷ [])
IsBefore-next n pre x h at i le =
    All-append (λ y. (y.id == i) ≡ false) pre (x ∷ []) (h i (omega arith)) (ground (arith, at), tt)

-- What is asked for can be.
abbrev pub AllRequestable : List ValidatorAction → Type 0
AllRequestable xs = All (λ a. is_requested (stage a) ≡ true → action_for_request a.action ≡ true) xs

module _ (env : Env) (head : ℕ) (hash : ℕ → Option ℕ) (w : World)
    (u : IsUndisturbed env head hash) where
  pub handle_requests-send :
      (n : ℕ) (pre post : List ValidatorAction) (sent : List SentAction)
      → IsBefore n pre
      → IsNumbered n post
      → AllRequestable post
      → (ys : List ValidatorAction) × (handle_requests env
            (keep (λ a. is_requested (stage a)) post)
            (with_rows w (pre ++ post) sent)
          ≡ (ok tt, with_rows w ys (sent ++ requests_of post)))
  unfolding handle_requests
  handle_requests-send n pre [] sent b k q =
      (pre ++ [], ap (λ s. (ok tt, with_rows w (pre ++ []) s)) (sym (append_nil sent)))
  handle_requests-send n pre (a ∷ xs) sent b k q = elim (Bool-cases (is_requested (stage a))) [
    | inr other ↦
        let (ys, rest) =
          handle_requests-send (suc n) (pre ++ a ∷ []) xs sent (IsBefore-next n pre a b k.0) k.1
            q.1 in
        (
          ys,
          rw other (
              ap
                (λ r.
                  handle_requests env (keep (λ x. is_requested (stage x)) xs) (with_rows w r sent))
                (sym (append_assoc pre (a ∷ []) xs))
              ∙ rest),
        )
    | inl requested ↦
        let done_row = set_submitted (hash a.id) a in
        let sent' = sent ++ for_request a.id ∷ [] in
        let one =
          handle_request-sends env head hash w u pre a xs (b a.id (omega (arith, k.0)))
            (Lacks-behind a.id (suc n) xs k.1 (omega (arith, k.0))) sent (q.0 requested)
            requested in
        let (ys, rest) =
          handle_requests-send (suc n) (pre ++ done_row ∷ []) xs sent'
            (IsBefore-next n pre done_row b k.0) k.1 q.1 in
        let others = handle_requests env (keep (λ x. is_requested (stage x)) xs) in
        (
          ys,
          rw requested (
              ap (after (λ _. others)) one
              ∙ (ap (λ r. others (with_rows w r sent')) (sym (append_assoc pre (done_row ∷ []) xs))
                  ∙ (rest
                      ∙ ap (λ s. (ok tt, with_rows w ys s))
                          (append_assoc sent (for_request a.id ∷ []) (requests_of xs))))),
        )
  ]
