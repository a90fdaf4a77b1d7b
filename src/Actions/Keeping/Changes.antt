-- ===== src/Actions/Keeping/Changes.antt =====
-- The changes that `ProcessRequestedActions` makes to a row are transitions of its lifecycle
-- (internal/pool/lifecycle.go).
use go_pool.Prelude.{
  ℕ, suc, ◌+◌, ◌≤◌, ◌<◌, ◌≡◌, refl, sym, inl, inr, arith, List, [], ◌∷◌, Option, true, false, ◌||◌,
  ◌==◌, All, length, any_of, Bool-cases,
}
use go_pool.Store.{ActionState, ValidatorAction}
use go_pool.Store.Monad.{World, SentAction}
use go_pool.Store.Payslips.{update_where}
use go_pool.Store.Actions.{
  stage, is_requested, is_processing, is_open_request, is_claimed, is_pending_outcome, set_state,
  set_submitted,
}
use go_pool.Actions.Stages.{
  Moves, stay, move, claim, release, submit, give_up, Later, times, RowOk, IsNumbered,
  is_requested-inv, is_processing-inv,
}
use go_pool.Actions.Rows.{Change}

-- The rows of a claimed request, for which nothing went out.
abbrev pub IsProcessing : ℕ → ValidatorAction → Type 0
IsProcessing i a = (a.id == i) ≡ true → stage a ≡ ActionState.processing

abbrev pub Claimed : ℕ → World → Type 0
Claimed i w =
    All (IsProcessing i) w.tables.actions
    × (times i w.actions_sent ≡ 0)
    × (i ≤ length w.tables.actions)

-- One transition of a row.
pub one_move :
    (a b : ValidatorAction)
    → b.id ≡ a.id
    → b.action ≡ a.action
    → Moves (stage a) (stage b)
    → (is_pending_outcome a.outcome ≡ true → is_pending_outcome b.outcome ≡ true)
    → Later a b
one_move a b i k m p = record { same_id = i; same_kind = k; moves = m; still_pending = p }

-- A row that is neither requested nor claimed needs nothing.
pub past-RowOk :
    (sent : List SentAction) (a : ValidatorAction)
    → (is_requested (stage a) || is_processing (stage a)) ≡ false
    → RowOk sent a
past-RowOk sent a h = record {
  unsent = λ e. absurd (ground arith);
  kind = λ e. absurd (cc);
  outcome = λ e. absurd (cc);
}

pub claim-Change :
    (sent : List SentAction) (i : ℕ) (a : ValidatorAction)
    → Change sent (is_open_request i) (set_state ActionState.processing) a
claim-Change sent i a r h =
    let at : stage a ≡ ActionState.requested = is_requested-inv (stage a) (ground arith) in
    (
      record {
        unsent = λ e. absurd cc;
        kind = λ _. r.kind (rw at refl);
        outcome = λ _. r.outcome (rw at refl);
      },
      one_move a (set_state ActionState.processing a) refl refl (rw at (move stay claim)) (λ e. e),
    )

pub release-Change :
    (sent : List SentAction) (i : ℕ) (a : ValidatorAction)
    → times i sent ≡ 0
    → Change sent (is_claimed i) (set_state ActionState.requested) a
release-Change sent i a none_sent r h =
    let at : stage a ≡ ActionState.processing = is_processing-inv (stage a) (ground arith) in
    let same : a.id ≡ i = ground (arith) in
    (
      record {
        unsent = λ e. rw same none_sent;
        kind = λ _. r.kind (rw at refl);
        outcome = λ _. r.outcome (rw at refl);
      },
      one_move a (set_state ActionState.requested a) refl refl (rw at (move stay release)) (λ e. e),
    )

pub submit-Change :
    (sent : List SentAction) (i : ℕ) (hash : Option ℕ) (a : ValidatorAction)
    → Change sent (is_claimed i) (set_submitted hash) a
submit-Change sent i hash a r h =
    let at : stage a ≡ ActionState.processing = is_processing-inv (stage a) (ground arith) in
    (
      past-RowOk sent (set_submitted hash a) refl,
      one_move a (set_submitted hash a) refl refl (rw at (move stay submit)) (λ _. refl),
    )

pub give_up-Change :
    (sent : List SentAction) (i : ℕ) (a : ValidatorAction)
    → IsProcessing i a
    → Change sent (λ x. x.id == i) (set_state ActionState.failed) a
give_up-Change sent i a is_processing_row r h =
    let at : stage a ≡ ActionState.processing = is_processing_row h in
    (
      past-RowOk sent (set_state ActionState.failed a) refl,
      one_move a (set_state ActionState.failed a) refl refl (rw at (move stay give_up)) (λ e. e),
    )

-- Behind an id, no row has it.
claim-behind :
    (i n : ℕ) (xs : List ValidatorAction)
    → IsNumbered n xs
    → i < n
    → All (IsProcessing i) (update_where (is_open_request i) (set_state ActionState.processing) xs)
claim-behind i n [] k lt = tt
claim-behind i n (a ∷ xs) k lt =
    let other : (a.id == i) ≡ false = ground (arith, k.0) in
    ((λ e. absurd (ground arith)), claim-behind i (suc n) xs k.1 (omega arith))

-- A request that is claimed has one row, and nothing went out for it.
pub claim-rows :
    (sent : List SentAction) (i n : ℕ) (xs : List ValidatorAction)
    → IsNumbered n xs
    → All (RowOk sent) xs
    → any_of (is_open_request i) xs ≡ true
    → All (IsProcessing i) (update_where (is_open_request i) (set_state ActionState.processing) xs)
      × (times i sent ≡ 0)
      × (n ≤ i)
      × (i < n + length xs)
claim-rows sent i n [] k rs h = cc
claim-rows sent i n (a ∷ xs) k rs h = elim (Bool-cases (is_open_request i a)) [
  | inl found ↦
      let same : a.id ≡ i = ground arith in
      let at = k.0 in
      let request : is_requested (stage a) ≡ true = ground arith in
      (
        (rw found (λ e. refl), claim-behind i (suc n) xs k.1 (omega arith)),
        rw (sym same) (rs.0.unsent request),
        omega arith,
        omega arith,
      )
  | inr not_here ↦
      let (rows, none_sent, low, high) = claim-rows sent i (suc n) xs k.1 rs.1 (ground arith) in
      let at = k.0 in
      ((rw not_here (λ e. absurd (ground arith)), rows), none_sent, omega arith, omega arith)
]
