-- ===== src/Actions/Stages.antt =====
-- The lifecycle of a row of validator actions, as a step relation on its states, and the rows of a
-- table from one moment to a later one (internal/pool/lifecycle.go, internal/db/queries.sql.go).
use go_pool.Prelude.{
  ℕ, suc, ◌≤◌, ◌<◌, ◌≡◌, refl, ◌∙◌, List, [], ◌∷◌, ◌++◌, Bool, true, false, ◌||◌, ◌==◌, All, length,
  keep,
}
use go_pool.Store.{ActionKind, ActionState, ValidatorAction}
use go_pool.Store.Monad.{SentAction, for_request, own}
use go_pool.Store.Actions.{
  stage, is_requested, is_processing, is_submitted, is_pending_outcome, is_outstanding,
}
use go_pool.Actions.{action_for_request}

-- The transitions that the program makes.
pub data Move : ActionState → ActionState → Type 0 where
  claim : Move ActionState.requested ActionState.processing
  release : Move ActionState.processing ActionState.requested
  submit : Move ActionState.processing ActionState.submitted
  give_up : Move ActionState.processing ActionState.failed
  cancel : Move ActionState.requested ActionState.cancelled
  confirm : Move ActionState.submitted ActionState.confirmed
  fail : Move ActionState.submitted ActionState.failed

pub data Moves (s : ActionState) : ActionState → Type 0 where
  stay : Moves s s
  move : {t u : ActionState} → Moves s t → Move t u → Moves s u

pub Moves-trans : {s t u : ActionState} → Moves s t → Moves t u → Moves s u
Moves-trans m stay = m
Moves-trans m (move n step) = move (Moves-trans m n) step

abbrev pub is_open : ActionState → Bool
is_open s = is_requested s || is_processing s || is_submitted s

abbrev pub is_terminal : ActionState → Bool
is_terminal ActionState.confirmed = true
is_terminal ActionState.failed = true
is_terminal ActionState.cancelled = true
is_terminal _ = false

Move-open : {s t : ActionState} → Move s t → is_open s ≡ true
Move-open claim = refl
Move-open release = refl
Move-open submit = refl
Move-open give_up = refl
Move-open cancel = refl
Move-open confirm = refl
Move-open fail = refl

-- What is open later was open before.
pub Moves-open : {s t : ActionState} → Moves s t → is_open t ≡ true → is_open s ≡ true
Moves-open stay h = h
Moves-open (move m step) h = Moves-open m (Move-open step)

-- A row and the same row later: an outcome "pending" is never taken back.
pub record Later (a b : ValidatorAction) : Type 0 where
  pub same_id : b.id ≡ a.id
  pub same_kind : b.action ≡ a.action
  pub moves : Moves (stage a) (stage b)
  pub still_pending : is_pending_outcome a.outcome ≡ true → is_pending_outcome b.outcome ≡ true

pub Later-refl : (a : ValidatorAction) → Later a a
Later-refl a = record { same_id = refl; same_kind = refl; moves = stay; still_pending = λ h. h }

pub Later-trans : {a b c : ValidatorAction} → Later a b → Later b c → Later a c
Later-trans h k = record {
  same_id = k.same_id ∙ h.same_id;
  same_kind = k.same_kind ∙ h.same_kind;
  moves = Moves-trans h.moves k.moves;
  still_pending = λ p. k.still_pending (h.still_pending p);
}

-- Every row is still in its place; there may be new ones behind them.
abbrev pub Follows : List ValidatorAction → List ValidatorAction → Type 0
Follows [] _ = Unit
Follows (_ ∷ _) [] = ⊥
Follows (a ∷ as_before) (b ∷ now) = Later a b × Follows as_before now

pub Follows-refl : (xs : List ValidatorAction) → Follows xs xs
Follows-refl [] = tt
Follows-refl (a ∷ xs) = (Later-refl a, Follows-refl xs)

pub Follows-trans :
    (xs ys zs : List ValidatorAction) → Follows xs ys → Follows ys zs → Follows xs zs
Follows-trans [] ys zs h k = tt
Follows-trans (a ∷ xs) [] zs h k = absurd h
Follows-trans (a ∷ xs) (b ∷ ys) [] h k = absurd k
Follows-trans (a ∷ xs) (b ∷ ys) (c ∷ zs) h k = (Later-trans h.0 k.0, Follows-trans xs ys zs h.1 k.1)

pub Follows-append : (xs ys : List ValidatorAction) → Follows xs (xs ++ ys)
Follows-append [] ys = tt
Follows-append (a ∷ xs) ys = (Later-refl a, Follows-append xs ys)

-- How often a transaction went out for a request.
abbrev pub is_for : ℕ → SentAction → Bool
is_for i (for_request j) = j == i
is_for i (own _) = false

abbrev pub times : ℕ → List SentAction → ℕ
times i sent = length (keep (is_for i) sent)

-- What holds of every row: nothing went out for a request that is still to be claimed, and only
-- what the operator can ask for is requested or claimed.
pub record RowOk (sent : List SentAction) (a : ValidatorAction) : Type 0 where
  pub unsent : is_requested (stage a) ≡ true → times a.id sent ≡ 0
  pub kind :
      (is_requested (stage a) || is_processing (stage a)) ≡ true
      → action_for_request a.action ≡ true
  pub outcome :
      (is_requested (stage a) || is_processing (stage a)) ≡ true
      → is_pending_outcome a.outcome ≡ false

-- The ids are consecutive.
abbrev pub IsNumbered : ℕ → List ValidatorAction → Type 0
IsNumbered n [] = Unit
IsNumbered n (a ∷ xs) = (a.id ≡ n) × IsNumbered (suc n) xs

abbrev pub outstanding : ActionKind → List ValidatorAction → ℕ
outstanding k xs = length (keep (is_outstanding k) xs)

-- The invariant of the rows and of what went out.
pub record Inv (xs : List ValidatorAction) (sent : List SentAction) : Type 0 where
  pub numbered : IsNumbered 1 xs
  pub rows : All (RowOk sent) xs
  pub once : (i : ℕ) → times i sent ≤ 1
  pub fresh : (i : ℕ) → length xs < i → times i sent ≡ 0
  pub single : (k : ActionKind) → action_for_request k ≡ true → outstanding k xs ≤ 1

pub is_requested-inv : (s : ActionState) → is_requested s ≡ true → s ≡ ActionState.requested
is_requested-inv ActionState.requested h = refl
is_requested-inv ActionState.processing h = cc
is_requested-inv ActionState.submitted h = cc
is_requested-inv ActionState.confirmed h = cc
is_requested-inv ActionState.failed h = cc
is_requested-inv ActionState.cancelled h = cc

pub is_processing-inv : (s : ActionState) → is_processing s ≡ true → s ≡ ActionState.processing
is_processing-inv ActionState.requested h = cc
is_processing-inv ActionState.processing h = refl
is_processing-inv ActionState.submitted h = cc
is_processing-inv ActionState.confirmed h = cc
is_processing-inv ActionState.failed h = cc
is_processing-inv ActionState.cancelled h = cc

pub is_submitted-inv : (s : ActionState) → is_submitted s ≡ true → s ≡ ActionState.submitted
is_submitted-inv ActionState.requested h = cc
is_submitted-inv ActionState.processing h = cc
is_submitted-inv ActionState.submitted h = refl
is_submitted-inv ActionState.confirmed h = cc
is_submitted-inv ActionState.failed h = cc
is_submitted-inv ActionState.cancelled h = cc
