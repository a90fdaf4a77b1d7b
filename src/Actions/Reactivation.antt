-- ===== src/Actions/Reactivation.antt =====
-- What one reactivation leaves behind for the later ones (`runAutoReactivate` in
-- internal/pool/lifecycle.go).
use go_pool.Prelude.{
  ℕ, ◌≡◌, ◌∙◌, refl, ap, inl, inr, arith, List, [], ◌∷◌, Option, Bool, true, ◌&&◌, any_of,
  Bool-cases, Option-cases,
}
use go_pool.Store.{ActionKind, reactivate, ValidatorAction}
use go_pool.Store.Monad.{World, stmt, query, refused}
use go_pool.Store.Actions.{same_action, is_pending_outcome, has_pending_validator_action}
use go_pool.Actions.{
  Env, should_reactivate, reactivate_unless_busy, reactivate_if_free, run_auto_reactivate,
}
use go_pool.Actions.Stages.{Later, Follows}
use go_pool.Actions.Reachable.{IsFresh, Reach, Reach-Good, IsFresh-IsGood}

-- A row of an action has the outcome "pending".
abbrev pub is_pending_row : ActionKind → ValidatorAction → Bool
is_pending_row k a = same_action a.action k && is_pending_outcome a.outcome

abbrev pub HasPending : ActionKind → World → Type 0
HasPending k w = any_of (is_pending_row k) w.tables.actions ≡ true

Later-pending :
    (k : ActionKind) (a b : ValidatorAction)
    → Later a b
    → is_pending_row k a ≡ true
    → is_pending_row k b ≡ true
Later-pending k a b l h =
    let kind : same_action b.action k ≡ true =
      ap (λ j. same_action j k) l.same_kind ∙ ground arith in
    let outcome = l.still_pending (ground arith) in rw kind (rw outcome refl)

-- Once an outcome is "pending" it stays so.
pub Follows-pending :
    (k : ActionKind) (xs ys : List ValidatorAction)
    → Follows xs ys
    → any_of (is_pending_row k) xs ≡ true
    → any_of (is_pending_row k) ys ≡ true
Follows-pending k [] ys f h = cc
Follows-pending k (a ∷ xs) [] f h = absurd f
Follows-pending k (a ∷ xs) (b ∷ ys) f h = elim (Bool-cases (is_pending_row k a)) [
  | inl here ↦ (let there = Later-pending k a b f.0 here in rw there refl)
  | inr elsewhere ↦ (let rest = Follows-pending k xs ys f.1 (ground arith) in ground arith)
]

unless_busy-idle :
    (env : Env) (w : World)
    → HasPending reactivate w
    → (reactivate_unless_busy env w).1.actions_sent ≡ w.actions_sent
unfolding reactivate_unless_busy has_pending_validator_action query stmt
unless_busy-idle env w h = elim (Bool-cases (refused w.io)) [
  | inl no_io ↦ rw no_io refl
  | inr io ↦ rw io (rw h refl)
]

if_free-idle :
    (env : Env) (jailed_from : Option ℕ) (w : World)
    → HasPending reactivate w
    → (reactivate_if_free env jailed_from w).1.actions_sent ≡ w.actions_sent
unfolding reactivate_if_free
if_free-idle env jailed_from w h = elim (Option-cases env.head) [
  | inl no_head ↦ rw no_head refl
  | inr (head, is_head) ↦ rw is_head (elim (Bool-cases (should_reactivate jailed_from head)) [
    | inl due ↦ rw due (unless_busy-idle env w h)
    | inr early ↦ rw early refl
  ])
]

-- From a database without validator actions: once a reactivation has the outcome "pending", no
-- later run of the daemon sends another one, whatever happened in between, however often the
-- validator is jailed again, and whether or not the first one was confirmed or failed.
no_second_reactivation :
    (env : Env) (w v u : World)
    → IsFresh w
    → Reach w v
    → HasPending reactivate v
    → Reach v u
    → (run_auto_reactivate env u).1.actions_sent ≡ u.actions_sent
unfolding run_auto_reactivate reactivate_if_free
no_second_reactivation env w v u f r h s =
    let g = Reach-Good r (IsFresh-IsGood w f) in
    let still =
      Follows-pending reactivate v.tables.actions u.tables.actions (Reach-Good s g.0).1 h in
    elim (Option-cases env.jailed_from) [
      | inl none_found ↦ rw none_found refl
      | inr (jailed_from, is_found) ↦ rw is_found (if_free-idle env jailed_from u still)
    ]
