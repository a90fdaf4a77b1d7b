-- ===== src/Actions/Keeping.antt =====
-- The daemon's and the API's operations on validator actions keep the invariant, and move each row
-- along its lifecycle (internal/pool/lifecycle.go).
pub mod Changes
pub mod Requests
pub mod Runs
pub mod Reactivations
pub mod Transactions
pub mod Cancelling
pub mod Queueing
pub mod Bootstraps
use go_pool.Prelude.{
  ℕ, suc, ◌+◌, ◌≤◌, ◌<◌, ◌≡◌, refl, ◌∙◌, ap, sym, inl, inr, arith, List, [], ◌∷◌, ◌++◌, Option,
  none, some, Bool, true, false, ◌&&◌, ◌||◌, ◌==◌, if◌then◌else◌, All, length, keep, any_of,
  Bool-cases, length-append,
}
use go_pool.Store.{ActionKind, ActionOutcome, ActionState, ValidatorAction, Tables}
use go_pool.Store.Monad.{
  World, Result, ok, err, Error, M, after, ◌>>=◌, or_raise, done, stmt, query, exec, refused, later,
}
use go_pool.Store.Payslips.{update_where}
use go_pool.Store.Actions.{update_returning, update_validator_action_state, set_state}
use go_pool.Actions.{on_no_rows, skip_no_rows}
use go_pool.Actions.Stages.{Follows, Follows-refl, Follows-trans, RowOk, Inv}
use go_pool.Actions.Rows.{Change, update-Inv}

-- The invariant of a state, and what an operation may make of it.
abbrev pub IsGood : World → Type 0
IsGood w = Inv w.tables.actions w.actions_sent

abbrev pub Good : World → World → Type 0
Good w w' = IsGood w' × Follows w.tables.actions w'.tables.actions

abbrev pub Keeps {ℓ} : {A : Type ℓ} → M A → Type 0
Keeps m = (w : World) → IsGood w → Good w (m w).1

pub Good-refl : (w : World) → IsGood w → Good w w
Good-refl w inv = (inv, Follows-refl w.tables.actions)

pub Good-trans : (w v u : World) → Good w v → Good v u → Good w u
Good-trans w v u g h =
    (h.0, Follows-trans w.tables.actions v.tables.actions u.tables.actions g.1 h.1)

-- A step that is good, and what follows it.
pub after-Good {ℓ κ} :
    {A : Type ℓ} {B : Type κ} (f : A → M B) (w : World) (r : Result A × World)
    → Good w r.1
    → ((a : A) → Keeps (f a))
    → Good w (after f r).1
after-Good f w (ok a, w') g next = Good-trans w w' (f a w').1 g (next a w' g.0)
after-Good f w (err e, w') g next = g

pub both {ℓ κ} :
    {A : Type ℓ} {B : Type κ} (m : M A) (f : A → M B)
    → Keeps m
    → ((a : A) → Keeps (f a))
    → Keeps (m >>= f)
both m f k next w inv = after-Good f w (m w) (k w inv) next

pub when {ℓ} : {A : Type ℓ} (c : Bool) (m n : M A) → Keeps m → Keeps n → Keeps (if c then m else n)
when true m n km kn = km
when false m n km kn = kn

pub or_raise-Keeps {ℓ} : {A : Type ℓ} (o : Option A) (e : Error) → Keeps (or_raise o e)
or_raise-Keeps none e = Good-refl
or_raise-Keeps (some a) e = Good-refl

pub query-Keeps {ℓ} : {A : Type ℓ} (f : Tables → A) → Keeps (query f)
unfolding query stmt
query-Keeps f w inv = elim (Bool-cases (refused w.io)) [
  | inl no_io ↦ rw no_io (Good-refl w inv)
  | inr io ↦ rw io (Good-refl w inv)
]

pub All-map {ℓ κ λ'} :
    {A : Type ℓ} {P : A → Type κ} {Q : A → Type λ'} (f : (a : A) → P a → Q a) (xs : List A)
    → All P xs
    → All Q xs
All-map f [] h = tt
All-map f (x ∷ xs) h = (f x h.0, All-map f xs h.1)

pub everywhere {ℓ κ} : {A : Type ℓ} {P : A → Type κ} (f : (a : A) → P a) (xs : List A) → All P xs
everywhere f [] = tt
everywhere f (x ∷ xs) = (f x, everywhere f xs)

-- An `UPDATE … RETURNING` whose changes are moves.
pub update_returning-Good :
    (p : ValidatorAction → Bool) (f : ValidatorAction → ValidatorAction) (w : World)
    → IsGood w
    → All (Change w.actions_sent p f) w.tables.actions
    → Good w (update_returning p f w).1
unfolding update_returning stmt
update_returning-Good p f w inv cs = elim (Bool-cases (refused w.io)) [
  | inl no_io ↦ rw no_io (Good-refl w inv)
  | inr io ↦ rw io (elim (Bool-cases (any_of p w.tables.actions)) [
    | inl found ↦ rw found (update-Inv w.actions_sent p f w.tables.actions inv cs)
    | inr not_found ↦ rw not_found (update-Inv w.actions_sent p f w.tables.actions inv cs)
  ])
]

-- Where it succeeds, some row passed the test, and the rows are updated.
pub update_returning-ok :
    (p : ValidatorAction → Bool) (f : ValidatorAction → ValidatorAction) (w : World)
    → (update_returning p f w).0 ≡ ok tt
    → (any_of p w.tables.actions ≡ true)
      × ((update_returning p f w).1.tables.actions ≡ update_where p f w.tables.actions)
      × ((update_returning p f w).1.actions_sent ≡ w.actions_sent)
unfolding update_returning stmt
update_returning-ok p f w h = ground arith

pub update_state-Good :
    (i : ℕ) (s : ActionState) (w : World)
    → IsGood w
    → All (Change w.actions_sent (λ a. a.id == i) (set_state s)) w.tables.actions
    → Good w (update_validator_action_state i s w).1
unfolding update_validator_action_state exec stmt
update_state-Good i s w inv cs = elim (Bool-cases (refused w.io)) [
  | inl no_io ↦ rw no_io (Good-refl w inv)
  | inr io ↦
      rw io (update-Inv w.actions_sent (λ a. a.id == i) (set_state s) w.tables.actions inv cs)
]

pub on_no_rows-Keeps {ℓ} :
    {A : Type ℓ} (e : Error) (instead : M A) → Keeps instead → Keeps (on_no_rows e instead)
on_no_rows-Keeps Error.no_rows instead k = k
on_no_rows-Keeps Error.sql instead k = Good-refl
on_no_rows-Keeps Error.rpc instead k = Good-refl
on_no_rows-Keeps Error.not_approved instead k = Good-refl
on_no_rows-Keeps Error.bad_tx instead k = Good-refl
on_no_rows-Keeps Error.invalid_retry instead k = Good-refl
on_no_rows-Keeps Error.cancelled instead k = Good-refl
on_no_rows-Keeps Error.duplicate instead k = Good-refl
on_no_rows-Keeps Error.unsupported instead k = Good-refl

pub skip_no_rows-Keeps : (r : Result (Unit {0})) → Keeps (skip_no_rows r)
skip_no_rows-Keeps (ok _) = Good-refl
skip_no_rows-Keeps (err e) = on_no_rows-Keeps e done Good-refl
