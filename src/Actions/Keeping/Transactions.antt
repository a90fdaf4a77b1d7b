-- ===== src/Actions/Keeping/Transactions.antt =====
-- A transaction whose body sends nothing to the chain (internal/db/transactions.go).
use go_pool.Prelude.{
  refl, List, Bool, true, false, some, any_of, if◌then◌else◌, ◌≡◌, inl, inr, Bool-cases,
}
use go_pool.Store.Monad.{
  World, SentAction, Result, ok, err, Error, M, raise, done, stmt, refused, later, in_tx, finish,
}
use go_pool.Store.{ValidatorAction}
use go_pool.Store.Memory.{IsMemory, Leaves, both-Leaves, stmt-Leaves}
use go_pool.Store.Actions.{update_returning}
use go_pool.Store.Payslips.{update_where}
use go_pool.Actions.{on_no_rows}
use go_pool.Actions.Stages.{Follows-refl}
use go_pool.Actions.Keeping.{IsGood, Good, Keeps, Good-refl}

pub in_tx-Keeps :
    {A : Type 0} (m : M A) → Keeps m → Leaves (λ w. w.actions_sent) m → Keeps (in_tx m)
unfolding in_tx Leaves
in_tx-Keeps m k s w inv = elim (Bool-cases (refused w.io)) [
  | inl no_io ↦ rw no_io (Good-refl w inv)
  | inr io ↦
      let v = record w { io = later w.io } in rw io (finished w (m v).0 (m v).1 inv (k v inv) (s v))
]
  where
    finished :
        {A : Type 0} (w : World) (r : Result A) (u : World)
        → IsGood w
        → Good w u
        → u.actions_sent ≡ w.actions_sent
        → Good w (finish w.tables r u).1
    finished w (err e) u inv g same = (rw same inv, Follows-refl w.tables.actions)
    finished w (ok a) u inv g same = elim (Bool-cases (refused u.io)) [
      | inl no_io ↦ rw no_io (rw same inv, Follows-refl w.tables.actions)
      | inr io ↦ rw io g
    ]

-- What went out for validator actions.
abbrev pub sent_of : World → List SentAction
sent_of w = w.actions_sent

pub sent-IsMemory : IsMemory sent_of
sent-IsMemory w io t = refl

pub update_returning-sent_of :
    (p : ValidatorAction → Bool) (f : ValidatorAction → ValidatorAction)
    → Leaves sent_of (update_returning p f)
unfolding update_returning Leaves
update_returning-sent_of p f =
    both-Leaves sent_of
      (stmt (λ t. some (any_of p t.actions, record t { actions = update_where p f t.actions })))
      (λ found_row. if found_row then done else raise Error.no_rows)
      (stmt-Leaves sent_of
        (λ t. some (any_of p t.actions, record t { actions = update_where p f t.actions }))
        sent-IsMemory)
      found_one
  where
    found_one : (b : Bool) → Leaves sent_of (if b then done else raise Error.no_rows)
    found_one true w = refl
    found_one false w = refl

pub on_no_rows-sent_of {ℓ} :
    {A : Type ℓ} (e : Error) (instead : M A)
    → Leaves sent_of instead
    → Leaves sent_of (on_no_rows e instead)
unfolding Leaves
on_no_rows-sent_of Error.no_rows instead k w = k w
on_no_rows-sent_of Error.sql instead k w = refl
on_no_rows-sent_of Error.rpc instead k w = refl
on_no_rows-sent_of Error.not_approved instead k w = refl
on_no_rows-sent_of Error.bad_tx instead k w = refl
on_no_rows-sent_of Error.invalid_retry instead k w = refl
on_no_rows-sent_of Error.cancelled instead k w = refl
on_no_rows-sent_of Error.duplicate instead k w = refl
on_no_rows-sent_of Error.unsupported instead k w = refl
