-- ===== src/Actions/Rows.antt =====
-- Statements on the rows of validator actions keep the invariant of the table
-- (internal/db/queries.sql.go).
use go_pool.Prelude.{
  ℕ, suc, ◌≤◌, ◌≡◌, refl, ◌∙◌, ap, sym, inl, inr, arith, List, [], ◌∷◌, Bool, true, if◌then◌else◌,
  All, length, Bool-cases,
}
use go_pool.Store.{ActionKind, ValidatorAction}
use go_pool.Store.Monad.{SentAction}
use go_pool.Store.Payslips.{update_where}
use go_pool.Store.Actions.{same_action, stage, is_outstanding}
use go_pool.Actions.Stages.{
  Moves-open, is_open, Later, Later-refl, Follows, RowOk, IsNumbered, outstanding, Inv,
}

-- Changing a row that passes a test is a move along its lifecycle.
abbrev pub Change :
    List SentAction
    → (ValidatorAction → Bool)
    → (ValidatorAction → ValidatorAction)
    → ValidatorAction
    → Type 0
Change sent p f a = RowOk sent a → p a ≡ true → RowOk sent (f a) × Later a (f a)

pub Later-outstanding :
    (k : ActionKind) (a b : ValidatorAction)
    → Later a b
    → is_outstanding k b ≡ true
    → is_outstanding k a ≡ true
Later-outstanding k a b l h =
    let open_b : is_open (stage b) ≡ true = ground arith in
    let open_a = Moves-open l.moves open_b in
    let same_b : same_action b.action k ≡ true = ground arith in
    let same_a : same_action a.action k ≡ true =
      ap (λ x. same_action x k) (sym l.same_kind) ∙ same_b in
    rw same_a open_a

module _ (sent : List SentAction) (p : ValidatorAction → Bool)
    (f : ValidatorAction → ValidatorAction) where
  changed :
      (a : ValidatorAction)
      → RowOk sent a
      → Change sent p f a
      → RowOk sent (if p a then f a else a) × Later a (if p a then f a else a)
  changed a r c = elim (Bool-cases (p a)) [ inl h ↦ rw h (c r h) | inr h ↦ rw h (r, Later-refl a) ]

  update-rows :
      (xs : List ValidatorAction)
      → All (RowOk sent) xs
      → All (Change sent p f) xs
      → All (RowOk sent) (update_where p f xs)
  update-rows [] rs cs = tt
  update-rows (a ∷ xs) rs cs = ((changed a rs.0 cs.0).0, update-rows xs rs.1 cs.1)

  pub update-Follows :
      (xs : List ValidatorAction)
      → All (RowOk sent) xs
      → All (Change sent p f) xs
      → Follows xs (update_where p f xs)
  update-Follows [] rs cs = tt
  update-Follows (a ∷ xs) rs cs = ((changed a rs.0 cs.0).1, update-Follows xs rs.1 cs.1)

pub update-length :
    (p : ValidatorAction → Bool) (f : ValidatorAction → ValidatorAction) (xs : List ValidatorAction)
    → length (update_where p f xs) ≡ length xs
update-length p f [] = refl
update-length p f (a ∷ xs) = ap suc (update-length p f xs)

Follows-IsNumbered :
    (n : ℕ) (xs ys : List ValidatorAction)
    → Follows xs ys
    → length ys ≡ length xs
    → IsNumbered n xs
    → IsNumbered n ys
Follows-IsNumbered n [] [] h e k = tt
Follows-IsNumbered n [] (b ∷ ys) h e k = absurd (omega arith)
Follows-IsNumbered n (a ∷ xs) [] h e k = absurd h
Follows-IsNumbered n (a ∷ xs) (b ∷ ys) h e k =
    (h.0.same_id ∙ k.0, Follows-IsNumbered (suc n) xs ys h.1 (omega arith) k.1)

Follows-outstanding :
    (k : ActionKind) (xs ys : List ValidatorAction)
    → Follows xs ys
    → length ys ≡ length xs
    → outstanding k ys ≤ outstanding k xs
Follows-outstanding k [] [] h e = omega arith
Follows-outstanding k [] (b ∷ ys) h e = absurd (omega arith)
Follows-outstanding k (a ∷ xs) [] h e = absurd h
Follows-outstanding k (a ∷ xs) (b ∷ ys) h e =
    let rest = Follows-outstanding k xs ys h.1 (omega arith) in
    let head = Later-outstanding k a b h.0 in ground arith

-- An `UPDATE` whose changes are moves.
pub update-Inv :
    (sent : List SentAction) (p : ValidatorAction → Bool) (f : ValidatorAction → ValidatorAction)
    (xs : List ValidatorAction)
    → Inv xs sent
    → All (Change sent p f) xs
    → Inv (update_where p f xs) sent × Follows xs (update_where p f xs)
update-Inv sent p f xs inv cs =
    let follows = update-Follows sent p f xs inv.rows cs in
    let len = update-length p f xs in
    (
      record {
        numbered = Follows-IsNumbered 1 xs (update_where p f xs) follows len inv.numbered;
        rows = update-rows sent p f xs inv.rows cs;
        once = inv.once;
        fresh = λ i h. inv.fresh i (omega arith);
        single = λ k r.
            let le = Follows-outstanding k xs (update_where p f xs) follows len in
            let one = inv.single k r in omega arith;
      },
      follows,
    )
