-- ===== src/Store/Statements.antt =====
-- How one SQL statement, and one transaction, can end (database/sql as internal/db uses it).
use go_pool.Prelude.{
  [], ◌≡◌, ◌⊎◌, inl, inr, refl, sym, ◌∙◌, none, Option, some, Bool-cases, Option-cases, ap,
}
use go_pool.Store.{Tables}
use go_pool.Store.Monad.{
  World, Result, ok, err, Error, M, settle, refused, later, stmt, finish, in_tx,
}

-- The world behind a statement that went through.
abbrev pub wrote : World → Tables → World
wrote w t = record w { io = later w.io; tables = t }

-- The world behind a statement that was refused.
abbrev pub unwritten : World → World
unwritten w = record w { io = later w.io }

-- A world with these tables, whose database takes every statement.
abbrev pub calm : World → Tables → World
calm w t = record w { io = []; tables = t }

-- A statement is refused and leaves the tables alone, or it does what its text says.
pub stmt-cases {ℓ} :
    {A : Type ℓ} (f : Tables → Option (A × Tables)) (w : World)
    → (stmt f w ≡ (err Error.sql, unwritten w))
      ⊎ ((a : A) × (t : Tables) × (f w.tables ≡ some (a, t)) × (stmt f w ≡ (ok a, wrote w t)))
unfolding stmt
stmt-cases f w = elim (Bool-cases (refused w.io)) [
  | inl no_io ↦ inl (rw no_io)
  | inr io ↦ elim (Option-cases (f w.tables)) [
    | inl violated ↦ inl (rw io (ap (λ o. settle o (unwritten w)) violated))
    | inr ((a, t), e) ↦ inr (a, t, e, rw io (ap (λ o. settle o (unwritten w)) e))
  ]
]

pub ok-value {ℓ} : {A : Type ℓ} (b a : A) → ok b ≡ ok a → b ≡ a
ok-value b a h = ap (λ r. elim r [ ok x ↦ x | err _ ↦ b ]) h

-- A statement that went through has read and written what its text says.
pub stmt-ok {ℓ} :
    {A : Type ℓ} (f : Tables → Option (A × Tables)) (w w' : World) (a : A)
    → stmt f w ≡ (ok a, w')
    → f w.tables ≡ some (a, w'.tables)
stmt-ok f w w' a h = elim (stmt-cases f w) [
  | inl failed ↦ cc (h, failed)
  | inr (b, t, read, run) ↦
      let same : (ok b, wrote w t) ≡ (ok a, w') = sym run ∙ h in
      let value : b ≡ a = ok-value b a (ap (λ x. x.0) same) in
      let tables : t ≡ w'.tables = ap (λ x. x.1.tables) same in
      read ∙ (λ i. some (value i, tables i))
]

-- The same for a statement that meets no constraint.
pub plain_stmt-ok {ℓ} :
    {A : Type ℓ} (f : Tables → A) (g : Tables → Tables) (w w' : World) (a : A)
    → stmt (λ t. some (f t, g t)) w ≡ (ok a, w')
    → (f w.tables ≡ a) × (g w.tables ≡ w'.tables)
plain_stmt-ok f g w w' a h =
    let went : some (f w.tables, g w.tables) ≡ some (a, w'.tables) =
      stmt-ok (λ t. some (f t, g t)) w w' a h in
    (
      ap (λ o. elim o [ some (x, _) ↦ x | none ↦ f w.tables ]) went,
      ap (λ o. elim o [ some (_, u) ↦ u | none ↦ g w.tables ]) went,
    )

abbrev pub RolledBack {ℓ} : {A : Type ℓ} → Tables → Result A × World → Type ℓ
RolledBack before (r, w) = (e : Error) × (r ≡ err e) × (w.tables ≡ before)

finish-cases {ℓ} :
    {A : Type ℓ} (before : Tables) (r : Result A) (w : World)
    → RolledBack before (finish before r w)
      ⊎ ((a : A) × (r ≡ ok a) × (finish before r w ≡ (ok a, unwritten w)))
finish-cases before (err e) w = inl (e, refl, refl)
finish-cases before (ok a) w = elim (Bool-cases (refused w.io)) [
  | inl no_io ↦ inl (Error.sql, rw no_io, rw no_io)
  | inr io ↦ inr (a, refl, rw io)
]

-- A transaction that returns an error has not changed the tables; one that succeeds ran its body.
pub in_tx-cases {ℓ} :
    {A : Type ℓ} (body : M A) (w : World)
    → RolledBack w.tables (in_tx body w)
      ⊎ ((a : A) × ((body (unwritten w)).0 ≡ ok a)
          × (in_tx body w ≡ (ok a, unwritten (body (unwritten w)).1)))
unfolding in_tx
in_tx-cases body w = elim (Bool-cases (refused w.io)) [
  | inl no_io ↦ inl (Error.sql, rw no_io, rw no_io)
  | inr io ↦ let b = body (unwritten w) in rw io (finish-cases w.tables b.0 b.1)
]
