-- ===== src/Store/Memory.antt =====
-- Statements (internal/db/queries.sql.go, internal/db/transactions.go) change the tables alone: what
-- is kept in memory or was sent stays as it was.
use go_pool.Prelude.{
  ◌≡◌, ◌∙◌, refl, inl, inr, List, Option, Bool, Bool-cases, Option-cases, true, false,
  if◌then◌else◌,
}
use go_pool.Store.{Tables}
use go_pool.Store.Monad.{
  World, Result, ok, err, Error, M, raise, after, ◌>>=◌, stmt, refused, later, in_tx, finish,
}

-- A part of the world beside the tables.
abbrev pub IsMemory {ℓ} : {X : Type ℓ} → (World → X) → Type ℓ
IsMemory g = (w : World) (io : List Bool) (t : Tables) → g (record w { io = io; tables = t }) ≡ g w

-- A call leaves a part of the world as it was.
unfoldable pub Leaves {ℓ κ} : {X : Type ℓ} {A : Type κ} → (World → X) → M A → Type ℓ
Leaves g m = (w : World) → g (m w).1 ≡ g w

module _ {ℓ} {X : Type ℓ} (g : World → X) where
  pub after-Leaves {κ λ'} :
      {A : Type κ} {B : Type λ'} (f : A → M B) (w : World) (r : Result A × World)
      → g r.1 ≡ g w
      → ((a : A) → Leaves g (f a))
      → g (after f r).1 ≡ g w
  unfolding Leaves
  after-Leaves f w (ok a, w') h k = k a w' ∙ h
  after-Leaves f w (err e, w') h k = h

  pub both-Leaves {κ λ'} :
      {A : Type κ} {B : Type λ'} (m : M A) (f : A → M B)
      → Leaves g m
      → ((a : A) → Leaves g (f a))
      → Leaves g (m >>= f)
  unfolding Leaves
  both-Leaves m f h k w = after-Leaves f w (m w) (h w) k

  pub when-Leaves {κ} :
      {A : Type κ} (c : Bool) (m n : M A) → Leaves g m → Leaves g n → Leaves g (if c then m else n)
  when-Leaves true m n hm hn = hm
  when-Leaves false m n hm hn = hn

  pub raise-Leaves {κ} : (A : Type κ) (e : Error) → Leaves g (raise {A = A} e)
  unfolding Leaves
  raise-Leaves A e w = refl

  pub stmt-Leaves {κ} :
      {A : Type κ} (f : Tables → Option (A × Tables)) → IsMemory g → Leaves g (stmt f)
  unfolding stmt Leaves
  stmt-Leaves f mem w = elim (Bool-cases (refused w.io)) [
    | inl no_io ↦ rw no_io (mem w (later w.io) w.tables)
    | inr io ↦ rw io (elim (Option-cases (f w.tables)) [
      | inl failed ↦ rw failed (mem w (later w.io) w.tables)
      | inr ((a, t), went) ↦ rw went (mem w (later w.io) t)
    ])
  ]

  finish-Leaves {κ} :
      {A : Type κ} (before : Tables) (r : Result A) (w : World)
      → IsMemory g
      → g (finish before r w).1 ≡ g w
  finish-Leaves before (err e) w mem = mem w w.io before
  finish-Leaves before (ok a) w mem = elim (Bool-cases (refused w.io)) [
    | inl no_io ↦ rw no_io (mem w (later w.io) before)
    | inr io ↦ rw io (mem w (later w.io) w.tables)
  ]

  pub in_tx-Leaves {κ} :
      {A : Type κ} (body : M A) → IsMemory g → Leaves g body → Leaves g (in_tx body)
  unfolding in_tx Leaves
  in_tx-Leaves body mem h w = elim (Bool-cases (refused w.io)) [
    | inl no_io ↦ rw no_io (mem w (later w.io) w.tables)
    | inr io ↦
        let v = record w { io = later w.io } in
        rw io
          (finish-Leaves w.tables (body v).0 (body v).1 mem ∙ (h v ∙ mem w (later w.io) w.tables))
  ]
