-- ===== src/Daemon/Replay.antt =====
-- The replay of `Manager.Run` (internal/pool/pool.go) never leaves a batch behind that has no
-- reward.
use go_pool.Prelude.{
  ℕ, zero, suc, ◌-◌, ◌<◌, ◌≡◌, ◌≢◌, ◌⊎◌, ◌∙◌, ◌==◌, refl, sym, ap, inl, inr, arith, Option, none,
  some, Bool, true, false, not, ◌&&◌, leb, ltb, if◌then◌else◌, add32, Bool-cases,
}
use go_pool.Policy.{
  BlockKind, block_micro, block_checkpoint, block_election, classify, batch_at, Policy,
}
use go_pool.Store.{Tables}
use go_pool.Store.Monad.{World, Result, ok, err, Error, M, after, refused, ◌>>◌, >>=-inv}
use go_pool.Store.Payslips.{reward_exists_in}
use go_pool.Store.Epochs.{get_cursor, upsert_cursor}
use go_pool.Checkpoint.{handle_checkpoint}
use go_pool.Checkpoint.Retry.{handled-booked}
use go_pool.Election.{handle_election}
use go_pool.Daemon.{
  Answers, election_env, checkpoint_env, process_kind, process_height, start_of, replay, catch_up,
}
use go_pool.Daemon.Kept.{Kept, process_height-Keeps}
use go_pool.Store.Statements.{unwritten, wrote}

-- The cursor has reached a height.
abbrev pub passed : ℕ → Option ℕ → Bool
passed h none = false
passed h (some cursor) = leb h cursor

-- The reward that is due at a height: the one of the batch before.
abbrev pub is_booked : Policy → ℕ → Tables → Bool
is_booked p h t = reward_exists_in (batch_at p h - 1) t

-- The cursor has not passed a height whose reward is missing.
abbrev pub NoneSkipped : Policy → ℕ → Tables → Type 0
NoneSkipped p h t = (passed h t.cursor && not (is_booked p h t)) ≡ false

process_kind-booked :
    (a : Answers) (h : ℕ) (k : BlockKind) (w : World)
    → k ≢ block_micro
    → 0 < batch_at a.policy h
    → (process_kind a h k w).0 ≡ ok tt
    → is_booked a.policy h (process_kind a h k w).1.tables ≡ true
unfolding process_kind
process_kind-booked a h block_micro w boundary pos e = absurd (boundary refl)
process_kind-booked a h block_checkpoint w boundary pos e =
    handled-booked (checkpoint_env a h) h w pos e
process_kind-booked a h block_election w boundary pos e =
    let check = handle_checkpoint (checkpoint_env a h) h in
    let (_, w', _, c) = >>=-inv (handle_election (election_env a h) h) (λ _. check) w e in
    rw c (handled-booked (checkpoint_env a h) h w' pos (rw c at e))

compare-cases : (a b : ℕ) → (a ≡ b) ⊎ (a ≢ b)
compare-cases a b = elim (Bool-cases (a == b)) [
  | inl same ↦ inl (ground arith)
  | inr apart ↦ inr (λ e. ground arith)
]

-- A guarded absence goes on to hold where the guard weakens or the presence spreads.
still : (g x y : Bool) → (x ≡ true → y ≡ true) → (g && not x) ≡ false → (g && not y) ≡ false
still false x y k e = refl
still true true y k e = ap not (k refl)
still true false y k e = cc

there : (g x : Bool) → x ≡ true → (g && not x) ≡ false
there false x e = refl
there true x e = ap not e

narrower : (g g' x : Bool) → (g' ≡ true → g ≡ true) → (g && not x) ≡ false → (g' && not x) ≡ false
narrower g false x k e = refl
narrower g true x k e = ap (λ c. c && not x) (sym (k refl)) ∙ e

module _ (a : Answers) (h : ℕ) (boundary : classify a.policy h ≢ block_micro)
    (pos : 0 < batch_at a.policy h) where
  -- The reward is booked if the height lies below the one that comes next.
  abbrev Covered : ℕ → Tables → Type 0
  Covered next t = (ltb h next && not (is_booked a.policy h t)) ≡ false

  Kept-NoneSkipped :
      (w w' : World)
      → Kept (batch_at a.policy h - 1) w w'
      → NoneSkipped a.policy h w.tables
      → NoneSkipped a.policy h w'.tables
  Kept-NoneSkipped w w' k s =
      ap (λ c. passed h c && not (is_booked a.policy h w'.tables)) k.cursor
      ∙ still (passed h w.tables.cursor) (is_booked a.policy h w.tables)
          (is_booked a.policy h w'.tables) k.booked s

  handled-Covered :
      (height : ℕ) (w : World)
      → (process_height a height w).0 ≡ ok tt
      → Covered height w.tables
      → Covered (suc height) (process_height a height w).1.tables
  unfolding process_height
  handled-Covered height w e c =
      let t = (process_height a height w).1.tables in
      let k = process_height-Keeps (batch_at a.policy h - 1) a height w in
      elim (compare-cases h height) [
        | inl here ↦
            let run = λ (x : ℕ). process_kind a x (classify a.policy x) w in
            let e' = ap (λ x. (run x).0) here ∙ e in
            let b = process_kind-booked a h (classify a.policy h) w boundary pos e' in
            there (ltb h (suc height)) (is_booked a.policy h t)
              (ap (λ x. is_booked a.policy h (run x).1.tables) (sym here) ∙ b)
        | inr apart ↦
            narrower (ltb h height) (ltb h (suc height)) (is_booked a.policy h t)
              (λ lt. ground arith)
              (still (ltb h height) (is_booked a.policy h w.tables) (is_booked a.policy h t)
                k.booked c)
      ]

  upsert-both :
      (height : ℕ) (w : World)
      → Covered (suc height) w.tables
      → NoneSkipped a.policy h w.tables
      → NoneSkipped a.policy h (upsert_cursor height w).1.tables
        × Covered (suc height) (upsert_cursor height w).1.tables
  unfolding upsert_cursor
  upsert-both height w c s = go (refused w.io)
    where
      after_all : Tables
      after_all = record w.tables { cursor = some height }

      go :
          (b : Bool)
          → let r : Result (Unit {0}) × World =
              if b then (err Error.sql, unwritten w) else (ok tt, wrote w after_all) in
            NoneSkipped a.policy h r.1.tables × Covered (suc height) r.1.tables
      go true = (s, c)
      go false = (
        narrower (ltb h (suc height)) (leb h height) (is_booked a.policy h w.tables)
            (λ le. ground arith) c,
        c,
      )

  below_genesis : h < a.policy.genesis_block_number → ⊥
  unfolding batch_at
  below_genesis lt = ground arith

  start_of-Covered :
      (w : World)
      → NoneSkipped a.policy h w.tables
      → Covered (start_of a.policy (get_cursor w).0) (get_cursor w).1.tables
  unfolding start_of get_cursor
  start_of-Covered w s = go (refused w.io) w.tables.cursor s
    where
      booked : Bool
      booked = is_booked a.policy h w.tables

      at_genesis : (ltb h a.policy.genesis_block_number && not booked) ≡ false
      at_genesis = elim (Bool-cases (ltb h a.policy.genesis_block_number)) [
        | inl below ↦ absurd (below_genesis (ground arith))
        | inr behind ↦ rw behind
      ]

      go :
          (b : Bool) (cursor : Option ℕ)
          → (passed h cursor && not booked) ≡ false
          → let r : Result (Option ℕ) × World =
              if b then (err Error.sql, unwritten w) else (ok cursor, wrote w w.tables) in
            Covered (start_of a.policy r.0) r.1.tables
      go true cursor s = at_genesis
      go false none s = at_genesis
      go false (some c) s = narrower (leb h c) (ltb h (add32 c 1)) booked (λ lt. ground arith) s

  after-NoneSkipped :
      (f : M (Unit {0})) (r : Result (Unit {0}) × World)
      → NoneSkipped a.policy h r.1.tables
      → (r.0 ≡ ok tt → NoneSkipped a.policy h (f r.1).1.tables)
      → NoneSkipped a.policy h (after (λ _. f) r).1.tables
  after-NoneSkipped f (err e, w) s next = s
  after-NoneSkipped f (ok _, w) s next = next refl

  replay-NoneSkipped :
      (n height : ℕ) (w : World)
      → NoneSkipped a.policy h w.tables
      → Covered height w.tables
      → NoneSkipped a.policy h (replay a height n w).1.tables
  unfolding replay
  replay-NoneSkipped zero height w s c = s
  replay-NoneSkipped (suc n) height w s c =
      let r = process_height a height w in
      let k = process_height-Keeps (batch_at a.policy h - 1) a height w in
      let rest = replay a (suc height) n in
      after-NoneSkipped (upsert_cursor height >> rest) r (Kept-NoneSkipped w r.1 k s) (λ e.
        let both =
          upsert-both height r.1 (handled-Covered height w e c) (Kept-NoneSkipped w r.1 k s) in
        let u = upsert_cursor height r.1 in
        after-NoneSkipped rest u both.0 (λ _. replay-NoneSkipped n (suc height) u.1 both.0 both.1))

get_cursor-tables : (w : World) → (get_cursor w).1.tables ≡ w.tables
unfolding get_cursor
get_cursor-tables w = ground arith

-- Take a height h that ends a batch behind genesis, and let the cursor not have passed h without
-- the reward that is due there being booked. Then a tick's replay keeps it so, whichever statements
-- the database refuses, whatever the chain answers at each height, and however far the head is: the
-- cursor never leaves a batch behind that has no reward.
pub catch_up-NoneSkipped :
    (a : Answers) (head h : ℕ) (w : World)
    → classify a.policy h ≢ block_micro
    → 0 < batch_at a.policy h
    → NoneSkipped a.policy h w.tables
    → NoneSkipped a.policy h (catch_up a head w).1.tables
unfolding catch_up
catch_up-NoneSkipped a head h w boundary pos s =
    let r = get_cursor w in
    let start = start_of a.policy r.0 in
    replay-NoneSkipped a h boundary pos (suc head - start) start r.1 (rw (get_cursor-tables w) s)
      (start_of-Covered a h boundary pos w s)
