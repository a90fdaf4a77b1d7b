-- ===== src/Election/Snapshot.antt =====
-- What `handleElection` (internal/pool/election.go) records when the database takes every
-- statement.
use mathlib.Core.List.{append_assoc, append-nil}
use go_pool.Prelude.{
  ℕ, ◌≡◌, ◌==◌, ◌∙◌, refl, inl, inr, arith, List, [], ◌∷◌, ◌++◌, none, some, Bool, true, false, not,
  ◌&&◌, if◌then◌else◌, length, any_of, any_of-append, any_of-append_last, keep, Bool-cases, ==_refl,
  add32,
}
use go_pool.Policy.{epoch_at}
use go_pool.Store.{EpochStatus, Epoch, Staker, Tables}
use go_pool.Store.Statements.{calm}
use go_pool.Store.Monad.{World, ok, >>=-ok, done}
use go_pool.Store.Epochs.{epoch_exists_in, epoch_exists, insert_epoch, insert_staker}
use go_pool.Election.{
  Validator, Env, election_status, upcoming, any_exists, insert_epochs, insert_stakers,
  insert_snapshots, record_snapshot, record_validator, record_epochs, handle_election,
}

abbrev pub staker_row : ℕ → ℕ → ℕ → Staker
staker_row n a stake = record { epoch_number = n; address = a; stake = stake }

-- The rows of the stakers that have a balance.
abbrev pub rows_of : ℕ → List (ℕ × ℕ) → List Staker
rows_of n [] = []
rows_of n ((a, stake) ∷ ss) =
    let rest = rows_of n ss in if stake == 0 then rest else staker_row n a stake ∷ rest

-- No address is listed twice.
abbrev pub distinct : List (ℕ × ℕ) → Bool
distinct [] = true
distinct ((a, stake) ∷ ss) = not (any_of (λ p. p.0 == a) ss) && distinct ss

-- A table of stakers has none of the listed ones in an epoch.
abbrev free : ℕ → List (ℕ × ℕ) → List Staker → Bool
free n ss rows = any_of (λ p. any_of (λ r. r.epoch_number == n && r.address == p.0) rows) ss

free-append :
    (n a stake : ℕ) (ss : List (ℕ × ℕ)) (rows : List Staker)
    → any_of (λ p. p.0 == a) ss ≡ false
    → free n ss rows ≡ false
    → free n ss (rows ++ staker_row n a stake ∷ []) ≡ false
free-append n a stake [] rows other f = refl
free-append n a stake ((b, x) ∷ ss) rows other f = ground (
  arith,
  free-append n a stake ss rows,
  any_of-append (λ r. r.epoch_number == n && r.address == b) rows (staker_row n a stake ∷ []),
)

free-unused :
    (n : ℕ) (ss : List (ℕ × ℕ)) (rows : List Staker)
    → any_of (λ r. r.epoch_number == n) rows ≡ false
    → free n ss rows ≡ false
free-unused n [] rows h = refl
free-unused n ((b, x) ∷ ss) rows h = ground (arith, free-unused n ss rows h, none_at b rows h)
  where
    none_at :
        (b : ℕ) (rows : List Staker)
        → any_of (λ r. r.epoch_number == n) rows ≡ false
        → any_of (λ r. r.epoch_number == n && r.address == b) rows ≡ false
    none_at b [] h = refl
    none_at b (r ∷ rows) h = ground (arith, none_at b rows)

insert_staker-calm :
    (n a stake : ℕ) (w : World) (t : Tables)
    → epoch_exists_in n t ≡ true
    → any_of (λ r. r.epoch_number == n && r.address == a) t.stakers ≡ false
    → insert_staker (staker_row n a stake) (calm w t)
      ≡ (ok tt, calm w (record t { stakers = t.stakers ++ staker_row n a stake ∷ [] }))
unfolding insert_staker
insert_staker-calm n a stake w t known new = rw new (rw known)

insert_stakers-calm :
    (n : ℕ) (ss : List (ℕ × ℕ)) (w : World) (t : Tables)
    → epoch_exists_in n t ≡ true
    → free n ss t.stakers ≡ false
    → distinct ss ≡ true
    → insert_stakers n ss (calm w t)
      ≡ (ok tt, calm w (record t { stakers = t.stakers ++ rows_of n ss }))
unfolding insert_stakers
insert_stakers-calm n [] w t known f d = rw append-nil
insert_stakers-calm n ((a, stake) ∷ ss) w t known f d = elim (Bool-cases (stake == 0)) [
  | inl nothing ↦ rw nothing (insert_stakers-calm n ss w t known (ground arith) (ground arith))
  | inr some_luna ↦
      let t' = record t { stakers = t.stakers ++ staker_row n a stake ∷ [] } in
      let f' = free-append n a stake ss t.stakers (ground arith) (ground arith) in
      rw some_luna (
        >>=-ok (insert_staker (staker_row n a stake)) (λ _. insert_stakers n ss) (calm w t)
          (insert_staker-calm n a stake w t known (ground arith))
        ∙ insert_stakers-calm n ss w t' known f' (ground arith)
        ∙ rw append_assoc)
]

keep-none :
    (n : ℕ) (rows more : List Staker)
    → any_of (λ r. r.epoch_number == n) rows ≡ false
    → keep (λ r. r.epoch_number == n) (rows ++ more) ≡ keep (λ r. r.epoch_number == n) more
keep-none n [] more h = refl
keep-none n (r ∷ rows) more h = ground (arith, keep-none n rows more)

keep-rows :
    (n : ℕ) (ss : List (ℕ × ℕ)) → keep (λ r. r.epoch_number == n) (rows_of n ss) ≡ rows_of n ss
keep-rows n [] = refl
keep-rows n ((a, stake) ∷ ss) = ground (arith, keep-rows n ss, ==_refl n)

-- The row of an epoch that is in progress.
abbrev pub epoch_row : ℕ → Validator → List (ℕ × ℕ) → Epoch
epoch_row n v ss = record {
  number = n;
  num_stakers = length ss;
  balance = v.balance;
  status = EpochStatus.in_progress;
}

-- The tables with the snapshot of an epoch.
abbrev pub with_snapshot : ℕ → Validator → List (ℕ × ℕ) → Tables → Tables
with_snapshot n v ss t = record t {
  epochs = t.epochs ++ epoch_row n v ss ∷ [];
  stakers = t.stakers ++ rows_of n ss;
}

module _ (env : Env) (height : ℕ) (w : World) (t : Tables) (v : Validator) (ss : List (ℕ × ℕ))
    (later : (height == env.policy.genesis_block_number) ≡ false) (elected : env.validator ≡ some v)
    (earns : election_status v height ≡ none) (listed : env.stakers ≡ some ss)
    (new : epoch_exists_in (add32 (epoch_at env.policy height) 1) t ≡ false)
    (unused : any_of (λ r. r.epoch_number == add32 (epoch_at env.policy height) 1) t.stakers
      ≡ false)
    (once : distinct ss ≡ true) where
  records :
      (n : ℕ)
      → epoch_exists_in n t ≡ false
      → any_of (λ r. r.epoch_number == n) t.stakers ≡ false
      → record_epochs env height (n ∷ []) env.validator (calm w t)
        ≡ (ok tt, calm w (with_snapshot n v ss t))
  unfolding record_epochs record_validator record_snapshot insert_epochs insert_epoch
      insert_snapshots
  records n absent none_yet =
      let t' = record t { epochs = t.epochs ++ epoch_row n v ss ∷ [] } in
      let known = any_of-append_last (λ e. e.number == n) t.epochs (epoch_row n v ss) (==_refl n) in
      let all_rows =
        >>=-ok (insert_stakers n ss) (λ _. done) (calm w t')
          (insert_stakers-calm n ss w t' known (free-unused n ss t.stakers none_yet) once) in
      rw elected (rw earns (rw listed (rw absent all_rows)))

  opens_one : upcoming env.policy height ≡ add32 (epoch_at env.policy height) 1 ∷ []
  unfolding upcoming
  opens_one = rw later

  is_new : any_exists (add32 (epoch_at env.policy height) 1 ∷ []) (calm w t) ≡ (ok false, calm w t)
  unfolding any_exists epoch_exists
  is_new = rw new

  -- At an election block behind genesis, let the validator be one that can earn, let the next epoch
  -- and its stakers not be recorded, let no address be listed twice, and let the database take
  -- every statement. Then the handler succeeds and appends one epoch in progress, with the number
  -- of listed stakers and the validator's balance, and one row for each staker with a balance; and
  -- these rows are what is read later as the stakers of that epoch.
  pub handle_election-snapshots :
      let n = add32 (epoch_at env.policy height) 1 in
      (handle_election env height (calm w t) ≡ (ok tt, calm w (with_snapshot n v ss t)))
      × (keep (λ r. r.epoch_number == n) (with_snapshot n v ss t).stakers ≡ rows_of n ss)
  unfolding handle_election
  handle_election-snapshots =
      let n = add32 (epoch_at env.policy height) 1 in
      (
        rw opens_one (rw is_new (records n new unused)),
        keep-none n t.stakers (rows_of n ss) unused ∙ keep-rows n ss,
      )
