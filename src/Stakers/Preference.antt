-- ===== src/Stakers/Preference.antt =====
-- The choice of a staker, and what the daemon makes of it (internal/api/staker_handlers.go with
-- `processEligiblePayout`'s choice of a mode in internal/pool/payout.go).
use go_pool.Prelude.{
  ℕ, ◌≡◌, refl, sym, ap, ◌∙◌, arith, inl, inr, List, [], ◌∷◌, Option, none, some, Bool, true, false,
  ◌&&◌, ◌==◌, if◌then◌else◌, Bool-cases, ==_refl,
}
use go_pool.Store.{Tables, PayoutKind, payout_transfer, payout_delegate}
use go_pool.Store.Monad.{World, ok, err, Error, refused, query, exec, stmt, pure, >>=-inv}
use go_pool.Store.Statements.{stmt-cases}
use go_pool.Store.Payments.{preference_of, get_staker_preference}
use go_pool.Payout.Rules.{
  PayoutMode, Chain, Config, is_delegate, still_delegated, payout_kind_for, effective_payout_kind,
  choose_payout_tx,
}
use go_pool.Payout.Approve.{preference}
use go_pool.Stakers.{
  compound_from, effective_compound, upsert, upsert_staker_preference, bool_to_int,
  handle_put_my_preference,
}

preference_of-upsert : (a v : ℕ) (ps : List (ℕ × ℕ)) → preference_of a (upsert a v ps) ≡ some v
preference_of-upsert a v [] = rw (==_refl a) refl
preference_of-upsert a v ((k, u) ∷ ps) = ground (arith, preference_of-upsert a v ps)

-- The kind of payout that a choice asks for.
abbrev pub chosen_kind : Chain → ℕ → Bool → PayoutKind
chosen_kind c a compound =
    if compound && still_delegated c a then payout_delegate else payout_transfer

kind-chosen :
    (cfg : Config) (c : Chain) (a : ℕ) (b : Bool)
    → payout_kind_for cfg c a (some b) ≡ chosen_kind c a b
unfolding payout_kind_for effective_payout_kind choose_payout_tx
kind-chosen cfg c a true = refl
kind-chosen cfg c a false = refl

kind-global :
    (cfg : Config) (c : Chain) (a : ℕ)
    → payout_kind_for cfg c a none ≡ chosen_kind c a (is_delegate cfg.payout_mode)
unfolding payout_kind_for effective_payout_kind choose_payout_tx
kind-global cfg c a = elim (Bool-cases (is_delegate cfg.payout_mode)) [
  | inl same ↦ rw same refl
  | inr other ↦ rw other refl
]

ok-inj : (b x : Bool) → ok b ≡ ok x → b ≡ x
ok-inj b x h = cc (h)

bool_to_int-back : (b : Bool) → (bool_to_int b == 1) ≡ b
bool_to_int-back true = refl
bool_to_int-back false = refl

upsert-row :
    (a v : ℕ) (w w' : World)
    → upsert_staker_preference a v w ≡ (ok tt, w')
    → preference_of a w'.tables.preferences ≡ some v
unfolding upsert_staker_preference exec
upsert-row a v w w' h =
    let f : Tables → Option (Unit {0} × Tables) =
      λ t. some (tt, record t { preferences = upsert a v t.preferences }) in
    elim (stmt-cases f w) [
      | inl failed ↦ cc (h, failed)
      | inr (_, t, set, run) ↦
          let tables : w'.tables.preferences ≡ t.preferences =
            ap (λ x. x.1.tables.preferences) (sym h ∙ run) in
          let rows : upsert a v w.tables.preferences ≡ t.preferences =
            ap (λ o. elim o [ some (_, u) ↦ u.preferences | none ↦ [] ]) set in
          ap (preference_of a) (tables ∙ sym rows) ∙ preference_of-upsert a v w.tables.preferences
    ]

put-row :
    (a : ℕ) (b x : Bool) (w w' : World)
    → handle_put_my_preference a b w ≡ (ok x, w')
    → (x ≡ b) × (preference_of a w'.tables.preferences ≡ some (bool_to_int b))
unfolding handle_put_my_preference
put-row a b x w w' h =
    let upserted = upsert_staker_preference a (bool_to_int b) in
    let (_, t, wrote, rest) = >>=-inv upserted (λ _. pure b) w (ap (λ y. y.0) h) in
    let ended : (ok b, t) ≡ (ok x, w') = sym rest ∙ h in
    (
      sym (ok-inj b x (ap (λ y. y.0) ended)),
      ap (λ y. preference_of a y.1.tables.preferences) (sym ended)
          ∙ upsert-row a (bool_to_int b) w t wrote,
    )

read-result :
    (a : ℕ) (w : World)
    → (get_staker_preference a w).0
      ≡ (if refused w.io then err Error.sql else ok (preference_of a w.tables.preferences))
unfolding get_staker_preference query stmt
read-result a w = elim (Bool-cases (refused w.io)) [
  | inl no_io ↦ rw no_io refl
  | inr io ↦ rw io refl
]

shown-result :
    (mode : PayoutMode) (a : ℕ) (w : World)
    → (effective_compound mode a w).0 ≡ (
        if refused w.io
        then err Error.sql
        else ok (compound_from mode (preference_of a w.tables.preferences)))
unfolding effective_compound get_staker_preference query stmt
shown-result mode a w = elim (Bool-cases (refused w.io)) [
  | inl no_io ↦ rw no_io refl
  | inr io ↦ rw io refl
]

-- Let a staker's choice be saved, and let the daemon decide about a payout later, while the table of
-- choices is as it was then. The payout restakes exactly if the staker chose this and still delegates
-- to the validator, and what the API shows is the choice, whatever the configured mode is; but if the
-- daemon's query fails, the configured mode decides in place of the staker.
pub put_preference-paid :
    (cfg : Config) (c : Chain) (mode : PayoutMode) (a : ℕ) (b x : Bool) (w w' w'' : World)
    → handle_put_my_preference a b w ≡ (ok x, w')
    → w''.tables.preferences ≡ w'.tables.preferences
    → let choice = if refused w''.io then is_delegate cfg.payout_mode else b in
      (x ≡ b)
      × (payout_kind_for cfg c a (preference (get_staker_preference a w'').0)
          ≡ chosen_kind c a choice)
      × ((effective_compound mode a w'').0 ≡ (if refused w''.io then err Error.sql else ok b))
put_preference-paid cfg c mode a b x w w' w'' h same =
    let (answer, row) = put-row a b x w w' h in
    let found = ap (preference_of a) same ∙ row in
    let back = bool_to_int-back b in
    let read = read-result a w'' in
    let shown = shown-result mode a w'' in
    elim (Bool-cases (refused w''.io)) [
      | inl no_io ↦
          let failed : (get_staker_preference a w'').0 ≡ err Error.sql = read ∙ rw no_io refl in
          (
            answer,
            ap (λ r. payout_kind_for cfg c a (preference r)) failed
                ∙ kind-global cfg c a
                ∙ rw no_io refl,
            shown ∙ rw no_io refl,
          )
      | inr io ↦
          let got : (get_staker_preference a w'').0 ≡ ok (some (bool_to_int b)) =
            read ∙ rw (io, found) refl in
          (
            answer,
            ap (λ r. payout_kind_for cfg c a (preference r)) got
                ∙ ap (λ k. payout_kind_for cfg c a (some k)) back
                ∙ kind-chosen cfg c a b
                ∙ rw io refl,
            shown ∙ rw (io, found) (ap ok back),
          )
    ]
