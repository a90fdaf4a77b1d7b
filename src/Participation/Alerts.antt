-- ===== src/Participation/Alerts.antt =====
-- One alert for each epoch without a slot (internal/pool/epoch_participation.go).
use go_pool.Prelude.{
  ℕ, ◌≤◌, ◌<◌, ◌≡◌, refl, arith, List, [], ◌∷◌, Bool, true, false, not, ◌&&◌, ◌==◌, leb,
  if◌then◌else◌, any_of, sum_of,
}
use go_pool.Participation.{
  EpochParticipation, should_alert_not_elected, Memory, maybe_alert_not_elected, alerted_epochs,
}

-- The epochs do not fall, and are not below this one.
abbrev pub Rising : ℕ → List EpochParticipation → Type 0
Rising low [] = Unit
Rising low (part ∷ parts) = (low ≤ part.epoch) × Rising part.epoch parts

-- The validator has no slot in the epoch.
abbrev pub missed : ℕ → EpochParticipation → Bool
missed e part = part.valid && not part.elected && part.epoch == e

abbrev pub times : ℕ → List ℕ → ℕ
times e es = sum_of (λ x. if x == e then 1 else 0) es

Rising-weaken :
    (a b : ℕ) (parts : List EpochParticipation) → a ≤ b → Rising b parts → Rising a parts
Rising-weaken a b [] le r = tt
Rising-weaken a b (part ∷ parts) le (l, r) = (omega arith, r)

none_missed :
    (e low : ℕ) (parts : List EpochParticipation)
    → e < low
    → Rising low parts
    → any_of (missed e) parts ≡ false
none_missed e low [] lt r = refl
none_missed e low (part ∷ parts) lt (l, r) =
    ground (arith, none_missed e part.epoch parts (omega arith) r)

-- No second alert about an epoch that the last one has reached.
none_again :
    (e : ℕ) (m : Memory) (parts : List EpochParticipation)
    → m.unelected_alerted ≡ true
    → e ≤ m.unelected_alert_epoch
    → Rising m.unelected_alert_epoch parts
    → times e (alerted_epochs m parts) ≡ 0
unfolding alerted_epochs maybe_alert_not_elected should_alert_not_elected
none_again e m [] a le r = refl
none_again e m (part ∷ parts) a le (l, r) =
    let now = record m { epoch_part = part } in
    let next = record now { unelected_alerted = true; unelected_alert_epoch = part.epoch } in
    ground (
      arith,
      none_again e now parts a le (Rising-weaken m.unelected_alert_epoch part.epoch parts l r),
      none_again e next parts refl (omega arith) r,
    )

once_each :
    (e low : ℕ) (m : Memory) (parts : List EpochParticipation)
    → (m.unelected_alerted && leb e m.unelected_alert_epoch) ≡ false
    → Rising low parts
    → times e (alerted_epochs m parts) ≡ (if any_of (missed e) parts then 1 else 0)
unfolding alerted_epochs maybe_alert_not_elected should_alert_not_elected
once_each e low m [] quiet r = refl
once_each e low m (part ∷ parts) quiet (l, r) =
    let now = record m { epoch_part = part } in
    let next = record now { unelected_alerted = true; unelected_alert_epoch = part.epoch } in
    ground (
      arith,
      once_each e part.epoch now parts quiet r,
      once_each e part.epoch next parts,
      none_again e next parts refl,
      none_missed e part.epoch parts,
    )

-- Let no alert have been sent yet, and let the refreshes come in with epochs that do not fall. Then
-- an epoch is alerted about once if some refresh finds the validator without a slot in it, and not
-- at all otherwise.
alerted_epochs-once :
    (e low : ℕ) (m : Memory) (parts : List EpochParticipation)
    → m.unelected_alerted ≡ false
    → Rising low parts
    → times e (alerted_epochs m parts) ≡ (if any_of (missed e) parts then 1 else 0)
alerted_epochs-once e low m parts none_yet r = once_each e low m parts (ground arith) r
