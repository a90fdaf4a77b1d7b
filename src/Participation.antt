-- ===== src/Participation.antt =====
-- Whether the validator is in the active set of an epoch, and the alert if it is not
-- (internal/pool/epoch_participation.go). Metrics are left out.
pub mod Alerts
mod Tests
use go_pool.Prelude.{
  ℕ, List, [], ◌∷◌, Option, none, some, Bool, true, false, not, ◌&&◌, ◌||◌, ◌==◌, if◌then◌else◌,
}
use go_pool.Policy.{Policy, epoch_at}
use go_pool.Slots.{ActiveValidator, slot_share}

pub record EpochParticipation : Type 0 where
  pub valid : Bool
  pub epoch : ℕ
  pub elected : Bool
  pub slot_count : ℕ
  pub slots_total : ℕ

abbrev participation : ℕ → ℕ → Bool × ℕ → EpochParticipation
participation epoch slots (elected, count) = record {
  valid = true;
  epoch = epoch;
  elected = elected;
  slot_count = count;
  slots_total = slots;
}

-- `applyActiveSet`; `none` is a panic.
unfoldable pub apply_active_set : List ℕ → List ActiveValidator → ℕ → ℕ → Option EpochParticipation
apply_active_set addr vs epoch slots = elim (slot_share addr vs slots) [
  | none ↦ none
  | some share ↦ some (participation epoch slots share)
]

-- `shouldAlertNotElected`.
unfoldable pub should_alert_not_elected : Bool → ℕ → EpochParticipation → Bool
should_alert_not_elected alerted alerted_epoch part =
    if not part.valid || part.elected
    then false
    else not alerted || not (alerted_epoch == part.epoch)

-- The memory of the `Manager`.
pub record Memory : Type 0 where
  pub slots_total : ℕ
  pub epoch_part : EpochParticipation
  pub unelected_alerted : Bool
  pub unelected_alert_epoch : ℕ

-- `Manager.maybeAlertNotElected`, with whether it sends the alert.
unfoldable pub maybe_alert_not_elected : Memory → Memory × Bool
maybe_alert_not_elected m =
    if should_alert_not_elected m.unelected_alerted m.unelected_alert_epoch m.epoch_part
    then (record m { unelected_alerted = true; unelected_alert_epoch = m.epoch_part.epoch }, true)
    else (m, false)

-- What one refresh reads: the head, the constants' number of slots and the active set; `none` is an
-- error.
pub record Reading : Type 0 where
  pub head : ℕ
  pub slots : Option ℕ
  pub active : Option (List ActiveValidator)

-- The number of slots that is remembered, or asked for while there is none.
unfoldable pub known_slots : Memory → Reading → Option ℕ
known_slots m r =
    if m.slots_total == 0
    then elim r.slots [ none ↦ none | some n ↦ if n == 0 then none else some n ]
    else some m.slots_total

-- What follows the answer about the active set.
unfoldable pub apply_and_alert : Memory → Option EpochParticipation → Option (Memory × Bool)
apply_and_alert m none = none
apply_and_alert m (some part) = some (maybe_alert_not_elected (record m { epoch_part = part }))

-- `Manager.refreshEpochParticipation`, with whether it sends the alert; `none` is a panic.
unfoldable pub refresh_epoch_participation :
    Policy → List ℕ → Memory → Reading → Option (Memory × Bool)
refresh_epoch_participation p addr m r = elim (known_slots m r) [
  | none ↦ some (m, false)
  | some slots ↦ elim r.active [
    | none ↦ some (record m { slots_total = slots }, false)
    | some vs ↦
        apply_and_alert (record m { slots_total = slots })
          (apply_active_set addr vs (epoch_at p r.head) slots)
  ]
]

-- The epochs that are alerted about as participations come in.
unfoldable pub alerted_epochs : Memory → List EpochParticipation → List ℕ
alerted_epochs m [] = []
alerted_epochs m (part ∷ parts) =
    let (m', alerted) = maybe_alert_not_elected (record m { epoch_part = part }) in
    let rest = alerted_epochs m' parts in if alerted then part.epoch ∷ rest else rest
