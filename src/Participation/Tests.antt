-- ===== src/Participation/Tests.antt =====
-- Refreshes (internal/pool/epoch_participation.go) over two epochs without a slot.
use go_pool.Prelude.{ℕ, ◌≡◌, refl, List, [], ◌∷◌, Bool, true, false}
use go_pool.Participation.{
  EpochParticipation, Memory, alerted_epochs, maybe_alert_not_elected, should_alert_not_elected,
}

abbrev part : ℕ → Bool → EpochParticipation
part epoch elected = record {
  valid = true;
  epoch = epoch;
  elected = elected;
  slot_count = 0;
  slots_total = 512;
}

abbrev parts : List EpochParticipation
parts = part 3 true ∷ part 4 false ∷ part 4 false ∷ part 5 false ∷ []

abbrev memory : Memory
memory = record {
  slots_total = 512;
  epoch_part = part 2 true;
  unelected_alerted = false;
  unelected_alert_epoch = 0;
}

alerted_epochs_run : alerted_epochs memory parts ≡ 4 ∷ 5 ∷ []
unfolding alerted_epochs maybe_alert_not_elected should_alert_not_elected
alerted_epochs_run = refl
