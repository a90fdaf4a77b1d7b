-- ===== src/Console/Overview.antt =====
-- The overview and the readiness of the pool (`handleOperatorOverview`, `epochParticipationFromStatus`
-- and `writeReadiness` of internal/api/operator_overview_handlers.go). The runway of the wallet is left
-- out, as are the fields that are copied from the row.
use go_pool.Prelude.{
  ℕ, ◌-◌, ◌≡◌, refl, ◌∙◌, arith, inl, inr, List, [], ◌∷◌, map, Option, none, some, Bool, true,
  false, not, ◌&&◌, ◌||◌, ◌==◌, leb, if◌then◌else◌, any_of, keep, Bool-cases,
}
use go_pool.Access.Operator.{text_equal}
use go_pool.Settings.{codes, is_set}
use go_pool.Console.{limit_offset}
use go_pool.Console.Activity.{OperatorEvent, newest_first}

-- The row of `runtime_status`; a column that is NULL is `none`.
pub record RuntimeStatus : Type 0 where
  pub last_processed_height : ℕ
  pub chain_head : ℕ
  pub rpc_ok : ℕ
  pub readiness_error : Option (List ℕ)
  pub epoch_number : Option ℕ
  pub epoch_elected : Option ℕ
  pub slot_count : Option ℕ
  pub slots_total : Option ℕ

pub data Health : Type 0 where
  healthy attention : Health

pub data Readiness : Type 0 where
  ready degraded failing : Readiness

pub record AttentionItem : Type 0 where
  pub severity : List ℕ
  pub category : List ℕ
  pub summary : List ℕ

pub record ShownParticipation : Type 0 where
  pub epoch : Option ℕ
  pub elected : Option Bool
  pub slot_count : Option ℕ
  pub slots_total : Option ℕ

pub record Overview : Type 0 where
  pub status : Health
  pub chain_lag : ℕ
  pub readiness : Readiness
  pub attention : List AttentionItem
  pub events : List OperatorEvent
  pub epoch_participation : ShownParticipation

abbrev elected_from : Option ℕ → Option Bool
elected_from none = none
elected_from (some v) = some (not (v == 0))

-- `epochParticipationFromStatus`.
unfoldable epoch_participation_from_status : RuntimeStatus → ShownParticipation
epoch_participation_from_status row = record {
  epoch = row.epoch_number;
  elected = elected_from row.epoch_elected;
  slot_count = row.slot_count;
  slots_total = row.slots_total;
}

-- `ReadinessError.Valid && ReadinessError.String != ""`.
abbrev has_error : Option (List ℕ) → Bool
has_error none = false
has_error (some s) = is_set s

-- An event that flags attention.
abbrev is_flagged : OperatorEvent → Bool
is_flagged e =
    (text_equal e.severity (codes "error") || text_equal e.severity (codes "warning"))
    && not (text_equal e.category (codes "readiness"))

abbrev item_of : OperatorEvent → AttentionItem
item_of e = record { severity = e.severity; category = e.category; summary = e.summary }

-- The heartbeat's error in front of what the events flag.
abbrev with_blocker : Option (List ℕ) → List AttentionItem → List AttentionItem
with_blocker none items = items
with_blocker (some s) items =
    if is_set s
    then record { severity = codes "warning"; category = codes "readiness"; summary = s } ∷ items
    else items

abbrev readiness_of : RuntimeStatus → Readiness
readiness_of row =
    if has_error row.readiness_error then failing else if row.rpc_ok == 0 then degraded else ready

abbrev health_from : List AttentionItem → Readiness → Health
health_from [] ready = healthy
health_from [] degraded = attention
health_from [] failing = attention
health_from (_ ∷ _) r = attention

-- The rows that are listed; an error of this query is not looked at.
abbrev recent_events : Option (List OperatorEvent) → List OperatorEvent
recent_events none = []
recent_events (some events) = limit_offset 20 0 (newest_first events)

abbrev overview_of : RuntimeStatus → List OperatorEvent → Overview
overview_of row events =
    let items = with_blocker row.readiness_error (map item_of (keep is_flagged events)) in
    record {
      status = health_from items (readiness_of row);
      chain_lag =
          if leb row.last_processed_height row.chain_head
          then row.chain_head - row.last_processed_height
          else 0;
      readiness = readiness_of row;
      attention = items;
      events = events;
      epoch_participation = epoch_participation_from_status row;
    }

-- `handleOperatorOverview`; the row is `none` where it cannot be read, and then so is the answer.
unfoldable handle_operator_overview :
    Option RuntimeStatus → Option (List OperatorEvent) → Option Overview
unfolding epoch_participation_from_status
handle_operator_overview none events = none
handle_operator_overview (some row) events = some (overview_of row (recent_events events))

items-health :
    (r : Readiness) (events : List OperatorEvent)
    → health_from (map item_of (keep is_flagged events)) r
      ≡ (if any_of is_flagged events then attention else health_from [] r)
items-health r [] = refl
items-health r (e ∷ events) = elim (Bool-cases (is_flagged e)) [
  | inl flagged ↦ rw flagged refl
  | inr calm ↦ rw calm (items-health r events)
]

status-lem :
    (e : Option (List ℕ)) (rpc_down : Bool) (events : List OperatorEvent)
    → health_from
        (with_blocker e (map item_of (keep is_flagged events)))
        (if has_error e then failing else if rpc_down then degraded else ready)
      ≡ (if not (has_error e) && not rpc_down && not (any_of is_flagged events)
          then healthy
          else attention)
status-lem none true events = items-health degraded events ∙ ground arith
status-lem none false events = items-health ready events ∙ ground arith
status-lem (some []) true events = items-health degraded events ∙ ground arith
status-lem (some []) false events = items-health ready events ∙ ground arith
status-lem (some (c ∷ s)) rpc_down events = refl

-- The overview says "healthy" exactly if the heartbeat has no error, the RPC node answers, and none of
-- the 20 newest events is an error or a warning outside readiness.
handle_operator_overview-healthy :
    (row : RuntimeStatus) (events : List OperatorEvent)
    → let quiet =
        not (has_error row.readiness_error)
        && not (row.rpc_ok == 0)
        && not (any_of is_flagged (limit_offset 20 0 (newest_first events))) in
      (o : Overview) × (handle_operator_overview (some row) (some events) ≡ some o)
      × (o.status ≡ (if quiet then healthy else attention))
unfolding handle_operator_overview
handle_operator_overview-healthy row events = (
  overview_of row (recent_events (some events)),
  refl,
  status-lem row.readiness_error (row.rpc_ok == 0) (limit_offset 20 0 (newest_first events)),
)
