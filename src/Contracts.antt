-- ===== src/Contracts.antt =====
-- packages/queue-contracts/src/realtime.ts: event types, channels and outbox payloads.
pub mod Payloads
pub mod Targets
use elitehub_vault.Base.{
  Text, codes, ◌++◌, List, [], ◌∷◌, Option, Dict, Bool, contains, keep, text_eq,
}

-- The four `*_EVENT` constants; a value of this type is a string that equals one of them.
pub data EventType : Type 0 where
  system_powerplay_updated faction_presence_changed faction_state_changed : EventType
  faction_control_threat_changed : EventType

abbrev pub event_name : EventType → Text
event_name system_powerplay_updated = codes "systemPowerplayUpdated"
event_name faction_presence_changed = codes "factionPresenceChanged"
event_name faction_state_changed = codes "factionStateChanged"
event_name faction_control_threat_changed = codes "factionControlThreatChanged"

unfoldable pub faction_scoped_channel : Text → Text → Text
faction_scoped_channel event_type faction_id =
    codes "events:" ++ (event_type ++ (codes ":faction:" ++ faction_id))

unfoldable pub system_powerplay_updated_power_channel : Text → Text
system_powerplay_updated_power_channel power_id =
    codes "events:systemPowerplayUpdated:power:" ++ power_id

unfoldable pub faction_presence_changed_faction_channel : Text → Text
unfolding faction_scoped_channel
faction_presence_changed_faction_channel faction_id =
    faction_scoped_channel (event_name faction_presence_changed) faction_id

unfoldable pub faction_state_changed_faction_channel : Text → Text
unfolding faction_scoped_channel
faction_state_changed_faction_channel faction_id =
    faction_scoped_channel (event_name faction_state_changed) faction_id

unfoldable pub faction_control_threat_changed_faction_channel : Text → Text
unfolding faction_scoped_channel
faction_control_threat_changed_faction_channel faction_id =
    faction_scoped_channel (event_name faction_control_threat_changed) faction_id

abbrev pub tracked_fields : List Text
tracked_fields =
    codes "powerplayState"
    ∷ codes "powerplayStateControlProgress"
    ∷ codes "powerplayStateReinforcement"
    ∷ codes "powerplayStateUndermining"
    ∷ []

unfoldable pub filter_system_powerplay_changed_fields : List Text → List Text
unfolding contains keep
filter_system_powerplay_changed_fields = keep (λ field. contains field tracked_fields)

pub data PresenceChange : Type 0 where
  entered left : PresenceChange

pub data StateKind : Type 0 where
  state conflict : StateKind

pub data StateLifecycle : Type 0 where
  pending active ended : StateLifecycle

pub data ThreatStatus : Type 0 where
  entered cleared : ThreatStatus

-- `J` is the type of unknown JSON values and `N` that of JavaScript numbers.
pub record PowerplayOutbox (J : Type 0) : Type 0 where
  pub system_id : Text
  pub changed_fields : List Text
  pub source : Option Text
  pub metadata : Option (Dict Text J)

pub record PresenceOutbox : Type 0 where
  pub faction_id : Text
  pub system_id : Text
  pub change : PresenceChange

pub record StateOutbox : Type 0 where
  pub faction_id : Text
  pub system_id : Text
  pub state_kind : StateKind
  pub state : Text
  pub lifecycle : StateLifecycle
  pub opponent_faction_id : Option Text

pub record ThreatOutbox (N : Type 0) : Type 0 where
  pub faction_id : Text
  pub system_id : Text
  pub status : ThreatStatus
  pub challenger_faction_id : Text
  pub gap : N
  pub threshold : N

-- What zod and `Date` do for this file: `safeParse` of the four outbox schemas, with `none` where
-- `success` is false, and `new Date(createdAt).toISOString()`.
pub record Platform (J N D : Type 0) : Type 0 where
  pub parse_powerplay : J → Option (PowerplayOutbox J)
  pub parse_presence : J → Option PresenceOutbox
  pub parse_state : J → Option StateOutbox
  pub parse_threat : J → Option (ThreatOutbox N)
  pub to_iso_string : D → Text
