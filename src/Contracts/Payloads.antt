-- ===== src/Contracts/Payloads.antt =====
-- packages/queue-contracts/src/realtime.ts: the published payloads and how they are built.
use elitehub_vault.Base.{Text, List, [], ◌∷◌, Option, none, some, Dict, or_else}
use elitehub_vault.Contracts.{
  EventType, system_powerplay_updated, faction_presence_changed, faction_state_changed,
  faction_control_threat_changed, PresenceChange, StateKind, StateLifecycle, ThreatStatus, Platform,
  filter_system_powerplay_changed_fields,
}

pub record PowerplayPayload (J : Type 0) : Type 0 where
  pub event : EventType
  pub system_id : Text
  pub power_id : Text
  pub changed_fields : List Text
  pub timestamp : Text
  pub metadata : Dict Text J

pub record PresencePayload : Type 0 where
  pub event : EventType
  pub faction_id : Text
  pub system_id : Text
  pub change : PresenceChange
  pub timestamp : Text

pub record StatePayload : Type 0 where
  pub event : EventType
  pub faction_id : Text
  pub system_id : Text
  pub state_kind : StateKind
  pub state : Text
  pub lifecycle : StateLifecycle
  pub opponent_faction_id : Option Text
  pub timestamp : Text

pub record ThreatPayload (N : Type 0) : Type 0 where
  pub event : EventType
  pub faction_id : Text
  pub system_id : Text
  pub status : ThreatStatus
  pub challenger_faction_id : Text
  pub gap : N
  pub threshold : N
  pub timestamp : Text

-- `RealtimePayload`, the union.
pub data Payload (J N : Type 0) : Type 0 where
  powerplay : PowerplayPayload J → Payload J N
  presence : PresencePayload → Payload J N
  state : StatePayload → Payload J N
  threat : ThreatPayload N → Payload J N

-- The fields that every member of the union has.
unfoldable pub payload_event : {J N : Type 0} → Payload J N → EventType
payload_event (powerplay p) = p.event
payload_event (presence p) = p.event
payload_event (state p) = p.event
payload_event (threat p) = p.event

unfoldable pub payload_system_id : {J N : Type 0} → Payload J N → Text
payload_system_id (powerplay p) = p.system_id
payload_system_id (presence p) = p.system_id
payload_system_id (state p) = p.system_id
payload_system_id (threat p) = p.system_id

-- `...(id ? { opponentFactionId: id } : {})`: the empty string is left out too.
unfoldable pub truthy_text : Option Text → Option Text
truthy_text none = none
truthy_text (some []) = none
truthy_text (some (c ∷ s)) = some (c ∷ s)

module _ {J N D : Type 0} (platform : Platform J N D) where
  unfoldable pub build_system_powerplay_updated_payload :
      Text → Text → List Text → D → Option (Dict Text J) → PowerplayPayload J
  unfolding filter_system_powerplay_changed_fields
  build_system_powerplay_updated_payload system_id power_id changed_fields created_at metadata =
      record {
        event = system_powerplay_updated;
        system_id = system_id;
        power_id = power_id;
        changed_fields = filter_system_powerplay_changed_fields changed_fields;
        timestamp = platform.to_iso_string created_at;
        metadata = or_else metadata [];
      }

  unfoldable pub build_faction_presence_changed_payload :
      Text → Text → PresenceChange → D → PresencePayload
  build_faction_presence_changed_payload faction_id system_id change created_at = record {
    event = faction_presence_changed;
    faction_id = faction_id;
    system_id = system_id;
    change = change;
    timestamp = platform.to_iso_string created_at;
  }

  unfoldable pub build_faction_state_changed_payload :
      Text → Text → StateKind → Text → StateLifecycle → Option Text → D → StatePayload
  unfolding truthy_text
  build_faction_state_changed_payload faction_id system_id kind st lifecycle opponent created_at =
      record {
        event = faction_state_changed;
        faction_id = faction_id;
        system_id = system_id;
        state_kind = kind;
        state = st;
        lifecycle = lifecycle;
        opponent_faction_id = truthy_text opponent;
        timestamp = platform.to_iso_string created_at;
      }

  unfoldable pub build_faction_control_threat_changed_payload :
      Text → Text → ThreatStatus → Text → N → N → D → ThreatPayload N
  build_faction_control_threat_changed_payload faction_id system_id status challenger gap threshold
        created_at =
      record {
        event = faction_control_threat_changed;
        faction_id = faction_id;
        system_id = system_id;
        status = status;
        challenger_faction_id = challenger;
        gap = gap;
        threshold = threshold;
        timestamp = platform.to_iso_string created_at;
      }

  -- For a power: nothing when the outbox payload does not parse.
  unfoldable pub build_system_powerplay_updated_power_scoped_payload :
      J → D → Text → Option (PowerplayPayload J)
  unfolding build_system_powerplay_updated_payload
  build_system_powerplay_updated_power_scoped_payload outbox_payload created_at power_id =
      elim (platform.parse_powerplay outbox_payload) [
        | none ↦ none
        | some parsed ↦ some (
            build_system_powerplay_updated_payload parsed.system_id power_id parsed.changed_fields
              created_at parsed.metadata)
      ]
