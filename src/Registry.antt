-- ===== src/Registry.antt =====
-- apps/api/src/realtime/sse/eventRegistry.ts: one specification per event type.
pub mod Routing
use elitehub_vault.Base.{
  Text, codes, List, [], ◌∷◌, Option, none, some, Bool, true, contains, strip_prefix, ◌++◌, ◌==◌,
  text_eq, if◌then◌else◌,
}
use elitehub_vault.Contracts.{
  EventType, system_powerplay_updated, faction_presence_changed, faction_state_changed,
  faction_control_threat_changed, event_name, system_powerplay_updated_power_channel,
  faction_presence_changed_faction_channel, faction_state_changed_faction_channel,
  faction_control_threat_changed_faction_channel,
}
use elitehub_vault.Contracts.Payloads.{Payload, payload_system_id}

pub data RoutingKeyParam : Type 0 where
  power_id faction_id : RoutingKeyParam

-- The entries of `RealtimeEventSpecs` that differ between the four events.
pub record EventSpec : Type 0 where
  pub event_type : EventType
  pub routing_key_param : RoutingKeyParam
  pub channel_of : Text → Text
  pub channel_prefix : Text

unfoldable pub spec_of : EventType → EventSpec
spec_of system_powerplay_updated = record {
  event_type = system_powerplay_updated;
  routing_key_param = power_id;
  channel_of = system_powerplay_updated_power_channel;
  channel_prefix = codes "events:systemPowerplayUpdated:power:";
}
spec_of faction_presence_changed = record {
  event_type = faction_presence_changed;
  routing_key_param = faction_id;
  channel_of = faction_presence_changed_faction_channel;
  channel_prefix = codes "events:factionPresenceChanged:faction:";
}
spec_of faction_state_changed = record {
  event_type = faction_state_changed;
  routing_key_param = faction_id;
  channel_of = faction_state_changed_faction_channel;
  channel_prefix = codes "events:factionStateChanged:faction:";
}
spec_of faction_control_threat_changed = record {
  event_type = faction_control_threat_changed;
  routing_key_param = faction_id;
  channel_of = faction_control_threat_changed_faction_channel;
  channel_prefix = codes "events:factionControlThreatChanged:faction:";
}

-- The order of `Object.entries(RealtimeEventSpecs)`.
abbrev pub event_types : List EventType
event_types =
    system_powerplay_updated ∷ faction_presence_changed ∷ faction_state_changed
    ∷ faction_control_threat_changed ∷ []

-- The key of `RealtimeEventSpecs` that a string is.
unfoldable pub event_type_in : List EventType → Text → Option EventType
event_type_in [] name = none
event_type_in (t ∷ ts) name = if event_name t == name then some t else event_type_in ts name

-- What an object literal has from `Object.prototype`.
abbrev pub inherited_names : List Text
inherited_names =
    codes "constructor"
    ∷ codes "hasOwnProperty"
    ∷ codes "isPrototypeOf"
    ∷ codes "propertyIsEnumerable"
    ∷ codes "toLocaleString"
    ∷ codes "toString"
    ∷ codes "valueOf"
    ∷ codes "__proto__"
    ∷ codes "__defineGetter__"
    ∷ codes "__defineSetter__"
    ∷ codes "__lookupGetter__"
    ∷ codes "__lookupSetter__"
    ∷ []

-- What an index of `RealtimeEventSpecs` finds: one of its own entries, or something inherited, which is
-- no specification.
pub data Entry : Type 0 where
  own : EventSpec → Entry
  inherited : Entry

-- `none` is null.
unfoldable pub realtime_event_spec : Text → Option Entry
unfolding event_type_in spec_of contains
realtime_event_spec name = elim (event_type_in event_types name) [
  | none ↦ if contains name inherited_names then some inherited else none
  | some t ↦ some (own (spec_of t))
]

-- An empty routing key counts as none.
unfoldable pub parse_routing_key_from_channel : Text → Text → Option Text
unfolding strip_prefix
parse_routing_key_from_channel prefix channel = elim (strip_prefix prefix channel) [
  | none ↦ none
  | some routing_key ↦ elim routing_key [ [] ↦ none | c ∷ s ↦ some (c ∷ s) ]
]

-- The loop of `findRealtimeEventByChannel`: the first specification that knows the channel.
unfoldable pub find_event_in : List EventType → Text → Option (EventType × Text)
unfolding spec_of parse_routing_key_from_channel
find_event_in [] channel = none
find_event_in (t ∷ ts) channel =
    elim (parse_routing_key_from_channel (spec_of t).channel_prefix channel) [
      | none ↦ find_event_in ts channel
      | some routing_key ↦ some (t, routing_key)
    ]

unfoldable pub find_realtime_event_by_channel : Text → Option (EventType × Text)
unfolding find_event_in
find_realtime_event_by_channel channel = find_event_in event_types channel

-- `parsePayload`, over `JSON.parse` (`none` when it throws) and the schema of the event type.
unfoldable pub parse_payload : {J P : Type 0} → (Text → Option J) → (J → Option P) → Text → Option P
parse_payload json_parse safe_parse message = elim (json_parse message) [
  | none ↦ none
  | some parsed ↦ safe_parse parsed
]

-- No allowlist passes every payload.
unfoldable pub matches_system_id_filter : {J N : Type 0} → Option (List Text) → Payload J N → Bool
matches_system_id_filter none payload = true
matches_system_id_filter (some allowlist) payload = contains (payload_system_id payload) allowlist
