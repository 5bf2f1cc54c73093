-- ===== src/Registry/Routing.antt =====
-- apps/api/src/realtime/sse/eventRegistry.ts: lemmas on channels, routing keys and event types.
use elitehub_vault.Base.{
  Text, List, [], ◌∷◌, ◌++◌, some, ◌≡◌, ◌≢◌, ◌↔◌, refl, ap, ◌∙◌, arith, strip_prefix,
  strip_prefix_sound, Option-cases, Bool-cases, inl, inr, ==_iff, ◌==◌, text_eq,
}
use elitehub_vault.Contracts.{
  EventType, system_powerplay_updated, faction_presence_changed, faction_state_changed,
  faction_control_threat_changed, event_name, system_powerplay_updated_power_channel,
  faction_presence_changed_faction_channel, faction_state_changed_faction_channel,
  faction_control_threat_changed_faction_channel,
}
use elitehub_vault.Registry.{
  spec_of, event_type_in, parse_routing_key_from_channel, find_event_in,
  find_realtime_event_by_channel, event_types,
}

-- A channel is its specification's prefix with the routing key behind it.
pub channel_of-prefix :
    (t : EventType) (key : Text) → (spec_of t).channel_of key ≡ (spec_of t).channel_prefix ++ key
unfolding spec_of system_powerplay_updated_power_channel faction_presence_changed_faction_channel
    faction_state_changed_faction_channel faction_control_threat_changed_faction_channel
channel_of-prefix system_powerplay_updated key = refl
channel_of-prefix faction_presence_changed key = refl
channel_of-prefix faction_state_changed key = refl
channel_of-prefix faction_control_threat_changed key = refl

-- A channel that is built for an event type and a routing key that is not empty is traced back to
-- exactly that event type and that key, whatever the key holds.
pub find_realtime_event_by_channel-channel_of :
    (t : EventType) (key : Text)
    → key ≢ []
    → find_realtime_event_by_channel ((spec_of t).channel_of key) ≡ some (t, key)
unfolding find_realtime_event_by_channel system_powerplay_updated_power_channel
    faction_presence_changed_faction_channel faction_state_changed_faction_channel
    faction_control_threat_changed_faction_channel
find_realtime_event_by_channel-channel_of t [] h = absurd (h refl)
find_realtime_event_by_channel-channel_of system_powerplay_updated (c ∷ key) h = refl
find_realtime_event_by_channel-channel_of faction_presence_changed (c ∷ key) h = refl
find_realtime_event_by_channel-channel_of faction_state_changed (c ∷ key) h = refl
find_realtime_event_by_channel-channel_of faction_control_threat_changed (c ∷ key) h = refl

parse_routing_key_sound :
    (prefix channel key : Text)
    → parse_routing_key_from_channel prefix channel ≡ some key
    → (channel ≡ prefix ++ key) × (key ≢ [])
unfolding parse_routing_key_from_channel
parse_routing_key_sound prefix channel key h = elim (Option-cases (strip_prefix prefix channel)) [
  | inl e ↦ ground arith
  | inr ([], e) ↦ ground arith
  | inr (c ∷ s, e) ↦ ground (arith, strip_prefix_sound prefix channel (c ∷ s) e)
]

find_event_in_sound :
    (ts : List EventType) (channel : Text) (t : EventType) (key : Text)
    → find_event_in ts channel ≡ some (t, key)
    → (channel ≡ (spec_of t).channel_of key) × (key ≢ [])
unfolding find_event_in
find_event_in_sound [] channel t key h = ground arith
find_event_in_sound (u ∷ us) channel t key h =
    elim (Option-cases (parse_routing_key_from_channel (spec_of u).channel_prefix channel)) [
      | inl e ↦ find_event_in_sound us channel t key (ground arith)
      | inr (k, e) ↦ ground (
        arith,
        parse_routing_key_sound (spec_of u).channel_prefix channel k e,
        channel_of-prefix u k,
      )
    ]

-- The subscriber takes a message for an event type and a key exactly when its channel is the one
-- that the publisher builds for that type and that key, and the key is not empty.
pub find_realtime_event_by_channel_iff :
    (channel : Text) (t : EventType) (key : Text)
    → (find_realtime_event_by_channel channel ≡ some (t, key))
      ↔ ((channel ≡ (spec_of t).channel_of key) × (key ≢ []))
find_realtime_event_by_channel_iff channel t key = (
  (unfold find_realtime_event_by_channel in find_event_in_sound event_types channel t key),
  λ h. ap find_realtime_event_by_channel h.0 ∙ find_realtime_event_by_channel-channel_of t key h.1,
)

pub event_type_in_sound :
    (ts : List EventType) (name : Text) (t : EventType)
    → event_type_in ts name ≡ some t
    → name ≡ event_name t
unfolding event_type_in
event_type_in_sound [] name t h = ground arith
event_type_in_sound (u ∷ us) name t h = elim (Bool-cases (event_name u == name)) [
  | inl e ↦ ground (arith, ==_iff (event_name u) name)
  | inr e ↦ event_type_in_sound us name t (ground arith)
]

event_type-spec_of : (t : EventType) → (spec_of t).event_type ≡ t
unfolding spec_of
event_type-spec_of system_powerplay_updated = refl
event_type-spec_of faction_presence_changed = refl
event_type-spec_of faction_state_changed = refl
event_type-spec_of faction_control_threat_changed = refl
