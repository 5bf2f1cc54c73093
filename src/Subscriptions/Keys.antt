-- ===== src/Subscriptions/Keys.antt =====
-- Demand keys and the channels behind them.
use elitehub_vault.Base.{Text, some, ◌≡◌, refl}
use elitehub_vault.Contracts.{
  EventType, event_name, system_powerplay_updated, faction_presence_changed, faction_state_changed,
  faction_control_threat_changed,
}
use elitehub_vault.Registry.{spec_of}
use elitehub_vault.Subscriptions.{demand_key, parse_demand_key, channel_of_key}

-- A demand key is taken apart into the event type and the routing key that it was made of, also
-- when the routing key has colons of its own.
pub parse_demand_key-demand_key :
    (t : EventType) (routing_key : Text)
    → parse_demand_key (demand_key t routing_key) ≡ (event_name t, routing_key)
unfolding parse_demand_key demand_key
parse_demand_key-demand_key system_powerplay_updated routing_key = refl
parse_demand_key-demand_key faction_presence_changed routing_key = refl
parse_demand_key-demand_key faction_state_changed routing_key = refl
parse_demand_key-demand_key faction_control_threat_changed routing_key = refl

-- The channel of a demand key is the one that the specification of its event type gives for its
-- routing key, which is the publisher's.
pub channel_of_key-demand_key :
    (t : EventType) (routing_key : Text)
    → channel_of_key (demand_key t routing_key) ≡ some ((spec_of t).channel_of routing_key)
unfolding channel_of_key demand_key spec_of
channel_of_key-demand_key system_powerplay_updated routing_key = refl
channel_of_key-demand_key faction_presence_changed routing_key = refl
channel_of_key-demand_key faction_state_changed routing_key = refl
channel_of_key-demand_key faction_control_threat_changed routing_key = refl
