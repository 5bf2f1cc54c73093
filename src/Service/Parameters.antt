-- ===== src/Service/Parameters.antt =====
-- apps/api/src/realtime/sse/subscriptionParams.ts: the query of a subscription. The schemas are read as
-- what they test; the message of an error is left out.
pub mod Limits
use elitehub_vault.Base.{
  ℕ, zero, suc, ◌≤◌, Text, codes, text_eq, nat_eq, List, [], ◌∷◌, Option, none, some, Bool, true,
  false, not, ◌&&◌, ◌||◌, ◌≡◌, refl, arith, leb, ◌==◌, ==_iff, if◌then◌else◌, length, dedupe_onto,
  contains, contains-dedupe_onto, IsDistinct, dedupe_onto-IsDistinct, All,
}
use elitehub_vault.Contracts.{
  EventType, system_powerplay_updated, faction_presence_changed, faction_state_changed,
  faction_control_threat_changed, event_name,
}
use elitehub_vault.Registry.{RoutingKeyParam, power_id, faction_id, event_type_in}

-- `URLSearchParams`: the names and values in their order.
abbrev pub SearchParams : Type 0
SearchParams = List (Text × Text)

unfoldable pub get : Text → SearchParams → Option Text
get name [] = none
get name ((n, v) ∷ params) = if n == name then some v else get name params

unfoldable pub get_all : Text → SearchParams → List Text
get_all name [] = []
get_all name ((n, v) ∷ params) =
    let rest = get_all name params in if n == name then v ∷ rest else rest

pub record SubscriptionQuery : Type 0 where
  pub event_type : EventType
  pub routing_key_param : RoutingKeyParam
  pub routing_keys : List Text
  pub system_ids : Option (List Text)

abbrev pub is_filled : Text → Bool
is_filled [] = false
is_filled (c ∷ s) = true

abbrev pub all_filled : List Text → Bool
all_filled [] = true
all_filled (s ∷ ss) = is_filled s && all_filled ss

-- `z.array(z.string().min(1)).max(20).optional()`, where no value is `undefined`.
abbrev pub are_system_ids : List Text → Bool
are_system_ids ids = all_filled ids && leb (length ids) 20

-- `z.array(z.string().min(1)).min(1).max(limit)`.
abbrev pub are_routing_keys : ℕ → List Text → Bool
are_routing_keys limit keys = all_filled keys && leb 1 (length keys) && leb (length keys) limit

unfoldable pub dedupe_list : List Text → List Text
unfolding dedupe_onto
dedupe_list values = dedupe_onto [] values

abbrev pub deduped_ids : List Text → Option (List Text)
deduped_ids [] = none
deduped_ids (s ∷ ss) = some (dedupe_list (s ∷ ss))

abbrev pub faction_events : List EventType
faction_events =
    faction_presence_changed ∷ faction_state_changed ∷ faction_control_threat_changed ∷ []

abbrev pub query_of :
    EventType → RoutingKeyParam → ℕ → List Text → List Text → Option SubscriptionQuery
query_of event_type param limit keys system_ids =
    if are_routing_keys limit keys && are_system_ids system_ids
    then some (record {
      event_type = event_type;
      routing_key_param = param;
      routing_keys = dedupe_list keys;
      system_ids = deduped_ids system_ids;
    })
    else none

abbrev pub faction_query : SearchParams → Option EventType → Option SubscriptionQuery
faction_query params none = none
faction_query params (some event_type) =
    query_of event_type faction_id 20 (get_all (codes "factionId") params)
      (get_all (codes "systemId") params)

unfoldable pub parse_sse_subscription_query : SearchParams → Option SubscriptionQuery
unfolding get get_all dedupe_list event_type_in
parse_sse_subscription_query params = elim (get (codes "eventType") params) [
  | none ↦ none
  | some name ↦
      if name == event_name system_powerplay_updated
      then query_of system_powerplay_updated power_id 4 (get_all (codes "powerId") params)
          (get_all (codes "systemId") params)
      else faction_query params (event_type_in faction_events name)
]
