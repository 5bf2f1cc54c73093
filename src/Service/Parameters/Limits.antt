-- ===== src/Service/Parameters/Limits.antt =====
-- apps/api/src/realtime/sse/subscriptionParams.ts: what a parsed query is.
use mathlib.Core.Path.{subst}
use mathlib.Core.Option.{some-injective}
use elitehub_vault.Base.{
  ℕ, ◌≤◌, Text, codes, text_eq, nat_eq, List, [], ◌∷◌, Option, none, some, Bool, true, false, ◌&&◌,
  ◌≡◌, refl, sym, ap, ◌∙◌, All, arith, leb, ◌==◌, ==_iff, if◌then◌else◌, length, dedupe_onto,
  contains, contains-dedupe_onto, IsDistinct, dedupe_onto-IsDistinct, length-dedupe_onto-le,
  length-dedupe_onto-ge, add, Bool-cases, inl, inr,
}
use elitehub_vault.Contracts.{EventType, system_powerplay_updated, event_name}
use elitehub_vault.Registry.{RoutingKeyParam, power_id, faction_id, event_type_in, spec_of}
use elitehub_vault.Service.Parameters.{
  SearchParams, SubscriptionQuery, get, get_all, all_filled, are_routing_keys, are_system_ids,
  dedupe_list, deduped_ids, faction_events, query_of, faction_query, parse_sse_subscription_query,
}

abbrev pub param_name : RoutingKeyParam → Text
param_name power_id = codes "powerId"
param_name faction_id = codes "factionId"

abbrev pub most_keys : RoutingKeyParam → ℕ
most_keys power_id = 4
most_keys faction_id = 20

-- The values once each, none of them empty, and no more than the limit.
pub record IsSelection (limit : ℕ) (sent chosen : List Text) : Type 0 where
  pub distinct : IsDistinct chosen
  pub same : (s : Text) → contains s chosen ≡ contains s sent
  pub filled : contains [] chosen ≡ false
  pub some_value : 1 ≤ length chosen
  pub bounded : length chosen ≤ limit

-- No filter where no systems are sent, else a selection of them.
abbrev pub IsFilter : List Text → Option (List Text) → Type 0
IsFilter [] filter = filter ≡ none
IsFilter (s ∷ ss) filter = (ids : List Text) × (filter ≡ some ids) × IsSelection 20 (s ∷ ss) ids

-- A query as the subscription of an event: the event was asked for by its name, the keys are those of
-- the parameter that its specification routes by, and the systems are those sent, if any were.
pub record IsQuery (params : SearchParams) (q : SubscriptionQuery) : Type 0 where
  pub asked : get (codes "eventType") params ≡ some (event_name q.event_type)
  pub param : q.routing_key_param ≡ (spec_of q.event_type).routing_key_param
  pub keys :
      IsSelection
        (most_keys q.routing_key_param)
        (get_all (param_name q.routing_key_param) params)
        q.routing_keys
  pub systems : IsFilter (get_all (codes "systemId") params) q.system_ids

all_filled-contains : (ss : List Text) → all_filled ss ≡ true → contains [] ss ≡ false
unfolding contains
all_filled-contains [] h = refl
all_filled-contains ([] ∷ ss) h = absurd (ground (arith, h))
all_filled-contains ((c ∷ s) ∷ ss) h = ground (arith, h, all_filled-contains ss)

dedupe_list-IsSelection :
    (limit : ℕ) (s : Text) (ss : List Text)
    → all_filled (s ∷ ss) ≡ true
    → leb (length (s ∷ ss)) limit ≡ true
    → IsSelection limit (s ∷ ss) (dedupe_list (s ∷ ss))
unfolding dedupe_list dedupe_onto contains add
dedupe_list-IsSelection limit s ss f b =
    let same : (t : Text) → contains t (dedupe_onto [] (s ∷ ss)) ≡ contains t (s ∷ ss) =
      λ t. contains-dedupe_onto t [] (s ∷ ss) in
    record {
      distinct = dedupe_onto-IsDistinct [] (s ∷ ss) tt;
      same = same;
      filled = same [] ∙ all_filled-contains (s ∷ ss) f;
      some_value = length-dedupe_onto-ge (s ∷ []) ss;
      bounded = ground (arith, b, length-dedupe_onto-le [] (s ∷ ss));
    }

deduped_ids-IsFilter :
    (ids : List Text) → are_system_ids ids ≡ true → IsFilter ids (deduped_ids ids)
deduped_ids-IsFilter [] h = refl
deduped_ids-IsFilter (s ∷ ss) h = (
  dedupe_list (s ∷ ss),
  refl,
  dedupe_list-IsSelection 20 s ss (ground (arith, h)) (ground (arith, h)),
)

abbrev RoutesByFaction : EventType → Type 0
RoutesByFaction t = (spec_of t).routing_key_param ≡ faction_id

-- What holds of all event types of a list holds of the one that is found, and its name is the one asked.
event_type_in_sound :
    (P : EventType → Type 0) (ts : List EventType) (name : Text) (t : EventType)
    → All P ts
    → event_type_in ts name ≡ some t
    → P t × (event_name t ≡ name)
unfolding event_type_in
event_type_in_sound P [] name t h e = absurd (ground (arith, e))
event_type_in_sound P (x ∷ ts) name t h e =
    go (event_name x == name) refl (event_type_in_sound P ts name t h.1) e
  where
    go :
        (b : Bool)
        → (event_name x == name) ≡ b
        → (event_type_in ts name ≡ some t → P t × (event_name t ≡ name))
        → (if b then some x else event_type_in ts name) ≡ some t
        → P t × (event_name t ≡ name)
    go true q rest k =
        subst (λ y. P y × (event_name y ≡ name)) (some-injective _ _ k)
          (h.0, (==_iff (event_name x) name).0 q)
    go false q rest k = rest k

module _ (params : SearchParams) where
  query_of-IsQuery :
      (event_type : EventType) (param : RoutingKeyParam) (keys : List Text) (q : SubscriptionQuery)
      → get (codes "eventType") params ≡ some (event_name event_type)
      → param ≡ (spec_of event_type).routing_key_param
      → get_all (param_name param) params ≡ keys
      → query_of event_type param (most_keys param) keys (get_all (codes "systemId") params)
        ≡ some q
      → IsQuery params q
  query_of-IsQuery event_type param [] q a b c h = absurd (ground (arith, h))
  query_of-IsQuery event_type param (s ∷ ss) q a b c h =
      let ids = get_all (codes "systemId") params in
      let tests : (are_routing_keys (most_keys param) (s ∷ ss) && are_system_ids ids) ≡ true =
        ground (arith, h) in
      subst (IsQuery params)
        (some-injective
          (record {
            event_type = event_type;
            routing_key_param = param;
            routing_keys = dedupe_list (s ∷ ss);
            system_ids = deduped_ids ids;
          })
          q (ground (arith, h, tests)))
        (record {
          asked = a;
          param = b;
          keys = rw c (
              dedupe_list-IsSelection (most_keys param) s ss (ground (arith, tests))
                (ground (arith, tests)));
          systems = deduped_ids-IsFilter ids (ground (arith, tests));
        })

  faction_query-IsQuery :
      (name : Text) (o : Option EventType) (q : SubscriptionQuery)
      → get (codes "eventType") params ≡ some name
      → event_type_in faction_events name ≡ o
      → faction_query params o ≡ some q
      → IsQuery params q
  unfolding spec_of
  faction_query-IsQuery name none q g e h = absurd (ground (arith, h))
  faction_query-IsQuery name (some t) q g e h =
      let found =
        event_type_in_sound RoutesByFaction faction_events name t (refl, (refl, (refl, tt))) e in
      query_of-IsQuery t faction_id _ q (g ∙ ap some (sym found.1)) (sym found.0) refl h

  -- A query that parses names its event, has the parameter that its specification routes by, and its
  -- keys are the values sent, once each, none empty, at least one and at most 4 powers or 20 factions.
  -- It filters by systems exactly where systems were sent, and then they are the values sent, once each,
  -- none empty, at most 20.
  pub parse_sse_subscription_query-IsQuery :
      (q : SubscriptionQuery) → parse_sse_subscription_query params ≡ some q → IsQuery params q
  unfolding parse_sse_subscription_query spec_of
  parse_sse_subscription_query-IsQuery q h = go (get (codes "eventType") params) refl h
    where
      go :
          (o : Option Text)
          → get (codes "eventType") params ≡ o
          → elim o [
            | none ↦ none
            | some name ↦
                if name == event_name system_powerplay_updated
                then query_of system_powerplay_updated power_id 4
                    (get_all (codes "powerId") params)
                    (get_all (codes "systemId") params)
                else faction_query params (event_type_in faction_events name)
          ]
            ≡ some q
          → IsQuery params q
      go none g k = absurd (ground (arith, k))
      go (some name) g k = elim (Bool-cases (name == event_name system_powerplay_updated)) [
        | inl e ↦
            query_of-IsQuery system_powerplay_updated power_id _ q
              (ground (arith, g, e, ==_iff name (event_name system_powerplay_updated))) refl refl
              (ground (arith, k, e))
        | inr e ↦
            faction_query-IsQuery name (event_type_in faction_events name) q g refl
              (ground (arith, k, e))
      ]
