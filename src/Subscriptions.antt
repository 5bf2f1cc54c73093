-- ===== src/Subscriptions.antt =====
-- apps/api/src/realtime/sse/redisSubscriptionManager.ts: which Redis channels are subscribed, by the
-- demand for them. An operation runs until it waits for Redis; the operations of one demand key wait
-- for one another (`runSerialized`), and those of different keys interleave.
pub mod Keys
pub mod Demand
pub mod Automaton
pub mod States
pub mod Heard
pub mod Kept
pub mod Served
use elitehub_vault.Base.{
  ℕ, zero, suc, ◌+◌, ◌-◌, ◌++◌, Text, codes, text_eq, nat_eq, List, [], ◌∷◌, map, Option, none,
  some, Bool, true, false, ◌==◌, ◌||◌, leb, if◌then◌else◌, Dict, lookup, insert, erase, or_else,
  text_beq, nat_beq,
}
use elitehub_vault.Contracts.{EventType, event_name}
use elitehub_vault.Registry.{own, inherited, realtime_event_spec, find_realtime_event_by_channel}

pub data SubscriptionState : Type 0 where
  idle subscribing subscribed unsubscribing : SubscriptionState

unfoldable pub demand_key : EventType → Text → Text
demand_key event_type routing_key = event_name event_type ++ (codes ":" ++ routing_key)

-- The parts before and behind the first colon.
unfoldable pub split_colon : Text → Option (Text × Text)
split_colon [] = none
split_colon (c ∷ s) =
    let rest = split_colon s in
    if nat_beq c b':'
    then some ([], s)
    else (elim rest [ none ↦ none | some (before, behind) ↦ some (c ∷ before, behind) ])

-- `demandKey.slice(0, -1)`, which is what the code reads where there is no colon.
unfoldable pub drop_last : Text → Text
drop_last [] = []
drop_last (c ∷ []) = []
drop_last (c ∷ d ∷ s) = c ∷ drop_last (d ∷ s)

unfoldable pub parse_demand_key : Text → Text × Text
unfolding split_colon drop_last
parse_demand_key key = or_else (split_colon key) (drop_last key, key)

-- What runs on a key, in the order of the calls.
pub data Operation : Type 0 where
  increment decrement reconcile : Operation

-- The promise that a running operation waits for.
pub data Wait : Type 0 where
  at_subscribe at_unsubscribe : Wait

pub record Chain : Type 0 where
  pub waiting : Option Wait
  pub pending : List Operation

pub data Command : Type 0 where
  subscribe unsubscribe : Text → Command

pub record Manager : Type 0 where
  pub demand_count : Dict Text ℕ
  pub state_by_demand_key : Dict Text SubscriptionState
  pub chains : Text → Chain
  pub is_started : Bool
  pub redis_disconnected : Bool
  pub commands : List Command

abbrev pub demand_of : Text → Manager → ℕ
demand_of key m = or_else (lookup key m.demand_count) 0

unfoldable pub set_state : Text → SubscriptionState → Manager → Manager
set_state key s m = record m { state_by_demand_key = insert key s m.state_by_demand_key }

abbrev pub set_chain : Text → Chain → (Text → Chain) → Text → Chain
set_chain key chain chains other = if text_beq key other then chain else chains other

-- The end of an operation, or its next wait.
unfoldable pub await : Text → Option Wait → Manager → Manager
await key wait m = record m {
  chains = set_chain key (record (m.chains key) { waiting = wait }) m.chains;
}

unfoldable pub send : Command → Manager → Manager
send command m = record m { commands = m.commands ++ (command ∷ []) }

abbrev pub is_on : Option SubscriptionState → Bool
is_on (some subscribed) = true
is_on (some subscribing) = true
is_on other = false

abbrev pub is_off : Option SubscriptionState → Bool
is_off none = true
is_off (some idle) = true
is_off (some unsubscribing) = true
is_off other = false

-- The channel of a demand key, if its event type has a specification. A demand key is by its type of an
-- event type; where its text has an inherited name instead, what the code does is not modelled.
unfoldable pub channel_of_key : Text → Option Text
unfolding parse_demand_key realtime_event_spec
channel_of_key key = elim (realtime_event_spec (parse_demand_key key).0) [
  | none ↦ none
  | some entry ↦ elim entry [
    | own spec ↦ some (spec.channel_of (parse_demand_key key).1)
    | inherited ↦ none
  ]
]

-- Up to the wait for `subscriber.subscribe`.
unfoldable pub subscribe_if_needed : Text → Manager → Manager
unfolding await send set_state
subscribe_if_needed key m =
    if leb (demand_of key m) 0
    then await key none m
    else if is_on (lookup key m.state_by_demand_key)
    then await key none m
    else (elim (channel_of_key key) [
      | none ↦ await key none m
      | some channel ↦
          await key (some at_subscribe) (send (subscribe channel) (set_state key subscribing m))
    ])

-- Up to the wait for `subscriber.unsubscribe`.
unfoldable pub unsubscribe_if_needed : Text → Manager → Manager
unfolding await send set_state
unsubscribe_if_needed key m =
    if leb 1 (demand_of key m)
    then await key none m
    else if is_off (lookup key m.state_by_demand_key)
    then await key none m
    else (elim (channel_of_key key) [
      | none ↦ await key none m
      | some channel ↦
          await key (some at_unsubscribe)
            (send (unsubscribe channel) (set_state key unsubscribing m))
    ])

-- Behind the wait for `subscribe`; `ok` is false when it rejects.
unfoldable pub after_subscribe : Text → Bool → Manager → Manager
unfolding await set_state unsubscribe_if_needed
after_subscribe key ok m =
    if ok
    then (if leb 1 (demand_of key m)
        then await key none (set_state key subscribed m)
        else unsubscribe_if_needed key (set_state key subscribed m))
    else await key none (set_state key idle m)

-- Behind the wait for `unsubscribe`, whether it resolves or rejects.
unfoldable pub after_unsubscribe : Text → Manager → Manager
unfolding await set_state
after_unsubscribe key m =
    await key none (set_state key (if leb 1 (demand_of key m) then subscribed else idle) m)

unfoldable pub run_increment : Text → Manager → Manager
unfolding subscribe_if_needed
run_increment key m =
    subscribe_if_needed key
      (record m { demand_count = insert key (demand_of key m + 1) m.demand_count })

unfoldable pub run_decrement : Text → Manager → Manager
unfolding unsubscribe_if_needed await
run_decrement key m =
    let next = demand_of key m - 1 in
    if leb (demand_of key m) 0
    then await key none m
    else if next == 0
    then unsubscribe_if_needed key (record m { demand_count = erase key m.demand_count })
    else await key none (record m { demand_count = insert key next m.demand_count })

unfoldable pub run_operation : Operation → Text → Manager → Manager
unfolding run_increment run_decrement subscribe_if_needed
run_operation increment key m = run_increment key m
run_operation decrement key m = run_decrement key m
run_operation reconcile key m = subscribe_if_needed key m

-- `runSerialized`: the operation is put behind those of its key.
unfoldable pub enqueue : Operation → Text → Manager → Manager
enqueue operation key m = record m {
  chains =
      set_chain key (record (m.chains key) { pending = (m.chains key).pending ++ (operation ∷ []) })
        m.chains;
}

unfoldable pub start : Manager → Manager
start m = if m.is_started then m else record m { is_started = true }

unfoldable pub idle_all : List Text → Dict Text SubscriptionState → Dict Text SubscriptionState
idle_all [] states = states
idle_all (key ∷ keys) states = idle_all keys (insert key idle states)

unfoldable pub enqueue_all : List Text → Manager → Manager
unfolding enqueue
enqueue_all [] m = m
enqueue_all (key ∷ keys) m = enqueue_all keys (enqueue reconcile key m)

abbrev pub demanded_keys : Manager → List Text
demanded_keys m = map (λ e. e.0) m.demand_count

unfoldable pub on_ready : Manager → Manager
unfolding idle_all enqueue_all
on_ready m = enqueue_all (demanded_keys m) (record m {
  state_by_demand_key = idle_all (demanded_keys m) m.state_by_demand_key;
  redis_disconnected = false;
})

abbrev pub closed_state : SubscriptionState → SubscriptionState
closed_state subscribed = idle
closed_state subscribing = idle
closed_state other = other

unfoldable pub on_close : Manager → Manager
on_close m = record m {
  redis_disconnected = true;
  state_by_demand_key = map (λ e. (e.0, closed_state e.1)) m.state_by_demand_key;
}

-- `onMessage`: the event that is routed on, if the channel is known and the payload parses.
unfoldable pub on_message :
    {P : Type 0} → (EventType → Text → Option P) → Text → Text → Option (EventType × Text × P)
unfolding find_realtime_event_by_channel
on_message parse channel message = elim (find_realtime_event_by_channel channel) [
  | none ↦ none
  | some (event_type, routing_key) ↦ elim (parse event_type message) [
    | none ↦ none
    | some payload ↦ some (event_type, routing_key, payload)
  ]
]

-- What happens to the manager, one event at a time.
pub data Event : Type 0 where
  calls : Operation → Text → Event
  starts : Text → Event
  settles : Text → Bool → Event
  ready closes : Event

-- The next pending operation starts only when none is running.
unfoldable pub start_next : Text → Manager → Manager
unfolding run_operation
start_next key m = elim (m.chains key).waiting [
  | some wait ↦ m
  | none ↦ elim (m.chains key).pending [
    | [] ↦ m
    | operation ∷ rest ↦
        run_operation operation key
          (record m { chains = set_chain key (record { waiting = none; pending = rest }) m.chains })
  ]
]

unfoldable pub settle : Text → Bool → Manager → Manager
unfolding after_subscribe after_unsubscribe
settle key ok m = elim (m.chains key).waiting [
  | none ↦ m
  | some at_subscribe ↦ after_subscribe key ok m
  | some at_unsubscribe ↦ after_unsubscribe key m
]

unfoldable pub step : Event → Manager → Manager
unfolding enqueue start_next settle on_ready on_close
step (calls operation key) m = enqueue operation key m
step (starts key) m = start_next key m
step (settles key ok) m = settle key ok m
step ready m = on_ready m
step closes m = on_close m

unfoldable pub run : List Event → Manager → Manager
unfolding step
run [] m = m
run (e ∷ es) m = run es (step e m)

abbrev pub initial : Manager
initial = record {
  demand_count = [];
  state_by_demand_key = [];
  chains = λ key. record { waiting = none; pending = [] };
  is_started = true;
  redis_disconnected = false;
  commands = [];
}
