-- ===== src/Subscriptions/Heard.antt =====
-- apps/api/src/realtime/sse/redisSubscriptionManager.ts: the commands that the manager sends for one
-- channel, and what they leave subscribed at Redis.
use elitehub_vault.Base.{
  ◌+◌, ◌-◌, ◌++◌, Text, text_eq, nat_eq, text_beq_iff, List, [], ◌∷◌, Option, none, some, ◌≡◌, refl,
  ◌∙◌, arith, Bool, false, not, ◌==◌, ◌&&◌, ◌||◌, if◌then◌else◌, leb, lookup, insert, erase,
  or_else, lookup-insert, lookup-erase,
}
use elitehub_vault.Subscriptions.{
  Manager, Wait, at_subscribe, at_unsubscribe, Operation, increment, decrement, reconcile, Command,
  subscribe, unsubscribe, SubscriptionState, subscribed, is_on, is_off, channel_of_key, demand_of,
  set_state, subscribe_if_needed, unsubscribe_if_needed, after_subscribe, after_unsubscribe,
  run_increment, run_decrement, run_operation, start_next, settle, await, send, set_chain,
}
use elitehub_vault.Subscriptions.Automaton.{View, view}

-- What Redis has of a channel behind a command that it accepts.
abbrev pub obeyed : Text → Command → Bool → Bool
obeyed channel (subscribe other) has = (channel == other) || has
obeyed channel (unsubscribe other) has = not (channel == other) && has

-- What Redis has of a channel behind the commands, from a connection with no subscriptions.
abbrev obeyed_all : Text → List Command → Bool → Bool
obeyed_all channel [] has = has
obeyed_all channel (command ∷ commands) has =
    obeyed_all channel commands (obeyed channel command has)

abbrev pub has_channel : Text → List Command → Bool
has_channel channel commands = obeyed_all channel commands false

obeyed_all-append :
    (channel : Text) (commands : List Command) (command : Command) (has : Bool)
    → obeyed_all channel (commands ++ (command ∷ [])) has
      ≡ obeyed channel command (obeyed_all channel commands has)
obeyed_all-append channel [] command has = refl
obeyed_all-append channel (other ∷ commands) command has =
    obeyed_all-append channel commands command (obeyed channel other has)

abbrev pub is_channel : Text → Option Text → Bool
is_channel channel none = false
is_channel channel (some other) = channel == other

-- What the operations of a key make of it, by the view of the key; `same` tells that the channel is
-- that of the key.
abbrev heard_subscribe : Bool → View → Bool → Bool
heard_subscribe same v has =
    if leb (or_else v.demand 0) 0 || is_on v.state then has else same || has

abbrev heard_unsubscribe : Bool → View → Bool → Bool
heard_unsubscribe same v has =
    if leb 1 (or_else v.demand 0) || is_off v.state then has else not same && has

abbrev pub heard_operation : Bool → Operation → View → Bool → Bool
heard_operation same increment v has =
    heard_subscribe same (record v { demand = some (or_else v.demand 0 + 1) }) has
heard_operation same decrement v has =
    if leb (or_else v.demand 0) 0
    then has
    else if or_else v.demand 0 - 1 == 0
    then heard_unsubscribe same (record v { demand = none }) has
    else has
heard_operation same reconcile v has = heard_subscribe same v has

abbrev pub heard_start : Bool → View → Bool → Bool
heard_start same v has = elim v.waiting [
  | some wait ↦ has
  | none ↦ elim v.pending [
    | [] ↦ has
    | operation ∷ rest ↦
        heard_operation same operation (record v { waiting = none; pending = rest }) has
  ]
]

abbrev pub heard_settle : Bool → Bool → View → Bool → Bool
heard_settle same ok v has = elim v.waiting [
  | none ↦ has
  | some at_subscribe ↦
      if ok
      then (if leb 1 (or_else v.demand 0)
          then has
          else heard_unsubscribe same (record v { state = some subscribed }) has)
      else has
  | some at_unsubscribe ↦ has
]

module _ (channel : Text) where
  abbrev same : Text → Bool
  same key = is_channel channel (channel_of_key key)

  subscribe_if_needed-heard :
      (key : Text) (m : Manager)
      → has_channel channel (subscribe_if_needed key m).commands
        ≡ heard_subscribe (same key) (view key m) (has_channel channel m.commands)
  unfolding subscribe_if_needed send await set_state
  subscribe_if_needed-heard key m = go (channel_of_key key)
    where
      go :
          (o : Option Text)
          → has_channel channel
              (if leb (demand_of key m) 0
                then await key none m
                else if is_on (lookup key m.state_by_demand_key)
                then await key none m
                else (elim o [
                  | none ↦ await key none m
                  | some channel ↦
                      await key
                        (some at_subscribe)
                        (send (subscribe channel) (set_state key SubscriptionState.subscribing m))
                ])).commands
            ≡ heard_subscribe (is_channel channel o) (view key m) (has_channel channel m.commands)
      go none = ground arith
      go (some other) = ground (arith, obeyed_all-append channel m.commands (subscribe other) false)

  unsubscribe_if_needed-heard :
      (key : Text) (m : Manager)
      → has_channel channel (unsubscribe_if_needed key m).commands
        ≡ heard_unsubscribe (same key) (view key m) (has_channel channel m.commands)
  unfolding unsubscribe_if_needed send await set_state
  unsubscribe_if_needed-heard key m = go (channel_of_key key)
    where
      go :
          (o : Option Text)
          → has_channel channel
              (if leb 1 (demand_of key m)
                then await key none m
                else if is_off (lookup key m.state_by_demand_key)
                then await key none m
                else (elim o [
                  | none ↦ await key none m
                  | some channel ↦
                      await key (some at_unsubscribe) (
                        send
                          (unsubscribe channel)
                          (set_state key SubscriptionState.unsubscribing m))
                ])).commands
            ≡ heard_unsubscribe (is_channel channel o) (view key m) (has_channel channel m.commands)
      go none = ground arith
      go (some other) =
          ground (arith, obeyed_all-append channel m.commands (unsubscribe other) false)

  run_operation-heard :
      (operation : Operation) (key : Text) (m : Manager)
      → has_channel channel (run_operation operation key m).commands
        ≡ heard_operation (same key) operation (view key m) (has_channel channel m.commands)
  unfolding run_operation run_increment run_decrement await
  run_operation-heard increment key m =
      subscribe_if_needed-heard key
        (record m { demand_count = insert key (demand_of key m + 1) m.demand_count })
      ∙ ground
          (arith, lookup-insert key key (demand_of key m + 1) m.demand_count, text_beq_iff key key)
  run_operation-heard decrement key m = ground (
    arith,
    unsubscribe_if_needed-heard key (record m { demand_count = erase key m.demand_count }),
    lookup-erase key key m.demand_count,
    text_beq_iff key key,
  )
  run_operation-heard reconcile key m = subscribe_if_needed-heard key m

  pub start_next-heard :
      (key : Text) (m : Manager)
      → has_channel channel (start_next key m).commands
        ≡ heard_start (same key) (view key m) (has_channel channel m.commands)
  unfolding start_next
  start_next-heard key m = go (m.chains key).waiting (m.chains key).pending refl refl
    where
      go :
          (w : Option Wait) (ops : List Operation)
          → (m.chains key).waiting ≡ w
          → (m.chains key).pending ≡ ops
          → has_channel channel (start_next key m).commands
            ≡ heard_start (same key) (view key m) (has_channel channel m.commands)
      go (some w) ops a b = rw (a, start_next) refl
      go none [] a b = rw (a, b, start_next) refl
      go none (operation ∷ rest) a b =
          rw (a, b, start_next)
            (run_operation-heard operation key (record m {
              chains = set_chain key (record { waiting = none; pending = rest }) m.chains;
            })
              ∙ ground (arith, text_beq_iff key key))

  pub settle-heard :
      (key : Text) (ok : Bool) (m : Manager)
      → has_channel channel (settle key ok m).commands
        ≡ heard_settle (same key) ok (view key m) (has_channel channel m.commands)
  unfolding settle after_subscribe after_unsubscribe await set_state
  settle-heard key ok m = ground (
    arith,
    unsubscribe_if_needed-heard key (set_state key subscribed m),
    lookup-insert key key subscribed m.state_by_demand_key,
    text_beq_iff key key,
  )
