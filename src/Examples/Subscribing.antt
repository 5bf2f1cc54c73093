-- ===== src/Examples/Subscribing.antt =====
-- Subscriptions.
use elitehub_vault.Base.{
  Text, codes, text_eq, List, [], ◌∷◌, none, true, false, ◌≡◌, refl, All, leb, lookup, insert,
  erase, not, some, arith,
}
use elitehub_vault.Contracts.{
  faction_state_changed, event_name, faction_state_changed_faction_channel,
}
use elitehub_vault.Subscriptions.{
  demand_key, parse_demand_key, channel_of_key, Event, calls, starts, settles, ready, closes,
  increment, decrement, run, initial, subscribe,
}
use elitehub_vault.Subscriptions.Keys.{parse_demand_key-demand_key}
use elitehub_vault.Subscriptions.Demand.{outcome, net, calls_for, demand_follows_calls}
use elitehub_vault.Subscriptions.Automaton.{view, view_run, state_of, is_known}
use elitehub_vault.Subscriptions.Automaton.Runs.{untouched, run_refines}
use elitehub_vault.Subscriptions.States.{IsAllowed, subscribed_on_demand}
use elitehub_vault.Subscriptions.Served.{is_subscribed, subscribed_iff_demanded}
use elitehub_vault.Subscriptions.Heard.{has_channel}
use elitehub_vault.Subscriptions.Kept.{is_apart, is_smooth, is_ready}

parse_demand_key-demand_key_example :
    parse_demand_key (demand_key faction_state_changed (codes "7:8"))
    ≡ (event_name faction_state_changed, codes "7:8")
parse_demand_key-demand_key_example =
    parse_demand_key-demand_key faction_state_changed (codes "7:8")

abbrev key : Text
key = codes "factionStateChanged:7"

abbrev other : Text
other = codes "factionStateChanged:8"

-- Two clients come and one goes, while another key comes in between.
abbrev smooth : List Event
smooth =
    calls increment key
    ∷ starts key
    ∷ calls increment key
    ∷ calls increment other
    ∷ starts other
    ∷ settles key true
    ∷ starts key
    ∷ calls decrement key
    ∷ starts key
    ∷ ready
    ∷ starts key
    ∷ settles key true
    ∷ []

-- The same with a refused command and a closed connection.
abbrev rough : List Event
rough =
    calls increment key
    ∷ starts key
    ∷ settles key false
    ∷ closes
    ∷ ready
    ∷ starts key
    ∷ calls decrement key
    ∷ settles key true
    ∷ starts key
    ∷ []

demand_follows_calls_example : outcome key (run rough initial) ≡ net 0 (calls_for key rough)
demand_follows_calls_example = demand_follows_calls key rough

run_refines_example : view key (run rough initial) ≡ view_run key rough untouched
run_refines_example = run_refines key rough

key_is_known : is_known key ≡ true
unfolding channel_of_key
key_is_known = refl

subscribed_on_demand_example : IsAllowed (view key (run rough initial))
subscribed_on_demand_example = subscribed_on_demand key rough key_is_known

-- A client comes and goes, and another comes, while another key comes in between.
abbrev steady : List Event
steady =
    calls increment key
    ∷ starts key
    ∷ calls increment other
    ∷ starts other
    ∷ settles key true
    ∷ calls decrement key
    ∷ starts key
    ∷ settles key true
    ∷ calls increment key
    ∷ starts key
    ∷ settles key true
    ∷ []

steady-is_smooth : All (λ e. is_smooth e ≡ true) steady
steady-is_smooth = ground arith

steady-is_apart :
    All (λ e. is_apart key (codes "events:factionStateChanged:faction:7") e ≡ true) steady
unfolding channel_of_key faction_state_changed_faction_channel
steady-is_apart = ground arith

key_channel : channel_of_key key ≡ some (codes "events:factionStateChanged:faction:7")
unfolding channel_of_key faction_state_changed_faction_channel
key_channel = refl

nothing_waits : (view key (run steady initial)).waiting ≡ none
unfolding run lookup insert erase channel_of_key
nothing_waits = refl

nothing_is_pending : (view key (run steady initial)).pending ≡ []
unfolding run lookup insert erase channel_of_key
nothing_is_pending = refl

subscribed_iff_demanded_example :
    let demanded = leb 1 (net 0 (calls_for key steady)) in
    let commands = (run steady initial).commands in
    (is_subscribed (state_of key (run steady initial)) ≡ demanded)
    × (demanded ≡ true → has_channel (codes "events:factionStateChanged:faction:7") commands ≡ true)
    × (All (λ e. not (is_ready e) ≡ true) steady
        → has_channel (codes "events:factionStateChanged:faction:7") commands ≡ demanded)
subscribed_iff_demanded_example =
    subscribed_iff_demanded key (codes "events:factionStateChanged:faction:7") steady key_channel
      steady-is_apart steady-is_smooth nothing_waits nothing_is_pending

-- Redis was asked for the key again when the connection was ready again.
commands_run :
    (run smooth initial).commands
    ≡ subscribe (codes "events:factionStateChanged:faction:7")
      ∷ subscribe (codes "events:factionStateChanged:faction:8")
      ∷ subscribe (codes "events:factionStateChanged:faction:7")
      ∷ []
unfolding run lookup insert channel_of_key faction_state_changed_faction_channel
commands_run = refl
