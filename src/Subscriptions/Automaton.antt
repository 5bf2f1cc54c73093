-- ===== src/Subscriptions/Automaton.antt =====
-- What the manager holds on one key, and what the events make of it.
pub mod Views
pub mod Refinement
pub mod Runs
use elitehub_vault.Base.{
  ℕ, suc, ◌+◌, ◌-◌, ◌++◌, Text, text_eq, nat_eq, text_beq, List, [], ◌∷◌, map, Option, none, some,
  ◌≡◌, refl, sym, ap, ◌∙◌, arith, Bool, true, false, ◌==◌, ◌||◌, ==_iff, text_beq_iff,
  if◌then◌else◌, leb, Dict, lookup, insert, erase, or_else, lookup-insert, lookup-erase, Bool-cases,
  Option-cases, inl, inr, IsUnique, insert-IsUnique, erase-IsUnique,
}
use elitehub_vault.Subscriptions.{
  Manager, Chain, Wait, at_subscribe, at_unsubscribe, Operation, increment, decrement, reconcile,
  SubscriptionState, idle, subscribing, subscribed, unsubscribing, closed_state, is_on, is_off,
  channel_of_key, Event, calls, starts, settles, ready, closes, demand_of, await, send, set_state,
  subscribe_if_needed, unsubscribe_if_needed, after_subscribe, after_unsubscribe, run_increment,
  run_decrement, run_operation, enqueue, enqueue_all, idle_all, demanded_keys, on_ready, on_close,
  start_next, settle, step, run, initial, set_chain,
}

abbrev pub state_of : Text → Manager → Option SubscriptionState
state_of k m = lookup k m.state_by_demand_key

pub record View : Type 0 where
  pub waiting : Option Wait
  pub demand : Option ℕ
  pub state : Option SubscriptionState
  pub pending : List Operation

abbrev pub view : Text → Manager → View
view k m = record {
  waiting = (m.chains k).waiting;
  demand = lookup k m.demand_count;
  state = lookup k m.state_by_demand_key;
  pending = (m.chains k).pending;
}

abbrev pub is_known : Text → Bool
is_known key = elim (channel_of_key key) [ none ↦ false | some channel ↦ true ]

-- The key has a channel or not; the view before; the view behind.
unfoldable pub view_subscribe : Bool → View → View
view_subscribe known v =
    if leb (or_else v.demand 0) 0
    then record v { waiting = none }
    else if is_on v.state
    then record v { waiting = none }
    else if known
    then record v { waiting = some at_subscribe; state = some subscribing }
    else record v { waiting = none }

unfoldable pub view_unsubscribe : Bool → View → View
view_unsubscribe known v =
    if leb 1 (or_else v.demand 0)
    then record v { waiting = none }
    else if is_off v.state
    then record v { waiting = none }
    else if known
    then record v { waiting = some at_unsubscribe; state = some unsubscribing }
    else record v { waiting = none }

unfoldable pub view_operation : Bool → Operation → View → View
unfolding view_subscribe view_unsubscribe
view_operation known increment v =
    view_subscribe known (record v { demand = some (or_else v.demand 0 + 1) })
view_operation known decrement v =
    let next = or_else v.demand 0 - 1 in
    if leb (or_else v.demand 0) 0
    then record v { waiting = none }
    else if next == 0
    then view_unsubscribe known (record v { demand = none })
    else record v { waiting = none; demand = some next }
view_operation known reconcile v = view_subscribe known v

unfoldable pub view_settle : Bool → Bool → View → View
unfolding view_unsubscribe
view_settle known ok v = elim v.waiting [
  | none ↦ v
  | some at_subscribe ↦
      if ok
      then (if leb 1 (or_else v.demand 0)
          then record v { waiting = none; state = some subscribed }
          else view_unsubscribe known (record v { state = some subscribed }))
      else record v { waiting = none; state = some idle }
  | some at_unsubscribe ↦ record v {
    waiting = none;
    state = some (if leb 1 (or_else v.demand 0) then subscribed else idle);
  }
]

unfoldable pub view_start : Bool → View → View
unfolding view_operation
view_start known v = elim v.waiting [
  | some wait ↦ v
  | none ↦ elim v.pending [
    | [] ↦ v
    | operation ∷ rest ↦
        view_operation known operation (record v { waiting = none; pending = rest })
  ]
]

unfoldable pub view_ready : View → View
view_ready v = elim v.demand [
  | none ↦ v
  | some d ↦ record v { state = some idle; pending = v.pending ++ (reconcile ∷ []) }
]

unfoldable pub view_close : View → View
view_close v = record v { state = elim v.state [ none ↦ none | some s ↦ some (closed_state s) ] }

unfoldable pub view_step : Text → Event → View → View
unfolding view_start view_settle view_ready view_close
view_step k (calls operation key) v =
    if text_beq key k then record v { pending = v.pending ++ (operation ∷ []) } else v
view_step k (starts key) v = if text_beq key k then view_start (is_known k) v else v
view_step k (settles key ok) v = if text_beq key k then view_settle (is_known k) ok v else v
view_step k ready v = view_ready v
view_step k closes v = view_close v

unfoldable pub view_run : Text → List Event → View → View
unfolding view_step
view_run k [] v = v
view_run k (e ∷ es) v = view_run k es (view_step k e v)
