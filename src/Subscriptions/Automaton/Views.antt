-- ===== src/Subscriptions/Automaton/Views.antt =====
-- apps/api/src/realtime/sse/redisSubscriptionManager.ts: the parts of operations, seen on one key.

use elitehub_vault.Base.{
  ◌+◌, ◌-◌, Text, text_eq, nat_eq, text_beq, ◌≡◌, ◌∙◌, arith, false, text_beq_iff, insert, erase,
  lookup-insert, lookup-erase,
}
use elitehub_vault.Subscriptions.{
  Manager, Operation, increment, decrement, reconcile, subscribing, unsubscribing, demand_of,
  subscribe_if_needed, unsubscribe_if_needed, run_increment, run_decrement, run_operation,
}
use elitehub_vault.Subscriptions.Automaton.{
  view, is_known, view_subscribe, view_unsubscribe, view_operation,
}

pub subscribe_if_needed-view :
    (key : Text) (m : Manager)
    → view key (subscribe_if_needed key m) ≡ view_subscribe (is_known key) (view key m)
unfolding subscribe_if_needed view_subscribe
subscribe_if_needed-view key m =
    ground (arith, lookup-insert key key subscribing m.state_by_demand_key, text_beq_iff key key)

pub subscribe_if_needed-elsewhere :
    (key k : Text) (m : Manager)
    → text_beq key k ≡ false
    → view k (subscribe_if_needed key m) ≡ view k m
unfolding subscribe_if_needed
subscribe_if_needed-elsewhere key k m e =
    ground (arith, lookup-insert key k subscribing m.state_by_demand_key)

pub unsubscribe_if_needed-view :
    (key : Text) (m : Manager)
    → view key (unsubscribe_if_needed key m) ≡ view_unsubscribe (is_known key) (view key m)
unfolding unsubscribe_if_needed view_unsubscribe
unsubscribe_if_needed-view key m =
    ground (arith, lookup-insert key key unsubscribing m.state_by_demand_key, text_beq_iff key key)

pub unsubscribe_if_needed-elsewhere :
    (key k : Text) (m : Manager)
    → text_beq key k ≡ false
    → view k (unsubscribe_if_needed key m) ≡ view k m
unfolding unsubscribe_if_needed
unsubscribe_if_needed-elsewhere key k m e =
    ground (arith, lookup-insert key k unsubscribing m.state_by_demand_key)

-- A change of the entries of a key, as its view and those of the others have it.
pub run_operation-view :
    (operation : Operation) (key : Text) (m : Manager)
    → view key (run_operation operation key m)
      ≡ view_operation (is_known key) operation (view key m)
unfolding run_operation run_increment run_decrement view_operation
run_operation-view increment key m =
    subscribe_if_needed-view key
      (record m { demand_count = insert key (demand_of key m + 1) m.demand_count })
    ∙ ground
        (arith, lookup-insert key key (demand_of key m + 1) m.demand_count, text_beq_iff key key)
run_operation-view decrement key m = ground (
  arith,
  unsubscribe_if_needed-view key (record m { demand_count = erase key m.demand_count }),
  lookup-insert key key (demand_of key m - 1) m.demand_count,
  lookup-erase key key m.demand_count,
  text_beq_iff key key,
)
run_operation-view reconcile key m = subscribe_if_needed-view key m

pub run_operation-elsewhere :
    (operation : Operation) (key k : Text) (m : Manager)
    → text_beq key k ≡ false
    → view k (run_operation operation key m) ≡ view k m
unfolding run_operation run_increment run_decrement
run_operation-elsewhere increment key k m e =
    subscribe_if_needed-elsewhere key k
      (record m { demand_count = insert key (demand_of key m + 1) m.demand_count }) e
    ∙ ground (arith, lookup-insert key k (demand_of key m + 1) m.demand_count)
run_operation-elsewhere decrement key k m e = ground (
  arith,
  unsubscribe_if_needed-elsewhere key k (record m { demand_count = erase key m.demand_count }) e,
  lookup-insert key k (demand_of key m - 1) m.demand_count,
  lookup-erase key k m.demand_count,
)
run_operation-elsewhere reconcile key k m e = subscribe_if_needed-elsewhere key k m e
