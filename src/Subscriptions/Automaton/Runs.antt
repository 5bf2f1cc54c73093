-- ===== src/Subscriptions/Automaton/Runs.antt =====
-- apps/api/src/realtime/sse/redisSubscriptionManager.ts: runs, seen on one key.
use mathlib.Core.Path.{subst}
use elitehub_vault.Base.{
  ◌+◌, ◌-◌, Text, text_eq, nat_eq, List, [], ◌∷◌, Option, none, some, ◌≡◌, refl, sym, ap, ◌∙◌,
  false, ◌==◌, leb, lookup, insert, erase, Bool-cases, inl, inr, IsUnique, insert-IsUnique,
  erase-IsUnique,
}
use elitehub_vault.Subscriptions.{
  Manager, Wait, Operation, increment, decrement, reconcile, Event, calls, starts, settles, ready,
  closes, demand_of, subscribe_if_needed, unsubscribe_if_needed, run_increment, run_decrement,
  run_operation, enqueue, enqueue_all, idle_all, demanded_keys, on_ready, on_close, start_next,
  settle, step, run, initial, set_chain,
}
use elitehub_vault.Subscriptions.Automaton.{View, view, view_run}
use elitehub_vault.Subscriptions.Demand.{
  SameDemand, subscribe_if_needed-SameDemand, unsubscribe_if_needed-SameDemand, settle-SameDemand,
}
use elitehub_vault.Subscriptions.Automaton.Refinement.{step-view}

-- No key is counted twice.
abbrev pub IsCounted : Manager → Type 0
IsCounted m = IsUnique m.demand_count

SameDemand-IsCounted : (m n : Manager) → SameDemand m n → IsCounted n → IsCounted m
SameDemand-IsCounted m n s u = subst (λ d. IsUnique d) (sym s.demand) u

run_operation-IsCounted :
    (operation : Operation) (key : Text) (m : Manager)
    → IsCounted m
    → IsCounted (run_operation operation key m)
unfolding run_operation run_increment run_decrement
run_operation-IsCounted increment key m u =
    let after = record m { demand_count = insert key (demand_of key m + 1) m.demand_count } in
    SameDemand-IsCounted (subscribe_if_needed key after) after
      (subscribe_if_needed-SameDemand key after)
      (insert-IsUnique key (demand_of key m + 1) m.demand_count u)
run_operation-IsCounted decrement key m u =
    let after = record m { demand_count = erase key m.demand_count } in
    let erased =
      SameDemand-IsCounted (unsubscribe_if_needed key after) after
        (unsubscribe_if_needed-SameDemand key after) (erase-IsUnique key m.demand_count u) in
    let kept = insert-IsUnique key (demand_of key m - 1) m.demand_count u in
    elim (Bool-cases (leb (demand_of key m) 0)) [
      | inl e ↦ rw e u
      | inr e ↦ elim (Bool-cases (demand_of key m - 1 == 0)) [
        | inl q ↦ rw (e, q) erased
        | inr q ↦ rw (e, q) kept
      ]
    ]
run_operation-IsCounted reconcile key m u =
    SameDemand-IsCounted (subscribe_if_needed key m) m (subscribe_if_needed-SameDemand key m) u

start_next-IsCounted : (key : Text) (m : Manager) → IsCounted m → IsCounted (start_next key m)
unfolding start_next
start_next-IsCounted key m u = go (m.chains key).waiting (m.chains key).pending refl refl
  where
    go :
        (w : Option Wait) (ops : List Operation)
        → (m.chains key).waiting ≡ w
        → (m.chains key).pending ≡ ops
        → IsCounted (start_next key m)
    go (some w) ops a b = rw (a, start_next) u
    go none [] a b = rw (a, b, start_next) u
    go none (operation ∷ rest) a b =
        rw (a, b, start_next)
          (run_operation-IsCounted operation key
            (record m {
              chains = set_chain key (record { waiting = none; pending = rest }) m.chains;
            })
            u)

enqueue_all-IsCounted :
    (keys : List Text) (m : Manager) → IsCounted m → IsCounted (enqueue_all keys m)
unfolding enqueue_all enqueue
enqueue_all-IsCounted [] m u = u
enqueue_all-IsCounted (key ∷ keys) m u = enqueue_all-IsCounted keys (enqueue reconcile key m) u

pub step-IsCounted : (e : Event) (m : Manager) → IsCounted m → IsCounted (step e m)
unfolding step enqueue on_ready on_close
step-IsCounted (calls operation key) m u = u
step-IsCounted (starts key) m u = start_next-IsCounted key m u
step-IsCounted (settles key ok) m u =
    SameDemand-IsCounted (settle key ok m) m (settle-SameDemand key ok m) u
step-IsCounted ready m u =
    enqueue_all-IsCounted (demanded_keys m)
      (record m {
        state_by_demand_key = idle_all (demanded_keys m) m.state_by_demand_key;
        redis_disconnected = false;
      })
      u
step-IsCounted closes m u = u

run-view :
    (k : Text) (es : List Event) (m : Manager)
    → IsCounted m
    → view k (run es m) ≡ view_run k es (view k m)
unfolding run view_run
run-view k [] m u = refl
run-view k (e ∷ es) m u =
    run-view k es (step e m) (step-IsCounted e m u) ∙ ap (view_run k es) (step-view k e m u)

abbrev pub untouched : View
untouched = record { waiting = none; demand = none; state = none; pending = [] }

-- After any sequence of calls, starts, settled promises, reconnections and closed connections, what
-- the manager holds on a key (its demand, its state, its wait and its pending operations) is what
-- that key's own automaton makes of the events, from nothing: the keys do not disturb one another.
pub run_refines : (k : Text) (es : List Event) → view k (run es initial) ≡ view_run k es untouched
unfolding lookup
run_refines k es = run-view k es initial tt
