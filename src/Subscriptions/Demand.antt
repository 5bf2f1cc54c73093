-- ===== src/Subscriptions/Demand.antt =====
-- apps/api/src/realtime/sse/redisSubscriptionManager.ts: the demand for a key.
use mathlib.Core.Path.{ap₂}
use elitehub_vault.Base.{
  ℕ, ◌+◌, ◌-◌, ◌++◌, Text, text_eq, nat_eq, text_beq, List, [], ◌∷◌, none, ◌≡◌, refl, sym, ap, ◌∙◌,
  arith, Bool, false, text_beq_iff, if◌then◌else◌, lookup, insert, erase, or_else, lookup-insert,
  lookup-erase, Bool-cases, Option-cases, inl, inr,
}
use elitehub_vault.Subscriptions.{
  Manager, Operation, increment, decrement, reconcile, Event, calls, starts, settles, ready, closes,
  demand_of, subscribe_if_needed, unsubscribe_if_needed, after_subscribe, after_unsubscribe,
  run_increment, run_decrement, run_operation, enqueue, enqueue_all, idle_all, demanded_keys,
  on_ready, on_close, start_next, settle, step, run, initial, set_chain,
}

-- What is left of a demand when operations have run on it, one after another.
abbrev pub net : ℕ → List Operation → ℕ
net d [] = d
net d (increment ∷ ops) = net (d + 1) ops
net d (decrement ∷ ops) = net (d - 1) ops
net d (reconcile ∷ ops) = net d ops

net-append : (d : ℕ) (xs ys : List Operation) → net d (xs ++ ys) ≡ net (net d xs) ys
net-append d [] ys = refl
net-append d (increment ∷ xs) ys = net-append (d + 1) xs ys
net-append d (decrement ∷ xs) ys = net-append (d - 1) xs ys
net-append d (reconcile ∷ xs) ys = net-append d xs ys

-- Two managers with the same demand and the same pending operations.
pub record SameDemand (m n : Manager) : Type 0 where
  pub demand : m.demand_count ≡ n.demand_count
  pub pending : (k : Text) → (m.chains k).pending ≡ (n.chains k).pending

pub subscribe_if_needed-SameDemand :
    (key : Text) (m : Manager) → SameDemand (subscribe_if_needed key m) m
unfolding subscribe_if_needed
subscribe_if_needed-SameDemand key m = record {
  demand = ground arith;
  pending = λ k. ground (arith, text_beq_iff key k);
}

pub unsubscribe_if_needed-SameDemand :
    (key : Text) (m : Manager) → SameDemand (unsubscribe_if_needed key m) m
unfolding unsubscribe_if_needed
unsubscribe_if_needed-SameDemand key m = record {
  demand = ground arith;
  pending = λ k. ground (arith, text_beq_iff key k);
}

after_subscribe-SameDemand :
    (key : Text) (ok : Bool) (m : Manager) → SameDemand (after_subscribe key ok m) m
unfolding after_subscribe
after_subscribe-SameDemand key ok m = record {
  demand = ground arith;
  pending = λ k. ground (arith, text_beq_iff key k);
}

after_unsubscribe-SameDemand : (key : Text) (m : Manager) → SameDemand (after_unsubscribe key m) m
unfolding after_unsubscribe
after_unsubscribe-SameDemand key m = record {
  demand = ground arith;
  pending = λ k. ground (arith, text_beq_iff key k);
}

pub settle-SameDemand : (key : Text) (ok : Bool) (m : Manager) → SameDemand (settle key ok m) m
unfolding settle
settle-SameDemand key ok m = record {
  demand = ground arith;
  pending = λ k. ground (arith, text_beq_iff key k);
}

-- What the pending operations will make of the demand for a key.
abbrev pub outcome : Text → Manager → ℕ
outcome k m = net (demand_of k m) (m.chains k).pending

SameDemand-outcome : (k : Text) (m n : Manager) → SameDemand m n → outcome k m ≡ outcome k n
SameDemand-outcome k m n s = ap₂ (λ d ops. net (or_else (lookup k d) 0) ops) s.demand (s.pending k)

-- An operation that runs has its effect on the demand for its key, and none elsewhere.
run_increment_demand :
    (key k : Text) (m : Manager)
    → demand_of k (run_increment key m)
      ≡ (if text_beq key k then demand_of k m + 1 else demand_of k m)
unfolding run_increment
run_increment_demand key k m =
    let before = record m { demand_count = insert key (demand_of key m + 1) m.demand_count } in
    rw (subscribe_if_needed-SameDemand key before).demand
      (ground (arith, lookup-insert key k (demand_of key m + 1) m.demand_count, text_beq_iff key k))

run_decrement_demand :
    (key k : Text) (m : Manager)
    → demand_of k (run_decrement key m)
      ≡ (if text_beq key k then demand_of k m - 1 else demand_of k m)
unfolding run_decrement
run_decrement_demand key k m = ground (
  arith,
  (unsubscribe_if_needed-SameDemand key
      (record m { demand_count = erase key m.demand_count })).demand,
  lookup-insert key k (demand_of key m - 1) m.demand_count,
  lookup-erase key k m.demand_count,
  text_beq_iff key k,
)

run_operation-pending :
    (operation : Operation) (key k : Text) (m : Manager)
    → ((run_operation operation key m).chains k).pending ≡ (m.chains k).pending
unfolding run_operation run_increment run_decrement
run_operation-pending increment key k m =
    (subscribe_if_needed-SameDemand key
        (record m { demand_count = insert key (demand_of key m + 1) m.demand_count })).pending
      k
run_operation-pending decrement key k m = ground (arith, text_beq_iff key k)
run_operation-pending reconcile key k m = (subscribe_if_needed-SameDemand key m).pending k

run_operation_demand :
    (operation : Operation) (key k : Text) (m : Manager)
    → demand_of k (run_operation operation key m)
      ≡ (if text_beq key k then net (demand_of k m) (operation ∷ []) else demand_of k m)
unfolding run_operation
run_operation_demand increment key k m = run_increment_demand key k m
run_operation_demand decrement key k m = run_decrement_demand key k m
run_operation_demand reconcile key k m =
    rw (subscribe_if_needed-SameDemand key m).demand (ground arith)

-- The chain of a key when its first pending operation has been taken off.
abbrev pub taken_off : Text → List Operation → Manager → Manager
taken_off key rest m = record m {
  chains = set_chain key (record { waiting = none; pending = rest }) m.chains;
}

run_next-outcome :
    (key k : Text) (operation : Operation) (rest : List Operation) (m : Manager)
    → (m.chains key).pending ≡ operation ∷ rest
    → outcome k (run_operation operation key (taken_off key rest m)) ≡ outcome k m
run_next-outcome key k operation rest m p =
    ap₂ net (run_operation_demand operation key k (taken_off key rest m))
      (run_operation-pending operation key k (taken_off key rest m))
    ∙ taken_off-outcome
  where
    taken_off-outcome :
        net
          (if text_beq key k then net (demand_of k m) (operation ∷ []) else demand_of k m)
          ((taken_off key rest m).chains k).pending
        ≡ outcome k m
    taken_off-outcome = elim (Bool-cases (text_beq key k)) [
      | inr e ↦ rw e refl
      | inl e ↦ rw e (
          sym (net-append (demand_of k m) (operation ∷ []) rest)
          ∙ ap (net (demand_of k m))
              (sym p ∙ ap (λ x. (m.chains x).pending) ((text_beq_iff key k).0 e)))
    ]

start_next-outcome : (key k : Text) (m : Manager) → outcome k (start_next key m) ≡ outcome k m
unfolding start_next
start_next-outcome key k m = elim (Option-cases (m.chains key).waiting) [
  | inr (w, e) ↦ rw (e, start_next) refl
  | inl e ↦ rw (e, start_next) (pending_cases (m.chains key).pending refl)
]
  where
    pending_cases :
        (ops : List Operation) (q : (m.chains key).pending ≡ ops)
        → outcome k (elim ops [
          | [] ↦ m
          | operation ∷ rest ↦ run_operation operation key (taken_off key rest m)
        ])
          ≡ outcome k m
    pending_cases [] q = refl
    pending_cases (operation ∷ rest) q = run_next-outcome key k operation rest m q

enqueue-outcome :
    (operation : Operation) (key k : Text) (m : Manager)
    → outcome k (enqueue operation key m)
      ≡ (if text_beq key k then net (outcome k m) (operation ∷ []) else outcome k m)
unfolding enqueue
enqueue-outcome operation key k m = elim (Bool-cases (text_beq key k)) [
  | inr e ↦ rw e refl
  | inl e ↦ rw e (
      ap (λ x. net (demand_of k m) ((m.chains x).pending ++ (operation ∷ [])))
        ((text_beq_iff key k).0 e)
      ∙ net-append (demand_of k m) (m.chains k).pending (operation ∷ []))
]

enqueue_all-outcome :
    (keys : List Text) (k : Text) (m : Manager) → outcome k (enqueue_all keys m) ≡ outcome k m
unfolding enqueue_all
enqueue_all-outcome [] k m = refl
enqueue_all-outcome (key ∷ keys) k m =
    enqueue_all-outcome keys k (enqueue reconcile key m)
    ∙ (enqueue-outcome reconcile key k m ∙ ground arith)

on_ready-outcome : (k : Text) (m : Manager) → outcome k (on_ready m) ≡ outcome k m
unfolding on_ready
on_ready-outcome k m = enqueue_all-outcome (demanded_keys m) k (record m {
  state_by_demand_key = idle_all (demanded_keys m) m.state_by_demand_key;
  redis_disconnected = false;
})

-- The calls for a key, in their order.
abbrev pub calls_for : Text → List Event → List Operation
calls_for k [] = []
calls_for k (calls operation key ∷ es) =
    if text_beq key k then operation ∷ calls_for k es else calls_for k es
calls_for k (e ∷ es) = calls_for k es

run-outcome :
    (k : Text) (es : List Event) (m : Manager)
    → outcome k (run es m) ≡ net (outcome k m) (calls_for k es)
unfolding run step on_ready on_close
run-outcome k [] m = refl
run-outcome k (calls operation key ∷ es) m =
    run-outcome k es (enqueue operation key m)
    ∙ (ap (λ d. net d (calls_for k es)) (enqueue-outcome operation key k m)
        ∙ (elim (Bool-cases (text_beq key k)) [
          | inl e ↦ rw e (sym (net-append (outcome k m) (operation ∷ []) (calls_for k es)))
          | inr e ↦ rw e refl
        ]))
run-outcome k (starts key ∷ es) m =
    run-outcome k es (start_next key m)
    ∙ ap (λ d. net d (calls_for k es)) (start_next-outcome key k m)
run-outcome k (settles key ok ∷ es) m =
    run-outcome k es (settle key ok m)
    ∙ ap (λ d. net d (calls_for k es))
        (SameDemand-outcome k (settle key ok m) m (settle-SameDemand key ok m))
run-outcome k (ready ∷ es) m =
    run-outcome k es (on_ready m) ∙ ap (λ d. net d (calls_for k es)) (on_ready-outcome k m)
run-outcome k (closes ∷ es) m = run-outcome k es (on_close m)

-- After any sequence of calls, starts, settled promises, reconnections and closed connections, the
-- demand counted for a key, with the effect of the operations that still wait for their turn, is
-- what the calls for that key alone make of 0: nothing is lost, doubled or taken below 0, however
-- the operations of other keys interleave and whichever commands Redis refuses.
pub demand_follows_calls :
    (k : Text) (es : List Event) → outcome k (run es initial) ≡ net 0 (calls_for k es)
unfolding lookup
demand_follows_calls k es = run-outcome k es initial
