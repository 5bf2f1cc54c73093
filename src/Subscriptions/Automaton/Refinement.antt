-- ===== src/Subscriptions/Automaton/Refinement.antt =====
-- apps/api/src/realtime/sse/redisSubscriptionManager.ts: single events, seen on one key.

use elitehub_vault.Base.{
  ℕ, ◌++◌, Text, text_eq, nat_eq, text_beq, List, [], ◌∷◌, map, Option, none, some, ◌≡◌, refl, sym,
  ap, ◌∙◌, arith, Bool, false, text_beq_iff, if◌then◌else◌, Dict, lookup, insert, lookup-insert,
  Bool-cases, inl, inr, IsUnique,
}
use elitehub_vault.Subscriptions.{
  Manager, Chain, Wait, Operation, reconcile, SubscriptionState, idle, subscribed, closed_state,
  Event, calls, starts, settles, ready, closes, set_state, after_subscribe, after_unsubscribe,
  run_operation, enqueue, enqueue_all, idle_all, demanded_keys, on_ready, on_close, start_next,
  settle, step, set_chain,
}
use elitehub_vault.Subscriptions.Automaton.{
  view, is_known, view_operation, view_settle, view_start, view_ready, view_close, view_step,
}
use elitehub_vault.Subscriptions.Automaton.Views.{
  run_operation-view, run_operation-elsewhere, unsubscribe_if_needed-view,
  unsubscribe_if_needed-elsewhere,
}

set_chain-elsewhere :
    (key k : Text) (chain : Chain) (m : Manager)
    → text_beq key k ≡ false
    → view k (record m { chains = set_chain key chain m.chains }) ≡ view k m
set_chain-elsewhere key k chain m e = rw e refl

-- The manager with the first pending operation of a key taken off.
abbrev taken_off : Text → List Operation → Manager → Manager
taken_off key rest m = record m {
  chains = set_chain key (record { waiting = none; pending = rest }) m.chains;
}

run_next-view :
    (key : Text) (operation : Operation) (rest : List Operation) (m : Manager)
    → view key (run_operation operation key (taken_off key rest m))
      ≡ view_operation
          (is_known key)
          operation
          (record (view key m) { waiting = none; pending = rest })
run_next-view key operation rest m =
    run_operation-view operation key (taken_off key rest m) ∙ ground (arith, text_beq_iff key key)

run_next-elsewhere :
    (key k : Text) (operation : Operation) (rest : List Operation) (m : Manager)
    → text_beq key k ≡ false
    → view k (run_operation operation key (taken_off key rest m)) ≡ view k m
run_next-elsewhere key k operation rest m e =
    run_operation-elsewhere operation key k (taken_off key rest m) e ∙ rw e refl

pub start_next-view :
    (key : Text) (m : Manager)
    → view key (start_next key m) ≡ view_start (is_known key) (view key m)
unfolding start_next view_start
start_next-view key m = go (m.chains key).waiting (m.chains key).pending refl refl
  where
    go :
        (w : Option Wait) (ops : List Operation)
        → (m.chains key).waiting ≡ w
        → (m.chains key).pending ≡ ops
        → view key (start_next key m) ≡ view_start (is_known key) (view key m)
    go (some w) ops a b = rw (a, start_next, view_start) refl
    go none [] a b = rw (a, b, start_next, view_start) refl
    go none (operation ∷ rest) a b =
        rw (a, b, start_next, view_start) (run_next-view key operation rest m)

pub start_next-elsewhere :
    (key k : Text) (m : Manager) → text_beq key k ≡ false → view k (start_next key m) ≡ view k m
unfolding start_next
start_next-elsewhere key k m e = go (m.chains key).waiting (m.chains key).pending refl refl
  where
    go :
        (w : Option Wait) (ops : List Operation)
        → (m.chains key).waiting ≡ w
        → (m.chains key).pending ≡ ops
        → view k (start_next key m) ≡ view k m
    go (some w) ops a b = rw (a, start_next) refl
    go none [] a b = rw (a, b, start_next) refl
    go none (operation ∷ rest) a b =
        rw (a, b, start_next) (run_next-elsewhere key k operation rest m e)

settle-view :
    (key : Text) (ok : Bool) (m : Manager)
    → view key (settle key ok m) ≡ view_settle (is_known key) ok (view key m)
unfolding settle view_settle after_subscribe after_unsubscribe
settle-view key ok m = ground (
  arith,
  unsubscribe_if_needed-view key (set_state key subscribed m),
  lookup-insert key key subscribed m.state_by_demand_key,
  lookup-insert key key idle m.state_by_demand_key,
  text_beq_iff key key,
)

settle-elsewhere :
    (key k : Text) (ok : Bool) (m : Manager)
    → text_beq key k ≡ false
    → view k (settle key ok m) ≡ view k m
unfolding settle after_subscribe after_unsubscribe
settle-elsewhere key k ok m e = ground (
  arith,
  unsubscribe_if_needed-elsewhere key k (set_state key subscribed m) e,
  lookup-insert key k subscribed m.state_by_demand_key,
  lookup-insert key k idle m.state_by_demand_key,
)

enqueue-view :
    (operation : Operation) (key k : Text) (m : Manager)
    → view k (enqueue operation key m) ≡ (
        if text_beq key k
        then record (view k m) { pending = (m.chains k).pending ++ (operation ∷ []) }
        else view k m)
unfolding enqueue
enqueue-view operation key k m = elim (Bool-cases (text_beq key k)) [
  | inr e ↦ rw e refl
  | inl e ↦ rw e (
      ap
        (λ x. record (view k m) {
          waiting = (m.chains x).waiting;
          pending = (m.chains x).pending ++ (operation ∷ []);
        })
        ((text_beq_iff key k).0 e))
]

-- Reconciliation is asked for once on each key of a dictionary.
enqueue_all-view :
    (d : Dict Text ℕ) (k : Text) (m : Manager)
    → IsUnique d
    → view k (enqueue_all (map (λ e. e.0) d) m) ≡ (elim (lookup k d) [
      | none ↦ view k m
      | some v ↦ record (view k m) { pending = (m.chains k).pending ++ (reconcile ∷ []) }
    ])
unfolding enqueue_all lookup
enqueue_all-view [] k m u = refl
enqueue_all-view ((key, v) ∷ d) k m u =
    enqueue_all-view d k (enqueue reconcile key m) u.1 ∙ (elim (Bool-cases (text_beq key k)) [
      | inr e ↦ rw e (
          ap
            (λ v. elim (lookup k d) [
              | none ↦ v
              | some x ↦ record v { pending = v.pending ++ (reconcile ∷ []) }
            ])
            (enqueue-view reconcile key k m ∙ rw e refl))
      | inl e ↦
          rw (ap (λ x. lookup x d) (sym ((text_beq_iff key k).0 e)) ∙ u.0, e)
            (ap
              (λ x. record (view k m) {
                waiting = (m.chains x).waiting;
                pending = (m.chains x).pending ++ (reconcile ∷ []);
              })
              ((text_beq_iff key k).0 e))
    ])

lookup-idle_all :
    (d : Dict Text ℕ) (k : Text) (states : Dict Text SubscriptionState)
    → lookup k (idle_all (map (λ e. e.0) d) states)
      ≡ (elim (lookup k d) [ none ↦ lookup k states | some v ↦ some idle ])
unfolding idle_all lookup
lookup-idle_all [] k states = refl
lookup-idle_all ((key, v) ∷ d) k states =
    lookup-idle_all d k (insert key idle states) ∙ ground (arith, lookup-insert key k idle states)

lookup-closed :
    (k : Text) (states : Dict Text SubscriptionState)
    → lookup k (map (λ e. (e.0, closed_state e.1)) states)
      ≡ (elim (lookup k states) [ none ↦ none | some s ↦ some (closed_state s) ])
unfolding lookup
lookup-closed k [] = refl
lookup-closed k ((key, s) ∷ states) = ground (arith, lookup-closed k states)

on_ready-view :
    (k : Text) (m : Manager) → IsUnique m.demand_count → view k (on_ready m) ≡ view_ready (view k m)
unfolding on_ready view_ready
on_ready-view k m u =
    enqueue_all-view m.demand_count k
      (record m {
        state_by_demand_key = idle_all (demanded_keys m) m.state_by_demand_key;
        redis_disconnected = false;
      })
      u
    ∙ ground (arith, lookup-idle_all m.demand_count k m.state_by_demand_key)

on_close-view : (k : Text) (m : Manager) → view k (on_close m) ≡ view_close (view k m)
unfolding on_close view_close
on_close-view k m =
    ap (λ s. record (view k m) { state = s }) (lookup-closed k m.state_by_demand_key)

pub step-view :
    (k : Text) (e : Event) (m : Manager)
    → IsUnique m.demand_count
    → view k (step e m) ≡ view_step k e (view k m)
unfolding step view_step
step-view k (calls operation key) m u = enqueue-view operation key k m
step-view k (starts key) m u = elim (Bool-cases (text_beq key k)) [
  | inr e ↦ rw e (start_next-elsewhere key k m e)
  | inl e ↦ rw (e, sym ((text_beq_iff key k).0 e)) (start_next-view key m)
]
step-view k (settles key ok) m u = elim (Bool-cases (text_beq key k)) [
  | inr e ↦ rw e (settle-elsewhere key k ok m e)
  | inl e ↦ rw (e, sym ((text_beq_iff key k).0 e)) (settle-view key ok m)
]
step-view k ready m u = on_ready-view k m u
step-view k closes m u = on_close-view k m
