-- ===== src/Subscriptions/States.antt =====
-- apps/api/src/realtime/sse/redisSubscriptionManager.ts: the states that a key can have.
use mathlib.Core.Path.{subst}
use elitehub_vault.Base.{
  ℕ, Text, text_eq, nat_eq, List, [], ◌∷◌, Option, none, some, ◌≡◌, refl, sym, arith, Bool, true,
  false, leb, or_else,
}
use elitehub_vault.Subscriptions.{
  Wait, at_subscribe, at_unsubscribe, Operation, increment, decrement, reconcile, SubscriptionState,
  idle, subscribing, subscribed, unsubscribing, Event, calls, starts, settles, ready, closes, run,
  initial,
}
use elitehub_vault.Subscriptions.Automaton.{
  View, view, is_known, view_subscribe, view_unsubscribe, view_operation, view_settle, view_start,
  view_ready, view_close, view_step, view_run,
}
use elitehub_vault.Subscriptions.Automaton.Runs.{untouched, run_refines}

-- The states that a key can have, by what its running operation waits for and by its demand.
abbrev pub allowed : Option Wait → ℕ → Option SubscriptionState → Bool
allowed (some at_subscribe) d s = leb 1 d
allowed (some at_unsubscribe) d s = leb d 0
allowed none d none = true
allowed none d (some idle) = true
allowed none d (some subscribed) = leb 1 d
allowed none d (some subscribing) = false
allowed none d (some unsubscribing) = false

abbrev pub IsAllowed : View → Type 0
IsAllowed v = allowed v.waiting (or_else v.demand 0) v.state ≡ true

-- The state at rest, between the operations of a key.
abbrev pub resting : ℕ → Option SubscriptionState → Bool
resting d s = allowed none d s

view_subscribe-IsAllowed :
    (known : Bool) (v : View)
    → resting (or_else v.demand 0) v.state ≡ true
    → IsAllowed (view_subscribe known v)
unfolding view_subscribe
view_subscribe-IsAllowed known v h = ground arith

pub view_settle-IsAllowed : (ok : Bool) (v : View) → IsAllowed v → IsAllowed (view_settle true ok v)
unfolding view_settle view_unsubscribe
view_settle-IsAllowed ok v h = ground arith

pub view_operation-IsAllowed :
    (operation : Operation) (v : View)
    → resting (or_else v.demand 0) v.state ≡ true
    → IsAllowed (view_operation true operation v)
unfolding view_operation view_unsubscribe view_subscribe
view_operation-IsAllowed increment v h = ground arith
view_operation-IsAllowed decrement v h = ground arith
view_operation-IsAllowed reconcile v h = ground arith

pub view_start-IsAllowed : (v : View) → IsAllowed v → IsAllowed (view_start true v)
unfolding view_start
view_start-IsAllowed v h = go v.waiting v.demand v.state v.pending h
  where
    go :
        (w : Option Wait) (d : Option ℕ) (s : Option SubscriptionState) (ops : List Operation)
        → IsAllowed (record { waiting = w; demand = d; state = s; pending = ops })
        → IsAllowed (view_start true (record { waiting = w; demand = d; state = s; pending = ops }))
    go (some w) d s ops h = h
    go none d s [] h = h
    go none d s (op ∷ p) h =
        view_operation-IsAllowed op (record { waiting = none; demand = d; state = s; pending = p })
          h

pub view_step-IsAllowed :
    (k : Text) (e : Event) (v : View)
    → is_known k ≡ true
    → IsAllowed v
    → IsAllowed (view_step k e v)
unfolding view_step view_ready view_close
view_step-IsAllowed k (calls operation key) v q h = ground arith
view_step-IsAllowed k (starts key) v q h = rw q (ground (arith, view_start-IsAllowed v h))
view_step-IsAllowed k (settles key ok) v q h = rw q (ground (arith, view_settle-IsAllowed ok v h))
view_step-IsAllowed k ready v q h = ground arith
view_step-IsAllowed k closes v q h = ground arith

pub view_run-IsAllowed :
    (k : Text) (es : List Event) (v : View)
    → is_known k ≡ true
    → IsAllowed v
    → IsAllowed (view_run k es v)
unfolding view_run
view_run-IsAllowed k [] v q h = h
view_run-IsAllowed k (e ∷ es) v q h =
    view_run-IsAllowed k es (view_step k e v) q (view_step-IsAllowed k e v q h)

-- Whatever the events, failures and closed connections included: a key with a channel that waits
-- for a subscription has demand, one that waits for the end of one has none, and one that waits for
-- nothing is subscribed only with demand, and is else idle or unknown.
pub subscribed_on_demand :
    (k : Text) (es : List Event) → is_known k ≡ true → IsAllowed (view k (run es initial))
subscribed_on_demand k es q =
    subst IsAllowed (sym (run_refines k es)) (view_run-IsAllowed k es untouched q refl)
