-- ===== src/Subscriptions/Served.antt =====
-- apps/api/src/realtime/sse/redisSubscriptionManager.ts: keys at rest.
use mathlib.Core.Path.{subst}
use elitehub_vault.Base.{
  ℕ, ◌++◌, Text, text_eq, nat_eq, List, [], ◌∷◌, Option, none, some, ◌≡◌, refl, sym, ap, ◌∙◌, arith,
  Bool, true, false, ◌||◌, leb, or_else,
}
use elitehub_vault.Subscriptions.{
  Wait, Operation, increment, decrement, reconcile, SubscriptionState, subscribed, Event, calls,
  starts, settles, ready, closes, demand_of, run, initial,
}
use elitehub_vault.Subscriptions.Automaton.{
  View, state_of, view, is_known, view_subscribe, view_unsubscribe, view_operation, view_settle,
  view_start, view_ready, view_close, view_step, view_run,
}
use elitehub_vault.Subscriptions.Automaton.Runs.{untouched, run_refines}
use elitehub_vault.Base.{All, not, lookup}
use elitehub_vault.Subscriptions.{channel_of_key}
use elitehub_vault.Subscriptions.Heard.{has_channel}
use elitehub_vault.Subscriptions.Kept.{
  is_apart, is_smooth, is_ready, heard_run, run-heard, Agrees, run-Agrees,
}
use elitehub_vault.Subscriptions.States.{allowed, IsAllowed, resting}
use elitehub_vault.Subscriptions.Demand.{net, calls_for, outcome, demand_follows_calls}

abbrev pub has_reconcile : List Operation → Bool
has_reconcile [] = false
has_reconcile (reconcile ∷ ops) = true
has_reconcile (op ∷ ops) = has_reconcile ops

abbrev pub is_subscribed : Option SubscriptionState → Bool
is_subscribed (some subscribed) = true
is_subscribed other = false

abbrev pub served : Option Wait → ℕ → Option SubscriptionState → List Operation → Bool
served none d s ops = leb d 0 || (is_subscribed s || has_reconcile ops)
served (some w) d s ops = true

abbrev pub IsServed : View → Type 0
IsServed v = IsAllowed v × (served v.waiting (or_else v.demand 0) v.state v.pending ≡ true)

has_reconcile-append :
    (xs ys : List Operation) → has_reconcile (xs ++ ys) ≡ (has_reconcile xs || has_reconcile ys)
has_reconcile-append [] ys = refl
has_reconcile-append (increment ∷ xs) ys = has_reconcile-append xs ys
has_reconcile-append (decrement ∷ xs) ys = has_reconcile-append xs ys
has_reconcile-append (reconcile ∷ xs) ys = refl

view_operation-IsServed :
    (operation : Operation) (v : View)
    → resting (or_else v.demand 0) v.state ≡ true
    → served none (or_else v.demand 0) v.state (operation ∷ v.pending) ≡ true
    → IsServed (view_operation true operation v)
unfolding view_operation view_unsubscribe view_subscribe
view_operation-IsServed increment v h g = ground arith
view_operation-IsServed decrement v h g = ground arith
view_operation-IsServed reconcile v h g = ground arith

view_start-IsServed : (v : View) → IsServed v → IsServed (view_start true v)
unfolding view_start
view_start-IsServed v h = go v.waiting v.demand v.state v.pending h
  where
    go :
        (w : Option Wait) (d : Option ℕ) (s : Option SubscriptionState) (ops : List Operation)
        → IsServed (record { waiting = w; demand = d; state = s; pending = ops })
        → IsServed (view_start true (record { waiting = w; demand = d; state = s; pending = ops }))
    go (some w) d s ops h = h
    go none d s [] h = h
    go none d s (op ∷ p) h =
        view_operation-IsServed op (record { waiting = none; demand = d; state = s; pending = p })
          h.0 h.1

view_settle-IsServed : (v : View) → IsServed v → IsServed (view_settle true true v)
unfolding view_settle view_unsubscribe
view_settle-IsServed v h = ground arith

view_step-IsServed :
    (k : Text) (e : Event) (v : View)
    → is_known k ≡ true
    → is_smooth e ≡ true
    → IsServed v
    → IsServed (view_step k e v)
unfolding view_step view_ready view_close
view_step-IsServed k (calls operation key) v q g h =
    ground (arith, has_reconcile-append v.pending (operation ∷ []))
view_step-IsServed k (starts key) v q g h = rw q (ground (arith, view_start-IsServed v h))
view_step-IsServed k (settles key true) v q g h = rw q (ground (arith, view_settle-IsServed v h))
view_step-IsServed k (settles key false) v q g h = ground arith
view_step-IsServed k ready v q g h = ground (arith, has_reconcile-append v.pending (reconcile ∷ []))
view_step-IsServed k closes v q g h = ground arith

view_run-IsServed :
    (k : Text) (es : List Event) (v : View)
    → is_known k ≡ true
    → All (λ e. is_smooth e ≡ true) es
    → IsServed v
    → IsServed (view_run k es v)
unfolding view_run
view_run-IsServed k [] v q a h = h
view_run-IsServed k (e ∷ es) v q a h =
    view_run-IsServed k es (view_step k e v) q a.1 (view_step-IsServed k e v q a.0 h)

rest_is_served :
    (d : ℕ) (s : Option SubscriptionState)
    → allowed none d s ≡ true
    → served none d s [] ≡ true
    → is_subscribed s ≡ leb 1 d
rest_is_served d s a h = ground arith

quiescent-IsServed :
    (v : View)
    → v.waiting ≡ none
    → v.pending ≡ []
    → IsServed v
    → is_subscribed v.state ≡ leb 1 (or_else v.demand 0)
quiescent-IsServed v w p h = ground (arith, rest_is_served (or_else v.demand 0) v.state)

rest_subscribed :
    (v : View) (has : Bool)
    → v.waiting ≡ none
    → Agrees true v has
    → is_subscribed v.state ≡ true
    → has ≡ true
rest_subscribed v has w g s = ground arith

rest_exact :
    (v : View) (has : Bool) → v.waiting ≡ none → Agrees false v has → has ≡ is_subscribed v.state
rest_exact v has w g = ground arith

-- When Redis has refused no command and closed no connection, and nothing runs or waits on a key
-- with a channel that no other key of the events has: the key is subscribed in the manager exactly when
-- the calls for it, in their order, leave a demand above 0; then the commands that were sent leave its
-- channel subscribed at Redis; and where the connection was ready before the events they leave it
-- subscribed only then.
pub subscribed_iff_demanded :
    (k channel : Text) (es : List Event)
    → channel_of_key k ≡ some channel
    → All (λ e. is_apart k channel e ≡ true) es
    → All (λ e. is_smooth e ≡ true) es
    → (view k (run es initial)).waiting ≡ none
    → (view k (run es initial)).pending ≡ []
    → let demanded = leb 1 (net 0 (calls_for k es)) in
      (is_subscribed (state_of k (run es initial)) ≡ demanded)
      × (demanded ≡ true → has_channel channel (run es initial).commands ≡ true)
      × (All (λ e. not (is_ready e) ≡ true) es
          → has_channel channel (run es initial).commands ≡ demanded)
unfolding lookup
subscribed_iff_demanded k channel es known apart smooth w p = (
  in_manager,
  λ d. rest_subscribed (view k (run es initial)) _ w (agreed true (every es)) (in_manager ∙ d),
  λ r. rest_exact (view k (run es initial)) _ w (agreed false r) ∙ in_manager,
)
  where
    q : is_known k ≡ true
    q = rw (is_known, known) refl

    every : (es : List Event) → All (λ e. (true || not (is_ready e)) ≡ true) es
    every [] = tt
    every (e ∷ es) = (refl, every es)

    agreed :
        (anew : Bool)
        → All (λ e. (anew || not (is_ready e)) ≡ true) es
        → Agrees anew (view k (run es initial)) (has_channel channel (run es initial).commands)
    agreed anew r =
        subst (Agrees anew (view k (run es initial)))
          (sym (run-heard k channel known es initial apart tt))
          (subst (λ v. Agrees anew v (heard_run k es (view k initial) false))
            (sym (run_refines k es))
            (run-Agrees anew k es untouched false q smooth r refl (ground arith)))

    demand_at_rest : demand_of k (run es initial) ≡ outcome k (run es initial)
    demand_at_rest = sym (ap (net (demand_of k (run es initial))) p)

    in_manager : is_subscribed (state_of k (run es initial)) ≡ leb 1 (net 0 (calls_for k es))
    in_manager =
        quiescent-IsServed (view k (run es initial)) w p (
          subst IsServed (sym (run_refines k es))
            (view_run-IsServed k es untouched q smooth (refl, refl)))
        ∙ ap (leb 1) (demand_at_rest ∙ demand_follows_calls k es)
