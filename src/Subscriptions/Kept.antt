-- ===== src/Subscriptions/Kept.antt =====
-- apps/api/src/realtime/sse/redisSubscriptionManager.ts: what Redis has of the channel of a key, through
-- the events of all keys.
use elitehub_vault.Base.{
  ℕ, Text, text_eq, nat_eq, text_beq, text_beq_iff, List, [], ◌∷◌, Option, none, some, ◌≡◌, refl,
  ap, ◌∙◌, arith, Bool, true, false, not, ◌||◌, All, ==_refl, if◌then◌else◌, Bool-cases, inl, inr,
}
use elitehub_vault.Subscriptions.{
  Manager, Wait, at_subscribe, at_unsubscribe, Operation, increment, decrement, reconcile,
  SubscriptionState, subscribed, channel_of_key, Event, calls, starts, settles, ready, closes,
  enqueue, enqueue_all, demanded_keys, idle_all, on_ready, on_close, step, run,
}
use elitehub_vault.Subscriptions.Automaton.{
  View, view, is_known, view_operation, view_subscribe, view_unsubscribe, view_settle, view_start,
  view_ready, view_step, view_run,
}
use elitehub_vault.Subscriptions.Automaton.Refinement.{step-view}
use elitehub_vault.Subscriptions.Automaton.Runs.{IsCounted, step-IsCounted}
use elitehub_vault.Subscriptions.States.{IsAllowed, view_step-IsAllowed}
use elitehub_vault.Subscriptions.Heard.{
  has_channel, is_channel, heard_operation, heard_start, heard_settle, start_next-heard,
  settle-heard,
}

-- No other key that an event is about has the channel of the key.
abbrev pub is_apart : Text → Text → Event → Bool
is_apart k channel (starts key) = text_beq key k || not (is_channel channel (channel_of_key key))
is_apart k channel (settles key ok) =
    text_beq key k || not (is_channel channel (channel_of_key key))
is_apart k channel e = true

-- No command is refused, and no connection closed.
abbrev pub is_smooth : Event → Bool
is_smooth (settles key ok) = ok
is_smooth closes = false
is_smooth other = true

abbrev pub is_ready : Event → Bool
is_ready ready = true
is_ready other = false

abbrev heard_step : Text → Event → View → Bool → Bool
heard_step k (starts key) v has = if text_beq key k then heard_start true v has else has
heard_step k (settles key ok) v has = if text_beq key k then heard_settle true ok v has else has
heard_step k e v has = has

abbrev pub heard_run : Text → List Event → View → Bool → Bool
heard_run k [] v has = has
heard_run k (e ∷ es) v has = heard_run k es (view_step k e v) (heard_step k e v has)

heard_operation_apart :
    (operation : Operation) (v : View) (has : Bool) → heard_operation false operation v has ≡ has
heard_operation_apart increment v has = ground arith
heard_operation_apart decrement v has = ground arith
heard_operation_apart reconcile v has = ground arith

heard_start_apart : (v : View) (has : Bool) → heard_start false v has ≡ has
heard_start_apart v has = go v.waiting v.pending
  where
    go :
        (w : Option Wait) (ops : List Operation)
        → elim w [
          | some wait ↦ has
          | none ↦ elim ops [
            | [] ↦ has
            | operation ∷ rest ↦
                heard_operation false operation (record v { waiting = none; pending = rest }) has
          ]
        ]
          ≡ has
    go (some w) ops = refl
    go none [] = refl
    go none (operation ∷ rest) =
        heard_operation_apart operation (record v { waiting = none; pending = rest }) has

heard_settle_apart : (ok : Bool) (v : View) (has : Bool) → heard_settle false ok v has ≡ has
heard_settle_apart ok v has = ground arith

enqueue_all_silent : (keys : List Text) (m : Manager) → (enqueue_all keys m).commands ≡ m.commands
unfolding enqueue_all enqueue
enqueue_all_silent [] m = refl
enqueue_all_silent (key ∷ keys) m = enqueue_all_silent keys (enqueue reconcile key m)

module _ (k channel : Text) (known : channel_of_key k ≡ some channel) where
  same_channel : is_channel channel (channel_of_key k) ≡ true
  same_channel = rw known (==_refl channel)

  here : (key : Text) → text_beq key k ≡ true → is_channel channel (channel_of_key key) ≡ true
  here key e = rw ((text_beq_iff key k).0 e) same_channel

  step-heard :
      (e : Event) (m : Manager)
      → is_apart k channel e ≡ true
      → has_channel channel (step e m).commands
        ≡ heard_step k e (view k m) (has_channel channel m.commands)
  unfolding step enqueue on_ready on_close
  step-heard (calls operation key) m a = refl
  step-heard (starts key) m a =
      start_next-heard channel key m ∙ (elim (Bool-cases (text_beq key k)) [
        | inl e ↦
            let mine = here key e in
            rw (e, mine)
              (ap (λ x. heard_start true (view x m) (has_channel channel m.commands))
                ((text_beq_iff key k).0 e))
        | inr e ↦
            let other : is_channel channel (channel_of_key key) ≡ false = ground (arith, a, e) in
            rw (e, other) (heard_start_apart (view key m) (has_channel channel m.commands))
      ])
  step-heard (settles key ok) m a =
      settle-heard channel key ok m ∙ (elim (Bool-cases (text_beq key k)) [
        | inl e ↦
            let mine = here key e in
            rw (e, mine)
              (ap (λ x. heard_settle true ok (view x m) (has_channel channel m.commands))
                ((text_beq_iff key k).0 e))
        | inr e ↦
            let other : is_channel channel (channel_of_key key) ≡ false = ground (arith, a, e) in
            rw (e, other) (heard_settle_apart ok (view key m) (has_channel channel m.commands))
      ])
  step-heard ready m a = ap (has_channel channel) (
      enqueue_all_silent (demanded_keys m) (record m {
        state_by_demand_key = idle_all (demanded_keys m) m.state_by_demand_key;
        redis_disconnected = false;
      }))
  step-heard closes m a = refl

  pub run-heard :
      (es : List Event) (m : Manager)
      → All (λ e. is_apart k channel e ≡ true) es
      → IsCounted m
      → has_channel channel (run es m).commands
        ≡ heard_run k es (view k m) (has_channel channel m.commands)
  unfolding run
  run-heard [] m a u = refl
  run-heard (e ∷ es) m a u =
      run-heard es (step e m) a.1 (step-IsCounted e m u)
      ∙ rw (step-view k e m u, step-heard e m a.0) refl

-- What Redis has of the channel agrees with the state of the key: it has it behind the command to
-- subscribe and while the key is subscribed, it has it no more behind the command to unsubscribe, and,
-- where the connection has not become ready anew, while the key is at rest and not subscribed.
abbrev pub agrees : Bool → Option Wait → Option SubscriptionState → Bool → Bool
agrees anew (some at_subscribe) s has = has
agrees anew (some at_unsubscribe) s has = not has
agrees anew none (some subscribed) has = has
agrees anew none s has = anew || not has

abbrev pub Agrees : Bool → View → Bool → Type 0
Agrees anew v has = agrees anew v.waiting v.state has ≡ true

operation-Agrees :
    (anew : Bool) (operation : Operation) (v : View) (has : Bool)
    → v.waiting ≡ none
    → IsAllowed v
    → Agrees anew v has
    → Agrees anew (view_operation true operation v) (heard_operation true operation v has)
unfolding view_operation view_unsubscribe view_subscribe
operation-Agrees anew increment v has w h g = ground arith
operation-Agrees anew decrement v has w h g = ground arith
operation-Agrees anew reconcile v has w h g = ground arith

start-Agrees :
    (anew : Bool) (v : View) (has : Bool)
    → IsAllowed v
    → Agrees anew v has
    → Agrees anew (view_start true v) (heard_start true v has)
unfolding view_start
start-Agrees anew v has h g = go v.waiting v.demand v.state v.pending h g
  where
    go :
        (w : Option Wait) (d : Option ℕ) (s : Option SubscriptionState) (ops : List Operation)
        → IsAllowed (record { waiting = w; demand = d; state = s; pending = ops })
        → Agrees anew (record { waiting = w; demand = d; state = s; pending = ops }) has
        → let v : View = record { waiting = w; demand = d; state = s; pending = ops } in
          Agrees anew (view_start true v) (heard_start true v has)
    go (some w) d s ops h g = g
    go none d s [] h g = g
    go none d s (op ∷ p) h g =
        operation-Agrees anew op (record { waiting = none; demand = d; state = s; pending = p }) has
          refl h g

settle-Agrees :
    (anew : Bool) (v : View) (has : Bool)
    → IsAllowed v
    → Agrees anew v has
    → Agrees anew (view_settle true true v) (heard_settle true true v has)
unfolding view_settle view_unsubscribe
settle-Agrees anew v has h g = ground arith

step-Agrees :
    (anew : Bool) (k : Text) (e : Event) (v : View) (has : Bool)
    → is_known k ≡ true
    → is_smooth e ≡ true
    → (anew || not (is_ready e)) ≡ true
    → IsAllowed v
    → Agrees anew v has
    → Agrees anew (view_step k e v) (heard_step k e v has)
unfolding view_step view_ready
step-Agrees anew k (calls operation key) v has q s r h g = ground arith
step-Agrees anew k (starts key) v has q s r h g =
    rw q (ground (arith, g, start-Agrees anew v has h g))
step-Agrees anew k (settles key true) v has q s r h g =
    rw q (ground (arith, g, settle-Agrees anew v has h g))
step-Agrees anew k (settles key false) v has q s r h g = ground arith
step-Agrees anew k ready v has q s r h g = ground arith
step-Agrees anew k closes v has q s r h g = ground arith

pub run-Agrees :
    (anew : Bool) (k : Text) (es : List Event) (v : View) (has : Bool)
    → is_known k ≡ true
    → All (λ e. is_smooth e ≡ true) es
    → All (λ e. (anew || not (is_ready e)) ≡ true) es
    → IsAllowed v
    → Agrees anew v has
    → Agrees anew (view_run k es v) (heard_run k es v has)
unfolding view_run
run-Agrees anew k [] v has q s r h g = g
run-Agrees anew k (e ∷ es) v has q s r h g =
    run-Agrees anew k es (view_step k e v) (heard_step k e v has) q s.1 r.1
      (view_step-IsAllowed k e v q h) (step-Agrees anew k e v has q s.0 r.0 h g)
