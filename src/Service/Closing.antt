-- ===== src/Service/Closing.antt =====
-- apps/api/src/realtime/sse/sseService.ts: a session that is served gives everything back when its
-- socket closes.
use elitehub_vault.Base.{
  Text, List, [], ◌∷◌, ◌++◌, Option, none, some, Bool, true, false, ◌≡◌, ◌≢◌, refl, sym, arith, ap,
  ◌∙◌, if◌then◌else◌,
}
use elitehub_vault.Auth.{Reply, replied, threw}
use elitehub_vault.Limiter.{OpenQuotaDecision}
use elitehub_vault.Contracts.{event_name}
use elitehub_vault.Registry.{Entry, realtime_event_spec}
use elitehub_vault.Service.Parameters.{SubscriptionQuery}
use elitehub_vault.Service.{
  CloseReason, closed, released, cleaned_up, Phase, answered, registering, serving, failed, Session,
  answer, start_session, with_spec, open_realtime_sse_connection, release_quota, after_register,
  cleanup, after_refresh, Event, register_replied, refresh_replied, socket_closed, handle,
  handle_all,
}
use elitehub_vault.Service.Accounts.{
  tally, is_started, IsAccounted, tally-append, release_quota-IsAccounted, release_quota-released,
  release_quota-phase, released_session,
}
use elitehub_vault.Service.Release.{handle_all-IsAccounted, open-IsAccounted, handle-IsAccounted}

-- A session that is served and has no connection has been cleaned up.
abbrev pub IsServed : Session → Type 0
IsServed s = s.phase ≡ serving → s.connection_id ≡ none → (tally s.calls).cleanups ≡ 1

release_quota-cleanups :
    (s : Session)
    → ((tally (release_quota s).calls).cleanups ≡ (tally s.calls).cleanups)
      × ((release_quota s).connection_id ≡ s.connection_id)
unfolding release_quota
release_quota-cleanups s = go s.quota_released
  where
    go :
        (b : Bool)
        → ((tally (if b then s else released_session s).calls).cleanups ≡ (tally s.calls).cleanups)
          × ((if b then s else released_session s).connection_id ≡ s.connection_id)
    go true = (refl, refl)
    go false = (ground (arith, (tally-append s.calls (closed ∷ released ∷ [])).3), refl)

release_quota-IsServed : (s : Session) → IsServed s → IsServed (release_quota s)
release_quota-IsServed s h p c =
    let k = release_quota-cleanups s in k.0 ∙ h (sym (release_quota-phase s) ∙ p) (sym k.1 ∙ c)

after_refresh-IsServed : (r : Reply Bool) (s : Session) → IsServed s → IsServed (after_refresh r s)
unfolding after_refresh
after_refresh-IsServed (replied true) s h = h
after_refresh-IsServed (replied false) s h = release_quota-IsServed s h
after_refresh-IsServed threw s h = release_quota-IsServed s h

after_register-IsServed : (r : Reply Text) (s : Session) → IsServed (after_register r s)
unfolding after_register
after_register-IsServed threw s p c = absurd (ground (arith, p))
after_register-IsServed (replied id) s p c = absurd (ground (arith, c))

-- A closed socket gives back the quota and has the broker clean up, once.
abbrev pub IsGivenBack : Session → Type 0
IsGivenBack s = (s.quota_released ≡ true) × (s.heartbeat ≡ false) × ((tally s.calls).cleanups ≡ 1)

cleanup-IsGivenBack :
    (reason : CloseReason) (s : Session)
    → s.phase ≡ serving
    → IsAccounted s
    → IsServed s
    → IsGivenBack (cleanup reason s)
unfolding cleanup
cleanup-IsGivenBack reason s p h v = go (release_quota s).connection_id refl
  where
    k : IsAccounted (release_quota s)
    k = release_quota-IsAccounted s (ap is_started p) h

    go :
        (o : Option Text)
        → (release_quota s).connection_id ≡ o
        → IsGivenBack (elim o [
          | none ↦ release_quota s
          | some id ↦ record (release_quota s) {
            connection_id = none;
            calls = (release_quota s).calls ++ (cleaned_up id reason ∷ []);
          }
        ])
    go none e = (
      release_quota-released s,
      k.stopped (release_quota-released s),
      release_quota-IsServed s v (release_quota-phase s ∙ p) e,
    )
    go (some id) e = (
      release_quota-released s,
      k.stopped (release_quota-released s),
      ground (
        arith,
        (tally-append (release_quota s).calls (cleaned_up id reason ∷ [])).3,
        k.cleanup_left (λ n. ground (arith, e, n)),
      ),
    )

handle-IsServed : (e : Event) (s : Session) → IsAccounted s → IsServed s → IsServed (handle e s)
unfolding handle
handle-IsServed (register_replied r) s a h = go s.phase
  where
    go :
        (p : Phase)
        → IsServed (elim p [
          | registering ↦ after_register r s
          | answered n ↦ s
          | serving ↦ s
          | failed ↦ s
        ])
    go (answered n) = h
    go registering = after_register-IsServed r s
    go serving = h
    go failed = h
handle-IsServed (refresh_replied r) s a h = go s.phase
  where
    go :
        (p : Phase)
        → IsServed (elim p [
          | registering ↦ after_refresh r s
          | answered n ↦ s
          | serving ↦ after_refresh r s
          | failed ↦ after_refresh r s
        ])
    go (answered n) = h
    go registering = after_refresh-IsServed r s h
    go serving = after_refresh-IsServed r s h
    go failed = after_refresh-IsServed r s h
handle-IsServed (socket_closed reason) s a h = go s.phase refl
  where
    go :
        (p : Phase)
        → s.phase ≡ p
        → IsServed
            (elim p [ serving ↦ cleanup reason s | registering ↦ s | answered n ↦ s | failed ↦ s ])
    go (answered n) e = h
    go registering e = h
    go serving e = λ p c. (cleanup-IsGivenBack reason s e a h).2
    go failed e = h

handle_all-IsServed :
    (es : List Event) (s : Session) → IsAccounted s → IsServed s → IsServed (handle_all es s)
unfolding handle_all
handle_all-IsServed [] s a h = h
handle_all-IsServed (e ∷ es) s a h =
    handle_all-IsServed es (handle e s) (handle-IsAccounted e s a) (handle-IsServed e s a h)

not_serving : (s : Session) → s.phase ≢ serving → IsServed s
not_serving s n p c = absurd (n p)

open-IsServed :
    (query : Option SubscriptionQuery) (quota : Reply OpenQuotaDecision)
    → IsServed (open_realtime_sse_connection query quota)
unfolding open_realtime_sse_connection
open-IsServed none quota = λ p c. absurd (ground (arith, p))
open-IsServed (some query) quota = go (realtime_event_spec (event_name query.event_type)) quota
  where
    granted : (b : Bool) → IsServed (if b then start_session else answer 429)
    granted true = λ p c. absurd (ground (arith, p))
    granted false = λ p c. absurd (ground (arith, p))

    go : (o : Option Entry) (quota : Reply OpenQuotaDecision) → IsServed (with_spec quota o)
    go none quota = λ p c. absurd (ground (arith, p))
    go (some spec) threw = λ p c. absurd (ground (arith, p))
    go (some spec) (replied decision) = granted decision.ok

handle-IsGivenBack :
    (reason : CloseReason) (s : Session)
    → s.phase ≡ serving
    → IsAccounted s
    → IsServed s
    → IsGivenBack (handle (socket_closed reason) s)
unfolding handle
handle-IsGivenBack reason s p a h = go s.phase p
  where
    go :
        (q : Phase)
        → q ≡ serving
        → IsGivenBack
            (elim q [ serving ↦ cleanup reason s | registering ↦ s | answered n ↦ s | failed ↦ s ])
    go (answered n) e = absurd (ground (arith, e))
    go registering e = absurd (ground (arith, e))
    go serving e = cleanup-IsGivenBack reason s p a h
    go failed e = absurd (ground (arith, e))

-- Whatever has happened to a session that is served, when its socket closes its quota is released, its
-- heartbeat is stopped, and the broker has been told to clean up exactly once.
pub closing-IsGivenBack :
    (query : Option SubscriptionQuery) (quota : Reply OpenQuotaDecision) (es : List Event)
    (reason : CloseReason)
    → (handle_all es (open_realtime_sse_connection query quota)).phase ≡ serving
    → IsGivenBack
        (handle (socket_closed reason) (handle_all es (open_realtime_sse_connection query quota)))
closing-IsGivenBack query quota es reason p =
    let s = open_realtime_sse_connection query quota in
    let a = handle_all-IsAccounted es s (open-IsAccounted query quota) in
    handle-IsGivenBack reason (handle_all es s) p a
      (handle_all-IsServed es s (open-IsAccounted query quota) (open-IsServed query quota))
