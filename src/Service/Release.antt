-- ===== src/Service/Release.antt =====
-- apps/api/src/realtime/sse/sseService.ts: the quota of a connection is given back once.
use elitehub_vault.Base.{
  ℕ, Text, List, [], ◌∷◌, ◌++◌, Option, none, some, Bool, true, false, ◌≡◌, ◌≢◌, refl, arith, ap,
  ◌∙◌, if◌then◌else◌,
}
use elitehub_vault.Auth.{Reply, replied, threw}
use elitehub_vault.Limiter.{OpenQuotaDecision}
use elitehub_vault.Registry.{Entry, realtime_event_spec}
use elitehub_vault.Contracts.{event_name}
use elitehub_vault.Service.Parameters.{SubscriptionQuery}
use elitehub_vault.Service.{
  CloseReason, cleaned_up, Phase, answered, registering, serving, failed, Session, answer,
  start_session, with_spec, open_realtime_sse_connection, release_quota, after_register, cleanup,
  after_refresh, Event, register_replied, refresh_replied, socket_closed, handle, handle_all,
}
use elitehub_vault.Service.Accounts.{
  tally, one_if, is_started, IsAccounted, tally-append, release_quota-IsAccounted,
  release_quota-released, release_quota-phase,
}

pub end_response-IsAccounted :
    (s : Session) → IsAccounted s → IsAccounted (record s { response_ended = true })
end_response-IsAccounted s h = record {
  opens = h.opens;
  closes = h.closes;
  releases = h.releases;
  beats = h.beats;
  stopped = h.stopped;
  cleanups = h.cleanups;
  none_before = h.none_before;
  cleanup_left = h.cleanup_left;
}

pub after_refresh-IsAccounted :
    (r : Reply Bool) (s : Session)
    → is_started s.phase ≡ true
    → IsAccounted s
    → IsAccounted (after_refresh r s)
unfolding after_refresh
after_refresh-IsAccounted (replied true) s p h = h
after_refresh-IsAccounted (replied false) s p h =
    end_response-IsAccounted (release_quota s) (release_quota-IsAccounted s p h)
after_refresh-IsAccounted threw s p h =
    end_response-IsAccounted (release_quota s) (release_quota-IsAccounted s p h)

after_register-IsAccounted :
    (r : Reply Text) (s : Session)
    → s.phase ≡ registering
    → IsAccounted s
    → IsAccounted (after_register r s)
unfolding after_register
after_register-IsAccounted threw s p h =
    let k = release_quota-IsAccounted s (ap is_started p) h in
    record {
      opens = k.opens ∙ ap (λ p. one_if (is_started p)) (release_quota-phase s ∙ p);
      closes = k.closes;
      releases = k.releases;
      beats = λ a b. release_quota-released s;
      stopped = k.stopped;
      cleanups = k.cleanups;
      none_before = λ a. absurd (ground (arith, a));
      cleanup_left = k.cleanup_left;
    }
after_register-IsAccounted (replied id) s p h = record {
  opens = h.opens ∙ ap (λ p. one_if (is_started p)) p;
  closes = h.closes;
  releases = h.releases;
  beats = λ a b. h.beats (ap is_started p) b;
  stopped = h.stopped;
  cleanups = h.cleanups;
  none_before = λ a. absurd (ground (arith, a));
  cleanup_left = λ a. h.none_before p;
}

abbrev cleaned : CloseReason → Session → Option Text → Session
cleaned reason r none = r
cleaned reason r (some id) = record r {
  connection_id = none;
  calls = r.calls ++ (cleaned_up id reason ∷ []);
}

cleaned-IsAccounted :
    (reason : CloseReason) (r : Session) (o : Option Text)
    → r.connection_id ≡ o
    → r.quota_released ≡ true
    → r.phase ≢ registering
    → IsAccounted r
    → IsAccounted (cleaned reason r o)
cleaned-IsAccounted reason r none e q p h = h
cleaned-IsAccounted reason r (some id) e q p h =
    let t = tally-append r.calls (cleaned_up id reason ∷ []) in
    let before : (tally r.calls).cleanups ≡ 0 = h.cleanup_left (λ n. ground (arith, e, n)) in
    record {
      opens = ground (arith, t.0, h.opens);
      closes = ground (arith, t.1, h.closes);
      releases = ground (arith, t.2, h.releases);
      beats = h.beats;
      stopped = h.stopped;
      cleanups = ground (arith, t.3, before, q);
      none_before = λ a. absurd (p a);
      cleanup_left = λ a. absurd (a refl);
    }

cleanup-IsAccounted :
    (reason : CloseReason) (s : Session)
    → s.phase ≡ serving
    → IsAccounted s
    → IsAccounted (cleanup reason s)
unfolding cleanup
cleanup-IsAccounted reason s p h = go (release_quota s).connection_id refl
  where
    accounted : IsAccounted (release_quota s)
    accounted = release_quota-IsAccounted s (ap is_started p) h

    go :
        (o : Option Text)
        → (release_quota s).connection_id ≡ o
        → IsAccounted (elim o [
          | none ↦ release_quota s
          | some id ↦ record (release_quota s) {
            connection_id = none;
            calls = (release_quota s).calls ++ (cleaned_up id reason ∷ []);
          }
        ])
    go none e = accounted
    go (some id) e =
        cleaned-IsAccounted reason (release_quota s) (some id) e (release_quota-released s)
          (λ q. absurd (ground (arith, q, p, release_quota-phase s))) accounted

pub handle-IsAccounted : (e : Event) (s : Session) → IsAccounted s → IsAccounted (handle e s)
unfolding handle
handle-IsAccounted (register_replied r) s h = go s.phase refl
  where
    go :
        (p : Phase)
        → s.phase ≡ p
        → IsAccounted (elim p [
          | registering ↦ after_register r s
          | answered n ↦ s
          | serving ↦ s
          | failed ↦ s
        ])
    go (answered n) e = h
    go registering e = after_register-IsAccounted r s e h
    go serving e = h
    go failed e = h
handle-IsAccounted (refresh_replied r) s h = go s.phase refl
  where
    go :
        (p : Phase)
        → s.phase ≡ p
        → IsAccounted (elim p [
          | registering ↦ after_refresh r s
          | answered n ↦ s
          | serving ↦ after_refresh r s
          | failed ↦ after_refresh r s
        ])
    go (answered n) e = h
    go registering e = after_refresh-IsAccounted r s (ap is_started e) h
    go serving e = after_refresh-IsAccounted r s (ap is_started e) h
    go failed e = after_refresh-IsAccounted r s (ap is_started e) h
handle-IsAccounted (socket_closed reason) s h = go s.phase refl
  where
    go :
        (p : Phase)
        → s.phase ≡ p
        → IsAccounted
            (elim p [ serving ↦ cleanup reason s | registering ↦ s | answered n ↦ s | failed ↦ s ])
    go (answered n) e = h
    go registering e = h
    go serving e = cleanup-IsAccounted reason s e h
    go failed e = h

pub handle_all-IsAccounted :
    (es : List Event) (s : Session) → IsAccounted s → IsAccounted (handle_all es s)
unfolding handle_all
handle_all-IsAccounted [] s h = h
handle_all-IsAccounted (e ∷ es) s h =
    handle_all-IsAccounted es (handle e s) (handle-IsAccounted e s h)

pub answer-IsAccounted : (status : ℕ) → IsAccounted (answer status)
answer-IsAccounted status = record {
  opens = refl;
  closes = refl;
  releases = refl;
  beats = λ a b. absurd (ground (arith, a));
  stopped = λ a. refl;
  cleanups = omega arith;
  none_before = λ a. refl;
  cleanup_left = λ a. refl;
}

start_session-IsAccounted : IsAccounted start_session
start_session-IsAccounted = record {
  opens = refl;
  closes = refl;
  releases = refl;
  beats = λ a b. absurd (ground (arith, b));
  stopped = λ a. absurd (ground (arith, a));
  cleanups = omega arith;
  none_before = λ a. refl;
  cleanup_left = λ a. refl;
}

pub open-IsAccounted :
    (query : Option SubscriptionQuery) (quota : Reply OpenQuotaDecision)
    → IsAccounted (open_realtime_sse_connection query quota)
unfolding open_realtime_sse_connection
open-IsAccounted none quota = answer-IsAccounted 400
open-IsAccounted (some query) quota = go (realtime_event_spec (event_name query.event_type)) quota
  where
    granted : (b : Bool) → IsAccounted (if b then start_session else answer 429)
    granted true = start_session-IsAccounted
    granted false = answer-IsAccounted 429

    go : (o : Option Entry) (quota : Reply OpenQuotaDecision) → IsAccounted (with_spec quota o)
    go none quota = answer-IsAccounted 400
    go (some spec) threw = answer-IsAccounted 503
    go (some spec) (replied decision) = granted decision.ok

-- From any request and through any events, a session is counted by the limiter once if it was started;
-- it is counted out and its lease released once each if its quota is marked released and never
-- otherwise, its heartbeat runs until then and no longer, and the broker is told to clean it up at most
-- once, after that.
pub sessions-IsAccounted :
    (query : Option SubscriptionQuery) (quota : Reply OpenQuotaDecision) (es : List Event)
    → IsAccounted (handle_all es (open_realtime_sse_connection query quota))
sessions-IsAccounted query quota es =
    handle_all-IsAccounted es (open_realtime_sse_connection query quota)
      (open-IsAccounted query quota)
