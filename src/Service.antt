-- ===== src/Service.antt =====
-- apps/api/src/realtime/sse/sseService.ts and sseLeaseHeartbeat.ts: one SSE connection, from the request
-- to the release of its quota. The waits for the broker and for Redis are events of their own; the log
-- and Sentry are left out.
pub mod Parameters
pub mod Accounts
pub mod Release
pub mod Closing
use elitehub_vault.Base.{
  ℕ, Text, List, [], ◌∷◌, ◌++◌, Option, none, some, Bool, true, false, if◌then◌else◌,
}
use elitehub_vault.Auth.{Reply, replied, threw}
use elitehub_vault.Contracts.{event_name}
use elitehub_vault.Registry.{Entry, realtime_event_spec}
use elitehub_vault.Limiter.{OpenQuotaDecision}
use elitehub_vault.Service.Parameters.{SubscriptionQuery}

pub data CloseReason : Type 0 where
  client_disconnect write_error : CloseReason

-- What the service calls: the counters of the limiter, the release of the lease, the broker's cleanup.
pub data Call : Type 0 where
  opened closed released : Call
  cleaned_up : Text → CloseReason → Call

-- The request is answered at once, waits for the broker, is served, or has failed to register.
pub data Phase : Type 0 where
  answered : ℕ → Phase
  registering serving failed : Phase

pub record Session : Type 0 where
  pub phase : Phase
  pub heartbeat : Bool
  pub quota_released : Bool
  pub connection_id : Option Text
  pub response_ended : Bool
  pub calls : List Call

abbrev pub answer : ℕ → Session
answer status = record {
  phase = answered status;
  heartbeat = false;
  quota_released = false;
  connection_id = none;
  response_ended = true;
  calls = [];
}

-- After the lease was granted, up to the wait for the broker.
abbrev pub start_session : Session
start_session = record {
  phase = registering;
  heartbeat = true;
  quota_released = false;
  connection_id = none;
  response_ended = false;
  calls = opened ∷ [];
}

abbrev pub after_quota : Reply OpenQuotaDecision → Session
after_quota threw = answer 503
after_quota (replied decision) = if decision.ok then start_session else answer 429

abbrev pub with_spec : Reply OpenQuotaDecision → Option Entry → Session
with_spec quota none = answer 400
with_spec quota (some entry) = after_quota quota

-- `quota` is what `tryOpen` comes to, where it is called.
unfoldable pub open_realtime_sse_connection :
    Option SubscriptionQuery → Reply OpenQuotaDecision → Session
unfolding realtime_event_spec
open_realtime_sse_connection none quota = answer 400
open_realtime_sse_connection (some query) quota =
    with_spec quota (realtime_event_spec (event_name query.event_type))

unfoldable pub release_quota : Session → Session
release_quota s = if s.quota_released then s else record s {
  quota_released = true;
  heartbeat = false;
  calls = s.calls ++ (closed ∷ released ∷ []);
}

abbrev pub end_response : Session → Session
end_response s = record s { response_ended = true }

-- The rest of `openRealtimeSseConnection` behind the wait for the broker.
unfoldable pub after_register : Reply Text → Session → Session
unfolding release_quota
after_register threw s = end_response (record (release_quota s) { phase = failed })
after_register (replied id) s = record s { phase = serving; connection_id = some id }

unfoldable pub cleanup : CloseReason → Session → Session
unfolding release_quota
cleanup reason s =
    let r = release_quota s in
    elim r.connection_id [
      | none ↦ r
      | some id ↦ record r { connection_id = none; calls = r.calls ++ (cleaned_up id reason ∷ []) }
    ]

-- `refreshSseLeaseOrClose` behind its wait.
unfoldable pub after_refresh : Reply Bool → Session → Session
unfolding release_quota
after_refresh (replied true) s = s
after_refresh (replied false) s = end_response (release_quota s)
after_refresh threw s = end_response (release_quota s)

-- What happens to a session: the broker replies, a refresh of the lease comes back, or the request or
-- the response is closed or errs.
pub data Event : Type 0 where
  register_replied : Reply Text → Event
  refresh_replied : Reply Bool → Event
  socket_closed : CloseReason → Event

-- The broker replies once, a session that was answered has no heartbeat, and only one that is served
-- listens to its socket.
unfoldable pub handle : Event → Session → Session
unfolding after_register after_refresh cleanup
handle (register_replied r) s = elim s.phase [
  | registering ↦ after_register r s
  | answered n ↦ s
  | serving ↦ s
  | failed ↦ s
]
handle (refresh_replied r) s = elim s.phase [
  | registering ↦ after_refresh r s
  | answered n ↦ s
  | serving ↦ after_refresh r s
  | failed ↦ after_refresh r s
]
handle (socket_closed reason) s = elim s.phase [
  | serving ↦ cleanup reason s
  | registering ↦ s
  | answered n ↦ s
  | failed ↦ s
]

unfoldable pub handle_all : List Event → Session → Session
unfolding handle
handle_all [] s = s
handle_all (e ∷ es) s = handle_all es (handle e s)
