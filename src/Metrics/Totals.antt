-- ===== src/Metrics/Totals.antt =====
-- apps/api/src/realtime/sse/sseMetrics.ts: the totals of the counters in a summary, and the
-- drops and errors that the summaries report.
use elitehub_vault.Base.{
  Bool, true, false, if◌then◌else◌, ℕ, suc, ◌+◌, ◌≤◌, nat_eq, List, [], ◌∷◌, ◌≡◌, refl, arith,
}
use elitehub_vault.Metrics.{
  SseMetrics, new_metrics, on_connection_opened, on_connection_closed, on_event_routed,
  on_event_dropped, on_write_error, on_redis_error, on_redis_disconnect, total_errors, get_summary,
  set_active_connections, set_active_channels, Call, connection_opened, connection_closed,
  event_dropped, write_error, redis_error, redis_disconnect, event_routed, active_connections,
  active_channels, summary,
}

-- What the summaries so far have reported.
pub record Reported : Type 0 where
  pub drops : ℕ
  pub errors : ℕ

unfoldable pub run_call : Call → SseMetrics × Reported → SseMetrics × Reported
unfolding get_summary on_event_routed on_event_dropped on_write_error on_redis_error
    on_redis_disconnect on_connection_opened on_connection_closed set_active_connections
    set_active_channels
run_call connection_opened (m, r) = (on_connection_opened m, r)
run_call connection_closed (m, r) = (on_connection_closed m, r)
run_call event_dropped (m, r) = (on_event_dropped m, r)
run_call write_error (m, r) = (on_write_error m, r)
run_call redis_error (m, r) = (on_redis_error m, r)
run_call redis_disconnect (m, r) = (on_redis_disconnect m, r)
run_call (event_routed second) (m, r) = (on_event_routed second m, r)
run_call (active_connections n) (m, r) = (set_active_connections n m, r)
run_call (active_channels n) (m, r) = (set_active_channels n m, r)
run_call (summary second) (m, r) =
    let s = get_summary second m in
    (
      s.1,
      record { drops = r.drops + s.0.drops_since_last; errors = r.errors + s.0.errors_since_last },
    )

unfoldable pub run_calls : List Call → SseMetrics × Reported → SseMetrics × Reported
unfolding run_call
run_calls [] s = s
run_calls (call ∷ calls) s = run_calls calls (run_call call s)

-- Calls of the same counter.
abbrev pub is_call : Call → Call → Bool
is_call connection_opened connection_opened = true
is_call connection_closed connection_closed = true
is_call event_dropped event_dropped = true
is_call write_error write_error = true
is_call redis_error redis_error = true
is_call redis_disconnect redis_disconnect = true
is_call (event_routed second) (event_routed other) = true
is_call kind call = false

-- How many calls are of the counter of a call.
abbrev pub calls_of : Call → List Call → ℕ
calls_of kind [] = 0
calls_of kind (call ∷ calls) =
    if is_call kind call then suc (calls_of kind calls) else calls_of kind calls

-- The marks of the last summary are what was reported.
abbrev pub IsReported : SseMetrics × Reported → Type 0
IsReported s =
    (s.0.last_drop_total ≡ s.1.drops)
    × (s.0.last_error_total ≡ s.1.errors)
    × (s.1.drops ≤ s.0.events_dropped_total)
    × (s.1.errors ≤ total_errors s.0)

run_calls_lem :
    (calls : List Call) (s : SseMetrics × Reported)
    → IsReported s
    → let end = run_calls calls s in
      IsReported end
      × (end.0.connections_opened_total
          ≡ s.0.connections_opened_total + calls_of connection_opened calls)
      × (end.0.connections_closed_total
          ≡ s.0.connections_closed_total + calls_of connection_closed calls)
      × (end.0.events_routed_total ≡ s.0.events_routed_total + calls_of (event_routed 0) calls)
      × (end.0.events_dropped_total ≡ s.0.events_dropped_total + calls_of event_dropped calls)
      × (end.0.write_errors_total ≡ s.0.write_errors_total + calls_of write_error calls)
      × (end.0.redis_errors_total ≡ s.0.redis_errors_total + calls_of redis_error calls)
      × (end.0.redis_disconnects_total
          ≡ s.0.redis_disconnects_total + calls_of redis_disconnect calls)
unfolding run_calls run_call get_summary on_event_routed on_event_dropped on_write_error
    on_redis_error on_redis_disconnect on_connection_opened on_connection_closed
    set_active_connections set_active_channels
run_calls_lem [] s h =
    (h, omega arith, omega arith, omega arith, omega arith, omega arith, omega arith, omega arith)
run_calls_lem (connection_opened ∷ calls) (m, r) h =
    ground (arith, h, run_calls_lem calls (on_connection_opened m, r))
run_calls_lem (connection_closed ∷ calls) (m, r) h =
    ground (arith, h, run_calls_lem calls (on_connection_closed m, r))
run_calls_lem (event_dropped ∷ calls) (m, r) h =
    ground (arith, h, run_calls_lem calls (on_event_dropped m, r))
run_calls_lem (write_error ∷ calls) (m, r) h =
    ground (arith, h, run_calls_lem calls (on_write_error m, r))
run_calls_lem (redis_error ∷ calls) (m, r) h =
    ground (arith, h, run_calls_lem calls (on_redis_error m, r))
run_calls_lem (redis_disconnect ∷ calls) (m, r) h =
    ground (arith, h, run_calls_lem calls (on_redis_disconnect m, r))
run_calls_lem (event_routed second ∷ calls) (m, r) h =
    ground (arith, h, run_calls_lem calls (on_event_routed second m, r))
run_calls_lem (active_connections n ∷ calls) (m, r) h =
    run_calls_lem calls (set_active_connections n m, r) h
run_calls_lem (active_channels n ∷ calls) (m, r) h =
    run_calls_lem calls (set_active_channels n m, r) h
run_calls_lem (summary second ∷ calls) (m, r) h =
    ground (arith, h, run_calls_lem calls (run_call (summary second) (m, r)))

abbrev pub nothing_reported : Reported
nothing_reported = record { drops = 0; errors = 0 }

-- After any calls of a new service, each total of a summary at any second is the number of the calls of
-- its counter, and with the summaries before it the summary has reported each drop and each error once.
pub summaries_report_all :
    (calls : List Call) (second : ℕ)
    → let s = run_calls calls (new_metrics, nothing_reported) in
      let last = (get_summary second s.0).0 in
      (last.opened ≡ calls_of connection_opened calls)
      × (last.closed ≡ calls_of connection_closed calls)
      × (last.routed ≡ calls_of (event_routed 0) calls)
      × (last.dropped ≡ calls_of event_dropped calls)
      × (last.write_errors ≡ calls_of write_error calls)
      × (last.redis_errors ≡ calls_of redis_error calls)
      × (last.redis_disconnects ≡ calls_of redis_disconnect calls)
      × (s.1.drops + last.drops_since_last ≡ calls_of event_dropped calls)
      × (s.1.errors + last.errors_since_last
          ≡ calls_of write_error calls
            + calls_of redis_error calls
            + calls_of redis_disconnect calls)
unfolding get_summary
summaries_report_all calls second = ground (
  arith,
  run_calls_lem calls (new_metrics, nothing_reported) (refl, refl, omega arith, omega arith),
)
