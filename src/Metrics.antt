-- ===== src/Metrics.antt =====
-- apps/api/src/realtime/sse/sseMetrics.ts: the counters of the SSE service and their summary. The second
-- of a call is an argument.
pub mod Totals
use elitehub_vault.Base.{
  ℕ, zero, suc, ◌+◌, ◌-◌, text_eq, nat_eq, List, [], ◌∷◌, Bool, true, false, ltb, if◌then◌else◌,
  Dict, lookup, insert, or_else, max,
}

pub record SseMetrics : Type 0 where
  pub connections_opened_total : ℕ
  pub connections_closed_total : ℕ
  pub events_routed_total : ℕ
  pub events_dropped_total : ℕ
  pub write_errors_total : ℕ
  pub redis_errors_total : ℕ
  pub redis_disconnects_total : ℕ
  pub active_connections : ℕ
  pub active_channels : ℕ
  pub routed_events_per_second : Dict ℕ ℕ
  pub last_drop_total : ℕ
  pub last_error_total : ℕ

abbrev pub new_metrics : SseMetrics
new_metrics = record {
  connections_opened_total = 0;
  connections_closed_total = 0;
  events_routed_total = 0;
  events_dropped_total = 0;
  write_errors_total = 0;
  redis_errors_total = 0;
  redis_disconnects_total = 0;
  active_connections = 0;
  active_channels = 0;
  routed_events_per_second = [];
  last_drop_total = 0;
  last_error_total = 0;
}

-- The summary; the events of its window are to be divided by `window_seconds`.
pub record SseMetricsSummary : Type 0 where
  pub active_connections : ℕ
  pub active_channels : ℕ
  pub events_in_window : ℕ
  pub drops_since_last : ℕ
  pub errors_since_last : ℕ
  pub opened : ℕ
  pub closed : ℕ
  pub routed : ℕ
  pub dropped : ℕ
  pub write_errors : ℕ
  pub redis_errors : ℕ
  pub redis_disconnects : ℕ

abbrev pub window_seconds : ℕ
window_seconds = 60

unfoldable pub prune_old_buckets : ℕ → Dict ℕ ℕ → Dict ℕ ℕ
prune_old_buckets now_second [] = []
prune_old_buckets now_second ((second, n) ∷ buckets) =
    let rest = prune_old_buckets now_second buckets in
    if ltb second (now_second - 120) then rest else (second, n) ∷ rest

-- The sum over `n` seconds from `second` on. A second before 0 has no bucket.
unfoldable pub sum_from : ℕ → ℕ → Dict ℕ ℕ → ℕ
unfolding lookup
sum_from zero second buckets = 0
sum_from (suc n) second buckets =
    or_else (lookup second buckets) 0 + sum_from n (second + 1) buckets

-- The sum of `getEventsPerSecond`, over the seconds up to `now_second`.
unfoldable pub events_in : ℕ → ℕ → Dict ℕ ℕ → ℕ
unfolding sum_from
events_in window now_second buckets =
    let first = now_second + 1 - window in sum_from (now_second + 1 - first) first buckets

unfoldable pub set_active_connections : ℕ → SseMetrics → SseMetrics
set_active_connections value m = record m { active_connections = max 0 value }

unfoldable pub set_active_channels : ℕ → SseMetrics → SseMetrics
set_active_channels value m = record m { active_channels = max 0 value }

unfoldable pub on_connection_opened : SseMetrics → SseMetrics
on_connection_opened m = record m { connections_opened_total = m.connections_opened_total + 1 }

unfoldable pub on_connection_closed : SseMetrics → SseMetrics
on_connection_closed m = record m { connections_closed_total = m.connections_closed_total + 1 }

unfoldable pub on_event_routed : ℕ → SseMetrics → SseMetrics
unfolding prune_old_buckets lookup insert
on_event_routed second m =
    let current = or_else (lookup second m.routed_events_per_second) 0 in
    record m {
      events_routed_total = m.events_routed_total + 1;
      routed_events_per_second =
          prune_old_buckets second (insert second (current + 1) m.routed_events_per_second);
    }

unfoldable pub on_event_dropped : SseMetrics → SseMetrics
on_event_dropped m = record m { events_dropped_total = m.events_dropped_total + 1 }

unfoldable pub on_write_error : SseMetrics → SseMetrics
on_write_error m = record m { write_errors_total = m.write_errors_total + 1 }

unfoldable pub on_redis_error : SseMetrics → SseMetrics
on_redis_error m = record m { redis_errors_total = m.redis_errors_total + 1 }

unfoldable pub on_redis_disconnect : SseMetrics → SseMetrics
on_redis_disconnect m = record m { redis_disconnects_total = m.redis_disconnects_total + 1 }

abbrev pub total_errors : SseMetrics → ℕ
total_errors m = m.write_errors_total + m.redis_errors_total + m.redis_disconnects_total

unfoldable pub get_summary : ℕ → SseMetrics → SseMetricsSummary × SseMetrics
unfolding prune_old_buckets events_in
get_summary now_second m =
    let buckets = prune_old_buckets now_second m.routed_events_per_second in
    (
      record {
        active_connections = m.active_connections;
        active_channels = m.active_channels;
        events_in_window = events_in window_seconds now_second buckets;
        drops_since_last = m.events_dropped_total - m.last_drop_total;
        errors_since_last = total_errors m - m.last_error_total;
        opened = m.connections_opened_total;
        closed = m.connections_closed_total;
        routed = m.events_routed_total;
        dropped = m.events_dropped_total;
        write_errors = m.write_errors_total;
        redis_errors = m.redis_errors_total;
        redis_disconnects = m.redis_disconnects_total;
      },
      record m {
        routed_events_per_second = buckets;
        last_drop_total = m.events_dropped_total;
        last_error_total = total_errors m;
      },
    )

-- The calls of the service.
pub data Call : Type 0 where
  connection_opened connection_closed event_dropped write_error redis_error redis_disconnect : Call
  event_routed : ℕ → Call
  active_connections active_channels : ℕ → Call
  summary : ℕ → Call
