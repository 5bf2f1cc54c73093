-- ===== src/Examples/Serving.antt =====
-- Runs of the SSE service.
use elitehub_vault.Base.{
  ◌+◌, codes, text_eq, List, [], ◌∷◌, none, some, true, ◌≡◌, refl, dedupe_onto, add,
}
use elitehub_vault.Auth.{replied}
use elitehub_vault.Contracts.{system_powerplay_updated}
use elitehub_vault.Registry.{power_id, event_type_in, realtime_event_spec}
use elitehub_vault.Limiter.{OpenQuotaDecision}
use elitehub_vault.Metrics.{new_metrics, get_summary, Call, event_dropped, event_routed, summary}
use elitehub_vault.Metrics.Totals.{run_calls, nothing_reported, summaries_report_all}
use elitehub_vault.Service.{
  serving, client_disconnect, Event, register_replied, refresh_replied, socket_closed,
  open_realtime_sse_connection, handle, handle_all, after_register, after_refresh,
}
use elitehub_vault.Service.Parameters.{
  SearchParams, SubscriptionQuery, get, get_all, dedupe_list, parse_sse_subscription_query,
}
use elitehub_vault.Service.Parameters.Limits.{IsQuery, parse_sse_subscription_query-IsQuery}
use elitehub_vault.Service.Accounts.{IsAccounted}
use elitehub_vault.Service.Release.{sessions-IsAccounted}
use elitehub_vault.Service.Closing.{IsGivenBack, closing-IsGivenBack}

abbrev params : SearchParams
params =
    (codes "eventType", codes "systemPowerplayUpdated")
    ∷ (codes "powerId", codes "p")
    ∷ (codes "powerId", codes "p")
    ∷ []

abbrev query : SubscriptionQuery
query = record {
  event_type = system_powerplay_updated;
  routing_key_param = power_id;
  routing_keys = codes "p" ∷ [];
  system_ids = none;
}

parsed : parse_sse_subscription_query params ≡ some query
unfolding parse_sse_subscription_query get get_all dedupe_list dedupe_onto add
parsed = refl

parse_sse_subscription_query-IsQuery_example : IsQuery params query
parse_sse_subscription_query-IsQuery_example =
    parse_sse_subscription_query-IsQuery params query parsed

abbrev granted : OpenQuotaDecision
granted = record { ok = true; active = 1; max = 3 }

abbrev events : List Event
events = register_replied (replied (codes "1")) ∷ refresh_replied (replied true) ∷ []

sessions-IsAccounted_example :
    IsAccounted (handle_all events (open_realtime_sse_connection (some query) (replied granted)))
sessions-IsAccounted_example = sessions-IsAccounted (some query) (replied granted) events

served :
    (handle_all events (open_realtime_sse_connection (some query) (replied granted))).phase
    ≡ serving
unfolding handle_all handle open_realtime_sse_connection realtime_event_spec event_type_in
    after_register after_refresh
served = refl

closing-IsGivenBack_example : IsGivenBack (
    handle
      (socket_closed client_disconnect)
      (handle_all events (open_realtime_sse_connection (some query) (replied granted))))
closing-IsGivenBack_example =
    closing-IsGivenBack (some query) (replied granted) events client_disconnect served

abbrev calls : List Call
calls = event_dropped ∷ summary 4 ∷ Call.write_error ∷ event_dropped ∷ event_routed 5 ∷ []

summaries_report_all_example :
    let s = run_calls calls (new_metrics, nothing_reported) in
    let last = (get_summary 6 s.0).0 in
    (last.opened ≡ 0)
    × (last.closed ≡ 0)
    × (last.routed ≡ 1)
    × (last.dropped ≡ 2)
    × (last.write_errors ≡ 1)
    × (last.redis_errors ≡ 0)
    × (last.redis_disconnects ≡ 0)
    × (s.1.drops + last.drops_since_last ≡ 2)
    × (s.1.errors + last.errors_since_last ≡ 1)
summaries_report_all_example = summaries_report_all calls 6
