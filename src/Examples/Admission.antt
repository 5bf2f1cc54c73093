-- ===== src/Examples/Admission.antt =====
-- Auth and Monitors.
use elitehub_vault.Base.{
  ℕ, ◌≡◌, ◌≢◌, ◌↔◌, refl, Text, codes, text_eq, text_beq, text_beq_iff, nat_eq, List, [], ◌∷◌, ◌++◌,
  Option, none, some, true, false, ◌==◌, if◌then◌else◌, Dict, lookup, insert, contains,
}
use elitehub_vault.Auth.{
  api_key_prefix, ParsedOpaqueApiKey, parse_opaque_api_key, Crypto, ApiKeyCacheRecord,
  ApiKeyConsumer, anonymous, api_key, ok, invalid_api_key, service_unavailable, replied, Sources,
  Resolver, resolve,
}
use elitehub_vault.Auth.Keys.{parse_opaque_api_key_iff}
use elitehub_vault.Auth.Resolution.{Found, IsAdmitted, resolve-IsAdmitted}
use elitehub_vault.Auth.Failures.{SomeCallThrew, resolve_fails_closed}
use elitehub_vault.Auth.Middleware.{
  Response, IsAnswered, require_api_key, require_api_key-IsAnswered,
}
use elitehub_vault.RateLimiter.{rate_limited}
use elitehub_vault.Monitors.{alert_behind}
use elitehub_vault.Monitors.Heartbeat.{
  Settings, default_settings, Heartbeat, Check, skipped, failed, Beat, starts, marks, begins, ends,
  beats, IsTold, beats-IsTold, push_target,
}
use elitehub_vault.Monitors.Backlog.{
  QueueReading, Backlog, run_monitors, IsBacklogTold, run_monitors-IsBacklogTold,
}

-- The bytes of a secret stand for its digest here.
abbrev crypto : Crypto
crypto = record {
  hash_api_key_secret = λ secret. secret;
  buffer_from = λ s. s;
  timing_safe_equal = text_beq;
  timing_safe_equal_iff = λ a b e. text_beq_iff a b;
}

abbrev stored_key : ApiKeyCacheRecord
stored_key = record {
  api_key_id = codes "1";
  public_id = codes "abc";
  key_name = codes "bot";
  secret_hash = codes "s3";
  rpm_limit = 60;
  max_sse_connections = 2;
  is_active = true;
}

-- Empty caches, and a table with one key.
abbrev sources : Sources
sources = record {
  Cache = Dict Text ApiKeyCacheRecord;
  local_get = λ id cache. lookup id cache;
  local_set = λ id r cache. insert id r cache;
  get_cache_value = λ k. replied none;
  lookup_api_key_record =
      λ id. if id == codes "abc" then replied (some stored_key) else replied none;
  parse_record = λ s. none;
  stringify_record = λ r. codes "{}";
}

abbrev no_caches : Resolver (Dict Text ApiKeyCacheRecord)
no_caches = record { local_cache = []; writes = [] }

abbrev bot : ApiKeyConsumer
bot = record {
  api_key_id = codes "1";
  public_id = codes "abc";
  key_name = codes "bot";
  rpm_limit = 60;
  max_sse_connections = 2;
}

abbrev sent : Text
sent = codes "eh_live_abc_s3"

resolve_run : (resolve crypto sources (some sent) no_caches).0 ≡ ok (api_key bot)
unfolding resolve lookup
resolve_run = refl

resolve-IsAdmitted_example :
    (key : ParsedOpaqueApiKey) × (parse_opaque_api_key sent ≡ some key)
    × ((r : ApiKeyCacheRecord) × Found crypto sources key no_caches r × IsAdmitted crypto key r bot)
resolve-IsAdmitted_example = resolve-IsAdmitted crypto sources sent no_caches bot resolve_run

resolve_fails_closed_example :
    ((resolve crypto sources (some sent) no_caches).0 ≢ ok anonymous)
    × ((resolve crypto sources (some sent) no_caches).0 ≡ service_unavailable
        → SomeCallThrew crypto sources)
resolve_fails_closed_example =
    resolve_fails_closed crypto sources b'e' (codes "h_live_abc_s3") no_caches

parse_opaque_api_key_iff_example :
    (parse_opaque_api_key sent ≡ some (record { public_id = codes "abc"; secret = codes "s3" })) ↔ (
      (sent ≡ api_key_prefix ++ (codes "abc" ++ (b'_' ∷ codes "s3")))
      × (contains b'_' (codes "abc") ≡ false)
      × (codes "abc" ≢ codes "")
      × (codes "s3" ≢ codes ""))
parse_opaque_api_key_iff_example =
    parse_opaque_api_key_iff sent (record { public_id = codes "abc"; secret = codes "s3" })

abbrev blank : Response
blank = record { status = none; error = none; headers = [] }

abbrev tried_too_often : Text
tried_too_often = codes "203.0.113.7"

require_api_key-IsAnswered_example :
    IsAnswered invalid_api_key
      (rate_limited (record { limit = 20; remaining = 0; reset = 160; retry_after = some 50 }))
      blank
      (require_api_key invalid_api_key
        (rate_limited (record { limit = 20; remaining = 0; reset = 160; retry_after = some 50 }))
        blank)
require_api_key-IsAnswered_example =
    require_api_key-IsAnswered invalid_api_key
      (rate_limited (record { limit = 20; remaining = 0; reset = 160; retry_after = some 50 }))
      blank

abbrev settings : Settings
settings = default_settings (some (codes "https://kuma.example/push?ping="))

abbrev fresh : Heartbeat
fresh = record {
  last_successful_enqueue_at = 0;
  enqueue_gap_alert_open = false;
  has_seen_successful_enqueue = false;
  is_scheduled = false;
  last_status_log_at = 0;
  last_kuma_push_at = 0;
  notices = [];
}

abbrev late_check : Check
late_check = record { now = 130000; since = 130000; push_url = none }

abbrev good_check : Check
good_check = record {
  now = 190000;
  since = 50000;
  push_url = some (codes "https://kuma.example/push?ping=50000");
}

abbrev beats_of_a_day : List Beat
beats_of_a_day =
    starts 0
    ∷ begins 130000
    ∷ ends late_check skipped
    ∷ marks 140000
    ∷ begins 190000
    ∷ ends good_check failed
    ∷ []

beats-IsTold_example : IsTold settings (beats settings beats_of_a_day fresh)
unfolding alert_behind
beats-IsTold_example = beats-IsTold settings beats_of_a_day fresh refl

abbrev seen : Heartbeat
seen = record fresh { last_successful_enqueue_at = 140000; has_seen_successful_enqueue = true }

push_target_run :
    push_target settings 190000 50000 seen ≡ some (codes "https://kuma.example/push?ping=50000")
unfolding push_target
push_target_run = refl

abbrev busy : QueueReading
busy = record { waiting = some 4000; active = some 3; delayed = none; oldest_timestamp = some 500 }

abbrev calm : QueueReading
calm = record { waiting = some 0; active = none; delayed = none; oldest_timestamp = none }

abbrev unmonitored : Backlog
unmonitored = record { backlog_alert_open = false; last_logged_state = none; notices = [] }

abbrev readings : List (ℕ × Option QueueReading)
readings = (1000, some busy) ∷ (2000, some busy) ∷ (3000, none) ∷ (4000, some calm) ∷ []

run_monitors-IsBacklogTold_example : IsBacklogTold (run_monitors readings unmonitored)
unfolding alert_behind
run_monitors-IsBacklogTold_example = run_monitors-IsBacklogTold readings unmonitored refl
