-- ===== src/RateLimiter.antt =====
-- apps/api/src/auth/apiRateLimiter.ts: a sliding window in Redis for each consumer.
pub mod Headers
pub mod Window
use elitehub_vault.Base.{
  ℕ, suc, ◌+◌, ◌-◌, ◌*◌, ◌/◌, ◌++◌, Text, codes, decimal, text_eq, nat_eq, List, [], ◌∷◌, Option,
  none, some, Bool, true, false, ltb, leb, ◌==◌, if◌then◌else◌, or_else, max,
}
use elitehub_vault.Redis.{SortedSets, Key, expire_at, missing, visible}

abbrev pub anonymous_graphql_requests_per_minute : ℕ
anonymous_graphql_requests_per_minute = 30

abbrev pub invalid_api_key_attempts_per_minute : ℕ
invalid_api_key_attempts_per_minute = 20

abbrev pub sse_connect_attempts_per_minute : ℕ
sse_connect_attempts_per_minute = 20

abbrev pub window_seconds : ℕ
window_seconds = 60

abbrev pub window_ms : ℕ
window_ms = window_seconds * 1000

abbrev pub key_ttl_seconds : ℕ
key_ttl_seconds = window_seconds + 5

pub record RateLimitHeaders : Type 0 where
  pub limit : ℕ
  pub remaining : ℕ
  pub reset : ℕ
  pub retry_after : Option ℕ

pub data RateLimitDecision : Type 0 where
  allowed : RateLimitHeaders → RateLimitDecision
  rate_limited : RateLimitHeaders → RateLimitDecision
  service_unavailable : RateLimitDecision

-- The array that the script returns, and `SlidingWindowResult`.
pub record WindowReply : Type 0 where
  pub flag : ℕ
  pub count : ℕ
  pub oldest : ℕ

pub record WindowResult : Type 0 where
  pub allowed : Bool
  pub count : ℕ
  pub oldest_timestamp_ms : ℕ

abbrev pub ceil_seconds : ℕ → ℕ
ceil_seconds ms = (ms + 999) / 1000

unfoldable pub to_headers : WindowResult → ℕ → ℕ → Bool → RateLimitHeaders
to_headers result limit now include_retry_after =
    let reset_at_ms = result.oldest_timestamp_ms + window_ms in
    record {
      limit = limit;
      remaining = if result.allowed then max (limit - result.count) 0 else 0;
      reset = ceil_seconds reset_at_ms;
      retry_after =
          if include_retry_after then some (max 1 (ceil_seconds (reset_at_ms - now))) else none;
    }

-- The headers that `applyRateLimitHeaders` sets.
unfoldable pub apply_rate_limit_headers : RateLimitHeaders → List (Text × Text)
unfolding decimal
apply_rate_limit_headers headers =
    (codes "X-RateLimit-Limit", decimal headers.limit)
    ∷ (codes "X-RateLimit-Remaining", decimal headers.remaining)
    ∷ (codes "X-RateLimit-Reset", decimal headers.reset)
    ∷ (if or_else headers.retry_after 0 == 0
        then []
        else (codes "Retry-After", decimal (or_else headers.retry_after 0)) ∷ [])

module _ (sets : SortedSets) where
  -- ZREMRANGEBYSCORE key -inf (now - WINDOW_MS): a negative bound removes nothing.
  unfoldable pub prune : ℕ → sets.Z → sets.Z
  prune now z = if ltb now window_ms then z else sets.remove_up_to (now - window_ms) z

  -- SLIDING_WINDOW_SCRIPT.
  unfoldable pub sliding_window_script : ℕ → ℕ → Text → ℕ → Key sets.Z → WindowReply × Key sets.Z
  unfolding visible prune
  sliding_window_script now limit member ttl_seconds key =
      let found = visible sets now key in
      let pruned = prune now found.members in
      let count = sets.card pruned in
      let added = sets.zadd now member pruned in
      if leb limit count
      then (
        record { flag = 0; count = count; oldest = or_else (sets.first_score pruned) now },
        record found { members = pruned },
      )
      else (
        record { flag = 1; count = count + 1; oldest = or_else (sets.first_score added) now },
        record { members = added; deadline = expire_at now ttl_seconds },
      )

  -- What `consume` makes of the script's reply.
  unfoldable pub decide : ℕ → ℕ → WindowReply → RateLimitDecision
  unfolding to_headers
  decide now limit reply =
      let result : WindowResult = record {
        allowed = reply.flag == 1;
        count = reply.count;
        oldest_timestamp_ms = reply.oldest;
      } in
      if reply.flag == 1
      then allowed (to_headers result limit now false)
      else rate_limited (to_headers result limit now true)

  -- `available` is false when the call of Redis throws.
  unfoldable pub consume : Bool → ℕ → Text → ℕ → Key sets.Z → RateLimitDecision × Key sets.Z
  unfolding sliding_window_script decide
  consume available now member_id limit key =
      let member = decimal now ++ (codes ":" ++ member_id) in
      let r = sliding_window_script now limit member key_ttl_seconds key in
      if available then (decide now limit r.0, r.1) else (service_unavailable, key)

-- The keys and the limits of the four consumers.
unfoldable pub anonymous_graphql_key : Text → Text × ℕ
anonymous_graphql_key ip_address =
    (codes "graphql:anon:" ++ ip_address, anonymous_graphql_requests_per_minute)

unfoldable pub authenticated_graphql_key : Text → ℕ → Text × ℕ
authenticated_graphql_key api_key_id limit = (codes "graphql:key:" ++ api_key_id, limit)

unfoldable pub invalid_api_key_attempt_key : Text → Text × ℕ
invalid_api_key_attempt_key ip_address =
    (codes "auth:invalid:" ++ ip_address, invalid_api_key_attempts_per_minute)

unfoldable pub sse_connect_key : Text → Text × ℕ
sse_connect_key api_key_id = (codes "sse:connect:" ++ api_key_id, sse_connect_attempts_per_minute)
