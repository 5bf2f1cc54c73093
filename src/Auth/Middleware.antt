-- ===== src/Auth/Middleware.antt =====
-- apps/api/src/middleware/auth/requireApiKey.ts: the answers to requests that are not let in.
use elitehub_vault.Base.{
  ℕ, Text, codes, List, ◌++◌, Option, none, some, Bool, true, false, ◌≡◌, ◌⊎◌, refl, inl, inr,
}
use elitehub_vault.Auth.{
  ApiKeyConsumer, ApiConsumer, anonymous, api_key, ApiConsumerResolution, ok, invalid_api_key,
  service_unavailable,
}
use elitehub_vault.RateLimiter.{
  RateLimitHeaders, RateLimitDecision, allowed, rate_limited, apply_rate_limit_headers,
}

-- What the handlers set on the context; `error` is that field of the body.
pub record Response : Type 0 where
  pub status : Option ℕ
  pub error : Option Text
  pub headers : List (Text × Text)

unfoldable pub set_rate_limit_headers : RateLimitHeaders → Response → Response
unfolding apply_rate_limit_headers
set_rate_limit_headers headers ctx = record ctx {
  headers = ctx.headers ++ apply_rate_limit_headers headers;
}

unfoldable pub respond_with_rate_limit_error : Response → Response
respond_with_rate_limit_error ctx = record ctx {
  status = some 429;
  error = some (codes "rate_limit_exceeded");
}

unfoldable pub respond_with_service_unavailable : Response → Response
respond_with_service_unavailable ctx = record ctx {
  status = some 503;
  error = some (codes "service_unavailable");
}

unfoldable pub respond_with_unauthorized : Response → Response
respond_with_unauthorized ctx = record ctx {
  status = some 401;
  error = some (codes "Unauthorized");
}

-- `attempt` is what the limiter answers for the address of the request.
unfoldable pub respond_with_invalid_api_key : RateLimitDecision → Response → Response
unfolding respond_with_service_unavailable respond_with_rate_limit_error set_rate_limit_headers
    respond_with_unauthorized
respond_with_invalid_api_key RateLimitDecision.service_unavailable ctx =
    respond_with_service_unavailable ctx
respond_with_invalid_api_key (rate_limited headers) ctx =
    respond_with_rate_limit_error (set_rate_limit_headers headers ctx)
respond_with_invalid_api_key (allowed headers) ctx =
    respond_with_unauthorized (set_rate_limit_headers headers ctx)

unfoldable pub resolve_api_consumer :
    ApiConsumerResolution → RateLimitDecision → Response → Option ApiConsumer × Response
unfolding respond_with_service_unavailable respond_with_invalid_api_key
resolve_api_consumer service_unavailable attempt ctx = (none, respond_with_service_unavailable ctx)
resolve_api_consumer invalid_api_key attempt ctx = (none, respond_with_invalid_api_key attempt ctx)
resolve_api_consumer (ok consumer) attempt ctx = (some consumer, ctx)

unfoldable pub require_api_key :
    ApiConsumerResolution → RateLimitDecision → Response → Option ApiKeyConsumer × Response
unfolding resolve_api_consumer respond_with_unauthorized
require_api_key resolution attempt ctx =
    let r = resolve_api_consumer resolution attempt ctx in
    elim r.0 [
      | none ↦ (none, r.1)
      | some consumer ↦ elim consumer [
        | anonymous ↦ (none, respond_with_unauthorized r.1)
        | api_key c ↦ (some c, r.1)
      ]
    ]

unfoldable pub respond_with_rate_limit_decision : RateLimitDecision → Response → Bool × Response
unfolding respond_with_service_unavailable respond_with_rate_limit_error set_rate_limit_headers
respond_with_rate_limit_decision (allowed headers) ctx = (true, set_rate_limit_headers headers ctx)
respond_with_rate_limit_decision (rate_limited headers) ctx =
    (false, respond_with_rate_limit_error (set_rate_limit_headers headers ctx))
respond_with_rate_limit_decision RateLimitDecision.service_unavailable ctx =
    (false, respond_with_service_unavailable ctx)

-- Let in without a word, or answered with one of three statuses: 401 only where no key was sent or a bad
-- one from an address that the limiter has allowed, 429 only for a bad key from an address that it has
-- refused, 503 only where the resolver failed, or the limiter on a bad key.
abbrev pub IsAnswered :
    ApiConsumerResolution → RateLimitDecision → Response → Option ApiKeyConsumer × Response → Type 0
IsAnswered resolution attempt ctx r =
    ((c : ApiKeyConsumer) × (resolution ≡ ok (api_key c)) × (r ≡ (some c, ctx)))
    ⊎ ((r.0 ≡ none)
        × (((r.1.status ≡ some 401)
              × ((resolution ≡ ok anonymous)
                  ⊎ ((resolution ≡ invalid_api_key)
                      × ((h : RateLimitHeaders) × (attempt ≡ allowed h)))))
            ⊎ ((r.1.status ≡ some 429)
                × (resolution ≡ invalid_api_key)
                × ((h : RateLimitHeaders) × (attempt ≡ rate_limited h)))
            ⊎ ((r.1.status ≡ some 503)
                × ((resolution ≡ service_unavailable)
                    ⊎ ((resolution ≡ invalid_api_key)
                        × (attempt ≡ RateLimitDecision.service_unavailable))))))

-- A request is let in exactly as the holder of the key that was resolved, and its response is left
-- as it was. Any other request is answered: with 401 where no key was sent or an invalid one from an
-- address that the limiter has allowed, with 429 for an invalid key from an address that it has refused,
-- and with 503 where the resolver was not available, or the limiter for an invalid key.
pub require_api_key-IsAnswered :
    (resolution : ApiConsumerResolution) (attempt : RateLimitDecision) (ctx : Response)
    → IsAnswered resolution attempt ctx (require_api_key resolution attempt ctx)
unfolding require_api_key
require_api_key-IsAnswered service_unavailable attempt ctx = inr (refl, inr (inr (refl, inl refl)))
require_api_key-IsAnswered invalid_api_key RateLimitDecision.service_unavailable ctx =
    inr (refl, inr (inr (refl, inr (refl, refl))))
require_api_key-IsAnswered invalid_api_key (rate_limited h) ctx =
    inr (refl, inr (inl (refl, refl, (h, refl))))
require_api_key-IsAnswered invalid_api_key (allowed h) ctx =
    inr (refl, inl (refl, inr (refl, (h, refl))))
require_api_key-IsAnswered (ok anonymous) attempt ctx = inr (refl, inl (refl, inl refl))
require_api_key-IsAnswered (ok (api_key c)) attempt ctx = inl (c, refl, refl)
