-- ===== src/Auth/Failures.antt =====
-- apps/api/src/auth/apiKeyResolver.ts: lemmas on the answers to failures.
use elitehub_vault.Base.{
  ℕ, Text, text_eq, nat_eq, ◌∷◌, Option, none, some, Bool, true, false, ◌≡◌, ◌≢◌, ◌⊎◌, refl, arith,
  if◌then◌else◌, Option-cases, Bool-cases, inl, inr,
}
use elitehub_vault.Auth.{
  ParsedOpaqueApiKey, parse_opaque_api_key, Crypto, ApiKeyCacheRecord, anonymous,
  ApiConsumerResolution, ok, invalid_api_key, service_unavailable, Reply, replied, threw, Sources,
  to_cache_key, to_negative_cache_key, Resolver, validate_record, cache_missing_public_id,
  cache_record, resolve_in_table, cached_record, resolve_in_redis, is_present, resolve_remotely,
  resolve_key, resolve,
}

module _ (crypto : Crypto) where
  module _ (sources : Sources) where
    -- Some call of Redis or of the table threw.
    abbrev pub SomeCallThrew : Type 0
    SomeCallThrew =
        ((k : Text) × (sources.get_cache_value k ≡ threw))
        ⊎ ((k : Text) × (sources.lookup_api_key_record k ≡ threw))

    validate_record-available :
        (r : ApiKeyCacheRecord) (hash : Text)
        → (validate_record crypto r hash ≢ service_unavailable)
          × (validate_record crypto r hash ≢ ok anonymous)
    unfolding validate_record
    validate_record-available r hash = (λ h. ground (arith, h), λ h. ground (arith, h))

    -- No answer but a refusal for a failure, and never the anonymous consumer.
    abbrev FailsClosed : ApiConsumerResolution → Type 0
    FailsClosed answer = (answer ≢ ok anonymous) × (answer ≡ service_unavailable → SomeCallThrew)

    validate-FailsClosed :
        (r : ApiKeyCacheRecord) (hash : Text) → FailsClosed (validate_record crypto r hash)
    validate-FailsClosed r hash =
        ((validate_record-available r hash).1, λ h. absurd ((validate_record-available r hash).0 h))

    resolve_in_table-FailsClosed :
        (key : ParsedOpaqueApiKey) (state : Resolver sources.Cache)
        → FailsClosed (resolve_in_table crypto sources key state).0
    unfolding resolve_in_table
    resolve_in_table-FailsClosed key state = go (sources.lookup_api_key_record key.public_id) refl
      where
        go :
            (reply : Reply (Option ApiKeyCacheRecord))
            → sources.lookup_api_key_record key.public_id ≡ reply
            → FailsClosed (resolve_in_table crypto sources key state).0
        go threw e = rw (e, resolve_in_table) ((λ h. ground arith), λ h. inr (key.public_id, e))
        go (replied none) e = rw (e, resolve_in_table) ((λ h. ground arith), λ h. ground arith)
        go (replied (some r)) e =
            rw (e, resolve_in_table)
              (chosen r.is_active
                (cache_record crypto sources r (record state {
                  local_cache = sources.local_set key.public_id r state.local_cache;
                }))
                (cache_missing_public_id crypto sources key.public_id state))
          where
            chosen :
                (active : Bool) (found missed : Resolver sources.Cache)
                → FailsClosed
                    (if◌then◌else◌ {A = ApiConsumerResolution × Resolver sources.Cache} active
                      (validate_record crypto r (crypto.hash_api_key_secret key.secret), found)
                      (invalid_api_key, missed)).0
            chosen true found missed =
                validate-FailsClosed r (crypto.hash_api_key_secret key.secret)
            chosen false found missed = ((λ h. ground arith), λ h. ground arith)

    resolve_in_redis-FailsClosed :
        (key : ParsedOpaqueApiKey) (state : Resolver sources.Cache)
        → FailsClosed (resolve_in_redis crypto sources key state).0
    unfolding resolve_in_redis
    resolve_in_redis-FailsClosed key state =
        go (sources.get_cache_value (to_cache_key key.public_id)) refl
      where
        go :
            (reply : Reply (Option Text))
            → sources.get_cache_value (to_cache_key key.public_id) ≡ reply
            → FailsClosed (resolve_in_redis crypto sources key state).0
        go threw e =
            rw (e, resolve_in_redis) ((λ h. ground arith), λ h. inl (to_cache_key key.public_id, e))
        go (replied value) e = elim (Option-cases (cached_record crypto sources value)) [
          | inl q ↦ rw (e, resolve_in_redis, q) (resolve_in_table-FailsClosed key state)
          | inr (r, q) ↦
              rw (e, resolve_in_redis, q)
                (validate-FailsClosed r (crypto.hash_api_key_secret key.secret))
        ]

    resolve_remotely-FailsClosed :
        (key : ParsedOpaqueApiKey) (state : Resolver sources.Cache)
        → FailsClosed (resolve_remotely crypto sources key state).0
    unfolding resolve_remotely
    resolve_remotely-FailsClosed key state =
        go (sources.get_cache_value (to_negative_cache_key key.public_id)) refl
      where
        go :
            (reply : Reply (Option Text))
            → sources.get_cache_value (to_negative_cache_key key.public_id) ≡ reply
            → FailsClosed (resolve_remotely crypto sources key state).0
        go threw e =
            rw (e, resolve_remotely)
              ((λ h. ground arith), λ h. inl (to_negative_cache_key key.public_id, e))
        go (replied value) e = elim (Bool-cases (is_present crypto sources value)) [
          | inl p ↦ rw (e, resolve_remotely, p) ((λ h. ground arith), λ h. ground arith)
          | inr p ↦ rw (e, resolve_remotely, p) (resolve_in_redis-FailsClosed key state)
        ]

    -- A text that is sent as an API key and is not empty never makes an anonymous consumer, and the
    -- answer that the service is unavailable is given only when a call of Redis or of the table
    -- threw.
    pub resolve_fails_closed :
        (c : ℕ) (raw : Text) (state : Resolver sources.Cache)
        → ((resolve crypto sources (some (c ∷ raw)) state).0 ≢ ok anonymous)
          × ((resolve crypto sources (some (c ∷ raw)) state).0 ≡ service_unavailable
              → SomeCallThrew)
    unfolding resolve resolve_key
    resolve_fails_closed c raw state = elim (Option-cases (parse_opaque_api_key (c ∷ raw))) [
      | inl e ↦ rw (e, resolve) ((λ h. ground arith), λ h. ground arith)
      | inr (key, e) ↦ elim (Option-cases (sources.local_get key.public_id state.local_cache)) [
        | inr (r, q) ↦
            rw (e, resolve, resolve_key, q)
              (validate-FailsClosed r (crypto.hash_api_key_secret key.secret))
        | inl q ↦ rw (e, resolve, resolve_key, q) (resolve_remotely-FailsClosed key state)
      ]
    ]
