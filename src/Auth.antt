-- ===== src/Auth.antt =====
-- apps/api/src/auth/apiKeyCrypto.ts and apiKeyResolver.ts: who sends a request.
pub mod Keys
pub mod Resolution
pub mod Failures
pub mod Middleware
use elitehub_vault.Base.{
  ℕ, Text, codes, text_eq, nat_eq, nat_beq, List, [], ◌∷◌, ◌++◌, Option, none, some, Bool, true,
  false, ◌≡◌, ◌↔◌, ◌==◌, not, ◌||◌, length, if◌then◌else◌, strip_prefix,
}

abbrev pub api_key_prefix : Text
api_key_prefix = codes "eh_live_"

pub record ParsedOpaqueApiKey : Type 0 where
  pub public_id : Text
  pub secret : Text

-- The parts before and behind the first underscore.
unfoldable pub split_underscore : Text → Option (Text × Text)
split_underscore [] = none
split_underscore (c ∷ s) =
    let rest = split_underscore s in
    if nat_beq c b'_'
    then some ([], s)
    else (elim rest [ none ↦ none | some (before, behind) ↦ some (c ∷ before, behind) ])

-- Both parts are to hold something.
unfoldable pub parsed_parts : Text → Text → Option ParsedOpaqueApiKey
parsed_parts [] secret = none
parsed_parts (c ∷ id) [] = none
parsed_parts (c ∷ id) (d ∷ secret) = some (record { public_id = c ∷ id; secret = d ∷ secret })

unfoldable pub parse_opaque_api_key : Text → Option ParsedOpaqueApiKey
unfolding strip_prefix split_underscore parsed_parts
parse_opaque_api_key value = elim (strip_prefix api_key_prefix value) [
  | none ↦ none
  | some payload ↦ elim (split_underscore payload) [
    | none ↦ none
    | some (public_id, secret) ↦ parsed_parts public_id secret
  ]
]

-- What node:crypto and Buffer do here: the digest of a secret under the pepper, the bytes of a
-- string, and `timingSafeEqual`, which compares buffers of one length.
pub record Crypto : Type 0 where
  pub hash_api_key_secret : Text → Text
  pub buffer_from : Text → List ℕ
  pub timing_safe_equal : List ℕ → List ℕ → Bool
  pub timing_safe_equal_iff :
      (a b : List ℕ) → length a ≡ length b → (timing_safe_equal a b ≡ true) ↔ (a ≡ b)

pub record ApiKeyCacheRecord : Type 0 where
  pub api_key_id : Text
  pub public_id : Text
  pub key_name : Text
  pub secret_hash : Text
  pub rpm_limit : ℕ
  pub max_sse_connections : ℕ
  pub is_active : Bool

pub record ApiKeyConsumer : Type 0 where
  pub api_key_id : Text
  pub public_id : Text
  pub key_name : Text
  pub rpm_limit : ℕ
  pub max_sse_connections : ℕ

pub data ApiConsumer : Type 0 where
  anonymous : ApiConsumer
  api_key : ApiKeyConsumer → ApiConsumer

pub data ApiConsumerResolution : Type 0 where
  ok : ApiConsumer → ApiConsumerResolution
  invalid_api_key service_unavailable : ApiConsumerResolution

-- What a call of Redis or Postgres comes to.
pub data Reply (A : Type 0) : Type 0 where
  replied : A → Reply A
  threw : Reply A

-- The caches and the table. `local_get` and `local_set` are the LRU cache's, which forgets entries
-- when it likes; `parse_record` is `JSON.parse`, with `none` when it throws.
pub record Sources : Type 1 where
  pub Cache : Type 0
  pub local_get : Text → Cache → Option ApiKeyCacheRecord
  pub local_set : Text → ApiKeyCacheRecord → Cache → Cache
  pub get_cache_value : Text → Reply (Option Text)
  pub lookup_api_key_record : Text → Reply (Option ApiKeyCacheRecord)
  pub parse_record : Text → Option ApiKeyCacheRecord
  pub stringify_record : ApiKeyCacheRecord → Text

abbrev pub redis_positive_ttl_seconds : ℕ
redis_positive_ttl_seconds = 300

abbrev pub redis_negative_ttl_seconds : ℕ
redis_negative_ttl_seconds = 45

unfoldable pub to_cache_key : Text → Text
to_cache_key public_id = codes "api-key:meta:" ++ public_id

unfoldable pub to_negative_cache_key : Text → Text
to_negative_cache_key public_id = codes "api-key:missing:" ++ public_id

-- An attempt to write to Redis; its failure is only logged.
pub record CacheWrite : Type 0 where
  pub key : Text
  pub value : Text
  pub ttl_seconds : ℕ

pub record Resolver (C : Type 0) : Type 0 where
  pub local_cache : C
  pub writes : List CacheWrite

module _ (crypto : Crypto) where
  unfoldable pub timing_safe_equal_hex : Text → Text → Bool
  timing_safe_equal_hex input expected =
      if length (crypto.buffer_from input) == length (crypto.buffer_from expected)
      then crypto.timing_safe_equal (crypto.buffer_from input) (crypto.buffer_from expected)
      else false

  unfoldable pub validate_record : ApiKeyCacheRecord → Text → ApiConsumerResolution
  unfolding timing_safe_equal_hex
  validate_record r computed_secret_hash =
      if not r.is_active || not (timing_safe_equal_hex computed_secret_hash r.secret_hash)
      then invalid_api_key
      else ok (
          api_key (record {
            api_key_id = r.api_key_id;
            public_id = r.public_id;
            key_name = r.key_name;
            rpm_limit = r.rpm_limit;
            max_sse_connections = r.max_sse_connections;
          }))

  module _ (sources : Sources) where
    unfoldable pub cache_missing_public_id : Text → Resolver sources.Cache → Resolver sources.Cache
    unfolding to_negative_cache_key
    cache_missing_public_id public_id state = record state {
      writes =
          state.writes
          ++ (record {
            key = to_negative_cache_key public_id;
            value = codes "1";
            ttl_seconds = redis_negative_ttl_seconds;
          }
              ∷ []);
    }

    unfoldable pub cache_record :
        ApiKeyCacheRecord → Resolver sources.Cache → Resolver sources.Cache
    unfolding to_cache_key
    cache_record r state = record state {
      writes =
          state.writes
          ++ (record {
            key = to_cache_key r.public_id;
            value = sources.stringify_record r;
            ttl_seconds = redis_positive_ttl_seconds;
          }
              ∷ []);
    }

    -- The part of `resolve` from the call of the table on.
    unfoldable pub resolve_in_table :
        ParsedOpaqueApiKey → Resolver sources.Cache → ApiConsumerResolution × Resolver sources.Cache
    unfolding validate_record cache_missing_public_id cache_record
    resolve_in_table key state = elim (sources.lookup_api_key_record key.public_id) [
      | threw ↦ (service_unavailable, state)
      | replied none ↦ (invalid_api_key, cache_missing_public_id key.public_id state)
      | replied (some r) ↦
          if r.is_active
          then (
            validate_record r (crypto.hash_api_key_secret key.secret),
            cache_record r (record state {
              local_cache = sources.local_set key.public_id r state.local_cache;
            }),
          )
          else (invalid_api_key, cache_missing_public_id key.public_id state)
    ]

    -- A value that is the empty string counts as none.
    unfoldable pub cached_record : Option Text → Option ApiKeyCacheRecord
    cached_record none = none
    cached_record (some []) = none
    cached_record (some (c ∷ s)) = sources.parse_record (c ∷ s)

    -- The part behind the negative cache.
    unfoldable pub resolve_in_redis :
        ParsedOpaqueApiKey → Resolver sources.Cache → ApiConsumerResolution × Resolver sources.Cache
    unfolding to_cache_key resolve_in_table cached_record
    resolve_in_redis key state = elim (sources.get_cache_value (to_cache_key key.public_id)) [
      | threw ↦ (service_unavailable, state)
      | replied value ↦ elim (cached_record value) [
        | none ↦ resolve_in_table key state
        | some r ↦ (
          validate_record r (crypto.hash_api_key_secret key.secret),
          record state { local_cache = sources.local_set key.public_id r state.local_cache },
        )
      ]
    ]

    abbrev pub is_present : Option Text → Bool
    is_present (some (c ∷ s)) = true
    is_present other = false

    -- The part behind the local cache.
    unfoldable pub resolve_remotely :
        ParsedOpaqueApiKey → Resolver sources.Cache → ApiConsumerResolution × Resolver sources.Cache
    unfolding to_negative_cache_key resolve_in_redis
    resolve_remotely key state =
        elim (sources.get_cache_value (to_negative_cache_key key.public_id)) [
          | threw ↦ (service_unavailable, state)
          | replied value ↦
              if is_present value then (invalid_api_key, state) else resolve_in_redis key state
        ]

    -- The part behind the parser.
    unfoldable pub resolve_key :
        ParsedOpaqueApiKey → Resolver sources.Cache → ApiConsumerResolution × Resolver sources.Cache
    unfolding validate_record resolve_remotely
    resolve_key key state = elim (sources.local_get key.public_id state.local_cache) [
      | some r ↦ (validate_record r (crypto.hash_api_key_secret key.secret), state)
      | none ↦ resolve_remotely key state
    ]

    unfoldable pub resolve :
        Option Text → Resolver sources.Cache → ApiConsumerResolution × Resolver sources.Cache
    unfolding parse_opaque_api_key resolve_key
    resolve none state = (ok anonymous, state)
    resolve (some []) state = (ok anonymous, state)
    resolve (some (c ∷ raw)) state = elim (parse_opaque_api_key (c ∷ raw)) [
      | none ↦ (invalid_api_key, state)
      | some key ↦ resolve_key key state
    ]
