-- ===== src/Auth/Resolution.antt =====
-- apps/api/src/auth/apiKeyResolver.ts: lemmas on who is let in.
use elitehub_vault.Base.{
  Text, text_eq, nat_eq, [], ◌∷◌, Option, none, some, true, ◌≡◌, ◌⊎◌, refl, arith, Option-cases,
  Bool-cases, inl, inr,
}
use elitehub_vault.Auth.{
  ParsedOpaqueApiKey, parse_opaque_api_key, Crypto, ApiKeyCacheRecord, ApiKeyConsumer, api_key, ok,
  Reply, replied, threw, Sources, to_cache_key, to_negative_cache_key, Resolver,
  timing_safe_equal_hex, validate_record, resolve_in_table, cached_record, resolve_in_redis,
  is_present, resolve_remotely, resolve_key, resolve,
}

module _ (crypto : Crypto) where
  -- The consumer of an active record whose stored hash has the bytes of the secret's digest.
  pub record IsAdmitted (key : ParsedOpaqueApiKey) (r : ApiKeyCacheRecord) (c : ApiKeyConsumer)
      : Type 0 where
    pub active : r.is_active ≡ true
    pub hash :
        crypto.buffer_from (crypto.hash_api_key_secret key.secret)
        ≡ crypto.buffer_from r.secret_hash
    pub api_key_id : c.api_key_id ≡ r.api_key_id
    pub public_id : c.public_id ≡ r.public_id
    pub rpm_limit : c.rpm_limit ≡ r.rpm_limit
    pub max_sse_connections : c.max_sse_connections ≡ r.max_sse_connections

  timing_safe_equal_hex_sound :
      (a b : Text)
      → timing_safe_equal_hex crypto a b ≡ true
      → crypto.buffer_from a ≡ crypto.buffer_from b
  unfolding timing_safe_equal_hex
  timing_safe_equal_hex_sound a b h =
      ground (arith, h, crypto.timing_safe_equal_iff (crypto.buffer_from a) (crypto.buffer_from b))

  validate_record_sound :
      (key : ParsedOpaqueApiKey) (r : ApiKeyCacheRecord) (c : ApiKeyConsumer)
      → validate_record crypto r (crypto.hash_api_key_secret key.secret) ≡ ok (api_key c)
      → IsAdmitted key r c
  unfolding validate_record
  validate_record_sound key r c h =
      ground (
        arith,
        h,
        timing_safe_equal_hex_sound (crypto.hash_api_key_secret key.secret) r.secret_hash,
      )

  module _ (sources : Sources) where
    -- Where a record was found.
    abbrev pub Found : ParsedOpaqueApiKey → Resolver sources.Cache → ApiKeyCacheRecord → Type 0
    Found key state r =
        (sources.local_get key.public_id state.local_cache ≡ some r)
        ⊎ ((value : Option Text) × (sources.get_cache_value (to_cache_key key.public_id)
              ≡ replied value)
            × (cached_record crypto sources value ≡ some r))
        ⊎ (sources.lookup_api_key_record key.public_id ≡ replied (some r))

    resolve_in_table_sound :
        (key : ParsedOpaqueApiKey) (state : Resolver sources.Cache) (c : ApiKeyConsumer)
        → (resolve_in_table crypto sources key state).0 ≡ ok (api_key c)
        → (r : ApiKeyCacheRecord) × Found key state r × IsAdmitted key r c
    unfolding resolve_in_table
    resolve_in_table_sound key state c h = go (sources.lookup_api_key_record key.public_id) refl
      where
        go :
            (reply : Reply (Option ApiKeyCacheRecord))
            → sources.lookup_api_key_record key.public_id ≡ reply
            → (r : ApiKeyCacheRecord) × Found key state r × IsAdmitted key r c
        go threw e = absurd (ground (arith, e, h))
        go (replied none) e = absurd (ground (arith, e, h))
        go (replied (some r)) e =
            (r, inr (inr e), ground (arith, e, h, validate_record_sound key r c))

    resolve_in_redis_sound :
        (key : ParsedOpaqueApiKey) (state : Resolver sources.Cache) (c : ApiKeyConsumer)
        → (resolve_in_redis crypto sources key state).0 ≡ ok (api_key c)
        → (r : ApiKeyCacheRecord) × Found key state r × IsAdmitted key r c
    unfolding resolve_in_redis
    resolve_in_redis_sound key state c h =
        go (sources.get_cache_value (to_cache_key key.public_id)) refl
      where
        go :
            (reply : Reply (Option Text))
            → sources.get_cache_value (to_cache_key key.public_id) ≡ reply
            → (r : ApiKeyCacheRecord) × Found key state r × IsAdmitted key r c
        go threw e = absurd (ground (arith, e, h))
        go (replied value) e = elim (Option-cases (cached_record crypto sources value)) [
          | inl q ↦ resolve_in_table_sound key state c (ground (arith, e, q, h))
          | inr (r, q) ↦
              (r, inr (inl (value, e, q)), validate_record_sound key r c (ground (arith, e, q, h)))
        ]

    resolve_key_sound :
        (key : ParsedOpaqueApiKey) (state : Resolver sources.Cache) (c : ApiKeyConsumer)
        → (resolve_key crypto sources key state).0 ≡ ok (api_key c)
        → (r : ApiKeyCacheRecord) × Found key state r × IsAdmitted key r c
    unfolding resolve_key resolve_remotely
    resolve_key_sound key state c h =
        elim (Option-cases (sources.local_get key.public_id state.local_cache)) [
          | inr (r, e) ↦ (r, inl e, validate_record_sound key r c (ground (arith, e, h)))
          | inl e ↦ go (sources.get_cache_value (to_negative_cache_key key.public_id)) refl e
        ]
      where
        go :
            (reply : Reply (Option Text))
            → sources.get_cache_value (to_negative_cache_key key.public_id) ≡ reply
            → sources.local_get key.public_id state.local_cache ≡ none
            → (r : ApiKeyCacheRecord) × Found key state r × IsAdmitted key r c
        go threw q e = absurd (ground (arith, e, q, h))
        go (replied value) q e = elim (Bool-cases (is_present crypto sources value)) [
          | inl p ↦ absurd (ground (arith, e, q, p, h))
          | inr p ↦ resolve_in_redis_sound key state c (ground (arith, e, q, p, h))
        ]

    -- Whoever is taken for the holder of an API key sent a text that parses as one, and an active
    -- record of that key's public id, from the local cache, Redis or the table, stores the hash of
    -- the secret that was sent; the limits are those of that record.
    pub resolve-IsAdmitted :
        (raw : Text) (state : Resolver sources.Cache) (c : ApiKeyConsumer)
        → (resolve crypto sources (some raw) state).0 ≡ ok (api_key c)
        → (key : ParsedOpaqueApiKey) × (parse_opaque_api_key raw ≡ some key)
          × ((r : ApiKeyCacheRecord) × Found key state r × IsAdmitted key r c)
    unfolding resolve
    resolve-IsAdmitted [] state c h = absurd (ground arith)
    resolve-IsAdmitted (d ∷ raw) state c h = elim (Option-cases (parse_opaque_api_key (d ∷ raw))) [
      | inl e ↦ absurd (ground (arith, e, h))
      | inr (key, e) ↦ (key, e, resolve_key_sound key state c (ground (arith, e, h)))
    ]
