-- ===== src/Auth/Keys.antt =====
-- apps/api/src/auth/apiKeyCrypto.ts: the form of an API key.
use elitehub_vault.Base.{
  Text, nat_beq, [], ◌∷◌, ◌++◌, some, false, ◌≡◌, ◌≢◌, ◌↔◌, refl, arith, strip_prefix,
  strip_prefix_sound, Option-cases, Bool-cases, inl, inr, contains, nat_eq,
}
use elitehub_vault.Auth.{
  api_key_prefix, ParsedOpaqueApiKey, split_underscore, parsed_parts, parse_opaque_api_key,
}

split_underscore-append :
    (id secret : Text)
    → contains b'_' id ≡ false
    → split_underscore (id ++ (b'_' ∷ secret)) ≡ some (id, secret)
unfolding split_underscore contains
split_underscore-append [] secret h = refl
split_underscore-append (c ∷ id) secret h = ground (arith, split_underscore-append id secret)

split_underscore_sound :
    (s id secret : Text)
    → split_underscore s ≡ some (id, secret)
    → (s ≡ id ++ (b'_' ∷ secret)) × (contains b'_' id ≡ false)
unfolding split_underscore contains
split_underscore_sound [] id secret h = absurd (ground arith)
split_underscore_sound (c ∷ s) id secret h = elim (Bool-cases (nat_beq c b'_')) [
  | inl e ↦ ground (arith, e, h)
  | inr e ↦ elim (Option-cases (split_underscore s)) [
    | inl q ↦ absurd (ground (arith, e, q, h))
    | inr ((before, behind), q) ↦ ground (arith, e, q, h, split_underscore_sound s before behind q)
  ]
]

parsed_parts_sound :
    (id secret : Text) (key : ParsedOpaqueApiKey)
    → parsed_parts id secret ≡ some key
    → (key.public_id ≡ id) × (key.secret ≡ secret) × (id ≢ []) × (secret ≢ [])
unfolding parsed_parts
parsed_parts_sound [] secret key h = absurd (ground arith)
parsed_parts_sound (c ∷ id) [] key h = absurd (ground arith)
parsed_parts_sound (c ∷ id) (d ∷ secret) key h = ground arith

parsed_parts_complete :
    (key : ParsedOpaqueApiKey)
    → key.public_id ≢ []
    → key.secret ≢ []
    → parsed_parts key.public_id key.secret ≡ some key
unfolding parsed_parts
parsed_parts_complete key h g = ground arith

parse_sound :
    (value : Text) (key : ParsedOpaqueApiKey)
    → parse_opaque_api_key value ≡ some key
    → (value ≡ api_key_prefix ++ (key.public_id ++ (b'_' ∷ key.secret)))
      × (contains b'_' key.public_id ≡ false)
      × (key.public_id ≢ [])
      × (key.secret ≢ [])
unfolding parse_opaque_api_key
parse_sound value key h = elim (Option-cases (strip_prefix api_key_prefix value)) [
  | inl e ↦ absurd (ground (arith, e, h))
  | inr (payload, e) ↦ elim (Option-cases (split_underscore payload)) [
    | inl q ↦ absurd (ground (arith, e, q, h))
    | inr ((id, secret), q) ↦ ground (
      arith,
      e,
      q,
      h,
      strip_prefix_sound api_key_prefix value payload e,
      split_underscore_sound payload id secret q,
      parsed_parts_sound id secret key,
    )
  ]
]

parse_complete :
    (value : Text) (key : ParsedOpaqueApiKey)
    → (value ≡ api_key_prefix ++ (key.public_id ++ (b'_' ∷ key.secret)))
      × (contains b'_' key.public_id ≡ false)
      × (key.public_id ≢ [])
      × (key.secret ≢ [])
    → parse_opaque_api_key value ≡ some key
unfolding parse_opaque_api_key
parse_complete value key (e, c, i, s) =
    rw (e, split_underscore-append key.public_id key.secret c) (parsed_parts_complete key i s)

-- A text parses as an API key exactly when it is the prefix, the public id, an underscore and the
-- secret, with neither part empty and no underscore in the public id.
pub parse_opaque_api_key_iff :
    (value : Text) (key : ParsedOpaqueApiKey)
    → (parse_opaque_api_key value ≡ some key) ↔ (
        (value ≡ api_key_prefix ++ (key.public_id ++ (b'_' ∷ key.secret)))
        × (contains b'_' key.public_id ≡ false)
        × (key.public_id ≢ [])
        × (key.secret ≢ []))
unfolding parse_opaque_api_key
parse_opaque_api_key_iff value key = (parse_sound value key, parse_complete value key)
