-- ===== src/RateLimiter/Headers.antt =====
-- apps/api/src/auth/apiRateLimiter.ts: the decision and the headers of a request.
use elitehub_vault.Base.{
  ◌⊎◌, ℕ, ◌+◌, ◌-◌, ◌*◌, ◌≤◌, ◌<◌, ◌≡◌, refl, ◌++◌, Text, codes, decimal, text_eq, nat_eq, none,
  some, true, false, arith, leb, or_else, max, Bool-cases, Option-cases, inl, inr,
}
use elitehub_vault.Redis.{SortedSets, Key, visible}
use elitehub_vault.RateLimiter.{
  RateLimitHeaders, RateLimitDecision, allowed, rate_limited, service_unavailable, window_ms,
  ceil_seconds, to_headers, prune, consume,
}

module _ (sets : SortedSets) where
  -- The requests of the window when a script runs.
  abbrev pub in_window : ℕ → Key sets.Z → sets.Z
  in_window now key = prune sets now (visible sets now key).members

  -- When the oldest request of a window leaves it.
  abbrev pub leaves_at : ℕ → sets.Z → ℕ
  leaves_at now z = or_else (sets.first_score z) now + window_ms

  -- The first full second at or after a time in milliseconds.
  abbrev pub IsSecondOf : ℕ → ℕ → Type 0
  IsSecondOf ms second = (ms ≤ second * 1000) × (second * 1000 < ms + 1000)

  -- What a decision says, given the number of requests that the window held: an allowed request is
  -- counted in what remains of the limit; a refused one has nothing remaining and a time to wait, of a
  -- second at least, after which the oldest request has left the window, and no second more. Both are
  -- told the second by which the oldest request has left the window.
  abbrev pub Truthful : ℕ → ℕ → Text → Key sets.Z → RateLimitDecision → Type 0
  Truthful now limit member key (allowed h) =
      (h.limit ≡ limit)
      × (h.remaining + sets.card (in_window now key) + 1 ≡ limit)
      × (h.retry_after ≡ none)
      × IsSecondOf (leaves_at now (sets.zadd now member (in_window now key))) h.reset
  Truthful now limit member key (rate_limited h) =
      (limit ≤ sets.card (in_window now key))
      × (h.limit ≡ limit)
      × (h.remaining ≡ 0)
      × ((r : ℕ) × (h.retry_after ≡ some r)
          × (1 ≤ r)
          × (leaves_at now (in_window now key) ≤ now + r * 1000)
          × ((r ≡ 1) ⊎ (now + r * 1000 < leaves_at now (in_window now key) + 1000)))
      × IsSecondOf (leaves_at now (in_window now key)) h.reset
  Truthful now limit member key service_unavailable = ⊥

  -- When Redis answers, the decision is an allowance exactly where the window has room, its headers
  -- give the limit, what remains of it once the request is counted, and as the reset the first full
  -- second at which the oldest request of the window has left it. A refusal comes with the time to wait
  -- for that, in full seconds, rounded up and one at least.
  pub consume-Truthful :
      (now limit : ℕ) (member_id : Text) (key : Key sets.Z)
      → Truthful now limit
          (decimal now ++ (codes ":" ++ member_id))
          key
          (consume sets true now member_id limit key).0
  unfolding consume
  consume-Truthful now limit member_id key =
      elim (Bool-cases (leb limit (sets.card (in_window now key)))) [
        | inl e ↦ rw e (
          ground arith,
          refl,
          refl,
          (_, refl, omega arith, omega arith, ground arith),
          (omega arith, omega arith),
        )
        | inr e ↦ rw e (refl, ground arith, refl, (omega arith, omega arith))
      ]

  -- What is in the window later was in it before.
  later_count :
      (later bound : ℕ) (z : sets.Z)
      → sets.card z ≤ bound
      → 0 < bound
      → ((s : ℕ) → sets.first_score z ≡ some s → (window_ms ≤ later) × (s ≤ later - window_ms))
      → sets.card (prune sets later z) < bound
  unfolding prune
  later_count later bound z h pos left = elim (Option-cases (sets.first_score z)) [
    | inl e ↦
        ground (arith, sets.card-first_score z e, sets.card-remove_up_to-le (later - window_ms) z)
    | inr (s, e) ↦
        let (m, found) = sets.first_score_member z s e in
        let gone = left s e in
        ground
          (arith, gone.0, gone.1, sets.card-remove_up_to-lt (later - window_ms) s m z found gone.1)
  ]

  consume_lets_in :
      (now limit : ℕ) (member_id : Text) (key : Key sets.Z)
      → sets.card (in_window now key) < limit
      → (h : RateLimitHeaders) × ((consume sets true now member_id limit key).0 ≡ allowed h)
  unfolding consume
  consume_lets_in now limit member_id key h =
      let e : leb limit (sets.card (in_window now key)) ≡ false = ground arith in
      let member = decimal now ++ (codes ":" ++ member_id) in
      let added = sets.zadd now member (in_window now key) in
      (
        to_headers
            (record {
              allowed = true;
              count = sets.card (in_window now key) + 1;
              oldest_timestamp_ms = or_else (sets.first_score added) now;
            })
            limit now false,
        rw e refl,
      )

  consume_refused :
      (now limit : ℕ) (member_id : Text) (key : Key sets.Z) (h : RateLimitHeaders)
      → (consume sets true now member_id limit key).0 ≡ rate_limited h
      → ((consume sets true now member_id limit key).1
          ≡ record { members = in_window now key; deadline = (visible sets now key).deadline })
        × (h.retry_after
            ≡ some (
                max 1 (
                  ceil_seconds
                    (or_else (sets.first_score (in_window now key)) now + window_ms - now))))
  unfolding consume
  consume_refused now limit member_id key h refused =
      elim (Bool-cases (leb limit (sets.card (in_window now key)))) [
        | inl e ↦ (rw e refl, ground arith)
        | inr e ↦ absurd (ground arith)
      ]

  card-prune-le : (now : ℕ) (z : sets.Z) → sets.card (prune sets now z) ≤ sets.card z
  unfolding prune
  card-prune-le now z = ground (arith, sets.card-remove_up_to-le (now - window_ms) z)

  later_window :
      (later limit : ℕ) (key : Key sets.Z)
      → 0 < limit
      → sets.card key.members ≤ limit
      → ((s : ℕ)
          → sets.first_score key.members ≡ some s
          → (window_ms ≤ later) × (s ≤ later - window_ms))
      → sets.card (in_window later key) < limit
  unfolding visible
  later_window later limit key pos full left = ground (
    arith,
    sets.card-empty,
    card-prune-le later sets.empty,
    later_count later limit key.members full pos left,
  )

  -- A client that is refused and comes back no earlier than it was told is let in, if nobody has
  -- used the same key in between and the key held no more requests than the limit.
  pub retry_allowed :
      (now later limit r : ℕ) (first second : Text) (key : Key sets.Z) (h : RateLimitHeaders)
      → 0 < limit
      → sets.card (in_window now key) ≤ limit
      → (consume sets true now first limit key).0 ≡ rate_limited h
      → h.retry_after ≡ some r
      → now + r * 1000 ≤ later
      → (h' : RateLimitHeaders) × ((consume sets true later second limit
            (consume sets true now first limit key).1).0
          ≡ allowed h')
  retry_allowed now later limit r first second key h pos full refused told waited =
      let (state, wait) = consume_refused now limit first key h refused in
      rw state (
        consume_lets_in later limit second _
          (later_window later limit _ pos full (λ s e. ground (arith, e, wait, told, waited))))
