-- ===== src/Limiter/Quota.antt =====
-- apps/api/src/realtime/sse/connectionLimiter.ts: runs of lease calls and the number of leases.
use mathlib.Core.Path.{subst}
use elitehub_vault.Base.{
  ℕ, suc, ◌+◌, ◌≤◌, ◌≡◌, refl, Text, text_eq, nat_eq, List, [], ◌∷◌, arith, ltb, ◌==◌, ==_iff,
  if◌then◌else◌, Bool-cases, inl, inr,
}
use elitehub_vault.Redis.{SortedSets, Key, visible}
use elitehub_vault.Limiter.{
  lease_ttl_ms, lease_ttl_seconds, lease_key, acquire_script, refresh_script, release_script, Store,
  set_key, try_open, refresh_lease, release_lease, clear_all_leases,
}

pub lease_key-eq : (i j : Text) → (lease_key i == lease_key j) ≡ (i == j)
unfolding lease_key
lease_key-eq i j = refl

-- What the API does to the leases, each at its own time.
pub data Call : Type 0 where
  opens : ℕ → Text → Text → Call
  refreshes : ℕ → Text → Text → Call
  releases : ℕ → Text → Text → Call
  clears : Call

module _ (sets : SortedSets) where
  -- The leases that have not expired when a script runs.
  abbrev pub live : ℕ → Key sets.Z → sets.Z
  live now key = sets.remove_up_to now (visible sets now key).members

  -- The decision says yes exactly when the live leases are below the limit, and reports how many
  -- there are then.
  pub try_open_decision :
      (now : ℕ) (id lease : Text) (limit : ℕ) (store : Store sets)
      → let count = sets.card (live now (store (lease_key id))) in
        (try_open sets now id lease limit store).0 ≡ record {
          ok = ltb count limit;
          active = if ltb count limit then suc count else count;
          max = limit;
        }
  unfolding try_open acquire_script
  try_open_decision now id lease limit store = ground arith

  acquire-card-le :
      (now expires_at limit ttl : ℕ) (lease : Text) (key : Key sets.Z)
      → sets.card key.members ≤ limit
      → sets.card (acquire_script sets now expires_at limit lease ttl key).1.members ≤ limit
  unfolding acquire_script visible
  acquire-card-le now expires_at limit ttl lease key h = ground (
    arith,
    sets.card-empty,
    sets.card-zadd-le expires_at lease (live now key),
    sets.card-remove_up_to-le now key.members,
    sets.card-remove_up_to-le now sets.empty,
  )

  refresh-card-le :
      (now expires_at ttl : ℕ) (lease : Text) (key : Key sets.Z)
      → sets.card (refresh_script sets now expires_at lease ttl key).1.members
        ≤ sets.card key.members
  unfolding refresh_script visible
  refresh-card-le now expires_at ttl lease key = ground (
    arith,
    sets.card-empty,
    sets.card-zadd_old expires_at lease (live now key),
    sets.card-remove_up_to-le now key.members,
    sets.card-remove_up_to-le now sets.empty,
  )

  release-card-le :
      (now : ℕ) (lease : Text) (key : Key sets.Z)
      → sets.card (release_script sets now lease key).members ≤ sets.card key.members
  unfolding release_script visible
  release-card-le now lease key = ground (
    arith,
    sets.card-empty,
    sets.card-zrem-le lease key.members,
    sets.card-zrem-le lease sets.empty,
  )

  module _ (limit_of : Text → ℕ) where
    unfoldable pub step : Call → Store sets → Store sets
    step (opens now id lease) store = (try_open sets now id lease (limit_of id) store).1
    step (refreshes now id lease) store = (refresh_lease sets now id lease store).1
    step (releases now id lease) store = release_lease sets now id lease store
    step clears store = clear_all_leases sets store

    unfoldable pub run : List Call → Store sets → Store sets
    run [] store = store
    run (c ∷ cs) store = run cs (step c store)

    abbrev pub IsWithinQuota : Store sets → Type 0
    IsWithinQuota store = (id : Text) → sets.card (store (lease_key id)).members ≤ limit_of id

    set_key-IsWithinQuota :
        (id : Text) (key : Key sets.Z) (store : Store sets)
        → sets.card key.members ≤ limit_of id
        → IsWithinQuota store
        → IsWithinQuota (set_key sets (lease_key id) key store)
    set_key-IsWithinQuota id key store h w j = elim (Bool-cases (id == j)) [
      | inl e ↦
          rw (lease_key-eq id j, e)
            (subst (λ i. sets.card key.members ≤ limit_of i) ((==_iff id j).0 e) h)
      | inr e ↦ rw (lease_key-eq id j, e) (w j)
    ]

    step-IsWithinQuota :
        (c : Call) (store : Store sets) → IsWithinQuota store → IsWithinQuota (step c store)
    unfolding step try_open refresh_lease release_lease clear_all_leases
    step-IsWithinQuota (opens now id lease) store w =
        set_key-IsWithinQuota id _ store
          (acquire-card-le now (now + lease_ttl_ms) (limit_of id) lease_ttl_seconds lease
            (store (lease_key id)) (w id))
          w
    step-IsWithinQuota (refreshes now id lease) store w =
        set_key-IsWithinQuota id _ store
          (omega (
            arith,
            w id,
            refresh-card-le now (now + lease_ttl_ms) lease_ttl_seconds lease (store (lease_key id)),
          ))
          w
    step-IsWithinQuota (releases now id lease) store w =
        set_key-IsWithinQuota id _ store
          (omega (arith, w id, release-card-le now lease (store (lease_key id)))) w
    step-IsWithinQuota clears store w = λ id. unfold lease_key in omega (arith, sets.card-empty)

    -- From a store in which every API key is within its limit: whatever the calls, their order and
    -- their times, no API key has more leases in Redis than its limit.
    pub run-IsWithinQuota :
        (cs : List Call) (store : Store sets) → IsWithinQuota store → IsWithinQuota (run cs store)
    unfolding run
    run-IsWithinQuota [] store w = w
    run-IsWithinQuota (c ∷ cs) store w =
        run-IsWithinQuota cs (step c store) (step-IsWithinQuota c store w)
