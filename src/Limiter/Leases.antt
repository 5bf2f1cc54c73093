-- ===== src/Limiter/Leases.antt =====
-- apps/api/src/realtime/sse/connectionLimiter.ts: a single lease under the calls of others.
use mathlib.Core.Path.{subst}
use elitehub_vault.Base.{
  ℕ, ◌+◌, ◌≤◌, ◌<◌, ◌≡◌, ◌≢◌, ◌↔◌, refl, sym, Text, text_eq, nat_eq, none, true, false, arith, ◌==◌,
  ==_iff, Bool-cases, inl, inr, or_else, contains, All, List, [], ◌∷◌, ==_refl, ◌&&◌,
}
use elitehub_vault.Redis.{SortedSets, Key, visible}
use elitehub_vault.Limiter.{
  lease_ttl_ms, lease_ttl_seconds, lease_key, acquire_script, refresh_script, release_script, Store,
  set_key, try_open, refresh_lease, release_lease,
}
use elitehub_vault.Limiter.Quota.{
  live, Call, opens, refreshes, releases, clears, step, run, lease_key-eq,
}

module _ (sets : SortedSets) where
  -- The lease is there, with a score and a key that both last until a time.
  pub record IsHeld (until : ℕ) (lease : Text) (key : Key sets.Z) : Type 0 where
    pub score : until ≤ or_else (sets.score_of lease key.members) 0
    pub present : sets.score_of lease key.members ≢ none
    pub deadline : until ≤ or_else key.deadline until

  -- A refresh says yes exactly when the lease is among the live ones.
  pub refresh_script_iff :
      (now expires_at ttl : ℕ) (lease : Text) (key : Key sets.Z)
      → ((refresh_script sets now expires_at lease ttl key).0 ≡ 1)
        ↔ (sets.score_of lease (live sets now key) ≢ none)
  unfolding refresh_script
  refresh_script_iff now expires_at ttl lease key = ground arith

  acquire-IsHeld :
      (now until limit : ℕ) (other lease : Text) (key : Key sets.Z)
      → now < until
      → until ≤ now + lease_ttl_ms
      → IsHeld until lease key
      → IsHeld until lease
          (acquire_script sets now (now + lease_ttl_ms) limit other lease_ttl_seconds key).1
  unfolding acquire_script visible
  acquire-IsHeld now until limit other lease key alive term h = ground (
    arith,
    sets.score_of-zadd (now + lease_ttl_ms) other lease (live sets now key),
    sets.score_of-remove_up_to now lease key.members,
  )

  refresh-IsHeld :
      (now until : ℕ) (other lease : Text) (key : Key sets.Z)
      → now < until
      → until ≤ now + lease_ttl_ms
      → IsHeld until lease key
      → IsHeld until lease
          (refresh_script sets now (now + lease_ttl_ms) other lease_ttl_seconds key).1
  unfolding refresh_script visible
  refresh-IsHeld now until other lease key alive term h = ground (
    arith,
    sets.score_of-zadd (now + lease_ttl_ms) other lease (live sets now key),
    sets.score_of-remove_up_to now lease key.members,
  )

  card_of_member : (lease : Text) (z : sets.Z) → sets.score_of lease z ≢ none → 1 ≤ sets.card z
  unfolding contains
  card_of_member lease z h = sets.length-le-card (lease ∷ []) z (refl, tt) (h, tt)

  release-IsHeld :
      (now until : ℕ) (other lease : Text) (key : Key sets.Z)
      → now < until
      → (other == lease) ≡ false
      → IsHeld until lease key
      → IsHeld until lease (release_script sets now other key)
  unfolding release_script visible
  release-IsHeld now until other lease key alive ne h = ground (
    arith,
    sets.score_of-zrem other lease key.members,
    card_of_member lease (sets.zrem other key.members),
  )

  -- A lease that was just granted is held for its term, and so is one that a refresh found.
  pub acquired-IsHeld :
      (now limit : ℕ) (lease : Text) (key : Key sets.Z)
      → (acquire_script sets now (now + lease_ttl_ms) limit lease lease_ttl_seconds key).0.flag ≡ 1
      → IsHeld
          (now + lease_ttl_ms)
          lease
          (acquire_script sets now (now + lease_ttl_ms) limit lease lease_ttl_seconds key).1
  unfolding acquire_script
  acquired-IsHeld now limit lease key h = ground (
    arith,
    sets.score_of-zadd (now + lease_ttl_ms) lease lease (live sets now key),
    ==_refl lease,
  )

  refreshed-IsHeld :
      (now : ℕ) (lease : Text) (key : Key sets.Z)
      → (refresh_script sets now (now + lease_ttl_ms) lease lease_ttl_seconds key).0 ≡ 1
      → IsHeld
          (now + lease_ttl_ms)
          lease
          (refresh_script sets now (now + lease_ttl_ms) lease lease_ttl_seconds key).1
  unfolding refresh_script
  refreshed-IsHeld now lease key h = ground (
    arith,
    sets.score_of-zadd (now + lease_ttl_ms) lease lease (live sets now key),
    ==_refl lease,
  )

  -- A held lease is live: the next refresh in time finds it.
  held_is_live :
      (now until : ℕ) (lease : Text) (key : Key sets.Z)
      → now < until
      → IsHeld until lease key
      → sets.score_of lease (live sets now key) ≢ none
  unfolding visible
  held_is_live now until lease key alive h =
      λ e. ground (arith, sets.score_of-remove_up_to now lease key.members, h.present)

  -- A call at a time within the term that does not give the lease back.
  abbrev pub Spares : ℕ → Text → Text → Call → Type 0
  Spares until id lease (opens now j other) = (now < until) × (until ≤ now + lease_ttl_ms)
  Spares until id lease (refreshes now j other) = (now < until) × (until ≤ now + lease_ttl_ms)
  Spares until id lease (releases now j other) =
      (now < until) × (((j == id) && (other == lease)) ≡ false)
  Spares until id lease clears = ⊥

  module _ (limit_of : Text → ℕ) where
    set_key-IsHeld :
        (until : ℕ) (id j lease : Text) (key : Key sets.Z) (store : Store sets)
        → ((j == id) ≡ true → IsHeld until lease key)
        → IsHeld until lease (store (lease_key id))
        → IsHeld until lease (set_key sets (lease_key j) key store (lease_key id))
    set_key-IsHeld until id j lease key store hit miss = elim (Bool-cases (j == id)) [
      | inl e ↦ rw (lease_key-eq j id, e) (hit e)
      | inr e ↦ rw (lease_key-eq j id, e) miss
    ]

    same_key :
        (until : ℕ) (id j lease : Text) (store : Store sets)
        → (j == id) ≡ true
        → IsHeld until lease (store (lease_key id))
        → IsHeld until lease (store (lease_key j))
    same_key until id j lease store e h =
        subst (λ i. IsHeld until lease (store (lease_key i))) (sym ((==_iff j id).0 e)) h

    step-IsHeld :
        (until : ℕ) (id lease : Text) (c : Call) (store : Store sets)
        → Spares until id lease c
        → IsHeld until lease (store (lease_key id))
        → IsHeld until lease (step sets limit_of c store (lease_key id))
    unfolding step try_open refresh_lease release_lease
    step-IsHeld until id lease (opens now j other) store s h =
        set_key-IsHeld until id j lease _ store
          (λ e.
            acquire-IsHeld now until (limit_of j) other lease (store (lease_key j)) s.0 s.1
              (same_key until id j lease store e h))
          h
    step-IsHeld until id lease (refreshes now j other) store s h =
        set_key-IsHeld until id j lease _ store
          (λ e.
            refresh-IsHeld now until other lease (store (lease_key j)) s.0 s.1
              (same_key until id j lease store e h))
          h
    step-IsHeld until id lease (releases now j other) store s h =
        set_key-IsHeld until id j lease _ store
          (λ e.
            release-IsHeld now until other lease (store (lease_key j)) s.0 (ground arith)
              (same_key until id j lease store e h))
          h
    step-IsHeld until id lease clears store s h = absurd s

    run-IsHeld :
        (until : ℕ) (id lease : Text) (cs : List Call) (store : Store sets)
        → All (Spares until id lease) cs
        → IsHeld until lease (store (lease_key id))
        → IsHeld until lease (run sets limit_of cs store (lease_key id))
    unfolding run
    run-IsHeld until id lease [] store s h = h
    run-IsHeld until id lease (c ∷ cs) store s h =
        run-IsHeld until id lease cs (step sets limit_of c store) s.1
          (step-IsHeld until id lease c store s.0 h)

    granted-IsHeld :
        (start limit : ℕ) (id lease : Text) (store : Store sets)
        → (try_open sets start id lease limit store).0.ok ≡ true
        → IsHeld
            (start + lease_ttl_ms)
            lease
            ((try_open sets start id lease limit store).1 (lease_key id))
    unfolding try_open
    granted-IsHeld start limit id lease store granted =
        rw (lease_key-eq id id, ==_refl id)
          (acquired-IsHeld start limit lease (store (lease_key id)) (ground arith))

    -- A lease that was granted outlives everything that happens within its term, whichever calls
    -- other connections make, as long as nobody gives it back or clears all leases: a refresh within the term succeeds.
    pub granted_lease_refreshes :
        (start now limit : ℕ) (id lease : Text) (cs : List Call) (store : Store sets)
        → (try_open sets start id lease limit store).0.ok ≡ true
        → All (Spares (start + lease_ttl_ms) id lease) cs
        → now < start + lease_ttl_ms
        → (refresh_lease sets now id lease
            (run sets limit_of cs (try_open sets start id lease limit store).1)).0
          ≡ true
    unfolding refresh_lease
    granted_lease_refreshes start now limit id lease cs store granted s before =
        let after = run sets limit_of cs (try_open sets start id lease limit store).1 in
        (==_iff _ 1).1 (
          (refresh_script_iff now (now + lease_ttl_ms) lease_ttl_seconds lease
              (after (lease_key id))).1
            (held_is_live now (start + lease_ttl_ms) lease (after (lease_key id)) before (
              run-IsHeld (start + lease_ttl_ms) id lease cs
                (try_open sets start id lease limit store).1 s
                (granted-IsHeld start limit id lease store granted))))
