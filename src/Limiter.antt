-- ===== src/Limiter.antt =====
-- apps/api/src/realtime/sse/connectionLimiter.ts: leases in Redis and the counters in memory.
pub mod Quota
pub mod Leases
pub mod Counting
use elitehub_vault.Base.{
  ℕ, suc, ◌+◌, ◌-◌, ◌*◌, ◌/◌, ◌++◌, Text, codes, text_eq, nat_eq, Option, none, some, Bool, true,
  false, ltb, leb, ◌==◌, if◌then◌else◌, Dict, lookup, insert, erase, or_else, strip_prefix, max,
}
use elitehub_vault.Redis.{SortedSets, Key, expire_at, missing, visible}

abbrev pub lease_ttl_ms : ℕ
lease_ttl_ms = 90000

-- `Math.ceil(LEASE_TTL_MS / 1000)`.
abbrev pub lease_ttl_seconds : ℕ
lease_ttl_seconds = (lease_ttl_ms + 999) / 1000

unfoldable pub lease_key : Text → Text
lease_key api_key_id = codes "sse:leases:" ++ api_key_id

-- The array that the acquire script returns.
pub record Acquired : Type 0 where
  pub flag : ℕ
  pub active : ℕ
  pub max : ℕ

pub record OpenQuotaDecision : Type 0 where
  pub ok : Bool
  pub active : ℕ
  pub max : ℕ

module _ (sets : SortedSets) where
  -- ACQUIRE_SCRIPT.
  unfoldable pub acquire_script : ℕ → ℕ → ℕ → Text → ℕ → Key sets.Z → Acquired × Key sets.Z
  unfolding visible
  acquire_script now expires_at max_connections lease ttl_seconds key =
      let found = visible sets now key in
      let pruned = sets.remove_up_to now found.members in
      let active = sets.card pruned in
      if leb max_connections active
      then (
        record { flag = 0; active = active; max = max_connections },
        record found { members = pruned },
      )
      else (
        record { flag = 1; active = active + 1; max = max_connections },
        record {
          members = sets.zadd expires_at lease pruned;
          deadline = expire_at now ttl_seconds;
        },
      )

  -- REFRESH_SCRIPT.
  unfoldable pub refresh_script : ℕ → ℕ → Text → ℕ → Key sets.Z → ℕ × Key sets.Z
  unfolding visible
  refresh_script now expires_at lease ttl_seconds key =
      let found = visible sets now key in
      let pruned = sets.remove_up_to now found.members in
      elim (sets.score_of lease pruned) [
        | none ↦ (0, record found { members = pruned })
        | some _ ↦ (
          1,
          record {
            members = sets.zadd expires_at lease pruned;
            deadline = expire_at now ttl_seconds;
          },
        )
      ]

  -- RELEASE_SCRIPT; it runs at `now` and has no use for the time itself.
  unfoldable pub release_script : ℕ → Text → Key sets.Z → Key sets.Z
  unfolding visible
  release_script now lease key =
      let found = visible sets now key in
      let rest = sets.zrem lease found.members in
      if sets.card rest == 0 then missing sets else record found { members = rest }

  -- The keys of Redis.
  abbrev pub Store : Type 0
  Store = Text → Key sets.Z

  abbrev pub set_key : Text → Key sets.Z → Store → Store
  set_key name key store other = if name == other then key else store other

  unfoldable pub try_open : ℕ → Text → Text → ℕ → Store → OpenQuotaDecision × Store
  unfolding acquire_script lease_key
  try_open now api_key_id lease max_connections store =
      let r =
        acquire_script now (now + lease_ttl_ms) max_connections lease lease_ttl_seconds
          (store (lease_key api_key_id)) in
      (
        record { ok = r.0.flag == 1; active = r.0.active; max = r.0.max },
        set_key (lease_key api_key_id) r.1 store,
      )

  unfoldable pub refresh_lease : ℕ → Text → Text → Store → Bool × Store
  unfolding refresh_script lease_key
  refresh_lease now api_key_id lease store =
      let r =
        refresh_script now (now + lease_ttl_ms) lease lease_ttl_seconds
          (store (lease_key api_key_id)) in
      (r.0 == 1, set_key (lease_key api_key_id) r.1 store)

  unfoldable pub release_lease : ℕ → Text → Text → Store → Store
  unfolding release_script lease_key
  release_lease now api_key_id lease store =
      set_key (lease_key api_key_id) (release_script now lease (store (lease_key api_key_id))) store

  -- Deletes every key that matches `sse:leases:*`.
  unfoldable pub clear_all_leases : Store → Store
  unfolding strip_prefix
  clear_all_leases store name = elim (strip_prefix (codes "sse:leases:") name) [
    | none ↦ store name
    | some _ ↦ missing sets
  ]

-- The counters of one process.
pub record Counters : Type 0 where
  pub active_by_api_key : Dict Text ℕ
  pub active_total : ℕ

unfoldable pub on_open : Text → Counters → Counters
unfolding lookup insert
on_open api_key_id c =
    let active = or_else (lookup api_key_id c.active_by_api_key) 0 in
    record {
      active_by_api_key = insert api_key_id (active + 1) c.active_by_api_key;
      active_total = c.active_total + 1;
    }

unfoldable pub on_close : Text → Counters → Counters
unfolding lookup insert erase
on_close api_key_id c =
    let active = or_else (lookup api_key_id c.active_by_api_key) 0 in
    if leb active 0 then c else record {
      active_by_api_key =
          if active - 1 == 0
          then erase api_key_id c.active_by_api_key
          else insert api_key_id (active - 1) c.active_by_api_key;
      active_total = max 0 (c.active_total - 1);
    }
