-- ===== src/Relay.antt =====
-- apps/api/src/realtime/eventOutboxRelay.ts: outbox rows are published to Redis and deleted.
-- Postgres and Redis are parameters. A call of either may throw: the n-th call of a run succeeds if
-- `accepts n`; BEGIN and COMMIT are calls too. What a transaction did is undone when its body or its
-- COMMIT throws, what Redis published is not.
pub mod Routed
pub mod Steps
pub mod Preparation
pub mod Delivery
use elitehub_vault.Base.{
  ℕ, suc, ◌+◌, ◌≤◌, ◌≡◌, Text, codes, List, [], ◌∷◌, ◌++◌, Option, none, some, Bool, true, false,
  not, length, keep, ◌==◌, text_eq, nat_eq, if◌then◌else◌,
}
use elitehub_vault.Contracts.{EventType, event_name, system_powerplay_updated, Platform}
use elitehub_vault.Contracts.Payloads.{Payload}
use elitehub_vault.Contracts.Targets.{Target, build_publish_targets_for_outbox_row}
use elitehub_vault.Registry.{event_type_in, event_types}

pub record OutboxRow (J D : Type 0) : Type 0 where
  pub id : Text
  pub event_type : Text
  pub payload : J
  pub created_at : D

-- The tables as the relay's statements see them: the batch of `fetchBatch`, the deletion by id and
-- the powers of a system. The laws are those of `select … limit` and of `delete … where id = …`.
pub record OutboxDb (J D : Type 0) : Type 1 where
  pub Db : Type 0
  pub rows : Db → List (OutboxRow J D)
  pub power_ids : Db → Text → List Text
  pub fetch_batch : ℕ → Db → List (OutboxRow J D)
  pub delete_row : Text → Db → Db
  pub length-fetch_batch-le : (n : ℕ) (db : Db) → length (fetch_batch n db) ≤ n
  pub rows-delete_row :
      (id : Text) (db : Db) → rows (delete_row id db) ≡ keep (λ row. not (row.id == id)) (rows db)
  pub power_ids-delete_row :
      (id : Text) (db : Db) (system_id : Text)
      → power_ids (delete_row id db) system_id ≡ power_ids db system_id

-- The `reason` of a discarded row.
pub data DiscardReason : Type 0 where
  unknown_event_type invalid_payload invalid_powerplay_payload no_mapped_powers : DiscardReason

-- `RowHandlingResult`.
pub data RowHandling (J N : Type 0) : Type 0 where
  publish : List (Target J N) → RowHandling J N
  discard : DiscardReason → RowHandling J N

-- The result of `resolvePowerIds`.
pub data PowerIds : Type 0 where
  resolved : Option (List Text) → PowerIds
  refused : DiscardReason → PowerIds

-- Tables, what Redis has published, the discards that were logged, and the calls made so far.
pub record World (Db : Type 0) : Type 0 where
  pub db : Db
  pub published : List (Text × Text)
  pub logged : List (Text × DiscardReason)
  pub calls : ℕ

-- A step that may throw (`none`).
abbrev pub M : Type 0 → Type 0 → Type 0
M S A = S → Option A × S

infixl 5 ◌>>=◌ ◌>>◌
abbrev pub ◌>>=◌ : {S A B : Type 0} → M S A → (A → M S B) → M S B
◌>>=◌ m f s = let r = m s in elim r.0 [ none ↦ (none, r.1) | some a ↦ f a r.1 ]

abbrev pub ◌>>◌ : {S B : Type 0} → M S (Unit {0}) → M S B → M S B
◌>>◌ m k s = let r = m s in elim r.0 [ none ↦ (none, r.1) | some _ ↦ k r.1 ]

abbrev pub return : {S A : Type 0} → A → M S A
return a s = (some a, s)

abbrev pub batch_size : ℕ
batch_size = 100

abbrev pub idle_delay_ms : ℕ
idle_delay_ms = 250

abbrev pub error_delay_ms : ℕ
error_delay_ms = 1000

-- No discard is silent but that of a system without mapped powers.
unfoldable pub should_log : DiscardReason → Bool
should_log no_mapped_powers = false
should_log reason = true

-- The fields of the class that the loop reads.
pub record RelayLoop : Type 0 where
  pub is_running : Bool
  pub should_stop : Bool
  pub had_recent_error : Bool

unfoldable pub start : RelayLoop → RelayLoop
start l = if l.is_running then l else record l { is_running = true; should_stop = false }

-- The two halves of `stop`: before and after the wait for the loop.
unfoldable pub request_stop : RelayLoop → RelayLoop
request_stop l = if l.is_running then record l { should_stop = true } else l

unfoldable pub finish_stop : RelayLoop → RelayLoop
finish_stop l = if l.is_running then record l { is_running = false } else l

-- What `prepareRowForPublishing` makes of the targets.
unfoldable pub handling : {J N : Type 0} → Option (List (Target J N)) → RowHandling J N
handling none = discard unknown_event_type
handling (some []) = discard invalid_payload
handling (some (t ∷ ts)) = publish (t ∷ ts)

-- The part of `prepareRowForPublishing` behind the resolved powers.
unfoldable pub handle_powers :
    {J N D : Type 0} → Platform J N D → OutboxRow J D → PowerIds → RowHandling J N
unfolding handling event_type_in
handle_powers platform row (refused reason) = discard reason
handle_powers platform row (resolved ids) = handling (
    build_publish_targets_for_outbox_row platform (event_type_in event_types row.event_type)
      row.payload row.created_at ids)

-- The end of `resolvePowerIds`: a system without mapped powers is discarded.
unfoldable pub power_ids_result : List Text → PowerIds
power_ids_result [] = refused no_mapped_powers
power_ids_result (p ∷ ps) = resolved (some (p ∷ ps))

module _ {J N D : Type 0} (platform : Platform J N D) (outbox : OutboxDb J D)
    (stringify : Payload J N → Text) (accepts : ℕ → Bool) where
  -- A call of Postgres or Redis.
  unfoldable pub call : M (World outbox.Db) (Unit {0})
  call w = (if accepts w.calls then some tt else none, record w { calls = suc w.calls })

  unfoldable pub publish_targets : List (Target J N) → M (World outbox.Db) (Unit {0})
  unfolding call
  publish_targets [] w = (some tt, w)
  publish_targets (target ∷ rest) w =
      let done = record (call w).1 {
        published = w.published ++ ((target.channel, stringify target.payload) ∷ []);
      } in
      let later = publish_targets rest done in if accepts w.calls then later else (none, (call w).1)

  unfoldable pub delete_outbox_row : Text → M (World outbox.Db) (Unit {0})
  unfolding call
  delete_outbox_row id = do call; λ w. (some tt, record w { db = outbox.delete_row id w.db })

  unfoldable pub resolve_power_ids : OutboxRow J D → M (World outbox.Db) PowerIds
  unfolding call power_ids_result
  resolve_power_ids row w =
      if row.event_type == event_name system_powerplay_updated
      then (elim (platform.parse_powerplay row.payload) [
        | none ↦ (some (refused invalid_powerplay_payload), w)
        | some parsed ↦
            (call >>= λ _ v. (some (power_ids_result (outbox.power_ids v.db parsed.system_id)), v))
              w
      ])
      else (some (resolved none), w)

  unfoldable pub prepare_row_for_publishing : OutboxRow J D → M (World outbox.Db) (RowHandling J N)
  unfolding handle_powers resolve_power_ids
  prepare_row_for_publishing row = do
    ids ← resolve_power_ids row
    return (handle_powers platform row ids)

  unfoldable pub log_discard : OutboxRow J D → DiscardReason → M (World outbox.Db) (Unit {0})
  unfolding should_log
  log_discard row reason w = (
    some tt,
    if should_log reason then record w { logged = w.logged ++ ((row.id, reason) ∷ []) } else w,
  )

  unfoldable pub finish_row : OutboxRow J D → RowHandling J N → M (World outbox.Db) (Unit {0})
  unfolding log_discard publish_targets delete_outbox_row
  finish_row row (discard reason) = do log_discard row reason; delete_outbox_row row.id
  finish_row row (publish targets) = do publish_targets targets; delete_outbox_row row.id

  unfoldable pub process_row : OutboxRow J D → M (World outbox.Db) (Unit {0})
  unfolding prepare_row_for_publishing finish_row
  process_row row = do result ← prepare_row_for_publishing row; finish_row row result

  unfoldable pub process_rows : List (OutboxRow J D) → M (World outbox.Db) (Unit {0})
  unfolding process_row
  process_rows [] = return tt
  process_rows (row ∷ rest) = do process_row row; process_rows rest

  -- `processBatch` behind the call of `fetchBatch`.
  unfoldable pub process_fetched : M (World outbox.Db) ℕ
  unfolding process_rows
  process_fetched = do
    rows ← λ w. (some (outbox.fetch_batch batch_size w.db), w)
    process_rows rows
    return (length rows)

  unfoldable pub process_batch : M (World outbox.Db) ℕ
  unfolding call process_fetched
  process_batch = do call; process_fetched

  -- The callback of `db.transaction`, behind BEGIN.
  unfoldable pub begin_transaction : M (World outbox.Db) ℕ
  unfolding call process_batch
  begin_transaction = do call; process_batch

  -- The end of `db.transaction`: a body that threw, or a COMMIT that is not accepted, leaves the tables
  -- as they were.
  unfoldable pub end_transaction :
      {A : Type 0} → outbox.Db → Option A × World outbox.Db → Option A × World outbox.Db
  end_transaction before (none, w) = (none, record w { db = before })
  end_transaction before (some a, w) =
      if accepts w.calls
      then (some a, record w { calls = suc w.calls })
      else (none, record w { db = before; calls = suc w.calls })

  -- The end of a round of the `while`: the flags and the time that it sleeps.
  unfoldable pub end_round :
      RelayLoop → Option ℕ × World outbox.Db → RelayLoop × ℕ × World outbox.Db
  end_round l (none, w) = (record l { had_recent_error = true }, error_delay_ms, w)
  end_round l (some n, w) =
      (record l { had_recent_error = false }, if n == 0 then idle_delay_ms else 0, w)

  unfoldable pub round : RelayLoop → World outbox.Db → RelayLoop × ℕ × World outbox.Db
  unfolding begin_transaction end_transaction end_round
  round l w = end_round l (end_transaction w.db (begin_transaction w))
