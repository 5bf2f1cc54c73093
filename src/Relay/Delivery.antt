-- ===== src/Relay/Delivery.antt =====
-- apps/api/src/realtime/eventOutboxRelay.ts: batches and rounds.
use mathlib.Core.Path.{subst, subst₂, ap₂}
use mathlib.Core.Option.{some-injective}
use mathlib.Core.List.{append-nil}
use elitehub_vault.Base.{
  ℕ, Text, List, [], ◌∷◌, ◌++◌, Option, none, some, ◌≡◌, refl, sym, ap, ◌∙◌, ◌⊎◌, inl, inr, arith,
  length, keep-keep, keep-congr, keep_all, ◌==◌, ==_iff, Option-cases, not, contains, keep, map,
  text_eq, nat_eq, suc, Bool-cases, if◌then◌else◌, Bool, true, false,
}
use elitehub_vault.Contracts.{Platform}
use elitehub_vault.Contracts.Payloads.{Payload}
use elitehub_vault.Relay.{
  OutboxRow, OutboxDb, World, RowHandling, call, prepare_row_for_publishing, finish_row,
  process_row, process_rows, process_batch, process_fetched, begin_transaction, end_transaction,
  end_round, batch_size, RelayLoop, round, idle_delay_ms, error_delay_ms,
}
use elitehub_vault.Relay.Steps.{
  Sends, Sends-seq, Sends-later, powers_of, row_messages, messages_of, >>_ended, >>_thrown,
}
use elitehub_vault.Relay.Preparation.{handled_targets, Prepares, prepare-Prepares, finish_row-Sends}

module _ {J N D : Type 0} (platform : Platform J N D) (outbox : OutboxDb J D)
    (stringify : Payload J N → Text) where
  -- What a list of rows is to be published as, in order.
  abbrev pub batch_messages : outbox.Db → List (OutboxRow J D) → List (Text × Text)
  batch_messages db [] = []
  batch_messages db (row ∷ rest) =
      row_messages platform outbox stringify db row ++ batch_messages db rest

  abbrev pub delete_rows : outbox.Db → List (OutboxRow J D) → outbox.Db
  delete_rows db [] = db
  delete_rows db (row ∷ rest) = delete_rows (outbox.delete_row row.id db) rest

  -- A deletion does not change what the other rows are published as.
  row_messages-delete_row :
      (db : outbox.Db) (id : Text) (row : OutboxRow J D)
      → row_messages platform outbox stringify (outbox.delete_row id db) row
        ≡ row_messages platform outbox stringify db row
  row_messages-delete_row db id row = elim (Option-cases (platform.parse_powerplay row.payload)) [
    | inl e ↦ rw (e, powers_of)
    | inr (parsed, e) ↦ rw (e, powers_of, outbox.power_ids-delete_row)
  ]

  batch_messages-delete_row :
      (db : outbox.Db) (id : Text) (rows : List (OutboxRow J D))
      → batch_messages (outbox.delete_row id db) rows ≡ batch_messages db rows
  batch_messages-delete_row db id [] = refl
  batch_messages-delete_row db id (row ∷ rest) =
      ap₂ ◌++◌ (row_messages-delete_row db id row) (batch_messages-delete_row db id rest)

  abbrev pub not_in_batch : List (OutboxRow J D) → OutboxRow J D → Bool
  not_in_batch batch row = not (contains row.id (map (λ r. r.id) batch))

  -- After the deletions exactly the rows with another id are left.
  rows-delete_rows :
      (db : outbox.Db) (batch : List (OutboxRow J D))
      → outbox.rows (delete_rows db batch) ≡ keep (not_in_batch batch) (outbox.rows db)
  unfolding contains
  rows-delete_rows db [] = sym (keep_all (outbox.rows db))
  rows-delete_rows db (row ∷ rest) =
      rows-delete_rows (outbox.delete_row row.id db) rest
      ∙ ap (keep (not_in_batch rest)) (outbox.rows-delete_row row.id db)
      ∙ keep-keep (not_in_batch rest) (λ r. not (r.id == row.id)) (outbox.rows db)
      ∙ keep-congr _ (not_in_batch (row ∷ rest)) (outbox.rows db)
          (λ r. ground (arith, ==_iff r.id row.id, ==_iff row.id r.id))

  module _ (accepts : ℕ → Bool) where
    process_row-Sends :
        (row : OutboxRow J D) (w : World outbox.Db)
        → Sends accepts w
            (process_row platform outbox stringify accepts row w)
            (row_messages platform outbox stringify w.db row)
            (outbox.delete_row row.id w.db)
    unfolding process_row
    process_row-Sends row w =
        go (prepare_row_for_publishing platform outbox stringify accepts row w)
          (prepare-Prepares platform outbox stringify accepts row w)
      where
        go :
            (r : Option (RowHandling J N) × World outbox.Db)
            → Prepares platform outbox stringify accepts row w r
            → Sends accepts w
                (elim r.0 [
                  | none ↦ (none, r.1)
                  | some a ↦ finish_row platform outbox stringify accepts row a r.1
                ])
                (row_messages platform outbox stringify w.db row)
                (outbox.delete_row row.id w.db)
        go (none, v) (p, d, inr (h, e, t)) = cc
        go (none, v) (p, d, inl (e, f)) = inr (
          refl,
          [],
          row_messages platform outbox stringify w.db row,
          refl,
          p ∙ sym (append-nil w.published),
          f,
        )
        go (some h, v) (p, d, inl (e, f)) = cc
        go (some h, v) (p, d, inr (h', e, t)) =
            subst₂ (Sends accepts w (finish_row platform outbox stringify accepts row h v))
              (ap (messages_of platform outbox stringify)
                (ap (handled_targets platform outbox stringify) (some-injective _ _ e) ∙ t))
              (ap (outbox.delete_row row.id) d)
              (Sends-later accepts w v (finish_row platform outbox stringify accepts row h v) []
                (messages_of platform outbox stringify
                  (handled_targets platform outbox stringify h))
                (outbox.delete_row row.id v.db) (p ∙ sym (append-nil w.published))
                (finish_row-Sends platform outbox stringify accepts row h v))

    process_rows-Sends :
        (rows : List (OutboxRow J D)) (w : World outbox.Db)
        → Sends accepts w
            (process_rows platform outbox stringify accepts rows w)
            (batch_messages w.db rows)
            (delete_rows w.db rows)
    unfolding process_rows
    process_rows-Sends [] w = inl (refl, sym (append-nil w.published), refl)
    process_rows-Sends (row ∷ rest) w =
        Sends-seq accepts (process_row platform outbox stringify accepts row)
          (process_rows platform outbox stringify accepts rest) w
          (row_messages platform outbox stringify w.db row) (batch_messages w.db rest)
          (outbox.delete_row row.id w.db) (delete_rows w.db (row ∷ rest)) (process_row-Sends row w)
          (λ v e.
            subst₂ (Sends accepts v (process_rows platform outbox stringify accepts rest v))
              (ap (λ d. batch_messages d rest) e ∙ batch_messages-delete_row w.db row.id rest)
              (ap (λ d. delete_rows d rest) e) (process_rows-Sends rest v))

    -- The messages of a batch, split where a failure stopped them.
    abbrev pub Interrupted : World outbox.Db → World outbox.Db → Type 0
    Interrupted w v =
        (sent : List (Text × Text)) × (rest : List (Text × Text)) × (batch_messages w.db
            (outbox.fetch_batch batch_size w.db)
          ≡ sent ++ rest)
        × (v.published ≡ w.published ++ sent)
        × ((n : ℕ) × (accepts n ≡ false))

    -- The outcome of a batch, before the end of its transaction.
    abbrev BatchOutcome : World outbox.Db → Option ℕ × World outbox.Db → Type 0
    BatchOutcome w r =
        ((r.0 ≡ some (length (outbox.fetch_batch batch_size w.db)))
          × (r.1.published
              ≡ w.published ++ batch_messages w.db (outbox.fetch_batch batch_size w.db))
          × (r.1.db ≡ delete_rows w.db (outbox.fetch_batch batch_size w.db)))
        ⊎ ((r.0 ≡ none) × Interrupted w r.1)

    count_rows :
        (w : World outbox.Db) (r : Option (Unit {0}) × World outbox.Db)
        → Sends accepts w r
            (batch_messages w.db (outbox.fetch_batch batch_size w.db))
            (delete_rows w.db (outbox.fetch_batch batch_size w.db))
        → BatchOutcome w (elim r.0 [
          | none ↦ (none, r.1)
          | some _ ↦ (some (length (outbox.fetch_batch batch_size w.db)), r.1)
        ])
    count_rows w (none, v) (inr (e, sent, rest, s, p, f)) = inr (refl, (sent, rest, s, p, f))
    count_rows w (none, v) (inl (e, p, d)) = cc
    count_rows w (some u, v) (inr (e, sent, rest, s, p, f)) = cc
    count_rows w (some u, v) (inl (e, p, d)) = inl (refl, p, d)

    process_batch-BatchOutcome :
        (w : World outbox.Db) → BatchOutcome w (process_batch platform outbox stringify accepts w)
    unfolding process_batch call process_fetched
    process_batch-BatchOutcome w = elim (Bool-cases (accepts w.calls)) [
      | inl e ↦
          subst (BatchOutcome w)
            (sym (
              >>_ended (call platform outbox stringify accepts)
                (process_fetched platform outbox stringify accepts) w (rw e)))
            (count_rows w
              (process_rows platform outbox stringify accepts (outbox.fetch_batch batch_size w.db)
                (record w { calls = suc w.calls }))
              (process_rows-Sends (outbox.fetch_batch batch_size w.db)
                (record w { calls = suc w.calls })))
      | inr e ↦
          subst (BatchOutcome w)
            (sym (
              >>_thrown (call platform outbox stringify accepts)
                (process_fetched platform outbox stringify accepts) w (rw e)))
            (inr (refl, ([], _, refl, sym (append-nil w.published), (w.calls, e))))
    ]

    begin_transaction-BatchOutcome :
        (w : World outbox.Db)
        → BatchOutcome w (begin_transaction platform outbox stringify accepts w)
    unfolding begin_transaction call
    begin_transaction-BatchOutcome w = elim (Bool-cases (accepts w.calls)) [
      | inl e ↦
          subst (BatchOutcome w)
            (sym (
              >>_ended (call platform outbox stringify accepts)
                (process_batch platform outbox stringify accepts) w (rw e)))
            (process_batch-BatchOutcome (record w { calls = suc w.calls }))
      | inr e ↦
          subst (BatchOutcome w)
            (sym (
              >>_thrown (call platform outbox stringify accepts)
                (process_batch platform outbox stringify accepts) w (rw e)))
            (inr (refl, ([], _, refl, sym (append-nil w.published), (w.calls, e))))
    ]

    -- What a round has done to the loop, its sleep and the world.
    abbrev pub RoundOutcome : RelayLoop → World outbox.Db → RelayLoop × ℕ × World outbox.Db → Type 0
    RoundOutcome l w r =
        ((r.0 ≡ record l { had_recent_error = false })
          × (r.1 ≡ (if length (outbox.fetch_batch batch_size w.db) == 0 then idle_delay_ms else 0))
          × (r.2.published
              ≡ w.published ++ batch_messages w.db (outbox.fetch_batch batch_size w.db))
          × (outbox.rows r.2.db
              ≡ keep (not_in_batch (outbox.fetch_batch batch_size w.db)) (outbox.rows w.db)))
        ⊎ ((r.0 ≡ record l { had_recent_error = true })
            × (r.1 ≡ error_delay_ms)
            × (r.2.db ≡ w.db)
            × Interrupted w r.2)

    end_round-RoundOutcome :
        (l : RelayLoop) (w : World outbox.Db) (r : Option ℕ × World outbox.Db)
        → BatchOutcome w r
        → RoundOutcome l w (
            end_round platform outbox stringify accepts l
              (end_transaction platform outbox stringify accepts w.db r))
    unfolding end_round end_transaction
    end_round-RoundOutcome l w (none, v) (inr (e, failed)) = inr (refl, refl, refl, failed)
    end_round-RoundOutcome l w (none, v) (inl (e, p, d)) = cc
    end_round-RoundOutcome l w (some n, v) (inr (e, failed)) = cc
    end_round-RoundOutcome l w (some n, v) (inl (e, p, d)) = go (accepts v.calls) refl
      where
        go :
            (b : Bool)
            → accepts v.calls ≡ b
            → RoundOutcome l w (
                end_round platform outbox stringify accepts l (
                  if b
                  then (some n, record v { calls = suc v.calls })
                  else (none, record v { db = w.db; calls = suc v.calls })))
        go true a = inl (
          refl,
          ap (λ k. if k == 0 then idle_delay_ms else 0) (some-injective _ _ e),
          p,
          ap outbox.rows d ∙ rows-delete_rows w.db (outbox.fetch_batch batch_size w.db),
        )
        go false a = inr (
          refl,
          refl,
          refl,
          (
            batch_messages w.db (outbox.fetch_batch batch_size w.db),
            [],
            sym (append-nil (batch_messages w.db (outbox.fetch_batch batch_size w.db))),
            p,
            (v.calls, a),
          ),
        )

    -- A round that goes through has published every message of its batch, in order and behind what
    -- was there, and has removed exactly the rows of the batch; it sleeps for the idle delay if the
    -- batch was empty, and else not at all. Any other round had a call that was not accepted: it
    -- leaves the tables as they were, has published a first part of the messages, and sleeps for
    -- the error delay.
    pub round_delivers :
        (l : RelayLoop) (w : World outbox.Db)
        → RoundOutcome l w (round platform outbox stringify accepts l w)
    unfolding round
    round_delivers l w =
        end_round-RoundOutcome l w (begin_transaction platform outbox stringify accepts w)
          (begin_transaction-BatchOutcome w)
