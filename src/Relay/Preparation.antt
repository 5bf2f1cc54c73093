-- ===== src/Relay/Preparation.antt =====
-- apps/api/src/realtime/eventOutboxRelay.ts: the preparation of a row and its end.
use mathlib.Core.Path.{subst}
use mathlib.Core.List.{append-nil}
use elitehub_vault.Base.{
  ℕ, suc, Text, List, [], ◌∷◌, Option, none, some, ◌≡◌, refl, sym, ap, ◌∙◌, ◌⊎◌, inl, inr, ◌≢◌,
  Bool, true, false, Bool-cases, Option-cases, or_else, ◌==◌, ==_iff, text_eq, if◌then◌else◌,
}
use elitehub_vault.Contracts.{
  EventType, event_name, system_powerplay_updated, faction_presence_changed, faction_state_changed,
  faction_control_threat_changed, Platform, PowerplayOutbox,
}
use elitehub_vault.Contracts.Payloads.{Payload}
use elitehub_vault.Contracts.Targets.{
  Target, build_publish_targets_for_outbox_row, build_system_powerplay_publish_targets,
}
use elitehub_vault.Registry.{event_type_in, event_types}
use elitehub_vault.Registry.Routing.{event_type_in_sound}
use elitehub_vault.Relay.{
  OutboxRow, OutboxDb, World, ◌>>=◌, DiscardReason, should_log, RowHandling, publish, discard,
  PowerIds, resolved, refused, invalid_powerplay_payload, power_ids_result, call, publish_targets,
  delete_outbox_row, resolve_power_ids, handling, handle_powers, prepare_row_for_publishing,
  log_discard, finish_row,
}
use elitehub_vault.Relay.Steps.{
  Sends, Sends-seq, messages_of, powers_of, row_targets, publish_targets-Sends,
  delete_outbox_row-Sends,
}

module _ {J N D : Type 0} (platform : Platform J N D) (outbox : OutboxDb J D)
    (stringify : Payload J N → Text) where
  -- The targets that a row is handled with.
  abbrev pub handled_targets : RowHandling J N → List (Target J N)
  handled_targets (discard reason) = []
  handled_targets (publish targets) = targets

  handled_targets-handling :
      (targets : Option (List (Target J N)))
      → handled_targets (handling targets) ≡ or_else targets []
  unfolding handling
  handled_targets-handling none = refl
  handled_targets-handling (some []) = refl
  handled_targets-handling (some (t ∷ ts)) = refl

  -- Only the powerplay event looks at the powers.
  build_targets_any_powers :
      (t : EventType) (payload : J) (created_at : D) (ids ids' : Option (List Text))
      → t ≢ system_powerplay_updated
      → build_publish_targets_for_outbox_row platform (some t) payload created_at ids
        ≡ build_publish_targets_for_outbox_row platform (some t) payload created_at ids'
  unfolding build_publish_targets_for_outbox_row
  build_targets_any_powers system_powerplay_updated payload created_at ids ids' h = absurd (h refl)
  build_targets_any_powers faction_presence_changed payload created_at ids ids' h = refl
  build_targets_any_powers faction_state_changed payload created_at ids ids' h = refl
  build_targets_any_powers faction_control_threat_changed payload created_at ids ids' h = refl

  not_powerplay :
      (name : Text) (t : EventType)
      → (name == event_name system_powerplay_updated) ≡ false
      → event_type_in event_types name ≡ some t
      → t ≢ system_powerplay_updated
  not_powerplay name t h e p =
      let q =
        (==_iff name (event_name system_powerplay_updated)).1
          (event_type_in_sound event_types name t e ∙ ap event_name p) in
      cc

  is_powerplay :
      (name : Text)
      → name ≡ event_name system_powerplay_updated
      → event_type_in event_types name ≡ some system_powerplay_updated
  unfolding event_type_in
  is_powerplay name e = rw e

  other_event :
      (row : OutboxRow J D) (db : outbox.Db)
      → (row.event_type == event_name system_powerplay_updated) ≡ false
      → handled_targets (handle_powers platform row (resolved none))
        ≡ row_targets platform outbox stringify db row
  unfolding handle_powers build_publish_targets_for_outbox_row
  other_event row db h = elim (Option-cases (event_type_in event_types row.event_type)) [
    | inl e ↦ rw e
    | inr (t, e) ↦ rw e (
        handled_targets-handling _
        ∙ ap (λ ts. or_else ts [])
            (build_targets_any_powers t row.payload row.created_at none
              (some (powers_of platform outbox stringify db row.payload))
              (not_powerplay row.event_type t h e)))
  ]

  powerplay_event :
      (row : OutboxRow J D) (db : outbox.Db) (ids : List Text)
      → powers_of platform outbox stringify db row.payload ≡ ids
      → handled_targets (handle_powers platform row (resolved (some ids)))
        ≡ row_targets platform outbox stringify db row
  unfolding handle_powers
  powerplay_event row db ids e = rw e (handled_targets-handling _)

  no_powers :
      (row : OutboxRow J D) (db : outbox.Db)
      → (row.event_type == event_name system_powerplay_updated) ≡ true
      → powers_of platform outbox stringify db row.payload ≡ []
      → [] ≡ row_targets platform outbox stringify db row
  unfolding build_publish_targets_for_outbox_row build_system_powerplay_publish_targets
  no_powers row db h e = rw (is_powerplay row.event_type ((==_iff row.event_type _).0 h), e)

  module _ (accepts : ℕ → Bool) where
    -- Either the preparation throws, or it hands on what the row is to be published to. Nothing is
    -- published and no table changes.
    abbrev pub Prepares :
        OutboxRow J D → World outbox.Db → Option (RowHandling J N) × World outbox.Db → Type 0
    Prepares row w r =
        (r.1.published ≡ w.published)
        × (r.1.db ≡ w.db)
        × (((r.0 ≡ none) × ((n : ℕ) × (accepts n ≡ false)))
            ⊎ ((h : RowHandling J N) × (r.0 ≡ some h)
                × (handled_targets h ≡ row_targets platform outbox stringify w.db row)))

    prepare-after_resolve :
        (row : OutboxRow J D) (w : World outbox.Db) (r : Option PowerIds × World outbox.Db)
        → resolve_power_ids platform outbox stringify accepts row w ≡ r
        → prepare_row_for_publishing platform outbox stringify accepts row w ≡ (elim r.0 [
          | none ↦ (none, r.1)
          | some ids ↦ (some (handle_powers platform row ids), r.1)
        ])
    unfolding prepare_row_for_publishing
    prepare-after_resolve row w r e =
        ap
          (λ (q : Option PowerIds × World outbox.Db).
            let o : Option (RowHandling J N) × World outbox.Db = elim q.0 [
              | none ↦ (none, q.1)
              | some ids ↦ (some (handle_powers platform row ids), q.1)
            ] in
            o)
          e

    Prepares-from :
        (row : OutboxRow J D) (w : World outbox.Db) (r : Option PowerIds × World outbox.Db)
        → resolve_power_ids platform outbox stringify accepts row w ≡ r
        → Prepares row w (elim r.0 [
          | none ↦ (none, r.1)
          | some ids ↦ (some (handle_powers platform row ids), r.1)
        ])
        → Prepares row w (prepare_row_for_publishing platform outbox stringify accepts row w)
    Prepares-from row w r e h = subst (Prepares row w) (sym (prepare-after_resolve row w r e)) h

    resolve_other :
        (row : OutboxRow J D) (w : World outbox.Db)
        → (row.event_type == event_name system_powerplay_updated) ≡ false
        → resolve_power_ids platform outbox stringify accepts row w ≡ (some (resolved none), w)
    unfolding resolve_power_ids
    resolve_other row w e = rw e

    resolve_invalid :
        (row : OutboxRow J D) (w : World outbox.Db)
        → (row.event_type == event_name system_powerplay_updated) ≡ true
        → platform.parse_powerplay row.payload ≡ none
        → resolve_power_ids platform outbox stringify accepts row w
          ≡ (some (refused invalid_powerplay_payload), w)
    unfolding resolve_power_ids
    resolve_invalid row w e q = rw (e, q)

    resolve_parsed :
        (row : OutboxRow J D) (w : World outbox.Db) (parsed : PowerplayOutbox J)
        → (row.event_type == event_name system_powerplay_updated) ≡ true
        → platform.parse_powerplay row.payload ≡ some parsed
        → resolve_power_ids platform outbox stringify accepts row w ≡ (
          if accepts w.calls
              then some (power_ids_result (outbox.power_ids w.db parsed.system_id))
              else none,
          record w { calls = suc w.calls },
        )
    unfolding resolve_power_ids call
    resolve_parsed row w parsed e q = elim (Bool-cases (accepts w.calls)) [
      | inl a ↦ rw (e, q, a, ◌>>=◌, call)
      | inr a ↦ rw (e, q, a, ◌>>=◌, call)
    ]

    found_powers :
        (row : OutboxRow J D) (db : outbox.Db) (ids : List Text)
        → (row.event_type == event_name system_powerplay_updated) ≡ true
        → powers_of platform outbox stringify db row.payload ≡ ids
        → handled_targets (handle_powers platform row (power_ids_result ids))
          ≡ row_targets platform outbox stringify db row
    unfolding power_ids_result handle_powers
    found_powers row db [] e p = no_powers row db e p
    found_powers row db (i ∷ ids) e p = powerplay_event row db (i ∷ ids) p

    Prepares-parsed :
        (row : OutboxRow J D) (w : World outbox.Db) (parsed : PowerplayOutbox J)
        → (row.event_type == event_name system_powerplay_updated) ≡ true
        → platform.parse_powerplay row.payload ≡ some parsed
        → Prepares row w (prepare_row_for_publishing platform outbox stringify accepts row w)
    Prepares-parsed row w parsed e q =
        Prepares-from row w _ (resolve_parsed row w parsed e q)
          (elim (Bool-cases (accepts w.calls)) [
            | inl a ↦
                rw a (refl, refl, inr (_, refl, found_powers row w.db _ e (rw (q, powers_of))))
            | inr a ↦ rw a (refl, refl, inl (refl, (w.calls, a)))
          ])

    pub prepare-Prepares :
        (row : OutboxRow J D) (w : World outbox.Db)
        → Prepares row w (prepare_row_for_publishing platform outbox stringify accepts row w)
    unfolding handle_powers
    prepare-Prepares row w =
        elim (Bool-cases (row.event_type == event_name system_powerplay_updated)) [
          | inr e ↦
              Prepares-from row w _ (resolve_other row w e)
                (refl, refl, inr (_, refl, other_event row w.db e))
          | inl e ↦ elim (Option-cases (platform.parse_powerplay row.payload)) [
            | inl q ↦
                Prepares-from row w _ (resolve_invalid row w e q)
                  (refl, refl, inr (_, refl, no_powers row w.db e (rw (q, powers_of))))
            | inr (parsed, q) ↦ Prepares-parsed row w parsed e q
          ]
        ]

    log_discard-Sends :
        (row : OutboxRow J D) (reason : DiscardReason) (w : World outbox.Db)
        → Sends accepts w (log_discard platform outbox stringify accepts row reason w) [] w.db
    unfolding log_discard
    log_discard-Sends row reason w = elim (Bool-cases (should_log reason)) [
      | inl e ↦ rw e (inl (refl, sym (append-nil w.published), refl))
      | inr e ↦ rw e (inl (refl, sym (append-nil w.published), refl))
    ]

    pub finish_row-Sends :
        (row : OutboxRow J D) (h : RowHandling J N) (w : World outbox.Db)
        → Sends accepts w
            (finish_row platform outbox stringify accepts row h w)
            (messages_of platform outbox stringify (handled_targets h))
            (outbox.delete_row row.id w.db)
    unfolding finish_row
    finish_row-Sends row (discard reason) w =
        Sends-seq accepts (log_discard platform outbox stringify accepts row reason)
          (delete_outbox_row platform outbox stringify accepts row.id) w [] [] w.db
          (outbox.delete_row row.id w.db) (log_discard-Sends row reason w)
          (λ v e.
            subst
              (λ d.
                Sends accepts v (delete_outbox_row platform outbox stringify accepts row.id v) []
                  (outbox.delete_row row.id d))
              e (delete_outbox_row-Sends platform outbox stringify accepts row.id v))
    finish_row-Sends row (publish targets) w =
        subst
          (λ msgs.
            Sends accepts w (finish_row platform outbox stringify accepts row (publish targets) w)
              msgs (outbox.delete_row row.id w.db))
          (append-nil (messages_of platform outbox stringify targets))
          (Sends-seq accepts (publish_targets platform outbox stringify accepts targets)
            (delete_outbox_row platform outbox stringify accepts row.id) w
            (messages_of platform outbox stringify targets) [] w.db (outbox.delete_row row.id w.db)
            (publish_targets-Sends platform outbox stringify accepts targets w)
            (λ v e.
              subst
                (λ d.
                  Sends accepts v (delete_outbox_row platform outbox stringify accepts row.id v) []
                    (outbox.delete_row row.id d))
                e (delete_outbox_row-Sends platform outbox stringify accepts row.id v)))
