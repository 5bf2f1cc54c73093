-- ===== src/Relay/Routed.antt =====
-- apps/api/src/realtime/eventPublishTargets.ts: the targets of an outbox row and their channels.
use mathlib.Core.Path.{subst}
use mathlib.Core.Option.{some-injective}
use mathlib.Core.List.{append-nil, append_assoc, map-append}
use elitehub_vault.Base.{
  Text, List, [], ◌∷◌, ◌++◌, Option, none, some, ◌≡◌, ◌≢◌, refl, ◌∙◌, arith, map, All, All-append,
  Option-cases, inl, inr, or_else,
}
use elitehub_vault.Contracts.{
  EventType, PowerplayOutbox, system_powerplay_updated, faction_presence_changed,
  faction_state_changed, faction_control_threat_changed, Platform,
  system_powerplay_updated_power_channel,
}
use elitehub_vault.Contracts.Payloads.{
  Payload, powerplay, presence, state, threat, payload_event,
  build_system_powerplay_updated_payload,
}
use elitehub_vault.Contracts.Targets.{
  Target, powerplay_targets_onto, build_system_powerplay_publish_targets, target_list,
  build_faction_presence_changed_publish_target, build_faction_state_changed_publish_target,
  build_faction_control_threat_changed_publish_target, build_publish_targets_for_outbox_row,
}
use elitehub_vault.Registry.{spec_of}

-- The power or the faction that a payload is for.
abbrev pub routing_key : {J N : Type 0} → Payload J N → Text
routing_key (powerplay p) = p.power_id
routing_key (presence p) = p.faction_id
routing_key (state p) = p.faction_id
routing_key (threat p) = p.faction_id

-- A target on the channel of an event type and of the routing key in its payload.
pub record IsRouted {J N : Type 0} (t : EventType) (target : Target J N) : Type 0 where
  pub event : payload_event target.payload ≡ t
  pub channel : target.channel ≡ (spec_of t).channel_of (routing_key target.payload)

module _ {J N D : Type 0} (platform : Platform J N D) where
  -- The target that the loop pushes for a power.
  abbrev power_target : PowerplayOutbox J → D → Text → Target J N
  power_target parsed created_at power_id = record {
    channel = system_powerplay_updated_power_channel power_id;
    payload = powerplay (
        build_system_powerplay_updated_payload platform parsed.system_id power_id
          parsed.changed_fields created_at parsed.metadata);
  }

  power_target-IsRouted :
      (parsed : PowerplayOutbox J) (created_at : D) (power_id : Text)
      → IsRouted system_powerplay_updated (power_target parsed created_at power_id)
  unfolding spec_of payload_event build_system_powerplay_updated_payload
  power_target-IsRouted parsed created_at power_id = record { event = refl; channel = refl }

  powerplay_targets_onto-IsRouted :
      (payload : J) (created_at : D) (power_ids : List Text) (targets : List (Target J N))
      → All (IsRouted system_powerplay_updated) targets
      → All
          (IsRouted system_powerplay_updated)
          (powerplay_targets_onto platform payload created_at power_ids targets)
  unfolding powerplay_targets_onto
  powerplay_targets_onto-IsRouted payload created_at [] targets h = h
  powerplay_targets_onto-IsRouted payload created_at (power_id ∷ rest) targets h =
      elim (Option-cases (platform.parse_powerplay payload)) [
        | inl e ↦ rw (e, powerplay_targets_onto) tt
        | inr (parsed, e) ↦
            rw (e, powerplay_targets_onto)
              (powerplay_targets_onto-IsRouted payload created_at rest
                (targets ++ (power_target parsed created_at power_id ∷ []))
                (All-append (IsRouted system_powerplay_updated) targets
                  (power_target parsed created_at power_id ∷ []) h
                  (power_target-IsRouted parsed created_at power_id, tt)))
      ]

  presence_targets-IsRouted :
      (payload : J) (created_at : D)
      → All (IsRouted faction_presence_changed) (
          target_list platform
            (build_faction_presence_changed_publish_target platform payload created_at))
  unfolding build_faction_presence_changed_publish_target spec_of payload_event
  presence_targets-IsRouted payload created_at =
      elim (Option-cases (platform.parse_presence payload)) [
        | inl e ↦ rw (e, build_faction_presence_changed_publish_target) tt
        | inr (parsed, e) ↦
            rw (e, build_faction_presence_changed_publish_target)
              (record { event = refl; channel = refl }, tt)
      ]

  state_targets-IsRouted :
      (payload : J) (created_at : D)
      → All (IsRouted faction_state_changed) (
          target_list platform
            (build_faction_state_changed_publish_target platform payload created_at))
  unfolding build_faction_state_changed_publish_target spec_of payload_event
  state_targets-IsRouted payload created_at = elim (Option-cases (platform.parse_state payload)) [
    | inl e ↦ rw (e, build_faction_state_changed_publish_target) tt
    | inr (parsed, e) ↦
        rw (e, build_faction_state_changed_publish_target)
          (record { event = refl; channel = refl }, tt)
  ]

  threat_targets-IsRouted :
      (payload : J) (created_at : D)
      → All (IsRouted faction_control_threat_changed) (
          target_list platform
            (build_faction_control_threat_changed_publish_target platform payload created_at))
  unfolding build_faction_control_threat_changed_publish_target spec_of payload_event
  threat_targets-IsRouted payload created_at = elim (Option-cases (platform.parse_threat payload)) [
    | inl e ↦ rw (e, build_faction_control_threat_changed_publish_target) tt
    | inr (parsed, e) ↦
        rw (e, build_faction_control_threat_changed_publish_target)
          (record { event = refl; channel = refl }, tt)
  ]

  -- Every target of a row carries a payload of the row's event type, on the channel of that type
  -- and of the power or faction that the payload names.
  pub build_publish_targets-IsRouted :
      (t : EventType) (payload : J) (created_at : D) (power_ids : Option (List Text))
      (targets : List (Target J N))
      → build_publish_targets_for_outbox_row platform (some t) payload created_at power_ids
        ≡ some targets
      → All (IsRouted t) targets
  unfolding build_publish_targets_for_outbox_row
  build_publish_targets-IsRouted system_powerplay_updated payload created_at power_ids targets h =
      subst (All (IsRouted system_powerplay_updated)) (some-injective _ _ h)
        (powerplay_targets_onto-IsRouted payload created_at (or_else power_ids []) [] tt)
  build_publish_targets-IsRouted faction_presence_changed payload created_at power_ids targets h =
      subst (All (IsRouted faction_presence_changed)) (some-injective _ _ h)
        (presence_targets-IsRouted payload created_at)
  build_publish_targets-IsRouted faction_state_changed payload created_at power_ids targets h =
      subst (All (IsRouted faction_state_changed)) (some-injective _ _ h)
        (state_targets-IsRouted payload created_at)
  build_publish_targets-IsRouted faction_control_threat_changed payload created_at power_ids targets
        h =
      subst (All (IsRouted faction_control_threat_changed)) (some-injective _ _ h)
        (threat_targets-IsRouted payload created_at)

  -- The target list of a powerplay row, on its own: one target for each power, in order.
  powerplay_targets_onto-channels :
      (payload : J) (created_at : D) (power_ids : List Text) (targets : List (Target J N))
      → platform.parse_powerplay payload ≢ none
      → map (λ t. t.channel) (powerplay_targets_onto platform payload created_at power_ids targets)
        ≡ map (λ t. t.channel) targets ++ map system_powerplay_updated_power_channel power_ids
  unfolding powerplay_targets_onto
  powerplay_targets_onto-channels payload created_at [] targets h = rw append-nil
  powerplay_targets_onto-channels payload created_at (power_id ∷ rest) targets h =
      elim (Option-cases (platform.parse_powerplay payload)) [
        | inl e ↦ absurd (h e)
        | inr (parsed, e) ↦
            rw (e, powerplay_targets_onto)
              (powerplay_targets_onto-channels payload created_at rest (targets ++ _) h
                ∙ simp (map-append, append_assoc))
      ]

  powerplay_targets_onto-none :
      (payload : J) (created_at : D)
      → platform.parse_powerplay payload ≡ none
      → (power_ids : List Text)
      → powerplay_targets_onto platform payload created_at power_ids [] ≡ []
  unfolding powerplay_targets_onto
  powerplay_targets_onto-none payload created_at e [] = refl
  powerplay_targets_onto-none payload created_at e (power_id ∷ rest) =
      rw (e, powerplay_targets_onto)

  -- A powerplay payload that parses gives exactly one target for each power, in the order of the
  -- powers; one that does not parse gives none, whatever the powers.
  pub powerplay_targets-channels :
      (payload : J) (created_at : D) (power_ids : List Text)
      → map
          (λ t. t.channel)
          (build_system_powerplay_publish_targets platform payload created_at power_ids)
        ≡ (elim (platform.parse_powerplay payload) [
          | none ↦ []
          | some _ ↦ map system_powerplay_updated_power_channel power_ids
        ])
  unfolding build_system_powerplay_publish_targets
  powerplay_targets-channels payload created_at power_ids =
      elim (Option-cases (platform.parse_powerplay payload)) [
        | inl e ↦ rw e (rw (powerplay_targets_onto-none payload created_at e power_ids) refl)
        | inr (parsed, e) ↦
            rw e (powerplay_targets_onto-channels payload created_at power_ids [] (ground arith))
      ]
