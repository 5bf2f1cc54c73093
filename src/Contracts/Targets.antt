-- ===== src/Contracts/Targets.antt =====
-- The publish targets of an outbox row: packages/queue-contracts/src/realtime.ts and
-- apps/api/src/realtime/eventPublishTargets.ts.
use elitehub_vault.Base.{Text, List, [], ◌∷◌, ◌++◌, Option, none, some, or_else}
use elitehub_vault.Contracts.{
  EventType, system_powerplay_updated, faction_presence_changed, faction_state_changed,
  faction_control_threat_changed, Platform, system_powerplay_updated_power_channel,
  faction_presence_changed_faction_channel, faction_state_changed_faction_channel,
  faction_control_threat_changed_faction_channel,
}
use elitehub_vault.Contracts.Payloads.{
  Payload, powerplay, presence, state, threat, build_faction_presence_changed_payload,
  build_faction_state_changed_payload, build_faction_control_threat_changed_payload,
  build_system_powerplay_updated_power_scoped_payload,
}

pub record Target (J N : Type 0) : Type 0 where
  pub channel : Text
  pub payload : Payload J N

module _ {J N D : Type 0} (platform : Platform J N D) where
  unfoldable pub build_faction_presence_changed_publish_target : J → D → Option (Target J N)
  unfolding build_faction_presence_changed_payload
  build_faction_presence_changed_publish_target outbox_payload created_at =
      elim (platform.parse_presence outbox_payload) [
        | none ↦ none
        | some parsed ↦ some (record {
          channel = faction_presence_changed_faction_channel parsed.faction_id;
          payload = presence (
              build_faction_presence_changed_payload platform parsed.faction_id parsed.system_id
                parsed.change created_at);
        })
      ]

  unfoldable pub build_faction_state_changed_publish_target : J → D → Option (Target J N)
  unfolding build_faction_state_changed_payload
  build_faction_state_changed_publish_target outbox_payload created_at =
      elim (platform.parse_state outbox_payload) [
        | none ↦ none
        | some parsed ↦ some (record {
          channel = faction_state_changed_faction_channel parsed.faction_id;
          payload = state (
              build_faction_state_changed_payload platform parsed.faction_id parsed.system_id
                parsed.state_kind parsed.state parsed.lifecycle parsed.opponent_faction_id
                created_at);
        })
      ]

  unfoldable pub build_faction_control_threat_changed_publish_target : J → D → Option (Target J N)
  unfolding build_faction_control_threat_changed_payload
  build_faction_control_threat_changed_publish_target outbox_payload created_at =
      elim (platform.parse_threat outbox_payload) [
        | none ↦ none
        | some parsed ↦ some (record {
          channel = faction_control_threat_changed_faction_channel parsed.faction_id;
          payload = threat (
              build_faction_control_threat_changed_payload platform parsed.faction_id
                parsed.system_id parsed.status parsed.challenger_faction_id parsed.gap
                parsed.threshold created_at);
        })
      ]

  -- The loop over the powers, with the targets pushed so far; a payload that does not parse makes
  -- the whole result empty.
  unfoldable pub powerplay_targets_onto : J → D → List Text → List (Target J N) → List (Target J N)
  unfolding build_system_powerplay_updated_power_scoped_payload
  powerplay_targets_onto outbox_payload created_at [] targets = targets
  powerplay_targets_onto outbox_payload created_at (power_id ∷ rest) targets =
      elim (build_system_powerplay_updated_power_scoped_payload platform outbox_payload created_at
        power_id) [
          | none ↦ []
          | some payload ↦ powerplay_targets_onto outbox_payload created_at rest (
              targets
              ++ (record {
                channel = system_powerplay_updated_power_channel power_id;
                payload = powerplay payload;
              }
                  ∷ []))
        ]

  unfoldable pub build_system_powerplay_publish_targets : J → D → List Text → List (Target J N)
  unfolding powerplay_targets_onto
  build_system_powerplay_publish_targets outbox_payload created_at power_ids =
      powerplay_targets_onto outbox_payload created_at power_ids []

  abbrev pub target_list : Option (Target J N) → List (Target J N)
  target_list none = []
  target_list (some target) = target ∷ []

  -- `buildPublishTargetsForOutboxRow`; `none` stands for an event type outside the union.
  unfoldable pub build_publish_targets_for_outbox_row :
      Option EventType → J → D → Option (List Text) → Option (List (Target J N))
  unfolding build_system_powerplay_publish_targets build_faction_presence_changed_publish_target
      build_faction_state_changed_publish_target build_faction_control_threat_changed_publish_target
  build_publish_targets_for_outbox_row none outbox_payload created_at power_ids = none
  build_publish_targets_for_outbox_row (some event_type) outbox_payload created_at power_ids =
      elim event_type [
        | system_powerplay_updated ↦ some (
            build_system_powerplay_publish_targets outbox_payload created_at (or_else power_ids []))
        | faction_presence_changed ↦
            some (
              target_list (build_faction_presence_changed_publish_target outbox_payload created_at))
        | faction_state_changed ↦
            some
              (target_list (build_faction_state_changed_publish_target outbox_payload created_at))
        | faction_control_threat_changed ↦ some (
            target_list
              (build_faction_control_threat_changed_publish_target outbox_payload created_at))
      ]
