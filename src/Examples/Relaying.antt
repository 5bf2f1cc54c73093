-- ===== src/Examples/Relaying.antt =====
-- Contracts, Registry and Relay.
use elitehub_vault.Base.{
  ℕ, Text, codes, [], ◌∷◌, map, none, some, Bool, true, false, ◌≡◌, ◌≢◌, ◌↔◌, refl, nat_eq, ◌==◌,
  not, All, decimal,
}
use elitehub_vault.Contracts.{
  faction_presence_changed, faction_state_changed, entered, system_powerplay_updated_power_channel,
  faction_presence_changed_faction_channel,
}
use elitehub_vault.Contracts.Payloads.{Payload, presence}
use elitehub_vault.Contracts.Targets.{
  Target, build_publish_targets_for_outbox_row, build_system_powerplay_publish_targets,
}
use elitehub_vault.Registry.{spec_of, find_realtime_event_by_channel}
use elitehub_vault.Registry.Routing.{find_realtime_event_by_channel_iff}
use elitehub_vault.Relay.{World, RelayLoop, round}
use elitehub_vault.Relay.Routed.{
  IsRouted, build_publish_targets-IsRouted, powerplay_targets-channels,
}
use elitehub_vault.Relay.Delivery.{RoundOutcome, round_delivers}
use elitehub_vault.Examples.{platform, tables, Rows, take_rows}

abbrev stringify : Payload ℕ ℕ → Text
stringify payload = codes "{}"

abbrev stored_rows : Rows
stored_rows =
    (record {
      id = codes "a";
      event_type = codes "factionPresenceChanged";
      payload = 2;
      created_at = 5;
    })
    ∷ (record {
      id = codes "b";
      event_type = codes "systemPowerplayUpdated";
      payload = 1;
      created_at = 6;
    })
    ∷ (record { id = codes "c"; event_type = codes "unheardOf"; payload = 0; created_at = 7 })
    ∷ []

abbrev running : RelayLoop
running = record { is_running = true; should_stop = false; had_recent_error = true }

abbrev stored : World Rows
stored = record { db = stored_rows; published = []; logged = []; calls = 0 }

-- Every call but the sixth is accepted.
abbrev but_the_sixth : ℕ → Bool
but_the_sixth n = not (n == 5)

round_delivers_example :
    RoundOutcome platform tables stringify but_the_sixth running stored
      (round platform tables stringify but_the_sixth running stored)
round_delivers_example = round_delivers platform tables stringify but_the_sixth running stored

-- The channels that a round without failures publishes to.
round_run :
    map (λ m. m.0) (round platform tables stringify (λ n. true) running stored).2.published
    ≡ codes "events:factionPresenceChanged:faction:7"
      ∷ codes "events:systemPowerplayUpdated:power:3"
      ∷ codes "events:systemPowerplayUpdated:power:5"
      ∷ []
unfolding round take_rows build_publish_targets_for_outbox_row
    faction_presence_changed_faction_channel system_powerplay_updated_power_channel
round_run = refl

abbrev presence_target : Target ℕ ℕ
presence_target = record {
  channel = codes "events:factionPresenceChanged:faction:7";
  payload = presence (record {
    event = faction_presence_changed;
    faction_id = codes "7";
    system_id = codes "10477373803";
    change = entered;
    timestamp = decimal 5;
  });
}

build_publish_targets_run :
    build_publish_targets_for_outbox_row platform (some faction_presence_changed) 2 5 none
    ≡ some (presence_target ∷ [])
unfolding build_publish_targets_for_outbox_row faction_presence_changed_faction_channel
build_publish_targets_run = refl

build_publish_targets-IsRouted_example :
    All (IsRouted faction_presence_changed) (presence_target ∷ [])
build_publish_targets-IsRouted_example =
    build_publish_targets-IsRouted platform faction_presence_changed 2 5 none (presence_target ∷ [])
      build_publish_targets_run

powerplay_targets-channels_example :
    map
      (λ t. t.channel)
      (build_system_powerplay_publish_targets platform 1 6 (codes "3" ∷ codes "5" ∷ []))
    ≡ map system_powerplay_updated_power_channel (codes "3" ∷ codes "5" ∷ [])
powerplay_targets-channels_example =
    powerplay_targets-channels platform 1 6 (codes "3" ∷ codes "5" ∷ [])

find_realtime_event_by_channel_iff_example :
    (find_realtime_event_by_channel (codes "events:factionStateChanged:faction:")
      ≡ some (faction_state_changed, []))
    ↔ ((codes "events:factionStateChanged:faction:" ≡ (spec_of faction_state_changed).channel_of [])
        × (codes "" ≢ codes ""))
find_realtime_event_by_channel_iff_example =
    find_realtime_event_by_channel_iff (codes "events:factionStateChanged:faction:")
      faction_state_changed []
