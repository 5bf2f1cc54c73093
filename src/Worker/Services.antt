-- ===== src/Worker/Services.antt =====
-- apps/eddn-worker/src/mq/queues/eddn/helpers/stationServices.ts: the services of a station, in the
-- old column as they come and in the new one as values of its enumeration.
pub mod Steps
use elitehub_vault.Base.{
  Text, text_eq, List, [], ◌∷◌, ◌++◌, Option, none, some, Bool, true, false, not, ◌&&◌, ◌≡◌, refl,
  arith, if◌then◌else◌, nat_eq, ◌==◌, ltb, length, keep, contains, All, or_else,
}
use elitehub_vault.Worker.Enums.{station_service_values}

-- An entry of a `jsonb` array: a string, or another value as its text.
pub data Json : Type 0 where
  string : Text → Json
  other : Text → Json

-- A message to Sentry: its source and the services it lists.
pub data Warning : Type 0 where
  unsupported_from_eddn : List Text → Warning
  unsupported_from_legacy_services : List Text → Warning

unfoldable pub is_station_service : Text → Bool
is_station_service service = contains service station_service_values

unfoldable pub partition_station_services : List Text → List Text × List Text
partition_station_services [] = ([], [])
partition_station_services (service ∷ services) =
    let rest = partition_station_services services in
    if is_station_service service then (service ∷ rest.0, rest.1) else (rest.0, service ∷ rest.1)

unfoldable pub warn_unsupported_station_services : (List Text → Warning) → List Text → List Warning
warn_unsupported_station_services source [] = []
warn_unsupported_station_services source (service ∷ services) = source (service ∷ services) ∷ []

-- What a write sets the two columns to; `none` is `undefined`.
pub record WritePayload : Type 0 where
  pub services : Option (List Text)
  pub services_v2 : Option (List Text)

abbrev pub strings : List Text → List Json
strings [] = []
strings (s ∷ ss) = string s ∷ strings ss

-- `trim_and_lower` is `trim` followed by `toLowerCase`.
module _ (trim_and_lower : Text → Text) where
  abbrev pub normalize_service_value : Text → List Text
  normalize_service_value service = elim (trim_and_lower service) [
    | [] ↦ []
    | c ∷ cs ↦ (c ∷ cs) ∷ []
  ]

  unfoldable pub normalize_service_values : List Json → List Text
  normalize_service_values [] = []
  normalize_service_values (string service ∷ services) =
      normalize_service_value service ++ normalize_service_values services
  normalize_service_values (other value ∷ services) = normalize_service_values services

  unfoldable pub normalize_station_services : Option (List Text) → WritePayload × List Warning
  unfolding normalize_service_values partition_station_services warn_unsupported_station_services
  normalize_station_services none = (record { services = none; services_v2 = none }, [])
  normalize_station_services (some raw_services) =
      let legacy_services = normalize_service_values (strings raw_services) in
      let partition = partition_station_services legacy_services in
      (
        record { services = some legacy_services; services_v2 = some partition.0 },
        warn_unsupported_station_services unsupported_from_eddn partition.1,
      )

  unfoldable pub derive_services_v2_from_legacy_services :
      Option (List Json) → List Text × List Warning
  unfolding normalize_service_values partition_station_services warn_unsupported_station_services
  derive_services_v2_from_legacy_services legacy_services =
      let partition =
        partition_station_services (normalize_service_values (or_else legacy_services [])) in
      (partition.0, warn_unsupported_station_services unsupported_from_legacy_services partition.1)

  abbrev pub should_backfill_services_v2 : Option (List Json) → Option (List Text) → Bool
  should_backfill_services_v2 persisted_services persisted_services_v2 =
      (length (or_else persisted_services_v2 []) == 0)
      && ltb 0 (length (or_else persisted_services []))

  abbrev pub backfilled : List Text × List Warning → WritePayload × List Warning
  backfilled derived = (record { services = none; services_v2 = some derived.0 }, derived.1)

  unfoldable pub build_station_write_payload :
      WritePayload → Option (List Json) → Option (List Text) → WritePayload × List Warning
  unfolding derive_services_v2_from_legacy_services
  build_station_write_payload incoming persisted_services persisted_services_v2 =
      elim incoming.services [
        | some services ↦ (
          record { services = some services; services_v2 = some (or_else incoming.services_v2 []) },
          [],
        )
        | none ↦
            if should_backfill_services_v2 persisted_services persisted_services_v2
            then backfilled (derive_services_v2_from_legacy_services persisted_services)
            else (record { services = none; services_v2 = none }, [])
      ]

  unfoldable pub prepare_station_write_payload :
      Option (List Text) → Option (List Json) → Option (List Text) → WritePayload × List Warning
  unfolding normalize_station_services build_station_write_payload
  prepare_station_write_payload incoming_services persisted_services persisted_services_v2 =
      let normalized = normalize_station_services incoming_services in
      let built =
        build_station_write_payload normalized.0 persisted_services persisted_services_v2 in
      (built.0, normalized.1 ++ built.1)
