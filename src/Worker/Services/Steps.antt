-- ===== src/Worker/Services/Steps.antt =====
-- apps/eddn-worker/src/mq/queues/eddn/helpers/stationServices.ts: the two columns of the services
-- stay in step.
use elitehub_vault.Base.{
  Text, text_eq, nat_eq, List, [], ◌∷◌, ◌++◌, Option, none, some, Bool, true, false, ◌≡◌, refl, ◌⊎◌,
  inl, inr, ap, sym, ◌∙◌, arith, if◌then◌else◌, keep, or_else,
}
use elitehub_vault.Worker.Services.{
  Json, string, other, strings, WritePayload, Warning, backfilled, should_backfill_services_v2,
  is_station_service, partition_station_services, normalize_service_value, normalize_service_values,
  prepare_station_write_payload, normalize_station_services, build_station_write_payload,
  derive_services_v2_from_legacy_services,
}

pub partition_station_services_lem :
    (ss : List Text) → (partition_station_services ss).0 ≡ keep is_station_service ss
unfolding partition_station_services keep
partition_station_services_lem [] = refl
partition_station_services_lem (s ∷ ss) = ground (arith, partition_station_services_lem ss)

module _ (trim_and_lower : Text → Text) where
  -- The new column holds the values of the enumeration among the services of the old one.
  abbrev pub IsInStep : List Json → List Text → Type 0
  IsInStep services services_v2 =
      services_v2 ≡ keep is_station_service (normalize_service_values trim_and_lower services)

  module _ (idempotent : (s : Text) → trim_and_lower (trim_and_lower s) ≡ trim_and_lower s) where
    value-again :
        (s : Text) (rest : List Text)
        → normalize_service_values trim_and_lower (strings rest) ≡ rest
        → normalize_service_values trim_and_lower
            (strings (normalize_service_value trim_and_lower s ++ rest))
          ≡ normalize_service_value trim_and_lower s ++ rest
    unfolding normalize_service_values
    value-again s rest h = go (trim_and_lower s) refl
      where
        again : Text → List Text
        again t = elim t [ [] ↦ rest | c ∷ cs ↦ (c ∷ cs) ∷ rest ]

        go :
            (t : Text)
            → trim_and_lower s ≡ t
            → normalize_service_values trim_and_lower
                (strings (elim t [ [] ↦ [] | c ∷ cs ↦ (c ∷ cs) ∷ [] ] ++ rest))
              ≡ elim t [ [] ↦ [] | c ∷ cs ↦ (c ∷ cs) ∷ [] ] ++ rest
        go [] e = h
        go (c ∷ cs) e = ground (arith, h, e, idempotent s)

    -- What is normalised stays as it is.
    pub normalize_service_values_again :
        (services : List Json)
        → normalize_service_values trim_and_lower
            (strings (normalize_service_values trim_and_lower services))
          ≡ normalize_service_values trim_and_lower services
    unfolding normalize_service_values
    normalize_service_values_again [] = refl
    normalize_service_values_again (string s ∷ services) =
        value-again s (normalize_service_values trim_and_lower services)
          (normalize_service_values_again services)
    normalize_service_values_again (other v ∷ services) = normalize_service_values_again services

    -- The columns after a write.
    abbrev pub written_services : WritePayload → List Json → List Json
    written_services payload persisted = elim payload.services [
      | none ↦ persisted
      | some ss ↦ strings ss
    ]

    -- Nothing is written where nothing is filled in.
    not_backfilled :
        (b : Bool) (derived : WritePayload × List Warning) (services : List Json)
        (services_v2 : List Text)
        → b ≡ false
        → IsInStep services services_v2
        → let payload =
            (if b then derived else (record { services = none; services_v2 = none }, [])).0 in
          IsInStep (written_services payload services) (or_else payload.services_v2 services_v2)
    not_backfilled true derived services services_v2 e h = absurd (ground (arith, e))
    not_backfilled false derived services services_v2 e h = h

    backfilled-IsInStep :
        (b : Bool) (derived : List Text × List Warning) (services : List Json)
        → b ≡ true
        → IsInStep services derived.0
        → let payload =
            (if b
              then backfilled trim_and_lower derived
              else (record { services = none; services_v2 = none }, [])).0 in
          IsInStep (written_services payload services) (or_else payload.services_v2 [])
    backfilled-IsInStep true derived services e h = h
    backfilled-IsInStep false derived services e h = absurd (ground (arith, e))

    pub prepare_station_write_payload-IsInStep :
        (incoming : Option (List Text)) (services : List Json) (services_v2 : List Text)
        → IsInStep services services_v2 ⊎ (services_v2 ≡ [])
        → let payload =
            (prepare_station_write_payload trim_and_lower incoming
              (some services)
              (some services_v2)).0 in
          IsInStep (written_services payload services) (or_else payload.services_v2 services_v2)
    unfolding prepare_station_write_payload normalize_station_services build_station_write_payload
        derive_services_v2_from_legacy_services normalize_service_values keep
    prepare_station_write_payload-IsInStep (some raw) services services_v2 h =
        partition_station_services_lem (normalize_service_values trim_and_lower (strings raw))
        ∙ ap (keep is_station_service) (sym (normalize_service_values_again (strings raw)))
    prepare_station_write_payload-IsInStep none [] [] h = refl
    prepare_station_write_payload-IsInStep none [] (v ∷ services_v2) (inl e) =
        not_backfilled
          (should_backfill_services_v2 trim_and_lower (some []) (some (v ∷ services_v2)))
          (backfilled trim_and_lower
            (derive_services_v2_from_legacy_services trim_and_lower (some [])))
          [] (v ∷ services_v2) (ground arith) e
    prepare_station_write_payload-IsInStep none [] (v ∷ services_v2) (inr e) =
        absurd (ground (arith, e))
    prepare_station_write_payload-IsInStep none (s ∷ services) [] h =
        backfilled-IsInStep
          (should_backfill_services_v2 trim_and_lower (some (s ∷ services)) (some []))
          (derive_services_v2_from_legacy_services trim_and_lower (some (s ∷ services)))
          (s ∷ services) (ground arith)
          (partition_station_services_lem (normalize_service_values trim_and_lower (s ∷ services)))
    prepare_station_write_payload-IsInStep none (s ∷ services) (v ∷ services_v2) (inl e) =
        not_backfilled
          (should_backfill_services_v2 trim_and_lower (some (s ∷ services))
            (some (v ∷ services_v2)))
          (backfilled trim_and_lower
            (derive_services_v2_from_legacy_services trim_and_lower (some (s ∷ services))))
          (s ∷ services) (v ∷ services_v2) (ground arith) e
    prepare_station_write_payload-IsInStep none (s ∷ services) (v ∷ services_v2) (inr e) =
        absurd (ground (arith, e))
