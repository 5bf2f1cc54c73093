-- ===== src/Worker/Values.antt =====
-- apps/eddn-worker/src/mq/queues/eddn/constants.ts: the names of EDDN and the values of the columns.
-- A column that the code may leave out or set to NULL is a `Field`.
use elitehub_vault.Base.{
  Text, codes, text_eq, List, [], ◌∷◌, Option, none, some, Dict, lookup, or_else,
}
use elitehub_vault.Worker.Enums.{
  SystemSecurity, StationType, FactionHappiness, FactionConflictType, FactionConflictStatus,
  FactionGovernment, Economy, Allegiance, FactionState, PowerplayState,
}

-- What a column is set to: nothing, NULL or a value.
pub data Field {ℓ} (A : Type ℓ) : Type ℓ where
  undefined null : Field A
  value : A → Field A

abbrev pub system_security_map : Dict Text (Field SystemSecurity)
system_security_map =
    (codes "$galaxy_map_info_state_anarchy;", value SystemSecurity.anarchy)
    ∷ (codes "anarchy", value SystemSecurity.anarchy)
    ∷ (codes "$galaxy_map_info_state_lawless;", value SystemSecurity.anarchy)
    ∷ (codes "lawless", value SystemSecurity.anarchy)
    ∷ (codes "$system_security_high;", value SystemSecurity.high)
    ∷ (codes "high", value SystemSecurity.high)
    ∷ (codes "$system_security_medium;", value SystemSecurity.medium)
    ∷ (codes "medium", value SystemSecurity.medium)
    ∷ (codes "$system_security_low;", value SystemSecurity.low)
    ∷ (codes "low", value SystemSecurity.low)
    ∷ []

abbrev pub faction_state_map : Dict Text (Field FactionState)
faction_state_map =
    (codes "null", null)
    ∷ (codes "none", null)
    ∷ (codes "boom", value FactionState.boom)
    ∷ (codes "bust", value FactionState.bust)
    ∷ (codes "civilunrest", value FactionState.civil_unrest)
    ∷ (codes "civilwar", value FactionState.civil_war)
    ∷ (codes "civilliberty", value FactionState.civil_liberty)
    ∷ (codes "election", value FactionState.election)
    ∷ (codes "expansion", value FactionState.expansion)
    ∷ (codes "famine", value FactionState.famine)
    ∷ (codes "investment", value FactionState.investment)
    ∷ (codes "lockdown", value FactionState.lockdown)
    ∷ (codes "outbreak", value FactionState.outbreak)
    ∷ (codes "pirateattack", value FactionState.pirate_attack)
    ∷ (codes "retreat", value FactionState.retreat)
    ∷ (codes "war", value FactionState.war)
    ∷ (codes "blight", value FactionState.blight)
    ∷ (codes "drought", value FactionState.drought)
    ∷ (codes "infrastructurefailure", value FactionState.infrastructure_failure)
    ∷ (codes "naturaldisaster", value FactionState.natural_disaster)
    ∷ (codes "publicholiday", value FactionState.public_holiday)
    ∷ (codes "terrorism", value FactionState.terrorist_attack)
    ∷ []

abbrev pub allegiance_map : Dict Text (Field Allegiance)
allegiance_map =
    (codes "alliance", value Allegiance.alliance)
    ∷ (codes "empire", value Allegiance.empire)
    ∷ (codes "federation", value Allegiance.federation)
    ∷ (codes "independent", value Allegiance.independent)
    ∷ (codes "none", null)
    ∷ (codes "$pirate", value Allegiance.pirate)
    ∷ (codes "pilotsfederation", value Allegiance.pilots_federation)
    ∷ (codes "thargoid", value Allegiance.thargoids)
    ∷ (codes "guardian", value Allegiance.guardians)
    ∷ []

abbrev pub economy_map : Dict Text (Field Economy)
economy_map =
    (codes "$economy_agri;", value Economy.agriculture)
    ∷ (codes "agri", value Economy.agriculture)
    ∷ (codes "agriculture", value Economy.agriculture)
    ∷ (codes "$economy_colony;", value Economy.colony)
    ∷ (codes "colony", value Economy.colony)
    ∷ (codes "$economy_extraction;", value Economy.extraction)
    ∷ (codes "extraction", value Economy.extraction)
    ∷ (codes "$economy_hightech;", value Economy.high_tech)
    ∷ (codes "hightech", value Economy.high_tech)
    ∷ (codes "high tech", value Economy.high_tech)
    ∷ (codes "$economy_industrial;", value Economy.industrial)
    ∷ (codes "industrial", value Economy.industrial)
    ∷ (codes "$economy_military;", value Economy.military)
    ∷ (codes "military", value Economy.military)
    ∷ (codes "$economy_none;", null)
    ∷ (codes "none", null)
    ∷ (codes "$economy_refinery;", value Economy.refinery)
    ∷ (codes "refinery", value Economy.refinery)
    ∷ (codes "$economy_service;", value Economy.service)
    ∷ (codes "service", value Economy.service)
    ∷ (codes "$economy_terraforming;", value Economy.terraforming)
    ∷ (codes "terraforming", value Economy.terraforming)
    ∷ (codes "$economy_tourism;", value Economy.tourism)
    ∷ (codes "tourism", value Economy.tourism)
    ∷ (codes "$economy_repair;", value Economy.repair)
    ∷ (codes "repair", value Economy.repair)
    ∷ (codes "$economy_rescue;", value Economy.rescue)
    ∷ (codes "rescue", value Economy.rescue)
    ∷ (codes "$economy_damaged;", value Economy.damaged)
    ∷ (codes "damaged", value Economy.damaged)
    ∷ []

abbrev pub faction_government_map : Dict Text (Field FactionGovernment)
faction_government_map =
    (codes "$government_anarchy;", value FactionGovernment.anarchy)
    ∷ (codes "anarchy", value FactionGovernment.anarchy)
    ∷ (codes "$government_communism;", value FactionGovernment.communism)
    ∷ (codes "communism", value FactionGovernment.communism)
    ∷ (codes "$government_confederacy;", value FactionGovernment.confederacy)
    ∷ (codes "confederacy", value FactionGovernment.confederacy)
    ∷ (codes "$government_cooperative;", value FactionGovernment.cooperative)
    ∷ (codes "cooperative", value FactionGovernment.cooperative)
    ∷ (codes "$government_corporate;", value FactionGovernment.corporate)
    ∷ (codes "corporate", value FactionGovernment.corporate)
    ∷ (codes "$government_democracy;", value FactionGovernment.democracy)
    ∷ (codes "democracy", value FactionGovernment.democracy)
    ∷ (codes "$government_dictatorship;", value FactionGovernment.dictatorship)
    ∷ (codes "dictatorship", value FactionGovernment.dictatorship)
    ∷ (codes "$government_feudal;", value FactionGovernment.feudal)
    ∷ (codes "feudal", value FactionGovernment.feudal)
    ∷ (codes "$government_imperial;", value FactionGovernment.imperial)
    ∷ (codes "imperial", value FactionGovernment.imperial)
    ∷ (codes "$government_none;", null)
    ∷ (codes "none", null)
    ∷ (codes "$government_patronage;", value FactionGovernment.patronage)
    ∷ (codes "patronage", value FactionGovernment.patronage)
    ∷ (codes "$government_prison;", value FactionGovernment.prison)
    ∷ (codes "prison", value FactionGovernment.prison)
    ∷ (codes "$government_prisoncolony;", value FactionGovernment.prison_colony)
    ∷ (codes "prisoncolony", value FactionGovernment.prison_colony)
    ∷ (codes "prison colony", value FactionGovernment.prison_colony)
    ∷ (codes "$government_theocracy;", value FactionGovernment.theocracy)
    ∷ (codes "theocracy", value FactionGovernment.theocracy)
    ∷ (codes "$government_engineer;", value FactionGovernment.workshop)
    ∷ (codes "engineer", value FactionGovernment.workshop)
    ∷ []

abbrev pub station_type_map : Dict Text (Field StationType)
station_type_map =
    (codes "coriolis", value StationType.coriolis)
    ∷ (codes "coriolis starport", value StationType.coriolis)
    ∷ (codes "dodec", value StationType.dodec)
    ∷ (codes "bernal", value StationType.ocellus)
    ∷ (codes "ocellus", value StationType.ocellus)
    ∷ (codes "ocellus starport", value StationType.ocellus)
    ∷ (codes "orbis", value StationType.orbis)
    ∷ (codes "orbis starport", value StationType.orbis)
    ∷ (codes "outpost", value StationType.outpost)
    ∷ (codes "civilian outpost", value StationType.outpost)
    ∷ (codes "commercial outpost", value StationType.outpost)
    ∷ (codes "industrial outpost", value StationType.outpost)
    ∷ (codes "military outpost", value StationType.outpost)
    ∷ (codes "mining outpost", value StationType.outpost)
    ∷ (codes "scientific outpost", value StationType.outpost)
    ∷ (codes "outpostscientific", value StationType.outpost)
    ∷ (codes "surfacestation", value StationType.planetary_outpost)
    ∷ (codes "crateroutpost", value StationType.planetary_outpost)
    ∷ (codes "planetary outpost", value StationType.planetary_outpost)
    ∷ (codes "planetary port", value StationType.planetary_port)
    ∷ (codes "craterport", value StationType.planetary_port)
    ∷ (codes "asteroidbase", value StationType.asteroid_base)
    ∷ (codes "megaship", value StationType.mega_ship)
    ∷ (codes "onfootsettlement", value StationType.on_foot_settlement)
    ∷ []

abbrev pub faction_happiness_map : Dict Text (Field FactionHappiness)
faction_happiness_map =
    (codes "$faction_happinessband1;", value FactionHappiness.elated)
    ∷ (codes "happinessband1", value FactionHappiness.elated)
    ∷ (codes "$faction_happinessband2;", value FactionHappiness.happy)
    ∷ (codes "happinessband2", value FactionHappiness.happy)
    ∷ (codes "$faction_happinessband3;", value FactionHappiness.discontented)
    ∷ (codes "happinessband3", value FactionHappiness.discontented)
    ∷ (codes "$faction_happinessband4;", value FactionHappiness.unhappy)
    ∷ (codes "happinessband4", value FactionHappiness.unhappy)
    ∷ (codes "$faction_happinessband5;", value FactionHappiness.despondent)
    ∷ (codes "happinessband5", value FactionHappiness.despondent)
    ∷ (codes "none", null)
    ∷ []

abbrev pub faction_conflict_type_map : Dict Text (Field FactionConflictType)
faction_conflict_type_map =
    (codes "civilwar", value FactionConflictType.civil_war)
    ∷ (codes "election", value FactionConflictType.election)
    ∷ (codes "war", value FactionConflictType.war)
    ∷ []

abbrev pub faction_conflict_status_map : Dict Text (Field FactionConflictStatus)
faction_conflict_status_map =
    (codes "pending", value FactionConflictStatus.pending)
    ∷ (codes "active", value FactionConflictStatus.active)
    ∷ (codes "", value FactionConflictStatus.concluded)
    ∷ []

abbrev pub powerplay_state_map : Dict Text (Field PowerplayState)
powerplay_state_map =
    (codes "unoccupied", value PowerplayState.unoccupied)
    ∷ (codes "stronghold", value PowerplayState.stronghold)
    ∷ (codes "exploited", value PowerplayState.exploited)
    ∷ (codes "fortified", value PowerplayState.fortified)
    ∷ []

abbrev pub excluded_station_governments : List Text
excluded_station_governments =
    codes "$government_megaconstruction;"
    ∷ codes "megaconstruction"
    ∷ codes "$government_carrier;"
    ∷ codes "carrier"
    ∷ []

abbrev pub from_map {ℓ} : {A : Type ℓ} → (Text → Text) → Dict Text (Field A) → Option Text → Field A
from_map lower entries none = undefined
from_map lower entries (some name) = or_else (lookup (lower name) entries) undefined

abbrev pub or_null {ℓ} : {A : Type ℓ} → Field A → Field A
or_null undefined = null
or_null null = null
or_null (value a) = value a

-- `lower` is `String.prototype.toLowerCase`. No name of EDDN is one of the two that every object
-- inherits in lower case, `constructor` and `__proto__`.
module _ (lower : Text → Text) where
  unfoldable pub map_government : Option Text → Field FactionGovernment
  map_government name = from_map lower faction_government_map name

  unfoldable pub map_allegiance : Option Text → Field Allegiance
  map_allegiance name = from_map lower allegiance_map name

  unfoldable pub map_economy : Option Text → Field Economy
  map_economy name = from_map lower economy_map name

  unfoldable pub map_security : Option Text → Field SystemSecurity
  map_security name = from_map lower system_security_map name

  unfoldable pub map_powerplay_state : Option Text → Field PowerplayState
  map_powerplay_state name = from_map lower powerplay_state_map name

  unfoldable pub map_station_type : Option Text → Field StationType
  map_station_type name = from_map lower station_type_map name

  unfoldable pub map_faction_state : Option Text → Field FactionState
  map_faction_state name = from_map lower faction_state_map name

  unfoldable pub map_faction_conflict_type : Option Text → Field FactionConflictType
  map_faction_conflict_type name = from_map lower faction_conflict_type_map name

  unfoldable pub map_faction_conflict_status : Option Text → Field FactionConflictStatus
  map_faction_conflict_status name = from_map lower faction_conflict_status_map name

  unfoldable pub map_happiness : Option Text → Field FactionHappiness
  map_happiness name = or_null (from_map lower faction_happiness_map name)
