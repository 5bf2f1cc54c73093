-- ===== src/Worker/Enums.antt =====
-- packages/db/src/schema.ts: the enumerations of the columns.
use elitehub_vault.Base.{Text, codes, List, [], ◌∷◌}

pub data SystemSecurity : Type 0 where
  anarchy low medium high : SystemSecurity

pub data StationType : Type 0 where
  coriolis orbis ocellus dodec outpost planetary_port planetary_outpost asteroid_base mega_ship
        on_foot_settlement :
      StationType

pub data FactionHappiness : Type 0 where
  elated happy discontented unhappy despondent : FactionHappiness

pub data FactionConflictType : Type 0 where
  civil_war election war : FactionConflictType

pub data FactionConflictStatus : Type 0 where
  pending active concluded : FactionConflictStatus

pub data FactionGovernment : Type 0 where
  anarchy communism confederacy cooperative corporate democracy dictatorship feudal imperial
        patronage prison prison_colony theocracy workshop :
      FactionGovernment

pub data Economy : Type 0 where
  agriculture colony damaged engineer extraction high_tech industrial military prison
        private_enterprise refinery repair rescue service terraforming tourism :
      Economy

pub data Allegiance : Type 0 where
  alliance empire federation independent pirate pilots_federation thargoids guardians : Allegiance

pub data FactionState : Type 0 where
  blight boom bust civil_liberty civil_unrest civil_war cold_war colonisation drought election
        expansion famine historic_event incursion infested infrastructure_failure investment
        lockdown natural_disaster outbreak pirate_attack public_holiday revolution retreat
        technological_leap terrorist_attack trade_war war :
      FactionState

pub data PowerplayState : Type 0 where
  unoccupied stronghold exploited fortified : PowerplayState

abbrev pub station_service_values : List Text
station_service_values =
    codes "apexinterstellar"
    ∷ codes "autodock"
    ∷ codes "bartender"
    ∷ codes "blackmarket"
    ∷ codes "carriermanagement"
    ∷ codes "carriervendor"
    ∷ codes "colonisationcontribution"
    ∷ codes "commodities"
    ∷ codes "contacts"
    ∷ codes "crewlounge"
    ∷ codes "dock"
    ∷ codes "engineer"
    ∷ codes "exploration"
    ∷ codes "facilitator"
    ∷ codes "flightcontroller"
    ∷ codes "frontlinesolutions"
    ∷ codes "livery"
    ∷ codes "materialtrader"
    ∷ codes "missions"
    ∷ codes "missionsgenerated"
    ∷ codes "modulepacks"
    ∷ codes "ondockmission"
    ∷ codes "outfitting"
    ∷ codes "pioneersupplies"
    ∷ codes "powerplay"
    ∷ codes "rearm"
    ∷ codes "refinery"
    ∷ codes "refuel"
    ∷ codes "registeringcolonisation"
    ∷ codes "repair"
    ∷ codes "searchrescue"
    ∷ codes "shipyard"
    ∷ codes "shop"
    ∷ codes "socialspace"
    ∷ codes "stationmenu"
    ∷ codes "stationoperations"
    ∷ codes "techbroker"
    ∷ codes "tuning"
    ∷ codes "vistagenomics"
    ∷ []
