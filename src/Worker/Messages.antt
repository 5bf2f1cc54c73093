-- ===== src/Worker/Messages.antt =====
-- packages/eddn-contracts/src/types.ts: the messages of EDDN. A union of literals and a time are their
-- texts; the literal `event` is the constructor of `JournalEvent`.
use elitehub_vault.Base.{ℕ, Text, Bool, List, Option}

-- The bits of a double, which the code only copies.
abbrev pub Double : Type 0
Double = ℕ

pub record EconomyShare : Type 0 where
  pub name : Text
  pub proportion : Double

pub record PowerplayConflictProgress : Type 0 where
  pub conflict_progress : Double
  pub power : Text

pub record ShortFactionInfo : Type 0 where
  pub faction_state : Option Text
  pub name : Text

pub record ActiveState : Type 0 where
  pub state : Text

pub record StateWithTrend : Type 0 where
  pub state : Text
  pub trend : Double

pub record FactionInConflict : Type 0 where
  pub name : Text
  pub stake : Text
  pub won_days : ℕ

pub record LandingPads : Type 0 where
  pub large : ℕ
  pub medium : ℕ
  pub small : ℕ

pub record StationFaction : Type 0 where
  pub name : Text
  pub faction_state : Option Text

pub record FactionElement : Type 0 where
  pub allegiance : Text
  pub faction_state : Text
  pub government : Text
  pub happiness : Text
  pub influence : Double
  pub name : Text
  pub active_states : Option (List ActiveState)
  pub pending_states : Option (List StateWithTrend)
  pub recovering_states : Option (List StateWithTrend)

pub record Conflict : Type 0 where
  pub faction1 : FactionInConflict
  pub faction2 : FactionInConflict
  pub status : Text
  pub war_type : Text

pub record LocationMessage : Type 0 where
  pub body : Text
  pub body_id : ℕ
  pub body_type : Text
  pub docked : Bool
  pub factions : Option (List FactionElement)
  pub population : ℕ
  pub powerplay_conflict_progress : Option (List PowerplayConflictProgress)
  pub powerplay_state : Option Text
  pub powers : Option (List Text)
  pub star_pos : List Double
  pub star_system : Text
  pub system_address : ℕ
  pub system_allegiance : Text
  pub system_economy : Text
  pub system_faction : Option ShortFactionInfo
  pub system_government : Text
  pub system_second_economy : Text
  pub system_security : Text
  pub horizons : Option Bool
  pub odyssey : Option Bool
  pub timestamp : Text
  pub controlling_power : Option Text
  pub dist_from_star_ls : Option Double
  pub multicrew : Option Bool
  pub powerplay_state_control_progress : Option Double
  pub powerplay_state_reinforcement : Option Double
  pub powerplay_state_undermining : Option Double
  pub taxi : Option Bool
  pub conflicts : Option (List Conflict)
  pub market_id : Option ℕ
  pub station_allegiance : Option Text
  pub station_economies : Option (List EconomyShare)
  pub station_economy : Option Text
  pub station_faction : Option ShortFactionInfo
  pub station_government : Option Text
  pub station_name : Option Text
  pub station_services : Option (List Text)
  pub station_type : Option Text
  pub in_srv : Option Bool
  pub on_foot : Option Bool

pub record FsdJumpMessage : Type 0 where
  pub body : Text
  pub body_id : ℕ
  pub body_type : Text
  pub population : ℕ
  pub star_pos : List Double
  pub star_system : Text
  pub system_address : ℕ
  pub system_allegiance : Text
  pub system_economy : Text
  pub system_government : Text
  pub system_second_economy : Text
  pub system_security : Text
  pub horizons : Option Bool
  pub odyssey : Option Bool
  pub timestamp : Text
  pub factions : Option (List FactionElement)
  pub multicrew : Option Bool
  pub powerplay_conflict_progress : Option (List PowerplayConflictProgress)
  pub powerplay_state : Option Text
  pub powers : Option (List Text)
  pub system_faction : Option ShortFactionInfo
  pub taxi : Option Bool
  pub conflicts : Option (List Conflict)
  pub controlling_power : Option Text
  pub powerplay_state_control_progress : Option Double
  pub powerplay_state_reinforcement : Option Double
  pub powerplay_state_undermining : Option Double

pub record CarrierJumpMessage : Type 0 where
  pub body : Text
  pub body_id : ℕ
  pub body_type : Text
  pub docked : Bool
  pub factions : Option (List FactionElement)
  pub market_id : ℕ
  pub multicrew : Option Bool
  pub population : ℕ
  pub star_pos : List Double
  pub star_system : Text
  pub station_economies : List EconomyShare
  pub station_economy : Text
  pub station_faction : ShortFactionInfo
  pub station_government : Text
  pub station_name : Text
  pub station_services : List Text
  pub station_type : Text
  pub system_address : ℕ
  pub system_allegiance : Text
  pub system_economy : Text
  pub system_faction : ShortFactionInfo
  pub system_government : Text
  pub system_second_economy : Text
  pub system_security : Text
  pub taxi : Option Bool
  pub horizons : Bool
  pub odyssey : Bool
  pub timestamp : Text
  pub conflicts : Option (List Conflict)

pub record DockedMessage : Type 0 where
  pub dist_from_star_ls : Double
  pub landing_pads : LandingPads
  pub market_id : ℕ
  pub multicrew : Option Bool
  pub star_pos : List Double
  pub star_system : Text
  pub station_economies : List EconomyShare
  pub station_economy : Text
  pub station_faction : StationFaction
  pub station_government : Text
  pub station_name : Text
  pub station_services : List Text
  pub station_type : Text
  pub system_address : ℕ
  pub taxi : Option Bool
  pub horizons : Bool
  pub odyssey : Bool
  pub timestamp : Text
  pub body : Option Text
  pub body_type : Option Text
  pub station_allegiance : Option Text

pub data JournalEvent : Type 0 where
  location : LocationMessage → JournalEvent
  fsd_jump : FsdJumpMessage → JournalEvent
  carrier_jump : CarrierJumpMessage → JournalEvent
  docked : DockedMessage → JournalEvent
