-- ===== src/Worker/Factions.antt =====
-- apps/eddn-worker/src/mq/queues/eddn/helpers/factionHelpers.ts: `upsertFactions` on the table of the
-- factions, which is the list of its rows, and the ids of the factions by their names.
pub mod Rows
pub mod Present
use elitehub_vault.Base.{
  ℕ, Text, text_eq, List, [], ◌∷◌, Option, none, some, Bool, true, false, ◌||◌, ◌==◌, if◌then◌else◌,
  Dict, insert,
}
use elitehub_vault.Worker.Enums.{FactionGovernment, Allegiance}
use elitehub_vault.Worker.Values.{Field, map_government, map_allegiance}

-- A row of the table.
pub record Faction : Type 0 where
  pub id : Text
  pub name : Text
  pub government : FactionGovernment
  pub allegiance : Allegiance
  pub created_at : ℕ
  pub updated_at : ℕ

-- What a message says of a faction.
pub record MessageFaction : Type 0 where
  pub name : Text
  pub government : Text
  pub allegiance : Text

pub record FactionInsert : Type 0 where
  pub name : Text
  pub government : Field FactionGovernment
  pub allegiance : Field Allegiance

-- What the insert schema lets through: both columns are NOT NULL.
pub record ValidFaction : Type 0 where
  pub name : Text
  pub government : FactionGovernment
  pub allegiance : Allegiance

unfoldable pub create_faction_id_map : List Faction → Dict Text Text
unfolding insert
create_faction_id_map factions = onto [] factions
  where
    onto : Dict Text Text → List Faction → Dict Text Text
    onto acc [] = acc
    onto acc (faction ∷ rest) = onto (insert faction.name faction.id acc) rest

-- `lower` is `toLowerCase`, `fold` is how `citext` compares, `new_id` the random id of a new row,
-- `parse` the insert schema, which throws where it is `none`.
module _ (lower : Text → Text) (fold : Text → Text) (new_id : List Faction → Text)
    (parse : FactionInsert → Option ValidFaction) where
  abbrev pub to_faction_data : MessageFaction → FactionInsert
  to_faction_data faction = record {
    name = faction.name;
    government = map_government lower (some faction.government);
    allegiance = map_allegiance lower (some faction.allegiance);
  }

  unfoldable pub validated : List MessageFaction → Option (List ValidFaction)
  validated [] = some []
  validated (faction ∷ factions) =
      let rest = validated factions in
      elim (parse (to_faction_data faction)) [
        | none ↦ none
        | some v ↦ elim rest [ none ↦ none | some vs ↦ some (v ∷ vs) ]
      ]

  abbrev pub mentions : Text → List ValidFaction → Bool
  mentions name [] = false
  mentions name (w ∷ ws) = (fold w.name == fold name) || mentions name ws

  -- Postgres refuses to update a row twice in one statement.
  abbrev pub is_repeated : List ValidFaction → Bool
  is_repeated [] = false
  is_repeated (v ∷ vs) = mentions v.name vs || is_repeated vs

  abbrev pub new_faction : Text → ValidFaction → ℕ → Faction
  new_faction id v now = record {
    id = id;
    name = v.name;
    government = v.government;
    allegiance = v.allegiance;
    created_at = now;
    updated_at = now;
  }

  abbrev pub set_faction : ValidFaction → ℕ → Faction → Faction
  set_faction v now row = record row {
    government = v.government;
    allegiance = v.allegiance;
    updated_at = now;
  }

  -- `insert … on conflict (name) do update … returning` of one faction: the row and the table.
  unfoldable pub upsert_faction :
      ValidFaction → ℕ → List Faction → List Faction → Faction × List Faction
  upsert_faction v now all [] =
      (new_faction (new_id all) v now, new_faction (new_id all) v now ∷ [])
  upsert_faction v now all (row ∷ rows) =
      let rest = upsert_faction v now all rows in
      if fold row.name == fold v.name
      then (set_faction v now row, set_faction v now row ∷ rows)
      else (rest.0, row ∷ rest.1)

  unfoldable pub upsert_all : List ValidFaction → ℕ → List Faction → List Faction × List Faction
  unfolding upsert_faction
  upsert_all [] now rows = ([], rows)
  upsert_all (v ∷ vs) now rows =
      let one = upsert_faction v now rows rows in
      let rest = upsert_all vs now one.1 in (one.0 ∷ rest.0, rest.1)

  -- The rows of the factions and the table; `none` where it throws.
  unfoldable pub upsert_factions :
      List MessageFaction → ℕ → List Faction → Option (List Faction × List Faction)
  unfolding validated upsert_all
  upsert_factions factions now rows = elim (validated factions) [
    | none ↦ none
    | some vs ↦ if is_repeated vs then none else some (upsert_all vs now rows)
  ]
