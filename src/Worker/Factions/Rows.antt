-- ===== src/Worker/Factions/Rows.antt =====
-- apps/eddn-worker/src/mq/queues/eddn/helpers/factionHelpers.ts: what `upsertFactions` leaves.
use mathlib.Core.Path.{subst}
use mathlib.Core.Option.{some-injective}
use elitehub_vault.Worker.Values.{value, map_government, map_allegiance}
use elitehub_vault.Base.{
  ap, sym, ◌||◌, Bool, ℕ, Text, text_eq, List, [], ◌∷◌, Option, none, some, false, ◌≡◌, refl, ◌∙◌,
  arith, ◌==◌, ==_iff, if◌then◌else◌, Bool-cases, inl, inr,
}
use elitehub_vault.Worker.Factions.{
  Faction, FactionInsert, ValidFaction, MessageFaction, mentions, is_repeated, upsert_faction,
  upsert_all, upsert_factions, validated, to_faction_data,
}

module _ (lower : Text → Text) (fold : Text → Text) (new_id : List Faction → Text)
    (parse : FactionInsert → Option ValidFaction) where
  -- The row of a name, as `citext` compares.
  abbrev pub row_of : Text → List Faction → Option Faction
  row_of name [] = none
  row_of name (row ∷ rows) = if fold row.name == fold name then some row else row_of name rows

  row_of-upsert_faction :
      (name : Text) (v : ValidFaction) (now : ℕ) (all rows : List Faction)
      → row_of name (upsert_faction lower fold new_id parse v now all rows).1 ≡ (
          if fold v.name == fold name
          then some (upsert_faction lower fold new_id parse v now all rows).0
          else row_of name rows)
  unfolding upsert_faction
  row_of-upsert_faction name v now all [] = ground (arith)
  row_of-upsert_faction name v now all (row ∷ rows) = ground (
    arith,
    row_of-upsert_faction name v now all rows,
    ==_iff (fold row.name) (fold v.name),
    ==_iff (fold row.name) (fold name),
    ==_iff (fold v.name) (fold name),
  )

  upsert_faction-carries :
      (v : ValidFaction) (now : ℕ) (all rows : List Faction)
      → let row = (upsert_faction lower fold new_id parse v now all rows).0 in
        (row.government ≡ v.government) × (row.allegiance ≡ v.allegiance)
  unfolding upsert_faction
  upsert_faction-carries v now all [] = (refl, refl)
  upsert_faction-carries v now all (row ∷ rows) =
      ground (arith, upsert_faction-carries v now all rows)

  row_of-upsert_all :
      (name : Text) (vs : List ValidFaction) (now : ℕ) (rows : List Faction)
      → mentions lower fold new_id parse name vs ≡ false
      → row_of name (upsert_all lower fold new_id parse vs now rows).1 ≡ row_of name rows
  unfolding upsert_all
  row_of-upsert_all name [] now rows h = refl
  row_of-upsert_all name (v ∷ vs) now rows h = ground (
    arith,
    h,
    row_of-upsert_faction name v now rows rows,
    row_of-upsert_all name vs now (upsert_faction lower fold new_id parse v now rows rows).1,
  )

  -- The returned rows are those of the names, in their order, and carry what was sent.
  abbrev pub Carried : List ValidFaction → List Faction → List Faction → Type 0
  Carried [] [] table = Unit {0}
  Carried [] (r ∷ rows) table = ⊥
  Carried (v ∷ vs) [] table = ⊥
  Carried (v ∷ vs) (r ∷ rows) table =
      (row_of v.name table ≡ some r)
      × ((r.government ≡ v.government) × (r.allegiance ≡ v.allegiance))
      × Carried vs rows table

  upsert_all-Carried :
      (vs : List ValidFaction) (now : ℕ) (rows : List Faction)
      → is_repeated lower fold new_id parse vs ≡ false
      → let result = upsert_all lower fold new_id parse vs now rows in Carried vs result.0 result.1
  unfolding upsert_all
  upsert_all-Carried [] now rows h = tt
  upsert_all-Carried (v ∷ vs) now rows h =
      let one = upsert_faction lower fold new_id parse v now rows rows in
      (
        row_of-upsert_all v.name vs now one.1 (ground (arith, h))
            ∙ ground (
              arith,
              row_of-upsert_faction v.name v now rows rows,
              ==_iff (fold v.name) (fold v.name),
            ),
        upsert_faction-carries v now rows rows,
        upsert_all-Carried vs now one.1 (ground (arith, h)),
      )

  -- The same of the factions of a message, whose texts are mapped to the values of the columns.
  abbrev pub IsReturned : List MessageFaction → List Faction → List Faction → Type 0
  IsReturned [] [] table = Unit {0}
  IsReturned [] (r ∷ rows) table = ⊥
  IsReturned (f ∷ fs) [] table = ⊥
  IsReturned (f ∷ fs) (r ∷ rows) table =
      (row_of f.name table ≡ some r)
      × (map_government lower (some f.government) ≡ value r.government)
      × (map_allegiance lower (some f.allegiance) ≡ value r.allegiance)
      × IsReturned fs rows table

  abbrev pub is_sent : Text → List MessageFaction → Bool
  is_sent name [] = false
  is_sent name (f ∷ fs) = (fold f.name == fold name) || is_sent name fs

  pub record IsUpsertOf (factions : List MessageFaction) (rows : List Faction)
      (result : List Faction × List Faction) : Type 0 where
    pub returned : IsReturned factions result.0 result.1
    pub others :
        (name : Text) → is_sent name factions ≡ false → row_of name result.1 ≡ row_of name rows

  module _
      (honest : (d : FactionInsert) (v : ValidFaction)
        → parse d ≡ some v
        → (v.name ≡ d.name)
          × (d.government ≡ value v.government)
          × (d.allegiance ≡ value v.allegiance)) where
    -- What was parsed says the same as what was sent.
    validated-IsReturned :
        (factions : List MessageFaction) (vs : List ValidFaction) (rows table : List Faction)
        → validated lower fold new_id parse factions ≡ some vs
        → Carried vs rows table
        → IsReturned factions rows table
    unfolding validated
    validated-IsReturned [] [] [] table e c = tt
    validated-IsReturned [] [] (r ∷ rows) table e c = absurd c
    validated-IsReturned [] (v ∷ vs) rows table e c = absurd (ground (arith, e))
    validated-IsReturned (f ∷ fs) vs rows table e c =
        go (parse (to_faction_data lower fold new_id parse f))
          (validated lower fold new_id parse fs) vs rows refl e (validated-IsReturned fs) refl c
      where
        go :
            (o : Option ValidFaction) (rest : Option (List ValidFaction)) (vs : List ValidFaction)
            (rows : List Faction)
            → parse (to_faction_data lower fold new_id parse f) ≡ o
            → elim o [ none ↦ none | some v ↦ elim rest [ none ↦ none | some vs ↦ some (v ∷ vs) ] ]
              ≡ some vs
            → ((vs : List ValidFaction) (rows table : List Faction)
                → validated lower fold new_id parse fs ≡ some vs
                → Carried vs rows table
                → IsReturned fs rows table)
            → validated lower fold new_id parse fs ≡ rest
            → Carried vs rows table
            → IsReturned (f ∷ fs) rows table
        go none rest vs rows p k ih q c = absurd (ground (arith, k))
        go (some v) none vs rows p k ih q c = absurd (ground (arith, k))
        go (some v) (some ws) [] rows p k ih q c = absurd (ground (arith, k))
        go (some v) (some ws) (w ∷ vs) [] p k ih q c = absurd c
        go (some v) (some ws) (w ∷ vs) (r ∷ rows) p k ih q c =
            let h = honest (to_faction_data lower fold new_id parse f) v p in
            let same : v ≡ w = ground (arith, k) in
            let others : ws ≡ vs = ground (arith, k) in
            (
              ground (arith, c.0, h.0, ap (λ u. u.name) same),
              h.1 ∙ ap value (ap (λ u. u.government) same ∙ sym c.1.0),
              h.2 ∙ ap value (ap (λ u. u.allegiance) same ∙ sym c.1.1),
              ih vs rows table (q ∙ ap some others) c.2,
            )

    mentions-is_sent :
        (name : Text) (factions : List MessageFaction) (vs : List ValidFaction)
        → validated lower fold new_id parse factions ≡ some vs
        → mentions lower fold new_id parse name vs ≡ is_sent name factions
    unfolding validated
    mentions-is_sent name [] [] e = refl
    mentions-is_sent name [] (v ∷ vs) e = absurd (ground (arith, e))
    mentions-is_sent name (f ∷ fs) vs e =
        go (parse (to_faction_data lower fold new_id parse f))
          (validated lower fold new_id parse fs) vs refl e (mentions-is_sent name fs) refl
      where
        go :
            (o : Option ValidFaction) (rest : Option (List ValidFaction)) (vs : List ValidFaction)
            → parse (to_faction_data lower fold new_id parse f) ≡ o
            → elim o [ none ↦ none | some v ↦ elim rest [ none ↦ none | some vs ↦ some (v ∷ vs) ] ]
              ≡ some vs
            → ((vs : List ValidFaction)
                → validated lower fold new_id parse fs ≡ some vs
                → mentions lower fold new_id parse name vs ≡ is_sent name fs)
            → validated lower fold new_id parse fs ≡ rest
            → mentions lower fold new_id parse name vs ≡ is_sent name (f ∷ fs)
        go none rest vs p k ih q = absurd (ground (arith, k))
        go (some v) none vs p k ih q = absurd (ground (arith, k))
        go (some v) (some ws) vs p k ih q =
            subst (λ us. mentions lower fold new_id parse name us ≡ is_sent name (f ∷ fs))
              (some-injective _ _ k)
              (rw ((honest (to_faction_data lower fold new_id parse f) v p).0, ih ws q) refl)

    -- Where the insert schema keeps the name and lets only set columns through unchanged, an upsert of
    -- factions that does not throw returns one row for each faction that was sent, in their order: the
    -- row that its name then has, with the government and the allegiance that were sent. The rows of
    -- the names that were not sent are as they were.
    pub upsert_factions_lem :
        (factions : List MessageFaction) (now : ℕ) (rows : List Faction)
        (result : List Faction × List Faction)
        → upsert_factions lower fold new_id parse factions now rows ≡ some result
        → IsUpsertOf factions rows result
    unfolding upsert_factions
    upsert_factions_lem factions now rows result h =
        go (validated lower fold new_id parse factions) refl h
      where
        go :
            (o : Option (List ValidFaction))
            → validated lower fold new_id parse factions ≡ o
            → elim o [
              | none ↦ none
              | some vs ↦
                  if is_repeated lower fold new_id parse vs
                  then none
                  else some (upsert_all lower fold new_id parse vs now rows)
            ]
              ≡ some result
            → IsUpsertOf factions rows result
        go none e k = absurd (ground (arith, k))
        go (some vs) e k = elim (Bool-cases (is_repeated lower fold new_id parse vs)) [
          | inl r ↦ absurd (ground (arith, k, r))
          | inr r ↦ subst (IsUpsertOf factions rows) (ground (arith, k, r)) (record {
            returned = validated-IsReturned factions vs _ _ e (upsert_all-Carried vs now rows r);
            others = λ name m.
                row_of-upsert_all name vs now rows (mentions-is_sent name factions vs e ∙ m);
          })
        ]
