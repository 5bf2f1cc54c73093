-- ===== src/Worker/Stations/Strongholds.antt =====
-- apps/eddn-worker/src/mq/queues/eddn/helpers/stationHelpers.ts and strongholdCarrierHelpers.ts: the
-- upsert of a stronghold carrier.
use mathlib.Core.List.{Memᴰ}
use elitehub_vault.Base.{
  Bool-cases, ◌||◌, ℕ, Text, text_eq, nat_eq, List, [], ◌∷◌, Option, none, some, Bool, true, false,
  not, ◌&&◌, ◌≡◌, refl, ap, ◌∙◌, arith, ◌==◌, ==_iff, if◌then◌else◌, keep, All, All-keep, contains,
  inl, inr, ◌⊎◌,
}
use elitehub_vault.Worker.Stations.{
  Station, StationInsert, Postgres, is_named, clashes, delete_station_by_id, to_option,
  has_references, find_station_by_market_id, insert_station, commit, new_station, all_of,
  is_consistent,
}
use elitehub_vault.Worker.Stations.Upserts.{
  upsert_found, upsert_carrier, upsert_stronghold_carrier, is_carrier_row, is_stronghold_carrier,
  find_stronghold_carriers_in_system, stronghold_carrier_name, is_stronghold, delete_reused,
}
use elitehub_vault.Worker.Stations.Rows.{
  All-map, All-and, All-keep_test, keep_none, keep-All_back, All-all_of, all_of-All,
}
use elitehub_vault.Worker.Stations.Finds.{
  IsFound, Found, All_at, All-member, keep-IsTable, member-IsFound,
}
use elitehub_vault.Worker.Stations.Writes.{IsTable, IsUpserted, is_other, is_marketed}
use elitehub_vault.Worker.Stations.Survivors.{IsPrepared, insert_station-IsUpserted}
use elitehub_vault.Worker.Stations.Regular.{
  upsert_found-IsUpserted, upsert_found_unreferenced, find_station_by_market_id-Found,
  others-deleted, after_deletion, marketed_rows, named_rows,
}

module _ (db : Postgres) (trim_and_lower : Text → Text) where
  -- The name of a carrier is taken by a row that is no carrier and has another market id.
  abbrev pub blocks : StationInsert → Station → Bool
  blocks values s =
      is_named db values.system_id values.name s
      && not (is_carrier_row db trim_and_lower values.system_id s)
      && not (is_marketed db values.market_id s)

  abbrev pub is_taken : StationInsert → List Station → Bool
  is_taken values rows = not (all_of (λ s. not (blocks values s)) rows)

  -- The name is taken, or the system or the faction of the carrier has no row.
  abbrev pub is_blocked : StationInsert → List Station → Bool
  is_blocked values rows = not (has_references db values) || is_taken values rows

  -- Two rows with the name of one station are one.
  two_named :
      (system_id name : Text) (r s : Station) (rows : List Station)
      → IsTable db (r ∷ s ∷ rows)
      → is_named db system_id name r ≡ true
      → is_named db system_id name s ≡ true
      → ⊥
  unfolding contains
  two_named system_id name r s rows t hr hs = ground (
    arith,
    t.0,
    t.1,
    hr,
    hs,
    ==_iff s.id r.id,
    ==_iff r.system_id system_id,
    ==_iff s.system_id system_id,
    ==_iff s.system_id r.system_id,
    ==_iff (db.fold r.name) (db.fold name),
    ==_iff (db.fold s.name) (db.fold name),
    ==_iff (db.fold s.name) (db.fold r.name),
  )

  -- A system has at most one stronghold carrier, since its name is unique there.
  carriers :
      (rows : List Station) (system_id : Text)
      → IsTable db rows
      → (keep (is_carrier_row db trim_and_lower system_id) rows ≡ [])
        ⊎ ((r : Station) × (keep (is_carrier_row db trim_and_lower system_id) rows ≡ r ∷ [])
            × Memᴰ r rows
            × (is_carrier_row db trim_and_lower system_id r ≡ true))
  unfolding is_carrier_row
  carriers rows system_id t =
      go (keep (is_carrier_row db trim_and_lower system_id) rows)
        (keep-IsTable db (is_carrier_row db trim_and_lower system_id) rows t)
        (All-keep_test _ (is_carrier_row db trim_and_lower system_id) rows (All-member rows))
    where
      go :
          (found : List Station)
          → IsTable db found
          → All (λ s. Memᴰ s rows × (is_carrier_row db trim_and_lower system_id s ≡ true)) found
          → (found ≡ [])
            ⊎ ((r : Station) × (found ≡ r ∷ [])
                × Memᴰ r rows
                × (is_carrier_row db trim_and_lower system_id r ≡ true))
      go [] t h = inl refl
      go (r ∷ []) t h = inr (r, refl, h.0.0, h.0.1)
      go (r ∷ s ∷ found) t h = absurd (
          two_named system_id stronghold_carrier_name r s found t (ground (arith, h.0.1))
            (ground (arith, h.1.0.1)))

  module _ (values : StationInsert) (now : ℕ) (p : IsPrepared trim_and_lower values) where
    -- With a carrier in the system, the upsert is the regular one of its row.
    upsert_carrier-Found :
        (rows : List Station) (survivor : Station) (by_market : Option Station)
        → Found db (is_marketed db values.market_id) rows by_market
        → Memᴰ survivor rows
        → upsert_carrier db trim_and_lower rows values now (survivor ∷ []) by_market
          ≡ upsert_found db trim_and_lower rows values now by_market (some survivor)
    upsert_carrier-Found rows survivor none fm member = refl
    upsert_carrier-Found rows survivor (some m) fm member = ground (
      arith,
      All_at (λ s. (s.id == m.id) ≡ true → s ≡ m) survivor rows member fm.only,
      ==_iff survivor.id m.id,
      ==_iff m.id survivor.id,
    )

    -- The rows that are left when the market id is freed.
    freed :
        (rows : List Station) (by_market : Option Station)
        → IsTable db rows
        → Found db (is_marketed db values.market_id) rows by_market
        → let rest = delete_reused db trim_and_lower rows by_market none in
          IsTable db rest
          × All (λ s. is_marketed db values.market_id s ≡ false) rest
          × (keep (is_other db values) rest ≡ keep (is_other db values) rows)
    unfolding delete_station_by_id
    freed rows none t fm = (t, fm, refl)
    freed rows (some m) t fm = (
      keep-IsTable db (λ r. not (r.id == m.id)) rows t,
      All-map (λ s h. ground (arith, h.0, h.1)) (delete_station_by_id db rows m.id)
          (All-keep_test _ (λ r. not (r.id == m.id)) rows (marketed_rows db values rows m fm)),
      others-deleted db values rows m fm,
    )

    freed-All :
        (P : Station → Type 0) (rows : List Station) (by_market : Option Station)
        → All P rows
        → All P (delete_reused db trim_and_lower rows by_market none)
    unfolding delete_station_by_id
    freed-All P rows none h = h
    freed-All P rows (some m) h = All-keep P (λ r. not (r.id == m.id)) rows h

    freed-All_back :
        (P : Station → Type 0) (rows : List Station) (by_market : Option Station)
        → Found db (is_marketed db values.market_id) rows by_market
        → All P (delete_reused db trim_and_lower rows by_market none)
        → All (λ s. is_marketed db values.market_id s ≡ false → P s) rows
    unfolding delete_station_by_id
    freed-All_back P rows none fm h = All-map (λ s k _. k) rows h
    freed-All_back P rows (some m) fm h =
        All-map (λ s k e. k.1 (ground (arith, k.0, e))) rows
          (All-and _ _ rows (marketed_rows db values rows m fm)
            (keep-All_back P (λ r. not (r.id == m.id)) rows h))

    pub upsert_carrier_new :
        (rows : List Station) (by_market : Option Station)
        → has_references db values ≡ true
        → IsTable db rows
        → Found db (is_marketed db values.market_id) rows by_market
        → keep (is_carrier_row db trim_and_lower values.system_id) rows ≡ []
        → is_taken values rows ≡ false
        → (written : List Station) × (upsert_carrier db trim_and_lower rows values now [] by_market
            ≡ some written)
          × IsUpserted db values rows written
    upsert_carrier_new rows by_market refs t fm none_found free =
        let rest = delete_reused db trim_and_lower rows by_market none in
        let f = freed rows by_market t fm in
        let u = insert_station-IsUpserted db trim_and_lower rest values p f.0 refs (
          All-map (λ s h. ground (arith, h.0, h.1.0, h.1.1)) rest
            (All-and _ _ rest f.1 (
              All-and _ _ rest
                (freed-All (λ s. is_carrier_row db trim_and_lower values.system_id s ≡ false) rows
                  by_market
                  (keep_none (is_carrier_row db trim_and_lower values.system_id) rows none_found))
                (freed-All (λ s. not (blocks values s) ≡ true) rows by_market
                  (All-all_of (λ s. not (blocks values s)) rows (ground (arith, free))))))) in
        (
          u.0,
          u.1,
          after_deletion db values rows rest u.0
              (freed-All (λ s. Memᴰ s rows) rows by_market (All-member rows)) f.2 u.2,
        )

    unnamed :
        (i : Text) (s : Station)
        → (s.id == i) ≡ false
        → not (clashes db (new_station db i values) s) ≡ true
        → is_named db values.system_id values.name s ≡ false
    unnamed i s h k = ground (arith, h, k)

    pub upsert_carrier_blocked :
        (rows : List Station) (by_market : Option Station)
        → IsTable db rows
        → Found db (is_marketed db values.market_id) rows by_market
        → is_taken values rows ≡ true
        → upsert_carrier db trim_and_lower rows values now [] by_market ≡ none
    unfolding insert_station commit
    upsert_carrier_blocked rows by_market t fm blocked =
        go (has_references db values) (is_consistent db (new ∷ rest)) refl
      where
        rest : List Station
        rest = delete_reused db trim_and_lower rows by_market none

        new : Station
        new = new_station db (db.new_id rest) values

        go :
            (r b : Bool)
            → is_consistent db (new ∷ rest) ≡ b
            → (if r then if b then some (new ∷ rest) else none else none) ≡ none
        go false b e = refl
        go true false e = refl
        go true true e = absurd (
            ground (
              arith,
              blocked,
              all_of-All (λ s. not (blocks values s)) rows
                  (All-map (λ s h. ground (arith, h)) rows
                    (freed-All_back (λ s. is_named db values.system_id values.name s ≡ false) rows
                      by_market fm
                      (All-map (λ s h. unnamed (db.new_id rest) s h.0 h.1) rest
                        (All-and _ _ rest (db.new_id_fresh rest)
                          (All-all_of (λ s. not (clashes db new s)) rest (ground (arith, e))))))),
            ))

    named_at_once :
        (rows : List Station) (r : Station)
        → IsTable db rows
        → is_stronghold_carrier values ≡ true
        → Memᴰ r rows
        → is_carrier_row db trim_and_lower values.system_id r ≡ true
        → IsFound db (is_named db values.system_id values.name) rows r
    unfolding is_stronghold_carrier is_carrier_row
    named_at_once rows r t c member h =
        member-IsFound db (is_named db values.system_id values.name) rows r t member
          (ground (arith, h, c, ==_iff values.name stronghold_carrier_name))

    carrier_frees_row :
        (r s : Station)
        → is_carrier_row db trim_and_lower values.system_id r ≡ true
        → is_named db values.system_id values.name s ≡ (s.id == r.id)
        → ((s.id == r.id) ≡ true → s ≡ r)
        → not (blocks values s) ≡ true
    carrier_frees_row r s h named only = go (s.id == r.id) refl
      where
        go : (b : Bool) → (s.id == r.id) ≡ b → not (blocks values s) ≡ true
        go true e =
            ground (arith, h, ap (is_carrier_row db trim_and_lower values.system_id) (only e))
        go false e = ground (arith, named, e)

    carrier_frees :
        (rows : List Station) (r : Station)
        → is_carrier_row db trim_and_lower values.system_id r ≡ true
        → IsFound db (is_named db values.system_id values.name) rows r
        → is_taken values rows ≡ false
    carrier_frees rows r h f = ap not (
        all_of-All (λ s. not (blocks values s)) rows
          (All-map (λ s k. carrier_frees_row r s h k.0 k.1) rows
            (All-and _ _ rows (named_rows db values rows r f) f.only)))

    listed :
        (rows : List Station) (system_id : Text) (found : List Station)
        → keep (is_carrier_row db trim_and_lower system_id) rows ≡ found
        → db.order found ≡ found
        → find_stronghold_carriers_in_system db trim_and_lower rows system_id ≡ found
    unfolding find_stronghold_carriers_in_system
    listed rows system_id found e o = ap db.order e ∙ o

    upsert_carrier_unreferenced :
        (rows : List Station) (by_market : Option Station)
        → has_references db values ≡ false
        → upsert_carrier db trim_and_lower rows values now [] by_market ≡ none
    unfolding insert_station
    upsert_carrier_unreferenced rows by_market f = rw f refl

    -- Without a carrier in the system.
    upsert_carrier_refused :
        (rows : List Station) (by_market : Option Station)
        → IsTable db rows
        → Found db (is_marketed db values.market_id) rows by_market
        → is_blocked values rows ≡ true
        → upsert_carrier db trim_and_lower rows values now [] by_market ≡ none
    upsert_carrier_refused rows by_market t fm b = elim (Bool-cases (has_references db values)) [
      | inl f ↦ upsert_carrier_blocked rows by_market t fm (ground (arith, b, f))
      | inr f ↦ upsert_carrier_unreferenced rows by_market f
    ]

    -- In a table within its constraints, the upsert of a stronghold carrier does nothing in a system
    -- that is no stronghold; else it fails where the system or the faction of the carrier has no row or
    -- its name is taken by a row that is no carrier and has another market id, and is the upsert of the
    -- station everywhere else.
    pub upsert_stronghold_carrier_lem :
        (rows : List Station)
        → IsTable db rows
        → is_stronghold_carrier values ≡ true
        → let result = upsert_stronghold_carrier db trim_and_lower rows values now in
          let stronghold = is_stronghold (db.system_powerplay_state values.system_id) in
          (stronghold ≡ false → result ≡ some rows)
          × (stronghold ≡ true → is_blocked values rows ≡ true → result ≡ none)
          × (stronghold ≡ true
              → is_blocked values rows ≡ false
              → (written : List Station) × (result ≡ some written)
                × IsUpserted db values rows written)
    unfolding upsert_stronghold_carrier
    upsert_stronghold_carrier_lem rows t c = elim (carriers rows values.system_id t) [
      | inl e ↦ (
        λ s. ground (arith, s),
        λ s b.
            rw (s, listed rows values.system_id [] e db.order_empty)
              (upsert_carrier_refused rows by_market t fm b),
        λ s b.
            rw (s, listed rows values.system_id [] e db.order_empty)
              (upsert_carrier_new rows by_market (ground (arith, b)) t fm e (ground (arith, b))),
      )
      | inr (r, e, member, h) ↦ (
        λ s. ground (arith, s),
        λ s b.
            let named = named_at_once rows r t c member h in
            rw
              (
                s,
                listed rows values.system_id (r ∷ []) e (db.order_one r),
                upsert_carrier-Found rows r by_market fm member,
              )
              (upsert_found_unreferenced db trim_and_lower values now
                (ground (arith, b, carrier_frees rows r h named)) rows by_market (some r) fm named),
        λ s b.
            rw
              (
                s,
                listed rows values.system_id (r ∷ []) e (db.order_one r),
                upsert_carrier-Found rows r by_market fm member,
              )
              (upsert_found-IsUpserted db trim_and_lower values now p (ground (arith, b)) rows
                by_market (some r) t fm (named_at_once rows r t c member h)),
      )
    ]
      where
        by_market : Option Station
        by_market = find_station_by_market_id db rows (to_option values.market_id)

        fm : Found db (is_marketed db values.market_id) rows by_market
        fm = find_station_by_market_id-Found db rows (to_option values.market_id) t
