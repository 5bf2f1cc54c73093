-- ===== src/Worker/Stations/Regular.antt =====
-- apps/eddn-worker/src/mq/queues/eddn/helpers/stationHelpers.ts: the upsert of a regular station.
use mathlib.Core.List.{Memᴰ}
use elitehub_vault.Base.{
  inl, inr, [], ◌∷◌, ℕ, Text, text_eq, nat_eq, List, Option, none, some, Bool, true, false, not,
  ◌≡◌, refl, ◌∙◌, arith, ◌==◌, ==_iff, if◌then◌else◌, keep, All, keep-keep,
}
use elitehub_vault.Worker.Stations.{
  has_references, insert_station, Station, StationInsert, Postgres, is_named, same_key, clashes,
  delete_station_by_id, to_option, find_station_by_market_id, find_station_by_system_and_name,
  is_market,
}
use elitehub_vault.Worker.Stations.Upserts.{update_survivor, upsert_found, upsert_regular_station}
use elitehub_vault.Worker.Stations.Rows.{All-map, All-and, keep-congr-All, All-keep_test}
use elitehub_vault.Worker.Stations.Finds.{
  IsFound, Found, All-member, keep-IsTable, pick-Found, All_at,
}
use elitehub_vault.Worker.Stations.Writes.{IsTable, IsUpserted, is_other, is_marketed}
use elitehub_vault.Worker.Stations.Survivors.{
  IsPrepared, update_survivor-IsUpserted, update_survivor_unreferenced, insert_station-IsUpserted,
}

same_key-eq : (a b : Option ℕ) → same_key a b ≡ true → a ≡ b
same_key-eq none b h = ground (arith, h)
same_key-eq (some m) none h = ground (arith, h)
same_key-eq (some m) (some n) h = ground (arith, h, ==_iff m n)

module _ (db : Postgres) where
  -- What a found row tells of any row of the table.
  named_row :
      (values : StationInsert) (r s : Station)
      → is_named db values.system_id values.name r ≡ true
      → ((s.id == r.id) ≡ true → s ≡ r)
      → not (clashes db r s) ≡ true
      → is_named db values.system_id values.name s ≡ (s.id == r.id)
  named_row values r s h only alone = ground (
    arith,
    h,
    only,
    alone,
    ==_iff s.system_id values.system_id,
    ==_iff r.system_id values.system_id,
    ==_iff s.system_id r.system_id,
    ==_iff (db.fold s.name) (db.fold values.name),
    ==_iff (db.fold r.name) (db.fold values.name),
    ==_iff (db.fold s.name) (db.fold r.name),
  )

  marketed_row :
      (market_id : Option ℕ) (r s : Station)
      → same_key market_id r.market_id ≡ true
      → ((s.id == r.id) ≡ true → s ≡ r)
      → not (clashes db r s) ≡ true
      → same_key market_id s.market_id ≡ (s.id == r.id)
  marketed_row market_id r s h only alone =
      ground (arith, h, only, alone, same_key-eq market_id r.market_id)

  All-rows :
      (test : Station → Bool) (rows : List Station) (r : Station)
      → ((s : Station)
          → ((s.id == r.id) ≡ true → s ≡ r)
          → not (clashes db r s) ≡ true
          → test s ≡ (s.id == r.id))
      → IsFound db test rows r
      → All (λ s. test s ≡ (s.id == r.id)) rows
  All-rows test rows r step f =
      All-map (λ s h. step s h.0 h.1) rows (All-and _ _ rows f.only f.alone)

  pub named_rows :
      (values : StationInsert) (rows : List Station) (r : Station)
      → IsFound db (is_named db values.system_id values.name) rows r
      → All (λ s. is_named db values.system_id values.name s ≡ (s.id == r.id)) rows
  named_rows values rows r f =
      All-rows (is_named db values.system_id values.name) rows r
        (λ s. named_row values r s f.passes) f

  pub marketed_rows :
      (values : StationInsert) (rows : List Station) (r : Station)
      → IsFound db (is_marketed db values.market_id) rows r
      → All (λ s. is_marketed db values.market_id s ≡ (s.id == r.id)) rows
  marketed_rows values rows r f =
      All-rows (is_marketed db values.market_id) rows r
        (λ s. marketed_row (to_option values.market_id) r s f.passes) f

  -- The deletion of the row with the market id leaves the other rows.
  pub others-deleted :
      (values : StationInsert) (rows : List Station) (m : Station)
      → IsFound db (is_marketed db values.market_id) rows m
      → keep (is_other db values) (delete_station_by_id db rows m.id)
        ≡ keep (is_other db values) rows
  unfolding delete_station_by_id
  others-deleted values rows m f =
      keep-keep (is_other db values) (λ r. not (r.id == m.id)) rows
      ∙ keep-congr-All _ _ rows
          (All-map (λ s h. ground (arith, h)) rows (marketed_rows values rows m f))

  pub after_deletion :
      (values : StationInsert) (rows deleted written : List Station)
      → All (λ r. Memᴰ r rows) deleted
      → keep (is_other db values) deleted ≡ keep (is_other db values) rows
      → IsUpserted db values deleted written
      → IsUpserted db values rows written
  after_deletion values rows deleted written m e u = record {
    table = u.table;
    others = u.others ∙ e;
    row = u.row;
    alone = u.alone;
    old = u.old;
    was = elim u.was [
      | inl h ↦ inl (All_at (λ r. Memᴰ r rows) u.old deleted h.0 m, h.1)
      | inr h ↦ inr h
    ];
    carries = u.carries;
    services = u.services;
  }

  pub find_station_by_market_id-Found :
      (rows : List Station) (o : Option ℕ)
      → IsTable db rows
      → Found db (λ s. same_key o s.market_id) rows (find_station_by_market_id db rows o)
  unfolding find_station_by_market_id
  find_station_by_market_id-Found rows none t = All-map (λ s h. refl) rows (All-member rows)
  find_station_by_market_id-Found rows (some m) t = pick-Found db (is_market m) rows t

  -- The row of the name stays where the row of the market id is deleted.
  kept_by_id :
      (rows : List Station) (m n : Station)
      → (m.id == n.id) ≡ false
      → keep (λ r. r.id == n.id) rows ≡ n ∷ []
      → keep (λ r. r.id == n.id) (delete_station_by_id db rows m.id) ≡ n ∷ []
  unfolding delete_station_by_id
  kept_by_id rows m n e k =
      keep-keep (λ r. r.id == n.id) (λ r. not (r.id == m.id)) rows
      ∙ keep-congr-All _ (λ r. r.id == n.id) rows
          (All-map (λ s h. ground (arith, e, ==_iff s.id m.id, ==_iff s.id n.id, ==_iff m.id n.id))
            rows (All-member rows))
      ∙ k

  -- Without the rows that the station refers to, no write goes through.
  module _ (trim_and_lower : Text → Text) (values : StationInsert) (now : ℕ)
      (f : has_references db values ≡ false) where
    pub upsert_found_unreferenced :
        (rows : List Station) (by_market by_name : Option Station)
        → Found db (is_marketed db values.market_id) rows by_market
        → Found db (is_named db values.system_id values.name) rows by_name
        → upsert_found db trim_and_lower rows values now by_market by_name ≡ none
    unfolding insert_station
    upsert_found_unreferenced rows none none fm fn = rw f refl
    upsert_found_unreferenced rows (some m) none fm fn =
        update_survivor_unreferenced db trim_and_lower rows values m now f fm.by_id
    upsert_found_unreferenced rows none (some n) fm fn =
        update_survivor_unreferenced db trim_and_lower rows values n now f fn.by_id
    upsert_found_unreferenced rows (some m) (some n) fm fn = go (m.id == n.id) refl
      where
        go :
            (b : Bool)
            → (m.id == n.id) ≡ b
            → (if b
                then update_survivor db trim_and_lower rows values m now
                else update_survivor db trim_and_lower
                    (delete_station_by_id db rows m.id)
                    values
                    n
                    now)
              ≡ none
        go true e = update_survivor_unreferenced db trim_and_lower rows values m now f fm.by_id
        go false e =
            update_survivor_unreferenced db trim_and_lower (delete_station_by_id db rows m.id)
              values n now f (kept_by_id rows m n e fn.by_id)

    pub upsert_regular_station_unreferenced :
        (rows : List Station)
        → IsTable db rows
        → upsert_regular_station db trim_and_lower rows values now ≡ none
    unfolding upsert_regular_station find_station_by_system_and_name
    upsert_regular_station_unreferenced rows t =
        upsert_found_unreferenced rows
          (find_station_by_market_id db rows (to_option values.market_id))
          (find_station_by_system_and_name db rows values.system_id values.name)
          (find_station_by_market_id-Found rows (to_option values.market_id) t)
          (pick-Found db (is_named db values.system_id values.name) rows t)

  module _ (trim_and_lower : Text → Text) (values : StationInsert) (now : ℕ)
      (p : IsPrepared trim_and_lower values) (f : has_references db values ≡ true) where
    pub upsert_found-IsUpserted :
        (rows : List Station) (by_market by_name : Option Station)
        → IsTable db rows
        → Found db (is_marketed db values.market_id) rows by_market
        → Found db (is_named db values.system_id values.name) rows by_name
        → (written : List Station) × (upsert_found db trim_and_lower rows values now by_market
              by_name
            ≡ some written)
          × IsUpserted db values rows written
    unfolding delete_station_by_id
    upsert_found-IsUpserted rows none none t fm fn =
        insert_station-IsUpserted db trim_and_lower rows values p t f
          (All-map (λ s h. ground (arith, h.0, h.1)) rows (All-and _ _ rows fm fn))
    upsert_found-IsUpserted rows (some m) none t fm fn =
        update_survivor-IsUpserted db trim_and_lower rows values m now p t f
          (All-map (λ s h. ground (arith, h.0, h.1)) rows
            (All-and _ _ rows (marketed_rows values rows m fm) fn))
          fm.by_id
    upsert_found-IsUpserted rows none (some n) t fm fn =
        update_survivor-IsUpserted db trim_and_lower rows values n now p t f
          (All-map (λ s h. ground (arith, h.0, h.1)) rows
            (All-and _ _ rows (named_rows values rows n fn) fm))
          fn.by_id
    upsert_found-IsUpserted rows (some m) (some n) t fm fn = go (m.id == n.id) refl
      where
        both :
            All
              (λ s.
                (is_marketed db values.market_id s ≡ (s.id == m.id))
                × (is_named db values.system_id values.name s ≡ (s.id == n.id)))
              rows
        both = All-and _ _ rows (marketed_rows values rows m fm) (named_rows values rows n fn)

        go :
            (b : Bool)
            → (m.id == n.id) ≡ b
            → (written : List Station) × ((if b
                  then update_survivor db trim_and_lower rows values m now
                  else update_survivor db trim_and_lower
                      (delete_station_by_id db rows m.id)
                      values
                      n
                      now)
                ≡ some written)
              × IsUpserted db values rows written
        go true e =
            update_survivor-IsUpserted db trim_and_lower rows values m now p t f
              (All-map (λ s h. ground (arith, h.0, h.1, e, ==_iff m.id n.id)) rows both) fm.by_id
        go false e =
            let u =
              update_survivor-IsUpserted db trim_and_lower (delete_station_by_id db rows m.id)
                values n now p (keep-IsTable db (λ r. not (r.id == m.id)) rows t) f
                (All-map (λ s h. ground (arith, h.0.0, h.0.1, h.1))
                  (delete_station_by_id db rows m.id)
                  (All-keep_test _ (λ r. not (r.id == m.id)) rows both))
                (kept_by_id rows m n e fn.by_id) in
            (
              u.0,
              u.1,
              after_deletion values rows (delete_station_by_id db rows m.id) u.0
                  (All-map (λ s h. h.0) (delete_station_by_id db rows m.id)
                    (All-keep_test _ (λ r. not (r.id == m.id)) rows (All-member rows)))
                  (others-deleted values rows m fm) u.2,
            )

    -- The regular upsert breaks no unique constraint.
    pub upsert_regular_station-IsUpserted :
        (rows : List Station)
        → IsTable db rows
        → (written : List Station) × (upsert_regular_station db trim_and_lower rows values now
            ≡ some written)
          × IsUpserted db values rows written
    unfolding upsert_regular_station find_station_by_system_and_name
    upsert_regular_station-IsUpserted rows t =
        upsert_found-IsUpserted rows
          (find_station_by_market_id db rows (to_option values.market_id))
          (find_station_by_system_and_name db rows values.system_id values.name) t
          (find_station_by_market_id-Found rows (to_option values.market_id) t)
          (pick-Found db (is_named db values.system_id values.name) rows t)
