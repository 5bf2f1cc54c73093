-- ===== src/Worker/Stations/Survivors.antt =====
-- apps/eddn-worker: the last statement of an upsert, an insert or the update of the surviving row.
use mathlib.Core.Path.{subst}
use mathlib.Core.List.{Memᴰ}
use elitehub_vault.Worker.Stations.Finds.{All-member}
use elitehub_vault.Base.{
  ℕ, Bool, inl, inr, Text, text_eq, nat_eq, List, [], ◌∷◌, map, none, some, true, false, not, ◌≡◌,
  refl, ap, ◌∙◌, arith, ◌==◌, ==_iff, ==_refl, keep, All, contains,
}
use elitehub_vault.Worker.Services.{
  strings, normalize_service_values, partition_station_services, prepare_station_write_payload,
  normalize_station_services, build_station_write_payload,
}
use elitehub_vault.Worker.Stations.{
  Station, StationInsert, Postgres, all_of, clashes, set_to, set_station, set_where_id, commit,
  has_references, insert_station, update_station_by_id, new_station, blank_station,
}
use elitehub_vault.Worker.Stations.Upserts.{with_payload, update_survivor}
use elitehub_vault.Worker.Stations.Rows.{
  ids, All-all_of, all_of-All, All-map, All-and, keep-All-false, All-keep_test,
}
use elitehub_vault.Worker.Stations.Writes.{
  IsTable, IsUpserted, IsSurvivor, is_other, change-IsTable, others-change, survivor-change,
  set_station-HasColumns, HasServices, same_key_sym, same_key_set,
}

-- The services are normalised, and the values of the new column are those among them.
abbrev pub IsPrepared : (Text → Text) → StationInsert → Type 0
IsPrepared trim_and_lower values =
    (ss : List Text)
    → values.services ≡ some ss
    → (normalize_service_values trim_and_lower (strings ss) ≡ ss)
      × (values.services_v2 ≡ some (partition_station_services ss).0)

-- What is kept was there.
keep-alone :
    (test : Station → Bool) (r : Station) (rows : List Station)
    → keep test rows ≡ r ∷ []
    → Memᴰ r rows
keep-alone test r rows h =
    let kept =
      subst (All (λ s. Memᴰ s rows × (test s ≡ true))) h
        (All-keep_test (λ s. Memᴰ s rows) test rows (All-member rows)) in
    kept.0.0

module _ (db : Postgres) (trim_and_lower : Text → Text) where
  update_survivor-services :
      (values : StationInsert) (survivor : Station) (now : ℕ)
      → IsPrepared trim_and_lower values
      → HasServices db values
          (set_station (with_payload trim_and_lower values (some survivor)) now survivor)
  unfolding prepare_station_write_payload normalize_station_services build_station_write_payload
  update_survivor-services values survivor now p ss e =
      (ground (arith, e, (p ss e).0), ground (arith, e, (p ss e).0))

  pub update_survivor-IsUpserted :
      (rows : List Station) (values : StationInsert) (survivor : Station) (now : ℕ)
      → IsPrepared trim_and_lower values
      → IsTable db rows
      → has_references db values ≡ true
      → IsSurvivor db values now survivor.id rows
      → keep (λ s. s.id == survivor.id) rows ≡ survivor ∷ []
      → (written : List Station) × (update_survivor db trim_and_lower rows values survivor now
          ≡ some written)
        × IsUpserted db values rows written
  unfolding update_station_by_id commit
  update_survivor-IsUpserted rows values survivor now p t f s k =
      let w = with_payload trim_and_lower values (some survivor) in
      let t1 = change-IsTable db w now survivor.id rows s t in
      (
        map (set_where_id survivor.id (set_station w now)) rows,
        ground (arith, t1.0, f),
        record {
          table = t1;
          others = others-change db w now survivor.id rows s;
          row = set_station w now survivor;
          alone = survivor-change db w now survivor.id rows s ∙ ap (map (set_station w now)) k;
          old = survivor;
          was = inl (keep-alone (λ s. s.id == survivor.id) survivor rows k, refl);
          carries = set_station-HasColumns db values w.services w.services_v2 now survivor;
          services = update_survivor-services values survivor now p;
        },
      )

  -- Without the rows that the station refers to, the update of a row that is there fails.
  pub update_survivor_unreferenced :
      (rows : List Station) (values : StationInsert) (survivor : Station) (now : ℕ)
      → has_references db values ≡ false
      → keep (λ s. s.id == survivor.id) rows ≡ survivor ∷ []
      → update_survivor db trim_and_lower rows values survivor now ≡ none
  unfolding update_station_by_id
  update_survivor_unreferenced rows values survivor now f k = rw (f, k) refl

  -- A row without the name and the market id of the station stands beside the new one.
  new_station-apart :
      (i : Text) (values : StationInsert) (s : Station)
      → is_other db values s ≡ true
      → (not (clashes db (new_station db i values) s) ≡ true)
        × (not (clashes db s (new_station db i values)) ≡ true)
  new_station-apart i values s h = ground (
    arith,
    h,
    ==_iff s.system_id values.system_id,
    ==_iff values.system_id s.system_id,
    ==_iff (db.fold s.name) (db.fold values.name),
    ==_iff (db.fold values.name) (db.fold s.name),
    same_key_set db values.market_id none s.market_id,
    same_key_sym db s.market_id (set_to values.market_id none),
  )

  contains-ids-fresh :
      (i : Text) (rows : List Station)
      → All (λ r. (r.id == i) ≡ false) rows
      → contains i (ids rows) ≡ false
  unfolding contains
  contains-ids-fresh i [] h = refl
  contains-ids-fresh i (r ∷ rows) h = ground (arith, h.0, contains-ids-fresh i rows h.1)

  insert_station-IsTable :
      (rows : List Station) (values : StationInsert)
      → IsTable db rows
      → All (λ s. is_other db values s ≡ true) rows
      → IsTable db (new_station db (db.new_id rows) values ∷ rows)
  insert_station-IsTable rows values t o =
      let i = db.new_id rows in
      let new = new_station db i values in
      let apart = All-map (new_station-apart i values) rows o in
      let first : all_of (λ s. not (clashes db new s)) rows ≡ true =
        all_of-All _ rows (All-map (λ s h. h.0) rows apart) in
      let others : all_of (λ r. all_of (λ s. not (clashes db r s)) (new ∷ rows)) rows ≡ true =
        all_of-All _ rows (
          All-map (λ r h. ground (arith, h.0.1, h.1)) rows
            (All-and _ _ rows apart (All-all_of _ rows t.0))) in
      (
        ground (arith, ==_refl i, first, others),
        (contains-ids-fresh i rows (db.new_id_fresh rows), t.1),
      )

  new_station-named :
      (i : Text) (values : StationInsert) → is_other db values (new_station db i values) ≡ false
  new_station-named i values =
      ground (arith, ==_refl values.system_id, ==_refl (db.fold values.name))

  pub insert_station-IsUpserted :
      (rows : List Station) (values : StationInsert)
      → IsPrepared trim_and_lower values
      → IsTable db rows
      → has_references db values ≡ true
      → All (λ s. is_other db values s ≡ true) rows
      → (written : List Station) × (insert_station db rows values ≡ some written)
        × IsUpserted db values rows written
  unfolding insert_station commit keep
  insert_station-IsUpserted rows values p t f o =
      let new = new_station db (db.new_id rows) values in
      let t1 = insert_station-IsTable rows values t o in
      (
        new ∷ rows,
        ground (arith, t1.0, f),
        record {
          table = t1;
          others = ground (arith, new_station-named (db.new_id rows) values);
          row = new;
          alone = ground (
            arith,
            new_station-named (db.new_id rows) values,
            keep-All-false (λ s. not (is_other db values s)) rows
                (All-map (λ s h. ap not h) rows o),
          );
          old = blank_station db (db.new_id rows) values;
          was = inr (refl, refl, refl, refl, refl, refl, refl, refl, refl);
          carries =
              set_station-HasColumns db values values.services values.services_v2
                db.transaction_time (blank_station db (db.new_id rows) values);
          services = λ ss e. (ground (arith, e), ground (arith, e, (p ss e).1));
        },
      )
