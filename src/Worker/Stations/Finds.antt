-- ===== src/Worker/Stations/Finds.antt =====
-- apps/eddn-worker: the rows that the helpers find in the stations table, and the rows they delete.
use mathlib.Core.List.{Memᴰ}
use elitehub_vault.Base.{
  Text, text_eq, nat_eq, List, [], ◌∷◌, Option, none, some, Bool, true, false, not, ◌≡◌, refl,
  arith, ◌==◌, if◌then◌else◌, keep, All, All-keep, contains, IsDistinct,
}
use elitehub_vault.Worker.Stations.{Station, Postgres, clashes}
use elitehub_vault.Worker.Stations.Rows.{
  ids, keep_id, All-all_of, all_of-All, All-map, All-keep_test, keep_none,
}
use elitehub_vault.Worker.Stations.Writes.{IsTable}

keep_single :
    (test : Station → Bool) (xs : List Station) (r : Station)
    → keep test xs ≡ r ∷ []
    → All (λ s. test s ≡ true → s ≡ r) xs
unfolding keep
keep_single test [] r h = tt
keep_single test (x ∷ xs) r h = go (test x) refl (keep_single test xs r) h
  where
    go :
        (b : Bool)
        → test x ≡ b
        → (keep test xs ≡ r ∷ [] → All (λ s. test s ≡ true → s ≡ r) xs)
        → (if b then x ∷ keep test xs else keep test xs) ≡ r ∷ []
        → All (λ s. test s ≡ true → s ≡ r) (x ∷ xs)
    go true e rest k = (
      λ _. ground (arith, k),
      All-map (λ s f t. absurd (ground (arith, f, t))) xs (keep_none test xs (ground (arith, k))),
    )
    go false e rest k = (λ t. absurd (ground (arith, e, t)), rest k)

contains-ids-keep :
    (i : Text) (test : Station → Bool) (rows : List Station)
    → contains i (ids rows) ≡ false
    → contains i (ids (keep test rows)) ≡ false
unfolding contains keep
contains-ids-keep i test [] h = refl
contains-ids-keep i test (r ∷ rows) h = ground (arith, h, contains-ids-keep i test rows)

ids-keep-IsDistinct :
    (test : Station → Bool) (rows : List Station)
    → IsDistinct (ids rows)
    → IsDistinct (ids (keep test rows))
unfolding keep
ids-keep-IsDistinct test [] h = h
ids-keep-IsDistinct test (r ∷ rows) h =
    ground (arith, contains-ids-keep r.id test rows h.0, ids-keep-IsDistinct test rows h.1)

pub All_at {ℓ κ} : {A : Type ℓ} (P : A → Type κ) (a : A) (xs : List A) → Memᴰ a xs → All P xs → P a
All_at P a [] h all = elim h [ ]
All_at P a (x ∷ xs) (Memᴰ.head e) all = rw e all.0
All_at P a (x ∷ xs) (Memᴰ.tail h) all = All_at P a xs h all.1

pub All-member {ℓ} : {A : Type ℓ} (xs : List A) → All (λ a. Memᴰ a xs) xs
All-member [] = tt
All-member (x ∷ xs) = (Memᴰ.head refl, All-map (λ a h. Memᴰ.tail h) xs (All-member xs))

module _ (db : Postgres) where
  -- A deletion breaks no constraint.
  pub keep-IsTable :
      (test : Station → Bool) (rows : List Station) → IsTable db rows → IsTable db (keep test rows)
  keep-IsTable test rows h = (
    all_of-All _ (keep test rows) (
        All-map (λ a k. all_of-All _ (keep test rows) (All-keep _ test rows (All-all_of _ rows k)))
          (keep test rows) (All-keep _ test rows (All-all_of _ rows h.0))),
    ids-keep-IsDistinct test rows h.1,
  )

  -- A row of the table that passes the test.
  pub record IsFound (test : Station → Bool) (rows : List Station) (r : Station) : Type 0 where
    pub member : Memᴰ r rows
    pub passes : test r ≡ true
    pub by_id : keep (λ s. s.id == r.id) rows ≡ r ∷ []
    pub only : All (λ s. (s.id == r.id) ≡ true → s ≡ r) rows
    pub alone : All (λ s. not (clashes db r s) ≡ true) rows

  -- What was found, where nothing is found only when no row passes the test.
  abbrev pub Found : (Station → Bool) → List Station → Option Station → Type 0
  Found test rows none = All (λ s. test s ≡ false) rows
  Found test rows (some r) = IsFound test rows r

  pub member-IsFound :
      (test : Station → Bool) (rows : List Station) (r : Station)
      → IsTable db rows
      → Memᴰ r rows
      → test r ≡ true
      → IsFound test rows r
  member-IsFound test rows r h member passes =
      let by_id = All_at _ r rows member (keep_id rows h.1) in
      record {
        member = member;
        passes = passes;
        by_id = by_id;
        only = keep_single _ rows r by_id;
        alone = All-all_of _ rows (All_at _ r rows member (All-all_of _ rows h.0));
      }

  pub pick-Found :
      (test : Station → Bool) (rows : List Station)
      → IsTable db rows
      → Found test rows (db.pick (keep test rows))
  pick-Found test rows h = go (db.pick (keep test rows)) refl
    where
      go : (o : Option Station) → db.pick (keep test rows) ≡ o → Found test rows o
      go none e = keep_none test rows (db.pick_none (keep test rows) e)
      go (some r) e =
          let found =
            db.pick_some (λ s. Memᴰ s rows × (test s ≡ true)) (keep test rows) r
              (All-keep_test _ test rows (All-member rows)) e in
          member-IsFound test rows r h found.0 found.1
