-- ===== src/Worker/Powerplay/Progress.antt =====
-- apps/eddn-worker/src/mq/queues/eddn/helpers/powerplayHelpers.ts: the progress of the conflicts of a
-- system, as rows and as a message says it.

use elitehub_vault.Base.{
  insert, lookup-insert, ℕ, Text, text_eq, List, [], ◌∷◌, Option, none, some, Bool, true, false,
  not, ◌&&◌, ◌||◌, ◌≡◌, refl, arith, ◌==◌, ==_iff, if◌then◌else◌, keep, Dict, lookup,
}
use elitehub_vault.Worker.Messages.{Double, PowerplayConflictProgress}
use elitehub_vault.Worker.Powerplay.{
  power_id_of, PowerplayPower, PowerplayConflict, is_conflict, set_conflict, set_conflicts,
  is_listed, upsert_powerplay_conflicts, conflicts_by_power_id,
}

module _ (lower : Text → Text) (fold : Text → Text) (new_id : List PowerplayPower → Text) where
  -- The progress of a power in a system.
  abbrev pub progress_of : Text → Text → List PowerplayConflict → Option Double
  progress_of system_id power_id [] = none
  progress_of system_id power_id (row ∷ rows) =
      if is_conflict lower fold new_id system_id power_id row
      then some row.conflict_progress
      else progress_of system_id power_id rows

  progress_of-set_conflict :
      (system power : Text) (v : Double) (now : ℕ) (rows : List PowerplayConflict) (s p : Text)
      → progress_of s p (set_conflict lower fold new_id system power v now rows)
        ≡ (if (system == s) && (power == p) then some v else progress_of s p rows)
  unfolding set_conflict
  progress_of-set_conflict system power v now [] s p = ground arith
  progress_of-set_conflict system power v now (row ∷ rows) s p = ground (
    arith,
    progress_of-set_conflict system power v now rows s p,
    ==_iff row.system_id system,
    ==_iff row.system_id s,
    ==_iff system s,
    ==_iff row.power_id power,
    ==_iff row.power_id p,
    ==_iff power p,
  )

  abbrev pub or_option : Option Double → Option Double → Option Double
  or_option none b = b
  or_option (some a) b = some a

  progress_of-set_conflicts :
      (system : Text) (d : Dict Text Double) (now : ℕ) (rows : List PowerplayConflict) (s p : Text)
      → progress_of s p (set_conflicts lower fold new_id system d now rows) ≡ (
          if system == s
          then or_option (lookup p d) (progress_of s p rows)
          else progress_of s p rows)
  unfolding set_conflicts lookup
  progress_of-set_conflicts system [] now rows s p = ground arith
  progress_of-set_conflicts system ((power, v) ∷ d) now rows s p = ground (
    arith,
    progress_of-set_conflict system power v now (set_conflicts lower fold new_id system d now rows)
        s p,
    progress_of-set_conflicts system d now rows s p,
  )

  progress_of-keep :
      (system : Text) (d : Dict Text Double) (rows : List PowerplayConflict) (s p : Text)
      → progress_of s p (
          keep
            (λ r. not (r.system_id == system) || is_listed lower fold new_id (lookup r.power_id d))
            rows)
        ≡ (if (system == s) && not (is_listed lower fold new_id (lookup p d))
            then none
            else progress_of s p rows)
  unfolding keep
  progress_of-keep system d [] s p = ground arith
  progress_of-keep system d (row ∷ rows) s p = ground (
    arith,
    progress_of-keep system d rows s p,
    ==_iff row.system_id system,
    ==_iff row.system_id s,
    ==_iff system s,
    ==_iff row.power_id p,
  )

  -- A system has exactly the progresses that were sent, those of other systems are as they were.
  pub progress_of-upsert_powerplay_conflicts :
      (system : Text) (d : Dict Text Double) (now : ℕ) (rows : List PowerplayConflict) (s p : Text)
      → progress_of s p (upsert_powerplay_conflicts lower fold new_id system d now rows)
        ≡ (if system == s then lookup p d else progress_of s p rows)
  unfolding upsert_powerplay_conflicts
  progress_of-upsert_powerplay_conflicts system d now rows s p = ground (
    arith,
    progress_of-keep system d (set_conflicts lower fold new_id system d now rows) s p,
    progress_of-set_conflicts system d now rows s p,
  )

-- The name is that of the power with the id.
abbrev pub names_power : Text → List PowerplayPower → Text → Bool
names_power id [] name = false
names_power id (row ∷ rows) name =
    if row.name == name then row.id == id else names_power id rows name

-- The last progress that a message has of the power with the id.
abbrev pub last_progress :
    Text → List PowerplayPower → List PowerplayConflictProgress → Option Double
last_progress id powers [] = none
last_progress id powers (conflict ∷ conflicts) = elim (last_progress id powers conflicts) [
  | some progress ↦ some progress
  | none ↦ if names_power id powers conflict.power then some conflict.conflict_progress else none
]

module _ (lower : Text → Text) (fold : Text → Text) (new_id : List PowerplayPower → Text) where
  pub or_option-none : (o : Option Double) → or_option lower fold new_id o none ≡ o
  or_option-none none = refl
  or_option-none (some x) = refl

  names_power-power_id_of :
      (id name : Text) (powers : List PowerplayPower)
      → names_power id powers name ≡ elim (power_id_of lower fold new_id name powers) [
        | none ↦ false
        | some found ↦ found == id
      ]
  names_power-power_id_of id name [] = refl
  names_power-power_id_of id name (row ∷ rows) =
      go (row.name == name) (names_power-power_id_of id name rows)
    where
      go :
          (b : Bool)
          → names_power id rows name ≡ elim (power_id_of lower fold new_id name rows) [
            | none ↦ false
            | some found ↦ found == id
          ]
          → (if b then row.id == id else names_power id rows name)
            ≡ elim (if b then some row.id else power_id_of lower fold new_id name rows) [
              | none ↦ false
              | some found ↦ found == id
            ]
      go true h = refl
      go false h = h

  pub lookup-conflicts_by_power_id :
      (id : Text) (conflicts : List PowerplayConflictProgress) (powers : List PowerplayPower)
      (acc : Dict Text Double)
      → lookup id (conflicts_by_power_id lower fold new_id conflicts powers acc)
        ≡ or_option lower fold new_id (last_progress id powers conflicts) (lookup id acc)
  unfolding conflicts_by_power_id
  lookup-conflicts_by_power_id id [] powers acc = refl
  lookup-conflicts_by_power_id id (c ∷ cs) powers acc =
      go (power_id_of lower fold new_id c.power powers) (names_power-power_id_of id c.power powers)
        (lookup-conflicts_by_power_id id cs powers) (last_progress id powers cs) refl
    where
      go :
          (o : Option Text)
          → names_power id powers c.power ≡ elim o [ none ↦ false | some found ↦ found == id ]
          → ((acc : Dict Text Double)
              → lookup id (conflicts_by_power_id lower fold new_id cs powers acc)
                ≡ or_option lower fold new_id (last_progress id powers cs) (lookup id acc))
          → (l : Option Double) → last_progress id powers cs ≡ l
          → lookup id (elim o [
            | none ↦ conflicts_by_power_id lower fold new_id cs powers acc
            | some found ↦
                conflicts_by_power_id lower fold new_id cs powers
                  (insert found c.conflict_progress acc)
          ])
            ≡ or_option lower fold new_id
                (elim l [
                  | some progress ↦ some progress
                  | none ↦ if names_power id powers c.power then some c.conflict_progress else none
                ])
                (lookup id acc)
      go none n ih none e = rw (ih acc, e, n) refl
      go none n ih (some x) e = rw (ih acc, e) refl
      go (some found) n ih none e =
          rw (ih (insert found c.conflict_progress acc), e, n)
            (ground (arith, lookup-insert found id c.conflict_progress acc))
      go (some found) n ih (some x) e = rw (ih (insert found c.conflict_progress acc), e) refl
