-- ===== src/Worker/Systems/Upserted.antt =====
-- apps/eddn-worker/src/mq/queues/eddn/helpers/systemHelpers.ts: what `upsertSystem` leaves.
use mathlib.Core.Path.{subst}
use mathlib.Core.Option.{some-injective}
use elitehub_vault.Base.{
  ℕ, Text, text_eq, nat_eq, List, [], ◌∷◌, Option, none, some, Bool, true, false, ◌≡◌, refl, arith,
  ◌==◌, ==_iff, if◌then◌else◌, contains, IsDistinct,
}
use elitehub_vault.Worker.Stations.Rows.{Leaves, LeavesValue, set_to-Leaves, or_else-LeavesValue}
use elitehub_vault.Worker.Systems.{
  System, SystemData, set_number, set_system, blank_system, upsert_row, upsert_system,
}

-- The row of an address.
abbrev pub system_at : ℕ → List System → Option System
system_at address [] = none
system_at address (row ∷ rows) =
    if row.system_address == address then some row else system_at address rows

abbrev pub addresses : List System → List ℕ
addresses [] = []
addresses (row ∷ rows) = row.system_address ∷ addresses rows

-- What a number that may be left out leaves in a column that may be NULL.
abbrev pub LeavesNumber : Option ℕ → Option ℕ → Option ℕ → Type 0
LeavesNumber none old new = new ≡ old
LeavesNumber (some n) old new = new ≡ some n

set_number-LeavesNumber : (f o : Option ℕ) → LeavesNumber f o (set_number f o)
set_number-LeavesNumber none o = refl
set_number-LeavesNumber (some n) o = refl

-- Each column as the data sets it, or as it was in the old row.
pub record HasSystemColumns (values : SystemData) (now : ℕ) (old row : System) : Type 0 where
  pub id : row.id ≡ old.id
  pub name : row.name ≡ values.name
  pub system_address : row.system_address ≡ values.system_address
  pub x : LeavesValue values.x old.x row.x
  pub y : LeavesValue values.y old.y row.y
  pub z : LeavesValue values.z old.z row.z
  pub population : LeavesValue values.population old.population row.population
  pub government : Leaves values.government old.government row.government
  pub allegiance : Leaves values.allegiance old.allegiance row.allegiance
  pub economy : Leaves values.economy old.economy row.economy
  pub second_economy : Leaves values.second_economy old.second_economy row.second_economy
  pub security : Leaves values.security old.security row.security
  pub powerplay_state : Leaves values.powerplay_state old.powerplay_state row.powerplay_state
  pub powerplay_state_control_progress :
      LeavesNumber values.powerplay_state_control_progress old.powerplay_state_control_progress
        row.powerplay_state_control_progress
  pub powerplay_state_reinforcement :
      LeavesNumber values.powerplay_state_reinforcement old.powerplay_state_reinforcement
        row.powerplay_state_reinforcement
  pub powerplay_state_undermining :
      LeavesNumber values.powerplay_state_undermining old.powerplay_state_undermining
        row.powerplay_state_undermining
  pub created_at : row.created_at ≡ old.created_at
  pub updated_at : row.updated_at ≡ now

set_system-HasSystemColumns :
    (values : SystemData) (now : ℕ) (r : System)
    → HasSystemColumns values now r (set_system values now r)
set_system-HasSystemColumns values now r = record {
  id = refl;
  name = refl;
  system_address = refl;
  x = or_else-LeavesValue values.x r.x;
  y = or_else-LeavesValue values.y r.y;
  z = or_else-LeavesValue values.z r.z;
  population = or_else-LeavesValue values.population r.population;
  government = set_to-Leaves values.government r.government;
  allegiance = set_to-Leaves values.allegiance r.allegiance;
  economy = set_to-Leaves values.economy r.economy;
  second_economy = set_to-Leaves values.second_economy r.second_economy;
  security = set_to-Leaves values.security r.security;
  powerplay_state = set_to-Leaves values.powerplay_state r.powerplay_state;
  powerplay_state_control_progress =
      set_number-LeavesNumber values.powerplay_state_control_progress
        r.powerplay_state_control_progress;
  powerplay_state_reinforcement =
      set_number-LeavesNumber values.powerplay_state_reinforcement r.powerplay_state_reinforcement;
  powerplay_state_undermining =
      set_number-LeavesNumber values.powerplay_state_undermining r.powerplay_state_undermining;
  created_at = refl;
  updated_at = refl;
}

-- The defaults of the columns that the data may leave out.
abbrev pub IsBlankSystem : System → Type 0
IsBlankSystem row =
    (row.population ≡ 0)
    × (row.government ≡ none)
    × (row.allegiance ≡ none)
    × (row.economy ≡ none)
    × (row.second_economy ≡ none)
    × (row.security ≡ none)
    × (row.powerplay_state ≡ none)
    × (row.powerplay_state_control_progress ≡ none)
    × (row.powerplay_state_reinforcement ≡ none)
    × (row.powerplay_state_undermining ≡ none)

module _ (new_id : List System → Text) (parses : SystemData → Bool) where
  -- The row that the upsert starts from.
  abbrev pub old_row : SystemData → ℕ → List System → List System → System
  old_row values now all [] = blank_system (new_id all) values now
  old_row values now all (row ∷ rows) =
      let rest = old_row values now all rows in
      if row.system_address == values.system_address then row else rest

  upsert_row-old_row :
      (values : SystemData) (now : ℕ) (all rows : List System)
      → (upsert_row new_id parses values now all rows).0
        ≡ set_system values now (old_row values now all rows)
  unfolding upsert_row
  upsert_row-old_row values now all [] = refl
  upsert_row-old_row values now all (row ∷ rows) =
      go (row.system_address == values.system_address) (upsert_row-old_row values now all rows)
    where
      go :
          (b : Bool)
          → (upsert_row new_id parses values now all rows).0
            ≡ set_system values now (old_row values now all rows)
          → (if◌then◌else◌ {A = System × List System} b
              (set_system values now row, set_system values now row ∷ rows)
              (
                (upsert_row new_id parses values now all rows).0,
                row ∷ (upsert_row new_id parses values now all rows).1,
              )).0
            ≡ set_system values now (if b then row else old_row values now all rows)
      go true h = refl
      go false h = h

  system_at-upsert_row :
      (address : ℕ) (values : SystemData) (now : ℕ) (all rows : List System)
      → system_at address (upsert_row new_id parses values now all rows).1 ≡ (
          if values.system_address == address
          then some (upsert_row new_id parses values now all rows).0
          else system_at address rows)
  unfolding upsert_row
  system_at-upsert_row address values now all [] = ground arith
  system_at-upsert_row address values now all (row ∷ rows) = ground (
    arith,
    system_at-upsert_row address values now all rows,
    ==_iff row.system_address values.system_address,
    ==_iff row.system_address address,
    ==_iff values.system_address address,
  )

  contains-addresses-upsert_row :
      (address : ℕ) (values : SystemData) (now : ℕ) (all rows : List System)
      → contains address (addresses rows) ≡ false
      → (values.system_address == address) ≡ false
      → contains address (addresses (upsert_row new_id parses values now all rows).1) ≡ false
  unfolding upsert_row contains
  contains-addresses-upsert_row address values now all [] h e = ground (arith, e)
  contains-addresses-upsert_row address values now all (row ∷ rows) h e =
      ground (arith, h, e, contains-addresses-upsert_row address values now all rows)

  upsert_row-IsDistinct :
      (values : SystemData) (now : ℕ) (all rows : List System)
      → IsDistinct (addresses rows)
      → IsDistinct (addresses (upsert_row new_id parses values now all rows).1)
  unfolding upsert_row contains
  upsert_row-IsDistinct values now all [] h = (refl, tt)
  upsert_row-IsDistinct values now all (row ∷ rows) h = ground (
    arith,
    h.0,
    h.1,
    upsert_row-IsDistinct values now all rows h.1,
    contains-addresses-upsert_row row.system_address values now all rows h.0,
    ==_iff row.system_address values.system_address,
    ==_iff values.system_address row.system_address,
  )

  old_row-was :
      (values : SystemData) (now : ℕ) (all rows : List System) (s : System)
      → system_at values.system_address rows ≡ some s
      → old_row values now all rows ≡ s
  old_row-was values now all [] s h = absurd (ground (arith, h))
  old_row-was values now all (row ∷ rows) s h = ground (arith, h, old_row-was values now all rows s)

  old_row-fresh :
      (values : SystemData) (now : ℕ) (all rows : List System)
      → system_at values.system_address rows ≡ none
      → let old = old_row values now all rows in IsBlankSystem old × (old.created_at ≡ now)
  old_row-fresh values now all [] h =
      ((refl, refl, refl, refl, refl, refl, refl, refl, refl, refl), refl)
  old_row-fresh values now all (row ∷ rows) h =
      go (row.system_address == values.system_address) (old_row-fresh values now all rows) h
    where
      go :
          (b : Bool)
          → (system_at values.system_address rows ≡ none
              → let old = old_row values now all rows in IsBlankSystem old × (old.created_at ≡ now))
          → (if b then some row else system_at values.system_address rows) ≡ none
          → let old = if b then row else old_row values now all rows in
            IsBlankSystem old × (old.created_at ≡ now)
      go true rest k = absurd (ground (arith, k))
      go false rest k = rest k

  -- The upsert of a system: the address has the returned row, which carries the data and keeps what the
  -- data leaves undefined, the other addresses have the rows they had, and no address stands twice.
  pub record IsUpsertedSystem (values : SystemData) (now : ℕ) (rows : List System)
      (result : System × List System) : Type 0 where
    pub found :
        (address : ℕ)
        → system_at address result.1
          ≡ (if values.system_address == address then some result.0 else system_at address rows)
    pub old : System
    pub was : (s : System) → system_at values.system_address rows ≡ some s → old ≡ s
    pub fresh :
        system_at values.system_address rows ≡ none → IsBlankSystem old × (old.created_at ≡ now)
    pub carries : HasSystemColumns values now old result.0
    pub distinct : IsDistinct (addresses rows) → IsDistinct (addresses result.1)

  upsert_row-IsUpsertedSystem :
      (values : SystemData) (now : ℕ) (rows : List System)
      → IsUpsertedSystem values now rows (upsert_row new_id parses values now rows rows)
  upsert_row-IsUpsertedSystem values now rows =
      let e = upsert_row-old_row values now rows rows in
      record {
        found = λ address. system_at-upsert_row address values now rows rows;
        old = old_row values now rows rows;
        was = old_row-was values now rows rows;
        fresh = old_row-fresh values now rows rows;
        carries = rw e (set_system-HasSystemColumns values now (old_row values now rows rows));
        distinct = upsert_row-IsDistinct values now rows rows;
      }

  -- An upsert of a system that does not throw returns the row that its address then has. Each column of
  -- it is what the data sets, or where the data leaves it undefined what the row of the address had
  -- before or, of a new row, its default but for the coordinates; the other addresses have the rows they
  -- had, and addresses that were distinct stay so.
  pub upsert_system-IsUpsertedSystem :
      (values : SystemData) (now : ℕ) (rows : List System) (result : System × List System)
      → upsert_system new_id parses values now rows ≡ some result
      → IsUpsertedSystem values now rows result
  unfolding upsert_system
  upsert_system-IsUpsertedSystem values now rows result h = go (parses values) h
    where
      go :
          (b : Bool)
          → (if b then some (upsert_row new_id parses values now rows rows) else none) ≡ some result
          → IsUpsertedSystem values now rows result
      go true k =
          subst (IsUpsertedSystem values now rows) (some-injective _ _ k)
            (upsert_row-IsUpsertedSystem values now rows)
      go false k = absurd (ground (arith, k))
