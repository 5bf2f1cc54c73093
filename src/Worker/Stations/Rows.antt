-- ===== src/Worker/Stations/Rows.antt =====
-- apps/eddn-worker: lemmas on the rows of the stations table, its keys and its constraints.
use elitehub_vault.Base.{
  or_else, Option, none, some, Text, text_eq, nat_eq, List, [], ◌∷◌, map, Bool, true, false, ◌≡◌,
  refl, ◌∙◌, arith, ◌==◌, ==_iff, if◌then◌else◌, keep, All, contains, IsDistinct,
}
use elitehub_vault.Worker.Values.{Field, undefined, null, value}
use elitehub_vault.Worker.Stations.{set_to, Station, all_of}

module _ {ℓ} {A : Type ℓ} where
  pub All-all_of :
      (test : A → Bool) (xs : List A) → all_of test xs ≡ true → All (λ x. test x ≡ true) xs
  All-all_of test [] h = tt
  All-all_of test (x ∷ xs) h = (ground (arith, h), All-all_of test xs (ground (arith, h)))

  pub all_of-All :
      (test : A → Bool) (xs : List A) → All (λ x. test x ≡ true) xs → all_of test xs ≡ true
  all_of-All test [] h = refl
  all_of-All test (x ∷ xs) h = ground (arith, h.0, all_of-All test xs h.1)

  pub All-map {κ κ₁} :
      {P : A → Type κ} {Q : A → Type κ₁}
      → ((x : A) → P x → Q x)
      → (xs : List A) → All P xs
      → All Q xs
  All-map f [] h = tt
  All-map f (x ∷ xs) h = (f x h.0, All-map f xs h.1)

  pub All-and {κ κ₁} :
      (P : A → Type κ) (Q : A → Type κ₁) (xs : List A)
      → All P xs
      → All Q xs
      → All (λ x. P x × Q x) xs
  All-and P Q [] h k = tt
  All-and P Q (x ∷ xs) h k = ((h.0, k.0), All-and P Q xs h.1 k.1)

  -- The entries that pass a test, with what held of them before.
  pub All-keep_test {κ} :
      (P : A → Type κ) (test : A → Bool) (xs : List A)
      → All P xs
      → All (λ x. P x × (test x ≡ true)) (keep test xs)
  unfolding keep
  All-keep_test P test [] h = tt
  All-keep_test P test (x ∷ xs) h = go (test x) refl (All-keep_test P test xs h.1)
    where
      go :
          (b : Bool)
          → test x ≡ b
          → All (λ x. P x × (test x ≡ true)) (keep test xs)
          → All (λ x. P x × (test x ≡ true)) (if b then x ∷ keep test xs else keep test xs)
      go true e rest = ((h.0, e), rest)
      go false e rest = rest

  pub keep-All_back {κ} :
      (P : A → Type κ) (test : A → Bool) (xs : List A)
      → All P (keep test xs)
      → All (λ x. test x ≡ true → P x) xs
  unfolding keep
  keep-All_back P test [] h = tt
  keep-All_back P test (x ∷ xs) h = go (test x) refl (keep-All_back P test xs) h
    where
      go :
          (b : Bool)
          → test x ≡ b
          → (All P (keep test xs) → All (λ x. test x ≡ true → P x) xs)
          → All P (if b then x ∷ keep test xs else keep test xs)
          → All (λ x. test x ≡ true → P x) (x ∷ xs)
      go true e rest k = (λ t. k.0, rest k.1)
      go false e rest k = (λ t. absurd (ground (arith, e, t)), rest k)

  pub keep_none : (test : A → Bool) (xs : List A) → keep test xs ≡ [] → All (λ x. test x ≡ false) xs
  unfolding keep
  keep_none test [] h = tt
  keep_none test (x ∷ xs) h = (ground (arith, h), keep_none test xs (ground (arith, h)))

  pub keep-All-false :
      (test : A → Bool) (xs : List A) → All (λ x. test x ≡ false) xs → keep test xs ≡ []
  unfolding keep
  keep-All-false test [] h = refl
  keep-All-false test (x ∷ xs) h = ground (arith, h.0, keep-All-false test xs h.1)

  pub keep-congr-All :
      (p q : A → Bool) (xs : List A) → All (λ x. p x ≡ q x) xs → keep p xs ≡ keep q xs
  unfolding keep
  keep-congr-All p q [] h = refl
  keep-congr-All p q (x ∷ xs) h = ground (arith, h.0, keep-congr-All p q xs h.1)

pub all_of-map {ℓ κ} :
    {A : Type ℓ} {B : Type κ} (test : B → Bool) (f : A → B) (xs : List A)
    → all_of test (map f xs) ≡ all_of (λ x. test (f x)) xs
all_of-map test f [] = refl
all_of-map test f (x ∷ xs) = ground (arith, all_of-map test f xs)

-- A test of all pairs holds after a change that keeps it for the pairs of rows that satisfy `P`.
pub pairs-map {ℓ κ} :
    {A : Type ℓ} (P : A → Type κ) (test : A → A → Bool) (f : A → A) (xs : List A)
    → ((a b : A) → test a b ≡ true → P a → P b → test (f a) (f b) ≡ true)
    → All P xs
    → all_of (λ a. all_of (test a) xs) xs ≡ true
    → all_of (λ a. all_of (test a) (map f xs)) (map f xs) ≡ true
pairs-map P test f xs step hP h =
    all_of-map (λ a. all_of (test a) (map f xs)) f xs
    ∙ all_of-All _ xs (
        All-map
          (λ a h.
            all_of-map (test (f a)) f xs
            ∙ all_of-All _ xs (
                All-map (λ b k. step a b k.1 h.0 k.0) xs (All-and _ _ xs hP (All-all_of _ xs h.1))))
          xs (All-and _ _ xs hP (All-all_of _ xs h)))

-- What a field leaves in a column that held a value: no field keeps it, NULL empties it.
abbrev pub Leaves {ℓ} : {A : Type ℓ} → Field A → Option A → Option A → Type ℓ
Leaves undefined old new = new ≡ old
Leaves null old new = new ≡ none
Leaves (value a) old new = new ≡ some a

-- The same of a column that is NOT NULL.
abbrev pub LeavesValue {ℓ} : {A : Type ℓ} → Option A → A → A → Type ℓ
LeavesValue none old new = new ≡ old
LeavesValue (some a) old new = new ≡ a

pub set_to-Leaves {ℓ} : {A : Type ℓ} (f : Field A) (o : Option A) → Leaves f o (set_to f o)
set_to-Leaves undefined o = refl
set_to-Leaves null o = refl
set_to-Leaves (value a) o = refl

pub or_else-LeavesValue {ℓ} : {A : Type ℓ} (f : Option A) (a : A) → LeavesValue f a (or_else f a)
or_else-LeavesValue none a = refl
or_else-LeavesValue (some b) a = refl

-- The ids are the table's primary key.
abbrev pub ids : List Station → List Text
ids [] = []
ids (r ∷ rows) = r.id ∷ ids rows

keep_id_absent :
    (i : Text) (rows : List Station)
    → contains i (ids rows) ≡ false
    → keep (λ s. s.id == i) rows ≡ []
unfolding keep contains
keep_id_absent i [] h = refl
keep_id_absent i (r ∷ rows) h = ground (arith, h, keep_id_absent i rows)

id_differs :
    (i : Text) (rows : List Station)
    → contains i (ids rows) ≡ false
    → All (λ r. (i == r.id) ≡ false) rows
unfolding contains
id_differs i [] h = tt
id_differs i (r ∷ rows) h =
    (ground (arith, h, ==_iff i r.id, ==_iff r.id i), id_differs i rows (ground (arith, h)))

-- A row is the only one with its id.
pub keep_id :
    (rows : List Station)
    → IsDistinct (ids rows)
    → All (λ r. keep (λ s. s.id == r.id) rows ≡ r ∷ []) rows
unfolding keep
keep_id [] h = tt
keep_id (r ∷ rows) h = (
  ground (arith, ==_iff r.id r.id, keep_id_absent r.id rows h.0),
  All-map (λ s e. ground (arith, e.0, e.1)) rows
      (All-and _ _ rows (id_differs r.id rows h.0) (keep_id rows h.1)),
)
