-- ===== src/Redis/Association.antt =====
-- Sorted sets as association lists: an instance of the interface.
use elitehub_vault.Base.{
  ℕ, suc, ◌≤◌, ◌<◌, ◌≡◌, ◌≢◌, refl, Text, text_eq, List, [], ◌∷◌, Option, none, some, false, arith,
  leb, ==_iff, if◌then◌else◌, length, All, IsDistinct, contains, Dict, lookup, insert, erase,
  lookup-insert, lookup-erase, min, IsUnique, insert-IsUnique, erase-IsUnique, Option-cases,
  Bool-cases, inl, inr, ==_refl,
}
use elitehub_vault.Redis.{SortedSets, score_above}

abbrev pub Entries : Type 0
Entries = Dict Text ℕ

unfoldable pub least : Entries → Option ℕ
least [] = none
least ((m, s) ∷ d) = elim (least d) [ none ↦ some s | some t ↦ some (min s t) ]

unfoldable pub above : ℕ → Entries → Entries
above bound [] = []
above bound ((m, s) ∷ d) = if leb s bound then above bound d else (m, s) ∷ above bound d

pub lookup-above :
    (bound : ℕ) (m : Text) (d : Entries)
    → IsUnique d
    → lookup m (above bound d) ≡ score_above bound (lookup m d)
unfolding lookup above
lookup-above bound m [] u = refl
lookup-above bound m ((j, s) ∷ d) u = ground (arith, lookup-above bound m d u.1, ==_iff j m)

pub above-IsUnique : (bound : ℕ) (d : Entries) → IsUnique d → IsUnique (above bound d)
unfolding above
above-IsUnique bound [] u = u
above-IsUnique bound ((j, s) ∷ d) u =
    ground (arith, above-IsUnique bound d u.1, lookup-above bound j d u.1)

pub length-above-le : (bound : ℕ) (d : Entries) → length (above bound d) ≤ length d
unfolding above
length-above-le bound [] = omega arith
length-above-le bound ((j, s) ∷ d) = ground (arith, length-above-le bound d)

pub length-insert_old :
    (m : Text) (s : ℕ) (d : Entries) → lookup m d ≢ none → length (insert m s d) ≡ length d
unfolding lookup insert
length-insert_old m s [] h = absurd (h refl)
length-insert_old m s ((j, t) ∷ d) h = ground (arith, length-insert_old m s d)

pub length-insert-le : (m : Text) (s : ℕ) (d : Entries) → length (insert m s d) ≤ suc (length d)
unfolding insert
length-insert-le m s [] = omega arith
length-insert-le m s ((j, t) ∷ d) = ground (arith, length-insert-le m s d)

pub length-erase-le : (m : Text) (d : Entries) → length (erase m d) ≤ length d
unfolding erase
length-erase-le m [] = omega arith
length-erase-le m ((j, t) ∷ d) = ground (arith, length-erase-le m d)

pub length-erase-lt : (m : Text) (d : Entries) → lookup m d ≢ none → length (erase m d) < length d
unfolding erase lookup
length-erase-lt m [] h = absurd (h refl)
length-erase-lt m ((j, t) ∷ d) h = ground (arith, length-erase-lt m d, length-erase-le m d)

-- Members other than `m` are still there when `m` is gone.
All-erase :
    (m : Text) (ms : List Text) (d : Entries)
    → contains m ms ≡ false
    → All (λ j. lookup j d ≢ none) ms
    → All (λ j. lookup j (erase m d) ≢ none) ms
unfolding contains
All-erase m [] d h all = tt
All-erase m (j ∷ ms) d h all = (
  λ e. ground (arith, lookup-erase m j d, ==_iff m j, ==_iff j m, all.0),
  All-erase m ms d (ground arith) all.1,
)

pub length-le-length :
    (ms : List Text) (d : Entries)
    → IsDistinct ms
    → All (λ j. lookup j d ≢ none) ms
    → length ms ≤ length d
length-le-length [] d u all = omega arith
length-le-length (m ∷ ms) d u all = omega (
  arith,
  length-erase-lt m d all.0,
  length-le-length ms (erase m d) u.1 (All-erase m ms d u.0 all.1),
)

pub length-least : (d : Entries) → least d ≡ none → length d ≡ 0
unfolding least
length-least [] h = refl
length-least ((j, s) ∷ d) h = absurd (ground arith)

pub length-above-lt :
    (bound score : ℕ) (m : Text) (d : Entries)
    → lookup m d ≡ some score
    → score ≤ bound
    → length (above bound d) < length d
unfolding lookup above
length-above-lt bound score m [] h le = absurd (ground arith)
length-above-lt bound score m ((j, s) ∷ d) h le =
    ground (arith, length-above-lt bound score m d, length-above-le bound d)

pub least_member :
    (d : Entries) (s : ℕ) → IsUnique d → least d ≡ some s → (m : Text) × (lookup m d ≡ some s)
unfolding lookup least
least_member [] s u h = absurd (ground arith)
least_member ((j, t) ∷ d) s u h = elim (Option-cases (least d)) [
  | inl e ↦ (j, ground (arith, ==_refl j))
  | inr (r, e) ↦ elim (Bool-cases (leb t r)) [
    | inl le ↦ (j, ground (arith, ==_refl j))
    | inr gt ↦
        let (m, found) = least_member d r u.1 e in (m, ground (arith, ==_iff j m, found, u.0))
  ]
]

abbrev pub association : SortedSets
association = record {
  Z = (d : Entries) × IsUnique d;
  empty = ([], tt);
  score_of = λ m z. lookup m z.0;
  card = λ z. length z.0;
  first_score = λ z. least z.0;
  zadd = λ s m z. (insert m s z.0, insert-IsUnique m s z.0 z.1);
  zrem = λ m z. (erase m z.0, erase-IsUnique m z.0 z.1);
  remove_up_to = λ bound z. (above bound z.0, above-IsUnique bound z.0 z.1);
  card-empty = refl;
  score_of-zadd = λ s m j z. lookup-insert m j s z.0;
  score_of-zrem = λ m j z. lookup-erase m j z.0;
  score_of-remove_up_to = λ bound m z. lookup-above bound m z.0 z.1;
  card-zadd_old = λ s m z. length-insert_old m s z.0;
  card-zadd-le = λ s m z. length-insert-le m s z.0;
  card-zrem-le = λ m z. length-erase-le m z.0;
  card-remove_up_to-le = λ bound z. length-above-le bound z.0;
  card-remove_up_to-lt = λ bound score m z. length-above-lt bound score m z.0;
  length-le-card = λ ms z. length-le-length ms z.0;
  card-first_score = λ z. length-least z.0;
  first_score_member = λ z s. least_member z.0 s z.1;
}
