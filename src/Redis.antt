-- ===== src/Redis.antt =====
-- The sorted sets of Redis as the Lua scripts of the API call them: a parameter of the model, with
-- the documented behaviour of the commands as laws.
pub mod Association
use elitehub_vault.Base.{
  ℕ, suc, ◌+◌, ◌*◌, ◌≤◌, ◌<◌, ◌≡◌, ◌≢◌, Text, text_eq, List, Bool, false, Option, none, some, leb,
  ◌==◌, if◌then◌else◌, length, All, IsDistinct,
}

-- What is left of a member's score when the scores up to a bound are removed.
abbrev pub score_above : ℕ → Option ℕ → Option ℕ
score_above bound none = none
score_above bound (some score) = if leb score bound then none else some score

pub record SortedSets : Type 1 where
  -- The value of a key; a key that does not exist reads as the empty set.
  pub Z : Type 0
  pub empty : Z
  -- ZSCORE, ZCARD, the score of ZRANGE key 0 0 WITHSCORES.
  pub score_of : Text → Z → Option ℕ
  pub card : Z → ℕ
  pub first_score : Z → Option ℕ
  -- ZADD, ZREM, ZREMRANGEBYSCORE key -inf bound.
  pub zadd : ℕ → Text → Z → Z
  pub zrem : Text → Z → Z
  pub remove_up_to : ℕ → Z → Z
  pub card-empty : card empty ≡ 0
  pub score_of-zadd :
      (score : ℕ) (m j : Text) (z : Z)
      → score_of j (zadd score m z) ≡ (if m == j then some score else score_of j z)
  pub score_of-zrem :
      (m j : Text) (z : Z) → score_of j (zrem m z) ≡ (if m == j then none else score_of j z)
  pub score_of-remove_up_to :
      (bound : ℕ) (m : Text) (z : Z)
      → score_of m (remove_up_to bound z) ≡ score_above bound (score_of m z)
  pub card-zadd_old :
      (score : ℕ) (m : Text) (z : Z) → score_of m z ≢ none → card (zadd score m z) ≡ card z
  pub card-zadd-le : (score : ℕ) (m : Text) (z : Z) → card (zadd score m z) ≤ suc (card z)
  pub card-zrem-le : (m : Text) (z : Z) → card (zrem m z) ≤ card z
  pub card-remove_up_to-le : (bound : ℕ) (z : Z) → card (remove_up_to bound z) ≤ card z
  pub card-remove_up_to-lt :
      (bound score : ℕ) (m : Text) (z : Z)
      → score_of m z ≡ some score
      → score ≤ bound
      → card (remove_up_to bound z) < card z
  -- Different members that are all there are no more than the set has.
  pub length-le-card :
      (ms : List Text) (z : Z)
      → IsDistinct ms
      → All (λ m. score_of m z ≢ none) ms
      → length ms ≤ card z
  pub card-first_score : (z : Z) → first_score z ≡ none → card z ≡ 0
  pub first_score_member :
      (z : Z) (score : ℕ) → first_score z ≡ some score → (m : Text) × (score_of m z ≡ some score)

-- A key with the time, in milliseconds, at which EXPIRE removes it.
pub record Key (Z : Type 0) : Type 0 where
  pub members : Z
  pub deadline : Option ℕ

-- EXPIRE: the key goes `seconds` after `now`.
abbrev pub expire_at : ℕ → ℕ → Option ℕ
expire_at now seconds = some (now + seconds * 1000)

abbrev pub has_lapsed : ℕ → Option ℕ → Bool
has_lapsed now none = false
has_lapsed now (some deadline) = leb deadline now

module _ (sets : SortedSets) where
  abbrev pub missing : Key sets.Z
  missing = record { members = sets.empty; deadline = none }

  -- The key as a script that runs at `now` finds it.
  unfoldable pub visible : ℕ → Key sets.Z → Key sets.Z
  visible now key = if has_lapsed now key.deadline then missing else key
