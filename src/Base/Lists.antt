-- ===== src/Base/Lists.antt =====
-- Lists measured by native numbers, and predicates and tests over them.
use Prim.Native.Nat.{ℕ, suc, ◌+◌, ◌≤◌}
use mathlib.Core.Path.{◌≡◌, refl, ap}
use mathlib.Core.Bool.{Bool, true, false, ◌&&◌, ◌||◌}
use mathlib.Core.List.{List, [], ◌∷◌, ◌++◌, map}
use native.Mathlib.Omega.{arith}
use elitehub_vault.Base.Tests.{Eq, ◌==◌, ==_iff, if◌then◌else◌}

module _ {ℓ} {A : Type ℓ} where
  abbrev pub length : List A → ℕ
  length [] = 0
  length (x ∷ xs) = suc (length xs)

  pub length-append : (xs ys : List A) → length (xs ++ ys) ≡ length xs + length ys
  length-append [] ys = omega arith
  length-append (x ∷ xs) ys = omega (arith, length-append xs ys)

pub length-map {ℓ κ} :
    {A : Type ℓ} {B : Type κ} (f : A → B) (xs : List A) → length (map f xs) ≡ length xs
length-map f [] = refl
length-map f (x ∷ xs) = ap suc (length-map f xs)

-- `xs.filter(test)` with a Boolean test.
unfoldable pub keep {ℓ} : {A : Type ℓ} → (A → Bool) → List A → List A
keep test [] = []
keep test (x ∷ xs) = if test x then x ∷ keep test xs else keep test xs

pub length-keep-le {ℓ} :
    {A : Type ℓ} (test : A → Bool) (xs : List A) → length (keep test xs) ≤ length xs
unfolding keep
length-keep-le test [] = omega arith
length-keep-le test (x ∷ xs) = ground (arith, length-keep-le test xs)

pub keep-congr {ℓ} :
    {A : Type ℓ} (p q : A → Bool) (xs : List A) → ((a : A) → p a ≡ q a) → keep p xs ≡ keep q xs
unfolding keep
keep-congr p q [] h = refl
keep-congr p q (x ∷ xs) h = ground (arith, h x, keep-congr p q xs h)

pub keep_all {ℓ} : {A : Type ℓ} (xs : List A) → keep (λ a. true) xs ≡ xs
unfolding keep
keep_all [] = refl
keep_all (x ∷ xs) = ground (arith, keep_all xs)

pub keep-keep {ℓ} :
    {A : Type ℓ} (p q : A → Bool) (xs : List A) → keep p (keep q xs) ≡ keep (λ a. q a && p a) xs
unfolding keep
keep-keep p q [] = refl
keep-keep p q (x ∷ xs) = ground (arith, keep-keep p q xs)

-- Every entry satisfies the predicate.
abbrev pub All {ℓ κ} : {A : Type ℓ} → (A → Type κ) → List A → Type κ
All P [] = Unit
All P (x ∷ xs) = P x × All P xs

pub All-append {ℓ κ} :
    {A : Type ℓ} (P : A → Type κ) (xs ys : List A) → All P xs → All P ys → All P (xs ++ ys)
All-append P [] ys hx hy = hy
All-append P (x ∷ xs) ys hx hy = (hx.0, All-append P xs ys hx.1 hy)

pub All-keep {ℓ κ} :
    {A : Type ℓ} (P : A → Type κ) (test : A → Bool) (xs : List A) → All P xs → All P (keep test xs)
unfolding keep
All-keep P test [] h = h
All-keep P test (x ∷ xs) h = ground (arith, All-keep P test xs h.1)

module _ {ℓ} {A : Type ℓ} ⦃e : Eq A⦄ where
  -- `Set.has` and `Array.includes`.
  unfoldable pub contains : A → List A → Bool
  contains a [] = false
  contains a (x ∷ xs) = (x == a) || contains a xs

  pub contains-append :
      (a : A) (xs ys : List A) → contains a (xs ++ ys) ≡ (contains a xs || contains a ys)
  unfolding contains
  contains-append a [] ys = refl
  contains-append a (x ∷ xs) ys = ground (arith, contains-append a xs ys)

  -- `Set.add`: a member keeps its place, a new one goes to the end.
  unfoldable pub add : A → List A → List A
  add a [] = a ∷ []
  add a (x ∷ xs) = if x == a then x ∷ xs else x ∷ add a xs

  pub contains-add : (a b : A) (xs : List A) → contains b (add a xs) ≡ ((a == b) || contains b xs)
  unfolding contains add
  contains-add a b [] = refl
  contains-add a b (x ∷ xs) =
      ground (arith, contains-add a b xs, ==_iff x a, ==_iff x b, ==_iff a b)

  -- `Set.delete`.
  unfoldable pub remove : A → List A → List A
  remove a [] = []
  remove a (x ∷ xs) = if x == a then remove a xs else x ∷ remove a xs

  pub contains-remove :
      (a b : A) (xs : List A) → contains b (remove a xs) ≡ (if a == b then false else contains b xs)
  unfolding contains remove
  contains-remove a b [] = ground arith
  contains-remove a b (x ∷ xs) =
      ground (arith, contains-remove a b xs, ==_iff x a, ==_iff x b, ==_iff a b)

  -- `Array.from(new Set(values))`.
  unfoldable pub dedupe_onto : List A → List A → List A
  unfolding add
  dedupe_onto seen [] = seen
  dedupe_onto seen (x ∷ xs) = dedupe_onto (add x seen) xs

  pub contains-dedupe_onto :
      (a : A) (seen xs : List A)
      → contains a (dedupe_onto seen xs) ≡ (contains a seen || contains a xs)
  unfolding contains dedupe_onto
  contains-dedupe_onto a seen [] = ground arith
  contains-dedupe_onto a seen (x ∷ xs) =
      ground (arith, contains-dedupe_onto a (add x seen) xs, contains-add x a seen)

  -- No entry occurs twice.
  abbrev pub IsDistinct : List A → Type 0
  IsDistinct [] = Unit {0}
  IsDistinct (x ∷ xs) = (contains x xs ≡ false) × IsDistinct xs

  pub add-IsDistinct : (a : A) (xs : List A) → IsDistinct xs → IsDistinct (add a xs)
  unfolding add contains
  add-IsDistinct a [] h = (refl, tt)
  add-IsDistinct a (x ∷ xs) h =
      ground (arith, add-IsDistinct a xs h.1, contains-add a x xs, ==_iff x a, ==_iff a x)

  pub dedupe_onto-IsDistinct :
      (seen xs : List A) → IsDistinct seen → IsDistinct (dedupe_onto seen xs)
  unfolding dedupe_onto
  dedupe_onto-IsDistinct seen [] h = h
  dedupe_onto-IsDistinct seen (x ∷ xs) h =
      dedupe_onto-IsDistinct (add x seen) xs (add-IsDistinct x seen h)

  length-add-le : (a : A) (xs : List A) → length (add a xs) ≤ suc (length xs)
  unfolding add
  length-add-le a [] = omega arith
  length-add-le a (x ∷ xs) = ground (arith, length-add-le a xs)

  length-add-ge : (a : A) (xs : List A) → (1 ≤ length (add a xs)) × (length xs ≤ length (add a xs))
  unfolding add
  length-add-ge a [] = (omega arith, omega arith)
  length-add-ge a (x ∷ xs) = ground (arith, length-add-ge a xs)

  pub length-dedupe_onto-le :
      (seen xs : List A) → length (dedupe_onto seen xs) ≤ length seen + length xs
  unfolding dedupe_onto
  length-dedupe_onto-le seen [] = omega arith
  length-dedupe_onto-le seen (x ∷ xs) =
      omega (arith, length-dedupe_onto-le (add x seen) xs, length-add-le x seen)

  pub length-dedupe_onto-ge : (seen xs : List A) → length seen ≤ length (dedupe_onto seen xs)
  unfolding dedupe_onto
  length-dedupe_onto-ge seen [] = omega arith
  length-dedupe_onto-ge seen (x ∷ xs) =
      omega (arith, length-dedupe_onto-ge (add x seen) xs, (length-add-ge x seen).1)
