-- ===== src/Prelude/Lists.antt =====
-- Tables as lists of rows: the row operations that the SQL of the repositories comes down to.
use Prim.Native.Nat.{ℕ, zero, suc, ◌+◌, ◌≤◌}
use mathlib.Core.Path.{◌≡◌, refl}
use mathlib.Core.Bool.{Bool, true, false}
use mathlib.Core.Option.{Option, none, some}
use mathlib.Core.List.{List, [], ◌∷◌, ◌++◌}
use native.Mathlib.Omega.{arith}

abbrev choose {ℓ} : {A : Type ℓ} → Bool → A → A → A
choose true x y = x
choose false x y = y

module _ {ℓ} {A : Type ℓ} where
  abbrev pub length : List A → ℕ
  length [] = 0
  length (x ∷ xs) = suc (length xs)

  -- The first row that a WHERE clause accepts.
  abbrev pub find : (A → Bool) → List A → Option A
  find p [] = none
  find p (x ∷ xs) = choose (p x) (some x) (find p xs)

  -- Whether a row is accepted.
  abbrev pub has : (A → Bool) → List A → Bool
  has p [] = false
  has p (x ∷ xs) = choose (p x) true (has p xs)

  -- How many are accepted.
  abbrev pub count : (A → Bool) → List A → ℕ
  count p [] = 0
  count p (x ∷ xs) = let n = count p xs in choose (p x) (suc n) n

  -- UPDATE … SET f WHERE p
  abbrev pub update : (A → Bool) → (A → A) → List A → List A
  update p f [] = []
  update p f (x ∷ xs) = choose (p x) (f x) x ∷ update p f xs

  -- The rows that a WHERE clause accepts, in order.
  abbrev pub select : (A → Bool) → List A → List A
  select p [] = []
  select p (x ∷ xs) = let rest = select p xs in choose (p x) (x ∷ rest) rest

  abbrev pub take : ℕ → List A → List A
  take zero xs = []
  take (suc n) [] = []
  take (suc n) (x ∷ xs) = x ∷ take n xs

  pub length-append : (xs ys : List A) → length (xs ++ ys) ≡ length xs + length ys
  length-append [] ys = omega arith
  length-append (x ∷ xs) ys = omega (arith, length-append xs ys)

  pub length-update : (p : A → Bool) (f : A → A) (xs : List A) → length (update p f xs) ≡ length xs
  length-update p f [] = refl
  length-update p f (x ∷ xs) = omega (arith, length-update p f xs)

  pub length-select : (p : A → Bool) (xs : List A) → length (select p xs) ≤ length xs
  length-select p [] = omega arith
  length-select p (x ∷ xs) = ground (arith, length-select p xs)

  pub length-take-le : (n : ℕ) (xs : List A) → length (take n xs) ≤ n
  length-take-le zero xs = omega arith
  length-take-le (suc n) [] = omega arith
  length-take-le (suc n) (x ∷ xs) = omega (arith, length-take-le n xs)

  pub count-append : (p : A → Bool) (xs ys : List A) → count p (xs ++ ys) ≡ count p xs + count p ys
  count-append p [] ys = omega arith
  count-append p (x ∷ xs) ys = ground (arith, count-append p xs ys)

  pub find-append_none :
      (p : A → Bool) (xs ys : List A) → find p xs ≡ none → find p (xs ++ ys) ≡ find p ys
  find-append_none p [] ys h = refl
  find-append_none p (x ∷ xs) ys h = ground (arith, find-append_none p xs ys)

  pub find-append_some :
      (p : A → Bool) (xs ys : List A) (a : A) → find p xs ≡ some a → find p (xs ++ ys) ≡ some a
  find-append_some p [] ys a h = ground arith
  find-append_some p (x ∷ xs) ys a h = ground (arith, find-append_some p xs ys a)

  -- What is found is accepted.
  pub find-accepts : (p : A → Bool) (xs : List A) (a : A) → find p xs ≡ some a → p a ≡ true
  find-accepts p [] a h = ground arith
  find-accepts p (x ∷ xs) a h = ground (arith, find-accepts p xs a)

  -- Nothing is found exactly when no row is accepted.
  pub has-find : (p : A → Bool) (xs : List A) → has p xs ≡ false → find p xs ≡ none
  has-find p [] h = refl
  has-find p (x ∷ xs) h = ground (arith, has-find p xs)

  pub count-pos : (p : A → Bool) (xs : List A) (a : A) → find p xs ≡ some a → 1 ≤ count p xs
  count-pos p [] a h = ground arith
  count-pos p (x ∷ xs) a h = ground (arith, count-pos p xs a)

  -- A new row is found where none was.
  pub find-append_new :
      (p : A → Bool) (xs : List A) (a : A)
      → find p xs ≡ none
      → p a ≡ true
      → find p (xs ++ a ∷ []) ≡ some a
  find-append_new p [] a h e = ground arith
  find-append_new p (x ∷ xs) a h e = ground (arith, find-append_new p xs a)

  -- An UPDATE that keeps its own clause true changes the row that is found.
  pub find-update :
      (p : A → Bool) (f : A → A) (xs : List A) (a : A)
      → ((x : A) → p x ≡ true → p (f x) ≡ true)
      → find p xs ≡ some a
      → find p (update p f xs) ≡ some (f a)
  find-update p f [] a keep h = ground arith
  find-update p f (x ∷ xs) a keep h = ground (arith, keep x, find-update p f xs a keep)

  -- Rows that another clause cannot tell apart from their update are found the same.
  pub find-update_other :
      (p q : A → Bool) (f : A → A) (xs : List A)
      → ((x : A) → q x ≡ true → (p x ≡ false) × (p (f x) ≡ false))
      → find p (update q f xs) ≡ find p xs
  find-update_other p q f [] apart = refl
  find-update_other p q f (x ∷ xs) apart = ground (arith, apart x, find-update_other p q f xs apart)

  -- An UPDATE that leaves out the row that is found, and does not change what the clause reads, keeps
  -- it found.
  pub find-update_kept :
      (p q : A → Bool) (f : A → A) (xs : List A) (a : A)
      → ((x : A) → p (f x) ≡ p x)
      → q a ≡ false
      → find p xs ≡ some a
      → find p (update q f xs) ≡ some a
  find-update_kept p q f [] a same out h = ground arith
  find-update_kept p q f (x ∷ xs) a same out h =
      ground (arith, same x, find-update_kept p q f xs a same out)

  -- What no row passes does not hold of a row that is found.
  pub find-apart :
      (p q : A → Bool) (xs : List A) (a : A) → find q xs ≡ none → find p xs ≡ some a → q a ≡ false
  find-apart p q [] a h k = ground (arith, k)
  find-apart p q (x ∷ xs) a h k = ground (arith, h, k, find-apart p q xs a)
