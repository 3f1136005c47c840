-- ===== src/Repository/Page/Order.antt =====
-- The order of a page.
use arvan.Prelude.{
  ℕ, zero, suc, Bool, true, false, Bool-cases, List, [], ◌∷◌, ◌++◌, ◌≡◌, ◌≢◌, refl, ◌∙◌, some, ◌⊎◌,
  inl, inr, arith, ◌&&◌, if◌then◌else◌,
}
use arvan.Prelude.Lists.{take, select, find, length}
use arvan.Domain.{Uuid, Time}
use arvan.Repository.Page.{behind, row_of, insert_newest, newest_first}

module _ {A : Type 0} where
  abbrev pub In : A → List A → Type 0
  In a [] = ⊥
  In a (x ∷ xs) = (a ≡ x) ⊎ In a xs

  In-head :
      (p : A → Bool) (a x : A) (ys xs : List A)
      → p x ≡ true
      → (In a ys → (p a ≡ true) × In a xs)
      → (a ≡ x) ⊎ In a ys
      → (p a ≡ true) × ((a ≡ x) ⊎ In a xs)
  In-head p a x ys xs e deeper (inl same) = (rw (same, e), inl same)
  In-head p a x ys xs e deeper (inr m) = ((deeper m).0, inr (deeper m).1)

  pub In-select : (p : A → Bool) (a : A) (xs : List A) → In a (select p xs) → (p a ≡ true) × In a xs
  In-select p a [] h = absurd h
  In-select p a (x ∷ xs) h = elim (Bool-cases (p x)) [
    | inl e ↦ In-head p a x (select p xs) xs e (In-select p a xs) (rw e at h)
    | inr e ↦ let (q, m) = In-select p a xs (rw e at h) in (q, inr m)
  ]

  pub In-append : (a : A) (xs ys : List A) → In a (xs ++ a ∷ ys)
  In-append a [] ys = inl refl
  In-append a (x ∷ xs) ys = inr (In-append a xs ys)

between : {P Q R S : Type 0} → P ⊎ R → (R → Q ⊎ S) → Q ⊎ P ⊎ S
between (inl p) k = inr (inl p)
between (inr r) k = elim (k r) [ inl q ↦ inl q | inr s ↦ inr (inr s) ]

deeper : {P Q R : Type 0} → P ⊎ Q → (Q → R) → P ⊎ R
deeper (inl p) k = inl p
deeper (inr q) k = inr (k q)

module _ {A : Type 0} (created_at : A → Time) (id : A → Uuid) where
  pub behind_trans :
      (a b c : A)
      → behind created_at id a b ≡ true
      → behind created_at id b c ≡ true
      → behind created_at id a c ≡ true
  behind_trans a b c h k = ground (arith, h, k)

  pub behind-asymm : (a b : A) → behind created_at id a b ≡ true → behind created_at id b a ≡ false
  behind-asymm a b h = ground (arith, h)

  pub behind_total :
      (a b : A) → id a ≢ id b → behind created_at id a b ≡ false → behind created_at id b a ≡ true
  behind_total a b h k = ground (arith, h, k)

  -- Each row is behind all the rows before it.
  abbrev pub IsNewestFirst : List A → Type 0
  IsNewestFirst [] = Unit
  IsNewestFirst (x ∷ xs) = ((a : A) → In a xs → behind created_at id x a ≡ true) × IsNewestFirst xs

  -- No row has the id of another.
  abbrev pub HasDistinctIds : List A → Type 0
  HasDistinctIds [] = Unit
  HasDistinctIds (x ∷ xs) = ((a : A) → In a xs → id x ≢ id a) × HasDistinctIds xs

  pub HasDistinctIds-select :
      (p : A → Bool) (xs : List A) → HasDistinctIds xs → HasDistinctIds (select p xs)
  HasDistinctIds-select p [] h = tt
  HasDistinctIds-select p (x ∷ xs) (apart, h) = elim (Bool-cases (p x)) [
    | inl e ↦ rw e ((λ a m. apart a (In-select p a xs m).1), HasDistinctIds-select p xs h)
    | inr e ↦ rw e (HasDistinctIds-select p xs h)
  ]

  pub In-insert_newest :
      (x a : A) (ys : List A) → In x (insert_newest created_at id a ys) → (x ≡ a) ⊎ In x ys
  unfolding insert_newest
  In-insert_newest x a [] h = h
  In-insert_newest x a (y ∷ ys) h = elim (Bool-cases (behind created_at id a y)) [
    | inl e ↦ rw e at h
    | inr e ↦ between (rw e at h) (In-insert_newest x a ys)
  ]

  pub In-newest_first : (x : A) (xs : List A) → In x (newest_first created_at id xs) → In x xs
  unfolding newest_first
  In-newest_first x [] h = h
  In-newest_first x (y ∷ ys) h =
      deeper (In-insert_newest x y (newest_first created_at id ys) h) (In-newest_first x ys)

  all_behind :
      (a y : A) (ys : List A)
      → behind created_at id a y ≡ true
      → ((z : A) → In z ys → behind created_at id y z ≡ true)
      → (z : A) → (z ≡ y) ⊎ In z ys
      → behind created_at id a z ≡ true
  all_behind a y ys e below z (inl same) = rw same e
  all_behind a y ys e below z (inr m) = behind_trans a y z e (below z m)

  IsNewestFirst-insert_newest :
      (a : A) (ys : List A)
      → ((y : A) → In y ys → id a ≢ id y)
      → IsNewestFirst ys
      → IsNewestFirst (insert_newest created_at id a ys)
  unfolding insert_newest
  IsNewestFirst-insert_newest a [] apart s = ((λ y h. absurd h), tt)
  IsNewestFirst-insert_newest a (y ∷ ys) apart (below, s) =
      elim (Bool-cases (behind created_at id a y)) [
        | inl e ↦ rw e (all_behind a y ys e below, (below, s))
        | inr e ↦ rw e (
          (λ z m. after z e (In-insert_newest z a ys m)),
          IsNewestFirst-insert_newest a ys (λ z m. apart z (inr m)) s,
        )
      ]
    where
      after :
          (z : A)
          → behind created_at id a y ≡ false
          → (z ≡ a) ⊎ In z ys
          → behind created_at id y z ≡ true
      after z e (inl same) = rw same (behind_total a y (apart y (inl refl)) e)
      after z e (inr m) = below z m

  pub newest_first-IsNewestFirst :
      (xs : List A) → HasDistinctIds xs → IsNewestFirst (newest_first created_at id xs)
  unfolding newest_first
  newest_first-IsNewestFirst [] h = tt
  newest_first-IsNewestFirst (x ∷ xs) (apart, h) =
      IsNewestFirst-insert_newest x (newest_first created_at id xs)
        (λ y m. apart y (In-newest_first y xs m)) (newest_first-IsNewestFirst xs h)

  insert_newest_front :
      (a : A) (ys : List A)
      → ((y : A) → In y ys → behind created_at id a y ≡ true)
      → insert_newest created_at id a ys ≡ a ∷ ys
  unfolding insert_newest
  insert_newest_front a [] h = refl
  insert_newest_front a (y ∷ ys) h = rw (h y (inl refl))

  select-insert_newest :
      (q : A → Bool) (a : A) (ys : List A)
      → IsNewestFirst ys
      → select q (insert_newest created_at id a ys)
        ≡ (if q a then insert_newest created_at id a (select q ys) else select q ys)
  unfolding insert_newest
  select-insert_newest q a [] s = ground arith
  select-insert_newest q a (y ∷ ys) (below, s) = elim (Bool-cases (behind created_at id a y)) [
    | inl e ↦
        let front =
          insert_newest_front a (select q (y ∷ ys))
            (λ z m. all_behind a y ys e below z (In-select q z (y ∷ ys) m).1) in
        ground (arith, e, front)
    | inr e ↦ ground (arith, e, select-insert_newest q a ys s)
  ]

  -- A WHERE clause may be applied before or after the order.
  pub select-newest_first :
      (q : A → Bool) (xs : List A)
      → HasDistinctIds xs
      → select q (newest_first created_at id xs) ≡ newest_first created_at id (select q xs)
  unfolding newest_first
  select-newest_first q [] h = refl
  select-newest_first q (x ∷ xs) (apart, h) =
      select-insert_newest q x (newest_first created_at id xs) (newest_first-IsNewestFirst xs h)
      ∙ ground (arith, select-newest_first q xs h)

  select_all : (q : A → Bool) (xs : List A) → ((a : A) → In a xs → q a ≡ true) → select q xs ≡ xs
  select_all q [] h = refl
  select_all q (x ∷ xs) h = rw (h x (inl refl), select_all q xs (λ a m. h a (inr m)))

  -- The rows behind a row are those that come after it.
  pub select-behind :
      (before : List A) (k : A) (after : List A)
      → IsNewestFirst (before ++ k ∷ after)
      → select (behind created_at id k) (before ++ k ∷ after) ≡ after
  select-behind [] k after (below, s) =
      ground (arith, select_all (behind created_at id k) after below)
  select-behind (x ∷ before) k after (below, s) =
      rw (behind-asymm x k (below k (In-append k before after))) (select-behind before k after s)

  -- The row of an id is found by it.
  pub find-row_of :
      (p : A → Bool) (k : A) (xs : List A)
      → HasDistinctIds xs
      → p k ≡ true
      → In k xs
      → find (row_of created_at id p (id k)) xs ≡ some k
  find-row_of p k [] h e m = absurd m
  find-row_of p k (x ∷ xs) (apart, h) e (inl same) =
      let e' = rw same at e in rw same (ground (arith, e'))
  find-row_of p k (x ∷ xs) (apart, h) e (inr m) =
      ground (arith, apart k m, find-row_of p k xs h e m)

module _ {A : Type 0} (created_at : A → Time) (id : A → Uuid) where
  length-insert_newest :
      (a : A) (xs : List A) → length (insert_newest created_at id a xs) ≡ suc (length xs)
  unfolding insert_newest
  length-insert_newest a [] = refl
  length-insert_newest a (x ∷ xs) = ground (arith, length-insert_newest a xs)

  pub length-newest_first : (xs : List A) → length (newest_first created_at id xs) ≡ length xs
  unfolding newest_first
  length-newest_first [] = refl
  length-newest_first (x ∷ xs) =
      omega (arith, length-insert_newest x (newest_first created_at id xs), length-newest_first xs)

pub select_and :
    {A : Type 0} (p q : A → Bool) (xs : List A)
    → select (λ a. p a && q a) xs ≡ select q (select p xs)
select_and p q [] = refl
select_and p q (x ∷ xs) = ground (arith, select_and p q xs)

pub In-take : {A : Type 0} (a : A) (n : ℕ) (xs : List A) → In a (take n xs) → In a xs
In-take a zero xs h = absurd h
In-take a (suc n) [] h = absurd h
In-take a (suc n) (x ∷ xs) (inl e) = inl e
In-take a (suc n) (x ∷ xs) (inr h) = inr (In-take a n xs h)
