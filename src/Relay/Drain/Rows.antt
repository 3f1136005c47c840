-- ===== src/Relay/Drain/Rows.antt =====
-- The rows of the outbox with distinct ids, under the updates of internal/repository/outbox_relay.go.
use arvan.Prelude.{
  ℕ, zero, suc, Bool, true, false, Bool-cases, some, List, [], ◌∷◌, ◌≡◌, ◌≢◌, refl, sym, ap, ◌∙◌,
  ◌⊎◌, inl, inr, leb, arith,
}
use arvan.Prelude.Lists.{find, count, update, select, take, length}
use arvan.Domain.{Uuid, Time}
use arvan.Database.{OutboxEventModel}
use arvan.Repository.Outbox.{event_by_id}
use arvan.Repository.Page.Order.{In, HasDistinctIds, In-take}
use arvan.Repository.OutboxRelay.{is_pending, pending_row, set_published, insert_by_time, by_time}
use arvan.Repository.OutboxRelay.Claims.{In-insert_by_time, In-by_time}

abbrev pub Rows : Type 0
Rows = List OutboxEventModel

abbrev pub AreDistinct : Rows → Type 0
AreDistinct = HasDistinctIds (λ (m : OutboxEventModel). m.created_at) (λ m. m.id)

abbrev pub is_open : OutboxEventModel → Bool
is_open m = is_pending m.status

module _ {A : Type 0} where
  -- Where a row of an updated table comes from.
  pub In-update :
      (p : A → Bool) (f : A → A) (a : A) (xs : List A)
      → In a (update p f xs)
      → (x : A) × In x xs × (((p x ≡ true) × (a ≡ f x)) ⊎ ((p x ≡ false) × (a ≡ x)))
  In-update p f a [] h = absurd h
  In-update p f a (x ∷ xs) (inr h) = let (y, there, is) = In-update p f a xs h in (y, inr there, is)
  In-update p f a (x ∷ xs) (inl h) = elim (Bool-cases (p x)) [
    | inl e ↦ (x, inl refl, inl (e, rw e at h))
    | inr e ↦ (x, inl refl, inr (e, rw e at h))
  ]

  pub In-update_kept :
      (p : A → Bool) (f : A → A) (a : A) (xs : List A)
      → In a xs
      → p a ≡ false
      → In a (update p f xs)
  In-update_kept p f a [] h out = absurd h
  In-update_kept p f a (x ∷ xs) (inr h) out = inr (In-update_kept p f a xs h out)
  In-update_kept p f a (x ∷ xs) (inl h) out = inl (rw (← h, out) refl)

  pub In-update_done :
      (p : A → Bool) (f : A → A) (a : A) (xs : List A)
      → In a xs
      → p a ≡ true
      → In (f a) (update p f xs)
  In-update_done p f a [] h e = absurd h
  In-update_done p f a (x ∷ xs) (inr h) e = inr (In-update_done p f a xs h e)
  In-update_done p f a (x ∷ xs) (inl h) e = inl (rw (← h, e) refl)

  pub update_none :
      (p : A → Bool) (f : A → A) (xs : List A)
      → ((a : A) → In a xs → p a ≡ false)
      → update p f xs ≡ xs
  update_none p f [] h = refl
  update_none p f (x ∷ xs) h =
      rw (h x (inl refl), update_none p f xs (λ a there. h a (inr there))) refl

  pub length-select-count : (p : A → Bool) (xs : List A) → length (select p xs) ≡ count p xs
  length-select-count p [] = refl
  length-select-count p (x ∷ xs) = ground (arith, length-select-count p xs)

  pub count-same :
      (p q : A → Bool) (xs : List A) → ((a : A) → In a xs → p a ≡ q a) → count p xs ≡ count q xs
  count-same p q [] h = refl
  count-same p q (x ∷ xs) h =
      rw (h x (inl refl), count-same p q xs (λ a there. h a (inr there))) refl

  pub count-update_same :
      (p q : A → Bool) (f : A → A) (xs : List A)
      → ((a : A) → p (f a) ≡ p a)
      → count p (update q f xs) ≡ count p xs
  count-update_same p q f [] h = refl
  count-update_same p q f (x ∷ xs) h = ground (arith, h x, count-update_same p q f xs h)

  pub count_zero : (p : A → Bool) (a : A) (xs : List A) → count p xs ≡ 0 → In a xs → p a ≡ false
  count_zero p a [] h there = absurd there
  count_zero p a (x ∷ xs) h (inl is) = rw is (ground (arith, h))
  count_zero p a (x ∷ xs) h (inr there) = count_zero p a xs (ground (arith, h)) there

  -- A batch is full, or all there is.
  pub length-take_cases :
      (n : ℕ) (xs : List A) → (length (take n xs) ≡ n) ⊎ (length (take n xs) ≡ length xs)
  length-take_cases zero xs = inl refl
  length-take_cases (suc n) [] = inr refl
  length-take_cases (suc n) (x ∷ xs) = ground (arith, length-take_cases n xs)

pub AreDistinct-update :
    (p : OutboxEventModel → Bool) (f : OutboxEventModel → OutboxEventModel) (rows : Rows)
    → ((m : OutboxEventModel) → (f m).id ≡ m.id)
    → AreDistinct rows
    → AreDistinct (update p f rows)
AreDistinct-update p f [] same h = tt
AreDistinct-update p f (x ∷ rows) same (apart, h) = (
  λ a there e.
      let (y, in_rows, how) = In-update p f a rows there in
      apart y in_rows (ground (arith, same x, same y, how, e)),
  AreDistinct-update p f rows same h,
)

apart_insert :
    (m x : OutboxEventModel) (rows : Rows)
    → m.id ≢ x.id
    → ((a : OutboxEventModel) → In a rows → x.id ≢ a.id)
    → (a : OutboxEventModel) → In a (insert_by_time m rows)
    → x.id ≢ a.id
apart_insert m x rows out apart a there e = elim (In-insert_by_time a m rows there) [
  | inl is ↦ out (sym (e ∙ ap (λ (n : OutboxEventModel). n.id) is))
  | inr in_rows ↦ apart a in_rows e
]

AreDistinct-insert :
    (m : OutboxEventModel) (rows : Rows)
    → ((a : OutboxEventModel) → In a rows → m.id ≢ a.id)
    → AreDistinct rows
    → AreDistinct (insert_by_time m rows)
AreDistinct-insert m [] out h = (λ a there. absurd there, tt)
AreDistinct-insert m (x ∷ rows) out (apart, h) = elim (Bool-cases (leb m.created_at x.created_at)) [
  | inl e ↦ rw e (out, (apart, h))
  | inr e ↦ rw e (
    apart_insert m x rows (out x (inl refl)) apart,
    AreDistinct-insert m rows (λ a there. out a (inr there)) h,
  )
]

pub AreDistinct-by_time : (rows : Rows) → AreDistinct rows → AreDistinct (by_time rows)
AreDistinct-by_time [] h = tt
AreDistinct-by_time (x ∷ rows) (apart, h) =
    AreDistinct-insert x (by_time rows) (λ a there. apart a (In-by_time a rows there))
      (AreDistinct-by_time rows h)

pub AreDistinct-take : (n : ℕ) (rows : Rows) → AreDistinct rows → AreDistinct (take n rows)
AreDistinct-take zero rows h = tt
AreDistinct-take (suc n) [] h = tt
AreDistinct-take (suc n) (x ∷ rows) (apart, h) =
    (λ a there. apart a (In-take a n rows there), AreDistinct-take n rows h)

length-insert_by_time :
    (m : OutboxEventModel) (rows : Rows) → length (insert_by_time m rows) ≡ suc (length rows)
length-insert_by_time m [] = refl
length-insert_by_time m (x ∷ rows) = ground (arith, length-insert_by_time m rows)

pub length-by_time : (rows : Rows) → length (by_time rows) ≡ length rows
length-by_time [] = refl
length-by_time (x ∷ rows) =
    omega (arith, length-insert_by_time x (by_time rows), length-by_time rows)

some_injective : {a b : OutboxEventModel} → some a ≡ some b → a ≡ b
some_injective e = ground (arith, e)

-- The row of an id is the one that a statement finds.
pub find_distinct :
    (r : OutboxEventModel) (id : Uuid) (rows : Rows)
    → AreDistinct rows
    → In r rows
    → r.id ≡ id
    → find (event_by_id id) rows ≡ some r
find_distinct r id [] h there e = absurd there
find_distinct r id (x ∷ rows) (apart, h) (inl is) e =
    let same = sym (ap (λ (n : OutboxEventModel). n.id) is) ∙ e in ground (arith, same, is)
find_distinct r id (x ∷ rows) (apart, h) (inr there) e =
    ground (arith, apart r there, find_distinct r id rows h there e)

pub same_row :
    (a r : OutboxEventModel) (rows : Rows)
    → AreDistinct rows
    → In a rows
    → In r rows
    → a.id ≡ r.id
    → a ≡ r
same_row a r rows h in_rows there e =
    some_injective
      (sym (find_distinct a r.id rows h in_rows e) ∙ find_distinct r r.id rows h there refl)

count-published_first :
    (id : Uuid) (now : Time) (x : OutboxEventModel) (rows : Rows)
    → ((a : OutboxEventModel) → In a rows → x.id ≢ a.id)
    → x.id ≡ id
    → is_pending x.status ≡ true
    → suc (count is_open (update (pending_row id) (set_published now) (x ∷ rows)))
      ≡ count is_open (x ∷ rows)
count-published_first id now x rows apart same e =
    let others =
      update_none (pending_row id) (set_published now) rows
        (λ a there. ground (arith, apart a there, same)) in
    ground (arith, others, e, same)

-- The mark takes one pending row away.
pub count-published :
    (r : OutboxEventModel) (id : Uuid) (now : Time) (rows : Rows)
    → AreDistinct rows
    → In r rows
    → r.id ≡ id
    → is_open r ≡ true
    → suc (count is_open (update (pending_row id) (set_published now) rows)) ≡ count is_open rows
count-published r id now [] h there same e = absurd there
count-published r id now (x ∷ rows) (apart, h) (inl is) same e =
    count-published_first id now x rows apart (sym (ap (λ (n : OutboxEventModel). n.id) is) ∙ same)
      (rw is at e)
count-published r id now (x ∷ rows) (apart, h) (inr there) same e =
    ground (arith, apart r there, same, count-published r id now rows h there same e)
