-- ===== src/Repository/Page/Complete.antt =====
-- The pages that a client reads one after the other, against the rows of the account.
use mathlib.Core.List.{map, append_assoc, map-append}
use arvan.Prelude.{
  ℕ, zero, suc, ◌-◌, ◌<◌, Bool, Option, none, some, List, [], ◌∷◌, ◌++◌, ◌≡◌, refl, ap, sym, ◌∙◌,
  inl, inr, arith,
}
use arvan.Prelude.Int.{ℤ}
use arvan.Prelude.Lists.{length-select, length, length-append, take, select, find}
use arvan.Domain.{Uuid, Time, Result}
use arvan.Database.{Tables, Env, Session, Exec, done, pure}
use arvan.Database.Sql.{first}
use arvan.Database.Success.{
  Succeeds, Succeeds-ok, Succeeds-bind, Succeeds-weaken, statement-Succeeds,
}
use arvan.Repository.Page.{
  page_limit, behind, newest_first, row_of, page_rows, translate_cursor, anchor_row, list_behind,
  list_page, list_mapped,
}
use arvan.Repository.Page.Walk.{At, last_of, next_cursor, walk}
use arvan.Repository.Page.Order.{
  In-append, In-select, In-newest_first, HasDistinctIds, newest_first-IsNewestFirst,
  HasDistinctIds-select, select-newest_first, select-behind, find-row_of, select_and,
  length-newest_first,
}

module _ {A B : Type 0} (f : A → B) where
  last_of-map : (xs : List A) (k : A) → last_of (map f (xs ++ k ∷ [])) ≡ some (f k)
  last_of-map [] k = refl
  last_of-map (x ∷ []) k = refl
  last_of-map (x ∷ y ∷ xs) k = last_of-map (y ∷ xs) k

  length-map : (xs : List A) → length (map f xs) ≡ length xs
  length-map [] = refl
  length-map (x ∷ xs) = omega (arith, length-map xs)

module _ {A : Type 0} where
  -- A page is the end of the rows, or it is full and ends with a row that others follow or not.
  data Cut (n : ℕ) (rows : List A) : Type 0 where
    short : take n rows ≡ rows → length rows < n → Cut n rows
    full :
        (before : List A) (k : A) (after : List A)
        → take n rows ≡ before ++ k ∷ []
        → length (take n rows) ≡ n
        → rows ≡ (before ++ k ∷ []) ++ after
        → Cut n rows

  Cut-cons : (n : ℕ) (x : A) (rows : List A) → Cut (suc n) rows → Cut (suc (suc n)) (x ∷ rows)
  Cut-cons n x rows (short e h) = short (rw e) (omega arith)
  Cut-cons n x rows (full before k after e l r) =
      full (x ∷ before) k after (rw e) (omega (arith, l)) (rw r)

  cut : (n : ℕ) (rows : List A) → Cut (suc n) rows
  cut n [] = short refl (omega arith)
  cut zero (x ∷ rows) = full [] x rows refl refl refl
  cut (suc n) (x ∷ rows) = Cut-cons n x rows (cut n rows)

translated :
    {A : Type 0} {P : A → Tables → Type 0} {r : Result A × Session}
    → Succeeds P r
    → Succeeds P (translate_cursor r)
translated h = record { answer = h.answer; left = h.left; runs = rw h.runs; holds = h.holds }

module _ {A B : Type 0} (f : A → B) (id : A → Uuid) (id' : B → Uuid)
    (same_id : (a : A) → id' (f a) ≡ id a) where
  no_cursor :
      (n : ℕ) (rows : List A) → length rows < suc n → next_cursor id' (suc n) (map f rows) ≡ none
  no_cursor n rows h = ground (arith, h, length-map f rows)

  cursor_of :
      (n : ℕ) (page b : List A) (k : A)
      → page ≡ b ++ k ∷ []
      → length page ≡ suc n
      → next_cursor id' (suc n) (map f page) ≡ some (id k)
  cursor_of n page b k e l =
      let last : last_of (map f page) ≡ some (f k) = rw (e, last_of-map f b k) in
      ground (arith, l, last, length-map f page, same_id k)

  module _ (list : Option Uuid → Exec (List B)) (t : Tables) (rows : List A) (n : ℕ)
      (lists : (before after : List A) (cursor : Option Uuid) (s : Session)
        → At id before cursor
        → rows ≡ before ++ after
        → s.tables ≡ t
        → Succeeds (λ page u. (page ≡ map f (take (suc n) after)) × (u ≡ t)) (list cursor s)) where
    walked :
        (requests : ℕ) (before after : List A) (cursor : Option Uuid) (s : Session)
        → length after < requests
        → At id before cursor
        → rows ≡ before ++ after
        → s.tables ≡ t
        → Succeeds (λ r u. (r ≡ map f after) × (u ≡ t)) (walk list id' (suc n) requests cursor s)
    unfolding walk
    walked zero before after cursor s h at split same = absurd (omega arith)
    walked (suc requests) before after cursor s h at split same =
        Succeeds-bind _ (list cursor s) (lists before after cursor s at split same)
          λ page u (is_page, same'). elim (cut n after) [
            | short e l ↦
                let stop : next_cursor id' (suc n) page ≡ none =
                  rw (is_page, e, no_cursor n after l) in
                rw stop (Succeeds-ok _ page u (rw (is_page, e), same'))
            | full b k rest e l r ↦
                let next : next_cursor id' (suc n) page ≡ some (id k) =
                  rw (is_page, cursor_of n _ b k e l) in
                rw next (
                  Succeeds-bind (λ more. pure (page ++ more)) _
                    (walked requests (before ++ (b ++ k ∷ [])) rest (some (id k)) u
                      (omega (
                        arith,
                        h,
                        ap length r,
                        length-append (b ++ k ∷ []) rest,
                        length-append b (k ∷ []),
                      ))
                      (inr (before ++ b, k, sym (append_assoc before b (k ∷ [])), refl))
                      (split ∙ rw (r, append_assoc before (b ++ k ∷ []) rest)) same')
                    (λ more v (is_more, same'').
                      let joined : page ++ more ≡ map f after =
                        rw (is_page, is_more, e, r, map-append f (b ++ k ∷ []) rest) in
                      Succeeds-ok _ (page ++ more) v (joined, same'')))
          ]

page_limit-pos : (limit : ℤ) → page_limit limit ≡ suc (page_limit limit - 1)
page_limit-pos limit = ground arith

module _ (env : Env) (all_done : (n : ℕ) → env.outcome n ≡ done) {A : Type 0}
    (created_at : A → Time) (id : A → Uuid) (table : Tables → List A) (p : A → Bool)
    (limit : ℤ) where
  behind-Succeeds :
      (anchor : Option A) (s : Session)
      → Succeeds
          (λ page u.
            (page ≡ page_rows created_at id p (page_limit limit) anchor (table s.tables))
            × (u ≡ s.tables))
          (list_behind env created_at id table p (page_limit limit) anchor s)
  unfolding list_behind
  behind-Succeeds anchor s = statement-Succeeds env all_done _ s _ s.tables refl

  anchor-Succeeds :
      (k : A) (s : Session)
      → find (row_of created_at id p (id k)) (table s.tables) ≡ some k
      → Succeeds (λ a u. (a ≡ k) × (u ≡ s.tables)) (anchor_row env created_at id table p (id k) s)
  unfolding anchor_row
  anchor-Succeeds k s h = translated (
      statement-Succeeds env all_done (first table (row_of created_at id p (id k))) s k s.tables
        (rw h))

  next_page :
      (b after : List A) (k : A) (xs : List A)
      → HasDistinctIds created_at id xs
      → newest_first created_at id (select p xs) ≡ b ++ k ∷ after
      → page_rows created_at id p (page_limit limit) (some k) xs ≡ take (page_limit limit) after
  unfolding page_rows
  next_page b after k xs distinct split =
      let rows_distinct = HasDistinctIds-select created_at id p xs distinct in
      let sorted = newest_first-IsNewestFirst created_at id (select p xs) rows_distinct in
      rw (
        select_and p (behind created_at id k) xs,
        ← select-newest_first created_at id (behind created_at id k) (select p xs) rows_distinct,
        split,
        select-behind created_at id b k after (rw split at sorted),
      )

  found_anchor :
      (b after : List A) (k : A) (xs : List A)
      → HasDistinctIds created_at id xs
      → newest_first created_at id (select p xs) ≡ b ++ k ∷ after
      → find (row_of created_at id p (id k)) xs ≡ some k
  found_anchor b after k xs distinct split =
      let (accepted, there) =
        In-select p k xs
          (In-newest_first created_at id k (select p xs) (rw split (In-append k b after))) in
      find-row_of created_at id p k xs distinct accepted there

  list_page-Succeeds :
      (s : Session) (before after : List A) (cursor : Option Uuid)
      → HasDistinctIds created_at id (table s.tables)
      → At id before cursor
      → newest_first created_at id (select p (table s.tables)) ≡ before ++ after
      → Succeeds
          (λ page u. (page ≡ take (page_limit limit) after) × (u ≡ s.tables))
          (list_page env created_at id table p limit cursor s)
  unfolding list_page page_rows
  list_page-Succeeds s before after cursor distinct (inl (start, none_is)) split = rw none_is (
      Succeeds-weaken (behind-Succeeds none s)
        λ page u (e, w). (e ∙ ap (take (page_limit limit)) (split ∙ rw start), w))
  list_page-Succeeds s before after cursor distinct (inr (b, k, past, some_is)) split =
      let split' : newest_first created_at id (select p (table s.tables)) ≡ b ++ k ∷ after =
        split ∙ rw (past, append_assoc b (k ∷ []) after) in
      rw some_is (
        Succeeds-bind _ _ (anchor-Succeeds k s (found_anchor b after k _ distinct split'))
          λ a u (is_k, same). Succeeds-weaken (behind-Succeeds (some a) u) λ page v (e, w). (
            e ∙ rw (is_k, same, next_page b after k (table s.tables) distinct split'),
            rw (w, same),
          ))

  -- A client that follows the cursors reads every row that the clause accepts, once and in order.
  pub list_mapped-walk :
      {B : Type 0} (f : A → B) (id' : B → Uuid) (requests : ℕ) (s : Session)
      → ((a : A) → id' (f a) ≡ id a)
      → HasDistinctIds created_at id (table s.tables)
      → length (table s.tables) < requests
      → Succeeds
          (λ r u.
            (r ≡ map f (newest_first created_at id (select p (table s.tables)))) × (u ≡ s.tables))
          (walk
            (list_mapped env created_at id table p f limit)
            id'
            (page_limit limit)
            requests
            none
            s)
  unfolding list_mapped
  list_mapped-walk f id' requests s same_id distinct enough = rw (page_limit-pos limit) (
      walked f id id' same_id _ s.tables rows (page_limit limit - 1)
        (λ before after cursor t at split same.
          Succeeds-bind _ _
            (list_page-Succeeds t before after cursor (rw same distinct) at (rw same split))
            (λ models u (e, w).
              Succeeds-ok _ (map f models) u
                (rw e (ap (λ (n : ℕ). map f (take n after)) (page_limit-pos limit)), rw (w, same))))
        requests [] rows none s
        (omega (
          arith,
          enough,
          length-newest_first created_at id (select p (table s.tables)),
          length-select p (table s.tables),
        ))
        (inl (refl, refl)) refl refl)
    where
      rows : List A
      rows = newest_first created_at id (select p (table s.tables))
