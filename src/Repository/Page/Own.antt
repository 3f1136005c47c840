-- ===== src/Repository/Page/Own.antt =====
-- The rows of a page, whatever the environment does.
use mathlib.Core.List.{map}
use arvan.Prelude.{
  ℕ, ◌≤◌, ◌≡◌, refl, ◌∙◌, inl, inr, arith, Bool, true, Option, none, some, List, [], ◌∷◌,
}
use arvan.Prelude.Int.{ℤ}
use arvan.Prelude.Lists.{length, length-take-le}
use arvan.Domain.{Uuid, Time, Result, ok, err}
use arvan.Database.{Tables, Env, Session}
use arvan.Database.Laws.{Yields, Yields-bind, Yields-weaken, statement-Yields}
use arvan.Database.Sql.{first, found}
use arvan.Repository.Page.{
  row_of, page_limit, accepted_behind, page_rows, translate_cursor, anchor_row, list_behind,
  list_page, list_mapped,
}
use arvan.Repository.Page.Order.{In, In-take, In-select, In-newest_first}

module _ (env : Env) {A : Type 0} (created_at : A → Time) (id : A → Uuid) (table : Tables → List A)
    (p : A → Bool) where
  -- At most so many rows, all of them rows of the table that the clause accepts.
  abbrev pub IsOwnPage : ℕ → Tables → List A → Type 0
  IsOwnPage limit t page =
      (length page ≤ limit) × ((a : A) → In a page → (p a ≡ true) × In a (table t))

  accepted-own :
      (anchor : Option A) (a : A) → accepted_behind created_at id p anchor a ≡ true → p a ≡ true
  accepted-own none a h = h
  accepted-own (some k) a h = ground (arith, h)

  page_rows-own :
      (limit : ℕ) (anchor : Option A) (t : Tables)
      → IsOwnPage limit t (page_rows created_at id p limit anchor (table t))
  unfolding page_rows
  page_rows-own limit anchor t = (
    length-take-le limit _,
    λ a h.
        let (accepted, row) =
          In-select (accepted_behind created_at id p anchor) a (table t)
            (In-newest_first created_at id a _ (In-take a limit _ h)) in
        (accepted-own anchor a accepted, row),
  )

  read-ok :
      (rows page : List A) (t u : Tables)
      → ◌≡◌ {A = Result (List A) × Tables} (ok rows, t) (ok page, u)
      → (page ≡ rows) × (u ≡ t)
  read-ok rows page t u h = ground arith

  list_behind-Yields :
      (limit : ℕ) (anchor : Option A) (s : Session)
      → Yields
          (λ page u. IsOwnPage limit s.tables page × (u.tables ≡ s.tables))
          (list_behind env created_at id table p limit anchor s)
  unfolding list_behind
  list_behind-Yields limit anchor s = Yields-weaken (statement-Yields env _ s) (λ page u read.
      let (is_page, same) = read-ok _ page s.tables u.tables read in
      (rw is_page (page_rows-own limit anchor s.tables), same))

  cursor-Yields :
      {Q : A → Session → Type 0} (r : Result A × Session)
      → Yields Q r
      → Yields Q (translate_cursor r)
  cursor-Yields (ok a, s) h = h
  cursor-Yields (err e, s) h = record { holds = tt }

  found-ok :
      (o : Option A) (a : A) (t u : Tables)
      → ◌≡◌ {A = Result A × Tables} (found o, t) (ok a, u)
      → u ≡ t
  found-ok none a t u h = absurd (ground arith)
  found-ok (some b) a t u h = ground arith

  list_page-Yields :
      (limit : ℤ) (cursor : Option Uuid) (s : Session)
      → Yields
          (λ page u. IsOwnPage (page_limit limit) s.tables page × (u.tables ≡ s.tables))
          (list_page env created_at id table p limit cursor s)
  unfolding list_page anchor_row
  list_page-Yields limit none s = list_behind-Yields (page_limit limit) none s
  list_page-Yields limit (some cursor) s =
      Yields-bind
        (cursor-Yields _ (statement-Yields env (first table (row_of created_at id p cursor)) s))
        (λ anchor u read.
          let same = found-ok _ anchor s.tables u.tables read in
          Yields-weaken (list_behind-Yields (page_limit limit) (some anchor) u)
            (λ page v (own, kept). (rw same at own, kept ∙ same)))

  In-map :
      {B : Type 0} (f : A → B) (b : B) (xs : List A)
      → In b (map f xs)
      → (a : A) × In a xs × (b ≡ f a)
  In-map f b [] h = absurd h
  In-map f b (x ∷ xs) (inl e) = (x, inl refl, e)
  In-map f b (x ∷ xs) (inr h) = let (a, there, e) = In-map f b xs h in (a, inr there, e)

  length-map : {B : Type 0} (f : A → B) (xs : List A) → length (map f xs) ≡ length xs
  length-map f [] = refl
  length-map f (x ∷ xs) = omega (arith, length-map f xs)

  -- A page that is answered, as values: each is of a row that the clause accepts.
  abbrev pub ShowsOwn : {B : Type 0} → (A → B) → ℕ → Tables → List B → Type 0
  ShowsOwn {B} f limit t page =
      (length page ≤ limit)
      × ((b : B) → In b page → (a : A) × (p a ≡ true) × In a (table t) × (b ≡ f a))

  pub list_mapped-Yields :
      {B : Type 0} (f : A → B) (limit : ℤ) (cursor : Option Uuid) (s : Session)
      → Yields
          (λ page u. ShowsOwn f (page_limit limit) s.tables page × (u.tables ≡ s.tables))
          (list_mapped env created_at id table p f limit cursor s)
  unfolding list_mapped
  list_mapped-Yields f limit cursor s =
      Yields-bind (list_page-Yields limit cursor s) (λ models u ((few, own), same). record {
        holds = (
          (
            rw (length-map f models) few,
            λ b h.
                let (a, there, is) = In-map f b models h in
                let (accepted, row) = own a there in (a, accepted, row, is),
          ),
          same,
        );
      })
