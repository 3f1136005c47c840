-- ===== src/Repository/Page/Walk.antt =====
-- A client that follows the cursors of internal/handler/account.go and sms.go: page after page, until
-- a page has no cursor.
use arvan.Prelude.{
  ℕ, zero, suc, ◌==◌, Option, none, some, List, [], ◌∷◌, ◌++◌, if◌then◌else◌, ◌≡◌, ◌⊎◌,
}
use arvan.Prelude.Lists.{length}
use arvan.Domain.{Uuid}
use arvan.Database.{Exec, pure, ◌>>=◌}

module _ {B : Type 0} where
  -- The last of a page.
  abbrev pub last_of : List B → Option B
  last_of [] = none
  last_of (b ∷ []) = some b
  last_of (b ∷ c ∷ rest) = last_of (c ∷ rest)

  abbrev pub id_of : (B → Uuid) → Option B → Option Uuid
  id_of id none = none
  id_of id (some b) = some (id b)

  -- `if len(page) == limit { next_cursor = page[len(page)-1].ID }`
  abbrev pub next_cursor : (B → Uuid) → ℕ → List B → Option Uuid
  next_cursor id limit page = if length page == limit then id_of id (last_of page) else none

  -- What a client reads by at most so many requests, from a cursor on. A request answers a page.
  unfoldable pub walk :
      (Option Uuid → Exec (List B)) → (B → Uuid) → ℕ → ℕ → Option Uuid → Exec (List B)
  walk list id limit zero cursor = pure []
  walk list id limit (suc requests) cursor = list cursor >>= λ page.
      elim (next_cursor id limit page) [
        | none ↦ pure page
        | some next ↦ walk list id limit requests (some next) >>= λ rest. pure (page ++ rest)
      ]

-- The cursor behind the rows that were read: none at the start, and else the last of them.
abbrev pub At : {A : Type 0} → (A → Uuid) → List A → Option Uuid → Type 0
At {A} id before cursor =
    ((before ≡ []) × (cursor ≡ none))
    ⊎ ((b : List A) × (k : A) × (before ≡ b ++ k ∷ []) × (cursor ≡ some (id k)))
