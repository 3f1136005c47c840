-- ===== src/RateLimit/Window.antt =====
-- Times among the members of a sorted set, in the order of both lists.
use arvan.Prelude.{
  ⊤, ℕ, ◌≤◌, Bool, true, false, Bool-cases, List, [], ◌∷◌, ◌≡◌, refl, ◌⊎◌, inl, inr, arith,
}
use arvan.Prelude.Lists.{length, select}
use arvan.Domain.{Time}
use arvan.RateLimit.{Entry}

abbrev pub Everyone : (Time → Type 0) → List Time → Type 0
Everyone P [] = ⊤
Everyone P (t ∷ ts) = P t × Everyone P ts

pub Everyone-weaken :
    {P Q : Time → Type 0} (ts : List Time)
    → ((t : Time) → P t → Q t)
    → Everyone P ts
    → Everyone Q ts
Everyone-weaken [] k h = tt
Everyone-weaken (t ∷ ts) k (p, h) = (k t p, Everyone-weaken ts k h)

-- A selection keeps what holds of everyone, and gains what selects it.
pub Everyone-select :
    {P Q : Time → Type 0} (p : Time → Bool) (ts : List Time)
    → ((t : Time) → P t → p t ≡ true → Q t)
    → Everyone P ts
    → Everyone Q (select p ts)
Everyone-select p [] k h = tt
Everyone-select p (t ∷ ts) k (one, h) = elim (Bool-cases (p t)) [
  | inl e ↦ rw e (k t one e, Everyone-select p ts k h)
  | inr e ↦ rw e (Everyone-select p ts k h)
]

pub select-nobody :
    (p : Time → Bool) (ts : List Time) → Everyone (λ t. p t ≡ false) ts → select p ts ≡ []
select-nobody p [] h = refl
select-nobody p (t ∷ ts) (one, h) = rw (one, select-nobody p ts h)

-- The narrower of two selections is enough.
pub select-narrower :
    (p q : Time → Bool) (ts : List Time)
    → ((t : Time) → p t ≡ true → q t ≡ true)
    → select p (select q ts) ≡ select p ts
select-narrower p q [] h = refl
select-narrower p q (t ∷ ts) h = ground (arith, h t, select-narrower p q ts h)

module _ (float64 : ℕ → ℕ) where
  -- Each of the times has an entry of its own, with its score.
  abbrev pub Within : List Time → List Entry → Type 0
  Within [] es = ⊤
  Within (t ∷ ts) [] = ⊥
  Within (t ∷ ts) (e ∷ es) =
      ((e.member ≡ t) × (e.score ≡ float64 t) × Within ts es) ⊎ Within (t ∷ ts) es

  pub Within-length : (ts : List Time) (es : List Entry) → Within ts es → length ts ≤ length es
  Within-length [] es h = omega arith
  Within-length (t ∷ ts) [] h = absurd h
  Within-length (t ∷ ts) (e ∷ es) (inl (_, _, h)) = omega (arith, Within-length ts es h)
  Within-length (t ∷ ts) (e ∷ es) (inr h) = omega (arith, Within-length (t ∷ ts) es h)

  pub Within-more :
      (ts : List Time) (e : Entry) (es : List Entry) → Within ts es → Within ts (e ∷ es)
  Within-more [] e es h = tt
  Within-more (t ∷ ts) e es h = inr h

  pub Within-tail :
      (t : Time) (ts : List Time) (es : List Entry) → Within (t ∷ ts) es → Within ts es
  Within-tail t ts [] h = absurd h
  Within-tail t ts (e ∷ es) (inl (_, _, h)) = Within-more ts e es h
  Within-tail t ts (e ∷ es) (inr h) = Within-more ts e es (Within-tail t ts es h)

  pub Within-fewer :
      (p : Time → Bool) (ts : List Time) (es : List Entry) → Within ts es → Within (select p ts) es
  Within-fewer p [] es h = tt
  Within-fewer p (t ∷ ts) [] h = absurd h
  Within-fewer p (t ∷ ts) (e ∷ es) (inl (m, s, h)) = elim (Bool-cases (p t)) [
    | inl taken ↦ rw taken (inl (m, s, Within-fewer p ts es h))
    | inr dropped ↦ rw dropped (Within-more (select p ts) e es (Within-fewer p ts es h))
  ]
  Within-fewer p (t ∷ ts) (e ∷ es) (inr h) =
      Within-more (select p (t ∷ ts)) e es (Within-fewer p (t ∷ ts) es h)

  -- A selection of the entries that loses none of the times.
  pub Within-keep :
      (q : Entry → Bool) (ts : List Time) (es : List Entry)
      → Everyone (λ t. (e : Entry) → e.member ≡ t → e.score ≡ float64 t → q e ≡ true) ts
      → Within ts es
      → Within ts (select q es)
  Within-keep q [] es every h = tt
  Within-keep q (t ∷ ts) [] every h = absurd h
  Within-keep q (t ∷ ts) (e ∷ es) (one, every) (inl (m, s, h)) =
      rw (one e m s) (inl (m, s, Within-keep q ts es every h))
  Within-keep q (t ∷ ts) (e ∷ es) every (inr h) = elim (Bool-cases (q e)) [
    | inl taken ↦ rw taken (inr (Within-keep q (t ∷ ts) es every h))
    | inr dropped ↦ rw dropped (Within-keep q (t ∷ ts) es every h)
  ]
