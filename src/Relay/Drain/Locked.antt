-- ===== src/Relay/Drain/Locked.antt =====
-- The locks that ClaimPendingBatch of internal/repository/outbox_relay.go sets on a batch.
use arvan.Prelude.{
  true, false, Bool-cases, none, some, List, [], ◌∷◌, ◌≡◌, refl, sym, ap, ◌∙◌, ◌⊎◌, inl, inr, ◌==◌,
  arith,
}
use arvan.Prelude.Lists.{update}
use arvan.Domain.{Time}
use arvan.Database.{OutboxEventModel, Effect}
use arvan.Repository.Page.Order.{In}
use arvan.Repository.OutboxRelay.{id_in}
use arvan.Repository.OutboxRelay.Claims.{In-id_in}
use arvan.Relay.Drain.Rows.{
  Rows, AreDistinct, is_open, In-update, In-update_kept, In-update_done, count-update_same,
  AreDistinct-update,
}
use arvan.Relay.Drain.Progress.{Progress, Underway}

id_in-In :
    (e : OutboxEventModel) (ms : Rows)
    → id_in ms e ≡ true
    → (m : OutboxEventModel) × In m ms × (m.id ≡ e.id)
id_in-In e [] h = absurd (ground (arith, h))
id_in-In e (m ∷ ms) h = elim (Bool-cases (e.id == m.id)) [
  | inl same ↦ (m, inl refl, ground (arith, same))
  | inr other ↦ let (n, there, is) = id_in-In e ms (ground (arith, h, other)) in (n, inr there, is)
]

-- The lock of a row.
abbrev pub lock : Time → OutboxEventModel → OutboxEventModel
lock until m = record m { locked_until = some until }

module _ (batch : Rows) (until : Time) (rows : Rows) where
  pub Progress-locked :
      (effects : List Effect)
      → Progress rows effects (update (id_in batch) (lock until) rows) effects
  Progress-locked effects = record {
    goes_on = λ a there is_one. inl (locked_or_not a there is_one (Bool-cases (id_in batch a)));
    keeps = λ e there. there;
    tally = omega (arith, count-update_same is_open (id_in batch) (lock until) rows (λ a. refl));
  }
    where
      locked_or_not :
          (a : OutboxEventModel)
          → In a rows
          → is_open a ≡ true
          → (id_in batch a ≡ true) ⊎ (id_in batch a ≡ false)
          → (q : OutboxEventModel) × In q (update (id_in batch) (lock until) rows)
            × (q.payload ≡ a.payload)
            × (is_open q ≡ true)
      locked_or_not a there is_one (inl e) =
          (lock until a, In-update_done (id_in batch) (lock until) a rows there e, refl, is_one)
      locked_or_not a there is_one (inr e) =
          (a, In-update_kept (id_in batch) (lock until) a rows there e, refl, is_one)

  -- A row of the updated table is one as it was, or with the (lock until).
  abbrev Behind : OutboxEventModel → OutboxEventModel → Type 0
  Behind a x = ((id_in batch x ≡ true) × (a ≡ lock until x)) ⊎ ((id_in batch x ≡ false) × (a ≡ x))

  status : (a x : OutboxEventModel) → Behind a x → a.status ≡ x.status
  status a x (inl (e, is)) = ap (λ (m : OutboxEventModel). m.status) is
  status a x (inr (e, is)) = ap (λ (m : OutboxEventModel). m.status) is

  body : (a x : OutboxEventModel) → Behind a x → a.payload ≡ x.payload
  body a x (inl (e, is)) = ap (λ (m : OutboxEventModel). m.payload) is
  body a x (inr (e, is)) = ap (λ (m : OutboxEventModel). m.payload) is

  unlocked_or_taken :
      (a x : OutboxEventModel)
      → (x.locked_until ≡ none) ⊎ ((m : OutboxEventModel) × In m [] × (m.id ≡ x.id))
      → Behind a x
      → (a.locked_until ≡ none) ⊎ ((m : OutboxEventModel) × In m batch × (m.id ≡ a.id))
  unlocked_or_taken a x (inr (m, nowhere, same)) how = absurd nowhere
  unlocked_or_taken a x (inl free) (inr (e, is)) =
      inl (ap (λ (m : OutboxEventModel). m.locked_until) is ∙ free)
  unlocked_or_taken a x (inl free) (inl (e, is)) =
      let (m, there, same) = id_in-In x batch e in
      inr (m, there, same ∙ sym (ap (λ (n : OutboxEventModel). n.id) is))

  -- Between two polls, no open row is locked.
  pub Underway-locked :
      Underway [] rows
      → AreDistinct batch
      → ((m : OutboxEventModel) → In m batch → In m rows × (is_open m ≡ true))
      → Underway batch (update (id_in batch) (lock until) rows)
  Underway-locked h apart from = record {
    distinct = AreDistinct-update (id_in batch) (lock until) rows (λ x. refl) h.distinct;
    apart = apart;
    waiting = λ m there.
        let (in_rows, is_one) = from m there in
        (
          lock until m,
          In-update_done (id_in batch) (lock until) m rows in_rows (In-id_in m m batch there refl),
          refl,
          refl,
          is_one,
        );
    unlocked = λ a there is_one.
        let (x, in_rows, how) = In-update (id_in batch) (lock until) a rows there in
        unlocked_or_taken a x (h.unlocked x in_rows (rw (← (status a x how)) is_one)) how;
    readable = λ a there is_one.
        let (x, in_rows, how) = In-update (id_in batch) (lock until) a rows there in
        let (payload, e) = h.readable x in_rows (rw (← (status a x how)) is_one) in
        (payload, body a x how ∙ e);
  }
