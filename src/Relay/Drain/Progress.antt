-- ===== src/Relay/Drain/Progress.antt =====
-- What the polls of internal/outbox/relay.go do to the outbox as a whole, one event at a time.
use arvan.Prelude.{
  ◌+◌, true, false, Bool-cases, none, List, ◌∷◌, ◌≡◌, refl, ap, ◌∙◌, ◌⊎◌, inl, inr, ◌==◌, arith,
}
use arvan.Prelude.Lists.{count, update, length}
use arvan.Domain.{Time, PayloadBytes, encoded, SmsSendPayload}
use arvan.Database.{OutboxEventModel, Effect, published_to}
use arvan.Repository.Page.Order.{In}
use arvan.Repository.OutboxRelay.{pending_row, set_published}
use arvan.Relay.{queue_for_message_type}
use arvan.Relay.Drain.Rows.{
  Rows, AreDistinct, is_open, In-update, In-update_kept, count-published, same_row,
  AreDistinct-update,
}

-- The payload is in the queue of its message type.
abbrev pub IsSent : PayloadBytes → List Effect → Type 0
IsSent body effects =
    (payload : SmsSendPayload) × (body ≡ encoded payload)
    × In (published_to (queue_for_message_type payload.message_type) body) effects

-- From one outbox to a later one: an open event is still there, or its payload is in its queue; nothing
-- is taken back; and an open event less is one publication more.
pub record Progress (rows : Rows) (effects : List Effect) (rows' : Rows) (effects' : List Effect)
    : Type 0 where
  pub goes_on :
      (r : OutboxEventModel)
      → In r rows
      → is_open r ≡ true
      → ((q : OutboxEventModel) × In q rows' × (q.payload ≡ r.payload) × (is_open q ≡ true))
        ⊎ IsSent r.payload effects'
  pub keeps : (e : Effect) → In e effects → In e effects'
  pub tally : length effects' + count is_open rows' ≡ length effects + count is_open rows

pub Progress-refl : (rows : Rows) (effects : List Effect) → Progress rows effects rows effects
Progress-refl rows effects = record {
  goes_on = λ r there is_one. inl (r, there, refl, is_one);
  keeps = λ e there. there;
  tally = refl;
}

IsSent-keeps :
    (body : PayloadBytes) (effects effects' : List Effect)
    → ((e : Effect) → In e effects → In e effects')
    → IsSent body effects
    → IsSent body effects'
IsSent-keeps body effects effects' keeps (payload, e, there) = (payload, e, keeps _ there)

module _ (rows : Rows) (effects : List Effect) (rows' : Rows) (effects' : List Effect)
    (rows'' : Rows) (effects'' : List Effect) where
  later :
      (r : OutboxEventModel)
      → Progress rows' effects' rows'' effects''
      → ((q : OutboxEventModel) × In q rows' × (q.payload ≡ r.payload) × (is_open q ≡ true))
        ⊎ IsSent r.payload effects'
      → ((q : OutboxEventModel) × In q rows'' × (q.payload ≡ r.payload) × (is_open q ≡ true))
        ⊎ IsSent r.payload effects''
  later r h (inr sent) = inr (IsSent-keeps r.payload effects' effects'' h.keeps sent)
  later r h (inl (q, there, same, is_one)) = elim (h.goes_on q there is_one) [
    | inl (p, there', same', is_one') ↦ inl (p, there', same' ∙ same, is_one')
    | inr sent ↦ inr (rw (← same) sent)
  ]

  pub Progress-trans :
      Progress rows effects rows' effects'
      → Progress rows' effects' rows'' effects''
      → Progress rows effects rows'' effects''
  Progress-trans g h = record {
    goes_on = λ r there is_one. later r h (g.goes_on r there is_one);
    keeps = λ e there. h.keeps e (g.keeps e there);
    tally = h.tally ∙ g.tally;
  }

-- The outbox while the rows of a batch that are left are published: a row that is open is not locked, or
-- is one of the batch, and its payload can be decoded.
pub record Underway (rest rows : Rows) : Type 0 where
  pub distinct : AreDistinct rows
  pub apart : AreDistinct rest
  pub waiting :
      (m : OutboxEventModel)
      → In m rest
      → (r : OutboxEventModel) × In r rows
        × (r.id ≡ m.id)
        × (r.payload ≡ m.payload)
        × (is_open r ≡ true)
  pub unlocked :
      (r : OutboxEventModel)
      → In r rows
      → is_open r ≡ true
      → (r.locked_until ≡ none) ⊎ ((m : OutboxEventModel) × In m rest × (m.id ≡ r.id))
  pub readable :
      (r : OutboxEventModel)
      → In r rows
      → is_open r ≡ true
      → (payload : SmsSendPayload) × (r.payload ≡ encoded payload)

module _ (m : OutboxEventModel) (rest : Rows) (now : Time) (rows : Rows)
    (h : Underway (m ∷ rest) rows) where
  not_marked :
      (a x : OutboxEventModel)
      → In x rows
      → is_open a ≡ true
      → ((pending_row m.id x ≡ true) × (a ≡ set_published now x))
        ⊎ ((pending_row m.id x ≡ false) × (a ≡ x))
      → In a rows × ((a.id == m.id) ≡ false)
  not_marked a x there is_one (inl (e, is)) = absurd (ground (arith, rw is at is_one))
  not_marked a x there is_one (inr (e, is)) =
      let open_before : is_open x ≡ true = rw is at is_one in
      rw is (there, ground (arith, e, open_before))

  -- A row that is open behind the mark is an open row that was not marked.
  still_open :
      (a : OutboxEventModel)
      → In a (update (pending_row m.id) (set_published now) rows)
      → is_open a ≡ true
      → In a rows × ((a.id == m.id) ≡ false)
  still_open a there is_one =
      let (x, in_rows, how) = In-update (pending_row m.id) (set_published now) a rows there in
      not_marked a x in_rows is_one how

  unlocked_rest :
      (a : OutboxEventModel)
      → (a.id == m.id) ≡ false
      → (a.locked_until ≡ none) ⊎ ((n : OutboxEventModel) × In n (m ∷ rest) × (n.id ≡ a.id))
      → (a.locked_until ≡ none) ⊎ ((n : OutboxEventModel) × In n rest × (n.id ≡ a.id))
  unlocked_rest a other (inl e) = inl e
  unlocked_rest a other (inr (n, inr there, same)) = inr (n, there, same)
  unlocked_rest a other (inr (n, inl is, same)) =
      absurd (ground (arith, other, same, ap (λ (x : OutboxEventModel). x.id) is))

  pub Underway-published : Underway rest (update (pending_row m.id) (set_published now) rows)
  Underway-published = record {
    distinct =
        AreDistinct-update (pending_row m.id) (set_published now) rows (λ x. refl) h.distinct;
    apart = h.apart.1;
    waiting = λ n there.
        let (r, in_rows, same, body, is_one) = h.waiting n (inr there) in
        (
          r,
          In-update_kept (pending_row m.id) (set_published now) r rows in_rows
              (ground (arith, h.apart.0 n there, same)),
          same,
          body,
          is_one,
        );
    unlocked = λ a there is_one.
        let (in_rows, other) = still_open a there is_one in
        unlocked_rest a other (h.unlocked a in_rows is_one);
    readable = λ a there is_one. h.readable a (still_open a there is_one).0 is_one;
  }

  -- The publication of the first row of a batch.
  pub Progress-published :
      (effects : List Effect) (payload : SmsSendPayload)
      → m.payload ≡ encoded payload
      → Progress rows effects
          (update (pending_row m.id) (set_published now) rows)
          (published_to (queue_for_message_type payload.message_type) m.payload ∷ effects)
  Progress-published effects payload e =
      let (r, in_rows, same, body, is_one) = h.waiting m (inl refl) in
      record {
        goes_on = λ a there is_open_before. elim (Bool-cases (a.id == m.id)) [
          | inl e' ↦
              let as_row = same_row a r rows h.distinct there in_rows (ground (arith, e', same)) in
              let as_body = ap (λ (x : OutboxEventModel). x.payload) as_row ∙ body in
              inr (
                payload,
                as_body ∙ e,
                inl (ap (published_to (queue_for_message_type payload.message_type)) as_body),
              )
          | inr e' ↦ inl (
            a,
            In-update_kept (pending_row m.id) (set_published now) a rows there (ground (arith, e')),
            refl,
            is_open_before,
          )
        ];
        keeps = λ _ there. inr there;
        tally = omega (arith, count-published r m.id now rows h.distinct in_rows same is_one);
      }
