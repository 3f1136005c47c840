-- ===== src/Repository/OutboxRelay/Claims.antt =====
-- What ClaimPendingBatch of internal/repository/outbox_relay.go takes, and what it leaves to the next.
use arvan.Prelude.{
  subst, sym, ◌∙◌, ℕ, suc, ◌+◌, ◌≤◌, ◌≡◌, ◌≢◌, refl, ◌⊎◌, inl, inr, arith, ap, true, false,
  Bool-cases, some, List, [], ◌∷◌, ==_refl, leb,
}
use arvan.Prelude.Int.{ℤ}
use arvan.Prelude.Lists.{select, update, take, length, length-take-le}
use arvan.Domain.{Time, OutboxEventRecord, ok}
use arvan.Database.{OutboxEventModel, Tables, Env, Session}
use arvan.Database.Laws.{Yields, Yields-bind, Ends, statement-Yields, transaction-Ends}
use arvan.Repository.Page.Order.{In, In-take, In-select}
use arvan.Repository.OutboxRelay.{
  to_domain_outbox, claimable, insert_by_time, by_time, batch_limit, pending_batch, id_in,
  lock_rows, claimed_until, lock_batch, claim_pending_batch,
}

In-behind :
    (a m x : OutboxEventModel) (ys xs : List OutboxEventModel)
    → (In a ys → (a ≡ m) ⊎ In a xs)
    → (a ≡ x) ⊎ In a ys
    → (a ≡ m) ⊎ ((a ≡ x) ⊎ In a xs)
In-behind a m x ys xs deeper (inl e) = inr (inl e)
In-behind a m x ys xs deeper (inr h) = elim (deeper h) [ inl e ↦ inl e | inr k ↦ inr (inr k) ]

pub In-insert_by_time :
    (a m : OutboxEventModel) (xs : List OutboxEventModel)
    → In a (insert_by_time m xs)
    → (a ≡ m) ⊎ In a xs
In-insert_by_time a m [] h = h
In-insert_by_time a m (x ∷ xs) h = elim (Bool-cases (leb m.created_at x.created_at)) [
  | inl before ↦ rw before at h
  | inr behind ↦
      In-behind a m x (insert_by_time m xs) xs (In-insert_by_time a m xs) (rw behind at h)
]

pub In-by_time : (a : OutboxEventModel) (xs : List OutboxEventModel) → In a (by_time xs) → In a xs
In-by_time a [] h = h
In-by_time a (x ∷ xs) h = elim (In-insert_by_time a x (by_time xs) h) [
  | inl e ↦ inl e
  | inr h' ↦ inr (In-by_time a xs h')
]

-- The claimed records are the rows with their lock.
In-claimed_until :
    (until : Time) (e : OutboxEventRecord) (ms : List OutboxEventModel)
    → In e (claimed_until until ms)
    → (m : OutboxEventModel) × In m ms
      × (e ≡ record (to_domain_outbox m) { locked_until = some until })
In-claimed_until until e [] h = absurd h
In-claimed_until until e (m ∷ ms) (inl is) = (m, inl refl, is)
In-claimed_until until e (m ∷ ms) (inr h) =
    let (n, there, is) = In-claimed_until until e ms h in (n, inr there, is)

length-claimed_until :
    (until : Time) (ms : List OutboxEventModel) → length (claimed_until until ms) ≡ length ms
length-claimed_until until [] = refl
length-claimed_until until (m ∷ ms) = omega (arith, length-claimed_until until ms)

pub In-id_in :
    (m e : OutboxEventModel) (ms : List OutboxEventModel)
    → In m ms
    → e.id ≡ m.id
    → id_in ms e ≡ true
In-id_in m e [] h same = absurd h
In-id_in m e (x ∷ ms) (inl is) same = rw (same, is, ==_refl x.id) refl
In-id_in m e (x ∷ ms) (inr h) same = ground (arith, In-id_in m e ms h same)

not_taken :
    (ms : List OutboxEventModel) {a x : OutboxEventModel}
    → a ≡ x
    → id_in ms x ≡ false
    → id_in ms a ≡ true
    → ⊥
not_taken ms is left_out in_batch = grind (arith, left_out, rw is at in_batch)

-- Behind the UPDATE, a row of the batch has the lock.
locked-row :
    (ms : List OutboxEventModel) (until : Time) (a : OutboxEventModel)
    (rows : List OutboxEventModel)
    → In a
        (update (id_in ms) (λ (m : OutboxEventModel). record m { locked_until = some until }) rows)
    → id_in ms a ≡ true
    → a.locked_until ≡ some until
locked-row ms until a [] h in_batch = absurd h
locked-row ms until a (x ∷ rows) (inr h) in_batch = locked-row ms until a rows h in_batch
locked-row ms until a (x ∷ rows) (inl is) in_batch = elim (Bool-cases (id_in ms x)) [
  | inl taken ↦ ap (λ (m : OutboxEventModel). m.locked_until) (rw taken at is)
  | inr left_out ↦ absurd (not_taken ms (rw left_out at is) left_out in_batch)
]

-- The claim of a batch at a time, with a lock until another: at most the limit, all of them rows
-- that were claimable then, which nobody can claim again before the lock is over.
pub record Claims (limit : ℤ) (now until : Time) (t : Tables) (claimed : List OutboxEventRecord)
    (u : Tables) : Type 0 where
  pub few : length claimed ≤ batch_limit limit
  pub taken :
      (e : OutboxEventRecord)
      → In e claimed
      → (m : OutboxEventModel) × In m t.outbox_events
        × (claimable now m ≡ true)
        × (e ≡ record (to_domain_outbox m) { locked_until = some until })
  pub locked :
      (e : OutboxEventRecord) (m : OutboxEventModel) (later : Time)
      → In e claimed
      → In m u.outbox_events
      → m.id ≡ e.id
      → later ≤ until
      → claimable later m ≡ false

batch-Claims :
    (limit : ℤ) (now until : Time) (t : Tables)
    → (ms : List OutboxEventModel)
    → ms ≡ take (batch_limit limit) (by_time (select (claimable now) t.outbox_events))
    → Claims limit now until t (claimed_until until ms) (lock_rows ms until t).1
unfolding lock_rows to_domain_outbox
batch-Claims limit now until t ms is_batch = record {
  few = rw (length-claimed_until until ms, is_batch) (length-take-le (batch_limit limit) _);
  taken = λ e there.
      let (m, in_ms, is) = In-claimed_until until e ms there in
      let (is_claimable, row) =
        In-select (claimable now) m t.outbox_events
          (In-by_time m _ (In-take m (batch_limit limit) _ (rw is_batch at in_ms))) in
      (m, row, is_claimable, is);
  locked = λ e m later there row same before.
      let (n, in_ms, is) = In-claimed_until until e ms there in
      let lock =
        locked-row ms until m t.outbox_events row (In-id_in n m ms in_ms (rw (same, is) refl)) in
      rw lock (ground arith);
}

pending_batch-ok :
    (limit : ℕ) (now : Time) (t : Tables) {u : Tables} {ms : List OutboxEventModel}
    → pending_batch limit now t ≡ (ok ms, u)
    → (ms ≡ take limit (by_time (select (claimable now) t.outbox_events))) × (u ≡ t)
unfolding pending_batch
pending_batch-ok limit now t h = ground arith

lock_rows-ok :
    (ms : List OutboxEventModel) (until : Time) (t : Tables) {u : Tables}
    → lock_rows ms until t ≡ (ok tt, u)
    → u ≡ (lock_rows ms until t).1
unfolding lock_rows
lock_rows-ok ms until t h = ground arith

module _ (env : Env) (limit : ℤ) (lock_duration : ℕ) where
  -- A claim at one reading of the clock, with a lock that begins at another.
  abbrev pub ClaimedAt : List OutboxEventRecord → Tables → Tables → Type 0
  ClaimedAt claimed t u =
      (j : ℕ) × (k : ℕ) × Claims limit (env.now j) (env.now k + lock_duration) t claimed u

  lock_batch-Yields :
      (j : ℕ) (ms : List OutboxEventModel) (s : Session)
      → ms
        ≡ take (batch_limit limit) (by_time (select (claimable (env.now j)) s.tables.outbox_events))
      → Yields
          (λ claimed u. ClaimedAt claimed s.tables u.tables)
          (lock_batch env lock_duration ms s)
  unfolding lock_batch
  lock_batch-Yields j [] s is_batch = record {
    holds = (
      j,
      j,
      record { few = omega arith; taken = λ e h. absurd h; locked = λ e m later h. absurd h },
    );
  }
  lock_batch-Yields j (m ∷ ms) s is_batch =
      Yields-bind
        (statement-Yields env (lock_rows (m ∷ ms) (env.now s.step + lock_duration))
          (record s { step = suc s.step }))
        λ _ u locks. record {
          holds = (
            j,
            s.step,
            rw (lock_rows-ok (m ∷ ms) (env.now s.step + lock_duration) s.tables locks) (
                batch-Claims limit (env.now j) (env.now s.step + lock_duration) s.tables (m ∷ ms)
                  is_batch),
          );
        }

  -- Whatever the environment does, a claim that is answered is at most the limit, of rows that were
  -- pending and not locked at the time that it read, and no row of it can be claimed again until
  -- the lock that it answers is over; one that is refused leaves the tables as they were, but for a
  -- commit whose acknowledgement was lost.
  pub claim_pending_batch-Ends :
      (s : Session)
      → Ends
          (λ claimed u. ClaimedAt claimed s.tables u)
          s.tables
          (claim_pending_batch env limit lock_duration s)
  unfolding claim_pending_batch
  claim_pending_batch-Ends s = transaction-Ends _ env _ s λ s' same.
      Yields-bind
        (statement-Yields env (pending_batch (batch_limit limit) (env.now s'.step))
          (record s' { step = suc s'.step }))
        λ ms u read.
          let (is_batch, kept) =
            pending_batch-ok (batch_limit limit) (env.now s'.step) s'.tables read in
          subst
            (λ t.
              Yields (λ claimed v. ClaimedAt claimed t v.tables)
                (lock_batch env lock_duration ms u))
            (kept ∙ same) (lock_batch-Yields s'.step ms u (rw kept is_batch))

  -- Two claims, the second on the tables that the first left, have no event in common, where no
  -- reading of the clock is later than another by more than the duration of a lock.
  pub claims-Disjoint :
      (s u v w : Session) (first second : List OutboxEventRecord) (a b : OutboxEventRecord)
      → ((j k : ℕ) → env.now j ≤ env.now k + lock_duration)
      → claim_pending_batch env limit lock_duration s ≡ (ok first, u)
      → v.tables ≡ u.tables
      → claim_pending_batch env limit lock_duration v ≡ (ok second, w)
      → In a first
      → In b second
      → b.id ≢ a.id
  unfolding to_domain_outbox
  claims-Disjoint s u v w first second a b clock claim same again in_first in_second same_id =
      let (_, k, before) = rw claim at (claim_pending_batch-Ends s) in
      let (j, _, after) = rw again at (claim_pending_batch-Ends v) in
      let (m, row, is_claimable, is) = after.taken b in_second in
      let not_yet =
        before.locked a m (env.now j) in_first (rw same at row)
          (sym (ap (λ (e : OutboxEventRecord). e.id) is) ∙ same_id) (clock j k) in
      ground (arith, is_claimable, not_yet)
