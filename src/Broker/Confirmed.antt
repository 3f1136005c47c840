-- ===== src/Broker/Confirmed.antt =====
-- Whose confirmation a call of Publish reads.
use arvan.Prelude.{
  subst, sym, ℕ, suc, ◌≡◌, refl, ◌⊎◌, inl, inr, ⊤, arith, Bool, true, false, Bool-cases, Option,
  none, some, List, [], ◌∷◌, ltb,
}
use arvan.Broker.{
  Confirmation, Returned, Phase, free, awaiting, RabbitMq, connect, Event, call, confirmation,
  receipt, cancellation, begin, receive, confirm, step, then_run, run,
}

-- A call that returned nil read the acknowledgement of its own message.
abbrev pub IsOwn : Returned → Type 0
IsOwn r =
    r.is_nil ≡ true
    → (tag : ℕ) × (r.message ≡ some tag) × (r.read ≡ some (record { tag = tag; ack = true }))

abbrev pub AllOwn : List Returned → Type 0
AllOwn [] = ⊤
AllOwn (r ∷ rs) = IsOwn r × AllOwn rs

-- No context ends while its call waits.
abbrev pub IsPatient : List Event → Type 0
IsPatient [] = ⊤
IsPatient (cancellation ∷ es) = ⊥
IsPatient (_ ∷ es) = IsPatient es

-- The confirmations that nobody has read: none while the mutex is free, and at most the one of the
-- message that is waited for.
abbrev Pending : Phase → RabbitMq → Type 0
Pending free b = (b.confirms ≡ []) × (b.confirmed ≡ b.published)
Pending (awaiting tag) b =
    (tag ≡ b.published)
    × (((b.confirms ≡ []) × (suc b.confirmed ≡ b.published))
        ⊎ ((b.confirmed ≡ b.published)
            × ((ack : Bool) × (b.confirms ≡ record { tag = tag; ack = ack } ∷ []))))

record Aligned (b : RabbitMq) : Type 0 where
  pending : Pending b.phase b
  own : AllOwn b.returns

-- `P` holds of what an event leaves, where it can happen.
abbrev pub Leaves : (RabbitMq → Type 0) → Option RabbitMq → Type 0
Leaves P none = ⊤
Leaves P (some b) = P b

begin-Aligned :
    (over sends : Bool) (b : RabbitMq)
    → b.phase ≡ free
    → Pending free b
    → AllOwn b.returns
    → Aligned (begin over sends b)
unfolding begin
begin-Aligned true sends b is_free pending own = record {
  pending = rw is_free pending;
  own = ((λ h. absurd (ground arith)), own);
}
begin-Aligned false false b is_free pending own = record {
  pending = rw is_free pending;
  own = ((λ h. absurd (ground arith)), own);
}
begin-Aligned false true b is_free (nothing, all) own = record {
  pending = (refl, inl (nothing, rw all refl));
  own = own;
}

receive-Aligned :
    (tag : ℕ) (cs : List Confirmation) (b : RabbitMq)
    → ((cs ≡ [])
        ⊎ ((b.confirmed ≡ b.published)
            × ((ack : Bool) × (cs ≡ record { tag = tag; ack = ack } ∷ []))))
    → AllOwn b.returns
    → Leaves Aligned (receive tag cs b)
unfolding receive
receive-Aligned tag cs b (inl nothing) own = rw nothing tt
receive-Aligned tag cs b (inr (all, (ack, one))) own =
    rw one (record { pending = (refl, all); own = ((λ is_ack. (tag, refl, rw is_ack refl)), own) })

confirmed-Pending :
    (ack : Bool) (phase : Phase) (b : RabbitMq)
    → ltb b.confirmed b.published ≡ true
    → Pending phase b
    → Pending phase (confirm ack b)
confirmed-Pending ack free b more (nothing, all) = absurd (ground arith)
confirmed-Pending ack (awaiting tag) b more (is_tag, inl (nothing, next)) =
    (is_tag, inr (next, (ack, rw (nothing, is_tag, next) refl)))
confirmed-Pending ack (awaiting tag) b more (is_tag, inr (all, _)) = absurd (ground arith)

step-Aligned :
    (e : Event) (es : List Event) (phase : Phase) (b : RabbitMq)
    → IsPatient (e ∷ es)
    → b.phase ≡ phase
    → Pending phase b
    → AllOwn b.returns
    → Leaves Aligned (step e phase b) × IsPatient es
unfolding step
step-Aligned (call over sends) es free b patient is_phase pending own =
    (begin-Aligned over sends b is_phase pending own, patient)
step-Aligned (call over sends) es (awaiting tag) b patient is_phase pending own = (tt, patient)
step-Aligned (confirmation ack) es phase b patient is_phase pending own =
    elim (Bool-cases (ltb b.confirmed b.published)) [
      | inl more ↦
          (rw more (
            record {
              pending =
                  subst (λ p. Pending p (confirm ack b)) (sym is_phase)
                    (confirmed-Pending ack phase b more pending);
              own = own;
            },
            patient,
          ))
      | inr none_left ↦ rw none_left (tt, patient)
    ]
step-Aligned receipt es free b patient is_phase pending own = (tt, patient)
step-Aligned receipt es (awaiting tag) b patient is_phase (is_tag, inl (nothing, next)) own =
    (receive-Aligned tag b.confirms b (inl nothing) own, patient)
step-Aligned receipt es (awaiting tag) b patient is_phase (is_tag, inr one) own =
    (receive-Aligned tag b.confirms b (inr one) own, patient)
step-Aligned cancellation es phase b patient is_phase pending own = absurd patient

then_run-Leaves :
    (P Q : RabbitMq → Type 0) (rest : RabbitMq → Option RabbitMq) (o : Option RabbitMq)
    → Leaves P o
    → ((b : RabbitMq) → P b → Leaves Q (rest b))
    → Leaves Q (then_run rest o)
then_run-Leaves P Q rest none h k = tt
then_run-Leaves P Q rest (some b) h k = k b h

run-Aligned :
    (es : List Event) (b : RabbitMq)
    → IsPatient es
    → Aligned b
    → Leaves (λ c. AllOwn c.returns) (run es b)
run-Aligned [] b patient h = h.own
run-Aligned (e ∷ es) b patient h =
    let (left, rest) = step-Aligned e es b.phase b patient refl h.pending h.own in
    then_run-Leaves Aligned (λ c. AllOwn c.returns) (run es) (step e b.phase b) left
      (λ c. run-Aligned es c rest)

-- In every run of the channel in which no context ends while its call of Publish waits, a call that
-- returned nil read the acknowledgement of its own message.
pub run-own : (es : List Event) → IsPatient es → Leaves (λ b. AllOwn b.returns) (run es connect)
unfolding connect
run-own es patient = run-Aligned es connect patient (record { pending = (refl, refl); own = tt })
