-- ===== src/Worker/Processor/Calls/Once.antt =====
-- How often handleDelivery of internal/worker/processor.go calls the operator.
use arvan.Prelude.{suc, Bool, true, false, Option, none, some, ◌≤◌, arith, if◌then◌else◌}
use arvan.Domain.{Uuid, PayloadBytes, malformed, encoded, SmsSendPayload, Result, ok, err}
use arvan.Database.{Env, Exec, Session, pure, attempt, continue, ◌>>=◌, ◌>>◌}
use arvan.Database.Silent.{operator_calls, Silent, Silent-pure, Silent-attempt}
use arvan.Operator
use arvan.Operator.Laws.{send-calls}
use arvan.Worker.Processor.{
  Delivery, Config, Claim, acked, requeued, acquired, already_done, in_progress, resume,
  should_dead_letter, send_request, claim_delivery, finish_send, proceed, process, parsed, decoded,
  handle_delivery,
}
use arvan.Worker.Processor.Calls.{
  claim_delivery-Silent, dead_letter-Silent, finish_send-Silent, or_requeue-Silent,
}

record AtMostOnce {A : Type 0} (m : Exec A) : Type 0 where
  at : (s : Session) → operator_calls (m s).1.effects ≤ suc (operator_calls s.effects)

Silent-AtMostOnce : {A : Type 0} (m : Exec A) → Silent operator_calls m → AtMostOnce m
Silent-AtMostOnce m h = record { at = λ s. let e = h.at s in omega (arith, e) }

module _ {A B : Type 0} (f : A → Exec B) where
  continue-Silent :
      (r : Result A × Session)
      → ((a : A) → Silent operator_calls (f a))
      → operator_calls (continue f r).1.effects ≤ operator_calls r.1.effects
  continue-Silent (ok a, s) h = let e = (h a).at s in omega (arith, e)
  continue-Silent (err e, s) h = omega arith

  continue-AtMostOnce :
      (r : Result A × Session)
      → ((a : A) → AtMostOnce (f a))
      → operator_calls (continue f r).1.effects ≤ suc (operator_calls r.1.effects)
  continue-AtMostOnce (ok a, s) h = (h a).at s
  continue-AtMostOnce (err e, s) h = omega arith

  bind-AtMostOnce :
      (m : Exec A) → Silent operator_calls m → ((a : A) → AtMostOnce (f a)) → AtMostOnce (m >>= f)
  bind-AtMostOnce m h k = record {
    at = λ s. let e = h.at s in let l = continue-AtMostOnce (m s) k in omega (arith, e, l);
  }

  AtMostOnce-bind :
      (m : Exec A) → AtMostOnce m → ((a : A) → Silent operator_calls (f a)) → AtMostOnce (m >>= f)
  AtMostOnce-bind m h k = record {
    at = λ s. let e = h.at s in let l = continue-Silent (m s) k in omega (arith, e, l);
  }

if-AtMostOnce :
    {A : Type 0} (b : Bool) (m n : Exec A)
    → AtMostOnce m
    → AtMostOnce n
    → AtMostOnce (if b then m else n)
if-AtMostOnce true m n h k = h
if-AtMostOnce false m n h k = k

module _ (env : Env) where
  called :
      (payload : SmsSendPayload) → AtMostOnce (Operator.send env (send_request payload) >> pure tt)
  called payload =
      AtMostOnce-bind (λ _. pure tt) (Operator.send env (send_request payload))
        (record { at = send-calls env (send_request payload) }) (λ _. Silent-pure tt)

  attempted : {A : Type 0} (m : Exec A) → AtMostOnce m → AtMostOnce (attempt m)
  attempted m h = record { at = λ s. h.at s }

  proceed-AtMostOnce :
      (payload : SmsSendPayload) (a m : Uuid) (r : Result Claim)
      → AtMostOnce (proceed env payload a m r)
  unfolding proceed
  proceed-AtMostOnce payload a m (err e) = Silent-AtMostOnce _ (Silent-pure requeued)
  proceed-AtMostOnce payload a m (ok already_done) = Silent-AtMostOnce _ (Silent-pure acked)
  proceed-AtMostOnce payload a m (ok in_progress) = Silent-AtMostOnce _ (Silent-pure requeued)
  proceed-AtMostOnce payload a m (ok resume) =
      Silent-AtMostOnce _ (finish_send-Silent env a m (ok tt))
  proceed-AtMostOnce payload a m (ok acquired) =
      AtMostOnce-bind (finish_send env a m)
        (attempt (Operator.send env (send_request payload) >> pure tt))
        (attempted _ (called payload)) (finish_send-Silent env a m)

  process-AtMostOnce :
      (cfg : Config) (d : Delivery) (payload : SmsSendPayload) (a m : Uuid)
      → AtMostOnce (process env cfg d payload a m)
  unfolding process
  process-AtMostOnce cfg d payload a m =
      if-AtMostOnce (should_dead_letter cfg d) _ _
        (Silent-AtMostOnce _ (or_requeue-Silent env _ (dead_letter-Silent env cfg a m d.body)))
        (bind-AtMostOnce (proceed env payload a m) (attempt (claim_delivery env a m d.redelivered))
          (Silent-attempt _ (claim_delivery-Silent env a m d.redelivered))
          (proceed-AtMostOnce payload a m))

  parsed-AtMostOnce :
      (cfg : Config) (d : Delivery) (payload : SmsSendPayload) (m a : Option Uuid)
      → AtMostOnce (parsed env cfg d payload m a)
  unfolding parsed
  parsed-AtMostOnce cfg d payload none a = Silent-AtMostOnce _ (Silent-pure acked)
  parsed-AtMostOnce cfg d payload (some m) none = Silent-AtMostOnce _ (Silent-pure acked)
  parsed-AtMostOnce cfg d payload (some m) (some a) = process-AtMostOnce cfg d payload a m

  decoded-AtMostOnce :
      (cfg : Config) (d : Delivery) (body : PayloadBytes) → AtMostOnce (decoded env cfg d body)
  unfolding decoded
  decoded-AtMostOnce cfg d malformed = Silent-AtMostOnce _ (Silent-pure acked)
  decoded-AtMostOnce cfg d (encoded payload) = parsed-AtMostOnce cfg d payload _ _

-- Whatever the outcomes of the statements and the replies of the operator, the handling of one
-- delivery calls the operator at most once.
pub handle_delivery-once :
    (env : Env) (cfg : Config) (d : Delivery) (s : Session)
    → operator_calls (handle_delivery env cfg d s).1.effects ≤ suc (operator_calls s.effects)
unfolding handle_delivery
handle_delivery-once env cfg d s = (decoded-AtMostOnce env cfg d d.body).at s
