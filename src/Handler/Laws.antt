-- ===== src/Handler/Laws.antt =====
-- What the replies of internal/handler say of the tables.
use arvan.Prelude.{
  suc, ◌≤◌, String, Bool-cases, Option, none, some, ◌≡◌, refl, ◌⊎◌, inl, inr, str_eq, arith,
}
use arvan.Prelude.Int.{ℤ, pos, ◌≤ℤ◌, pos_part}
use arvan.Domain.{Uuid, Error, driver_error, Encoding, SendSmsResult, Result, ok, err}
use arvan.Database.{Tables, Env, Session, pure, continue}
use arvan.Database.Laws.{Ends}
use arvan.Database.Success.{Succeeds, Succeeds-ok}
use arvan.Repository.Page.{page_limit}
use arvan.Service.Sms
use arvan.Service.Sms.{active_key, validate_send_input}
use arvan.Service.Sms.Acceptance.{Answers, send-Ends}
use arvan.Service.Account
use arvan.Service.Account.Credit.{Credited, topup-Ends}
use arvan.Handler.{Reply, accepted_as, balance_is, status_of, scanned_limit, parse_limit}
use arvan.Handler.Sms.{SendSmsRequest, send_error, send_reply, input_of, send}
use arvan.Handler.Account.{topup_error, topup_reply, topup}

abbrev pub IsLimit : ℤ → Type 0
IsLimit limit = (pos 1 ≤ℤ limit) × (limit ≤ℤ pos 100) × (page_limit limit ≡ pos_part limit)

scanned_limit-IsLimit : (o : Option ℤ) → IsLimit (scanned_limit o)
scanned_limit-IsLimit none = (omega arith, omega arith, refl)
scanned_limit-IsLimit (some limit) = ground arith

-- The limit of a page lies between 1 and 100, and is the number of rows that the repository takes.
pub parse_limit_bounds : (scan : String → Option ℤ) (raw : String) → IsLimit (parse_limit scan raw)
unfolding parse_limit
parse_limit_bounds scan raw = elim (Bool-cases (str_eq raw "")) [
  | inl e ↦ rw e (scanned_limit-IsLimit none)
  | inr e ↦ rw e (scanned_limit-IsLimit (scan raw))
]

-- A refusal: an error of the client leaves the tables alone.
abbrev pub Refuses : Tables → Reply → Tables → Type 0
Refuses t reply u = (400 ≤ status_of reply) × ((u ≡ t) ⊎ (status_of reply ≡ 500))

-- What a handler answers and leaves: a result of the service with its effect, or a refusal.
abbrev pub Renders :
    {A : Type 0} → (A → Reply) → (A → Tables → Type 0) → Tables → Reply → Tables → Type 0
Renders {A} shown Post t reply u = ((a : A) × (reply ≡ shown a) × Post a u) ⊎ Refuses t reply u

-- A handler that renders what a service answers.
attempt-Renders :
    {A : Type 0} (render : Result A → Reply) (Post : A → Tables → Type 0) (t : Tables)
    (out : Result A × Session)
    → ((e : Error) → 400 ≤ status_of (render (err e)))
    → status_of (render (err driver_error)) ≡ 500
    → Ends Post t out
    → Succeeds
        (Renders (λ a. render (ok a)) Post t)
        (continue (λ r. pure (render r)) (ok out.0, out.1))
attempt-Renders render Post t (ok a, s) refusal internal h =
    Succeeds-ok _ (render (ok a)) s (inl (a, refl, h))
attempt-Renders render Post t (err e, s) refusal internal (inl same) =
    Succeeds-ok _ (render (err e)) s (inr (refusal e, inl same))
attempt-Renders render Post t (err e, s) refusal internal (inr (lost, _)) =
    Succeeds-ok _ (render (err e)) s (inr (refusal e, inr (rw lost internal)))

send_error-status : (e : Error) → 400 ≤ status_of (send_error e)
unfolding send_error status_of
send_error-status e = ground arith

topup_error-status : (e : Error) → 400 ≤ status_of (topup_error e)
unfolding topup_error status_of
topup_error-status e = ground arith

module _ (env : Env) where
  -- What POST /v1/sms/send answers and leaves.
  abbrev pub SendReplies :
      Option Uuid → Option SendSmsRequest → Option String → Session → Reply → Tables → Type 0
  SendReplies (some account_id) (some req) key s reply u =
      Renders (λ (r : SendSmsResult). accepted_as (env.uuid_string r.message_id) r.status)
        (λ r u.
          (encoding : Encoding) × (validate_send_input (input_of req key) ≡ ok encoding)
          × Answers env account_id (input_of req key) (active_key key) encoding
              (env.new_uuid s.step) (env.new_uuid (suc s.step)) s.tables r u)
        s.tables reply u
  SendReplies _ _ key s reply u = Refuses s.tables reply u

  -- Whatever the environment does, POST /v1/sms/send is answered: with 202 and the message of a
  -- request that was charged, or that is repeated from its key; or with an error, under which the
  -- tables are as they were unless it is a 500.
  pub send-Replies :
      (account : Option Uuid) (body : Option SendSmsRequest) (key : Option String) (s : Session)
      → Succeeds (SendReplies account body key s) (send env account body key s)
  unfolding send send_reply send_error status_of
  send-Replies none body key s = Succeeds-ok _ _ s (omega arith, inl refl)
  send-Replies (some account_id) none key s = Succeeds-ok _ _ s (omega arith, inl refl)
  send-Replies (some account_id) (some req) key s =
      attempt-Renders (send_reply env) _ s.tables (Sms.send env account_id (input_of req key) s)
        send_error-status refl (send-Ends env account_id (input_of req key) s)

  abbrev pub TopupReplies : Option Uuid → Option ℤ → Session → Reply → Tables → Type 0
  TopupReplies (some account_id) (some amount) s reply u =
      Renders balance_is
        (λ balance u. (pos 1 ≤ℤ amount) × Credited account_id amount balance s.tables u) s.tables
        reply u
  TopupReplies _ _ s reply u = Refuses s.tables reply u

  -- Whatever the environment does, a top-up is answered: with 200 and the balance that holds the
  -- amount, which was positive and is credited with one ledger entry; or with an error, under which
  -- the tables are as they were unless it is a 500.
  pub topup-Replies :
      (account : Option Uuid) (body : Option ℤ) (s : Session)
      → Succeeds (TopupReplies account body s) (topup env account body s)
  unfolding topup topup_reply topup_error status_of
  topup-Replies none body s = Succeeds-ok _ _ s (omega arith, inl refl)
  topup-Replies (some account_id) none s = Succeeds-ok _ _ s (omega arith, inl refl)
  topup-Replies (some account_id) (some amount) s =
      attempt-Renders topup_reply _ s.tables (Account.topup env account_id amount s)
        topup_error-status refl (topup-Ends env account_id amount s)
