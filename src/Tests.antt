-- ===== src/Tests.antt =====
-- Runs of the services at concrete inputs.
pub mod Worker
pub mod Http
pub mod Limiter
pub mod Queues
pub mod Sending
pub mod Mock
pub mod Claiming
pub mod Draining
pub mod Starting
use Prim.Native.String.{String}
use arvan.Prelude.{
  ℕ, inl, inr, zero, suc, Bool, true, false, Option, none, some, List, [], ◌∷◌, ◌≡◌, ◌≤◌, ◌≢◌, refl,
  ap, arith, ◌==◌, if◌then◌else◌,
}
use arvan.Prelude.Int.{pos, int64, ◌-ℤ◌, ◌+ℤ◌}
use arvan.Domain.{
  json_object, Runes, standard, gsm7, sms_status_accepted, topup, SendSmsInput, SendSmsResult, ok,
}
use arvan.Domain.Validation.Laws.{e164-length, single_page-long}
use mathlib.Core.Option
use arvan.Service.Sms
use arvan.Service.Sms.Acceptance.{SendEnds, send-Ends}
use arvan.Service.Sms.Held.{send_all}
use arvan.Service.Sms.Resent.{Repeats, send_again}
use arvan.Service.Account
use arvan.Database.Success.{Succeeds}
use arvan.Service.Account.Success.{topup-Succeeds}
use arvan.Service.Account.Credit.{TopupEnds, topup-Ends}
use arvan.Accounting.{Reconciled, balance_or_zero}
use arvan.Accounting.History.{
  Request, send_sms, top_up, open_account, seed, serve_all, serve_all-Reconciled,
}
use arvan.Commands.Seed.{accounts}
use arvan.Prelude.Lists.{length}
use arvan.Repository.Account as Accounts
use arvan.Repository.Ledger
use arvan.Repository.Outbox
use arvan.Repository.Sms as Rows
use arvan.Cache
use arvan.Repository.Idempotency.{
  claim_or_get, insert_key, claimed_or_existing, find_by_account_and_key, to_domain_idempotency,
  update_snapshot, write_snapshot,
}
use arvan.Domain.Idempotency.{parse_idempotency_response, marshal_idempotency_response}
use arvan.Repository.Idempotency.Stored.{members, parse-stored}
use arvan.Repository.Page.Order.{In}
use arvan.Domain.Validation.{
  gsm7_basic_chars, validate_e164, validate_single_page_body, gsm7_allowed, detect_encoding,
  max_length_for_encoding,
}
use arvan.Database.{
  statement, transaction, done, replied, admits, Env, Session, Tables, AccountModel,
}

-- A UUID prints as one mark more than its number.
abbrev pub uuid_text : ℕ → String
uuid_text zero = String.◌∷◌ "x" String.[]
uuid_text (suc n) = String.◌∷◌ "x" (uuid_text n)

abbrev uuid_number : String → Option ℕ
uuid_number String.[] = none
uuid_number (String.◌∷◌ c String.[]) = some 0
uuid_number (String.◌∷◌ c (String.◌∷◌ d s)) = Option.map (λ n. suc n) (uuid_number (String.◌∷◌ d s))

pub uuid-parses : (n : ℕ) → uuid_number (uuid_text n) ≡ some n
uuid-parses zero = refl
uuid-parses (suc zero) = refl
uuid-parses (suc (suc n)) = rw (uuid-parses (suc n))

is_blank : String → Bool
is_blank String.[] = true
is_blank (String.◌∷◌ c s) = false

pub uuid-prints : (n : ℕ) → uuid_text n ≢ ""
unfolding is_blank
uuid-prints zero h = ground (arith, ap is_blank h)
uuid-prints (suc n) h = ground (arith, ap is_blank h)

-- Every statement is done, the operator answers 200, and the breaker is closed.
abbrev pub env : Env
env = record {
  outcome = λ _. done;
  new_uuid = λ n. n;
  now = λ n. n;
  uuid_string = uuid_text;
  uuid_parse = uuid_number;
  trace_context = [];
  http_reply = λ _. replied 200 (some "ref");
  breaker = λ _. admits;
  cache_enabled = true;
}

abbrev account : AccountModel
account = record { id = 7; token_hash = "h"; balance = pos 5; created_at = 0 }

abbrev pub tables : Tables
tables = record {
  accounts = account ∷ [];
  account_ledger =
      record {
        id = 90;
        account_id = 7;
        delta = pos 5;
        reason = topup;
        ref_id = none;
        created_at = 0;
      }
      ∷ [];
  sms_messages = [];
  outbox_events = [];
  idempotency_keys = [];
  processed_consumer_events = [];
}

abbrev pub session : Session
session = record { tables = tables; cache = []; effects = []; step = 100 }

abbrev pub input : SendSmsInput
input = record {
  to = b'+' ∷ b'4' ∷ b'4' ∷ b'1' ∷ b'2' ∷ b'3' ∷ b'4' ∷ b'5' ∷ b'6' ∷ b'7' ∷ [];
  body = b'h' ∷ b'i' ∷ [];
  message_type = standard;
  idempotency_key = some "k";
}

abbrev result : SendSmsResult
result = record { message_id = 100; status = sms_status_accepted }

abbrev after : Session
after = (Sms.send env 7 input session).1

sends : Sms.send env 7 input session ≡ (ok result, after)
unfolding Sms.send Sms.validate_send_input validate_e164 validate_single_page_body gsm7_allowed
    detect_encoding max_length_for_encoding Sms.accept transaction statement Sms.send_tx
    Sms.active_key claim_or_get insert_key claimed_or_existing find_by_account_and_key
    to_domain_idempotency update_snapshot write_snapshot Sms.charge_or_replay Sms.charge
    Sms.record_send Sms.store_snapshot Sms.blank Sms.known_type Sms.cache_response
    Accounts.lock_account_for_update Accounts.deduct_locked_balance Accounts.save_account
    Accounts.account_by_id int64 ◌-ℤ◌ ◌+ℤ◌ Ledger.create Ledger.entry_id Ledger.insert_ledger
    Outbox.create Outbox.insert_outbox Rows.create Rows.insert_sms Cache.set
    marshal_idempotency_response
sends = refl

matches :
    (b : Bool)
    → balance_or_zero (if b then some account else none) ≡ (if b then pos 5 else pos 0) +ℤ pos 0
unfolding ◌+ℤ◌
matches true = refl
matches false = refl

order : Reconciled tables
order = record {
  balanced = λ id. matches (7 == id);
  positive = λ id. ground arith;
  fits = λ id. (ground arith, ground arith);
}

abbrev requests : List Request
requests =
    send_sms 7 input
    ∷ open_account "new"
    ∷ seed (λ token. token) accounts
    ∷ top_up 7 (pos 3) (omega arith, omega arith)
    ∷ []

serve_all-Reconciled_example : Reconciled (serve_all env requests session).tables
serve_all-Reconciled_example = serve_all-Reconciled env requests session order

send-Ends_example : SendEnds env 7 input session (Sms.send env 7 input session)
send-Ends_example = send-Ends env 7 input session

active : Sms.active_key input.idempotency_key ≡ some "k"
unfolding Sms.active_key Sms.blank
active = refl

-- Another message of the account under another key, and one of another account under the same key.
abbrev others : List (ℕ × SendSmsInput)
others = (7, record input { idempotency_key = some "other" }) ∷ (8, input) ∷ []

send_again_example :
    Repeats env uuid-parses uuid-prints result
      (send_all env others after).tables
      (Sms.send env 7 input (send_all env others after))
send_again_example =
    send_again env uuid-parses uuid-prints 7 input input "k" others session after
      (send_all env others after) result active active sends refl

topup-Ends_example : TopupEnds env 7 (pos 3) session (Account.topup env 7 (pos 3) session)
topup-Ends_example = topup-Ends env 7 (pos 3) session

abbrev long_body : ℕ → Runes
long_body zero = []
long_body (suc n) = b'a' ∷ long_body n

long_is_accepted : validate_single_page_body (long_body 100) ≡ ok gsm7
unfolding validate_single_page_body gsm7_allowed detect_encoding max_length_for_encoding
long_is_accepted = refl

single_page-long_example :
    (length (long_body 100) ≤ 160) × (gsm7_allowed b'a' gsm7_basic_chars ≡ true)
single_page-long_example =
    single_page-long (long_body 4) (long_body 95) b'a' gsm7 long_is_accepted (omega arith)

number_is_valid : validate_e164 input.to ≡ true
unfolding validate_e164
number_is_valid = refl

e164-length_example : (9 ≤ length input.to) × (length input.to ≤ 16)
e164-length_example = e164-length input.to number_is_valid

to_written :
    (m : String × String)
    → In m (("status", "accepted") ∷ ("message_id", uuid_text 100) ∷ [])
    → In m (members (marshal_idempotency_response uuid_text result))
unfolding marshal_idempotency_response
to_written m (inl is) = inr (inl is)
to_written m (inr (inl is)) = inl is
to_written m (inr (inr there)) = absurd there

to_stored :
    (m : String × String)
    → In m (members (marshal_idempotency_response uuid_text result))
    → In m (("status", "accepted") ∷ ("message_id", uuid_text 100) ∷ [])
unfolding marshal_idempotency_response
to_stored m (inl is) = inr (inl is)
to_stored m (inr (inl is)) = inl is
to_stored m (inr (inr there)) = absurd there

-- JSONB puts the shorter name first.
abbrev stored_members : List (String × String)
stored_members = ("status", "accepted") ∷ ("message_id", uuid_text 100) ∷ []

parse-stored_example :
    parse_idempotency_response (json_object stored_members)
    ≡ some (record { message_id = uuid_text 100; status = sms_status_accepted })
parse-stored_example =
    parse-stored uuid_text result stored_members (uuid-prints 100) to_written to_stored

abbrev fresh_session : Session
fresh_session = record session { tables = record tables { account_ledger = [] } }

topup-Succeeds_example : Succeeds (λ b _. b ≡ pos 8) (Account.topup env 7 (pos 3) fresh_session)
unfolding int64 ◌+ℤ◌
topup-Succeeds_example =
    topup-Succeeds env 7 (pos 3) account fresh_session (λ n. refl) (omega arith) refl (omega arith)
      (λ n. refl)
