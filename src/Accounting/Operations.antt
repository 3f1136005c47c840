-- ===== src/Accounting/Operations.antt =====
-- The books and the operations of internal/service that move money.
use arvan.Prelude.{String, Option, none, some, ◌≡◌, inl, inr, arith}
use arvan.Prelude.Int.{
  ℤ, pos, ◌+ℤ◌, ◌≤ℤ◌, negate, IsInt64, int64, int64_difference, int64_overflow, int64-IsInt64,
}
use arvan.Prelude.Lists.{find}
use arvan.Domain.{
  Uuid, Encoding, SendSmsInput, SendSmsResult, sms_cost_per_message, Result, ok, err,
}
use arvan.Database.{AccountModel, Tables, Env, Session}
use arvan.Repository.Account.{by_id}
use arvan.Service.Sms.{active_key, send}
use arvan.Service.Sms.Charge.{Charged}
use arvan.Service.Sms.Acceptance.{Answers, SendEnds, send-Ends}
use arvan.Service.Account.{topup}
use arvan.Service.Account.Credit.{Credited, TopupEnds, topup-Ends}
use arvan.Accounting.{balance_of, Reconciled}
use arvan.Accounting.Posting.{Posted, Posted-Reconciled}

fits_found :
    (id : Uuid) (t : Tables) (row : AccountModel)
    → Reconciled t
    → find (by_id id) t.accounts ≡ some row
    → IsInt64 row.balance × (pos 0 ≤ℤ row.balance)
fits_found id t row r e =
    let h : IsInt64 (balance_of id t) × (pos 0 ≤ℤ balance_of id t) = (r.fits id, r.positive id) in
    rw e at h

module _ (env : Env) (account_id : Uuid) (input : SendSmsInput) where
  Charged-Posted :
      (encoding : Encoding) (message_id outbox_id : Uuid) (t u : Tables)
      → Reconciled t
      → Charged env account_id input encoding message_id outbox_id t u
      → Posted account_id (negate sms_cost_per_message) t u
  Charged-Posted encoding message_id outbox_id t u r c =
      let (row_fits, row_positive) = fits_found account_id t c.row r c.at_id in
      let (value, positive, fits) =
        int64_difference c.row.balance sms_cost_per_message row_fits (omega arith) c.funded in
      record {
        row = c.row;
        entry = c.recorded.entry;
        at_id = c.at_id;
        accounts = rw (c.recorded.rows, value);
        ledger = rw c.recorded.rows;
        entry_account = c.recorded.entry_account;
        entry_delta = c.recorded.entry_delta;
        positive = positive;
        fits = fits;
      }

  Answers-Reconciled :
      (key : Option String) (encoding : Encoding) (message_id outbox_id : Uuid) (t u : Tables)
      (r : SendSmsResult)
      → Reconciled t
      → Answers env account_id input key encoding message_id outbox_id t r u
      → Reconciled u
  Answers-Reconciled none encoding message_id outbox_id t u r h (inl (r_is, charged)) =
      Posted-Reconciled (Charged-Posted encoding message_id outbox_id t u h charged) h
  Answers-Reconciled (some key) encoding message_id outbox_id t u r h
        (inl (r_is, (v, claimed, charged))) =
      let h' : Reconciled v =
        rw claimed.rows (record { balanced = h.balanced; positive = h.positive; fits = h.fits }) in
      Posted-Reconciled (Charged-Posted encoding message_id outbox_id v u h' charged) h'
  Answers-Reconciled none encoding message_id outbox_id t u r h (inr old) = absurd old
  Answers-Reconciled (some key) encoding message_id outbox_id t u r h (inr old) =
      let (row, cached, at_key, parsed, id, status, same) = old in rw same h

  SendEnds-Reconciled :
      (s : Session) (out : Result SendSmsResult × Session)
      → Reconciled s.tables
      → SendEnds env account_id input s out
      → Reconciled out.1.tables
  SendEnds-Reconciled s (ok r, u) h (encoding, valid, answers) =
      Answers-Reconciled (active_key input.idempotency_key) encoding _ _ s.tables u.tables r h
        answers
  SendEnds-Reconciled s (err e, u) h (inl same) = rw same h
  SendEnds-Reconciled s (err e, u) h (inr (lost, (r, (encoding, valid, answers)))) =
      Answers-Reconciled (active_key input.idempotency_key) encoding _ _ s.tables u.tables r h
        answers

  -- A send keeps the books, however it ends.
  pub send-Reconciled :
      (s : Session) → Reconciled s.tables → Reconciled (send env account_id input s).1.tables
  send-Reconciled s h =
      SendEnds-Reconciled s (send env account_id input s) h (send-Ends env account_id input s)

module _ (env : Env) (account_id : Uuid) (amount : ℤ) (fits : IsInt64 amount) where
  Credited-Posted :
      (balance : ℤ) (t u : Tables)
      → Reconciled t
      → pos 1 ≤ℤ amount
      → Credited account_id amount balance t u
      → Posted account_id amount t u
  Credited-Posted balance t u r positive c =
      let (row_fits, row_positive) = fits_found account_id t c.row r c.at_id in
      let no_wrap : int64 (c.row.balance +ℤ amount) ≡ c.row.balance +ℤ amount =
        int64_overflow c.row.balance amount row_fits fits row_positive (omega arith)
          (rw c.sum at c.positive) in
      record {
        row = c.row;
        entry = c.entry;
        at_id = c.at_id;
        accounts = rw (c.rows, c.sum, no_wrap);
        ledger = rw c.rows;
        entry_account = c.entry_account;
        entry_delta = c.entry_delta;
        positive = rw (c.sum, no_wrap) at c.positive;
        fits = rw no_wrap at (int64-IsInt64 (c.row.balance +ℤ amount));
      }

  TopupEnds-Reconciled :
      (s : Session) (out : Result ℤ × Session)
      → Reconciled s.tables
      → TopupEnds env account_id amount s out
      → Reconciled out.1.tables
  TopupEnds-Reconciled s (ok b, u) h (positive, credited) =
      Posted-Reconciled (Credited-Posted b s.tables u.tables h positive credited) h
  TopupEnds-Reconciled s (err e, u) h (inl same) = rw same h
  TopupEnds-Reconciled s (err e, u) h (inr (lost, (b, (positive, credited)))) =
      Posted-Reconciled (Credited-Posted b s.tables u.tables h positive credited) h

  -- A top-up by an int64 keeps the books, however it ends: a sum that overflows is refused.
  pub topup-Reconciled :
      (s : Session) → Reconciled s.tables → Reconciled (topup env account_id amount s).1.tables
  topup-Reconciled s h =
      TopupEnds-Reconciled s (topup env account_id amount s) h (topup-Ends env account_id amount s)
