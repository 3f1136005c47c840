-- ===== src/Handler.antt =====
-- internal/handler: what the HTTP handlers answer. A handler takes what the middleware left in the
-- context (the account, the key) and what gin made of the request: the decoded body, none where
-- ShouldBindJSON fails, and the texts of the query, empty where they are missing.
pub mod Health
pub mod Sms
pub mod Account
pub mod Laws
pub mod Reading
pub mod Pages
use arvan.Prelude.{ℕ, String, Option, none, some, List, str_eq, if◌then◌else◌}
use arvan.Prelude.Int.{ℤ, pos, leb_ℤ}
use arvan.Domain.{Uuid, Time, Runes, Encoding, MessageType, SmsStatus, LedgerReason}
use arvan.Database.{Env}

pub record LedgerItem : Type 0 where
  pub id : String
  pub delta : ℤ
  pub reason : LedgerReason
  pub created_at : Time
  pub ref_id : Option String

pub record SmsItem : Type 0 where
  pub id : String
  pub to : Runes
  pub body : Runes
  pub encoding : Encoding
  pub message_type : MessageType
  pub status : SmsStatus
  pub cost : ℤ
  pub created_at : Time
  pub sent_at : Option Time

-- What is written to the client: an error with its status, code and message, or one of the JSON
-- objects of a success, a page with its next_cursor.
pub data Reply : Type 0 where
  failure : ℕ → String → String → Reply
  balance_is : ℤ → Reply
  accepted_as : String → String → Reply
  ledger_page : List LedgerItem → Option String → Reply
  sms_page : List SmsItem → Option String → Reply
  sms_is : SmsItem → Reply

-- The HTTP status.
unfoldable pub status_of : Reply → ℕ
status_of (failure status code message) = status
status_of (balance_is balance) = 200
status_of (accepted_as id status) = 202
status_of (ledger_page items cursor) = 200
status_of (sms_page items cursor) = 200
status_of (sms_is item) = 200

abbrev pub bad_request : String → Reply
bad_request message = failure 400 "validation_error" message

abbrev pub missing_account : Reply
missing_account = failure 401 "unauthorized" "missing account context"

-- What fmt.Sscanf(raw, "%d") reads, and none where it fails.
abbrev pub scanned_limit : Option ℤ → ℤ
scanned_limit none = pos 20
scanned_limit (some limit) =
    if leb_ℤ limit (pos 0) then pos 20 else if leb_ℤ limit (pos 100) then limit else pos 100

-- parseLimit
unfoldable pub parse_limit : (String → Option ℤ) → String → ℤ
parse_limit scan raw = if str_eq raw "" then pos 20 else scanned_limit (scan raw)

abbrev pub parsed_cursor : Option Uuid → Option (Option Uuid)
parsed_cursor none = none
parsed_cursor (some cursor) = some (some cursor)

-- The cursor of the query: `none` where it is invalid, `some none` where there is none.
unfoldable pub parse_cursor : Env → String → Option (Option Uuid)
parse_cursor env raw = if str_eq raw "" then some none else parsed_cursor (env.uuid_parse raw)

-- The text of the cursor for the next page.
abbrev pub cursor_text : Env → Option Uuid → Option String
cursor_text env none = none
cursor_text env (some id) = some (env.uuid_string id)
