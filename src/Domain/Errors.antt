-- ===== src/Domain/Errors.antt =====
-- internal/domain/errors/errors.go, and the kinds of error that its clients tell apart by errors.Is.
-- An error that wraps a sentinel (fmt.Errorf with %w) is that sentinel here, since errors.Is sees
-- through the wrapping and nothing reads the text.
pub data Error : Type 0 where
  unauthorized insufficient_balance not_found invalid_amount invalid_cursor : Error
  invalid_request invalid_message_type invalid_idempotency_key : Error
  idempotency_in_progress invalid_phone_number message_too_long : Error
  -- gorm.ErrRecordNotFound, a unique violation, any other error of the database
  record_not_found duplicated_key driver_error : Error
  -- operator.PermanentError, operator.ErrCircuitOpen
  permanent circuit_open : Error
  -- an error that wraps none of the above
  internal : Error

pub data Result {ℓ} (A : Type ℓ) : Type ℓ where
  ok : A → Result A
  err : Error → Result A
