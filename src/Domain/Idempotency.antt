-- ===== src/Domain/Idempotency.antt =====
-- internal/domain/idempotency.go: the snapshot of a response, written and read back. UUIDs are printed and
-- parsed by a library; names of members that differ from the tags only by case do not occur.
use arvan.Prelude.{
  String, List, [], ◌∷◌, ◌≡◌, ◌≢◌, Option, none, some, arith, str_eq, eq_iff, if◌then◌else◌,
}
use arvan.Domain.Types.{
  Uuid, SendSmsResult, IdempotencyResponse, Snapshot, no_bytes, unreadable, json_object, response,
}

-- json.Unmarshal on one member: the field with its name, and no field where none has it.
unfoldable pub read_member : String → String → IdempotencyResponse → IdempotencyResponse
read_member name value resp =
    if str_eq name "message_id"
    then record resp { message_id = value }
    else if str_eq name "status"
    then record resp { status = value }
    else resp

-- On all members, the first of them first.
unfoldable pub read_members : List (String × String) → IdempotencyResponse → IdempotencyResponse
read_members [] resp = resp
read_members ((name, value) ∷ rest) resp = read_members rest (read_member name value resp)

-- IdempotencyResponse{}
abbrev pub blank_response : IdempotencyResponse
blank_response = record { message_id = ""; status = "" }

-- Behind json.Unmarshal.
abbrev pub with_message_id : IdempotencyResponse → Option IdempotencyResponse
with_message_id resp = if str_eq resp.message_id "" then none else some resp

unfoldable pub parse_idempotency_response : Snapshot → Option IdempotencyResponse
unfolding read_members read_member
parse_idempotency_response no_bytes = none
parse_idempotency_response unreadable = none
parse_idempotency_response (json_object []) = none
parse_idempotency_response (json_object (m ∷ rest)) =
    with_message_id (read_members (m ∷ rest) blank_response)

module _ (uuid_string : Uuid → String) where
  unfoldable pub marshal_idempotency_response : SendSmsResult → Snapshot
  marshal_idempotency_response result =
      response (record { message_id = uuid_string result.message_id; status = result.status })

  -- A marshalled result is read back as it was, as long as no UUID prints as the empty text.
  pub parse-marshal :
      (result : SendSmsResult)
      → uuid_string result.message_id ≢ ""
      → parse_idempotency_response (marshal_idempotency_response result)
        ≡ some (record { message_id = uuid_string result.message_id; status = result.status })
  unfolding parse_idempotency_response marshal_idempotency_response read_members read_member
  parse-marshal result h = ground (arith, eq_iff (uuid_string result.message_id) "")
