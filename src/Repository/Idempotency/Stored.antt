-- ===== src/Repository/Idempotency/Stored.antt =====
-- internal/domain/idempotency.go on what the column response_snapshot keeps: JSONB has the members of an
-- object, and not their order.
use arvan.Prelude.{
  ⊤, String, List, [], ◌∷◌, ◌≡◌, ◌≢◌, refl, sym, ap, subst, ◌⊎◌, inl, inr, true, Bool-cases, some,
  arith, str_eq, eq_iff,
}
use arvan.Domain.{
  Uuid, SendSmsResult, IdempotencyResponse, Snapshot, no_bytes, unreadable, json_object,
}
use arvan.Domain.Idempotency.{
  read_member, read_members, blank_response, parse_idempotency_response,
  marshal_idempotency_response,
}
use arvan.Repository.Page.Order.{In}

abbrev pub members : Snapshot → List (String × String)
members (json_object ms) = ms
members no_bytes = []
members unreadable = []

-- A member with the name of a field has the field's value.
abbrev FitsMember : IdempotencyResponse → String × String → Type 0
FitsMember r (name, value) =
    (str_eq name "message_id" ≡ true → value ≡ r.message_id)
    × (str_eq name "status" ≡ true → value ≡ r.status)

abbrev Fits : IdempotencyResponse → List (String × String) → Type 0
Fits r [] = ⊤
Fits r (m ∷ rest) = FitsMember r m × Fits r rest

-- Some member has the name.
abbrev Names : String → List (String × String) → Type 0
Names field [] = ⊥
Names field ((name, value) ∷ rest) = (str_eq name field ≡ true) ⊎ Names field rest

module _ (r : IdempotencyResponse) where
  both : (name : String) → str_eq name "message_id" ≡ true → str_eq name "status" ≡ true → ⊥
  both name h k =
      let apart : str_eq "message_id" "status" ≡ true =
        subst (λ n. str_eq n "status" ≡ true) ((eq_iff name "message_id").0 h) k in
      ground (arith, apart)

  -- A field that is read, or named by a member that is left, is so behind the next member.
  next-id :
      (name value : String) (rest : List (String × String)) (resp : IdempotencyResponse)
      → FitsMember r (name, value)
      → (resp.message_id ≡ r.message_id) ⊎ Names "message_id" ((name, value) ∷ rest)
      → ((read_member name value resp).message_id ≡ r.message_id) ⊎ Names "message_id" rest
  unfolding read_member
  next-id name value rest resp (id, status) h = elim (Bool-cases (str_eq name "message_id")) [
    | inl named ↦ inl (rw named (id named))
    | inr other ↦ (elim h [
      | inl read ↦ inl (ground (arith, other, read))
      | inr (inl named) ↦ absurd (ground (arith, other, named))
      | inr (inr left) ↦ inr left
    ])
  ]

  next-status :
      (name value : String) (rest : List (String × String)) (resp : IdempotencyResponse)
      → FitsMember r (name, value)
      → (resp.status ≡ r.status) ⊎ Names "status" ((name, value) ∷ rest)
      → ((read_member name value resp).status ≡ r.status) ⊎ Names "status" rest
  unfolding read_member
  next-status name value rest resp (id, status) h = elim (Bool-cases (str_eq name "message_id")) [
    | inl named ↦ (elim h [
      | inl read ↦ inl (rw named read)
      | inr (inl both_named) ↦ absurd (both name named both_named)
      | inr (inr left) ↦ inr left
    ])
    | inr other ↦ (elim (Bool-cases (str_eq name "status")) [
      | inl named ↦ inl (rw (other, named) (status named))
      | inr neither ↦ (elim h [
        | inl read ↦ inl (rw (other, neither) read)
        | inr (inl named) ↦ absurd (ground (arith, neither, named))
        | inr (inr left) ↦ inr left
      ])
    ])
  ]

  read-Fits :
      (ms : List (String × String)) (resp : IdempotencyResponse)
      → Fits r ms
      → (resp.message_id ≡ r.message_id) ⊎ Names "message_id" ms
      → (resp.status ≡ r.status) ⊎ Names "status" ms
      → read_members ms resp ≡ r
  unfolding read_members
  read-Fits [] resp fits (inl id) (inl status) = ground (arith, id, status)
  read-Fits [] resp fits (inr none) status = absurd none
  read-Fits [] resp fits (inl id) (inr none) = absurd none
  read-Fits ((name, value) ∷ rest) resp (member, fits) id status =
      read-Fits rest (read_member name value resp) fits (next-id name value rest resp member id)
        (next-status name value rest resp member status)

  -- Any list of members that names both fields, and has their values, is read as the response.
  parse-Fits :
      (ms : List (String × String))
      → r.message_id ≢ ""
      → Fits r ms
      → Names "message_id" ms
      → Names "status" ms
      → parse_idempotency_response (json_object ms) ≡ some r
  unfolding parse_idempotency_response
  parse-Fits [] filled fits id status = absurd id
  parse-Fits (m ∷ rest) filled fits id status =
      rw (read-Fits (m ∷ rest) blank_response fits (inr id) (inr status))
        (ground (arith, eq_iff r.message_id ""))

every-Fits :
    (r : IdempotencyResponse) (ms : List (String × String))
    → ((m : String × String) → In m ms → FitsMember r m)
    → Fits r ms
every-Fits r [] h = tt
every-Fits r (m ∷ rest) h = (h m (inl refl), every-Fits r rest (λ m' there. h m' (inr there)))

In-Names :
    (field value : String) (ms : List (String × String)) → In (field, value) ms → Names field ms
In-Names field value [] there = absurd there
In-Names field value (m ∷ rest) (inl is) =
    inl ((eq_iff m.0 field).1 (sym (ap (λ (x : String × String). x.0) is)))
In-Names field value (m ∷ rest) (inr there) = inr (In-Names field value rest there)

module _ (uuid_string : Uuid → String) where
  -- No UUID prints as the empty text, and JSONB keeps the members of an object: a marshalled result that
  -- the database gives back with the same members, in any order and however often, is read as it was.
  pub parse-stored :
      (result : SendSmsResult) (stored : List (String × String))
      → uuid_string result.message_id ≢ ""
      → ((m : String × String)
          → In m stored
          → In m (members (marshal_idempotency_response uuid_string result)))
      → ((m : String × String)
          → In m (members (marshal_idempotency_response uuid_string result))
          → In m stored)
      → parse_idempotency_response (json_object stored)
        ≡ some (record { message_id = uuid_string result.message_id; status = result.status })
  unfolding marshal_idempotency_response
  parse-stored result stored filled written kept =
      let r : IdempotencyResponse = record {
        message_id = uuid_string result.message_id;
        status = result.status;
      } in
      parse-Fits r stored filled (every-Fits r stored (λ m there. member m (written m there)))
        (In-Names "message_id" _ stored (kept _ (inl refl)))
        (In-Names "status" _ stored (kept _ (inr (inl refl))))
    where
      member :
          (m : String × String)
          → In m (("message_id", uuid_string result.message_id) ∷ ("status", result.status) ∷ [])
          → FitsMember
              (record { message_id = uuid_string result.message_id; status = result.status })
              m
      member m (inl is) = rw is ((λ h. refl), (λ h. absurd (ground (arith, h))))
      member m (inr (inl is)) = rw is ((λ h. absurd (ground (arith, h))), (λ h. refl))
      member m (inr (inr there)) = absurd there
