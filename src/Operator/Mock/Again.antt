-- ===== src/Operator/Mock/Again.antt =====
-- What the double of the operator answers to a message that it has accepted.
use arvan.Prelude.{
  String, Bool-cases, Option, none, some, List, [], ◌∷◌, ◌≡◌, refl, arith, inl, inr, str_eq,
  eq_refl, eq_iff,
}
use arvan.Prelude.Lists.{find}
use arvan.Domain.{SendRequest}
use arvan.Operator.Mock.{
  SentMessage, by_message_id, Draw, accepted_with, should_fail, send_unsent, send_found,
  handle_send, handle_all,
}

-- The reference that is held for a message.
abbrev pub HasRef : String → String → List SentMessage → Type 0
HasRef message_id ref sent =
    (m : SentMessage) × (find (by_message_id message_id) sent ≡ some m) × (m.operator_ref ≡ ref)

missing_and_held : {A : Type 0} {o : Option A} {a : A} → o ≡ none → o ≡ some a → ⊥
missing_and_held h k = ground (arith, h, k)

module _ (message_id ref : String) where
  unsent-HasRef :
      (draw : Draw) (req : SendRequest) (sent : List SentMessage)
      → find (by_message_id req.message_id) sent ≡ none
      → HasRef message_id ref sent
      → HasRef message_id ref (send_unsent draw req sent).1
  unfolding send_unsent
  unsent-HasRef draw req sent at (m, held, is_ref) = elim (Bool-cases (should_fail draw)) [
    | inl fails ↦ rw fails (m, held, is_ref)
    | inr accepts ↦
        (rw accepts (elim (Bool-cases (str_eq req.message_id message_id)) [
          | inl same ↦
              absurd (missing_and_held (rw ((eq_iff req.message_id message_id).0 same) at at) held)
          | inr other ↦ rw other (m, held, is_ref)
        ]))
  ]

  found-HasRef :
      (draw : Draw) (req : SendRequest) (sent : List SentMessage) (o : Option SentMessage)
      → find (by_message_id req.message_id) sent ≡ o
      → HasRef message_id ref sent
      → HasRef message_id ref (send_found draw req sent o).1
  found-HasRef draw req sent (some m) at h = h
  found-HasRef draw req sent none at h = unsent-HasRef draw req sent at h

  handle_send-HasRef :
      (draw : Draw) (body : Option SendRequest) (sent : List SentMessage)
      → HasRef message_id ref sent
      → HasRef message_id ref (handle_send draw body sent).1
  unfolding handle_send
  handle_send-HasRef draw none sent h = h
  handle_send-HasRef draw (some req) sent h =
      found-HasRef draw req sent (find (by_message_id req.message_id) sent) refl h

  handle_all-HasRef :
      (requests : List (Draw × Option SendRequest)) (sent : List SentMessage)
      → HasRef message_id ref sent
      → HasRef message_id ref (handle_all requests sent)
  handle_all-HasRef [] sent h = h
  handle_all-HasRef ((draw, body) ∷ rest) sent h =
      handle_all-HasRef rest (handle_send draw body sent).1 (handle_send-HasRef draw body sent h)

-- A message that is accepted is held with its reference.
accepted-HasRef :
    (draw : Draw) (req : SendRequest) (sent left : List SentMessage) (ref : String)
    (o : Option SentMessage)
    → find (by_message_id req.message_id) sent ≡ o
    → send_found draw req sent o ≡ (accepted_with ref, left)
    → HasRef req.message_id ref left
unfolding send_unsent
accepted-HasRef draw req sent left ref (some m) at h = (m, ground (arith, h, at), ground (arith, h))
accepted-HasRef draw req sent left ref none at h = elim (Bool-cases (should_fail draw)) [
  | inl fails ↦ absurd (ground (arith, rw fails at h))
  | inr accepts ↦ (
    record { message_id = req.message_id; operator_ref = draw.new_ref },
    ground (arith, rw accepts at h, eq_refl req.message_id),
    ground (arith, rw accepts at h),
  )
]

-- Once a message was accepted with a reference, every later request of it, with whatever content and
-- whatever came between, is answered with that reference and changes nothing.
pub handle_send-again :
    (draw again_draw : Draw) (req again : SendRequest) (sent left : List SentMessage) (ref : String)
    (between : List (Draw × Option SendRequest))
    → handle_send draw (some req) sent ≡ (accepted_with ref, left)
    → again.message_id ≡ req.message_id
    → handle_send again_draw (some again) (handle_all between left)
      ≡ (accepted_with ref, handle_all between left)
unfolding handle_send
handle_send-again draw again_draw req again sent left ref between accepts same =
    let held =
      accepted-HasRef draw req sent left ref (find (by_message_id req.message_id) sent) refl
        accepts in
    let (m, at, is_ref) = handle_all-HasRef req.message_id ref between left held in
    rw (same, at, is_ref) refl
