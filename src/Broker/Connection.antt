-- ===== src/Broker/Connection.antt =====
-- Connect, declareTopology and Close of internal/broker/rabbitmq.go. The library and the server are
-- outside: each call of them is done or fails.
use arvan.Prelude.{
  ℕ, suc, ◌-◌, Bool, true, false, Option, none, some, List, [], ◌∷◌, ◌≡◌, refl, inl, inr, arith,
  Bool-cases, if◌then◌else◌, ◌&&◌,
}
use arvan.Domain.{
  MessageType, standard, express, other_type, Queue, express_queue, standard_queue,
  dead_letter_queue,
}
use arvan.Broker.{RabbitMq}
use arvan.Broker as Broker
use arvan.Relay.{queue_for_message_type}

-- Which calls are done.
pub record Server : Type 0 where
  pub dials : Bool
  pub opens_channel : Bool
  pub confirms : Bool
  pub declares : Queue → Bool

-- What the process holds open, and the queues that it declared, the last first.
pub record Held : Type 0 where
  pub connections : ℕ
  pub channels : ℕ
  pub declared : List Queue

abbrev pub nothing_held : Held
nothing_held = record { connections = 0; channels = 0; declared = [] }

abbrev pub close_channel : Held → Held
close_channel h = record h { channels = h.channels - 1 }

abbrev pub close_connection : Held → Held
close_connection h = record h { connections = h.connections - 1 }

-- The queues in their order, up to one that cannot be declared; and whether all of them are.
unfoldable pub declare_all : (Queue → Bool) → List Queue → Held → Bool × Held
declare_all declares [] h = (true, h)
declare_all declares (name ∷ rest) h =
    let others = declare_all declares rest (record h { declared = name ∷ h.declared }) in
    if declares name then others else (false, h)

unfoldable pub declare_topology : (Queue → Bool) → Held → Bool × Held
declare_topology declares h =
    declare_all declares (express_queue ∷ standard_queue ∷ dead_letter_queue ∷ []) h

-- Connect behind the declaration of the queues.
unfoldable pub behind_topology : Bool × Held → Option RabbitMq × Held
behind_topology (true, h) = (some Broker.connect, h)
behind_topology (false, h) = (none, close_connection (close_channel h))

-- Connect behind Confirm, by whether it is done, and so on back to the dial.
unfoldable pub behind_confirm : Server → Held → Bool → Option RabbitMq × Held
behind_confirm server h true = behind_topology (declare_topology server.declares h)
behind_confirm server h false = (none, close_connection (close_channel h))

unfoldable pub behind_channel : Server → Held → Bool → Option RabbitMq × Held
behind_channel server h true =
    behind_confirm server (record h { channels = suc h.channels }) server.confirms
behind_channel server h false = (none, close_connection h)

unfoldable pub behind_dial : Server → Held → Bool → Option RabbitMq × Held
behind_dial server h true =
    behind_channel server (record h { connections = suc h.connections }) server.opens_channel
behind_dial server h false = (none, h)

unfoldable pub connect : Server → Held → Option RabbitMq × Held
connect server h = behind_dial server h server.dials

-- Close, by whether the library closes the connection.
unfoldable pub close : Bool → Held → Bool × Held
close closes h =
    let h' = close_channel h in if closes then (true, close_connection h') else (false, h')

-- A queue is among those that were declared.
unfoldable pub is_declared : Queue → List Queue → Bool
is_declared express_queue (express_queue ∷ rest) = true
is_declared standard_queue (standard_queue ∷ rest) = true
is_declared dead_letter_queue (dead_letter_queue ∷ rest) = true
is_declared name (other ∷ rest) = is_declared name rest
is_declared name [] = false

-- Every call is done.
abbrev pub is_up : Server → Bool
is_up server =
    server.dials
    && server.opens_channel
    && server.confirms
    && server.declares express_queue
    && server.declares standard_queue
    && server.declares dead_letter_queue

-- What Connect answers and holds.
abbrev pub Connects : Server → Option RabbitMq × Held → Type 0
Connects server (none, h) = (is_up server ≡ false) × (h.connections ≡ 0) × (h.channels ≡ 0)
Connects server (some rmq, h) =
    (is_up server ≡ true)
    × (rmq ≡ Broker.connect)
    × (h.connections ≡ 1)
    × (h.channels ≡ 1)
    × ((message_type : MessageType)
        → is_declared (queue_for_message_type message_type) h.declared ≡ true)
    × (is_declared dead_letter_queue h.declared ≡ true)

all_declared :
    (message_type : MessageType)
    → is_declared
        (queue_for_message_type message_type)
        (dead_letter_queue ∷ standard_queue ∷ express_queue ∷ [])
      ≡ true
unfolding queue_for_message_type is_declared
all_declared standard = refl
all_declared express = refl
all_declared (other_type _) = refl

-- One connection with one channel.
abbrev one_channel : Held
one_channel = record { connections = 1; channels = 1; declared = [] }

module _ (server : Server) where
  topology-Connects :
      server.dials ≡ true
      → server.opens_channel ≡ true
      → server.confirms ≡ true
      → Connects server (behind_topology (declare_topology server.declares one_channel))
  unfolding behind_topology declare_topology declare_all is_declared
  topology-Connects d o c = elim (Bool-cases (server.declares express_queue)) [
    | inr e ↦ simp e (ground (arith, e), refl, refl)
    | inl e ↦ elim (Bool-cases (server.declares standard_queue)) [
      | inr e' ↦ simp (e, e') (ground (arith, e'), refl, refl)
      | inl e' ↦ elim (Bool-cases (server.declares dead_letter_queue)) [
        | inr e'' ↦ simp (e, e', e'') (ground (arith, e''), refl, refl)
        | inl e'' ↦
            simp (e, e', e'')
              (ground (arith, d, o, c, e, e', e''), refl, refl, refl, all_declared, refl)
      ]
    ]
  ]

  confirm-Connects :
      (confirms : Bool)
      → server.dials ≡ true
      → server.opens_channel ≡ true
      → server.confirms ≡ confirms
      → Connects server (behind_confirm server one_channel confirms)
  unfolding behind_confirm
  confirm-Connects true d o c = topology-Connects d o c
  confirm-Connects false d o c = (ground (arith, c), refl, refl)

  channel-Connects :
      (opens : Bool)
      → server.dials ≡ true
      → server.opens_channel ≡ opens
      → Connects server
          (behind_channel server (record { connections = 1; channels = 0; declared = [] }) opens)
  unfolding behind_channel
  channel-Connects true d o = confirm-Connects server.confirms d o refl
  channel-Connects false d o = (ground (arith, o), refl, refl)

  dial-Connects :
      (dials : Bool)
      → server.dials ≡ dials
      → Connects server (behind_dial server nothing_held dials)
  unfolding behind_dial
  dial-Connects true d = channel-Connects server.opens_channel d refl
  dial-Connects false d = (ground (arith, d), refl, refl)

-- Connect fails where one of its calls does, and then leaves neither a connection nor a channel open; where
-- all are done it answers one connection with one channel, and the queues of all message types and the
-- one of dead letters are declared.
pub connect-Connects : (server : Server) → Connects server (connect server nothing_held)
unfolding connect
connect-Connects server = dial-Connects server server.dials refl
