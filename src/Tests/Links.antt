-- ===== src/Tests/Links.antt =====
-- Tests of the connection: agent/internal/websocket/connection.go.
use ex_gocd.Base.{ℕ, zero, suc, ◌≤◌, ◌≡◌, refl, none, [], ◌∷◌, ◌++◌, arith, length, length-append}
use ex_gocd.Text.{codes, ◌==◌}
use ex_gocd.Protocol.{Message, ping_action}
use ex_gocd.Connection.{
  reading, acking, gone, Connection, connected, next_reader, enqueue, acknowledge, deliver, Steps,
  here, further, send_queued, seen_open, read_message, ack_queued, delivery, ping_failed,
}
use ex_gocd.Connection.Delivery.{
  IsOrdered, IsWritten, IsBounded, acknowledged, pending, wanted, Steps-IsOrdered,
  Steps-IsAcknowledged,
}
use ex_gocd.Connection.Stall.{IsStalled, StaysStalled, Steps-StaysStalled}
use ex_gocd.Tests.Fixtures.{bare}

abbrev asking : Message
asking = record (bare (codes "setCookie") none) { ack_id = codes "a1" }

abbrev ping : Message
ping = bare ping_action none

-- A message that asks for an acknowledgement is read, acknowledged and delivered.
abbrev at_read : Connection
at_read = record connected { reader = acking asking; read = asking ∷ [] }

abbrev at_ack : Connection
at_ack = acknowledge asking at_read

abbrev at_delivery : Connection
at_delivery = deliver asking at_ack

to_read : Steps connected at_read
unfolding next_reader ◌==◌
to_read =
    further _ _ _ (further _ _ _ (here connected) (seen_open connected refl refl))
      (read_message (record connected { reader = reading }) asking refl)

to_delivery : Steps connected at_delivery
to_delivery =
    further _ _ _ (further _ _ _ to_read (ack_queued at_read asking refl (omega arith)))
      (delivery at_ack asking refl (omega arith))

Steps-IsOrdered_example : IsOrdered at_delivery × IsWritten at_delivery × IsBounded at_delivery
Steps-IsOrdered_example = Steps-IsOrdered at_delivery to_delivery

Steps-IsAcknowledged_example :
    acknowledged at_delivery.queued ++ pending at_delivery.reader ≡ wanted at_delivery.read
Steps-IsAcknowledged_example = Steps-IsAcknowledged at_delivery to_delivery refl

-- A ping of the connection fails, and the agent goes on sending.
abbrev unread : ℕ → Connection
unread zero = record connected { writer = gone [] }
unread (suc n) = enqueue ping (unread n)

length-unread : (n : ℕ) → length (unread n).sends ≡ n
length-unread zero = refl
length-unread (suc n) = omega (arith, length-append (unread n).sends (ping ∷ []), length-unread n)

to_unread : (n : ℕ) → n ≤ 10 → Steps connected (unread n)
to_unread zero h = further _ _ _ (here connected) (ping_failed connected refl)
to_unread (suc n) h =
    further _ _ _ (to_unread n (omega arith))
      (send_queued (unread n) ping (omega (arith, length-unread n)) (ground arith))

-- So a new connection may come to be stalled.
unread-IsStalled : Steps connected (unread 10) × IsStalled (unread 10)
unread-IsStalled = (to_unread 10 (omega arith), ([], refl, refl, refl))

Steps-StaysStalled_example : StaysStalled (unread 10) (record (unread 10) { reader = reading })
Steps-StaysStalled_example =
    Steps-StaysStalled (further _ _ _ (here (unread 10)) (seen_open (unread 10) refl refl))
      ([], refl, refl, refl) refl
