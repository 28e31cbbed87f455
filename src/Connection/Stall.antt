-- ===== src/Connection/Stall.antt =====
-- When `Send` blocks for good.
use ex_gocd.Base.{◌≡◌, refl, ◌∙◌, false, List, arith, length}
use ex_gocd.Protocol.{Message}
use ex_gocd.Connection.{
  capacity, gone, Connection, Step, send_queued, send_dropped, receive, close, seen_done, seen_open,
  read_message, read_failed, ack_queued, ack_dropped, delivery, delivery_given_up, write,
  write_failed, ping_failed, writer_done, Steps, here, further,
}

-- `writePump` has returned, the channel `send` is full, and nobody closed the connection.
abbrev pub IsStalled : Connection → Type 0
IsStalled c =
    (left : List Message) × (c.writer ≡ gone left) × (length c.sends ≡ capacity) × (c.done ≡ false)

-- Nothing more is queued or written, and the connection is stalled as before.
abbrev pub StaysStalled : Connection → Connection → Type 0
StaysStalled c d = IsStalled d × (d.queued ≡ c.queued) × (d.written ≡ c.written)

Step-StaysStalled : {c d : Connection} → Step c d → IsStalled c → d.done ≡ false → StaysStalled c d
Step-StaysStalled (send_queued c m room other) (left, w, full, o) e = absurd (omega arith)
Step-StaysStalled (send_dropped c e') s e = (s, refl, refl)
Step-StaysStalled (receive c m rest e') s e = (s, refl, refl)
Step-StaysStalled (close c e') s e = cc
Step-StaysStalled (seen_done c at e') s e = (s, refl, refl)
Step-StaysStalled (seen_open c at e') s e = (s, refl, refl)
Step-StaysStalled (read_message c m at) s e = (s, refl, refl)
Step-StaysStalled (read_failed c at) s e = (s, refl, refl)
Step-StaysStalled (ack_queued c m at room) (left, w, full, o) e = absurd (omega arith)
Step-StaysStalled (ack_dropped c m at e') s e = (s, refl, refl)
Step-StaysStalled (delivery c m at room) s e = (s, refl, refl)
Step-StaysStalled (delivery_given_up c m at e') s e = (s, refl, refl)
Step-StaysStalled (write c m rest at e') (left, w, full, o) e = cc
Step-StaysStalled (write_failed c m rest at e') (left, w, full, o) e = cc
Step-StaysStalled (ping_failed c at) (left, w, full, o) e = cc
Step-StaysStalled (writer_done c at e') (left, w, full, o) e = cc

-- No step opens a connection that is closed.
open_before : {c d : Connection} → Step c d → d.done ≡ false → c.done ≡ false
open_before (close c e') e = cc
open_before (send_queued c m room other) e = e
open_before (send_dropped c e') e = e
open_before (receive c m rest e') e = e
open_before (seen_done c at e') e = e
open_before (seen_open c at e') e = e
open_before (read_message c m at) e = e
open_before (read_failed c at) e = e
open_before (ack_queued c m at room) e = e
open_before (ack_dropped c m at e') e = e
open_before (delivery c m at room) e = e
open_before (delivery_given_up c m at e') e = e
open_before (write c m rest at e') e = e
open_before (write_failed c m rest at e') e = e
open_before (ping_failed c at) e = e
open_before (writer_done c at e') e = e

-- Once `writePump` has returned and the channel `send` is full, no message is queued or written
-- any more until the connection is closed, whatever else happens.
pub Steps-StaysStalled :
    {c d : Connection} → Steps c d → IsStalled c → d.done ≡ false → StaysStalled c d
Steps-StaysStalled (here c) s e = (s, refl, refl)
Steps-StaysStalled (further c b d before last) s e =
    let (s', q, w) = Steps-StaysStalled before s (open_before last e) in
    let (s'', q', w') = Step-StaysStalled last s' e in (s'', q' ∙ q, w' ∙ w)
