-- ===== src/Connection/Delivery.antt =====
-- What the connection promises: messages arrive and leave in order, none is lost while it is is_open,
-- the channels stay within their capacity, and what asks for an acknowledgement gets one first.
use ex_gocd.Base.{
  ◌≤◌, ◌<◌, ◌≡◌, ◌≢◌, refl, sym, ap, ◌∙◌, subst, false, List, [], ◌∷◌, ◌++◌, arith, length,
  length-append, append_assoc, append-nil, if◌then◌else◌,
}
use ex_gocd.Text.{Text, ◌==◌}
use ex_gocd.Text.Laws.{==_iff, ==_refl}
use ex_gocd.Protocol.{Message, ack_action, ack_message}
use ex_gocd.Connection.{
  capacity, Reader, acking, delivering, stopped, Writer, writing, gone, Connection, connected,
  next_reader, Step, send_queued, send_dropped, receive, close, seen_done, seen_open, read_message,
  read_failed, ack_queued, ack_dropped, delivery, delivery_given_up, write, write_failed,
  ping_failed, writer_done, Steps, here, further,
}

-- The message that `readPump` has in its hand.
abbrev pub held : Reader → List Message
held (acking m) = m ∷ []
held (delivering m) = m ∷ []
held (stopped left) = left
held _ = []

-- The acknowledgement that `readPump` is about to send.
abbrev pub pending : Reader → List Text
pending (acking m) = m.ack_id ∷ []
pending _ = []

abbrev pub unwritten : Writer → List Message
unwritten writing = []
unwritten (gone left) = left

-- The ids that messages acknowledge.
abbrev pub acknowledged : List Message → List Text
acknowledged [] = []
acknowledged (m ∷ ms) =
    let rest = acknowledged ms in if m.action == ack_action then m.ack_id ∷ rest else rest

-- The ids that messages want to be acknowledged.
abbrev pub wanted : List Message → List Text
wanted [] = []
wanted (m ∷ ms) = let rest = wanted ms in if m.ack_id == [] then rest else m.ack_id ∷ rest

-- What was read is what the agent took, what waits for it, and what `readPump` holds.
abbrev pub IsOrdered : Connection → Type 0
IsOrdered c = c.read ≡ c.delivered ++ (c.receives ++ held c.reader)

-- What was queued is what was written, what failed to be written, and what waits.
abbrev pub IsWritten : Connection → Type 0
IsWritten c = c.queued ≡ c.written ++ (unwritten c.writer ++ c.sends)

abbrev pub IsAcknowledged : Connection → Type 0
IsAcknowledged c = c.done ≡ false → acknowledged c.queued ++ pending c.reader ≡ wanted c.read

abbrev pub IsBounded : Connection → Type 0
IsBounded c = (length c.sends ≤ capacity) × (length c.receives ≤ capacity)

module _ {ℓ} {A : Type ℓ} where
  add_last :
      {xs : List A} (us vs : List A) (x : A)
      → xs ≡ us ++ (vs ++ [])
      → xs ++ x ∷ [] ≡ us ++ (vs ++ x ∷ [])
  add_last us vs x e =
      ap (λ l. l ++ x ∷ []) (e ∙ ap (λ l. us ++ l) (append-nil vs)) ∙ append_assoc us vs (x ∷ [])

  add_behind :
      {xs : List A} (us vs ws : List A) (x : A)
      → xs ≡ us ++ (vs ++ ws)
      → xs ++ x ∷ [] ≡ us ++ (vs ++ (ws ++ x ∷ []))
  add_behind us vs ws x e =
      ap (λ l. l ++ x ∷ []) e
      ∙ append_assoc us (vs ++ ws) (x ∷ [])
      ∙ ap (λ l. us ++ l) (append_assoc vs ws (x ∷ []))

  pass_first :
      {xs : List A} (us vs : List A) (x : A) → xs ≡ us ++ (x ∷ vs) → xs ≡ (us ++ x ∷ []) ++ vs
  pass_first us vs x e = e ∙ sym (append_assoc us (x ∷ []) vs)

  room : (xs : List A) (x : A) → length xs < capacity → length (xs ++ x ∷ []) ≤ capacity
  room xs x h = omega (arith, length-append xs (x ∷ []))

acknowledged-append :
    (ms ns : List Message) → acknowledged (ms ++ ns) ≡ acknowledged ms ++ acknowledged ns
acknowledged-append [] ns = refl
acknowledged-append (m ∷ ms) ns = ground (arith, acknowledged-append ms ns)

wanted-append : (ms ns : List Message) → wanted (ms ++ ns) ≡ wanted ms ++ wanted ns
wanted-append [] ns = refl
wanted-append (m ∷ ms) ns = ground (arith, wanted-append ms ns)

held-next_reader : (m : Message) → held (next_reader m) ≡ m ∷ []
unfolding next_reader
held-next_reader m = ground arith

pending-next_reader : (m : Message) → pending (next_reader m) ≡ wanted (m ∷ [])
unfolding next_reader
pending-next_reader m = ground arith

acknowledged_other : (m : Message) → m.action ≢ ack_action → acknowledged (m ∷ []) ≡ []
acknowledged_other m h = ground (arith, ==_iff m.action ack_action)

acknowledged-ack_message : (id : Text) → acknowledged (ack_message id ∷ []) ≡ id ∷ []
unfolding ack_message
acknowledged-ack_message id = rw (==_refl ack_action)

-- One more message is queued behind the others.
acknowledged_last :
    (ms : List Message) (m : Message) (ids : List Text)
    → acknowledged (m ∷ []) ≡ ids
    → acknowledged (ms ++ m ∷ []) ≡ acknowledged ms ++ ids
acknowledged_last ms m ids e = acknowledged-append ms (m ∷ []) ∙ ap (λ l. acknowledged ms ++ l) e

Step-IsOrdered : {c d : Connection} → Step c d → IsOrdered c → IsOrdered d
Step-IsOrdered (send_queued c m room other) s = s
Step-IsOrdered (send_dropped c e) s = s
Step-IsOrdered (receive c m rest e) s =
    pass_first c.delivered (rest ++ held c.reader) m
      (subst (λ l. c.read ≡ c.delivered ++ (l ++ held c.reader)) e s)
Step-IsOrdered (close c e) s = s
Step-IsOrdered (seen_done c at e) s = cc
Step-IsOrdered (seen_open c at e) s = cc
Step-IsOrdered (read_message c m at) s =
    add_last c.delivered c.receives m
      (subst (λ r. c.read ≡ c.delivered ++ (c.receives ++ held r)) at s)
    ∙ ap (λ l. c.delivered ++ (c.receives ++ l)) (sym (held-next_reader m))
Step-IsOrdered (read_failed c at) s = cc
Step-IsOrdered (ack_queued c m at h) s = cc
Step-IsOrdered (ack_dropped c m at e) s = cc
Step-IsOrdered (delivery c m at h) s =
    subst (λ r. c.read ≡ c.delivered ++ (c.receives ++ held r)) at s
    ∙ ap (λ l. c.delivered ++ l) (sym (append-nil (c.receives ++ m ∷ [])))
Step-IsOrdered (delivery_given_up c m at e) s = cc
Step-IsOrdered (write c m rest at e) s = s
Step-IsOrdered (write_failed c m rest at e) s = s
Step-IsOrdered (ping_failed c at) s = s
Step-IsOrdered (writer_done c at e) s = s

Step-IsWritten : {c d : Connection} → Step c d → IsWritten c → IsWritten d
Step-IsWritten (send_queued c m h other) s = add_behind c.written (unwritten c.writer) c.sends m s
Step-IsWritten (ack_queued c m at h) s =
    add_behind c.written (unwritten c.writer) c.sends (ack_message m.ack_id) s
Step-IsWritten (write c m rest at e) s =
    let known : c.queued ≡ c.written ++ m ∷ rest = cc in
    pass_first c.written rest m known
    ∙ ap (λ w. (c.written ++ m ∷ []) ++ (unwritten w ++ rest)) (sym at)
Step-IsWritten (write_failed c m rest at e) s = cc
Step-IsWritten (ping_failed c at) s = cc
Step-IsWritten (writer_done c at e) s = cc
Step-IsWritten (send_dropped c e) s = s
Step-IsWritten (receive c m rest e) s = s
Step-IsWritten (close c e) s = s
Step-IsWritten (seen_done c at e) s = s
Step-IsWritten (seen_open c at e) s = s
Step-IsWritten (read_message c m at) s = s
Step-IsWritten (read_failed c at) s = s
Step-IsWritten (ack_dropped c m at e) s = s
Step-IsWritten (delivery c m at h) s = s
Step-IsWritten (delivery_given_up c m at e) s = s

Step-IsAcknowledged : {c d : Connection} → Step c d → IsAcknowledged c → IsAcknowledged d
Step-IsAcknowledged (send_queued c m h other) s = λ is_open.
    ap (λ l. l ++ pending c.reader)
      (acknowledged_last c.queued m [] (acknowledged_other m other)
        ∙ append-nil (acknowledged c.queued))
    ∙ s is_open
Step-IsAcknowledged (send_dropped c e) s = s
Step-IsAcknowledged (receive c m rest e) s = s
Step-IsAcknowledged (close c e) s = λ is_open. cc
Step-IsAcknowledged (seen_done c at e) s = λ is_open. cc
Step-IsAcknowledged (seen_open c at e) s = λ is_open. cc (s is_open)
Step-IsAcknowledged (read_message c m at) s = λ is_open.
    let so_far : acknowledged c.queued ++ [] ≡ wanted c.read = cc (s is_open) in
    ap (λ l. acknowledged c.queued ++ l) (pending-next_reader m)
    ∙ ap (λ l. l ++ wanted (m ∷ [])) (sym (append-nil (acknowledged c.queued)) ∙ so_far)
    ∙ sym (wanted-append c.read (m ∷ []))
Step-IsAcknowledged (read_failed c at) s = λ is_open. cc (s is_open)
Step-IsAcknowledged (ack_queued c m at h) s = λ is_open.
    let so_far : acknowledged c.queued ++ m.ack_id ∷ [] ≡ wanted c.read = cc (s is_open) in
    append-nil (acknowledged (c.queued ++ ack_message m.ack_id ∷ []))
    ∙ acknowledged_last c.queued (ack_message m.ack_id) (m.ack_id ∷ [])
        (acknowledged-ack_message m.ack_id)
    ∙ so_far
Step-IsAcknowledged (ack_dropped c m at e) s = λ is_open. cc
Step-IsAcknowledged (delivery c m at h) s = λ is_open. cc (s is_open)
Step-IsAcknowledged (delivery_given_up c m at e) s = λ is_open. cc
Step-IsAcknowledged (write c m rest at e) s = s
Step-IsAcknowledged (write_failed c m rest at e) s = s
Step-IsAcknowledged (ping_failed c at) s = s
Step-IsAcknowledged (writer_done c at e) s = s

Step-IsBounded : {c d : Connection} → Step c d → IsBounded c → IsBounded d
Step-IsBounded (send_queued c m h other) (s, r) = (room c.sends m h, r)
Step-IsBounded (receive c m rest e) (s, r) = (s, omega (arith, ap (λ l. length l) e))
Step-IsBounded (ack_queued c m at h) (s, r) = (room c.sends (ack_message m.ack_id) h, r)
Step-IsBounded (delivery c m at h) (s, r) = (s, room c.receives m h)
Step-IsBounded (write c m rest at e) (s, r) = (omega (arith, ap (λ l. length l) e), r)
Step-IsBounded (write_failed c m rest at e) (s, r) = (omega (arith, ap (λ l. length l) e), r)
Step-IsBounded (send_dropped c e) b = b
Step-IsBounded (close c e) b = b
Step-IsBounded (seen_done c at e) b = b
Step-IsBounded (seen_open c at e) b = b
Step-IsBounded (read_message c m at) b = b
Step-IsBounded (read_failed c at) b = b
Step-IsBounded (ack_dropped c m at e) b = b
Step-IsBounded (delivery_given_up c m at e) b = b
Step-IsBounded (ping_failed c at) b = b
Step-IsBounded (writer_done c at e) b = b

-- What every step preserves holds of all that a new connection comes to.
carried :
    (P : Connection → Type 0)
    → ((c d : Connection) → Step c d → P c → P d)
    → {c d : Connection} → Steps c d
    → P c
    → P d
carried P keep (here c) p = p
carried P keep (further a b c before last) p = keep b c last (carried P keep before p)

-- Whatever the order of steps, the messages read from the socket are, in their order, those that
-- the agent took, those in the channel and the one in the reader's hand; the same holds of the
-- messages queued to be sent: written, failed to be written, and in the channel. Neither channel
-- holds more than 10.
pub Steps-IsOrdered : (c : Connection) → Steps connected c → IsOrdered c × IsWritten c × IsBounded c
Steps-IsOrdered c r = (
  carried IsOrdered (λ b d. Step-IsOrdered) r refl,
  carried IsWritten (λ b d. Step-IsWritten) r refl,
  carried IsBounded (λ b d. Step-IsBounded) r (omega arith, omega arith),
)

-- While the connection is not closed, the ids acknowledged, with that of the message that the
-- reader is about to acknowledge, are in their order those of the messages read that ask for it.
pub Steps-IsAcknowledged :
    (c : Connection)
    → Steps connected c
    → c.done ≡ false
    → acknowledged c.queued ++ pending c.reader ≡ wanted c.read
Steps-IsAcknowledged c r is_open =
    carried IsAcknowledged (λ b d. Step-IsAcknowledged) r (λ e. refl) is_open
