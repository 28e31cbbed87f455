-- ===== src/Tests/Systems.antt =====
-- Tests of the event loop on its connection: agent/internal/agent/agent.go and
-- agent/internal/websocket/connection.go.
use ex_gocd.Base.{is_positive, true, ◌≡◌, refl, [], ◌∷◌, ◌++◌, arith, reverse}
use ex_gocd.Text.{◌==◌}
use ex_gocd.Protocol.{Message, join_message}
use ex_gocd.Connection.{
  connected, reading, delivering, next_reader, enqueue, deliver, seen_open, read_message, delivery,
}
use ex_gocd.Connection.Delivery.{held}
use ex_gocd.Agent.{get_runtime_info}
use ex_gocd.Agent.Messages.{send_join}
use ex_gocd.Agent.Build.Reports.{sent_of}
use ex_gocd.Agent.Session.{received, run_events}
use ex_gocd.System.{
  System, happens, joining, opened, take_first, pump, push, take, Reach, begun, later,
}
use ex_gocd.System.Rounds.{messages_of, own}
use ex_gocd.System.Session.{Reach-runs, Reach-sends}
use ex_gocd.Tests.Fixtures.{host, agent, cookie_message}

abbrev begin : System
begin = opened host agent

-- The join is in the channel, and `readPump` reads the server's cookie.
abbrev join : Message
join = join_message (get_runtime_info host (record agent { conn_cookie = [] }))

abbrev joined : System
joined = record begin { link = enqueue join connected; outbox = [] }

abbrev seen : System
seen = record joined { link = record joined.link { reader = reading } }

abbrev got : System
got = record seen {
  link = record seen.link { reader = delivering cookie_message; read = cookie_message ∷ [] };
}

abbrev brought : System
brought = record got { link = deliver cookie_message got.link }

abbrev told : System
told = record (happens host (received cookie_message) brought) {
  link = take_first cookie_message [] brought.link;
}

ticks : is_positive agent.config.heartbeat_interval ≡ true
unfolding is_positive
ticks = refl

-- The chain of steps, by the equations between the runs above.
to_joined : Reach host agent joined
unfolding send_join
to_joined = later (begun ticks) (push join [] refl (omega arith))

to_brought : Reach host agent brought
unfolding next_reader ◌==◌
to_brought =
    later
      (later (later to_joined (pump seen.link (seen_open joined.link refl refl) tt))
        (pump got.link (read_message seen.link cookie_message refl) tt))
      (pump brought.link (delivery got.link cookie_message refl (omega arith)) tt)

to_told : Reach host agent told
to_told = later to_brought (take cookie_message [] refl refl refl)

Reach-runs_example :
    (run_events host told.events (joining host agent) ≡ (told.over, told.agent))
    × (told.link.read ≡ messages_of told.events ++ (told.link.receives ++ held told.link.reader))
Reach-runs_example = Reach-runs host agent to_told

Reach-sends_example :
    reverse (sent_of agent.trace) ++ (own told.link.queued ++ told.outbox)
    ≡ reverse (sent_of told.agent.trace)
Reach-sends_example = Reach-sends host agent to_told
