-- ===== src/Agent/Session/Requests.antt =====
-- What follows from the invariant of a session, and what single messages do to it.
use ex_gocd.Base.{
  ◌≡◌, ◌≢◌, refl, ap, ◌∙◌, subst, Option, none, some, List, [], ◌∷◌, ◌++◌, map, All, ◌⊎◌, arith,
  Result, ok, err, if_both,
}
use ex_gocd.Text.{Text, codes, ◌==◌}
use ex_gocd.Text.Utf8.{utf8}
use ex_gocd.Text.Laws.{==_iff}
use ex_gocd.Config.{Config}
use ex_gocd.Protocol.{
  Message, AgentRuntimeInfo, set_cookie_action, reregister_action, ping_action, ping_message,
}
use ex_gocd.Protocol.Decode.{data_string, data_build, build_id_from_data, runtime_info_of}
use ex_gocd.Protocol.RoundTrip.{runtime_info_of-ping_message}
use ex_gocd.Agent.{
  sent, requested, called, invoked, context_cancelled, Trace, Host, Agent, new_agent,
  get_runtime_info, idle, Fault, panic, record_effect,
}
use ex_gocd.Agent.Checks.Laws.{IsTrusted}
use ex_gocd.Agent.Build.Reports.{sent_of, handle_build-idle}
use ex_gocd.Agent.Messages.{handle_message, cancel_build, set_cookie, send_ping}
use ex_gocd.Agent.Session.{
  Event, received, ping_tick, still_open, Attempt, run_events, unless_panic, start,
}
use ex_gocd.Agent.Session.Invariant.{IsAllowed, start-IsCalm}

-- The URLs of the requests sent.
abbrev pub requested_urls : Trace → List Text
requested_urls [] = []
requested_urls (requested r ∷ t) = r.url ∷ requested_urls t
requested_urls (_ ∷ t) = requested_urls t

-- The builds whose contexts were cancelled.
abbrev pub cancelled_builds : Trace → List Text
cancelled_builds [] = []
cancelled_builds (context_cancelled id ∷ t) = id ∷ cancelled_builds t
cancelled_builds (_ ∷ t) = cancelled_builds t

requested_urls-IsTrusted :
    (h : Host) (c : Config) (t : Trace)
    → All (IsAllowed h c) t
    → All (IsTrusted h c) (requested_urls t)
requested_urls-IsTrusted h c [] q = tt
requested_urls-IsTrusted h c (requested r ∷ t) (q, qs) = (q, requested_urls-IsTrusted h c t qs)
requested_urls-IsTrusted h c (sent m ∷ t) (q, qs) = requested_urls-IsTrusted h c t qs
requested_urls-IsTrusted h c (called o ∷ t) (q, qs) = requested_urls-IsTrusted h c t qs
requested_urls-IsTrusted h c (invoked i ∷ t) (q, qs) = requested_urls-IsTrusted h c t qs
requested_urls-IsTrusted h c (context_cancelled i ∷ t) (q, qs) = absurd q

no_cancelled_builds :
    (h : Host) (c : Config) (t : Trace) → All (IsAllowed h c) t → cancelled_builds t ≡ []
no_cancelled_builds h c [] q = refl
no_cancelled_builds h c (requested r ∷ t) (q, qs) = no_cancelled_builds h c t qs
no_cancelled_builds h c (sent m ∷ t) (q, qs) = no_cancelled_builds h c t qs
no_cancelled_builds h c (called o ∷ t) (q, qs) = no_cancelled_builds h c t qs
no_cancelled_builds h c (invoked i ∷ t) (q, qs) = no_cancelled_builds h c t qs
no_cancelled_builds h c (context_cancelled i ∷ t) (q, qs) = absurd q

-- Whatever the server sends and however the connections go, every HTTP request that the agent
-- makes for console output and artifacts is to a URL of the configured server: its scheme, host and
-- user are the server's. (Redirects are followed inside of the HTTP client.)
pub start-IsTrusted :
    (h : Host) (c : Config) (ts : List Attempt)
    → All (IsTrusted h c) (requested_urls (start h ts (new_agent c)).agent.trace)
start-IsTrusted h c ts = requested_urls-IsTrusted h c _ (start-IsCalm h c ts).effects

-- Since a build runs to its end before the next message is handled, no message ever cancels the
-- context of a build; between the events the agent is idle and has no current build.
pub start-never_cancels :
    (h : Host) (c : Config) (ts : List Attempt)
    → let a = (start h ts (new_agent c)).agent in
      (cancelled_builds a.trace ≡ [])
      × (a.state ≡ idle)
      × (a.current_build ≡ [])
      × (a.cancel_fn ≡ none)
start-never_cancels h c ts =
    let k = start-IsCalm h c ts in
    (no_cancelled_builds h c _ k.effects, k.is_idle, k.no_build, k.no_cancel)

-- A request to register again, and the news that the server closed the channel, change nothing: the
-- session goes on with the next event.
pub run_events_goes_on :
    (h : Host) (msg : Message) (es : List Event) (a : Agent)
    → (msg.action ≡ reregister_action) ⊎ (msg.action ≡ codes "phx_close")
    → run_events h (received msg ∷ es) a ≡ run_events h es a
unfolding run_events handle_message unless_panic ◌==◌
run_events_goes_on h msg es a e = ground arith

cancel_build-cookie : (id : Text) (a : Agent) → (cancel_build id a).cookie ≡ a.cookie
unfolding cancel_build
cancel_build-cookie id a =
    if_both (λ (x : Agent). x.cookie ≡ a.cookie) (a.current_build == id) _ _
      (by_function a.cancel_fn) refl
  where
    by_function :
        (f : Option Text)
        → (elim f as (λ _. Agent) [
          | some id ↦ record_effect (context_cancelled id) a
          | none ↦ a
        ]).cookie
          ≡ a.cookie
    by_function (some id) = refl
    by_function none = refl

-- Only a setCookie message changes the cookie.
handle_message-cookie :
    (h : Host) (m : Message) (a : Agent)
    → m.action ≢ set_cookie_action
    → (handle_message h m a).1.cookie ≡ a.cookie
unfolding handle_message
handle_message-cookie h m a other = ground (
  arith,
  ==_iff m.action set_cookie_action,
  cancel_build-cookie (build_id_from_data m) a,
  ap (λ (x : Agent). x.cookie) (handle_build-idle h (data_build m) a),
)

set_cookie_lem :
    (h : Host) (msg : Message) (a : Agent)
    → msg.action ≡ set_cookie_action
    → (handle_message h msg a).1.cookie ≡ data_string msg
unfolding handle_message set_cookie ◌==◌
set_cookie_lem h msg a is = ground arith

-- The last message sent behind those of the trace is a ping with the cookie.
abbrev pub PingsBehind : Text → Trace → Trace → Type 0
PingsBehind cookie before t =
    (m : Message) × (sent_of t ≡ m ∷ sent_of before)
    × (m.action ≡ ping_action)
    × ((runtime_info_of m).cookie ≡ utf8 cookie)

send_ping-PingsBehind : (h : Host) (a : Agent) → PingsBehind a.cookie a.trace (send_ping h a).trace
unfolding send_ping get_runtime_info ping_message
send_ping-PingsBehind h a = (
  ping_message (get_runtime_info h a),
  refl,
  refl,
  ap (λ (i : AgentRuntimeInfo). i.cookie) (runtime_info_of-ping_message (get_runtime_info h a)),
)

module _ (h : Host) (cookie : Text) where
  -- What a tick behind the given messages does.
  abbrev PingsAt : List Message → Agent → Type 0
  PingsAt between a =
      (run_events h (map received between) a).0 ≡ still_open
      → PingsBehind cookie (run_events h (map received between) a).1.trace
          (run_events h (map received between ++ ping_tick ∷ []) a).1.trace

  message-PingsAt :
      (m : Message) (between : List Message) (a : Agent)
      → PingsAt between (handle_message h m a).1
      → PingsAt (m ∷ between) a
  unfolding run_events unless_panic
  message-PingsAt m between a next = go (handle_message h m a).0
    where
      go :
          (r : Result Fault (Unit {0}))
          → let a' = (handle_message h m a).1 in
            let rest = run_events h (map received between) a' in
            let all = run_events h (map received between ++ ping_tick ∷ []) a' in
            (unless_panic r a' rest).0 ≡ still_open
            → PingsBehind cookie (unless_panic r a' rest).1.trace (unless_panic r a' all).1.trace
      go (ok x) = next
      go (err panic) = λ e. cc
      go (err _) = next

  pings_at :
      (between : List Message) (a : Agent)
      → a.cookie ≡ cookie
      → All (λ (m : Message). m.action ≢ set_cookie_action) between
      → PingsAt between a
  unfolding run_events
  pings_at [] a same others = λ is_open.
      subst (λ k. PingsBehind k a.trace (send_ping h a).trace) same (send_ping-PingsBehind h a)
  pings_at (m ∷ between) a same (other, others) =
      message-PingsAt m between a (
        pings_at between (handle_message h m a).1 (handle_message-cookie h m a other ∙ same) others)

-- The cookie that the server sets is in the runtime information of the next ping: whatever messages
-- come in between, builds among them, but for another setCookie, if they leave the connection open,
-- the tick behind them sends one message more, a ping with the cookie, made UTF-8.
pub ping_carries_cookie :
    (h : Host) (msg : Message) (between : List Message) (a : Agent)
    → msg.action ≡ set_cookie_action
    → All (λ (m : Message). m.action ≢ set_cookie_action) between
    → let es = received msg ∷ map received between in
      (run_events h es a).0 ≡ still_open
      → PingsBehind
          (data_string msg)
          (run_events h es a).1.trace
          (run_events h (es ++ ping_tick ∷ []) a).1.trace
ping_carries_cookie h msg between a is others = message-PingsAt h (data_string msg) msg between a (
    pings_at h (data_string msg) between (handle_message h msg a).1 (set_cookie_lem h msg a is)
      others)
