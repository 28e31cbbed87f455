-- ===== src/Program/Exits.antt =====
-- How the program ends.
use ex_gocd.Base.{
  is_positive, if_both, ℕ, ◌≡◌, ◌≢◌, refl, ap, subst, ok-injective, ◌⊎◌, inl, inr, Bool, true,
  false, none, some, List, [], ◌∷◌, All, Result, ok, err, arith,
}
use ex_gocd.Text.{Text}
use ex_gocd.Config.{Config, Environment, LoadError, load}
use ex_gocd.Registration.{World, Desk}
use ex_gocd.Connection.Dial.{Dial, dial}
use ex_gocd.Registration.Runs.{Runs, Runs-bind, Runs-give}
use ex_gocd.Agent.{Fault, panic, Host, Agent}
use ex_gocd.Agent.Messages.{handle_message, send_ping}
use ex_gocd.Agent.Session.{
  Event, context_done, ping_tick, receive_closed, received, Outcome, clean, lost, crashed,
  no_ticker, still_open, unless_panic, run_events, run_with_connection, Attempt, End, shut_down,
  died, ticker_refused, going_on, Journey, behind, rounds, next_delay, first_delay, start,
}
use ex_gocd.Program.{
  Attempts, status, panicked, running, Run, journey_of, exit_of, exit_of_end, new,
  register_and_start, run_start, run_loaded, run_agent,
}

-- No signal comes: the context is never done.
abbrev pub IsUnsignalled : Attempt → Type 0
IsUnsignalled t =
    (t.done_before ≡ false)
    × (t.done_after ≡ false)
    × (t.done_waiting ≡ false)
    × All (λ e. e ≢ context_done) t.events

module _ (h : Host) where
  unless_panic_unclean :
      (r : Result Fault (Unit {0})) (a : Agent) (rest : Outcome × Agent)
      → rest.0 ≢ clean
      → (unless_panic r a rest).0 ≢ clean
  unfolding unless_panic
  unless_panic_unclean (err panic) a rest k = λ e. cc
  unless_panic_unclean _ a rest k = k

  run_events_unclean :
      (es : List Event) (a : Agent) → All (λ e. e ≢ context_done) es → (run_events h es a).0 ≢ clean
  unfolding run_events
  run_events_unclean [] a u = λ e. cc
  run_events_unclean (context_done ∷ es) a (u, us) = absurd (u refl)
  run_events_unclean (ping_tick ∷ es) a (u, us) = run_events_unclean es (send_ping h a) us
  run_events_unclean (receive_closed ∷ es) a u = λ e. cc
  run_events_unclean (received m ∷ es) a (u, us) =
      unless_panic_unclean (handle_message h m a).0 _ _
        (run_events_unclean es (handle_message h m a).1 us)

  connection_unclean :
      (b : Bool) (es : List Event) (a : Agent)
      → All (λ e. e ≢ context_done) es
      → (run_with_connection h b es a).0 ≢ clean
  unfolding run_with_connection
  connection_unclean false es a u = λ e. cc
  connection_unclean true es a u =
      if_both (λ (r : Outcome × Agent). r.0 ≢ clean) (is_positive a.config.heartbeat_interval) _ _
        (run_events_unclean es _ u) (λ e. cc)

  behind_goes_on :
      (delay : ℕ) (t : Attempt) (o : Outcome) (a : Agent) (again : Journey)
      → IsUnsignalled t
      → o ≢ clean
      → again.stop ≢ shut_down
      → (behind delay t o a again).stop ≢ shut_down
  unfolding behind
  behind_goes_on delay t clean a again u o k = absurd (o refl)
  behind_goes_on delay t crashed a again u o k = λ e. cc
  behind_goes_on delay t no_ticker a again u o k = λ e. cc
  behind_goes_on delay t still_open a again u o k = λ e. cc
  behind_goes_on delay t lost a again (before, after, waiting, no_end) o k = ground arith

  rounds_go_on :
      (delay : ℕ) (ts : List Attempt) (a : Agent)
      → All IsUnsignalled ts
      → (rounds h delay ts a).stop ≢ shut_down
  unfolding rounds
  rounds_go_on delay [] a u = λ e. cc
  rounds_go_on delay (t ∷ ts) a ((before, after, waiting, no_end), us) =
      let (o, a') = run_with_connection h t.connects t.events a in
      let k =
        behind_goes_on delay t o a' (rounds h (next_delay delay) ts a')
          (before, after, waiting, no_end) (connection_unclean t.connects t.events a no_end)
          (rounds_go_on (next_delay delay) ts a' us) in
      ground (arith, before, k)

-- A session goes on or has panicked, or there is none and the status is 1.
abbrev pub IsNoShutdown : Run → Type 0
IsNoShutdown run =
    ((run.exit ≡ status 1) × (run.journey ≡ none))
    ⊎ ((j : Journey) × (run.journey ≡ some j)
        × (((run.exit ≡ running) × (j.stop ≡ going_on))
            ⊎ ((run.exit ≡ panicked) × ((j.stop ≡ died) ⊎ (j.stop ≡ ticker_refused)))))

exit_of_end_lem :
    (e : End)
    → e ≢ shut_down
    → ((exit_of_end e ≡ running) × (e ≡ going_on))
      ⊎ ((exit_of_end e ≡ panicked) × ((e ≡ died) ⊎ (e ≡ ticker_refused)))
unfolding exit_of_end
exit_of_end_lem shut_down n = absurd (n refl)
exit_of_end_lem died n = inr (refl, inl refl)
exit_of_end_lem ticker_refused n = inr (refl, inr refl)
exit_of_end_lem going_on n = inl (refl, refl)

module _ (w : World) (h : Host) (attempts : Attempts)
    (unsignalled : (d : Dial) → All IsUnsignalled (attempts d)) where
  register_and_start_goes_on :
      (a : Agent) (s t : Desk) (j : Journey)
      → Runs (register_and_start w h attempts a) s j t
      → j.stop ≢ shut_down
  unfolding register_and_start start
  register_and_start_goes_on a s t j e =
      let (x, s1, e1, f1) = Runs-bind _ _ e in
      let (tls, s2, e2, f2) = Runs-bind _ _ f1 in
      subst (λ (k : Journey). k.stop ≢ shut_down) (ok-injective (Runs-give _ f2).0)
        (rounds_go_on h first_delay (attempts (dial w.url_string a.config tls)) a
          (unsignalled (dial w.url_string a.config tls)))

  run_start-IsNoShutdown :
      (p : Result Text Agent × Desk) → IsNoShutdown (run_start w h false attempts p)
  unfolding run_start exit_of
  run_start-IsNoShutdown (err e, s) = inl (refl, refl)
  run_start-IsNoShutdown (ok a, s) = go (register_and_start w h attempts a s).0 refl
    where
      go :
          (r : Result Text Journey)
          → (register_and_start w h attempts a s).0 ≡ r
          → IsNoShutdown (record {
            exit = exit_of false r;
            journey = journey_of r;
            desk = (register_and_start w h attempts a s).1;
          })
      go (err e) at = inl (refl, refl)
      go (ok j) at = inr (
        j,
        refl,
        exit_of_end_lem j.stop (
            register_and_start_goes_on a s _ j
              (ap (λ r. (r, (register_and_start w h attempts a s).1)) at)),
      )

  run_loaded-IsNoShutdown :
      (new_id : Text) (s : Desk) (r : Result LoadError Config)
      → IsNoShutdown (run_loaded w h new_id false attempts s r)
  unfolding run_loaded
  run_loaded-IsNoShutdown new_id s (err x) = inl (refl, refl)
  run_loaded-IsNoShutdown new_id s (ok c) = run_start-IsNoShutdown (new w h new_id c s)

  -- Without a signal the program never ends well: either no session is run and the status is 1,
  -- because the configuration, the identifier, the registration or the TLS files failed; or the
  -- session goes on; or it has ended in a panic.
  pub run_agent-IsNoShutdown :
      (env : Environment) (new_id : Text) (s : Desk)
      → IsNoShutdown (run_agent w h env new_id false attempts s)
  unfolding run_agent
  run_agent-IsNoShutdown env new_id s = run_loaded-IsNoShutdown new_id s (load env)
