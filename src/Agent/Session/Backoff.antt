-- ===== src/Agent/Session/Backoff.antt =====
-- The delays between the attempts to connect.
use ex_gocd.Base.{
  ℕ, suc, ◌+◌, ◌*◌, ◌^◌, min, ◌≡◌, refl, sym, ap, ◌∙◌, subst, false, ◌||◌, List, [], ◌∷◌, All,
  arith, length, if_both,
}
use native.Mathlib.Nat.{pow-suc}
use native.Mathlib.Numerals.{add-one}
use ex_gocd.Agent.{Host, Agent}
use ex_gocd.Agent.Session.{
  Outcome, clean, lost, crashed, no_ticker, still_open, run_with_connection, Attempt, going_on,
  Journey, behind, rounds, start, next_delay, first_delay, max_retry_delay, second,
}

-- The delay behind the k-th lost connection, counted from 0: 2 s, 4 s, … and at most 60 s.
abbrev pub scheduled : ℕ → ℕ
scheduled k = min (2 ^ (k + 1) * second) max_retry_delay

-- The delays are those of the schedule from its k-th entry on.
abbrev pub Follows : ℕ → List ℕ → Type 0
Follows k [] = Unit
Follows k (d ∷ ds) = (d ≡ scheduled k) × Follows (suc k) ds

doubled : (k : ℕ) → 2 ^ (suc k + 1) ≡ 2 ^ (k + 1) * 2
doubled k = rw (add-one, add-one, pow-suc)

next_delay-scheduled : (k : ℕ) → next_delay (scheduled k) ≡ scheduled (suc k)
unfolding next_delay
next_delay-scheduled k = ground (arith, doubled k)

behind-Follows :
    (k : ℕ) (t : Attempt) (o : Outcome) (a : Agent) (again : Journey)
    → Follows (suc k) again.delays
    → Follows k (behind (scheduled k) t o a again).delays
unfolding behind
behind-Follows k t clean a again f = tt
behind-Follows k t crashed a again f = tt
behind-Follows k t no_ticker a again f = tt
behind-Follows k t still_open a again f = tt
behind-Follows k t lost a again f =
    if_both (λ (j : Journey). Follows k j.delays) (t.done_after || t.done_waiting) _ _ tt (refl, f)

rounds-Follows :
    (h : Host) (k : ℕ) (ts : List Attempt) (a : Agent)
    → Follows k (rounds h (scheduled k) ts a).delays
unfolding rounds
rounds-Follows h k [] a = tt
rounds-Follows h k (t ∷ ts) a =
    if_both (λ (j : Journey). Follows k j.delays) t.done_before _ _ tt
      (behind-Follows k t _ _ _ (
        subst
          (λ d.
            Follows (suc k) (rounds h d ts (run_with_connection h t.connects t.events a).1).delays)
          (sym (next_delay-scheduled k))
          (rounds-Follows h (suc k) ts (run_with_connection h t.connects t.events a).1)))

-- The delays waited are 2 s, 4 s, 8 s and so on, doubled each time and capped at 60 s.
pub start-Follows : (h : Host) (ts : List Attempt) (a : Agent) → Follows 0 (start h ts a).delays
unfolding start
start-Follows h ts a = rounds-Follows h 0 ts a

-- A server that cannot be reached, with no request to stop.
abbrev pub IsRefused : Attempt → Type 0
IsRefused t =
    (t.done_before ≡ false)
    × (t.connects ≡ false)
    × (t.done_after ≡ false)
    × (t.done_waiting ≡ false)

refused_round :
    (h : Host) (delay : ℕ) (t : Attempt) (ts : List Attempt) (a : Agent)
    → IsRefused t
    → let again = rounds h (next_delay delay) ts a in
      rounds h delay (t ∷ ts) a ≡ record again { delays = delay ∷ again.delays }
unfolding rounds behind run_with_connection
refused_round h delay t ts a (before, connects, after, waiting) =
    rw (before, connects, after, waiting)

rounds-refused :
    (h : Host) (delay : ℕ) (ts : List Attempt) (a : Agent)
    → All IsRefused ts
    → ((rounds h delay ts a).stop ≡ going_on)
      × (length (rounds h delay ts a).delays ≡ length ts)
      × ((rounds h delay ts a).agent ≡ a)
unfolding rounds
rounds-refused h delay [] a r = (refl, refl, refl)
rounds-refused h delay (t ∷ ts) a (r, rs) =
    let (stop, waits, same) = rounds-refused h (next_delay delay) ts a rs in
    let round = refused_round h delay t ts a r in
    (
      ap (λ (j : Journey). j.stop) round ∙ stop,
      ap (λ (j : Journey). length j.delays) round ∙ ap suc waits,
      ap (λ (j : Journey). j.agent) round ∙ same,
    )

-- While the server refuses every connection, the agent does not give up: it waits behind each
-- attempt and stays as it is.
pub start_of_refused :
    (h : Host) (ts : List Attempt) (a : Agent)
    → All IsRefused ts
    → ((start h ts a).stop ≡ going_on)
      × (length (start h ts a).delays ≡ length ts)
      × ((start h ts a).agent ≡ a)
unfolding start
start_of_refused h ts a r = rounds-refused h first_delay ts a r
