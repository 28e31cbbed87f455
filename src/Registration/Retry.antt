-- ===== src/Registration/Retry.antt =====
-- How often the agent tries to register, and how long it waits between the attempts.
use ex_gocd.Base.{
  ℕ, zero, suc, ◌+◌, ◌*◌, ◌^◌, ◌≤◌, ◌≡◌, refl, sym, ap, ◌∙◌, subst, Bool, true, false, ◌&&◌, some,
  List, [], ◌∷◌, ◌++◌, append_assoc, arith, Result, ok, err, if◌then◌else◌, ltb, if_both,
}
use ex_gocd.Text.{Text, codes, ◌==◌}
use ex_gocd.Config.{Config, agent_private_key_file, agent_cert_file}
use ex_gocd.Registration.{
  World, Desk, Deed, posted, waited, Task, ◌>>=◌, wrapped, give, exists, read_file, write_file,
  if_ok, submit, is_pending, base_delay,
}
use ex_gocd.Registration.Flow.{
  accept, submit_token, behind, attempts, register_with_retry, register_and_get_certs,
  register_http, register_and_download_certs, not_empty,
}

-- The delays waited, the latest first.
abbrev pub waits : List Deed → List ℕ
waits [] = []
waits (waited delay ∷ deeds) = delay ∷ waits deeds
waits (_ ∷ deeds) = waits deeds

-- The forms posted.
abbrev pub posts : List Deed → ℕ
posts [] = 0
posts (posted url form ∷ deeds) = suc (posts deeds)
posts (_ ∷ deeds) = posts deeds

-- At most so many forms were posted meanwhile, and nothing was waited.
abbrev Spent : ℕ → Desk → Desk → Type 0
Spent n s t = (waits t.deeds ≡ waits s.deeds) × (posts t.deeds ≤ posts s.deeds + n)

abbrev Spends : ℕ → {A : Type 0} → Task A → Type 0
Spends n {A} m = (s : Desk) → Spent n s (m s).1

Spends-bind :
    {A B : Type 0} (n k : ℕ) (m : Task A) (f : A → Task B)
    → Spends n m
    → ((x : A) → Spends k (f x))
    → Spends (n + k) (m >>= f)
unfolding ◌>>=◌
Spends-bind {A} {B} n k m f g l s = go (m s).0
  where
    go :
        (r : Result Text A)
        → Spent
            (n + k)
            s
            (elim r as (λ _. Result Text B × Desk) [
              | ok x ↦ f x (m s).1
              | err e ↦ (err e, (m s).1)
            ]).1
    go (ok x) = let (w, p) = g s in let (w', p') = l x (m s).1 in (w' ∙ w, omega arith)
    go (err e) = let (w, p) = g s in (w, omega arith)

Spends-wrapped :
    {A : Type 0} (n : ℕ) (what : Text) (m : Task A) → Spends n m → Spends n (wrapped what m)
unfolding wrapped
Spends-wrapped n what m g s = g s

Spends-give : {A : Type 0} (r : Result Text A) → Spends 0 (give r)
unfolding give
Spends-give r s = (refl, omega arith)

Spends-read_file : (path : Text) → Spends 0 (read_file path)
unfolding read_file
Spends-read_file path s = (refl, omega arith)

module _ (w : World) where
  Spends-write_file : (path content : Text) → Spends 0 (write_file w path content)
  unfolding write_file
  Spends-write_file path content s = go (w.may_write s.deeds path)
    where
      go :
          (r : Result Text (Unit {0}))
          → Spent 0 s
              (if_ok r (record s { files = λ p. if p == path then some content else s.files p }) s)
      go (ok x) = (refl, omega arith)
      go (err e) = (refl, omega arith)

  Spends-submit : (url : Text) (form : List (Text × Text)) → Spends 1 (submit w url form)
  unfolding submit
  Spends-submit url form s = (refl, omega arith)

  module _ (c : Config) where
    Spends-submit_token : Spends 1 (submit_token w c)
    unfolding submit_token accept
    Spends-submit_token = Spends-bind 0 1 _ _ (Spends-wrapped 0 _ _ (Spends-read_file _)) λ token.
        Spends-bind 1 0 _ _ (Spends-wrapped 1 _ _ (Spends-submit _ _))
          λ reply. Spends-bind 0 0 _ _ (Spends-give _) λ _. Spends-give _

    Spends-not_empty : (message text : Text) → Spends 0 (not_empty w c message text)
    unfolding not_empty
    Spends-not_empty message text = Spends-give _

    Spends-register_and_download_certs : Spends 1 (register_and_download_certs w c)
    unfolding register_and_download_certs
    Spends-register_and_download_certs = Spends-bind 1 0 _ _ Spends-submit_token λ reply.
        Spends-bind 0 0 _ _ (Spends-wrapped 0 _ _ (Spends-give _)) λ body.
          Spends-bind 0 0 _ _ (Spends-not_empty _ _) λ _.
            Spends-bind 0 0 _ _ (Spends-wrapped 0 _ _ (Spends-give _)) λ pair.
              Spends-bind 0 0 _ _ (Spends-not_empty _ _) λ _.
                Spends-bind 0 0 _ _ (Spends-wrapped 0 _ _ (Spends-write_file _ _))
                  λ _. Spends-wrapped 0 _ _ (Spends-write_file _ _)

    Spends-register_http : Spends 1 (register_http w c)
    unfolding register_http
    Spends-register_http = Spends-bind 1 0 _ _ Spends-submit_token λ reply. Spends-give _

    Spends-register_and_get_certs : Spends 1 (register_and_get_certs w c)
    unfolding register_and_get_certs
    Spends-register_and_get_certs s =
        if_both (λ (r : Result Text (Unit {0}) × Desk). Spent 1 s r.1)
          (c.server_url.scheme == codes "http") _ _ (Spends-register_http s)
          (if_both (λ (r : Result Text (Unit {0}) × Desk). Spent 1 s r.1)
            (exists (agent_private_key_file c) s && exists (agent_cert_file c) s) _ _
            (refl, omega arith) (Spends-register_and_download_certs s))

-- The first delays from an attempt on, the latest first: 2 s, 4 s, 8 s and so on.
abbrev pub backoff : ℕ → ℕ → List ℕ
backoff attempt zero = []
backoff attempt (suc n) = backoff (suc attempt) n ++ base_delay * 2 ^ attempt ∷ []

-- At most so many retries, each after its delay.
abbrev pub Retries : ℕ → ℕ → Desk → Desk → Type 0
Retries left attempt s t =
    (n : ℕ) × (n ≤ left)
    × (waits t.deeds ≡ backoff attempt n ++ waits s.deeds)
    × (posts t.deeds ≤ posts s.deeds + suc n)

module _ (w : World) (c : Config) where
  no_retry : (left attempt : ℕ) (s t : Desk) → Spent 1 s t → Retries left attempt s t
  no_retry left attempt s t (same, few) = (0, omega arith, same, few)

  behind-Retries :
      (left attempt : ℕ) (s : Desk) (r : Result Text (Unit {0}) × Desk) (again : Task (Unit {0}))
      → Spent 1 s r.1
      → ((t : Desk) → Retries left (suc attempt) t (again t).1)
      → Retries (suc left) attempt s (behind w c (suc left) attempt r again).1
  unfolding behind
  behind-Retries left attempt s (ok x, t) again spent g = no_retry (suc left) attempt s t spent
  behind-Retries left attempt s (err e, t) again spent g = go (is_pending e && ltb 0 (suc left))
    where
      retry : Desk
      retry = record t { deeds = waited (base_delay * 2 ^ attempt) ∷ t.deeds }

      go : (b : Bool) → Retries (suc left) attempt s (if b then again retry else (err e, t)).1
      go true =
          let (n, few, waits_again, posts_again) = g retry in
          (
            suc n,
            omega arith,
            waits_again
                ∙ ap (λ l. backoff (suc attempt) n ++ base_delay * 2 ^ attempt ∷ l) spent.0
                ∙ sym (
                    append_assoc (backoff (suc attempt) n) (base_delay * 2 ^ attempt ∷ [])
                      (waits s.deeds)),
            omega (arith, spent.1),
          )
      go false = no_retry (suc left) attempt s t spent

  last-Retries :
      (attempt : ℕ) (s : Desk) (r : Result Text (Unit {0}) × Desk)
      → Spent 1 s r.1
      → Retries 0 attempt s (behind w c 0 attempt r (give (ok tt))).1
  unfolding behind give
  last-Retries attempt s (ok x, t) spent = no_retry 0 attempt s t spent
  last-Retries attempt s (err e, t) spent =
      subst (λ b. Retries 0 attempt s (ended b).1) no_more (no_retry 0 attempt s t spent)
    where
      ended : Bool → Result Text (Unit {0}) × Desk
      ended b =
          if b
          then (ok tt, record t { deeds = waited (base_delay * 2 ^ attempt) ∷ t.deeds })
          else (err e, t)

      no_more : false ≡ (is_pending e && ltb 0 0)
      no_more = ground arith

  attempts-Retries :
      (left attempt : ℕ) (s : Desk) → Retries left attempt s (attempts w c left attempt s).1
  unfolding attempts
  attempts-Retries zero attempt s =
      last-Retries attempt s (register_and_get_certs w c s) (Spends-register_and_get_certs w c s)
  attempts-Retries (suc left) attempt s =
      behind-Retries left attempt s (register_and_get_certs w c s) (attempts w c left (suc attempt))
        (Spends-register_and_get_certs w c s) (λ t. attempts-Retries left (suc attempt) t)

  -- The agent waits n times before it gives up or succeeds, n at most 4, and the delays are the
  -- first n of 2 s, 4 s, 8 s and 16 s; it posts its registration at most n + 1 times.
  pub register_with_retry-Retries : (s : Desk) → Retries 4 0 s (register_with_retry w c s).1
  unfolding register_with_retry
  register_with_retry-Retries s =
      if_both (λ (m : Task (Unit {0})). Retries 4 0 s (m s).1) (c.server_url.scheme == codes "http")
        _ _ (no_retry 4 0 s (register_and_get_certs w c s).1 (Spends-register_and_get_certs w c s))
        (attempts-Retries 4 0 s)
