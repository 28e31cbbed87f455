-- ===== src/Registration/Certificates.antt =====
-- What a successful registration leaves behind: agent/internal/registration/registration.go.
use ex_gocd.Base.{◌≡◌, ◌≢◌, ◌⊎◌, true, List, [], ◌∷◌}
use ex_gocd.Text.{Text, codes}
use ex_gocd.Config.{Config, agent_private_key_file, agent_cert_file}
use ex_gocd.Registration.{World, Desk, Deed, posted, Task, exists}
use ex_gocd.Registration.Runs.{Runs}
use ex_gocd.Registration.Issued.{IsIssued}

-- The last thing done is no post.
abbrev pub IsUnposted : List Deed → Type 0
IsUnposted [] = ⊥
IsUnposted (posted url form ∷ ds) = ⊥
IsUnposted (_ ∷ ds) = Unit

-- Nothing was done, or something else than a post was done last.
abbrev IsFresh : Desk → Desk → Type 0
IsFresh s t = (t.deeds ≡ s.deeds) ⊎ IsUnposted t.deeds

-- The private key and the certificate are in their files: issued just now, or there before, without
-- a post that succeeded.
abbrev pub HasCertificates : World → Config → Desk → Desk → Type 0
HasCertificates w c s t =
    IsIssued w c t
    ⊎ ((exists (agent_private_key_file c) t ≡ true)
        × (exists (agent_cert_file c) t ≡ true)
        × IsFresh s t)

module _ (w : World) (c : Config) where
  module _ (no_http : c.server_url.scheme ≢ codes "http") where
    abbrev Attains : Task (Unit {0}) → Type 0
    Attains m = (s t : Desk) (x : Unit {0}) → Runs m s x t → HasCertificates w c s t

  -- What is done, if anything, is no post.
  abbrev IsFetch : Deed → Type 0
  IsFetch (posted url form) = ⊥
  IsFetch _ = Unit
