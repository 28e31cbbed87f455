-- ===== src/Registration/Asks.antt =====
-- Which requests the registration makes.
use ex_gocd.Base.{◌≡◌, ◌⊎◌}
use ex_gocd.Text.{Text}
use ex_gocd.Config.{Config, registration_url, token_url}
use ex_gocd.Registration.{World, Desk, Deed, registrar, for_ca, got, posted, waited}
use ex_gocd.Registration.Deeds.{DoesMore, ca_url}
use ex_gocd.Registration.Flow.{registration_data}

-- The CA is fetched with a client of its own, the token with the registrar's, and the registration's
-- data is posted, all at the server's own addresses.
abbrev pub IsAsked : World → Config → Deed → Type 0
IsAsked w c (got client url) =
    ((client ≡ for_ca c.insecure_skip_verify) × (url ≡ ca_url w c))
    ⊎ ((client ≡ registrar) × (url ≡ token_url w.url_string c))
IsAsked w c (posted url form) =
    (url ≡ registration_url w.url_string c)
    × ((token : Text) × (form ≡ registration_data w c token))
IsAsked w c (waited delay) = Unit

-- The deeds in between are such requests, or waits.
abbrev pub AsksMore : World → Config → Desk → Desk → Type 0
AsksMore w c s t = DoesMore (IsAsked w c) s t
