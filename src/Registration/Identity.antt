-- ===== src/Registration/Identity.antt =====
-- The agent's identifier.
use ex_gocd.Base.{◌≡◌, refl, sym, ap, ◌∙◌, Option, none, some, arith, Result, ok, err}
use ex_gocd.Text.{Text, codes}
use ex_gocd.Text.Laws.{==_refl}
use ex_gocd.Config.{Config, uuid_file}
use ex_gocd.Registration.{World, Desk, ◌>>=◌, give, wrapped, wrap, write_file, put, if_ok}
use ex_gocd.Registration.Flow.{use_uuid, load_or_generate_uuid}

module _ (w : World) (c : Config) where
  -- The file then holds the identifier.
  stored :
      (new : Text) (o : Option Text) (s : Desk) (c' : Config)
      → s.files (uuid_file c) ≡ o
      → (use_uuid w c new o s).0 ≡ ok c'
      → (uuid : Text) × (c' ≡ record c { uuid = uuid })
        × ((use_uuid w c new o s).1.files (uuid_file c) ≡ some uuid)
  unfolding use_uuid ◌>>=◌ give wrapped write_file
  stored new (some uuid) s c' at e = (uuid, ground arith, at)
  stored new none s c' at e = go (w.may_write s.deeds (uuid_file c)) e
    where
      told : Result Text (Unit {0}) → Result Text Config × Desk
      told r =
          elim (wrap (codes "failed to write UUID file: ") r) as (λ _. Result Text Config × Desk) [
            | ok x ↦ (ok (record c { uuid = new }), if_ok r (put (uuid_file c) new s) s)
            | err f ↦ (err f, if_ok r (put (uuid_file c) new s) s)
          ]

      go :
          (r : Result Text (Unit {0}))
          → (told r).0 ≡ ok c'
          → (uuid : Text) × (c' ≡ record c { uuid = uuid })
            × ((told r).1.files (uuid_file c) ≡ some uuid)
      go (ok x) e = (new, ground arith, rw (==_refl (uuid_file c)))
      go (err f) e = cc

  read_back :
      (new uuid : Text) (s : Desk)
      → s.files (uuid_file c) ≡ some uuid
      → (load_or_generate_uuid w c new s).0 ≡ ok (record c { uuid = uuid })
  unfolding load_or_generate_uuid use_uuid give
  read_back new uuid s at = rw at

  -- Once the agent has an identifier, it gets the same one again at its next start.
  pub load_or_generate_uuid-again :
      (new newer : Text) (s : Desk) (c' : Config)
      → (load_or_generate_uuid w c new s).0 ≡ ok c'
      → (load_or_generate_uuid w c newer (load_or_generate_uuid w c new s).1).0 ≡ ok c'
  load_or_generate_uuid-again new newer s c' e =
      let (uuid, same, there) =
        stored new (s.files (uuid_file c)) s c' refl (unfold load_or_generate_uuid in e) in
      read_back newer uuid (load_or_generate_uuid w c new s).1
        (unfold load_or_generate_uuid in there)
      ∙ ap ok (sym same)
