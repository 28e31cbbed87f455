-- ===== src/Config/Files.antt =====
-- A joined path ends in the name that was joined, so the private key's and the certificate's files of
-- agent/internal/config/config.go are two.
use ex_gocd.Base.{
  ◌≡◌, ◌≢◌, refl, sym, ap, ◌∙◌, Bool, true, false, List, [], ◌∷◌, ◌++◌, append_assoc, arith, drop,
  eqb, reverse, ℕ, if◌then◌else◌,
}
use mathlib.Core.List.{reverse-append, reverse-cons}
use ex_gocd.Text.{Text, codes, split, join, grow}
use ex_gocd.Text.Laws.{Lacks, split_of_Lacks}
use ex_gocd.FilePath.{slash, resolve, resolve_all, render, clean, path_join, is_abs}
use ex_gocd.FilePath.Laws.{IsName, resolve_of_IsName}
use ex_gocd.Config.{Config, agent_private_key_file, agent_cert_file}

abbrev head_or : Text → ℕ
head_or [] = 0
head_or (c ∷ t) = c

module _ (b : Text) where
  split-last :
      (s : Text)
      → Lacks slash b
      → (p : Text) × (ps : List Text) × (split slash (s ++ slash ∷ b) ≡ p ∷ (ps ++ b ∷ []))
  unfolding split
  split-last [] h = ([], [], ap (λ l. [] ∷ l) (split_of_Lacks slash b h))
  split-last (c ∷ s) h = let (p, ps, e) = split-last s h in go (eqb c slash) p ps e
    where
      go :
          (same : Bool) (p : Text) (ps : List Text)
          → split slash (s ++ slash ∷ b) ≡ p ∷ (ps ++ b ∷ [])
          → (p' : Text) × (ps' : List Text) × ((if same
                then [] ∷ split slash (s ++ slash ∷ b)
                else grow c (split slash (s ++ slash ∷ b)))
              ≡ p' ∷ (ps' ++ b ∷ []))
      go true p ps e = ([], p ∷ ps, ap (λ l. [] ∷ l) e)
      go false p ps e = (c ∷ p, ps, ap (λ l. grow c l) e)

  resolve_all-last :
      (rooted : Bool) (stack ps : List Text)
      → IsName b
      → (qs : List Text) × (resolve_all rooted stack (ps ++ b ∷ []) ≡ qs ++ b ∷ [])
  unfolding resolve_all
  resolve_all-last rooted stack [] h =
      (reverse stack, ap reverse (resolve_of_IsName rooted stack b h) ∙ reverse-cons b stack)
  resolve_all-last rooted stack (p ∷ ps) h = resolve_all-last rooted (resolve rooted stack p) ps h

  join-last : (qs : List Text) → (front : Text) × (join slash (qs ++ b ∷ []) ≡ front ++ b)
  unfolding join
  join-last [] = ([], refl)
  join-last (q ∷ []) = (q ++ slash ∷ [], sym (append_assoc q (slash ∷ []) b))
  join-last (q ∷ r ∷ qs) =
      let (front, e) = join-last (r ∷ qs) in
      (q ++ slash ∷ front, ap (λ l. q ++ slash ∷ l) e ∙ sym (append_assoc q (slash ∷ front) b))

  render-last :
      (rooted : Bool) (qs : List Text)
      → (front : Text) × (render rooted (qs ++ b ∷ []) ≡ front ++ b)
  unfolding render
  render-last true qs = let (front, e) = join-last qs in (slash ∷ front, ap (λ l. slash ∷ l) e)
  render-last false [] = join-last []
  render-last false (q ∷ qs) = join-last (q ∷ qs)

  clean-last :
      (p : Text) (ps : List Text)
      → IsName b
      → split slash p ≡ ps ++ b ∷ []
      → (front : Text) × (clean p ≡ front ++ b)
  unfolding clean
  clean-last p ps h e =
      let (qs, f) = resolve_all-last (is_abs p) [] ps h in
      let (front, g) = render-last (is_abs p) qs in
      (
        front,
        ap (λ l. render (is_abs p) (resolve_all (is_abs p) [] l)) e ∙ ap (render (is_abs p)) f ∙ g,
      )

  path_join-last : (d : Text) → IsName b → (front : Text) × (path_join d b ≡ front ++ b)
  unfolding path_join
  path_join-last [] h = of_empty b refl
    where
      of_empty : (c : Text) → b ≡ c → (front : Text) × (path_join [] c ≡ front ++ b)
      of_empty [] e = absurd (h.0 e)
      of_empty (x ∷ c) e =
          let (front, f) = clean-last b [] h (split_of_Lacks slash b h.3) in
          (front, ap clean (sym e) ∙ f)
  path_join-last (c ∷ d) h =
      let (p, ps, e) = split-last (c ∷ d) h.3 in clean-last ((c ∷ d) ++ slash ∷ b) (p ∷ ps) h e

abbrev key_name : Text
key_name = codes "agent-private-key.pem"

abbrev cert_name : Text
cert_name = codes "agent-cert.pem"

key_name-IsName : IsName key_name
key_name-IsName = ((λ e. cc), (λ e. cc), (λ e. cc), ground arith)

cert_name-IsName : IsName cert_name
cert_name-IsName = ((λ e. cc), (λ e. cc), (λ e. cc), ground arith)

abbrev fifth_last : Text → ℕ
fifth_last t = head_or (drop 4 (reverse t))

ends_differ : (f g : Text) → f ++ key_name ≢ g ++ cert_name
ends_differ f g e = absurd (omega (arith, fifth))
  where
    fifth : head_or (b'y' ∷ []) ≡ head_or (b't' ∷ [])
    fifth =
        ap (λ t. head_or (drop 4 t)) (sym (reverse-append f key_name))
        ∙ ap fifth_last e
        ∙ ap (λ t. head_or (drop 4 t)) (reverse-append g cert_name)

-- The private key and the certificate have files of their own.
pub agent_private_key_file-ne-agent_cert_file :
    (c : Config) → agent_private_key_file c ≢ agent_cert_file c
unfolding agent_private_key_file agent_cert_file
agent_private_key_file-ne-agent_cert_file c e =
    let (f, at_key) = path_join-last key_name c.config_dir key_name-IsName in
    let (g, at_cert) = path_join-last cert_name c.config_dir cert_name-IsName in
    ends_differ f g (sym at_key ∙ e ∙ at_cert)
