-- ===== src/Registration/Issued.antt =====
-- What `registerAndDownloadCerts` of agent/internal/registration/registration.go leaves behind.
use ex_gocd.Base.{
  ◌≡◌, ◌≢◌, refl, sym, ap, ◌∙◌, subst, ◌⊎◌, inl, inr, arith, List, [], ◌∷◌, some, Result, ok, err,
  ok-injective,
}
use ex_gocd.Text.{Text}
use ex_gocd.Text.Laws.{==_iff, ==_refl}
use ex_gocd.Protocol.{Registration}
use ex_gocd.Config.{Config, agent_private_key_file, agent_cert_file}
use ex_gocd.Config.Files.{agent_private_key_file-ne-agent_cert_file}
use ex_gocd.Registration.{World, Desk, Deed, posted, Form, Reply, put, if_ok, write_file, submit}
use ex_gocd.Registration.Runs.{Runs, Runs-bind, Runs-give, Runs-wrapped}
use ex_gocd.Registration.Flow.{
  accept, submit_token, not_empty, decode_registration, register_and_download_certs,
}

-- The last thing done is a post of the registration, which the server answered with 200 and a
-- private key and a certificate; the files hold them.
pub record IsIssued (w : World) (c : Config) (t : Desk) : Type 0 where
  pub url : Text
  pub form : Form
  pub before : List Deed
  pub reply : Reply
  pub body : Text
  pub registration : Registration
  pub asked : t.deeds ≡ posted url form ∷ before
  pub answered : w.post before url form ≡ ok reply
  pub accepted : reply.status ≡ 200
  pub received : reply.body ≡ ok body
  pub decoded : decode_registration w c body ≡ ok registration
  pub certified : registration.agent_certificate ≢ []
  pub certificate : t.files (agent_cert_file c) ≡ some registration.agent_certificate
  pub key : t.files (agent_private_key_file c) ≡ some registration.agent_private_key

module _ (w : World) where
  -- A write that succeeds.
  record IsWritten (path content : Text) (s t : Desk) : Type 0 where
    there : t.files path ≡ some content
    elsewhere : (p : Text) → (p ≡ path) ⊎ (t.files p ≡ s.files p)
    quiet : t.deeds ≡ s.deeds

  put-IsWritten : (path content : Text) (s : Desk) → IsWritten path content s (put path content s)
  put-IsWritten path content s = record {
    there = ground (arith, ==_refl path);
    elsewhere = λ p. ground (arith, ==_iff p path);
    quiet = refl;
  }

  write_file-IsWritten :
      (path content : Text) {s t : Desk} {x : Unit {0}}
      → Runs (write_file w path content) s x t
      → IsWritten path content s t
  unfolding write_file
  write_file-IsWritten path content {s} {t} {x} e =
      go (w.may_write s.deeds path) (ap (λ p. p.0) e) (ap (λ p. p.1) e)
    where
      go :
          (r : Result Text (Unit {0}))
          → r ≡ ok x
          → if_ok r (put path content s) s ≡ t
          → IsWritten path content s t
      go (ok y) e f = subst (λ d. IsWritten path content s d) f (put-IsWritten path content s)
      go (err y) e f = cc

module _ (w : World) (c : Config) where
  -- A reply that is accepted answers the last thing done, a post.
  record IsAnswered (reply : Reply) (t : Desk) : Type 0 where
    url : Text
    form : Form
    before : List Deed
    asked : t.deeds ≡ posted url form ∷ before
    answered : w.post before url form ≡ ok reply
    accepted : reply.status ≡ 200

  submit_token-IsAnswered :
      (s : Desk) {t : Desk} {reply : Reply} → Runs (submit_token w c) s reply t → IsAnswered reply t
  unfolding submit_token submit accept
  submit_token-IsAnswered s {t} {reply} e =
      let (token, s1, _, f1) = Runs-bind _ _ e in
      let (first, s2, e2, f2) = Runs-bind _ _ f1 in
      let (_, s3, e3, f3) = Runs-bind _ _ f2 in
      let sent = Runs-wrapped _ _ e2 in
      let (told, same) = Runs-give _ e3 in
      let (given, same') = Runs-give _ f3 in
      let is_reply : first ≡ reply = ok-injective given in
      record {
        url = _;
        form = _;
        before = s1.deeds;
        asked = ap (λ (d : Desk). d.deeds) (sym (ap (λ p. p.1) sent ∙ same ∙ same'));
        answered = ap (λ p. p.0) sent ∙ ap ok is_reply;
        accepted = ap (λ (r : Reply). r.status) (sym is_reply) ∙ ground arith;
      }

  not_empty_lem :
      (message text : Text) {s t : Desk} {x : Unit {0}}
      → Runs (not_empty w c message text) s x t
      → (text ≢ []) × (s ≡ t)
  unfolding not_empty
  not_empty_lem message text e =
      let (told, same) = Runs-give _ e in (ground (arith, ==_iff text []), same)

  pub register_and_download_certs-IsIssued :
      (s : Desk) {t : Desk} {x : Unit {0}}
      → Runs (register_and_download_certs w c) s x t
      → IsIssued w c t
  unfolding register_and_download_certs
  register_and_download_certs-IsIssued s {t} {x} e =
      let (reply, s1, e1, f1) = Runs-bind _ _ e in
      let (body, s2, e2, f2) = Runs-bind _ _ f1 in
      let (_, s3, e3, f3) = Runs-bind _ _ f2 in
      let (registration, s4, e4, f4) = Runs-bind _ _ f3 in
      let (_, s5, e5, f5) = Runs-bind _ _ f4 in
      let (_, s6, e6, f6) = Runs-bind _ _ f5 in
      let a = submit_token-IsAnswered s e1 in
      let (received, same2) = Runs-give _ (Runs-wrapped _ _ e2) in
      let (_, same3) = not_empty_lem _ _ e3 in
      let (decoded, same4) = Runs-give _ (Runs-wrapped _ _ e4) in
      let (certified, same5) = not_empty_lem _ _ e5 in
      let key = write_file-IsWritten w _ _ (Runs-wrapped _ _ e6) in
      let cert = write_file-IsWritten w _ _ (Runs-wrapped _ _ f6) in
      record {
        url = a.url;
        form = a.form;
        before = a.before;
        reply = reply;
        body = body;
        registration = registration;
        asked =
            cert.quiet
            ∙ key.quiet
            ∙ ap (λ (d : Desk). d.deeds) (sym (same2 ∙ same3 ∙ same4 ∙ same5))
            ∙ a.asked;
        answered = a.answered;
        accepted = a.accepted;
        received = received;
        decoded = decoded;
        certified = certified;
        certificate = cert.there;
        key = elim (cert.elsewhere (agent_private_key_file c)) [
          | inl same ↦ absurd (agent_private_key_file-ne-agent_cert_file c same)
          | inr same ↦ same ∙ key.there
        ];
      }
