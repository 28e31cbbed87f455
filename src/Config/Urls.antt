-- ===== src/Config/Urls.antt =====
-- The URL of the agent's WebSocket.
use ex_gocd.Base.{
  ◌≡◌, refl, ap, ◌∙◌, ◌-◌, true, false, [], ◌∷◌, ◌++◌, arith, leb, length, take, drop-append,
  length-append, append_assoc,
}
use ex_gocd.Text.{Text, codes, ◌==◌, has_suffix, trim_suffix}
use ex_gocd.Text.Laws.{==_refl}
use ex_gocd.FilePath.{slash}
use ex_gocd.Config.{go_suffix, web_socket_path}

take-append : (s t : Text) → take (length s) (s ++ t) ≡ s
take-append [] t = refl
take-append (c ∷ s) t = ap (λ r. c ∷ r) (take-append s t)

length_front : (s t : Text) → length (s ++ t) - length t ≡ length s
length_front s t = omega (arith, length-append {0} s t)

has_room : (s t : Text) → leb (length t) (length (s ++ t)) ≡ true
has_room s t = ground (arith, length-append s t)

-- The end of a text, compared with a text of the same length.
has_suffix-same_length : (s t u : Text) → length u ≡ length t → has_suffix (s ++ t) u ≡ (t == u)
unfolding has_suffix
has_suffix-same_length s t u e = rw (e, has_room s t, length_front s t, drop-append s t)

has_suffix-append : (s t : Text) → has_suffix (s ++ t) t ≡ true
has_suffix-append s t = has_suffix-same_length s t t refl ∙ ==_refl t

-- `TrimSuffix` takes a suffix away that is there.
trim_suffix-append : (s t : Text) → trim_suffix (s ++ t) t ≡ s
unfolding trim_suffix
trim_suffix-append s t = rw (has_suffix-append s t, length_front s t) (take-append s t)

trim_suffix_absent : (s t : Text) → has_suffix s t ≡ false → trim_suffix s t ≡ s
unfolding trim_suffix
trim_suffix_absent s t h = rw h

-- A slash at the end of the server's path makes no difference to the path of the WebSocket.
pub web_socket_path-slash :
    (path : Text)
    → has_suffix path (slash ∷ []) ≡ false
    → web_socket_path (path ++ slash ∷ []) ≡ web_socket_path path
unfolding web_socket_path
web_socket_path-slash path h =
    rw (trim_suffix-append path (slash ∷ []), trim_suffix_absent path (slash ∷ []) h)

ends_in_o : (front : Text) → has_suffix (front ++ go_suffix) (slash ∷ []) ≡ false
unfolding ◌==◌
ends_in_o front =
    rw (← append_assoc front (b'/' ∷ b'g' ∷ []) (b'o' ∷ []))
      (has_suffix-same_length (front ++ b'/' ∷ b'g' ∷ []) (b'o' ∷ []) (slash ∷ []) refl)

web_socket_path_of_go :
    (front : Text)
    → web_socket_path (front ++ go_suffix) ≡ (front ++ go_suffix) ++ codes "/agent-websocket"
unfolding web_socket_path
web_socket_path_of_go front =
    rw
      (
        trim_suffix_absent (front ++ go_suffix) (slash ∷ []) (ends_in_o front),
        has_suffix-append front go_suffix,
      )
      (ground arith)

-- A server whose path ends in "/go", with or without a slash behind it, is the original one: its
-- socket is at "/agent-websocket".
pub web_socket_path_go :
    (front : Text)
    → (web_socket_path (front ++ go_suffix) ≡ (front ++ go_suffix) ++ codes "/agent-websocket")
      × (web_socket_path ((front ++ go_suffix) ++ slash ∷ [])
          ≡ (front ++ go_suffix) ++ codes "/agent-websocket")
web_socket_path_go front =
    let plain = web_socket_path_of_go front in
    (plain, web_socket_path-slash (front ++ go_suffix) (ends_in_o front) ∙ plain)
