-- ===== src/Text/Utf8.antt =====
-- What `encoding/json` writes of a Go string: a byte that begins no UTF-8 encoding becomes the
-- replacement character, U+FFFD (agent/pkg/protocol/websocket.go hands every string to it).
use ex_gocd.Base.{
  ℕ, zero, suc, ◌-◌, Bool, true, false, ◌&&◌, [], ◌∷◌, ◌++◌, eqb, leb, if◌then◌else◌,
}
use ex_gocd.Text.{Text}

abbrev between : ℕ → ℕ → ℕ → Bool
between lo hi b = leb lo b && leb b hi

-- The number of bytes that a first byte asks for, 0 if it is none.
abbrev size : ℕ → ℕ
size b =
    if leb b 127
    then 1
    else if between 194 223 b
    then 2
    else if between 224 239 b
    then 3
    else if between 240 244 b
    then 4
    else 0

-- The bounds of the second byte keep out overlong forms, surrogates and what is above U+10FFFF.
abbrev lowest : ℕ → ℕ
lowest b = if eqb b 224 then 160 else if eqb b 240 then 144 else 128

abbrev highest : ℕ → ℕ
highest b = if eqb b 237 then 159 else if eqb b 244 then 143 else 191

abbrev continued : ℕ → Text → Bool
continued zero t = true
continued (suc n) [] = false
continued (suc n) (b ∷ t) = between 128 191 b && continued n t

-- Is the text behind a first byte fit for an encoding of the size?
abbrev fits : ℕ → ℕ → Text → Bool
fits zero b t = false
fits (suc zero) b t = true
fits (suc (suc n)) b [] = false
fits (suc (suc n)) b (c ∷ t) = between (lowest b) (highest b) c && continued n t

-- The size of the encoding that stands at the front, 0 if there is none.
abbrev rune_size : ℕ → Text → ℕ
rune_size b t = if fits (size b) b t then size b else 0

abbrev replacement : Text
replacement = 239 ∷ 191 ∷ 189 ∷ []

-- The text with the given number of bytes left of the encoding at its front.
unfoldable pub coerced : ℕ → Text → Text
coerced left [] = []
coerced (suc left) (b ∷ t) = b ∷ coerced left t
coerced zero (b ∷ t) =
    let rest = coerced (rune_size b t - 1) t in
    if eqb (rune_size b t) 0 then replacement ++ rest else b ∷ rest

unfoldable pub utf8 : Text → Text
utf8 t = coerced 0 t
