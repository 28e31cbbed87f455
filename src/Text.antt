-- ===== src/Text.antt =====
-- Go strings as lists of bytes, with the functions of the package `strings` that the agent calls
-- (agent/internal/agent/agent.go, agent/internal/config/config.go).
pub mod Laws
pub mod Utf8
use Prim.Native.Char.{code}
use mathlib.Core.Option
use ex_gocd.Base.{
  ℕ, ◌-◌, String, Bool, true, false, ◌&&◌, Option, none, some, List, [], ◌∷◌, ◌++◌, leb, eqb,
  length, drop, take, suc, if◌then◌else◌,
}

abbrev pub Text : Type 0
Text = List ℕ

-- The bytes of an ASCII literal.
abbrev pub codes : String → Text
codes String.[] = []
codes (String.◌∷◌ c s) = code c ∷ codes s

infix 50 ◌==◌
unfoldable pub ◌==◌ : Text → Text → Bool
[] == [] = true
[] == (d ∷ t) = false
(c ∷ s) == [] = false
(c ∷ s) == (d ∷ t) = eqb c d && (s == t)

unfoldable pub has_prefix : Text → Text → Bool
has_prefix s [] = true
has_prefix [] (d ∷ t) = false
has_prefix (c ∷ s) (d ∷ t) = eqb c d && has_prefix s t

unfoldable pub has_suffix : Text → Text → Bool
has_suffix s t = leb (length t) (length s) && (drop (length s - length t) s == t)

unfoldable pub trim_prefix : Text → Text → Text
trim_prefix s t = if has_prefix s t then drop (length t) s else s

unfoldable pub trim_suffix : Text → Text → Text
trim_suffix s t = if has_suffix s t then take (length s - length t) s else s

-- `none` stands for -1.
unfoldable pub index : Text → Text → Option ℕ
index [] t = if has_prefix [] t then some 0 else none
index (c ∷ s) t =
    let later = Option.map suc (index s t) in if has_prefix (c ∷ s) t then some 0 else later

-- Adds a byte in front of the first part.
abbrev pub grow : ℕ → List Text → List Text
grow c [] = (c ∷ []) ∷ []
grow c (p ∷ ps) = (c ∷ p) ∷ ps

-- `Split` at a separator of one byte.
unfoldable pub split : ℕ → Text → List Text
split sep [] = [] ∷ []
split sep (c ∷ s) = let parts = split sep s in if eqb c sep then [] ∷ parts else grow c parts

unfoldable pub join : ℕ → List Text → Text
join sep [] = []
join sep (p ∷ []) = p
join sep (p ∷ q ∷ ps) = p ++ sep ∷ join sep (q ∷ ps)
