-- ===== src/FilePath.antt =====
-- The functions of Go's package `path/filepath` (on Unix) that the agent calls: a path is cut at
-- its slashes, and "." and ".." are resolved on a stack whose top is at the head.
pub mod Laws
pub mod Relative
use ex_gocd.Base.{
  ℕ, eqb, not, Bool, true, false, ◌&&◌, ◌||◌, Option, none, some, List, [], ◌∷◌, ◌++◌, reverse,
  length, replicate, if◌then◌else◌, Result, ok, err,
}
use ex_gocd.Text.{Text, codes, ◌==◌, has_prefix, split, join}

abbrev pub slash : ℕ
slash = b'/'

abbrev pub dot : Text
dot = b'.' ∷ []

abbrev pub dotdot : Text
dotdot = b'.' ∷ b'.' ∷ []

unfoldable pub is_abs : Text → Bool
is_abs p = has_prefix p (slash ∷ [])

-- ".." takes the last name away; at the root it is dropped, and behind only ".." it stays.
unfoldable pub go_up : Bool → List Text → List Text
go_up true [] = []
go_up false [] = dotdot ∷ []
go_up rooted (top ∷ stack) = if top == dotdot then dotdot ∷ top ∷ stack else stack

unfoldable pub resolve : Bool → List Text → Text → List Text
resolve rooted stack part =
    if (part == []) || (part == dot)
    then stack
    else if part == dotdot
    then go_up rooted stack
    else part ∷ stack

unfoldable pub resolve_all : Bool → List Text → List Text → List Text
resolve_all rooted stack [] = reverse stack
resolve_all rooted stack (part ∷ parts) = resolve_all rooted (resolve rooted stack part) parts

unfoldable pub render : Bool → List Text → Text
render true parts = slash ∷ join slash parts
render false [] = dot
render false (part ∷ parts) = join slash (part ∷ parts)

-- `Clean`.
unfoldable pub clean : Text → Text
clean p = render (is_abs p) (resolve_all (is_abs p) [] (split slash p))

-- `Join` of two elements: leading empty elements are ignored.
unfoldable pub path_join : Text → Text → Text
path_join [] [] = []
path_join [] b = clean b
path_join (c ∷ a) b = clean ((c ∷ a) ++ slash ∷ b)

pub data PathError : Type 0 where
  no_working_dir not_relative : PathError

-- `Abs`; the working directory is that of `os.Getwd`, `none` if the call fails.
unfoldable pub abs : Option Text → Text → Result PathError Text
abs none p = if is_abs p then ok (clean p) else err no_working_dir
abs (some wd) p = if is_abs p then ok (clean p) else ok (path_join wd p)

-- The parts of a cleaned path behind its leading slash, if it has one.
unfoldable pub parts : Text → List Text
parts [] = []
parts (c ∷ []) = if eqb c slash then [] else (c ∷ []) ∷ []
parts (c ∷ d ∷ p) = split slash (if eqb c slash then d ∷ p else c ∷ d ∷ p)

-- What is left of two lists of parts behind their common front.
unfoldable pub strip : List Text → List Text → List Text × List Text
strip [] ts = ([], ts)
strip (b ∷ bs) [] = (b ∷ bs, [])
strip (b ∷ bs) (t ∷ ts) = let rest = strip bs ts in if b == t then rest else (b ∷ bs, t ∷ ts)

unfoldable pub climb : List Text × List Text → Result PathError Text
climb ([], ts) = ok (join slash ts)
climb (b ∷ bs, []) = ok (join slash (replicate (length (b ∷ bs)) dotdot))
climb (b ∷ bs, t ∷ ts) =
    if b == dotdot
    then err not_relative
    else ok (join slash (replicate (length (b ∷ bs)) dotdot ++ t ∷ ts))

-- The parts of a cleaned base: "." counts as the empty path.
unfoldable pub base_parts : Text → List Text
base_parts base = if base == dot then [] else parts base

-- `Rel` of cleaned paths.
unfoldable pub rel_clean : Text → Text → Result PathError Text
rel_clean base target =
    if base == target
    then ok dot
    else if is_abs base && not (is_abs target) || not (is_abs base) && is_abs target
    then err not_relative
    else climb (strip (base_parts base) (parts target))

-- `Rel`.
unfoldable pub rel : Text → Text → Result PathError Text
rel base target = rel_clean (clean base) (clean target)

unfoldable pub contains_slash : Text → Bool
contains_slash [] = false
contains_slash (c ∷ p) = eqb c slash || contains_slash p

-- The bytes of a path up to its last slash, that slash included.
unfoldable pub upto_slash : Text → Text
upto_slash [] = []
upto_slash (c ∷ p) = let rest = upto_slash p in if contains_slash (c ∷ p) then c ∷ rest else []

-- `Dir`.
unfoldable pub dir_of : Text → Text
dir_of p = clean (upto_slash p)

unfoldable pub last_name : Text → List Text → Text
last_name found [] = found
last_name found (p ∷ ps) = last_name (if p == [] then found else p) ps

-- `Base`.
unfoldable pub base_of : Text → Text
base_of [] = dot
base_of (c ∷ p) = last_name (slash ∷ []) (split slash (c ∷ p))

-- What a test that runs these functions unfolds.
unfoldable pub file_path : Unit {0}
unfolding has_prefix ◌==◌ split join is_abs go_up resolve resolve_all render clean path_join abs
    parts strip climb base_parts rel_clean rel contains_slash upto_slash dir_of last_name base_of
file_path = tt
