-- ===== src/Agent/Artifacts/Fetched.antt =====
-- Where `fetchArtifact` writes.
use ex_gocd.Base.{◌≡◌, ◌⊎◌, List, ◌++◌, All}
use ex_gocd.Text.{Text}
use ex_gocd.FilePath.{dir_of}
use ex_gocd.FilePath.Laws.{IsName, rooted}
use ex_gocd.Config.{Config}
use ex_gocd.Agent.{Effect, called, make_dirs, create, copy_into, Agent}

-- The path of the given names and perhaps some further ones.
abbrev pub IsBelow : List Text → Text → Type 0
IsBelow bs p = (rest : List Text) × (p ≡ rooted (bs ++ rest)) × All IsName (bs ++ rest)

-- Directories are made, and files created and written, at or below the directory of the given names;
-- a directory may also be the one that holds such a path. The temporary archive has no path.
abbrev pub WritesBelow : List Text → Effect → Type 0
WritesBelow bs (called (create p)) = IsBelow bs p
WritesBelow bs (called (copy_into p)) = IsBelow bs p
WritesBelow bs (called (make_dirs p)) = IsBelow bs p ⊎ ((q : Text) × IsBelow bs q × (p ≡ dir_of q))
WritesBelow bs _ = Unit
