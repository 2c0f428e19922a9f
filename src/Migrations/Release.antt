-- ===== src/Migrations/Release.antt =====
-- In what order a release's migrations are read.
use complicatedauth_backend.Prelude.{◌≡◌, ◌≢◌, true, false, List, [], ◌∷◌}
use complicatedauth_backend.Prelude.Bytes.{bytes_lt}
use complicatedauth_backend.Migrations.Files.{File, version}

-- No name comes before that of its left neighbour.
abbrev IsSorted : List File → Type 0
IsSorted [] = Unit
IsSorted (x ∷ []) = Unit
IsSorted (x ∷ y ∷ files) = (bytes_lt y.name x.name ≡ false) × IsSorted (y ∷ files)

-- Names ascend, and so no two are the same, and neighbours have different versions.
abbrev pub IsAscending : List File → Type 0
IsAscending [] = Unit
IsAscending (x ∷ []) = Unit
IsAscending (x ∷ y ∷ files) =
    (bytes_lt x.name y.name ≡ true) × (version x ≢ version y) × IsAscending (y ∷ files)
