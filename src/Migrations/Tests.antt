-- ===== src/Migrations/Tests.antt =====
-- A release with one migration, on a new database and on one of another release.
use complicatedauth_backend.Prelude.{
  ℕ, ◌≡◌, ◌≢◌, refl, false, List, [], ◌∷◌, Option, none, some, arith,
}
use complicatedauth_backend.Prelude.Bytes.{bytes_eq}
use complicatedauth_backend.Table.{get}
use complicatedauth_backend.Db.{ok, done, transact}
use complicatedauth_backend.Migrations.Files.{File, file_keyed, DirEntry, load_migrations}
use complicatedauth_backend.Migrations.{Applied, applied_keyed, Faults, migrate}
use complicatedauth_backend.Migrations.History.{Agrees, drift_is_refused, migrated_to_release}

-- 000001_init.up.sql
abbrev name : List ℕ
name =
    b'0' ∷ b'0' ∷ b'0' ∷ b'0' ∷ b'0' ∷ b'1' ∷ b'_' ∷ b'i' ∷ b'n' ∷ b'i' ∷ b't' ∷ b'.' ∷ b'u' ∷ b'p'
    ∷ b'.' ∷ b's' ∷ b'q' ∷ b'l' ∷ []

-- The contents stand for their own checksum.
abbrev digest : List ℕ → List ℕ
digest contents = contents

abbrev directory : Option (List DirEntry)
directory = some (record { name = name; is_dir = false; contents = some (7 ∷ []) } ∷ [])

abbrev initial : File
initial = record { name = name; contents = 7 ∷ []; checksum = 7 ∷ [] }

loaded : load_migrations digest directory ≡ ok (initial ∷ [])
unfolding load_migrations bytes_eq
loaded = refl

-- A schema as the list of the migrations that made it.
abbrev exec : List ℕ → List (List ℕ) → Option (List (List ℕ))
exec sql schema = some (sql ∷ schema)

abbrev no_faults : Faults
no_faults = record {
  acquire = false;
  lock = false;
  initialize = false;
  read = false;
  seal = λ n. done;
  require = false;
  begin = λ n. false;
  insert = λ n. false;
  commit = λ n. done;
}

abbrev foreign : Applied
foreign = record { version = b'x' ∷ []; checksum = none }

foreign_found : get (b'x' ∷ []) (foreign ∷ []) ≡ some foreign
unfolding get bytes_eq
foreign_found = refl

absent : get (b'x' ∷ []) (initial ∷ []) ≡ none
unfolding get bytes_eq
absent = refl

foreign_drifts : Agrees (initial ∷ []) foreign → ⊥
foreign_drifts (file, found, same) = ground (arith, absent)

drift_is_refused_example :
    ((migrate exec digest directory no_faults (foreign ∷ [], [])).0 ≢ ok tt)
    × ((migrate exec digest directory no_faults (foreign ∷ [], [])).1 ≡ (foreign ∷ [], []))
drift_is_refused_example =
    drift_is_refused exec digest directory (initial ∷ []) loaded no_faults (foreign ∷ []) []
      (b'x' ∷ []) foreign foreign_found foreign_drifts

initial_found : get name (initial ∷ []) ≡ some initial
unfolding get bytes_eq
initial_found = refl

succeeds : (migrate exec digest directory no_faults ([], [])).0 ≡ ok tt
unfolding migrate load_migrations bytes_eq get transact
succeeds = refl

migrated_to_release_example :
    (row : Applied) × (get name (migrate exec digest directory no_faults ([], [])).1.0 ≡ some row)
    × (row.checksum ≡ some (7 ∷ []))
migrated_to_release_example =
    migrated_to_release exec digest directory (initial ∷ []) loaded no_faults [] [] initial
      initial_found succeeds
