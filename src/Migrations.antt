-- ===== src/Migrations.antt =====
-- internal/store/migrations.go: loadMigrations, which reads a release's migrations from its directory,
-- and Migrate, which applies those that are new and refuses to start on a history that has drifted
-- from the release. Names are the bytes of file names.
pub mod Files
pub mod Release
pub mod Sealing
pub mod Applying
pub mod History
mod Tests
use complicatedauth_backend.Prelude.{
  ℕ, Bool, true, false, not, ◌&&◌, ◌||◌, List, [], ◌∷◌, Option, none, some, if◌then◌else◌,
}
use complicatedauth_backend.Prelude.Bytes.{bytes_eq, bytes_eq_iff, bytes_lt}
use complicatedauth_backend.Table.{Keyed, get, update}
use complicatedauth_backend.Db.{Result, ok, err, Outcome, transact}
use complicatedauth_backend.Cleanup.{is_some}
use complicatedauth_backend.Migrations.Files.{
  File, file_keyed, DirEntry, LoadError, load_migrations,
}

-- A row of schema_migrations.
pub record Applied : Type 0 where
  pub version : List ℕ
  pub checksum : Option (List ℕ)

instance abbrev pub applied_keyed : Keyed Applied
applied_keyed = record {
  Key = List ℕ;
  key = λ r. r.version;
  same = bytes_eq;
  same_iff = bytes_eq_iff;
}

pub data Error : Type 0 where
  load : LoadError → Error
  acquire_failed lock_failed initialize_failed read_failed : Error
  missing modified : List ℕ → Error
  seal_failed begin_failed apply_failed commit_failed : List ℕ → Error
  require_failed : Error

-- Which calls of pgx fail, for each migration where there are several.
pub record Faults : Type 0 where
  pub acquire : Bool
  pub lock : Bool
  pub initialize : Bool
  pub read : Bool
  pub seal : List ℕ → Outcome
  pub require : Bool
  pub begin : List ℕ → Bool
  pub insert : List ℕ → Bool
  pub commit : List ℕ → Outcome

-- One turn of the loop over the history: `none` goes on.
unfoldable pub check_row : List File → Applied → Option Error
check_row files row = elim (get row.version files) [
  | none ↦ some (missing row.version)
  | some file ↦ elim row.checksum [
    | none ↦ none
    | some stored ↦ if bytes_eq stored file.checksum then none else some (modified row.version)
  ]
]

-- The loop over the rows of SELECT ... ORDER BY version.
unfoldable pub check_history : List File → List Applied → Option Error
check_history files [] = none
check_history files (row ∷ rows) = elim (check_row files row) [
  | some e ↦ some e
  | none ↦ check_history files rows
]

-- INSERT INTO schema_migrations. The history stands in the order of its versions, in which it is read.
unfoldable pub record_applied : Applied → List Applied → List Applied
record_applied row [] = row ∷ []
record_applied row (x ∷ xs) =
    if bytes_lt row.version x.version then row ∷ x ∷ xs else x ∷ record_applied row xs

unfoldable pub is_unsealed : List ℕ → Applied → Bool
is_unsealed name row = bytes_eq row.version name && not (is_some row.checksum)

-- The loop that seals the checksums of an older release. `applied` is the history as it was read.
unfoldable pub seal_all :
    Faults → List Applied → List File → List Applied → Result Error (Unit {0}) × List Applied
seal_all faults applied [] history = (ok tt, history)
seal_all faults applied (file ∷ files) history =
    let sealed =
      update (is_unsealed file.name) (λ row. record row { checksum = some file.checksum })
        history in
    elim (get file.name applied) [
      | none ↦ seal_all faults applied files history
      | some row ↦ elim (faults.seal file.name) [
        | Outcome.done ↦ seal_all faults applied files sealed
        | Outcome.rejected ↦ (err (seal_failed file.name), history)
        | Outcome.lost ↦ (err (seal_failed file.name), sealed)
      ]
    ]

-- ALTER COLUMN checksum SET NOT NULL refuses a history with a NULL.
unfoldable pub has_null : List Applied → Bool
has_null [] = false
has_null (row ∷ rows) = not (is_some row.checksum) || has_null rows

module _ {S : Type 0} (exec : List ℕ → S → Option S) where
  -- The transaction of one migration. What the SQL of a migration makes of the schema, and whether it
  -- fails, is a parameter.
  unfoldable pub apply_body :
      Faults → File → List Applied × S → Result Error ((List Applied × S) × Unit {0} × Error)
  unfolding record_applied
  apply_body faults file (history, schema) = elim (exec file.contents schema) [
    | none ↦ err (apply_failed file.name)
    | some schema' ↦
        if faults.insert file.name || is_some (get file.name history)
        then err (apply_failed file.name)
        else ok (
          (
            record_applied (record { version = file.name; checksum = some file.checksum }) history,
            schema',
          ),
          tt,
          commit_failed file.name,
        )
  ]

  -- The loop that applies what is new.
  unfoldable pub apply_all :
      Faults
      → List Applied
      → List File
      → List Applied × S
      → Result Error (Unit {0}) × (List Applied × S)
  unfolding apply_body
  apply_all faults applied [] state = (ok tt, state)
  apply_all faults applied (file ∷ files) state = elim (get file.name applied) [
    | some row ↦ apply_all faults applied files state
    | none ↦
        let (answer, state') =
          transact (faults.begin file.name) (begin_failed file.name) (faults.commit file.name)
            (apply_body faults file state) state in
        elim answer [ err e ↦ (err e, state') | ok _ ↦ apply_all faults applied files state' ]
  ]

  -- Migrate from the point where the history has been read and has not drifted.
  unfoldable pub seal_and_apply :
      Faults → List File → List Applied × S → Result Error (Unit {0}) × (List Applied × S)
  unfolding seal_all apply_all has_null
  seal_and_apply faults files (history, schema) =
      let (sealed, history') = seal_all faults history files history in
      elim sealed [
        | err e ↦ (err e, (history', schema))
        | ok _ ↦
            if faults.require || has_null history'
            then (err require_failed, (history', schema))
            else apply_all faults history files (history', schema)
      ]

  -- Migrate. The advisory lock serializes the calls.
  unfoldable pub migrate :
      (List ℕ → List ℕ)
      → Option (List DirEntry)
      → Faults
      → List Applied × S
      → Result Error (Unit {0}) × (List Applied × S)
  unfolding check_history seal_and_apply
  migrate digest directory faults (history, schema) = elim (load_migrations digest directory) [
    | err e ↦ (err (load e), (history, schema))
    | ok files ↦
        if faults.acquire
        then (err acquire_failed, (history, schema))
        else if faults.lock
        then (err lock_failed, (history, schema))
        else if faults.initialize
        then (err initialize_failed, (history, schema))
        else if faults.read
        then (err read_failed, (history, schema))
        else elim (check_history files history) [
          | some e ↦ (err e, (history, schema))
          | none ↦ seal_and_apply faults files (history, schema)
        ]
  ]
