-- ===== src/Migrations/History.antt =====
-- What Migrate does to the history of a database.
use complicatedauth_backend.Prelude.{
  ℕ, ◌≡◌, ◌≢◌, refl, sym, ◌∙◌, List, [], ◌∷◌, Option, none, some, arith, inl, inr, Option-cases,
  All, ◌⊎◌,
}
use complicatedauth_backend.Prelude.Bytes.{bytes_eq_iff}
use complicatedauth_backend.Table.{get}
use complicatedauth_backend.Table.Laws.{get-key, All-get}
use complicatedauth_backend.Db.{Result, ok, err}
use complicatedauth_backend.Migrations.Files.{File, file_keyed, DirEntry, load_migrations}
use complicatedauth_backend.Migrations.Sealing.{seal_all-Sealed}
use complicatedauth_backend.Migrations.Applying.{applied_row, apply_all_keeps, apply_all_records}
use complicatedauth_backend.Migrations.{
  Applied, applied_keyed, Error, Faults, check_row, check_history, seal_all, apply_all,
  seal_and_apply, migrate,
}

-- A row of the history is a migration of the release, and its checksum, if it has one, is the
-- release's.
abbrev pub Agrees : List File → Applied → Type 0
Agrees files row =
    (file : File) × (get row.version files ≡ some file)
    × ((stored : List ℕ) → row.checksum ≡ some stored → stored ≡ file.checksum)

check_row-Agrees :
    (files : List File) (row : Applied) → check_row files row ≡ none → Agrees files row
unfolding check_row
check_row-Agrees files row h = elim (Option-cases (get row.version files)) [
  | inl absent ↦ absurd (ground arith)
  | inr (file, found) ↦ (file, found, λ stored e. ground (arith, bytes_eq_iff stored file.checksum))
]

check_history-Agrees :
    (files : List File) (history : List Applied)
    → check_history files history ≡ none
    → All (Agrees files) history
unfolding check_history
check_history-Agrees files [] h = tt
check_history-Agrees files (row ∷ rows) h =
    (check_row-Agrees files row (ground arith), check_history-Agrees files rows (ground arith))

module _ {S : Type 0} (exec : List ℕ → S → Option S) (digest : List ℕ → List ℕ)
    (directory : Option (List DirEntry)) (files : List File)
    (loaded : load_migrations digest directory ≡ ok files) (faults : Faults)
    (history : List Applied) (schema : S) where
  -- Migrate refuses a database that has drifted from the release: if the history has a migration
  -- that the release does not have, or has under another checksum, it fails and changes nothing.
  pub drift_is_refused :
      (name : List ℕ) (row : Applied)
      → get name history ≡ some row
      → (Agrees files row → ⊥)
      → ((migrate exec digest directory faults (history, schema)).0 ≢ ok tt)
        × ((migrate exec digest directory faults (history, schema)).1 ≡ (history, schema))
  unfolding migrate
  drift_is_refused name row found drifted = elim (Option-cases (check_history files history)) [
    | inl fine ↦ absurd (
        drifted
          (All-get (Agrees files) name history row (check_history-Agrees files history fine) found))
    | inr (e, bad) ↦ ((λ h. ground arith), ground arith)
  ]

  no_drift :
      (migrate exec digest directory faults (history, schema)).0 ≡ ok tt
      → check_history files history ≡ none
  unfolding migrate
  no_drift h = ground arith

  migrate_runs :
      (migrate exec digest directory faults (history, schema)).0 ≡ ok tt
      → migrate exec digest directory faults (history, schema)
        ≡ seal_and_apply exec faults files (history, schema)
  unfolding migrate
  migrate_runs h = ground arith

  abbrev sealing : Result Error (Unit {0}) × List Applied
  sealing = seal_all faults history files history

  sealed_first :
      (seal_and_apply exec faults files (history, schema)).0 ≡ ok tt
      → (sealing.0 ≡ ok tt)
        × (seal_and_apply exec faults files (history, schema)
            ≡ apply_all exec faults history files (sealing.1, schema))
  unfolding seal_and_apply
  sealed_first h = by_answer sealing.0 refl
    where
      by_answer :
          (answer : Result Error (Unit {0}))
          → sealing.0 ≡ answer
          → (sealing.0 ≡ ok tt)
            × (seal_and_apply exec faults files (history, schema)
                ≡ apply_all exec faults history files (sealing.1, schema))
      by_answer (err e) q = absurd (ground arith)
      by_answer (ok u) q = (q, ground arith)

  agreed :
      (f : File) (row : Applied)
      → get f.name files ≡ some f
      → get f.name history ≡ some row
      → check_history files history ≡ none
      → (row.checksum ≡ none) ⊎ (row.checksum ≡ some f.checksum)
  agreed f row named found fine =
      let (file, there, same) =
        All-get (Agrees files) f.name history row (check_history-Agrees files history fine) found in
      let one : some file ≡ some f = sym there ∙ rw (get-key f.name history row found) named in
      elim (Option-cases row.checksum) [
        | inl empty ↦ inl empty
        | inr (stored, set) ↦ inr (ground (arith, same stored set))
      ]

  -- A Migrate that succeeds has brought the database to the release: every migration of the release
  -- is in the history, under the release's checksum.
  pub migrated_to_release :
      (f : File)
      → get f.name files ≡ some f
      → (migrate exec digest directory faults (history, schema)).0 ≡ ok tt
      → (row : Applied) × (get f.name (migrate exec digest directory faults (history, schema)).1.0
          ≡ some row)
        × (row.checksum ≡ some f.checksum)
  migrated_to_release f named h =
      let run = migrate_runs h in
      let (fine, rest) = sealed_first (rw run at h) in
      let applied : (apply_all exec faults history files (sealing.1, schema)).0 ≡ ok tt =
        rw rest at (rw run at h) in
      rw (run, rest)
        (elim (Option-cases (get f.name history)) [
          | inl new ↦ (
            applied_row f,
            apply_all_records exec faults history files sealing.1 schema f named new applied,
            refl,
          )
          | inr (row, old) ↦
              let (row', there, set) =
                seal_all-Sealed faults history files history f named (λ e. cc)
                  (row, old, agreed f row named old (no_drift h)) fine in
              (
                row',
                apply_all_keeps exec faults history files sealing.1 schema f.name row' there
                    applied,
                set,
              )
        ])
