-- ===== src/Migrations/Sealing.antt =====
-- The loop of Migrate that seals the checksums of an older release.
use complicatedauth_backend.Prelude.{
  ℕ, ◌≡◌, ◌≢◌, refl, false, List, [], ◌∷◌, none, some, arith, inl, inr, Bool-cases, ◌⊎◌,
}
use complicatedauth_backend.Prelude.Bytes.{bytes_eq, bytes_eq_iff}
use complicatedauth_backend.Table.{get, update}
use complicatedauth_backend.Table.Laws.{get-update, get-key}
use complicatedauth_backend.Db.{ok, Outcome, done, rejected, lost}
use complicatedauth_backend.Migrations.Files.{File, file_keyed}
use complicatedauth_backend.Migrations.{Applied, applied_keyed, Faults, is_unsealed, seal_all}

unsealed_other :
    (name other : List ℕ) (row : Applied)
    → row.version ≡ other
    → other ≢ name
    → is_unsealed name row ≡ false
unfolding is_unsealed
unsealed_other name other row e n = ground (arith, bytes_eq_iff row.version name)

unsealed_sealed :
    (name checksum : List ℕ) (row : Applied)
    → row.checksum ≡ some checksum
    → is_unsealed name row ≡ false
unfolding is_unsealed
unsealed_sealed name checksum row e = ground arith

abbrev seal_with : List ℕ → Applied → Applied
seal_with checksum row = record row { checksum = some checksum }

-- A sealed row stays through the loop that seals.
seal_keeps :
    (faults : Faults) (applied : List Applied) (files : List File) (history : List Applied)
    (name checksum : List ℕ) (row : Applied)
    → get name history ≡ some row
    → row.checksum ≡ some checksum
    → get name (seal_all faults applied files history).1 ≡ some row
unfolding seal_all
seal_keeps faults applied [] history name checksum row found c = found
seal_keeps faults applied (file ∷ files) history name checksum row found c =
    let after : get name (update (is_unsealed file.name) (seal_with file.checksum) history)
        ≡ some row =
      ground (
        arith,
        get-update (is_unsealed file.name) (seal_with file.checksum) name history (λ x. refl),
        unsealed_sealed file.name checksum row c,
      ) in
    ground (
      arith,
      seal_keeps faults applied files history name checksum row found c,
      seal_keeps faults applied files
          (update (is_unsealed file.name) (seal_with file.checksum) history) name checksum row after
          c,
    )

abbrev sealed : File → List Applied → List Applied
sealed file = update (is_unsealed file.name) (seal_with file.checksum)

-- A turn of the loop that does not fail skips its migration or seals it.
seal_step :
    (faults : Faults) (applied : List Applied) (file : File) (files : List File)
    (history : List Applied) (o : Outcome)
    → faults.seal file.name ≡ o
    → (seal_all faults applied (file ∷ files) history).0 ≡ ok tt
    → ((get file.name applied ≡ none)
        × (seal_all faults applied (file ∷ files) history ≡ seal_all faults applied files history))
      ⊎ (seal_all faults applied (file ∷ files) history
          ≡ seal_all faults applied files (sealed file history))
unfolding seal_all
seal_step faults applied file files history done e h = ground arith
seal_step faults applied file files history rejected e h = ground arith
seal_step faults applied file files history lost e h = ground arith

-- A row whose checksum is missing or that of its migration.
abbrev Sealable : File → List Applied → Type 0
Sealable f history =
    (row : Applied) × (get f.name history ≡ some row)
    × ((row.checksum ≡ none) ⊎ (row.checksum ≡ some f.checksum))

abbrev pub Sealed : File → List Applied → Type 0
Sealed f history =
    (row : Applied) × (get f.name history ≡ some row) × (row.checksum ≡ some f.checksum)

sealed_own : (f : File) (history : List Applied) → Sealable f history → Sealed f (sealed f history)
unfolding is_unsealed
sealed_own f history (row, found, inl empty) = (
  seal_with f.checksum row,
  ground (
    arith,
    get-update (is_unsealed f.name) (seal_with f.checksum) f.name history (λ x. refl),
    get-key f.name history row found,
    bytes_eq_iff row.version f.name,
  ),
  refl,
)
sealed_own f history (row, found, inr set) = (
  row,
  ground (arith, get-update (is_unsealed f.name) (seal_with f.checksum) f.name history (λ x. refl)),
  set,
)

sealed_other :
    (f file : File) (history : List Applied)
    → f.name ≢ file.name
    → Sealable f history
    → Sealable f (sealed file history)
sealed_other f file history n (row, found, state) = (
  row,
  ground (
    arith,
    get-update (is_unsealed file.name) (seal_with file.checksum) f.name history (λ x. refl),
    unsealed_other file.name f.name row (get-key f.name history row found) n,
  ),
  state,
)

-- Once the loop has ended every migration of the history is sealed with the release's checksum.
pub seal_all-Sealed :
    (faults : Faults) (applied : List Applied) (files : List File) (history : List Applied)
    (f : File)
    → get f.name files ≡ some f
    → get f.name applied ≢ none
    → Sealable f history
    → (seal_all faults applied files history).0 ≡ ok tt
    → Sealed f (seal_all faults applied files history).1
unfolding get
seal_all-Sealed faults applied [] history f found old s h = absurd (ground arith)
seal_all-Sealed faults applied (file ∷ files) history f found old s h =
    elim (Bool-cases (bytes_eq file.name f.name)) [
      | inl same ↦ elim (seal_step faults applied file files history _ refl h) [
        | inl (absent, e) ↦ absurd (ground (arith, bytes_eq_iff file.name f.name))
        | inr e ↦
            let one : f ≡ file = ground arith in
            let (row, there, set) = sealed_own f history s in
            (
              row,
              rw (e, ← one)
                  (seal_keeps faults applied files (sealed f history) f.name f.checksum row there
                    set),
              set,
            )
      ]
      | inr other ↦
          let rest : get f.name files ≡ some f = ground arith in
          let apart : f.name ≢ file.name = ground (arith, bytes_eq_iff file.name f.name) in
          elim (seal_step faults applied file files history _ refl h) [
            | inl (absent, e) ↦
                rw e (seal_all-Sealed faults applied files history f rest old s (rw e at h))
            | inr e ↦ rw e (
                seal_all-Sealed faults applied files (sealed file history) f rest old
                  (sealed_other f file history apart s) (rw e at h))
          ]
    ]
