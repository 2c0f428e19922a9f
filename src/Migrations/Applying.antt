-- ===== src/Migrations/Applying.antt =====
-- The loop of Migrate that applies what is new.
use complicatedauth_backend.Prelude.{
  ℕ, ◌≡◌, ◌≢◌, refl, ◌∙◌, List, [], ◌∷◌, Option, none, some, arith, inl, inr, Option-cases,
  Bool-cases, ◌⊎◌, if◌then◌else◌,
}
use complicatedauth_backend.Prelude.Bytes.{bytes_eq, bytes_eq_iff}
use complicatedauth_backend.Table.{get}
use complicatedauth_backend.Db.{Result, ok, err, transact, transact-eq-ok}
use complicatedauth_backend.Migrations.Files.{File, file_keyed}
use complicatedauth_backend.Migrations.{
  Applied, applied_keyed, Error, Faults, record_applied, apply_body, apply_all, begin_failed,
}

get-record_applied :
    (row : Applied) (history : List Applied) (k : List ℕ)
    → get row.version history ≡ none
    → get k (record_applied row history)
      ≡ (if bytes_eq row.version k then some row else get k history)
unfolding record_applied get
get-record_applied row [] k h = refl
get-record_applied row (x ∷ xs) k h = ground (
  arith,
  get-record_applied row xs k,
  bytes_eq_iff x.version row.version,
  bytes_eq_iff x.version k,
  bytes_eq_iff row.version k,
)

abbrev pub applied_row : File → Applied
applied_row file = record { version = file.name; checksum = some file.checksum }

module _ {S : Type 0} (exec : List ℕ → S → Option S) (faults : Faults)
    (applied : List Applied) where
  apply_body-ok :
      (file : File) (history : List Applied) (schema : S) (new : List Applied × S) (a : Unit {0})
      (e : Error)
      → apply_body exec faults file (history, schema) ≡ ok (new, a, e)
      → (get file.name history ≡ none)
        × ((schema' : S) × (new ≡ (record_applied (applied_row file) history, schema')))
  unfolding apply_body
  apply_body-ok file history schema new a e h = elim (Option-cases (exec file.contents schema)) [
    | inl failed ↦ absurd (ground arith)
    | inr (schema', made) ↦ elim (Option-cases (get file.name history)) [
      | inl absent ↦ (absent, (schema', ground arith))
      | inr (row, there) ↦ absurd (ground arith)
    ]
  ]

  abbrev attempt : File → List Applied → S → Result Error (Unit {0}) × (List Applied × S)
  attempt file history schema =
      transact (faults.begin file.name) (begin_failed file.name) (faults.commit file.name)
        (apply_body exec faults file (history, schema)) (history, schema)

  attempt-ok :
      (file : File) (history : List Applied) (schema : S)
      → (attempt file history schema).0 ≡ ok tt
      → (get file.name history ≡ none)
        × ((schema' : S) × ((attempt file history schema).1
              ≡ (record_applied (applied_row file) history, schema')))
  attempt-ok file history schema h =
      let (new, e, body, made) =
        transact-eq-ok (faults.begin file.name) (begin_failed file.name) (faults.commit file.name)
          (apply_body exec faults file (history, schema)) (history, schema) tt h in
      let (absent, (schema', same)) = apply_body-ok file history schema new tt e body in
      (absent, (schema', made ∙ same))

  -- What a turn of the loop does that does not fail.
  abbrev Turn : File → List File → List Applied → S → Type 0
  Turn file files history schema =
      ((get file.name applied ≢ none)
        × (apply_all exec faults applied (file ∷ files) (history, schema)
            ≡ apply_all exec faults applied files (history, schema)))
      ⊎ ((get file.name history ≡ none)
          × ((schema' : S) × (apply_all exec faults applied (file ∷ files) (history, schema)
                ≡ apply_all exec faults applied files
                    (record_applied (applied_row file) history, schema'))))

  apply_new :
      (file : File) (files : List File) (history : List Applied) (schema : S)
      (answer : Result Error (Unit {0}))
      → (attempt file history schema).0 ≡ answer
      → get file.name applied ≡ none
      → (apply_all exec faults applied (file ∷ files) (history, schema)).0 ≡ ok tt
      → Turn file files history schema
  unfolding apply_all
  apply_new file files history schema (err e) q new h = absurd (ground arith)
  apply_new file files history schema (ok u) q new h =
      let (absent, (schema', made)) = attempt-ok file history schema q in
      inr (absent, (schema', ground arith))

  apply_old :
      (file : File) (files : List File) (history : List Applied) (schema : S) (row : Applied)
      → get file.name applied ≡ some row
      → Turn file files history schema
  unfolding apply_all
  apply_old file files history schema row old = inl ((λ e. cc), ground arith)

  apply_step :
      (file : File) (files : List File) (history : List Applied) (schema : S)
      → (apply_all exec faults applied (file ∷ files) (history, schema)).0 ≡ ok tt
      → Turn file files history schema
  apply_step file files history schema h = elim (Option-cases (get file.name applied)) [
    | inr (row, old) ↦ apply_old file files history schema row old
    | inl new ↦ apply_new file files history schema _ refl new h
  ]

  record_other :
      (file : File) (history : List Applied) (k : List ℕ) (row : Applied)
      → get file.name history ≡ none
      → get k history ≡ some row
      → get k (record_applied (applied_row file) history) ≡ some row
  record_other file history k row absent there =
      ground
        (arith, get-record_applied (applied_row file) history k absent, bytes_eq_iff file.name k)

  -- Rows of the history stay.
  pub apply_all_keeps :
      (files : List File) (history : List Applied) (schema : S) (k : List ℕ) (row : Applied)
      → get k history ≡ some row
      → (apply_all exec faults applied files (history, schema)).0 ≡ ok tt
      → get k (apply_all exec faults applied files (history, schema)).1.0 ≡ some row
  apply_all_keeps [] history schema k row there h = unfold apply_all in there
  apply_all_keeps (file ∷ files) history schema k row there h =
      elim (apply_step file files history schema h) [
        | inl (old, e) ↦ rw e (apply_all_keeps files history schema k row there (rw e at h))
        | inr (absent, (schema', e)) ↦ rw e (
            apply_all_keeps files (record_applied (applied_row file) history) schema' k row
              (record_other file history k row absent there) (rw e at h))
      ]

  -- Migrations that the history did not have are recorded.
  pub apply_all_records :
      (files : List File) (history : List Applied) (schema : S) (f : File)
      → get f.name files ≡ some f
      → get f.name applied ≡ none
      → (apply_all exec faults applied files (history, schema)).0 ≡ ok tt
      → get f.name (apply_all exec faults applied files (history, schema)).1.0
        ≡ some (applied_row f)
  unfolding get
  apply_all_records [] history schema f found new h = absurd (ground arith)
  apply_all_records (file ∷ files) history schema f found new h =
      elim (Bool-cases (bytes_eq file.name f.name)) [
        | inr other ↦
            let rest : get f.name files ≡ some f = ground arith in
            elim (apply_step file files history schema h) [
              | inl (old, e) ↦ rw e (apply_all_records files history schema f rest new (rw e at h))
              | inr (absent, (schema', e)) ↦ rw e (
                  apply_all_records files (record_applied (applied_row file) history) schema' f rest
                    new (rw e at h))
            ]
        | inl same ↦
            let one : file ≡ f = ground arith in
            elim (apply_step file files history schema h) [
              | inl (old, e) ↦ absurd (old (rw one new))
              | inr (absent, (schema', e)) ↦ rw e (
                  apply_all_keeps files (record_applied (applied_row file) history) schema' f.name
                    (applied_row f)
                    (ground (arith, get-record_applied (applied_row file) history f.name absent))
                    (rw e at h))
            ]
      ]
