-- ===== src/Jobs/Inserted.antt =====
-- What the statements outside BackgroundJobStore keep of background_jobs.
use complicatedauth_backend.Prelude.{
  ℕ, ◌≡◌, refl, inl, inr, Bool, true, false, ◌&&◌, ◌||◌, List, [], ◌∷◌, none, some, arith,
  Option-cases, Bool-cases, ltb, subst,
}
use complicatedauth_backend.Table.{get, insert, update, exists, Unique}
use complicatedauth_backend.Table.Laws.{
  get-update, get-insert, get-delete, Unique-insert, Unique-delete, All-append, All-delete,
  exists-get,
}
use complicatedauth_backend.Db.{Outcome, done, rejected, lost}
use complicatedauth_backend.Jobs.Rows.{Row, row_keyed, pending, is_completed}
use complicatedauth_backend.Jobs.Scheduling.{
  NewJob, new_row, has_key, insert_job, Purge, purge_key, purge_job, reset_row, schedule_purge,
  forget_completed,
}
use complicatedauth_backend.Jobs.Invariant.{IsValid, RowIsValid, update-IsValid}

new_row-RowIsValid :
    (n : NewJob) → (ltb n.max_attempts 1 || ltb 100 n.max_attempts) ≡ false → RowIsValid (new_row n)
unfolding new_row
new_row-RowIsValid n h = ground arith

insert-IsValid : (x : Row) (t : List Row) → RowIsValid x → IsValid t → IsValid (insert x t).0
unfolding insert
insert-IsValid x t h v = record {
  unique = Unique-insert x t v.unique;
  rows = elim (Option-cases (get x.uid t)) [
    | inl e ↦ rw (e, insert) (All-append RowIsValid t (x ∷ []) v.rows (h, tt))
    | inr (y, e) ↦ rw (e, insert) v.rows
  ];
}

-- An INSERT leaves the table alone, or adds a row whose CHECK holds.
insert_job_cases {ℓ} :
    (P : List Row → Type ℓ) (exec : Outcome) (n : NewJob) (t : List Row)
    → P t
    → ((ltb n.max_attempts 1 || ltb 100 n.max_attempts) ≡ false → P (insert (new_row n) t).0)
    → P (insert_job exec n t)
unfolding insert_job
insert_job_cases P exec n t kept added =
    elim (Bool-cases (ltb n.max_attempts 1 || ltb 100 n.max_attempts)) [
      | inl bad ↦ subst P (ground arith) kept
      | inr fine ↦ elim (Bool-cases (exists (has_key n.queue n.deduplication_key) t)) [
        | inl there ↦ subst P (ground arith) kept
        | inr absent ↦ by_outcome exec fine absent
      ]
    ]
  where
    by_outcome :
        (o : Outcome)
        → (ltb n.max_attempts 1 || ltb 100 n.max_attempts) ≡ false
        → exists (has_key n.queue n.deduplication_key) t ≡ false
        → P (insert_job o n t)
    by_outcome done fine absent = subst P (ground arith) (added fine)
    by_outcome rejected fine absent = subst P (ground arith) kept
    by_outcome lost fine absent = subst P (ground arith) (added fine)

pub insert_job-IsValid :
    (exec : Outcome) (n : NewJob) (t : List Row) → IsValid t → IsValid (insert_job exec n t)
insert_job-IsValid exec n t v =
    insert_job_cases IsValid exec n t v
      (λ fine. insert-IsValid (new_row n) t (new_row-RowIsValid n fine) v)

pub insert_job_spares :
    (exec : Outcome) (n : NewJob) (t : List Row) (uid : ℕ) (row : Row)
    → get uid t ≡ some row
    → get uid (insert_job exec n t) ≡ some row
insert_job_spares exec n t uid row found =
    insert_job_cases (λ t'. get uid t' ≡ some row) exec n t found (λ fine. inserted)
  where
    inserted : get uid (insert (new_row n) t).0 ≡ some row
    inserted = elim (Option-cases (get (new_row n).uid t)) [
      | inl e ↦ ground (arith, get-insert (new_row n) uid t e)
      | inr (y, e) ↦ unfold insert in ground arith
    ]

reset_row-RowIsValid : (p : Purge) (x : Row) → RowIsValid x → RowIsValid (reset_row p x)
unfolding reset_row
reset_row-RowIsValid p x v = ground arith

-- The upsert leaves the table alone, resets the job of the case, or adds it.
schedule_purge_cases {ℓ} :
    (P : List Row → Type ℓ) (exec : Outcome) (p : Purge) (t : List Row)
    → P t
    → P (update (has_key "retention" (purge_key p)) (reset_row p) t)
    → P (insert_job exec (purge_job p) t)
    → P (schedule_purge exec p t)
unfolding schedule_purge
schedule_purge_cases P exec p t kept reset added =
    elim (Bool-cases (exists (has_key "retention" (purge_key p)) t)) [
      | inr absent ↦ subst P (ground arith) added
      | inl there ↦ by_outcome exec there
    ]
  where
    by_outcome :
        (o : Outcome)
        → exists (has_key "retention" (purge_key p)) t ≡ true
        → P (schedule_purge o p t)
    by_outcome done there = subst P (ground arith) reset
    by_outcome rejected there = subst P (ground arith) kept
    by_outcome lost there = subst P (ground arith) reset

reset_row-uid : (p : Purge) (x : Row) → (reset_row p x).uid ≡ x.uid
unfolding reset_row
reset_row-uid p x = refl

pub schedule_purge-IsValid :
    (exec : Outcome) (p : Purge) (t : List Row) → IsValid t → IsValid (schedule_purge exec p t)
schedule_purge-IsValid exec p t v =
    schedule_purge_cases IsValid exec p t v
      (update-IsValid (has_key "retention" (purge_key p)) (reset_row p) t (reset_row-uid p)
        (λ x _ h. reset_row-RowIsValid p x h) v)
      (insert_job-IsValid exec (purge_job p) t v)

-- A job that is not the purge of the case is left alone.
pub schedule_purge_spares :
    (exec : Outcome) (p : Purge) (t : List Row) (uid : ℕ) (row : Row)
    → get uid t ≡ some row
    → has_key "retention" (purge_key p) row ≡ false
    → get uid (schedule_purge exec p t) ≡ some row
schedule_purge_spares exec p t uid row found other =
    schedule_purge_cases (λ t'. get uid t' ≡ some row) exec p t found
      (ground (
        arith,
        get-update (has_key "retention" (purge_key p)) (reset_row p) uid t (reset_row-uid p),
      ))
      (insert_job_spares exec (purge_job p) t uid row found)

pub forget_completed-IsValid :
    (exec : Outcome) (selected : Row → Bool) (t : List Row)
    → IsValid t
    → IsValid (forget_completed exec selected t)
unfolding forget_completed
forget_completed-IsValid done selected t v = record {
  unique = Unique-delete _ t v.unique;
  rows = All-delete RowIsValid _ t v.rows;
}
forget_completed-IsValid rejected selected t v = v
forget_completed-IsValid lost selected t v = record {
  unique = Unique-delete _ t v.unique;
  rows = All-delete RowIsValid _ t v.rows;
}

pub forget_completed_spares :
    (exec : Outcome) (selected : Row → Bool) (t : List Row) (uid : ℕ) (row : Row)
    → Unique t
    → get uid t ≡ some row
    → is_completed row.status ≡ false
    → get uid (forget_completed exec selected t) ≡ some row
unfolding forget_completed
forget_completed_spares done selected t uid row u found busy =
    ground (arith, get-delete (λ row. is_completed row.status && selected row) uid t u)
forget_completed_spares rejected selected t uid row u found busy = found
forget_completed_spares lost selected t uid row u found busy =
    ground (arith, get-delete (λ row. is_completed row.status && selected row) uid t u)

-- Closing a support case again, or updating a closed one, puts its purge back: whatever state the job
-- is in, dead-lettered or running under a lease, the row is pending at the end of the retention
-- with no attempt used, no lease and no error, once the statement has taken effect.
pub closing_resets_purge :
    (p : Purge) (t : List Row) (uid : ℕ) (row : Row)
    → get uid t ≡ some row
    → has_key "retention" (purge_key p) row ≡ true
    → (new : Row) × (get uid (schedule_purge done p t) ≡ some new)
      × (new.status ≡ pending)
      × (new.attempts ≡ 0)
      × (new.available_at ≡ p.retention_until)
      × (new.lease_uid ≡ none)
      × (new.last_error ≡ none)
      × (new.dead_lettered_at ≡ none)
unfolding schedule_purge reset_row
closing_resets_purge p t uid row found same = (
  reset_row p row,
  ground (
    arith,
    exists-get (has_key "retention" (purge_key p)) uid t row found same,
    get-update (has_key "retention" (purge_key p)) (reset_row p) uid t (reset_row-uid p),
  ),
  refl,
  refl,
  refl,
  refl,
  refl,
  refl,
)
