-- ===== src/Jobs/Calls.antt =====
-- The calls of BackgroundJobStore and the other statements that write background_jobs as steps, and
-- which of them leave the row of a running job alone.
use complicatedauth_backend.Prelude.{
  ℕ, ◌*◌, ◌≡◌, refl, sym, ◌∙◌, ◌≢◌, ◌⊎◌, inl, inr, Bool, true, false, List, [], ◌∷◌, Option, some,
  arith, Option-cases, Bool-cases, leb, ◌==◌, All, String, subst,
}
use complicatedauth_backend.Prelude.Int.{ℤ}
use complicatedauth_backend.Table.{get, update, Unique}
use complicatedauth_backend.Table.Laws.{get-update}
use complicatedauth_backend.Db.{Outcome}
use complicatedauth_backend.Duration.{second, duration_seconds}
use complicatedauth_backend.Jobs.Rows.{Row, Clock, row_keyed, pending, dead_lettered, is_completed}
use complicatedauth_backend.Jobs.Message.{stored_message}
use complicatedauth_backend.Jobs.{
  Job, Readings, Faults, is_exhausted, bury, is_eligible, lease_row, claim, is_past, owned,
  complete, complete_row, retry, retry_row, reschedule, reschedule_row, complete_failed,
  retry_failed, reschedule_failed,
}
use complicatedauth_backend.Jobs.Scheduling.{
  NewJob, insert_job, Purge, purge_key, has_key, schedule_purge, forget_completed,
}
use complicatedauth_backend.Jobs.Inserted.{
  insert_job-IsValid, insert_job_spares, schedule_purge-IsValid, schedule_purge_spares,
  forget_completed-IsValid, forget_completed_spares,
}
use complicatedauth_backend.Jobs.Operator.{Replay, Tables, Action, replay, revive}
use complicatedauth_backend.Jobs.Selection.{bury-uid, buried}
use complicatedauth_backend.Jobs.Invariant.{
  IsValid, claim_cases, claim-IsValid, exec_owned_cases, complete-IsValid, retry-IsValid,
  reschedule-IsValid, Replayed, replay-Replayed, replay-IsValid,
}

pub data Call : Type 0 where
  claims : Bool → Faults → Readings → (ℕ → Bool) → String → ℤ → ℕ → Call
  completes : Outcome → Clock → Job → Call
  retries : Outcome → Clock → Job → ℕ → Option String → Call
  reschedules : Outcome → Clock → Job → ℕ → Call
  replays : Bool → Faults → Clock → ℕ → Replay → Call
  inserts : Outcome → NewJob → Call
  closes : Outcome → Purge → Call
  forgets : Outcome → (Row → Bool) → Call

unfoldable pub step : Tables → Call → Tables
step (jobs, actions) (claims is_nil f at locked queue duration lease) =
    ((claim is_nil f at locked queue duration lease jobs).1, actions)
step (jobs, actions) (completes exec now job) = ((complete exec now job jobs).1, actions)
step (jobs, actions) (retries exec now job available_at cause) =
    ((retry exec now job available_at cause jobs).1, actions)
step (jobs, actions) (reschedules exec now job available_at) =
    ((reschedule exec now job available_at jobs).1, actions)
step tables (replays is_nil f now action_uid r) = (replay is_nil f now action_uid r tables).1
step (jobs, actions) (inserts exec n) = (insert_job exec n jobs, actions)
step (jobs, actions) (closes exec p) = (schedule_purge exec p jobs, actions)
step (jobs, actions) (forgets exec selected) = (forget_completed exec selected jobs, actions)

unfoldable pub run : Tables → List Call → Tables
run tables [] = tables
run tables (c ∷ cs) = run (step tables c) cs

step-IsValid : (tables : Tables) (c : Call) → IsValid tables.0 → IsValid (step tables c).0
unfolding step
step-IsValid (jobs, actions) (claims is_nil f at locked queue duration lease) v =
    claim-IsValid is_nil f at locked queue duration lease jobs v
step-IsValid (jobs, actions) (completes exec now job) v = complete-IsValid exec now job jobs v
step-IsValid (jobs, actions) (retries exec now job available_at cause) v =
    retry-IsValid exec now job jobs v available_at cause
step-IsValid (jobs, actions) (reschedules exec now job available_at) v =
    reschedule-IsValid exec now job jobs v available_at
step-IsValid (jobs, actions) (replays is_nil f now action_uid r) v =
    replay-IsValid is_nil f now action_uid r (jobs, actions) v
step-IsValid (jobs, actions) (inserts exec n) v = insert_job-IsValid exec n jobs v
step-IsValid (jobs, actions) (closes exec p) v = schedule_purge-IsValid exec p jobs v
step-IsValid (jobs, actions) (forgets exec selected) v =
    forget_completed-IsValid exec selected jobs v

-- Whatever is called, and whatever fails, the queue keeps its constraints: UIDs are unique, a job
-- has a lease exactly while it runs, a completion time exactly when completed and a dead-letter time
-- exactly when dead-lettered; its attempts never pass its maximum, and a pending job has one left.
pub run-IsValid : (cs : List Call) (tables : Tables) → IsValid tables.0 → IsValid (run tables cs).0
unfolding run
run-IsValid [] tables v = v
run-IsValid (c ∷ cs) tables v = run-IsValid cs (step tables c) (step-IsValid tables c v)

-- Calls that come before the end of a running job's lease and do not hold it, and, for any other
-- job, calls that leave a completed or dead-lettered one alone. Closing a support case resets its purge.
abbrev pub Spares : Row → Call → Type 0
Spares row (claims is_nil f at locked queue duration lease) =
    (is_past row.lease_expires_at at.exhausted_check ≡ false)
    × (is_past row.lease_expires_at at.lease_check ≡ false)
    × (row.status ≢ pending)
Spares row (completes exec now job) = owned job row ≡ false
Spares row (retries exec now job available_at cause) = owned job row ≡ false
Spares row (reschedules exec now job available_at) = owned job row ≡ false
Spares row (replays is_nil f now action_uid r) =
    (row.status ≢ dead_lettered) ⊎ (r.job_uid ≢ row.uid)
Spares row (inserts exec n) = Unit
Spares row (closes exec p) = has_key "retention" (purge_key p) row ≡ false
Spares row (forgets exec selected) = is_completed row.status ≡ false

module _ (row : Row) (t : List Row) (found : get row.uid t ≡ some row) where
  owned_spares :
      (job : Job) (f : Row → Row)
      → ((x : Row) → (f x).uid ≡ x.uid)
      → owned job row ≡ false
      → get row.uid (update (owned job) f t) ≡ some row
  owned_spares job f same foreign = ground (arith, get-update (owned job) f row.uid t same)

  bury_spares :
      (at : Readings) (queue : String)
      → is_past row.lease_expires_at at.exhausted_check ≡ false
      → get row.uid (buried at queue t) ≡ some row
  bury_spares at queue h =
      ground
        (arith, get-update (is_exhausted at queue) (bury at) row.uid t (bury-uid at), not_exhausted)
    where
      not_exhausted : is_exhausted at queue row ≡ false
      not_exhausted = unfold is_exhausted in ground arith

  claim_spares :
      (is_nil : Bool) (f : Faults) (at : Readings) (locked : ℕ → Bool) (queue : String)
      (duration : ℤ) (lease : ℕ)
      → Unique t
      → is_past row.lease_expires_at at.exhausted_check ≡ false
      → is_past row.lease_expires_at at.lease_check ≡ false
      → row.status ≢ pending
      → get row.uid (claim is_nil f at locked queue duration lease t).1 ≡ some row
  claim_spares is_nil f at locked queue duration lease u early before busy =
      let there = bury_spares at queue early in
      let span = duration_seconds duration * second in
      claim_cases (λ t'. get row.uid t' ≡ some row) is_nil f at locked queue duration lease t u
        found there
        (λ chosen here good. elim (Bool-cases (row.uid == chosen.uid)) [
          | inl same ↦
              let uid : row.uid ≡ chosen.uid = ground arith in
              let e : some row ≡ some chosen = sym there ∙ rw uid here in
              absurd (not_eligible (ground arith))
          | inr other ↦ ground (
            arith,
            get-update (λ x. x.uid == chosen.uid) (lease_row at lease span) row.uid
                (buried at queue t) lease_row-uid,
            there,
          )
        ])
    where
      lease_row-uid :
          (x : Row) → (lease_row at lease (duration_seconds duration * second) x).uid ≡ x.uid
      lease_row-uid x = unfold lease_row in refl

      not_eligible : is_eligible at locked queue row ≡ true → ⊥
      not_eligible h = unfold is_eligible in ground arith

  retry_spares :
      (exec : Outcome) (now : Clock) (job : Job) (available_at : ℕ) (cause : Option String)
      → owned job row ≡ false
      → get row.uid (retry exec now job available_at cause t).1 ≡ some row
  unfolding retry
  retry_spares exec now job available_at cause foreign =
      elim (Option-cases (stored_message cause)) [
        | inl e ↦ subst (λ t'. get row.uid t' ≡ some row) (ground arith) found
        | inr (message, e) ↦
            subst (λ t'. get row.uid t' ≡ some row) (ground arith)
              (exec_owned_cases (λ t'. get row.uid t' ≡ some row) exec retry_failed job
                (retry_row now available_at message) (leb job.max_attempts job.attempt) t found
                (owned_spares job (retry_row now available_at message)
                  (λ x. unfold retry_row in refl) foreign))
      ]

  replay_spares :
      (is_nil : Bool) (f : Faults) (now : Clock) (action_uid : ℕ) (r : Replay)
      (actions : List Action)
      → ((row.status ≢ dead_lettered) ⊎ (r.job_uid ≢ row.uid))
      → get row.uid (replay is_nil f now action_uid r (t, actions)).1.0 ≡ some row
  replay_spares is_nil f now action_uid r actions s =
      by_effect _ (replay-Replayed is_nil f now action_uid r (t, actions))
    where
      revive-uid : (x : Row) → (revive now x).uid ≡ x.uid
      revive-uid x = unfold revive in refl

      by_effect :
          (new : Tables) → Replayed now action_uid r (t, actions) new → get row.uid new.0 ≡ some row
      by_effect new (Replayed.kept e) = rw e found
      by_effect new (Replayed.revived dead there status e) =
          elim (Bool-cases (row.uid == r.job_uid)) [
            | inl same ↦
                let uid : row.uid ≡ r.job_uid = ground arith in
                let one : some row ≡ some dead = sym found ∙ rw uid there in absurd (ground arith)
            | inr other ↦ rw e (
                ground
                  (arith, get-update (λ x. x.uid == r.job_uid) (revive now) row.uid t revive-uid))
          ]

-- A call that spares a row leaves it as it is.
step-Spares :
    (tables : Tables) (c : Call) (row : Row)
    → IsValid tables.0
    → get row.uid tables.0 ≡ some row
    → Spares row c
    → get row.uid (step tables c).0 ≡ some row
unfolding step complete reschedule
step-Spares (jobs, actions) (claims is_nil f at locked queue duration lease) row v found s =
    claim_spares row jobs found is_nil f at locked queue duration lease v.unique s.0 s.1 s.2
step-Spares (jobs, actions) (completes exec now job) row v found s =
    exec_owned_cases (λ t'. get row.uid t' ≡ some row) exec complete_failed job (complete_row now)
      tt jobs found
      (owned_spares row jobs found job (complete_row now) (λ x. unfold complete_row in refl) s)
step-Spares (jobs, actions) (retries exec now job available_at cause) row v found s =
    retry_spares row jobs found exec now job available_at cause s
step-Spares (jobs, actions) (reschedules exec now job available_at) row v found s =
    exec_owned_cases (λ t'. get row.uid t' ≡ some row) exec reschedule_failed job
      (reschedule_row now available_at) tt jobs found
      (owned_spares row jobs found job (reschedule_row now available_at)
        (λ x. unfold reschedule_row in refl) s)
step-Spares (jobs, actions) (replays is_nil f now action_uid r) row v found s =
    replay_spares row jobs found is_nil f now action_uid r actions s
step-Spares (jobs, actions) (inserts exec n) row v found s =
    insert_job_spares exec n jobs row.uid row found
step-Spares (jobs, actions) (closes exec p) row v found s =
    schedule_purge_spares exec p jobs row.uid row found s
step-Spares (jobs, actions) (forgets exec selected) row v found s =
    forget_completed_spares exec selected jobs row.uid row v.unique found s

pub run-Spares :
    (cs : List Call) (tables : Tables) (row : Row)
    → IsValid tables.0
    → get row.uid tables.0 ≡ some row
    → All (Spares row) cs
    → get row.uid (run tables cs).0 ≡ some row
unfolding run
run-Spares [] tables row v found s = found
run-Spares (c ∷ cs) tables row v found s =
    run-Spares cs (step tables c) row (step-IsValid tables c v)
      (step-Spares tables c row v found s.0) s.1
