-- ===== src/Workers/Laws.antt =====
-- What a worker's round does with a job.
use complicatedauth_backend.Prelude.{
  ℕ, zero, suc, ◌+◌, ◌*◌, ◌≤◌, ◌≡◌, ◌≢◌, refl, ap, All, Option-cases, String, Bool, true, false,
  List, Option, none, some, arith, inl, inr, ◌⊎◌, leb, Bool-cases, subst,
}
use complicatedauth_backend.Table.{get, Unique}
use complicatedauth_backend.Db.{Result, ok, err, done}
use complicatedauth_backend.Duration.{second}
use complicatedauth_backend.Jobs.{
  Job, Error, exec_owned, complete, complete_row, retry, retry_row, reschedule, reschedule_row,
  complete_failed, retry_failed, reschedule_failed,
}
use complicatedauth_backend.Jobs.Rows.{Row, row_keyed, pending, running, completed, dead_lettered}
use complicatedauth_backend.Jobs.Message.{stored_message, message_of}
use complicatedauth_backend.Jobs.Invariant.{IsValid, claim-IsValid}
use complicatedauth_backend.Jobs.Leases.{
  IsHeld, ByOthers, claim-IsHeld, exec_owned_held, get-owned, run-IsHeld,
}
use complicatedauth_backend.Jobs.Operator.{Tables}
use complicatedauth_backend.Jobs.Calls.{run, run-IsValid}
use complicatedauth_backend.Jobs.Verdicts.{without_lease_nothing_changes}
use complicatedauth_backend.Workers.{handle_background_job}
use complicatedauth_backend.Workers.Delay.{retry_delay, retry_delay_bounds}
use complicatedauth_backend.Workers.Rounds.{Round, queue_at, next_try, try_claims, end_job, work}

module _ {S : Type 0} (round : Round S) where
  -- The job that the queues give is leased in the table.
  try_claims-IsHeld :
      (next_queue offset left : ℕ) (t : Tables) (o : ℕ) (job : Job)
      → IsValid t.0
      → (try_claims round next_queue offset left t).0 ≡ some (o, job)
      → IsValid (try_claims round next_queue offset left t).1.0
        × ((row : Row) × (get job.uid (try_claims round next_queue offset left t).1.0 ≡ some row)
            × IsHeld job row)
  unfolding try_claims
  try_claims-IsHeld next_queue offset zero t o job v h = absurd (ground arith)
  try_claims-IsHeld next_queue offset (suc left) t o job v h =
      let call = round.claims offset in
      let queue = queue_at (next_queue + offset) in
      let before = run-IsValid call.others t v in
      let v' =
        claim-IsValid false call.faults call.at call.locked queue round.lease call.lease_uid
          (run t call.others).0 before in
      by_answer _ _ _ v'
        (λ j e.
          let (row, found, held, same) =
            claim-IsHeld call.faults call.at call.locked queue round.lease call.lease_uid
              (run t call.others).0 j before.unique e in
          (row, found, held))
        (λ k. try_claims-IsHeld next_queue (suc offset) left _ o job v' k) h
    where
      by_answer :
          (a : Result Error (Option Job)) (t' : Tables) (rest : Option (ℕ × Job) × Tables)
          → IsValid t'.0
          → ((j : Job) → a ≡ ok (some j) → (row : Row) × (get j.uid t'.0 ≡ some row) × IsHeld j row)
          → (rest.0 ≡ some (o, job)
              → IsValid rest.1.0
                × ((row : Row) × (get job.uid rest.1.0 ≡ some row) × IsHeld job row))
          → (next_try offset a t' rest).0 ≡ some (o, job)
          → IsValid (next_try offset a t' rest).1.0
            × ((row : Row) × (get job.uid (next_try offset a t' rest).1.0 ≡ some row)
                × IsHeld job row)
      by_answer (err e) t' rest v' held later h = later h
      by_answer (ok none) t' rest v' held later h = later h
      by_answer (ok (some j)) t' rest v' held later h =
          let same : j ≡ job = ground arith in
          let (row, found, holds) = held j refl in
          (
            v',
            subst (λ i. (x : Row) × (get i.uid t'.0 ≡ some x) × IsHeld i x) same
                (row, found, holds),
          )

-- How a job's row must stand after its handler has answered.
abbrev pub EndsAs : ℕ → Job → Result String (Option ℕ) → Row → Type 0
EndsAs finished job (err message) row =
    ((leb job.max_attempts job.attempt ≡ true) × (row.status ≡ dead_lettered))
    ⊎ ((leb job.max_attempts job.attempt ≡ false)
        × (row.status ≡ pending)
        × (finished + second ≤ row.available_at)
        × (row.available_at ≤ finished + 320 * second))
EndsAs finished job (ok none) row = row.status ≡ completed
EndsAs finished job (ok (some again)) row = (row.status ≡ pending) × (row.available_at ≡ again)

module _ {S : Type 0} (round : Round S) (job : Job) (row : Row) (t : List Row) (v : IsValid t)
    (found : get job.uid t ≡ some row) (held : IsHeld job row) (e : round.exec ≡ done) where
  -- A statement of the holder leaves the row that it makes.
  holder_leaves :
      {A : Type 0} (x : Error) (g : Row → Row) (a : A)
      → ((r : Row) → (g r).uid ≡ r.uid)
      → get job.uid (exec_owned round.exec x job g a t).1 ≡ some (g row)
  holder_leaves x g a same =
      rw (e, exec_owned_held job row held x g a t v.unique found)
        (get-owned job row held g t same found)

  retry_leaves :
      (message m : String) (until : ℕ)
      → stored_message (some message) ≡ some m
      → get job.uid (retry round.exec round.now job until (some message) t).1
        ≡ some (retry_row round.now until m row)
  unfolding retry
  retry_leaves message m until stored =
      rw (retry, stored)
        (holder_leaves retry_failed (retry_row round.now until m) (leb job.max_attempts job.attempt)
          (λ r. unfold retry_row in refl))

  delay_bounds :
      ((r : ℕ) → round.random ≡ some r → r ≤ 255)
      → (second ≤ retry_delay job.attempt round.random)
        × (retry_delay job.attempt round.random ≤ 320 * second)
  delay_bounds byte = by_random round.random byte
    where
      by_random :
          (o : Option ℕ)
          → ((r : ℕ) → o ≡ some r → r ≤ 255)
          → (second ≤ retry_delay job.attempt o) × (retry_delay job.attempt o ≤ 320 * second)
      by_random (some r) byte = let b = retry_delay_bounds job.attempt r (byte r refl) in (b.0, b.1)
      by_random none byte =
          let b = retry_delay_bounds job.attempt 0 (omega arith) in (b.2, omega (arith, b.1, b.3))

  end_job_settles :
      (answer : Result String (Option ℕ))
      → ((r : ℕ) → round.random ≡ some r → r ≤ 255)
      → ((message : String)
          → answer ≡ err message
          → (m : String) × (stored_message (some message) ≡ some m))
      → (new : Row) × (get job.uid (end_job round job answer t) ≡ some new)
        × (new.lease_uid ≡ none)
        × EndsAs round.finished_at job answer new
  unfolding end_job complete reschedule retry
  end_job_settles (ok none) byte stored = (
    complete_row round.now row,
    holder_leaves complete_failed (complete_row round.now) tt (λ r. unfold complete_row in refl),
    unfold complete_row in refl,
    unfold complete_row in refl,
  )
  end_job_settles (ok (some again)) byte stored = (
    reschedule_row round.now again row,
    holder_leaves reschedule_failed (reschedule_row round.now again) tt
        (λ r. unfold reschedule_row in refl),
    unfold reschedule_row in refl,
    (unfold reschedule_row in refl, unfold reschedule_row in refl),
  )
  end_job_settles (err message) byte stored =
      let (m, stored_as) = stored message refl in
      let until = round.finished_at + retry_delay job.attempt round.random in
      let delay = delay_bounds byte in
      (
        retry_row round.now until m row,
        retry_leaves message m until stored_as,
        unfold retry_row in refl,
        elim (Bool-cases (leb job.max_attempts job.attempt)) [
          | inl spent ↦ inl (spent, unfold retry_row in ground (arith, held.attempts, held.bound))
          | inr left ↦ inr (
            left,
            unfold retry_row in ground (arith, held.attempts, held.bound),
            unfold retry_row in ground (arith, held.attempts, held.bound, delay.0),
            unfold retry_row in ground (arith, held.attempts, held.bound, delay.1),
          )
        ],
      )

module _ {S : Type 0} (round : Round S) (job : Job) (t : List Row) (u : Unique t)
    (lost_lease : (row : Row)
      → get job.uid t ≡ some row
      → (row.status ≢ running) ⊎ (row.lease_uid ≢ some job.lease_uid))
    (e : round.exec ≡ done) where
  end_job_lost : (answer : Result String (Option ℕ)) → end_job round job answer t ≡ t
  unfolding end_job retry
  end_job_lost (ok none) = ground (
    arith,
    without_lease_nothing_changes job t u lost_lease round.now 0 none "background job failed"
        (unfold stored_message message_of in refl),
  )
  end_job_lost (ok (some again)) = ground (
    arith,
    without_lease_nothing_changes job t u lost_lease round.now again none "background job failed"
        (unfold stored_message message_of in refl),
  )
  end_job_lost (err message) = elim (Option-cases (stored_message (some message))) [
    | inl unstored ↦ ground (arith, unstored)
    | inr (m, stored) ↦
        let until = round.finished_at + retry_delay job.attempt round.random in
        let none_changes =
          without_lease_nothing_changes job t u lost_lease round.now until (some message) m
            stored in
        rw e (ap (λ (x : Result Error Bool × List Row). x.1) none_changes.1)
  ]

-- The queue when the handler of a claimed job has answered.
abbrev pub at_answer : {S : Type 0} → Round S → ℕ → Tables → List Row
at_answer round next_queue t = (run (try_claims round next_queue 0 3 t).1 round.others).0

work_ends :
    {S : Type 0}
    → (round : Round S) (next_queue : ℕ) (s : S) (t : Tables) (offset : ℕ) (job : Job)
    → (try_claims round next_queue 0 3 t).0 ≡ some (offset, job)
    → (work round next_queue s t).2.0
      ≡ end_job round job
          (handle_background_job round.handlers job s).0
          (at_answer round next_queue t)
unfolding work
work_ends round next_queue s t offset job claimed = ground arith

-- A round settles the job that it claims: on a valid queue, whatever others do to the queue before
-- each claim, and whatever others, who do not hold the lease, do to it before the lease's end while
-- the handler runs, other than closing the support case whose purge the job is: if the round's
-- last statement succeeds and an error's text can be stored, the job's row is free of its lease
-- afterwards and is completed, or pending from the time that the handler gave, or after an error
-- dead-lettered when the attempts are used up and else pending after a back-off of 1 to 320 seconds.
pub claimed_job_is_settled :
    {S : Type 0}
    → (round : Round S) (next_queue : ℕ) (s : S) (t : Tables) (offset : ℕ) (job : Job) → IsValid t.0
    → round.exec ≡ done
    → ((r : ℕ) → round.random ≡ some r → r ≤ 255)
    → (try_claims round next_queue 0 3 t).0 ≡ some (offset, job)
    → All (ByOthers job) round.others
    → ((message : String)
        → (handle_background_job round.handlers job s).0 ≡ err message
        → (m : String) × (stored_message (some message) ≡ some m))
    → (row : Row) × (get job.uid (work round next_queue s t).2.0 ≡ some row)
      × (row.lease_uid ≡ none)
      × EndsAs round.finished_at job (handle_background_job round.handlers job s).0 row
claimed_job_is_settled round next_queue s t offset job v e byte claimed others stored =
    let (v', (row, found, held)) = try_claims-IsHeld round next_queue 0 3 t offset job v claimed in
    let (valid, still) = run-IsHeld round.others _ row job v' found held others in
    rw (work_ends round next_queue s t offset job claimed) (
      end_job_settles round job row (at_answer round next_queue t) valid still held e
        (handle_background_job round.handlers job s).0 byte stored)

-- A worker that has lost its lease while its handler ran, whatever the cause, leaves the queue as it
-- finds it.
lost_job_is_left :
    {S : Type 0}
    → (round : Round S) (next_queue : ℕ) (s : S) (t : Tables) (offset : ℕ) (job : Job) → IsValid t.0
    → round.exec ≡ done
    → (try_claims round next_queue 0 3 t).0 ≡ some (offset, job)
    → ((row : Row)
        → get job.uid (at_answer round next_queue t) ≡ some row
        → (row.status ≢ running) ⊎ (row.lease_uid ≢ some job.lease_uid))
    → (work round next_queue s t).2.0 ≡ at_answer round next_queue t
lost_job_is_left round next_queue s t offset job v e claimed lost_lease =
    let (v', (row, found, held)) = try_claims-IsHeld round next_queue 0 3 t offset job v claimed in
    let valid = run-IsValid round.others (try_claims round next_queue 0 3 t).1 v' in
    rw (work_ends round next_queue s t offset job claimed) (
      end_job_lost round job (at_answer round next_queue t) valid.unique lost_lease e
        (handle_background_job round.handlers job s).0)
