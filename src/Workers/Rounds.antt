-- ===== src/Workers/Rounds.antt =====
-- The loop of runBackgroundJobWorker of internal/api/background_jobs.go, one round at a time. Between
-- the worker's own calls the other workers, the operators and the requests make theirs.
use complicatedauth_backend.Prelude.{
  ℕ, zero, suc, ◌+◌, ◌%◌, String, Bool, false, List, Option, none, some, ◌==◌, if◌then◌else◌,
}
use complicatedauth_backend.Prelude.Int.{ℤ}
use complicatedauth_backend.Db.{Result, ok, err, Outcome}
use complicatedauth_backend.Jobs.{Job, Error, Faults, Readings, claim, complete, retry, reschedule}
use complicatedauth_backend.Jobs.Rows.{Row, Clock}
use complicatedauth_backend.Jobs.Operator.{Tables}
use complicatedauth_backend.Jobs.Calls.{Call, run}
use complicatedauth_backend.Workers.{Handlers, handle_background_job}
use complicatedauth_backend.Workers.Delay.{retry_delay}

-- queues
unfoldable pub queue_at : ℕ → String
queue_at n = if n % 3 == 0 then "retention" else if n % 3 == 1 then "email" else "maintenance"

-- What others do to the queue before a Claim, what the Claim reads and what fails in it.
pub record ClaimCall : Type 0 where
  pub others : List Call
  pub faults : Faults
  pub at : Readings
  pub locked : ℕ → Bool
  pub lease_uid : ℕ

-- A round: its claims by their offset, how its handlers act, what others do to the queue after the
-- job is claimed, while its handler runs, and the call that ends the job.
pub record Round (S : Type 0) : Type 0 where
  pub claims : ℕ → ClaimCall
  pub lease : ℤ
  pub handlers : Handlers S
  pub others : List Call
  pub finished_at : ℕ
  pub random : Option ℕ
  pub exec : Outcome
  pub now : Clock

-- nextQueue after a job was claimed at an offset
unfoldable pub following_queue : ℕ → ℕ → ℕ
following_queue next_queue offset = (next_queue + offset + 1) % 3

-- A claim's answer and table, or else what the later claims give. A claim that fails is passed over.
abbrev pub next_try :
    ℕ → Result Error (Option Job) → Tables → Option (ℕ × Job) × Tables → Option (ℕ × Job) × Tables
next_try offset (ok (some job)) t rest = (some (offset, job), t)
next_try offset (ok none) t rest = rest
next_try offset (err e) t rest = rest

module _ {S : Type 0} where
  -- The loop over the queues from an offset on, with `left` queues to go: the offset at which a job
  -- is claimed, and the job.
  unfoldable pub try_claims : Round S → ℕ → ℕ → ℕ → Tables → Option (ℕ × Job) × Tables
  try_claims round next_queue offset zero t = (none, t)
  try_claims round next_queue offset (suc left) t =
      let call = round.claims offset in
      let (jobs, actions) = run t call.others in
      let (answer, jobs') =
        claim false call.faults call.at call.locked (queue_at (next_queue + offset)) round.lease
          call.lease_uid jobs in
      next_try offset answer (jobs', actions)
        (try_claims round next_queue (suc offset) left (jobs', actions))

  -- How a worker ends a job by what its handler answers. Its errors, such as that the lease is lost,
  -- are at most logged.
  unfoldable pub end_job : Round S → Job → Result String (Option ℕ) → List Row → List Row
  end_job round job (err message) t =
      (retry round.exec round.now job (round.finished_at + retry_delay job.attempt round.random)
        (some message) t).1
  end_job round job (ok none) t = (complete round.exec round.now job t).1
  end_job round job (ok (some again)) t = (reschedule round.exec round.now job again t).1

  -- A round: nextQueue, the state of the handlers and the queue afterwards.
  unfoldable pub work : Round S → ℕ → S → Tables → ℕ × S × Tables
  unfolding try_claims following_queue end_job
  work round next_queue s t =
      let (found, t') = try_claims round next_queue 0 3 t in
      elim found [
        | none ↦ (next_queue, s, t')
        | some claimed ↦
            let (offset, job) = claimed in
            let (answer, s') = handle_background_job round.handlers job s in
            let (jobs, actions) = run t' round.others in
            (following_queue next_queue offset, s', (end_job round job answer jobs, actions))
      ]
