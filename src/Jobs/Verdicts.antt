-- ===== src/Jobs/Verdicts.antt =====
-- What a worker without the lease gets, what a dead-lettered job waits for, and what becomes of a long
-- error text.
use Prim.Native.String.{len}
use text.Mathlib.Text.{get?, is_char_boundary}
use complicatedauth_backend.Prelude.{
  ℕ, ◌<◌, ◌≡◌, ◌≢◌, refl, ◌⊎◌, inl, inr, false, List, [], ◌∷◌, Option, none, some, arith,
  Option-cases, All, String,
}
use complicatedauth_backend.Table.{get, Unique, count}
use complicatedauth_backend.Table.Laws.{count-get, All-get}
use complicatedauth_backend.Db.{err, Outcome, done}
use complicatedauth_backend.Jobs.Rows.{Row, Clock, row_keyed, running, dead_lettered}
use complicatedauth_backend.Jobs.Message.{stored_message, message_of}
use complicatedauth_backend.Jobs.{
  Error, Job, exec_owned, owned, complete, retry, reschedule, lease_lost, retry_failed,
}
use complicatedauth_backend.Jobs.Scheduling.{has_key, purge_key}
use complicatedauth_backend.Jobs.Operator.{Tables}
use complicatedauth_backend.Jobs.Invariant.{IsValid, RowIsValid}
use complicatedauth_backend.Jobs.Calls.{
  Call, claims, completes, retries, reschedules, replays, inserts, closes, forgets, run, Spares,
  run-Spares,
}

module _ (job : Job) (t : List Row) (u : Unique t)
    (lost_lease : (row : Row)
      → get job.uid t ≡ some row
      → (row.status ≢ running) ⊎ (row.lease_uid ≢ some job.lease_uid)) where
  unowned : (row : Row) → get job.uid t ≡ some row → owned job row ≡ false
  unowned row e = elim (lost_lease row e) [ inl idle ↦ ground arith | inr taken ↦ ground arith ]

  unowned_count : count (owned job) t ≡ 0
  unowned_count = elim (Option-cases (get job.uid t)) [
    | inl e ↦ ground (arith, count-get (owned job) job.uid t (λ x h. ground arith) u)
    | inr (row, e) ↦
        ground (arith, count-get (owned job) job.uid t (λ x h. ground arith) u, unowned row e)
  ]

  unowned_exec :
      {A : Type 0} (e : Error) (g : Row → Row) (a : A)
      → exec_owned done e job g a t ≡ (err lease_lost, t)
  unfolding exec_owned
  unowned_exec e g a = ground (arith, unowned_count)

  -- A worker whose job no longer runs under its lease changes nothing: when the row is gone, or is not
  -- running, or has another lease than the worker's, Complete, Reschedule and, for a text that can be
  -- stored, Retry answer that the lease is lost.
  pub without_lease_nothing_changes :
      (now : Clock) (available_at : ℕ) (cause : Option String) (message : String)
      → stored_message cause ≡ some message
      → (complete done now job t ≡ (err lease_lost, t))
        × (retry done now job available_at cause t ≡ (err lease_lost, t))
        × (reschedule done now job available_at t ≡ (err lease_lost, t))
  unfolding complete retry reschedule
  without_lease_nothing_changes now available_at cause message m =
      (unowned_exec _ _ _, rw (m, retry) (unowned_exec _ _ _), unowned_exec _ _ _)

get?-split : (s : String) → is_char_boundary s 2000 ≡ false → get? s 0 2000 ≡ none
get?-split s h = ground arith

-- Retry fails, and leaves the job running, whenever the error text is longer than 2000 bytes and a
-- character lies across the cut at byte 2000.
pub retry_of_split_character :
    (exec : Outcome) (now : Clock) (job : Job) (available_at : ℕ) (cause : Option String)
    (t : List Row)
    → 2000 < len (message_of cause)
    → is_char_boundary (message_of cause) 2000 ≡ false
    → retry exec now job available_at cause t ≡ (err retry_failed, t)
unfolding retry stored_message
retry_of_split_character exec now job available_at cause t long split =
    ground (arith, get?-split (message_of cause) split)

-- Calls that are neither a replay of the job nor the closing of a support case whose purge it is.
abbrev pub LeavesDead : Row → Call → Type 0
LeavesDead row (replays is_nil f now action_uid r) = r.job_uid ≢ row.uid
LeavesDead row (closes exec p) = has_key "retention" (purge_key p) row ≡ false
LeavesDead row _ = Unit

dead_spared :
    (row : Row) (cs : List Call)
    → RowIsValid row
    → row.status ≡ dead_lettered
    → All (LeavesDead row) cs
    → All (Spares row) cs
dead_spared row [] v d n = tt
dead_spared row (claims is_nil f at locked queue duration lease ∷ cs) v d n = (
  (ground (arith, v.lease_timed), ground (arith, v.lease_timed), λ e. cc),
  dead_spared row cs v d n.1,
)
dead_spared row (completes exec now job ∷ cs) v d n = (ground arith, dead_spared row cs v d n.1)
dead_spared row (retries exec now job available_at cause ∷ cs) v d n =
    (ground arith, dead_spared row cs v d n.1)
dead_spared row (reschedules exec now job available_at ∷ cs) v d n =
    (ground arith, dead_spared row cs v d n.1)
dead_spared row (replays is_nil f now action_uid r ∷ cs) v d n =
    (inr n.0, dead_spared row cs v d n.1)
dead_spared row (inserts exec n ∷ cs) v d s = (tt, dead_spared row cs v d s.1)
dead_spared row (closes exec p ∷ cs) v d s = (s.0, dead_spared row cs v d s.1)
dead_spared row (forgets exec selected ∷ cs) v d s = (rw d refl, dead_spared row cs v d s.1)

-- A dead-lettered job of a valid queue is left alone by every sequence of calls and other statements
-- on the queue that has no Replay of the job and does not close, or update when closed, a support case
-- whose purge the job is.
pub dead_letter_stays :
    (cs : List Call) (tables : Tables) (row : Row)
    → IsValid tables.0
    → get row.uid tables.0 ≡ some row
    → row.status ≡ dead_lettered
    → All (LeavesDead row) cs
    → get row.uid (run tables cs).0 ≡ some row
dead_letter_stays cs tables row v found dead n =
    run-Spares cs tables row v found
      (dead_spared row cs (All-get RowIsValid row.uid tables.0 row v.rows found) dead n)
