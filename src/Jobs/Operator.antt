-- ===== src/Jobs/Operator.antt =====
-- The operator's side of internal/store/background_jobs.go: List and Replay.
use Prim.Native.String.{len}
use complicatedauth_backend.Prelude.{
  ℕ, String, str_eq, Bool, not, ◌&&◌, ◌||◌, List, [], ◌∷◌, ◌++◌, Option, none, some, ltb, leb, ◌==◌,
  if◌then◌else◌, take,
}
use complicatedauth_backend.Prelude.Int.{ℤ, pos, ltb_ℤ, pos_part}
use complicatedauth_backend.Prelude.Text.{trim_space}
use complicatedauth_backend.Table.{get, update, select}
use complicatedauth_backend.Db.{Result, ok, err, transact}
use complicatedauth_backend.Cleanup.{is_some}
use complicatedauth_backend.Jobs.Rows.{Status, pending, is_dead, status_name, Row, Clock, row_keyed}
use complicatedauth_backend.Jobs.{
  Error, no_database, bad_limit, bad_status, list_failed, scan_failed, uid_required, bad_actor,
  bad_reason, replay_begin_failed, replay_lock_failed, not_found, not_dead_lettered, record_failed,
  replay_failed, replay_commit_failed, Faults,
}

-- BackgroundJobSummary: the row without its payload and its keys.
pub record Summary : Type 0 where
  pub uid : ℕ
  pub queue : String
  pub job_type : String
  pub status : Status
  pub attempts : ℕ
  pub max_attempts : ℕ
  pub available_at : ℕ
  pub lease_expires_at : Option ℕ
  pub last_error : Option String
  pub created_at : ℕ
  pub updated_at : ℕ
  pub completed_at : Option ℕ
  pub dead_lettered_at : Option ℕ

unfoldable pub summary : Row → Summary
summary row = record {
  uid = row.uid;
  queue = row.queue;
  job_type = row.job_type;
  status = row.status;
  attempts = row.attempts;
  max_attempts = row.max_attempts;
  available_at = row.available_at;
  lease_expires_at = row.lease_expires_at;
  last_error = row.last_error;
  created_at = row.created_at;
  updated_at = row.updated_at;
  completed_at = row.completed_at;
  dead_lettered_at = row.dead_lettered_at;
}

-- ORDER BY updated_at DESC, uid DESC: whether `x` comes no later than `y`
unfoldable pub newer : Row → Row → Bool
newer x y = ltb y.updated_at x.updated_at || (x.updated_at == y.updated_at && leb y.uid x.uid)

unfoldable pub insert_newer : Row → List Row → List Row
insert_newer x [] = x ∷ []
insert_newer x (y ∷ ys) = if newer x y then x ∷ y ∷ ys else y ∷ insert_newer x ys

unfoldable pub newest_first : List Row → List Row
newest_first [] = []
newest_first (x ∷ xs) = insert_newer x (newest_first xs)

unfoldable pub summaries : List Row → List Summary
summaries [] = []
summaries (x ∷ xs) = summary x ∷ summaries xs

-- options.Status != "" && options.Status != "pending" && ...
abbrev pub is_known : String → Bool
is_known s =
    str_eq s ""
    || str_eq s "pending"
    || str_eq s "running"
    || str_eq s "completed"
    || str_eq s "dead_lettered"

-- options.Limit, 0 standing for 100
unfoldable pub list_limit : ℤ → ℤ
list_limit (pos n) = if n == 0 then pos 100 else pos n
list_limit limit = limit

-- List. The three faults are those of Query, of Scan on some row, and of rows.Err().
unfoldable pub list :
    Bool → Bool → Bool → Bool → String → ℤ → List Row → Result Error (List Summary)
list is_nil query_fails scan_fails rows_fail status limit t =
    if is_nil
    then err no_database
    else if ltb_ℤ (list_limit limit) (pos 1) || ltb_ℤ (pos 500) (list_limit limit)
    then err bad_limit
    else if not (is_known status)
    then err bad_status
    else if query_fails
    then err list_failed
    else if scan_fails
    then err scan_failed
    else if rows_fail
    then err list_failed
    else ok (
        summaries (
          take (pos_part (list_limit limit)) (
            newest_first
              (select (λ r. str_eq status "" || str_eq (status_name r.status) status) t))))

-- BackgroundJobReplay
pub record Replay : Type 0 where
  pub job_uid : ℕ
  pub actor : String
  pub reason : String

-- A row of platform_operator_actions, whose action is background_job.replayed.
pub record Action : Type 0 where
  pub uid : ℕ
  pub actor : String
  pub target_uid : ℕ
  pub reason : String
  pub queue : String
  pub job_type : String
  pub attempts : ℕ
  pub max_attempts : ℕ
  pub had_last_error : Bool

abbrev pub Tables : Type 0
Tables = List Row × List Action

-- The guards of Replay on its arguments; `none` is nil.
unfoldable pub check_replay : Replay → Option Error
check_replay r =
    if r.job_uid == 0
    then some uid_required
    else if str_eq (trim_space r.actor) ""
        || ltb 200 (len (trim_space r.actor))
        || not (str_eq (trim_space r.actor) r.actor)
    then some bad_actor
    else if ltb (len (trim_space r.reason)) 10
        || ltb 1000 (len (trim_space r.reason))
        || not (str_eq (trim_space r.reason) r.reason)
    then some bad_reason
    else none

-- UPDATE background_jobs SET status='pending', attempts=0, ...
unfoldable pub revive : Clock → Row → Row
revive now row = record row {
  status = pending;
  attempts = 0;
  available_at = now.value;
  lease_uid = none;
  lease_expires_at = none;
  last_error = none;
  completed_at = none;
  dead_lettered_at = none;
  updated_at = now.updated;
}

unfoldable pub action_of : ℕ → Replay → Row → Action
action_of action_uid r row = record {
  uid = action_uid;
  actor = trim_space r.actor;
  target_uid = r.job_uid;
  reason = trim_space r.reason;
  queue = row.queue;
  job_type = row.job_type;
  attempts = row.attempts;
  max_attempts = row.max_attempts;
  had_last_error = is_some row.last_error;
}

-- The statements of the transaction of Replay.
unfoldable pub replay_body :
    Faults → Clock → ℕ → Replay → Tables → Result Error (Tables × Unit {0} × Error)
replay_body faults now action_uid r (jobs, actions) =
    if faults.first then err replay_lock_failed else elim (get r.job_uid jobs) [
      | none ↦ err not_found
      | some row ↦
          if not (is_dead row.status)
          then err not_dead_lettered
          else if faults.second
          then err record_failed
          else if faults.third
          then err replay_failed
          else ok (
            (
              update (λ x. x.uid == r.job_uid) (revive now) jobs,
              actions ++ action_of action_uid r row ∷ [],
            ),
            tt,
            replay_commit_failed,
          )
    ]

-- Replay, with the UID that uuid.New() gives to the action.
unfoldable pub replay :
    Bool → Faults → Clock → ℕ → Replay → Tables → Result Error (Unit {0}) × Tables
replay is_nil faults now action_uid r tables =
    if is_nil then (err no_database, tables) else elim (check_replay r) [
      | some e ↦ (err e, tables)
      | none ↦
          transact faults.begin replay_begin_failed faults.commit
            (replay_body faults now action_uid r tables) tables
    ]
