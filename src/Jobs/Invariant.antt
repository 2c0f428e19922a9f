-- ===== src/Jobs/Invariant.antt =====
-- The constraints of background_jobs (migrations 000003 and 000010), and that attempts keep to their
-- bound.
use complicatedauth_backend.Prelude.{
  ℕ, ◌*◌, ◌<◌, ◌≤◌, ◌≡◌, refl, sym, ◌∙◌, inl, inr, Bool, true, false, not, ◌||◌, List, [], ◌∷◌,
  ◌++◌, Option, some, arith, Option-cases, Bool-cases, leb, ◌==◌, All, String, subst,
}
use complicatedauth_backend.Prelude.Int.{ℤ, pos, leb_ℤ}
use complicatedauth_backend.Prelude.Text.{matches, is_lower, is_word}
use complicatedauth_backend.Table.{get, update, Unique, count}
use complicatedauth_backend.Table.Laws.{All-update, All-update_to, All-and, Unique-update}
use complicatedauth_backend.Db.{ok, Outcome, transact_cases, settle_cases}
use complicatedauth_backend.Cleanup.{is_some}
use complicatedauth_backend.Cleanup.Laws.{All-found}
use complicatedauth_backend.Duration.{second, duration_seconds}
use complicatedauth_backend.Jobs.Rows.{
  Row, Clock, row_keyed, pending, running, dead_lettered, is_running, is_completed, is_dead,
}
use complicatedauth_backend.Jobs.Message.{stored_message}
use complicatedauth_backend.Jobs.{
  Error, Job, Readings, Faults, is_exhausted, bury, is_eligible, first_of_queue, lease_row,
  claim_body, claim, claim_begin_failed, exec_owned, owned, complete, complete_row, retry,
  retry_row, reschedule, reschedule_row, complete_failed, retry_failed, reschedule_failed,
  replay_begin_failed,
}
use complicatedauth_backend.Jobs.Operator.{
  Replay, Tables, replay, replay_body, revive, check_replay, Action, action_of,
}
use complicatedauth_backend.Jobs.Selection.{bury-uid, buried, candidates, candidate-get}

-- The CHECK on states, the CHECK on max_attempts, and the bound that the code keeps: a job never has
-- more attempts than it may, and a pending one has an attempt left.
pub record RowIsValid (r : Row) : Type 0 where
  pub leased : is_some r.lease_uid ≡ is_running r.status
  pub lease_timed : is_some r.lease_expires_at ≡ is_running r.status
  pub completion : is_some r.completed_at ≡ is_completed r.status
  pub death : is_some r.dead_lettered_at ≡ is_dead r.status
  pub bound_low : 1 ≤ r.max_attempts
  pub bound_high : r.max_attempts ≤ 100
  pub attempts_bounded : r.attempts ≤ r.max_attempts
  pub pending_has_attempt : r.status ≡ pending → r.attempts < r.max_attempts
  pub running_has_begun : r.status ≡ running → 1 ≤ r.attempts

pub record IsValid (t : List Row) : Type 0 where
  pub unique : Unique t
  pub rows : All RowIsValid t

pub update-IsValid :
    (p : Row → Bool) (f : Row → Row) (t : List Row)
    → ((x : Row) → (f x).uid ≡ x.uid)
    → ((x : Row) → p x ≡ true → RowIsValid x → RowIsValid (f x))
    → IsValid t
    → IsValid (update p f t)
update-IsValid p f t same keep v = record {
  unique = Unique-update p f t same v.unique;
  rows = All-update RowIsValid p f t keep v.rows;
}

bury-RowIsValid :
    (at : Readings) (queue : String) (x : Row)
    → is_exhausted at queue x ≡ true
    → RowIsValid x
    → RowIsValid (bury at x)
unfolding is_exhausted bury
bury-RowIsValid at queue x h v = ground arith

complete_row-RowIsValid :
    (now : Clock) (job : Job) (x : Row)
    → owned job x ≡ true
    → RowIsValid x
    → RowIsValid (complete_row now x)
unfolding complete_row
complete_row-RowIsValid now job x h v = ground arith

retry_row-RowIsValid :
    (now : Clock) (available_at : ℕ) (message : String) (job : Job) (x : Row)
    → owned job x ≡ true
    → RowIsValid x
    → RowIsValid (retry_row now available_at message x)
unfolding retry_row
retry_row-RowIsValid now available_at message job x h v = ground arith

reschedule_row-RowIsValid :
    (now : Clock) (available_at : ℕ) (job : Job) (x : Row)
    → owned job x ≡ true
    → RowIsValid x
    → RowIsValid (reschedule_row now available_at x)
unfolding reschedule_row
reschedule_row-RowIsValid now available_at job x h v = ground arith

revive-RowIsValid : (now : Clock) (x : Row) → RowIsValid x → RowIsValid (revive now x)
unfolding revive
revive-RowIsValid now x v = ground arith

lease_row-RowIsValid :
    (at : Readings) (lease span : ℕ) (x : Row)
    → x.attempts < x.max_attempts
    → is_completed x.status ≡ false
    → is_dead x.status ≡ false
    → RowIsValid x
    → RowIsValid (lease_row at lease span x)
unfolding lease_row
lease_row-RowIsValid at lease span x h c d v = ground arith

buried-IsValid :
    (at : Readings) (queue : String) (t : List Row) → IsValid t → IsValid (buried at queue t)
buried-IsValid at queue t v =
    update-IsValid (is_exhausted at queue) (bury at) t (bury-uid at) (bury-RowIsValid at queue) v

eligible_facts :
    (at : Readings) (locked : ℕ → Bool) (queue : String) (x : Row)
    → is_eligible at locked queue x ≡ true
    → (x.attempts < x.max_attempts) × (is_completed x.status ≡ false) × (is_dead x.status ≡ false)
unfolding is_eligible
eligible_facts at locked queue x h = ground arith

-- Leasing an eligible row of a valid table.
lease-IsValid :
    (at : Readings) (locked : ℕ → Bool) (queue : String) (lease span : ℕ) (t : List Row) (row : Row)
    → get row.uid t ≡ some row
    → is_eligible at locked queue row ≡ true
    → IsValid t
    → IsValid (update (λ x. x.uid == row.uid) (lease_row at lease span) t)
lease-IsValid at locked queue lease span t row found good v = record {
  unique =
      Unique-update (λ x. x.uid == row.uid) (lease_row at lease span) t
        (λ x. unfold lease_row in refl) v.unique;
  rows =
      All-update_to (λ x. RowIsValid x × (get x.uid t ≡ some x)) RowIsValid (λ x. x.uid == row.uid)
        (lease_row at lease span) t (λ x hit h. leased_row x hit h.0 h.1) (λ x miss h. h.0)
        (All-and RowIsValid (λ x. get x.uid t ≡ some x) t v.rows (All-found t v.unique));
}
  where
    leased_row :
        (x : Row)
        → (x.uid == row.uid) ≡ true
        → RowIsValid x
        → get x.uid t ≡ some x
        → RowIsValid (lease_row at lease span x)
    leased_row x hit h k =
        let uid : x.uid ≡ row.uid = ground arith in
        let same : some x ≡ some row = sym k ∙ rw uid found in
        let (few, alive, undead) = eligible_facts at locked queue row good in
        lease_row-RowIsValid at lease span x (ground arith) (ground arith) (ground arith) h

claim_body_cases {ℓ} :
    (P : List Row → Type ℓ) (f : Faults) (at : Readings) (locked : ℕ → Bool) (queue : String)
    (lease span : ℕ) (t new : List Row) (o : Option Job) (e : Error)
    → Unique t
    → P (buried at queue t)
    → ((row : Row)
        → get row.uid (buried at queue t) ≡ some row
        → is_eligible at locked queue row ≡ true
        → P (update (λ x. x.uid == row.uid) (lease_row at lease span) (buried at queue t)))
    → claim_body f at locked queue lease span t ≡ ok (new, o, e)
    → P new
unfolding claim_body
claim_body_cases P f at locked queue lease span t new o e u emptied leased body =
    elim (Option-cases (first_of_queue (candidates at locked queue t))) [
      | inl nothing ↦ subst P (ground arith) emptied
      | inr (row, first) ↦
          let (found, good) = candidate-get at locked queue t u row first in
          subst P (ground arith) (leased row found good)
    ]

-- Claim leaves the table alone, buries the exhausted jobs, or then also leases an eligible one.
pub claim_cases {ℓ} :
    (P : List Row → Type ℓ) (is_nil : Bool) (f : Faults) (at : Readings) (locked : ℕ → Bool)
    (queue : String) (duration : ℤ) (lease : ℕ) (t : List Row)
    → Unique t
    → P t
    → P (buried at queue t)
    → ((row : Row)
        → get row.uid (buried at queue t) ≡ some row
        → is_eligible at locked queue row ≡ true
        → P (
            update
              (λ x. x.uid == row.uid)
              (lease_row at lease (duration_seconds duration * second))
              (buried at queue t)))
    → P (claim is_nil f at locked queue duration lease t).1
unfolding claim
claim_cases P true f at locked queue duration lease t u kept emptied leased = kept
claim_cases P false f at locked queue duration lease t u kept emptied leased =
    let span = duration_seconds duration * second in
    elim (Bool-cases (not (matches is_lower is_word 62 queue) || leb_ℤ duration (pos 0))) [
      | inl bad ↦ subst P (ground arith) kept
      | inr fine ↦ subst P (ground arith) (
          transact_cases P f.begin claim_begin_failed f.commit
            (claim_body f at locked queue lease span t) t kept
            (λ new o e body.
              claim_body_cases P f at locked queue lease span t new o e u emptied leased body))
    ]

pub claim-IsValid :
    (is_nil : Bool) (f : Faults) (at : Readings) (locked : ℕ → Bool) (queue : String) (duration : ℤ)
    (lease : ℕ) (t : List Row)
    → IsValid t
    → IsValid (claim is_nil f at locked queue duration lease t).1
claim-IsValid is_nil f at locked queue duration lease t v =
    claim_cases IsValid is_nil f at locked queue duration lease t v.unique v
      (buried-IsValid at queue t v)
      (λ row found good.
        lease-IsValid at locked queue lease (duration_seconds duration * second) (buried at queue t)
          row found good (buried-IsValid at queue t v))

-- A statement on the row that a job owns leaves the table alone, or updates that row.
pub exec_owned_cases {ℓ} :
    {A : Type 0} (P : List Row → Type ℓ) (exec : Outcome) (e : Error) (job : Job) (f : Row → Row)
    (a : A) (t : List Row)
    → P t
    → P (update (owned job) f t)
    → P (exec_owned exec e job f a t).1
unfolding exec_owned
exec_owned_cases P exec e job f a t unchanged changed =
    elim (Bool-cases (count (owned job) t == 1)) [
      | inl one ↦
          subst P (ground arith)
            (settle_cases P exec e a (update (owned job) f t) t unchanged changed)
      | inr other ↦ subst P (ground arith) unchanged
    ]

module _ (exec : Outcome) (now : Clock) (job : Job) (t : List Row) (v : IsValid t) where
  pub complete-IsValid : IsValid (complete exec now job t).1
  unfolding complete
  complete-IsValid = exec_owned_cases IsValid exec complete_failed job (complete_row now) tt t v (
      update-IsValid (owned job) (complete_row now) t (λ x. unfold complete_row in refl)
        (complete_row-RowIsValid now job) v)

  pub retry-IsValid :
      (available_at : ℕ) (cause : Option String)
      → IsValid (retry exec now job available_at cause t).1
  unfolding retry
  retry-IsValid available_at cause = elim (Option-cases (stored_message cause)) [
    | inl e ↦ subst IsValid (ground arith) v
    | inr (message, e) ↦ subst IsValid (ground arith) (
        exec_owned_cases IsValid exec retry_failed job (retry_row now available_at message)
          (leb job.max_attempts job.attempt) t v
          (update-IsValid (owned job) (retry_row now available_at message) t
            (λ x. unfold retry_row in refl) (retry_row-RowIsValid now available_at message job) v))
  ]

  pub reschedule-IsValid : (available_at : ℕ) → IsValid (reschedule exec now job available_at t).1
  unfolding reschedule
  reschedule-IsValid available_at =
      exec_owned_cases IsValid exec reschedule_failed job (reschedule_row now available_at) tt t v (
        update-IsValid (owned job) (reschedule_row now available_at) t
          (λ x. unfold reschedule_row in refl) (reschedule_row-RowIsValid now available_at job) v)

-- Replay leaves the tables alone, or revives the job and records the action.
pub data Replayed (now : Clock) (action_uid : ℕ) (r : Replay) (old new : Tables) : Type 0 where
  kept : new ≡ old → Replayed now action_uid r old new
  revived :
      (row : Row)
      → get r.job_uid old.0 ≡ some row
      → row.status ≡ dead_lettered
      → new ≡ (
        update (λ x. x.uid == r.job_uid) (revive now) old.0,
        old.1 ++ action_of action_uid r row ∷ [],
      )
      → Replayed now action_uid r old new

replay_body-Replayed :
    (f : Faults) (now : Clock) (action_uid : ℕ) (r : Replay) (jobs : List Row)
    (actions : List Action) (new : Tables) (a : Unit {0}) (e : Error)
    → replay_body f now action_uid r (jobs, actions) ≡ ok (new, a, e)
    → Replayed now action_uid r (jobs, actions) new
unfolding replay_body
replay_body-Replayed f now action_uid r jobs actions new a e h =
    elim (Option-cases (get r.job_uid jobs)) [
      | inl absent ↦ absurd (ground arith)
      | inr (row, found) ↦ revived row found (ground arith) (ground arith)
    ]

pub replay-Replayed :
    (is_nil : Bool) (f : Faults) (now : Clock) (action_uid : ℕ) (r : Replay) (tables : Tables)
    → Replayed now action_uid r tables (replay is_nil f now action_uid r tables).1
unfolding replay
replay-Replayed true f now action_uid r tables = kept refl
replay-Replayed false f now action_uid r (jobs, actions) = elim (Option-cases (check_replay r)) [
  | inr (x, bad) ↦ kept (ground arith)
  | inl good ↦
      rw (good, replay)
        (transact_cases (λ new. Replayed now action_uid r (jobs, actions) new) f.begin
          replay_begin_failed f.commit (replay_body f now action_uid r (jobs, actions))
          (jobs, actions) (kept refl) (replay_body-Replayed f now action_uid r jobs actions))
]

pub replay-IsValid :
    (is_nil : Bool) (f : Faults) (now : Clock) (action_uid : ℕ) (r : Replay) (tables : Tables)
    → IsValid tables.0
    → IsValid (replay is_nil f now action_uid r tables).1.0
replay-IsValid is_nil f now action_uid r tables v =
    by_effect _ (replay-Replayed is_nil f now action_uid r tables)
  where
    by_effect : (new : Tables) → Replayed now action_uid r tables new → IsValid new.0
    by_effect new (Replayed.kept e) = rw e v
    by_effect new (Replayed.revived row found dead e) = rw e (
        update-IsValid (λ x. x.uid == r.job_uid) (revive now) tables.0 (λ x. unfold revive in refl)
          (λ x _ h. revive-RowIsValid now x h) v)
