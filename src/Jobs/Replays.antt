-- ===== src/Jobs/Replays.antt =====
-- Replay by an operator.
use complicatedauth_backend.Prelude.{
  ℕ, ◌≡◌, refl, sym, ◌∙◌, ap, ◌≢◌, inl, inr, Bool, false, List, [], ◌∷◌, ◌++◌, none, some, arith,
  Option-cases, Bool-cases, ◌==◌, eq_iff,
}
use complicatedauth_backend.Prelude.Text.{trim_space}
use complicatedauth_backend.Cleanup.{is_some}
use complicatedauth_backend.Table.{get, update}
use complicatedauth_backend.Table.Laws.{get-update, get-key}
use complicatedauth_backend.Db.{
  Result, ok, err, lost, transact, transact-eq-ok, transact_error_unchanged,
}
use complicatedauth_backend.Jobs.Rows.{Row, Clock, row_keyed, pending, dead_lettered}
use complicatedauth_backend.Jobs.{Error, Faults, replay_begin_failed}
use complicatedauth_backend.Jobs.Operator.{
  Replay, Tables, Action, replay, replay_body, revive, check_replay, action_of,
}

module _ (is_nil : Bool) (f : Faults) (now : Clock) (action_uid : ℕ) (r : Replay) (jobs : List Row)
    (actions : List Action) where
  abbrev outcome : Result Error (Unit {0}) × Tables
  outcome = replay is_nil f now action_uid r (jobs, actions)

  -- Replay is atomic: unless the answer of the commit is lost, an error leaves both tables as they
  -- were, so that no action is recorded without its effect.
  pub replay_error_unchanged :
      (e : Error) → f.commit ≢ lost → outcome.0 ≡ err e → outcome.1 ≡ (jobs, actions)
  unfolding replay
  replay_error_unchanged e c h = elim (Bool-cases is_nil) [
    | inl nil ↦ ground arith
    | inr open_db ↦ elim (Option-cases (check_replay r)) [
      | inr (x, bad) ↦ ground arith
      | inl good ↦ ground (
        arith,
        transact_error_unchanged f.begin replay_begin_failed f.commit
            (replay_body f now action_uid r (jobs, actions)) (jobs, actions) e c,
      )
    ]
  ]

  replay_body-ok :
      (new : Tables) (a : Unit {0}) (e : Error)
      → replay_body f now action_uid r (jobs, actions) ≡ ok (new, a, e)
      → (row : Row) × (get r.job_uid jobs ≡ some row)
        × (row.status ≡ dead_lettered)
        × (new ≡ (
          update (λ x. x.uid == r.job_uid) (revive now) jobs,
          actions ++ action_of action_uid r row ∷ [],
        ))
  unfolding replay_body
  replay_body-ok new a e h = elim (Option-cases (get r.job_uid jobs)) [
    | inl absent ↦ absurd (ground arith)
    | inr (row, found) ↦ (row, found, ground arith, ground arith)
  ]

  replay_guards : outcome.0 ≡ ok tt → (is_nil ≡ false) × (check_replay r ≡ none)
  unfolding replay
  replay_guards h = elim (Option-cases (check_replay r)) [
    | inr (x, bad) ↦ absurd (ground arith)
    | inl good ↦ (ground arith, good)
  ]

  replay_run :
      is_nil ≡ false
      → check_replay r ≡ none
      → outcome
        ≡ transact f.begin replay_begin_failed f.commit
            (replay_body f now action_uid r (jobs, actions))
            (jobs, actions)
  unfolding replay
  replay_run n g = ground arith

  revive-uid : (x : Row) → (revive now x).uid ≡ x.uid
  unfolding revive
  revive-uid x = refl

  abbrev revived : List Row
  revived = update (λ x. x.uid == r.job_uid) (revive now) jobs

  get-revived_other : (j : ℕ) → j ≢ r.job_uid → get j revived ≡ get j jobs
  get-revived_other j n = elim (Option-cases (get j jobs)) [
    | inl e ↦ ground (arith, get-update (λ x. x.uid == r.job_uid) (revive now) j jobs revive-uid)
    | inr (x, e) ↦ ground (
      arith,
      get-update (λ x. x.uid == r.job_uid) (revive now) j jobs revive-uid,
      get-key j jobs x e,
    )
  ]

  get-revived :
      (row : Row) → get r.job_uid jobs ≡ some row → get r.job_uid revived ≡ some (revive now row)
  get-revived row e = ground (
    arith,
    get-update (λ x. x.uid == r.job_uid) (revive now) r.job_uid jobs revive-uid,
    get-key r.job_uid jobs row e,
  )

  replay_tables :
      outcome.0 ≡ ok tt
      → (row : Row) × (get r.job_uid jobs ≡ some row)
        × (row.status ≡ dead_lettered)
        × (outcome.1 ≡ (revived, actions ++ action_of action_uid r row ∷ []))
  replay_tables h =
      let (open_db, good) = replay_guards h in
      let run = replay_run open_db good in
      let (new, e, body, table) =
        transact-eq-ok f.begin replay_begin_failed f.commit
          (replay_body f now action_uid r (jobs, actions)) (jobs, actions) tt
          (sym (ap (λ (x : Result Error (Unit {0}) × Tables). x.0) run) ∙ h) in
      let (row, found, dead, made) = replay_body-ok new tt e body in
      (row, found, dead, ap (λ (x : Result Error (Unit {0}) × Tables). x.1) run ∙ (table ∙ made))

  -- The columns of the action that a Replay records.
  action_of_checked :
      (row : Row)
      → check_replay r ≡ none
      → ((action_of action_uid r row).actor ≡ r.actor)
        × ((action_of action_uid r row).reason ≡ r.reason)
  unfolding check_replay action_of
  action_of_checked row good = (
    ground (arith, eq_iff (trim_space r.actor) r.actor),
    ground (arith, eq_iff (trim_space r.reason) r.reason),
  )

  -- Replay succeeds only on a dead-lettered job. It makes it pending and available now, with no attempt
  -- used, no lease, no error and no dead-letter time, and with its queue, type, payload and bound as
  -- they were; it changes no other job, and appends one action, which names the operator, the
  -- reason, the job, and the attempts that the job had of how many, and whether it had an error.
  pub replay_revives :
      outcome.0 ≡ ok tt
      → (row : Row) × (new : Row) × (action : Action) × (get r.job_uid jobs ≡ some row)
        × (row.status ≡ dead_lettered)
        × (get r.job_uid outcome.1.0 ≡ some new)
        × ((new.status ≡ pending)
            × (new.attempts ≡ 0)
            × (new.available_at ≡ now.value)
            × (new.lease_uid ≡ none)
            × (new.lease_expires_at ≡ none)
            × (new.last_error ≡ none)
            × (new.dead_lettered_at ≡ none))
        × ((new.queue ≡ row.queue)
            × (new.job_type ≡ row.job_type)
            × (new.payload ≡ row.payload)
            × (new.max_attempts ≡ row.max_attempts))
        × ((j : ℕ) → j ≢ r.job_uid → get j outcome.1.0 ≡ get j jobs)
        × (outcome.1.1 ≡ actions ++ action ∷ [])
        × ((action.uid ≡ action_uid)
            × (action.actor ≡ r.actor)
            × (action.reason ≡ r.reason)
            × (action.target_uid ≡ r.job_uid)
            × (action.queue ≡ row.queue)
            × (action.job_type ≡ row.job_type)
            × (action.attempts ≡ row.attempts)
            × (action.max_attempts ≡ row.max_attempts)
            × (action.had_last_error ≡ is_some row.last_error))
  unfolding revive action_of
  replay_revives h =
      let (row, found, dead, final) = replay_tables h in
      let (open_db, good) = replay_guards h in
      let (actor, reason) = action_of_checked row good in
      (
        row,
        revive now row,
        action_of action_uid r row,
        found,
        dead,
        ap (λ (x : Tables). get r.job_uid x.0) final ∙ get-revived row found,
        (refl, refl, refl, refl, refl, refl, refl),
        (refl, refl, refl, refl),
        (λ j n. ap (λ (x : Tables). get j x.0) final ∙ get-revived_other j n),
        ap (λ (x : Tables). x.1) final,
        (refl, actor, reason, refl, refl, refl, refl, refl, refl),
      )
