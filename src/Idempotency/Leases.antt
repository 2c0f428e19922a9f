-- ===== src/Idempotency/Leases.antt =====
-- A lease that Begin has given excludes other requests until it runs out, and lets its holder
-- complete.
use complicatedauth_backend.Prelude.{
  ℕ, ◌<◌, ◌≤◌, ◌+◌, ◌≡◌, refl, ◌≢◌, inl, inr, true, false, List, none, some, String, arith,
  Option-cases, Bool-cases, ◌==◌,
}
use complicatedauth_backend.Prelude.Int.{pos, ltb_ℤ}
use complicatedauth_backend.Table.{get, insert, update, Unique}
use complicatedauth_backend.Table.Laws.{get-update, get-insert, get-key, count-get}
use complicatedauth_backend.Db.{done, ok, transact, transact-eq-ok, settle}
use complicatedauth_backend.Idempotency.Validate.{
  Request, validate, validate_spans, same_key, same_key_iff,
}
use complicatedauth_backend.Idempotency.{
  processing, completed, Codec, StoredHttpResponse, Row, row_keyed, Readings, or_empty, Claim,
  Error, State, Faults, begin, begin_body, decide, replay_or_wait, complete, complete_idempotency,
  new_row, reclaim_row, owned, complete_row, lease_span, retention_span, begin_failed,
}
use complicatedauth_backend.Idempotency.Calls.{
  Call, begins, completes, deletes, reclaimed, insert_new,
}
use complicatedauth_backend.Idempotency.Invariant.{reclaim_row-key}
use complicatedauth_backend.Idempotency.Rows.{Spares, new_row-key}

-- clock_timestamp() does not go back within a call.
pub record InOrder (at : Readings) : Type 0 where
  pub lease_first : at.insert_lease ≤ at.insert_expiry
  pub then_select : at.insert_expiry ≤ at.selected
  pub then_reclaim : at.selected ≤ at.reclaim_lease
  pub lease_again : at.reclaim_lease ≤ at.reclaim_expiry

-- The earliest end of a lease that Begin gives, and of its record's retention.
abbrev pub lease_end : Readings → Request → ℕ
lease_end at r = at.insert_lease + lease_span r

abbrev pub retention_end : Readings → Request → ℕ
retention_end at r = at.insert_expiry + retention_span r

-- The record of a request under a lease.
pub record IsHeld (at : Readings) (uid : ℕ) (r : Request) (row : Row) : Type 0 where
  pub key : row.key ≡ r.key
  pub hash : row.request_hash ≡ r.request_hash
  pub state : row.state ≡ processing
  pub lease : row.lease_uid ≡ uid
  pub lease_lasts : lease_end at r ≤ row.lease_expires_at
  pub record_lasts : retention_end at r ≤ row.expires_at
  pub in_retention : row.lease_expires_at ≤ row.expires_at

module _ (at : Readings) (uid : ℕ) (r : Request) (o : InOrder at) (v : validate r ≡ none) where
  new_row-IsHeld : IsHeld at uid r (new_row at uid r)
  unfolding new_row
  new_row-IsHeld = record {
    key = refl;
    hash = refl;
    state = refl;
    lease = refl;
    lease_lasts = omega arith;
    record_lasts = omega arith;
    in_retention = omega (arith, validate_spans r v);
  }

  reclaim_row-IsHeld : (row : Row) → row.key ≡ r.key → IsHeld at uid r (reclaim_row at uid r row)
  unfolding reclaim_row
  reclaim_row-IsHeld row k = record {
    key = k;
    hash = refl;
    state = refl;
    lease = refl;
    lease_lasts = omega arith;
    record_lasts = omega arith;
    in_retention = omega (arith, validate_spans r v);
  }

module _ (codec : Codec) (f : Faults) (at : Readings) (uid : ℕ) (r : Request) where
  replay_or_wait_lease :
      (row : Row) (s : State) (t t' : List Row) (c : Claim) (e : Error)
      → replay_or_wait codec at row s t ≡ ok (t', c, e)
      → c.lease_uid ≡ 0
  unfolding replay_or_wait
  replay_or_wait_lease row completed t t' c e h = ground arith
  replay_or_wait_lease row processing t t' c e h = ground arith

  decide_lease :
      (row : Row) (t t' : List Row) (c : Claim) (e : Error)
      → decide codec f at uid r row t ≡ ok (t', c, e)
      → c.lease_uid ≢ 0
      → (t' ≡ reclaimed at uid r t) × (c.lease_uid ≡ uid)
  unfolding decide
  decide_lease row t t' c e h n = ground (arith, replay_or_wait_lease row row.state t t' c e)

  get-inserted :
      (t : List Row)
      → get r.key t ≡ none
      → get r.key (insert (new_row at uid r) t).0 ≡ some (new_row at uid r)
  get-inserted t h = ground (
    arith,
    get-insert (new_row at uid r) r.key t (rw new_row-key h),
    new_row-key at uid r,
    same_key_iff (new_row at uid r).key r.key,
  )

  get-reclaimed :
      (t : List Row) (row : Row)
      → get r.key t ≡ some row
      → get r.key (reclaimed at uid r t) ≡ some (reclaim_row at uid r row)
  get-reclaimed t row h = ground (
    arith,
    get-update (λ x. same_key x.key r.key) (reclaim_row at uid r) r.key t
        (reclaim_row-key at uid r),
    get-key r.key t row h,
    same_key_iff row.key r.key,
  )

  -- A claim with a lease comes with a row that is held.
  begin_body_lease :
      (t t' : List Row) (c : Claim) (e : Error)
      → InOrder at
      → validate r ≡ none
      → begin_body codec f at uid r t ≡ ok (t', c, e)
      → c.lease_uid ≢ 0
      → (row : Row) × (get r.key t' ≡ some row) × IsHeld at uid r row × (c.lease_uid ≡ uid)
  unfolding begin_body
  begin_body_lease t t' c e o v h n = elim (Bool-cases ((insert (new_row at uid r) t).1 == 1)) [
    | inl one ↦
        let new : t' ≡ (insert (new_row at uid r) t).0 = ground arith in
        (
          new_row at uid r,
          rw new (get-inserted t (insert_new codec f at uid r t (ground arith))),
          new_row-IsHeld at uid r o v,
          ground arith,
        )
    | inr found_row ↦ elim (Option-cases (get r.key t)) [
      | inl absent ↦ absurd (ground arith)
      | inr (row, found) ↦
          let (new, same) = decide_lease row t t' c e (ground arith) n in
          (
            reclaim_row at uid r row,
            rw new (get-reclaimed t row found),
            reclaim_row-IsHeld at uid r o v row (get-key r.key t row found),
            same,
          )
    ]
  ]

  pub begin_valid :
      (t : List Row)
      → validate r ≡ none
      → begin codec f at uid r t
        ≡ transact f.begin begin_failed f.commit (begin_body codec f at uid r t) t
  unfolding begin
  begin_valid t v = rw (v, begin)

  -- If Begin returns a lease, the table holds the request's record under it.
  pub begin-IsHeld :
      (t : List Row) (c : Claim)
      → InOrder at
      → (begin codec f at uid r t).0 ≡ ok c
      → c.lease_uid ≢ 0
      → (row : Row) × (get r.key (begin codec f at uid r t).1 ≡ some row)
        × IsHeld at uid r row
        × (c.lease_uid ≡ uid)
        × (validate r ≡ none)
  begin-IsHeld t c o h n = elim (Option-cases (validate r)) [
    | inr (x, bad) ↦ absurd (unfold begin in ground arith)
    | inl valid ↦
        let (new, e, body, table) =
          transact-eq-ok f.begin begin_failed f.commit (begin_body codec f at uid r t) t c
            (rw (begin_valid t valid) at h) in
        let (row, found, held, same) = begin_body_lease t new c e o valid body n in
        (row, rw (begin_valid t valid, table) found, held, same, valid)
  ]

-- Calls that other requests make before a deadline: none of them completes the lease `uid`.
abbrev pub ByOthers : ℕ → ℕ → Call → Type 0
ByOthers uid deadline (begins f at uid' r) = at.selected < deadline
ByOthers uid deadline (completes exec now r uid' response) = uid' ≢ uid
ByOthers uid deadline (deletes exec now limit) = now < deadline

module _ (at : Readings) (uid : ℕ) (r : Request) (row : Row) (h : IsHeld at uid r row) where
  pub ByOthers-Spares : (c : Call) → ByOthers uid (lease_end at r) c → Spares row c
  ByOthers-Spares (begins f at' uid' r') b = omega (arith, h.lease_lasts, h.in_retention)
  ByOthers-Spares (completes exec now r' uid' response) b = ground (arith, h.lease)
  ByOthers-Spares (deletes exec now limit) b = omega (arith, h.lease_lasts, h.in_retention)

  pub owner : owned r uid row ≡ true
  owner = ground (arith, h.lease, h.state, h.key, same_key_iff row.key r.key)

  owned-key : (x : Row) → owned r uid x ≡ true → x.key ≡ r.key
  owned-key x e = ground (arith, same_key_iff x.key r.key)

  -- Complete finds a row that is held.
  pub complete_held :
      (codec : Codec) (now : ℕ) (response : StoredHttpResponse) (headers : String) (t : List Row)
      → Unique t
      → get r.key t ≡ some row
      → validate r ≡ none
      → uid ≢ 0
      → ltb_ℤ response.status (pos 100) ≡ false
      → ltb_ℤ (pos 599) response.status ≡ false
      → codec.marshal (or_empty response.headers) ≡ some headers
      → complete codec done now r uid response t ≡ (
        ok tt,
        update (owned r uid) (complete_row now response.status headers (or_empty response.body)) t,
      )
  unfolding complete complete_idempotency settle
  complete_held codec now response headers t u found valid n low high m =
      ground (arith, count-get (owned r uid) r.key t owned-key u, owner)
