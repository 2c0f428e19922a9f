-- ===== src/Idempotency/Rows.antt =====
-- Which calls leave the row of a key as it is.
use complicatedauth_backend.Prelude.{ℕ, ◌<◌, ◌≡◌, refl, false, List, [], ◌∷◌, some, arith, All, leb}
use complicatedauth_backend.Prelude.Int.{pos_part}
use complicatedauth_backend.Table.{get}
use complicatedauth_backend.Table.Laws.{get-update, get-insert, get-key}
use complicatedauth_backend.Db.{Outcome}
use complicatedauth_backend.Cleanup.Laws.{cleanup_keeps}
use complicatedauth_backend.Idempotency.Validate.{Key, Request, same_key, same_key_iff}
use complicatedauth_backend.Idempotency.{
  processing, Codec, StoredHttpResponse, Row, row_keyed, Readings, or_empty, Faults, begin,
  complete, new_row, reclaim_row, owned, complete_row,
}
use complicatedauth_backend.Idempotency.Calls.{
  Begun, begin-Begun, Stored, complete-Stored, Call, begins, completes, deletes, step, run,
  delete_expired_cases,
}
use complicatedauth_backend.Idempotency.Invariant.{
  IsValid, CallIsTyped, step-IsValid, reclaim_row-key,
}

-- Calls that come too early to take the row over or to delete it, and calls of Complete that do not
-- own it.
abbrev pub Spares : Row → Call → Type 0
Spares row (begins f at uid r) =
    (at.selected < row.expires_at) × (row.state ≡ processing → at.selected < row.lease_expires_at)
Spares row (completes exec now r uid response) = owned r uid row ≡ false
Spares row (deletes exec now limit) = now < row.expires_at

pub new_row-key : (at : Readings) (uid : ℕ) (r : Request) → (new_row at uid r).key ≡ r.key
unfolding new_row
new_row-key at uid r = refl

module _ (codec : Codec) (k : Key) (row : Row) where
  begin_spares :
      (f : Faults) (at : Readings) (uid : ℕ) (r : Request) (t : List Row)
      → get k t ≡ some row
      → at.selected < row.expires_at
      → (row.state ≡ processing → at.selected < row.lease_expires_at)
      → get k (begin codec f at uid r t).1 ≡ some row
  begin_spares f at uid r t h live held = by_effect _ (begin-Begun codec f at uid r t)
    where
      by_effect : (t' : List Row) → Begun at uid r t t' → get k t' ≡ some row
      by_effect t' (Begun.kept e) = rw e h
      by_effect t' (Begun.inserted absent e) = rw e (
          ground (
            arith,
            get-insert (new_row at uid r) k t (rw new_row-key absent),
            new_row-key at uid r,
            same_key_iff (new_row at uid r).key k,
            absent,
            h,
          ))
      by_effect t' (Begun.took_over old found free e) = rw e (
          ground (
            arith,
            get-update (λ x. same_key x.key r.key) (reclaim_row at uid r) k t
                (reclaim_row-key at uid r),
            same_key_iff row.key r.key,
            get-key k t row h,
          ))

  complete_spares :
      (exec : Outcome) (now : ℕ) (r : Request) (uid : ℕ) (response : StoredHttpResponse)
      (t : List Row)
      → get k t ≡ some row
      → owned r uid row ≡ false
      → get k (complete codec exec now r uid response t).1 ≡ some row
  complete_spares exec now r uid response t h foreign =
      by_effect _ (complete-Stored codec exec now r uid response t)
    where
      by_effect : (t' : List Row) → Stored codec now r uid response t t' → get k t' ≡ some row
      by_effect t' (Stored.kept e) = rw e h
      by_effect t' (Stored.stored headers m low high one e) = rw e (
          ground (
            arith,
            get-update (owned r uid)
                (complete_row now response.status headers (or_empty response.body)) k t (λ x. refl),
            h,
          ))

  -- A row stays as it is under every call that spares it.
  pub step-Spares :
      (t : List Row) (c : Call)
      → IsValid t
      → get k t ≡ some row
      → Spares row c
      → get k (step codec t c) ≡ some row
  unfolding step
  step-Spares t (begins f at uid r) v h s = begin_spares f at uid r t h s.0 s.1
  step-Spares t (completes exec now r uid response) v h s =
      complete_spares exec now r uid response t h s
  step-Spares t (deletes exec now limit) v h s =
      delete_expired_cases (λ t'. get k t' ≡ some row) exec now limit t h
        (cleanup_keeps (λ r. leb r.expires_at now) (λ r. r.expires_at) (pos_part limit) t v.unique k
          row h (ground arith))

  pub run-Spares :
      (cs : List Call) (t : List Row)
      → IsValid t
      → All CallIsTyped cs
      → All (Spares row) cs
      → get k t ≡ some row
      → get k (run codec t cs) ≡ some row
  unfolding run
  run-Spares [] t v typed s h = h
  run-Spares (c ∷ cs) t v typed s h =
      run-Spares cs (step codec t c) (step-IsValid codec t c typed.0 v) typed.1 s.1
        (step-Spares t c v h s.0)
