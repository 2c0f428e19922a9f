-- ===== src/Idempotency/Invariant.antt =====
-- The constraints of idempotency_records (migrations/000003_platform_foundations.up.sql): the primary
-- key, the digest's size, and which columns are NULL in which state.
use complicatedauth_backend.Prelude.{
  ℕ, ◌<◌, ◌≡◌, refl, inl, inr, false, List, [], ◌∷◌, String, none, some, leb, Option-cases, length,
  All,
}
use complicatedauth_backend.Prelude.Int.{ℤ, pos, ltb_ℤ, pos_part}
use complicatedauth_backend.Table.{get, insert, Unique}
use complicatedauth_backend.Table.Laws.{All-update, All-append, Unique-insert, Unique-update}
use complicatedauth_backend.Db.{Outcome}
use complicatedauth_backend.Cleanup.Laws.{cleanup-Unique, cleanup-All}
use complicatedauth_backend.Idempotency.Validate.{Request, same_key}
use complicatedauth_backend.Idempotency.{
  processing, completed, Codec, StoredHttpResponse, Row, row_keyed, Readings, or_empty, Faults,
  begin, complete, delete_expired, new_row, reclaim_row, owned, complete_row,
}
use complicatedauth_backend.Idempotency.Calls.{
  Begun, begin-Begun, Stored, complete-Stored, Call, begins, completes, deletes, step, run,
  delete_expired_cases,
}

-- [sha256.Size]byte, and CHECK (octet_length(request_hash) = 32)
abbrev pub IsDigest : List ℕ → Type 0
IsDigest h = All (λ b. b < 256) h × (length h ≡ 32)

-- The columns that a completed record must have.
pub record IsStored (r : Row) : Type 0 where
  pub status : ℤ
  pub headers : String
  pub body : List ℕ
  pub now : ℕ
  pub has_status : r.response_status ≡ some status
  pub has_headers : r.response_headers ≡ some headers
  pub has_body : r.response_body ≡ some body
  pub has_time : r.completed_at ≡ some now
  pub low : ltb_ℤ status (pos 100) ≡ false
  pub high : ltb_ℤ (pos 599) status ≡ false

pub record IsEmpty (r : Row) : Type 0 where
  pub no_status : r.response_status ≡ none
  pub no_headers : r.response_headers ≡ none
  pub no_body : r.response_body ≡ none
  pub no_time : r.completed_at ≡ none

pub record RowIsValid (r : Row) : Type 0 where
  pub digest : IsDigest r.request_hash
  pub empty_while_processing : r.state ≡ processing → IsEmpty r
  pub stored_when_completed : r.state ≡ completed → IsStored r

pub record IsValid (t : List Row) : Type 0 where
  pub unique : Unique t
  pub rows : All RowIsValid t

new_row-RowIsValid :
    (at : Readings) (uid : ℕ) (r : Request)
    → IsDigest r.request_hash
    → RowIsValid (new_row at uid r)
unfolding new_row
new_row-RowIsValid at uid r d = record {
  digest = d;
  empty_while_processing =
      λ _. record { no_status = refl; no_headers = refl; no_body = refl; no_time = refl };
  stored_when_completed = λ e. cc;
}

reclaim_row-RowIsValid :
    (at : Readings) (uid : ℕ) (r : Request) (row : Row)
    → IsDigest r.request_hash
    → RowIsValid (reclaim_row at uid r row)
unfolding reclaim_row
reclaim_row-RowIsValid at uid r row d = record {
  digest = d;
  empty_while_processing =
      λ _. record { no_status = refl; no_headers = refl; no_body = refl; no_time = refl };
  stored_when_completed = λ e. cc;
}

complete_row-RowIsValid :
    (now : ℕ) (status : ℤ) (headers : String) (body : List ℕ) (row : Row)
    → ltb_ℤ status (pos 100) ≡ false
    → ltb_ℤ (pos 599) status ≡ false
    → RowIsValid row
    → RowIsValid (complete_row now status headers body row)
complete_row-RowIsValid now status headers body row low high v = record {
  digest = v.digest;
  empty_while_processing = λ e. cc;
  stored_when_completed = λ _. record {
    status = status;
    headers = headers;
    body = body;
    now = now;
    has_status = refl;
    has_headers = refl;
    has_body = refl;
    has_time = refl;
    low = low;
    high = high;
  };
}

pub reclaim_row-key :
    (at : Readings) (uid : ℕ) (r : Request) (row : Row) → (reclaim_row at uid r row).key ≡ row.key
unfolding reclaim_row
reclaim_row-key at uid r row = refl

All-insert :
    (x : Row) (t : List Row) → RowIsValid x → All RowIsValid t → All RowIsValid (insert x t).0
unfolding insert
All-insert x t h k = elim (Option-cases (get x.key t)) [
  | inl e ↦ rw (e, insert) (All-append RowIsValid t (x ∷ []) k (h, tt))
  | inr (y, e) ↦ rw (e, insert) k
]

-- The request of a call has a digest of 32 bytes.
abbrev pub CallIsTyped : Call → Type 0
CallIsTyped (begins f at uid r) = IsDigest r.request_hash
CallIsTyped _ = Unit

module _ (codec : Codec) where
  pub begin-IsValid :
      (f : Faults) (at : Readings) (uid : ℕ) (r : Request) (t : List Row)
      → IsDigest r.request_hash
      → IsValid t
      → IsValid (begin codec f at uid r t).1
  begin-IsValid f at uid r t d v = by_effect _ (begin-Begun codec f at uid r t)
    where
      by_effect : (t' : List Row) → Begun at uid r t t' → IsValid t'
      by_effect t' (Begun.kept e) = rw e v
      by_effect t' (Begun.inserted absent e) = rw e (record {
        unique = Unique-insert (new_row at uid r) t v.unique;
        rows = All-insert (new_row at uid r) t (new_row-RowIsValid at uid r d) v.rows;
      })
      by_effect t' (Begun.took_over row found free e) = rw e (record {
        unique =
            Unique-update (λ x. same_key x.key r.key) (reclaim_row at uid r) t
              (reclaim_row-key at uid r) v.unique;
        rows =
            All-update RowIsValid (λ x. same_key x.key r.key) (reclaim_row at uid r) t
              (λ x _ _. reclaim_row-RowIsValid at uid r x d) v.rows;
      })

  pub complete-IsValid :
      (exec : Outcome) (now : ℕ) (r : Request) (uid : ℕ) (response : StoredHttpResponse)
      (t : List Row)
      → IsValid t
      → IsValid (complete codec exec now r uid response t).1
  complete-IsValid exec now r uid response t v =
      by_effect _ (complete-Stored codec exec now r uid response t)
    where
      by_effect : (t' : List Row) → Stored codec now r uid response t t' → IsValid t'
      by_effect t' (Stored.kept e) = rw e v
      by_effect t' (Stored.stored headers m low high one e) = rw e (record {
        unique =
            Unique-update (owned r uid)
              (complete_row now response.status headers (or_empty response.body)) t (λ x. refl)
              v.unique;
        rows =
            All-update RowIsValid (owned r uid)
              (complete_row now response.status headers (or_empty response.body)) t
              (λ x _ h.
                complete_row-RowIsValid now response.status headers (or_empty response.body) x low
                  high h)
              v.rows;
      })

  delete_expired-IsValid :
      (exec : Outcome) (now : ℕ) (limit : ℤ) (t : List Row)
      → IsValid t
      → IsValid (delete_expired exec now limit t).1
  delete_expired-IsValid exec now limit t v =
      delete_expired_cases IsValid exec now limit t v (record {
        unique =
            cleanup-Unique (λ r. leb r.expires_at now) (λ r. r.expires_at) (pos_part limit) t
              v.unique;
        rows =
            cleanup-All (λ r. leb r.expires_at now) (λ r. r.expires_at) (pos_part limit) t v.unique
              RowIsValid v.rows;
      })

  -- Every call of Begin (with a digest of 32 bytes), Complete or DeleteExpired, whatever fails, keeps
  -- the constraints of the table: its keys are unique and its digests have 32 bytes, a record that is
  -- processing has no response, and a completed one has a status from 100 to 599, headers, a body and
  -- a time of completion.
  pub step-IsValid :
      (t : List Row) (c : Call) → CallIsTyped c → IsValid t → IsValid (step codec t c)
  unfolding step
  step-IsValid t (begins f at uid r) d v = begin-IsValid f at uid r t d v
  step-IsValid t (completes exec now r uid response) d v =
      complete-IsValid exec now r uid response t v
  step-IsValid t (deletes exec now limit) d v = delete_expired-IsValid exec now limit t v

  pub run-IsValid :
      (cs : List Call) (t : List Row) → All CallIsTyped cs → IsValid t → IsValid (run codec t cs)
  unfolding run
  run-IsValid [] t h v = v
  run-IsValid (c ∷ cs) t h v = run-IsValid cs (step codec t c) h.1 (step-IsValid t c h.0 v)
