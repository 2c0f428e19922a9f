-- ===== src/RateLimit/Isolation.antt =====
-- Calls of the limiter keep to their key, Reset gives a fresh window, and deleting expired buckets
-- changes no later decision.
use complicatedauth_backend.Prelude.{
  ℕ, ◌+◌, ◌*◌, ◌++◌, ap, true, ◌≤◌, ◌≡◌, ◌≢◌, refl, Bool, List, [], ◌∷◌, Option, none, some, arith,
  leb, inl, inr, Option-cases,
}
use complicatedauth_backend.Prelude.Int.{ℤ, pos, negsuc, pos_part}
use complicatedauth_backend.Table.{get, delete, Unique}
use complicatedauth_backend.Table.Laws.{get-update, get-key, get-append, get-delete}
use complicatedauth_backend.Db.{Result, ok, err, Outcome, done, settle, settle_cases}
use complicatedauth_backend.Duration.{second, duration_seconds}
use complicatedauth_backend.Cleanup.{cleanup}
use complicatedauth_backend.Cleanup.Laws.{cleanup_cases, cleanup_absent}
use complicatedauth_backend.RateLimit.{
  Key, Bucket, bucket_keyed, Readings, RateLimitResult, Error, same_key, same_key_iff, fresh, bump,
  upsert, verdict, check_take, take, reset, delete_expired, consume_failed,
}
use complicatedauth_backend.RateLimit.Windows.{bump-key, fresh-key}

upsert_frame :
    (at : Readings) (key : Key) (limit span : ℕ) (t : List Bucket) (j : Key)
    → j ≢ key
    → get j (upsert at key limit span t).0 ≡ get j t
unfolding upsert get
upsert_frame at key limit span t j n = elim (Option-cases (get key t)) [
  | inl absent ↦ ground (
    arith,
    get-append j t (fresh at key span ∷ []),
    fresh-key at key span,
    same_key_iff (fresh at key span).key j,
  )
  | inr (b, found) ↦ elim (Option-cases (get j t)) [
    | inl none_there ↦ ground (
      arith,
      get-update (λ x. same_key x.key key) (bump at limit span) j t (bump-key at limit span),
    )
    | inr (b', there) ↦ ground (
      arith,
      get-update (λ x. same_key x.key key) (bump at limit span) j t (bump-key at limit span),
      same_key_iff b'.key key,
      get-key j t b' there,
    )
  ]
]

-- Take changes no bucket but its own, whatever it returns.
pub take_frame :
    (exec : Outcome) (at : Readings) (key : Key) (limit window : ℤ) (t : List Bucket) (j : Key)
    → j ≢ key
    → get j (take exec at key limit window t).1 ≡ get j t
unfolding take
take_frame exec at key limit window t j n = elim (Option-cases (check_take key limit window)) [
  | inr (e, bad) ↦ ground arith
  | inl good ↦
      let span = duration_seconds window * second in
      rw (good, take)
        (settle_cases (λ t'. get j t' ≡ get j t) exec consume_failed
          (verdict at (pos_part limit) (upsert at key (pos_part limit) span t).1)
          (upsert at key (pos_part limit) span t).0 t refl
          (upsert_frame at key (pos_part limit) span t j n))
]

reset_table :
    (key : Key) (t : List Bucket)
    → (reset done key t).0 ≡ ok tt
    → (reset done key t).1 ≡ delete (λ b. same_key b.key key) t
unfolding reset settle
reset_table key t h = ground arith

-- Reset removes the bucket of its key and touches no other.
get-reset :
    (key : Key) (t : List Bucket)
    → Unique t
    → (reset done key t).0 ≡ ok tt
    → (get key (reset done key t).1 ≡ none)
      × ((j : Key) → j ≢ key → get j (reset done key t).1 ≡ get j t)
get-reset key t u h = (
  rw (reset_table key t h) (gone (get key t) refl),
  λ j n. rw (reset_table key t h) (stays j n (get j t) refl),
)
  where
    gone : (o : Option Bucket) → get key t ≡ o → get key (delete (λ b. same_key b.key key) t) ≡ none
    gone none e = ground (arith, get-delete (λ b. same_key b.key key) key t u)
    gone (some b) e = ground (
      arith,
      get-delete (λ b. same_key b.key key) key t u,
      get-key key t b e,
      same_key_iff b.key key,
    )

    stays :
        (j : Key)
        → j ≢ key
        → (o : Option Bucket) → get j t ≡ o
        → get j (delete (λ b. same_key b.key key) t) ≡ get j t
    stays j n none e = ground (arith, get-delete (λ b. same_key b.key key) j t u)
    stays j n (some b) e =
        ground (
          arith,
          get-delete (λ b. same_key b.key key) j t u,
          get-key j t b e,
          same_key_iff b.key key,
        )

take_of_no_bucket :
    (at : Readings) (key : Key) (limit window : ℤ) (t : List Bucket)
    → check_take key limit window ≡ none
    → get key t ≡ none
    → take done at key limit window t ≡ (
      ok (verdict at (pos_part limit) (fresh at key (duration_seconds window * second))),
      t ++ fresh at key (duration_seconds window * second) ∷ [],
    )
unfolding take settle upsert
take_of_no_bucket at key limit window t good absent = ground arith

valid_limit :
    (key : Key) (limit window : ℤ) → check_take key limit window ≡ none → 1 ≤ pos_part limit
unfolding check_take
valid_limit key (pos n) window good = ground arith
valid_limit key (negsuc n) window good = absurd (ground arith)

-- After a Reset the next Take on the key opens a window, however many calls had been counted: with
-- valid arguments and a statement that succeeds it is admitted as the first of its window, with all
-- but one of the limit left, and the bucket expires a whole window after the reading of the clock.
-- The buckets of other keys are as before the Reset.
pub take-reset :
    (key : Key) (t : List Bucket) (at : Readings) (limit window : ℤ)
    → Unique t
    → (reset done key t).0 ≡ ok tt
    → check_take key limit window ≡ none
    → (r : RateLimitResult) × ((take done at key limit window (reset done key t).1).0 ≡ ok r)
      × (r.allowed ≡ true)
      × (r.remaining + 1 ≡ pos_part limit)
      × (r.reset_at ≡ at.insert_expiry + duration_seconds window * second)
      × ((j : Key) → j ≢ key → get j (reset done key t).1 ≡ get j t)
unfolding verdict fresh
take-reset key t at limit window u h good =
    let (gone, stays) = get-reset key t u h in
    let low = valid_limit key limit window good in
    (
      verdict at (pos_part limit) (fresh at key (duration_seconds window * second)),
      ap (λ (x : Result Error RateLimitResult × List Bucket). x.0)
          (take_of_no_bucket at key limit window (reset done key t).1 good gone),
      ground (arith, low),
      ground (arith, low),
      refl,
      stays,
    )

upsert_after_cleanup :
    (at : Readings) (key : Key) (limit span now n : ℕ) (t : List Bucket)
    → Unique t
    → now ≤ at.count_check
    → (upsert at key limit span
        (cleanup (λ b. leb b.expires_at now) (λ b. b.expires_at) n t).0).1.request_count
      ≡ (upsert at key limit span t).1.request_count
unfolding upsert fresh bump
upsert_after_cleanup at key limit span now n t u le = elim (Option-cases (get key t)) [
  | inl absent ↦
      ground
        (arith, cleanup_absent (λ b. leb b.expires_at now) (λ b. b.expires_at) n t u key absent)
  | inr (b, found) ↦
      ground
        (arith, cleanup_cases (λ b. leb b.expires_at now) (λ b. b.expires_at) n t u key b found)
]

-- What Take decides: whether the call passes, and how many are left.
abbrev pub decision : Result Error RateLimitResult → Result Error (Bool × ℕ)
decision (ok r) = ok (r.allowed, r.remaining)
decision (err e) = err e

-- Deleting expired buckets is invisible: a Take whose first test of the expiry comes no earlier than
-- the deletion decides as it would have without it.
pub delete_expired_invisible :
    (at : Readings) (key : Key) (limit window : ℤ) (now : ℕ) (n : ℤ) (t : List Bucket)
    → Unique t
    → now ≤ at.count_check
    → decision (take done at key limit window (delete_expired done now n t).1).0
      ≡ decision (take done at key limit window t).0
unfolding take settle verdict delete_expired
delete_expired_invisible at key limit window now n t u le = ground (
  arith,
  upsert_after_cleanup at key (pos_part limit) (duration_seconds window * second) now (pos_part n) t
      u le,
)
