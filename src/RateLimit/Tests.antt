-- ===== src/RateLimit/Tests.antt =====
-- A login form that allows two attempts a minute, and what the limiter's promises give for it.
use complicatedauth_backend.Prelude.{
  ℕ, zero, suc, ◌*◌, ◌+◌, ◌≡◌, ◌≢◌, refl, List, [], ◌∷◌, none, some, arith, false, true, min, inl,
}
use complicatedauth_backend.Prelude.Int.{pos}
use complicatedauth_backend.Prelude.Text.{matches}
use complicatedauth_backend.Prelude.Bytes.{bytes_eq}
use complicatedauth_backend.Table.{get, Unique}
use complicatedauth_backend.Db.{settle, done, ok}
use complicatedauth_backend.Duration.{second, minute, duration_seconds}
use complicatedauth_backend.RateLimit.{
  Key, Bucket, bucket_keyed, Readings, RateLimitResult, same_key, same_key_iff, fresh, upsert,
  check_take, take, reset,
}
use complicatedauth_backend.RateLimit.Windows.{Opens, admitted, admitted_in_window}
use complicatedauth_backend.RateLimit.Isolation.{take-reset}
use complicatedauth_backend.RateLimit.Straddle.{straddled_window_is_spent}

abbrev digest_of : ℕ → ℕ → List ℕ
digest_of b zero = []
digest_of b (suc n) = b ∷ digest_of b n

abbrev key : Key
key = record { policy = "login.password"; key_hash = digest_of 3 32 }

abbrev other_key : Key
other_key = record { policy = "login.password"; key_hash = digest_of 4 32 }

abbrev instant : ℕ → Readings
instant t = record {
  insert_start = t;
  insert_expiry = t;
  count_check = t;
  start_check = t;
  start_value = t;
  expiry_check = t;
  expiry_value = t;
  returned = t;
}

valid : check_take key (pos 2) (pos minute) ≡ none
unfolding check_take matches
valid = refl

opens : Opens (instant 1) key []
unfolding get
opens = inl refl

first_expiry :
    (upsert (instant 1) key 2 (duration_seconds (pos minute) * second) []).1.expires_at ≡ 1 + minute
unfolding upsert get fresh duration_seconds
first_expiry = refl

-- Three calls in one window, of which two pass.
admitted_in_window_example :
    admitted key (pos 2) (pos minute) valid (instant 1 ∷ instant 2 ∷ instant 3 ∷ []) [] ≡ min 3 2
admitted_in_window_example =
    admitted_in_window key (pos 2) (pos minute) valid (instant 1) (instant 2 ∷ instant 3 ∷ []) []
      opens
      (
        (omega (arith, first_expiry), omega (arith, first_expiry), omega (arith, first_expiry)),
        (
          (omega (arith, first_expiry), omega (arith, first_expiry), omega (arith, first_expiry)),
          tt,
        ),
      )

different : other_key ≢ key
unfolding same_key bytes_eq
different = ground (arith, same_key_iff other_key key)

abbrev full : Bucket
full = record { key = key; request_count = 3; window_started_at = 1; expires_at = 1 + minute }

abbrev table : List Bucket
table = full ∷ []

table-Unique : Unique table
unfolding get
table-Unique = (refl, tt)

resets : (reset done key table).0 ≡ ok tt
unfolding reset settle matches
resets = refl

take_is_valid : check_take key (pos 2) (pos minute) ≡ none
unfolding check_take matches
take_is_valid = refl

take-reset_example :
    (r : RateLimitResult) × ((take done
        (instant 9)
        key
        (pos 2)
        (pos minute)
        (reset done key table).1).0
      ≡ ok r)
    × (r.allowed ≡ true)
    × (r.remaining + 1 ≡ 2)
    × (r.reset_at ≡ 9 + duration_seconds (pos minute) * second)
    × ((j : Key) → j ≢ key → get j (reset done key table).1 ≡ get j table)
take-reset_example =
    take-reset key table (instant 9) (pos 2) (pos minute) table-Unique resets take_is_valid

-- The clock between the tests of the expiry: the first comes just before it and the last at it.
abbrev straddling : Readings
straddling = record (instant minute) { expiry_check = 1 + minute; expiry_value = 1 + minute }

found : get key table ≡ some full
unfolding get same_key bytes_eq
found = refl

straddled_window_is_spent_example :
    (r : RateLimitResult) × ((take done straddling key (pos 2) (pos minute) table).0 ≡ ok r)
    × (r.allowed ≡ false)
    × (r.reset_at ≡ (1 + minute) + duration_seconds (pos minute) * second)
straddled_window_is_spent_example =
    straddled_window_is_spent straddling key (pos 2) (pos minute) table full valid found
      (omega arith) (omega arith) (omega arith)
