-- ===== src/Idempotency/Validate.antt =====
-- validateIdempotencyRequest of internal/store/idempotency.go, and the primary key of the table.
use Prim.Native.String.{len}
use complicatedauth_backend.Prelude.{
  ℕ, ◌*◌, ◌≤◌, ◌<◌, String, str_eq, eq_iff, ◌≡◌, ◌↔◌, Bool, true, false, not, ◌&&◌, ◌||◌, List,
  Option, none, some, ltb, if◌then◌else◌, arith,
}
use complicatedauth_backend.Prelude.Int.{ℤ, pos, negsuc, ltb_ℤ, leb_ℤ}
use complicatedauth_backend.Prelude.Text.{
  trim_space, any_code, matches, is_control, is_lower, is_word, is_dotted,
}
use complicatedauth_backend.Duration.{minute, hour, second, duration_seconds}

-- The columns of the primary key.
pub record Key : Type 0 where
  pub principal_type : String
  pub principal_uid : String
  pub operation : String
  pub idempotency_key : String

pub record Request : Type 0 where
  pub key : Key
  pub request_hash : List ℕ
  pub lease_duration : ℤ
  pub retention : ℤ

unfoldable pub same_key : Key → Key → Bool
same_key j k =
    str_eq j.principal_type k.principal_type
    && str_eq j.principal_uid k.principal_uid
    && str_eq j.operation k.operation
    && str_eq j.idempotency_key k.idempotency_key

pub same_key_iff : (j k : Key) → (same_key j k ≡ true) ↔ (j ≡ k)
unfolding same_key
same_key_iff j k = ground (
  arith,
  eq_iff j.principal_type k.principal_type,
  eq_iff j.principal_uid k.principal_uid,
  eq_iff j.operation k.operation,
  eq_iff j.idempotency_key k.idempotency_key,
)

pub data Invalid : Type 0 where
  principal_type principal_uid operation key lease_duration retention : Invalid

-- validateIdempotencyRequest; `none` is nil.
unfoldable pub validate : Request → Option Invalid
validate r =
    if not (matches is_lower is_word 62 r.key.principal_type)
    then some principal_type
    else if ltb (len r.key.principal_uid) 1
        || ltb 255 (len r.key.principal_uid)
        || not (str_eq (trim_space r.key.principal_uid) r.key.principal_uid)
    then some principal_uid
    else if not (matches is_lower is_dotted 127 r.key.operation)
    then some operation
    else if ltb (len r.key.idempotency_key) 1
        || ltb 255 (len r.key.idempotency_key)
        || not (str_eq (trim_space r.key.idempotency_key) r.key.idempotency_key)
        || any_code is_control r.key.idempotency_key
    then some key
    else if leb_ℤ r.lease_duration (pos 0) || ltb_ℤ (pos (10 * minute)) r.lease_duration
    then some lease_duration
    else if leb_ℤ r.retention r.lease_duration || ltb_ℤ (pos (30 * 24 * hour)) r.retention
    then some retention
    else none

validate_bounds :
    (r : Request)
    → validate r ≡ none
    → (leb_ℤ r.lease_duration (pos 0) ≡ false)
      × (ltb_ℤ (pos (10 * minute)) r.lease_duration ≡ false)
      × (leb_ℤ r.retention r.lease_duration ≡ false)
unfolding validate
validate_bounds r h = ground arith

spans :
    (l r : ℤ)
    → leb_ℤ l (pos 0) ≡ false
    → ltb_ℤ (pos (10 * minute)) l ≡ false
    → leb_ℤ r l ≡ false
    → (0 < duration_seconds l * second)
      × (duration_seconds l * second ≤ 10 * minute)
      × (duration_seconds l * second ≤ duration_seconds r * second)
unfolding duration_seconds
spans (pos l) (pos r) h k m = ground arith
spans (pos l) (negsuc r) h k m = ground arith
spans (negsuc l) r h k m = ground arith

-- A valid request's lease is positive and at most ten minutes, and its retention is no shorter.
pub validate_spans :
    (r : Request)
    → validate r ≡ none
    → (0 < duration_seconds r.lease_duration * second)
      × (duration_seconds r.lease_duration * second ≤ 10 * minute)
      × (duration_seconds r.lease_duration * second ≤ duration_seconds r.retention * second)
validate_spans r h = let (a, b, c) = validate_bounds r h in spans r.lease_duration r.retention a b c
