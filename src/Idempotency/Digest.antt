-- ===== src/Idempotency/Digest.antt =====
-- equalDigest of internal/store/idempotency.go: the comparison of two digests in constant time.
use Prim.Native.Nat.{bit_or, bit_xor}
use complicatedauth_backend.Prelude.{
  ℕ, zero, suc, ◌<◌, ◌≡◌, ◌↔◌, refl, ap, Bool, true, false, ◌&&◌, List, [], ◌∷◌, arith, ltb, ◌==◌,
  if◌then◌else◌, length, All, inl, inr, Bool-cases, not,
}

-- for index := range expected { difference |= stored[index] ^ expected[index] }
unfoldable pub difference : ℕ → List ℕ → List ℕ → ℕ
difference d (s ∷ stored) (e ∷ expected) = difference (bit_or d (bit_xor s e)) stored expected
difference d _ _ = d

unfoldable pub equal_digest : List ℕ → List ℕ → Bool
unfolding difference
equal_digest stored expected =
    if not (length stored == 32) then false else difference 0 stored expected == 0

-- Whether a test holds of all bytes below a bound.
holds_below : (ℕ → Bool) → ℕ → Bool
holds_below test zero = true
holds_below test (suc bound) = if test bound then holds_below test bound else false

holds_below_lem :
    (test : ℕ → Bool) (byte bound : ℕ)
    → byte < bound
    → holds_below test bound ≡ true
    → test byte ≡ true
unfolding holds_below
holds_below_lem test byte zero small all = absurd (omega arith)
holds_below_lem test byte (suc bound) small all = ground (arith, holds_below_lem test byte bound)

abbrev agree : Bool → Bool → Bool
agree a b = if a then b else not b

-- What the loop needs of two bytes.
byte_law : ℕ → ℕ → Bool
byte_law x y =
    agree (bit_xor x y == 0) (x == y)
    && agree (bit_or x y == 0) (x == 0 && y == 0)
    && ltb (bit_xor x y) 256
    && ltb (bit_or x y) 256

every_pair : holds_below (λ x. holds_below (byte_law x) 256) 256 ≡ true
unfolding holds_below byte_law
every_pair = refl

byte_laws : (x y : ℕ) → x < 256 → y < 256 → byte_law x y ≡ true
byte_laws x y hx hy =
    holds_below_lem (byte_law x) y 256 hy
      (holds_below_lem (λ a. holds_below (byte_law a) 256) x 256 hx every_pair)

-- The differences found so far stay, and equal texts add none.
difference-zero_iff :
    (d : ℕ) (xs ys : List ℕ)
    → d < 256
    → All (λ b. b < 256) xs
    → All (λ b. b < 256) ys
    → length xs ≡ length ys
    → (difference d xs ys ≡ 0) ↔ ((d ≡ 0) × (xs ≡ ys))
unfolding difference byte_law
difference-zero_iff d [] [] hd hx hy e = (λ h. (h, refl), λ h. h.0)
difference-zero_iff d [] (y ∷ ys) hd hx hy e = absurd (omega arith)
difference-zero_iff d (x ∷ xs) [] hd hx hy e = absurd (omega arith)
difference-zero_iff d (x ∷ xs) (y ∷ ys) hd hx hy e = ground (
  arith,
  byte_laws x y hx.0 hy.0,
  byte_laws d (bit_xor x y) hd,
  difference-zero_iff (bit_or d (bit_xor x y)) xs ys,
)

-- equalDigest holds exactly of the same bytes, if the digest that is expected has its 32 bytes.
pub equal_digest_iff :
    (stored expected : List ℕ)
    → All (λ b. b < 256) stored
    → All (λ b. b < 256) expected
    → length expected ≡ 32
    → (equal_digest stored expected ≡ true) ↔ (stored ≡ expected)
unfolding equal_digest
equal_digest_iff stored expected hs he n = elim (Bool-cases (length stored == 32)) [
  | inl e ↦ ground (arith, difference-zero_iff 0 stored expected (omega arith) hs he (ground arith))
  | inr e ↦ rw e ((λ h. cc), λ same. ground (arith, ap length same))
]
