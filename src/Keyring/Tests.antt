-- ===== src/Keyring/Tests.antt =====
-- A keyring of one key and the same keyring after a rotation.
use Prim.Native.String.{len}
use complicatedauth_backend.Prelude.{ℕ, zero, suc, ◌≡◌, refl, List, [], ◌∷◌, some, true}
use complicatedauth_backend.Prelude.Text.{split_on, cut, trim_space, matches}
use complicatedauth_backend.Db.{ok}
use complicatedauth_backend.Keyring.{
  EncryptedValue, EncryptionKeyring, Crypto, IsAead, parse_entries, parse_encryption_keyring,
  empty_keyring, seal, open_value,
}
use complicatedauth_backend.Keyring.Rotation.{rotated_keyring_opens}

abbrev bytes : ℕ → ℕ → List ℕ
bytes b zero = []
bytes b (suc n) = b ∷ bytes b n

-- A cipher that hides nothing.
abbrev crypto : Crypto
crypto = record {
  decode = λ s. some (bytes (len s) 32);
  accepts = λ key. true;
  nonce_size = 2;
  seal_with = λ key nonce plaintext context. plaintext;
  open_with = λ key nonce ciphertext context. some ciphertext;
}

crypto-IsAead : IsAead crypto
crypto-IsAead = record { accepts_32 = λ key e. refl; opens = λ key nonce plaintext context e. refl }

abbrev old : EncryptionKeyring
old = record { active_version = "v1"; keys = ("v1", bytes 1 32) ∷ [] }

abbrev new : EncryptionKeyring
new = record { active_version = "v2"; keys = ("v1", bytes 1 32) ∷ ("v2", bytes 3 32) ∷ [] }

parses : parse_encryption_keyring crypto " v2:abc,v1:a" ≡ ok new
unfolding parse_encryption_keyring split_on cut trim_space matches
parses = refl

is_old : parse_entries crypto ("v1:a" ∷ []) empty_keyring ≡ ok old
unfolding parse_entries cut trim_space matches
is_old = refl

is_new : parse_entries crypto ("v2:abc" ∷ "v1:a" ∷ []) empty_keyring ≡ ok new
unfolding parse_entries cut trim_space matches
is_new = refl

rotated_keyring_opens_example :
    (value : EncryptedValue) × (seal crypto old (some (5 ∷ 6 ∷ [])) (7 ∷ []) (8 ∷ []) ≡ ok value)
    × (open_value crypto old value (8 ∷ []) ≡ ok (7 ∷ []))
    × (open_value crypto new value (8 ∷ []) ≡ ok (7 ∷ []))
rotated_keyring_opens_example =
    rotated_keyring_opens crypto crypto-IsAead "v2:abc" "v1:a" [] old new is_old is_new (5 ∷ 6 ∷ [])
      (7 ∷ []) (8 ∷ []) refl
