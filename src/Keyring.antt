-- ===== src/Keyring.antt =====
-- internal/auth/keyring.go: the keys that encrypt columns, and their rotation. The AEAD of newAEAD
-- (AES-GCM) and base64.RawURLEncoding are parameters; a nonce is an argument of seal.
pub mod Rotation
mod Tests
use complicatedauth_backend.Prelude.{
  ℕ, String, str_eq, Bool, true, false, not, ◌&&◌, ◌||◌, ◌≡◌, List, [], ◌∷◌, Option, none, some,
  leb, ◌==◌, if◌then◌else◌, length,
}
use complicatedauth_backend.Prelude.Text.{trim_space, split_on, cut, matches, is_lower, is_digit}
use complicatedauth_backend.Db.{Result, ok, err}
use complicatedauth_backend.Cleanup.{is_some}

-- EncryptedValue
pub record EncryptedValue : Type 0 where
  pub key_version : String
  pub nonce : List ℕ
  pub ciphertext : List ℕ

-- EncryptionKeyring: the map of keys is a list of its entries.
pub record EncryptionKeyring : Type 0 where
  pub active_version : String
  pub keys : List (String × List ℕ)

-- newAEAD and base64. A seal takes key, nonce, plaintext and context; an open takes key, nonce,
-- ciphertext and context.
pub record Crypto : Type 0 where
  pub decode : String → Option (List ℕ)
  pub accepts : List ℕ → Bool
  pub nonce_size : ℕ
  pub seal_with : List ℕ → List ℕ → List ℕ → List ℕ → List ℕ
  pub open_with : List ℕ → List ℕ → List ℕ → List ℕ → Option (List ℕ)

-- What AES-256-GCM promises: keys of 32 bytes are accepted, and what was sealed opens under the same
-- key, nonce and context.
pub record IsAead (crypto : Crypto) : Type 0 where
  pub accepts_32 : (key : List ℕ) → length key ≡ 32 → crypto.accepts key ≡ true
  pub opens :
      (key nonce plaintext context : List ℕ)
      → length nonce ≡ crypto.nonce_size
      → crypto.open_with key nonce (crypto.seal_with key nonce plaintext context) context
        ≡ some plaintext

pub data KeyringError : Type 0 where
  required : KeyringError
  invalid_entry duplicate_version bad_key : String → KeyringError
  not_configured bad_cipher no_random bad_nonce_length authentication_failed : KeyringError
  version_unavailable : String → KeyringError

-- keys[version]
unfoldable pub lookup : String → List (String × List ℕ) → Option (List ℕ)
lookup version [] = none
lookup version ((v, key) ∷ keys) = if str_eq v version then some key else lookup version keys

-- [A-Za-z0-9]
abbrev is_alphanumeric : ℕ → Bool
is_alphanumeric c = (leb b'A' c && leb c b'Z') || is_lower c || is_digit c

-- keyVersionPattern
unfoldable pub is_version : String → Bool
is_version s =
    matches is_alphanumeric (λ c. is_alphanumeric c || c == b'.' || c == b'_' || c == b'-') 31 s

-- One round of the loop of ParseEncryptionKeyring.
unfoldable pub parse_entry :
    Crypto → String → EncryptionKeyring → Result KeyringError EncryptionKeyring
unfolding lookup is_version
parse_entry crypto entry k =
    let (version, encoded, found) = cut b':' (trim_space entry) in
    if not found || not (is_version version) || str_eq encoded ""
    then err (invalid_entry entry)
    else if is_some (lookup version k.keys)
    then err (duplicate_version version)
    else elim (crypto.decode encoded) [
      | none ↦ err (bad_key version)
      | some key ↦
          if not (length key == 32)
          then err (bad_key version)
          else ok (record {
            active_version = if str_eq k.active_version "" then version else k.active_version;
            keys = (version, key) ∷ k.keys;
          })
    ]

-- The loop of ParseEncryptionKeyring.
unfoldable pub parse_entries :
    Crypto → List String → EncryptionKeyring → Result KeyringError EncryptionKeyring
unfolding parse_entry
parse_entries crypto [] k = ok k
parse_entries crypto (entry ∷ entries) k = elim (parse_entry crypto entry k) [
  | err e ↦ err e
  | ok k' ↦ parse_entries crypto entries k'
]

abbrev pub empty_keyring : EncryptionKeyring
empty_keyring = record { active_version = ""; keys = [] }

abbrev is_blank : List String → Bool
is_blank (entry ∷ []) = str_eq (trim_space entry) ""
is_blank _ = false

-- ParseEncryptionKeyring
unfoldable pub parse_encryption_keyring : Crypto → String → Result KeyringError EncryptionKeyring
unfolding parse_entries
parse_encryption_keyring crypto raw =
    let entries = split_on b',' (trim_space raw) in
    if is_blank entries then err required else parse_entries crypto entries empty_keyring

-- keys[version], where a missing key is empty
abbrev pub or_empty : Option (List ℕ) → List ℕ
or_empty none = []
or_empty (some key) = key

-- Seal, with the nonce that rand.Reader gives.
unfoldable pub seal :
    Crypto
    → EncryptionKeyring
    → Option (List ℕ)
    → List ℕ
    → List ℕ
    → Result KeyringError EncryptedValue
unfolding lookup
seal crypto k random plaintext context =
    if str_eq k.active_version ""
    then err not_configured
    else let key = or_empty (lookup k.active_version k.keys) in
      if not (crypto.accepts key) then err bad_cipher else elim random [
        | none ↦ err no_random
        | some nonce ↦ ok (record {
          key_version = k.active_version;
          nonce = nonce;
          ciphertext = crypto.seal_with key nonce plaintext context;
        })
      ]

-- Open
unfoldable pub open_value :
    Crypto → EncryptionKeyring → EncryptedValue → List ℕ → Result KeyringError (List ℕ)
unfolding lookup
open_value crypto k value context = elim (lookup value.key_version k.keys) [
  | none ↦ err (version_unavailable value.key_version)
  | some key ↦
      if not (crypto.accepts key)
      then err bad_cipher
      else if not (length value.nonce == crypto.nonce_size)
      then err bad_nonce_length
      else elim (crypto.open_with key value.nonce value.ciphertext context) [
        | none ↦ err authentication_failed
        | some plaintext ↦ ok plaintext
      ]
]
