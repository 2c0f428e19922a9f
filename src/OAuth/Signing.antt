-- ===== src/OAuth/Signing.antt =====
-- The signing keys of internal/api/oauth_signing.go: ensureOAuthSigningKey with insertOAuthSigningKey,
-- and oauthJWKS. Generating an RSA key and encoding it are parameters of the call, as is JSON.
use complicatedauth_backend.Prelude.{
  ℕ, ◌+◌, ◌*◌, String, str_eq, Bool, true, false, not, ◌&&◌, ◌||◌, List, [], ◌∷◌, ◌++◌, Option,
  none, some, ltb, leb, ◌==◌, ==_iff, if◌then◌else◌,
}
use complicatedauth_backend.Prelude.Int.{ℤ, pos, leb_ℤ, pos_part}
use complicatedauth_backend.Table.{Keyed, find, exists, update, select}
use complicatedauth_backend.Cleanup.{is_some}
use complicatedauth_backend.Db.{Result, ok, err, Outcome, transact}
use complicatedauth_backend.Duration.{minute, hour}
use complicatedauth_backend.Keyring.{EncryptedValue, EncryptionKeyring, Crypto, seal}

pub data KeyStatus : Type 0 where
  active retiring retired : KeyStatus

-- oauth_signing_keys
pub record SigningKey : Type 0 where
  pub uid : ℕ
  pub kid : String
  pub status : KeyStatus
  pub public_jwk : String
  pub private_key : EncryptedValue
  pub created_at : ℕ
  pub publish_until : Option ℕ
  pub retired_at : Option ℕ

instance abbrev pub signing_key_keyed : Keyed SigningKey
signing_key_keyed = record { Key = ℕ; key = λ k. k.uid; same = λ j k. j == k; same_iff = ==_iff }

abbrev pub is_active : KeyStatus → Bool
is_active active = true
is_active _ = false

abbrev pub is_retiring : KeyStatus → Bool
is_retiring retiring = true
is_retiring _ = false

-- A new key: its UID and kid, the encoded private key and the public JWK.
pub record NewKey : Type 0 where
  pub uid : ℕ
  pub kid : String
  pub private_der : List ℕ
  pub public_json : String

-- What the server is configured with. `context` is oauthSigningKeyContext.
pub record KeyConfig : Type 0 where
  pub crypto : Crypto
  pub keyring : EncryptionKeyring
  pub max_age : ℤ
  pub token_ttl : ℤ
  pub context : ℕ → List ℕ

-- One call of ensureOAuthSigningKey: its time, the key and the nonce that are drawn, and what fails.
pub record KeyCall : Type 0 where
  pub now : ℕ
  pub new_key : Option NewKey
  pub nonce : Option (List ℕ)
  pub begin_fails : Bool
  pub lock_fails : Bool
  pub read_fails : Bool
  pub retire_fails : Bool
  pub insert_fails : Bool
  pub expire_fails : Bool
  pub commit : Outcome

-- maxAge
unfoldable pub key_max_age : ℤ → ℕ
key_max_age max_age = if leb_ℤ max_age (pos 0) then 30 * 24 * hour else pos_part max_age

-- publicationWindow. A negative lifetime counts as none, which the minimum hides.
unfoldable pub publication_window : ℤ → ℕ
publication_window ttl =
    let window = pos_part ttl + 5 * minute in
    if ltb window (15 * minute) then 15 * minute else window

-- UPDATE ... SET status='retiring'
unfoldable pub retire : ℕ → ℕ → List SigningKey → List SigningKey
retire uid until =
    update (λ k. k.uid == uid && is_active k.status)
      (λ k. record k { status = retiring; publish_until = some until })

abbrev pub is_over : ℕ → Option ℕ → Bool
is_over now none = false
is_over now (some until) = leb until now

-- UPDATE ... SET status='retired'
unfoldable pub expire : ℕ → List SigningKey → List SigningKey
expire now =
    update (λ k. is_retiring k.status && is_over now k.publish_until)
      (λ k. record k { status = retired; retired_at = some now })

-- insertOAuthSigningKey. At most one key is active, and UIDs and kids are unique.
unfoldable pub insert_oauth_signing_key :
    KeyConfig → KeyCall → List SigningKey → Result String (List SigningKey)
insert_oauth_signing_key config call t = elim call.new_key [
  | none ↦ err "generate OAuth signing key"
  | some new ↦
      elim (seal config.crypto config.keyring call.nonce new.private_der (config.context new.uid)) [
        | err e ↦ err "encrypt OAuth signing key"
        | ok encrypted ↦
            if call.insert_fails
              || exists (λ k. k.uid == new.uid || str_eq k.kid new.kid || is_active k.status) t
            then err "persist OAuth signing key"
            else ok (
                t
                ++ record {
                  uid = new.uid;
                  kid = new.kid;
                  status = active;
                  public_jwk = new.public_json;
                  private_key = encrypted;
                  created_at = call.now;
                  publish_until = none;
                  retired_at = none;
                }
                  ∷ [])
      ]
]

-- The statements from insertOAuthSigningKey on.
unfoldable pub install :
    KeyConfig → KeyCall → List SigningKey → Result String (List SigningKey × Unit {0} × String)
unfolding insert_oauth_signing_key expire
install config call t = elim (insert_oauth_signing_key config call t) [
  | err e ↦ err e
  | ok t' ↦
      if call.expire_fails
      then err "expire OAuth signing keys"
      else ok (expire call.now t', tt, "commit")
]

-- The transaction of ensureOAuthSigningKey.
unfoldable pub ensure_body :
    KeyConfig → KeyCall → List SigningKey → Result String (List SigningKey × Unit {0} × String)
unfolding install retire key_max_age publication_window
ensure_body config call t =
    if call.lock_fails || call.read_fails
    then err "load active OAuth signing key"
    else elim (find (λ k. is_active k.status) t) [
      | none ↦ install config call t
      | some k ↦
          if ltb call.now (k.created_at + key_max_age config.max_age)
          then ok (t, tt, "commit")
          else if call.retire_fails
          then err "retire OAuth signing key"
          else install config call (retire k.uid (call.now + publication_window config.token_ttl) t)
    ]

-- ensureOAuthSigningKey
unfoldable pub ensure_oauth_signing_key :
    KeyConfig → KeyCall → List SigningKey → Result String (Unit {0}) × List SigningKey
unfolding ensure_body
ensure_oauth_signing_key config call t =
    transact call.begin_fails "begin OAuth signing-key initialization" call.commit
      (ensure_body config call t) t

-- Calls one after the other.
unfoldable pub ensure_all : KeyConfig → List KeyCall → List SigningKey → List SigningKey
ensure_all config [] t = t
ensure_all config (call ∷ calls) t =
    ensure_all config calls (ensure_oauth_signing_key config call t).1

-- WHERE status='active' OR (status='retiring' AND publish_until>now())
abbrev pub is_published : ℕ → SigningKey → Bool
is_published now k =
    is_active k.status
    || is_retiring k.status && is_some k.publish_until && not (is_over now k.publish_until)

-- ORDER BY created_at DESC
unfoldable pub insert_newest : SigningKey → List SigningKey → List SigningKey
insert_newest k [] = k ∷ []
insert_newest k (x ∷ xs) =
    if leb x.created_at k.created_at then k ∷ x ∷ xs else x ∷ insert_newest k xs

unfoldable pub newest_first : List SigningKey → List SigningKey
unfolding insert_newest
newest_first [] = []
newest_first (x ∷ xs) = insert_newest x (newest_first xs)

unfoldable pub jwks_of : List SigningKey → List String
jwks_of [] = []
jwks_of (k ∷ ks) = k.public_jwk ∷ jwks_of ks

-- oauthJWKS, when its query succeeds: the keys that it publishes.
unfoldable pub oauth_jwks : ℕ → List SigningKey → List String
unfolding newest_first jwks_of select
oauth_jwks now t = jwks_of (newest_first (select (is_published now) t))
