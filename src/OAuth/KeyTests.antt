-- ===== src/OAuth/KeyTests.antt =====
-- A rotation of the signing key while a token lives.
use complicatedauth_backend.Prelude.{
  ◌+◌, ◌*◌, ◌<◌, ◌≡◌, refl, str_eq, true, false, [], ◌∷◌, none, some, arith,
}
use complicatedauth_backend.Prelude.Int.{pos}
use complicatedauth_backend.Table.{get, exists}
use complicatedauth_backend.Db.{done}
use complicatedauth_backend.Duration.{minute, hour}
use complicatedauth_backend.OAuth.Exchange.{duration_or}
use complicatedauth_backend.OAuth.Signing.{
  SigningKey, signing_key_keyed, active, KeyConfig, KeyCall, ensure_all, oauth_jwks,
}
use complicatedauth_backend.OAuth.Verifiable.{tokens_stay_verifiable}

abbrev first : SigningKey
first = record {
  uid = 1;
  kid = "ca_sig_1";
  status = active;
  public_jwk = "jwk-1";
  private_key = record { key_version = "v1"; nonce = []; ciphertext = [] };
  created_at = 0;
  publish_until = none;
  retired_at = none;
}

abbrev config : KeyConfig
config = record {
  crypto = record {
    decode = λ s. none;
    accepts = λ key. true;
    nonce_size = 0;
    seal_with = λ key nonce plaintext context. plaintext;
    open_with = λ key nonce ciphertext context. some ciphertext;
  };
  keyring = record { active_version = "v1"; keys = [] };
  max_age = pos hour;
  token_ttl = pos (20 * minute);
  context = λ uid. uid ∷ [];
}

abbrev rotation : KeyCall
rotation = record {
  now = 65 * minute;
  new_key =
      some (record { uid = 2; kid = "ca_sig_2"; private_der = 7 ∷ []; public_json = "jwk-2" });
  nonce = some [];
  begin_fails = false;
  lock_fails = false;
  read_fails = false;
  retire_fails = false;
  insert_fails = false;
  expire_fails = false;
  commit = done;
}

is_stored : get 1 (first ∷ []) ≡ some first
unfolding get
is_stored = refl

still_live : 70 * minute < 55 * minute + duration_or (pos (20 * minute)) (10 * minute)
unfolding duration_or
still_live = omega arith

tokens_stay_verifiable_example :
    exists
      (λ x. str_eq x "jwk-1")
      (oauth_jwks (70 * minute) (ensure_all config (rotation ∷ []) (first ∷ [])))
    ≡ true
tokens_stay_verifiable_example =
    tokens_stay_verifiable config (first ∷ []) first (55 * minute) (70 * minute) (rotation ∷ [])
      is_stored refl ((omega arith, omega arith), tt) still_live
