-- ===== src/OAuth/Exchange.antt =====
-- oauthToken of internal/api/oauth_authorization.go: an authorization code for tokens. Rows of
-- audit_events are not modelled, only that their insertion can fail.
use Prim.Native.Nat.{◌/◌}
use Prim.Native.String.{len, ◌++◌ as str_append}
use complicatedauth_backend.Prelude.{
  ℕ, ◌+◌, ◌*◌, String, str_eq, Bool, not, ◌&&◌, ◌||◌, List, [], ◌∷◌, ◌++◌, Option, none, some, ltb,
  leb, ◌==◌, if◌then◌else◌,
}
use complicatedauth_backend.Prelude.Int.{ℤ, pos, ltb_ℤ, pos_part}
use complicatedauth_backend.Prelude.Text.{join, class_upto, is_lower, is_digit}
use complicatedauth_backend.Table.{get, find, exists, update}
use complicatedauth_backend.Db.{Result, ok, err, Outcome, transact}
use complicatedauth_backend.Cleanup.{is_some}
use complicatedauth_backend.Duration.{second, minute}
use complicatedauth_backend.OAuth.Tables.{
  Member, ResourceServer, Code, code_keyed, Token, token_keyed, Subject, Registry, Tables, is_none,
  live_application, live_resource,
}
use complicatedauth_backend.OAuth.Scopes.{scope_contains, resolve_authorization_scopes}
use complicatedauth_backend.OAuth.Client.{
  Reply, refuses, returns, Body, Client, ClientCall, parse_oauth_form, single_form_value,
  authenticate_oauth_client,
}

-- The claims of the two tokens. Times are Unix seconds.
pub record AccessClaims : Type 0 where
  pub iss : String
  pub sub : String
  pub aud : String
  pub exp : ℕ
  pub iat : ℕ
  pub jti : ℕ
  pub client_id : String
  pub scope : String
  pub tenant_uid : ℕ

pub record IdClaims : Type 0 where
  pub iss : String
  pub sub : String
  pub aud : String
  pub exp : ℕ
  pub iat : ℕ
  pub auth_time : ℕ
  pub nonce : String
  pub tenant_uid : ℕ
  pub name : Option String
  pub email : Option (String × Bool)

-- What the server is configured with, and the cryptography: SHA-256 of a secret, the S256 challenge
-- of a verifier, signing (`none` is an error), and normalizeResourceIdentifier.
pub record Env : Type 0 where
  pub issuer : String
  pub access_token_ttl : ℤ
  pub session_hash : String → List ℕ
  pub challenge_of : String → String
  pub sign_access : AccessClaims → Option String
  pub sign_id : IdClaims → Option String
  pub normalize : String → Option String

-- The clock readings, the new UIDs and the failing calls of one exchange.
pub record ExchangeCall : Type 0 where
  pub client : ClientCall
  pub begin_fails : Bool
  pub read_fails : Bool
  pub checked_at : ℕ
  pub resource_fails : Bool
  pub granted_fails : Bool
  pub scopes_fail : Bool
  pub now : ℕ
  pub token_uid : ℕ
  pub jti : ℕ
  pub consume_fails : Bool
  pub insert_fails : Bool
  pub audit_fails : Bool
  pub commit : Outcome

-- What the client gets.
pub record TokenAnswer : Type 0 where
  pub access_token : String
  pub id_token : String
  pub expires_in : ℕ
  pub scope : String

abbrev pub Refusal : Type 0
Refusal = ℕ × String

-- durationOr
unfoldable pub duration_or : ℤ → ℕ → ℕ
duration_or value fallback = if ltb_ℤ (pos 0) value then pos_part value else fallback

-- [A-Za-z0-9._~-]
abbrev is_verifier_code : ℕ → Bool
is_verifier_code c =
    is_lower c
    || (leb b'A' c && leb c b'Z')
    || is_digit c
    || c == b'.'
    || c == b'_'
    || c == b'~'
    || c == b'-'

-- pkceVerifierPattern
unfoldable pub is_verifier : String → Bool
is_verifier s = class_upto is_verifier_code 128 s && leb 43 (len s)

-- The row that the SELECT ... FOR UPDATE of oauthToken gives: a code, its subject and its member.
unfoldable pub load_code : Registry → List ℕ → List Code → Option (Code × Subject × Member)
load_code reg hash codes = elim (get hash codes) [
  | none ↦ none
  | some c ↦
      if not (exists (λ a. a.uid == c.application_uid && live_application a) reg.applications)
      then none
      else elim (find (λ s. s.application_uid == c.application_uid && s.member_uid == c.member_uid)
          reg.subjects) [
            | none ↦ none
            | some s ↦ elim (find (λ m. m.uid == c.member_uid) reg.members) [
              | none ↦ none
              | some m ↦ some (c, s, m)
            ]
          ]
]

-- The conditions under which a code may be redeemed.
unfoldable pub is_redeemable : Client → String → String → ℕ → Code → Member → Bool
is_redeemable client redirect_uri challenge now c m =
    c.application_uid == client.uid
    && c.tenant_uid == client.tenant_uid
    && str_eq c.redirect_uri redirect_uri
    && is_none c.consumed_at
    && ltb now c.expires_at
    && m.is_active
    && str_eq c.code_challenge challenge

abbrev identifier_of : String → Option ResourceServer → String
identifier_of fallback none = fallback
identifier_of fallback (some r) = r.identifier

-- The audience of the access token; `none` when the grant or the scopes have changed.
unfoldable pub audience : Env → ExchangeCall → Registry → Code → Option String
audience env call reg c = elim c.resource_server_uid [
  | none ↦ some (str_append env.issuer "/oauth/userinfo")
  | some uid ↦
      if call.resource_fails
      then none
      else elim (find (λ r. r.uid == uid && r.tenant_uid == c.tenant_uid && live_resource r)
          reg.resources) [
            | none ↦ none
            | some r ↦
                elim (resolve_authorization_scopes env.normalize call.granted_fails call.scopes_fail
                  reg c.tenant_uid c.application_uid (join c.scopes) r.identifier) [
                    | err e ↦ none
                    | ok resolved ↦
                        some (identifier_of (str_append env.issuer "/oauth/userinfo") resolved.1)
                  ]
          ]
]

unfoldable pub access_claims : Env → ExchangeCall → Client → Code → Subject → String → AccessClaims
access_claims env call client c s aud = record {
  iss = env.issuer;
  sub = s.subject;
  aud = aud;
  exp = (call.now + duration_or env.access_token_ttl (10 * minute)) / second;
  iat = call.now / second;
  jti = call.jti;
  client_id = client.client_id;
  scope = join c.scopes;
  tenant_uid = c.tenant_uid;
}

unfoldable pub id_claims : Env → ExchangeCall → Client → Code → Subject → Member → IdClaims
id_claims env call client c s m = record {
  iss = env.issuer;
  sub = s.subject;
  aud = client.client_id;
  exp = (call.now + duration_or env.access_token_ttl (10 * minute)) / second;
  iat = call.now / second;
  auth_time = c.auth_time / second;
  nonce = c.nonce;
  tenant_uid = c.tenant_uid;
  name = if scope_contains c.scopes "profile" then some m.display_name else none;
  email =
      if scope_contains c.scopes "email" then some (m.email, is_some m.email_verified_at) else none;
}

-- UPDATE oauth_authorization_codes SET consumed_at=$2 WHERE uid=$1 AND consumed_at IS NULL
abbrev pub is_open : ℕ → Code → Bool
is_open uid c = c.uid == uid && is_none c.consumed_at

abbrev pub consume : ℕ → Code → Code
consume now c = record c { consumed_at = some now }

-- INSERT INTO oauth_access_tokens
unfoldable pub token_row : Env → ExchangeCall → Code → Subject → String → Token
token_row env call c s access_token = record {
  uid = call.token_uid;
  token_hash = env.session_hash access_token;
  jti = call.jti;
  application_uid = c.application_uid;
  tenant_uid = c.tenant_uid;
  member_uid = c.member_uid;
  subject = s.subject;
  scopes = c.scopes;
  created_at = call.now;
  expires_at = call.now + duration_or env.access_token_ttl (10 * minute);
  resource_server_uid = c.resource_server_uid;
  revoked_at = none;
}

-- Its constraints: the primary key, and the unique hash and jti.
unfoldable pub is_taken : Token → List Token → Bool
is_taken row tokens =
    is_some (get row.token_hash tokens) || exists (λ x. x.uid == row.uid || x.jti == row.jti) tokens

abbrev pub unavailable : Refusal
unavailable = (503, "temporarily_unavailable")

-- The statements that make the exchange, and the answer.
unfoldable pub issue :
    Env
    → ExchangeCall
    → Client
    → Code
    → Subject
    → Member
    → String
    → Tables
    → Result Refusal (Tables × TokenAnswer × Refusal)
unfolding access_claims id_claims token_row is_taken
issue env call client c s m aud t = elim (env.sign_access (access_claims env call client c s aud)) [
  | none ↦ err unavailable
  | some access_token ↦ elim (env.sign_id (id_claims env call client c s m)) [
    | none ↦ err unavailable
    | some id_token ↦
        let row = token_row env call c s access_token in
        if call.consume_fails || (call.insert_fails || is_taken row t.tokens) || call.audit_fails
        then err unavailable
        else ok (
          record t {
            codes = update (is_open c.uid) (consume call.now) t.codes;
            tokens = t.tokens ++ row ∷ [];
          },
          record {
            access_token = access_token;
            id_token = id_token;
            expires_in = duration_or env.access_token_ttl (10 * minute) / second;
            scope = join c.scopes;
          },
          unavailable,
        )
  ]
]

-- The transaction of oauthToken.
unfoldable pub redeem_body :
    Env
    → ExchangeCall
    → Registry
    → Client
    → String
    → String
    → String
    → Tables
    → Result Refusal (Tables × TokenAnswer × Refusal)
unfolding load_code is_redeemable audience issue
redeem_body env call reg client code redirect_uri verifier t =
    if call.read_fails
    then err (400, "invalid_grant")
    else elim (load_code reg (env.session_hash code) t.codes) [
      | none ↦ err (400, "invalid_grant")
      | some found ↦
          let (c, s, m) = found in
          if not (is_redeemable client redirect_uri (env.challenge_of verifier) call.checked_at c m)
          then err (400, "invalid_grant")
          else elim (audience env call reg c) [
            | none ↦ err (400, "invalid_grant")
            | some aud ↦ issue env call client c s m aud t
          ]
    ]

abbrev pub reply_of : {A : Type 0} → Result Refusal A → Reply A
reply_of (ok a) = returns a
reply_of (err e) = refuses e.0 e.1

-- oauthToken, once the client is known.
unfoldable pub redeem :
    Env
    → ExchangeCall
    → Registry
    → Client
    → String
    → String
    → String
    → Tables
    → Reply TokenAnswer × Tables
unfolding redeem_body is_verifier
redeem env call reg client code redirect_uri verifier t =
    if str_eq code "" || str_eq redirect_uri "" || not (is_verifier verifier)
    then (refuses 400 "invalid_request", t)
    else let (answer, t') =
        transact call.begin_fails unavailable call.commit
          (redeem_body env call reg client code redirect_uri verifier t) t in
      (reply_of answer, t')

-- oauthToken, after the client's authentication.
unfoldable pub exchange_for :
    Env
    → ExchangeCall
    → Registry
    → List (String × List String)
    → Reply Client
    → Tables
    → Reply TokenAnswer × Tables
exchange_for env call reg form (refuses status code) t = (refuses status code, t)
exchange_for env call reg form (returns client) t =
    redeem env call reg client (single_form_value form "code")
      (single_form_value form "redirect_uri") (single_form_value form "code_verifier") t

-- oauthToken, once the form is parsed.
unfoldable pub answer_form :
    Env
    → ExchangeCall
    → Registry
    → List (String × List String)
    → Tables
    → Reply TokenAnswer × Tables
unfolding exchange_for
answer_form env call reg form t =
    if not (str_eq (single_form_value form "grant_type") "authorization_code")
    then (refuses 400 "unsupported_grant_type", t)
    else let (client, t') = authenticate_oauth_client call.client reg form t in
      exchange_for env call reg form client t'

-- oauthToken
unfoldable pub oauth_token :
    Env → ExchangeCall → Registry → Body → Tables → Reply TokenAnswer × Tables
unfolding answer_form
oauth_token env call reg body t = elim (parse_oauth_form body) [
  | refuses status code ↦ (refuses status code, t)
  | returns form ↦ answer_form env call reg form t
]
