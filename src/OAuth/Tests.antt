-- ===== src/OAuth/Tests.antt =====
-- A browser application that a member has approved, and what the authorization server promises it.
use Prim.Native.String.{len}
use complicatedauth_backend.Prelude.{
  ◌+◌, ◌*◌, ◌≡◌, ◌↔◌, ◌≢◌, ◌<◌, refl, ◌++◌, List, [], ◌∷◌, none, some, true, false, String, str_eq,
}
use complicatedauth_backend.Prelude.Int.{pos}
use complicatedauth_backend.Prelude.Text.{join, class_upto}
use complicatedauth_backend.Prelude.Bytes.{bytes_eq}
use complicatedauth_backend.Table.{get, find, exists, update}
use complicatedauth_backend.Db.{done, rejected, transact}
use complicatedauth_backend.Duration.{minute}
use complicatedauth_backend.OAuth.Tables.{
  ResourceServer, Code, code_keyed, Token, token_keyed, Consent, Registry, Tables,
}
use complicatedauth_backend.OAuth.Scopes.{scope_contains}
use complicatedauth_backend.OAuth.Client.{
  refuses, returns, parsed, Client, ClientCall, parse_oauth_form, single_form_value, none_repeated,
  authenticate_oauth_client,
}
use complicatedauth_backend.OAuth.Exchange.{
  Env, ExchangeCall, TokenAnswer, oauth_token, redeem, duration_or,
}
use complicatedauth_backend.OAuth.Access.{
  Principal, is_own, user_info, oauth_revoke, revoke_oauth_consent,
}
use complicatedauth_backend.OAuth.Decisions.{
  ResourcePrincipal, decision_of, oauth_resource_authorized,
}
use complicatedauth_backend.OAuth.Steps.{Call, run, revokes_consent}
use complicatedauth_backend.OAuth.Safety.{code_is_used_once, token_matches_code}
use complicatedauth_backend.OAuth.Revocation.{revoked_token_is_dead, revoke_hides_failure}
use complicatedauth_backend.OAuth.Entitled.{Entitles}
use complicatedauth_backend.Cleanup.{is_some}
use complicatedauth_backend.OAuth.Rights.{decision_allows_exactly}
use complicatedauth_backend.OAuth.Consents.{consent_revocation_ignores_codes}

abbrev files : ResourceServer
files = record {
  uid = 3;
  tenant_uid = 1;
  identifier = "https://files.example";
  is_active = true;
  deleted_at = none;
  policy_version = 1;
}

abbrev reg : Registry
reg = record {
  applications =
      record {
        uid = 2;
        tenant_uid = 1;
        client_id = "app";
        application_type = "public";
        is_active = true;
        deleted_at = none;
      }
      ∷ [];
  members =
      record {
        uid = 7;
        email = "ada@example.com";
        display_name = "Ada";
        is_active = true;
        email_verified_at = some 1;
      }
      ∷ [];
  resources = files ∷ [];
  scopes =
      record {
        uid = 5;
        resource_server_uid = 3;
        name = "files:read";
        is_active = true;
        deleted_at = none;
      }
      ∷ [];
  grants =
      record {
        uid = 9;
        application_uid = 2;
        resource_server_uid = 3;
        is_active = true;
        deleted_at = none;
      }
      ∷ [];
  assignments = record { grant_uid = 9; scope_uid = 5 } ∷ [];
  subjects = record { application_uid = 2; member_uid = 7; subject = "pairwise" } ∷ [];
}

abbrev env : Env
env = record {
  issuer = "https://id.example";
  access_token_ttl = pos 0;
  session_hash = λ s. len s ∷ [];
  challenge_of = λ s. s;
  sign_access = λ c. some "token";
  sign_id = λ c. some "id";
  normalize = some;
}

abbrev verifier : String
verifier = "0123456789012345678901234567890123456789012"

abbrev code : Code
code = record {
  uid = 11;
  code_hash = 2 ∷ [];
  application_uid = 2;
  tenant_uid = 1;
  member_uid = 7;
  redirect_uri = "https://app.example/cb";
  scopes = "openid" ∷ "profile" ∷ [];
  nonce = "n";
  code_challenge = verifier;
  auth_time = 1;
  expires_at = 100;
  consumed_at = none;
  resource_server_uid = none;
}

abbrev t : Tables
t = record { secrets = []; codes = code ∷ []; tokens = []; consents = [] }

abbrev client_call : ClientCall
client_call = record {
  basic = none;
  prefix = "";
  has_dot = false;
  secret_hash = [];
  read_fails = false;
  secret_fails = false;
  now = 50;
  used = done;
  used_at = 50;
}

abbrev call : ExchangeCall
call = record {
  client = client_call;
  begin_fails = false;
  read_fails = false;
  checked_at = 50;
  resource_fails = false;
  granted_fails = false;
  scopes_fail = false;
  now = 51;
  token_uid = 20;
  jti = 21;
  consume_fails = false;
  insert_fails = false;
  audit_fails = false;
  commit = done;
}

abbrev form : List (String × List String)
form =
    ("grant_type", "authorization_code" ∷ [])
    ∷ ("client_id", "app" ∷ [])
    ∷ ("code", "co" ∷ [])
    ∷ ("redirect_uri", "https://app.example/cb" ∷ [])
    ∷ ("code_verifier", verifier ∷ [])
    ∷ []

abbrev answer : TokenAnswer
answer = record {
  access_token = "token";
  id_token = "id";
  expires_in = 600;
  scope = "openid profile";
}

form_is_good : parse_oauth_form (parsed form) ≡ returns form
unfolding parse_oauth_form none_repeated
form_is_good = refl

succeeds : (oauth_token env call reg (parsed form) t).0 ≡ returns answer
unfolding oauth_token parse_oauth_form none_repeated authenticate_oauth_client single_form_value
    transact find exists get bytes_eq update scope_contains join class_upto duration_or redeem
succeeds = refl

abbrev used : Tables
used = (oauth_token env call reg (parsed form) t).1

abbrev owner : Principal
owner = record { member_uid = 7; tenant_uid = 1 }

abbrev calls : List Call
calls = revokes_consent false false false false done owner 30 60 ∷ []

code_is_used_once_example :
    (oauth_token env call reg (parsed form) (run env used calls)).0 ≢ returns answer
code_is_used_once_example =
    code_is_used_once env call reg (parsed form) form t answer form_is_good succeeds calls call reg
      (parsed form) form answer form_is_good refl

token_matches_code_example :
    (c : Code) × (row : Token) × (client : Client) × (get (2 ∷ []) t.codes ≡ some c)
    × ((authenticate_oauth_client client_call reg form t).0 ≡ returns client)
    × (c.application_uid ≡ client.uid)
    × (c.redirect_uri ≡ single_form_value form "redirect_uri")
    × (c.code_challenge ≡ single_form_value form "code_verifier")
    × (c.consumed_at ≡ none)
    × (50 < c.expires_at)
    × (used.tokens ≡ t.tokens ++ row ∷ [])
    × (row.token_hash ≡ 5 ∷ [])
    × (row.application_uid ≡ client.uid)
    × (row.member_uid ≡ c.member_uid)
    × (row.scopes ≡ c.scopes)
    × (row.resource_server_uid ≡ c.resource_server_uid)
    × (row.expires_at ≡ 51 + duration_or (pos 0) (10 * minute))
unfolding single_form_value
token_matches_code_example =
    token_matches_code env call reg (parsed form) form t answer form_is_good succeeds

abbrev token : Token
token = record {
  uid = 20;
  token_hash = 5 ∷ [];
  jti = 21;
  application_uid = 2;
  tenant_uid = 1;
  member_uid = 7;
  subject = "pairwise";
  scopes = "openid" ∷ "profile" ∷ [];
  created_at = 51;
  expires_at = 1000;
  resource_server_uid = none;
  revoked_at = none;
}

abbrev held : Tables
held = record t { tokens = token ∷ [] }

abbrev revocation : List (String × List String)
revocation = ("client_id", "app" ∷ []) ∷ ("token", "token" ∷ []) ∷ []

abbrev client : Client
client = record { uid = 2; tenant_uid = 1; client_id = "app"; application_type = "public" }

revocation_is_good : parse_oauth_form (parsed revocation) ≡ returns revocation
unfolding parse_oauth_form none_repeated
revocation_is_good = refl

is_known_client : (authenticate_oauth_client client_call reg revocation held).0 ≡ returns client
unfolding authenticate_oauth_client single_form_value find
is_known_client = refl

names_token : str_eq (single_form_value revocation "token") "" ≡ false
unfolding single_form_value
names_token = refl

is_held : get (env.session_hash (single_form_value revocation "token")) held.tokens ≡ some token
unfolding single_form_value get bytes_eq
is_held = refl

revoked_token_is_dead_example :
    (user_info env reg false 70
        (single_form_value revocation "token")
        (run env (oauth_revoke env client_call done 60 reg (parsed revocation) held).1 calls)
      ≡ refuses 401 "invalid_token")
    × (oauth_resource_authorized env reg false 70
          (single_form_value revocation "token")
          (run env (oauth_revoke env client_call done 60 reg (parsed revocation) held).1 calls)
        ≡ refuses 401 "invalid_token")
revoked_token_is_dead_example =
    revoked_token_is_dead env client_call 60 reg (parsed revocation) revocation held client token
      revocation_is_good is_known_client names_token is_held refl calls reg false 70

revoke_hides_failure_example :
    ((oauth_revoke env client_call rejected 60 reg (parsed revocation) held).0
      ≡ (oauth_revoke env client_call done 60 reg (parsed revocation) held).0)
    × ((oauth_revoke env client_call rejected 60 reg (parsed revocation) held).1.tokens
        ≡ held.tokens)
revoke_hides_failure_example = revoke_hides_failure env client_call 60 reg (parsed revocation) held

-- Ada's consent to the application, with a token and a code issued under it.
abbrev consent : Consent
consent = record {
  uid = 30;
  tenant_uid = 1;
  member_uid = 7;
  application_uid = 2;
  scopes = "openid" ∷ "profile" ∷ [];
  resource_server_uid = none;
  is_active = true;
  updated_at = 1;
  revoked_at = none;
}

abbrev consented : Tables
consented = record t {
  tokens = record token { uid = 19; jti = 18; token_hash = 6 ∷ [] } ∷ [];
  consents = consent ∷ [];
}

is_consented : find (is_own owner 30) consented.consents ≡ some consent
unfolding find
is_consented = refl

has_token :
    get (6 ∷ []) consented.tokens ≡ some (record token { uid = 19; jti = 18; token_hash = 6 ∷ [] })
unfolding get bytes_eq
has_token = refl

consent_revocation_ignores_codes_example :
    ((revoke_oauth_consent false false false false done owner 30 40 consented).0 ≡ returns tt)
    × ((x' : Token) × (get
            (6 ∷ [])
            (revoke_oauth_consent false false false false done owner 30 40 consented).1.tokens
          ≡ some x')
        × (is_some x'.revoked_at ≡ true))
    × ((oauth_token env call reg
          (parsed form)
          (revoke_oauth_consent false false false false done owner 30 40 consented).1).0
        ≡ (oauth_token env call reg (parsed form) consented).0)
consent_revocation_ignores_codes_example =
    consent_revocation_ignores_codes env call reg (parsed form) owner 30 40 consented consent
      (6 ∷ []) (record token { uid = 19; jti = 18; token_hash = 6 ∷ [] }) is_consented has_token
      refl refl refl

-- The code is redeemed although the consent is revoked.
redeemed_after_revocation :
    (oauth_token env call reg
      (parsed form)
      (revoke_oauth_consent false false false false done owner 30 40 consented).1).0
    ≡ returns answer
unfolding oauth_token parse_oauth_form none_repeated authenticate_oauth_client single_form_value
    transact find exists get bytes_eq update scope_contains join class_upto duration_or redeem
    revoke_oauth_consent
redeemed_after_revocation = refl

abbrev reader : ResourcePrincipal
reader = record {
  tenant_uid = 1;
  member_uid = 7;
  subject = "pairwise";
  application_uid = 2;
  resource_server_uid = 3;
  resource_server_identifier = "https://files.example";
  scopes = "openid" ∷ "files:read" ∷ [];
  policy_version = 1;
  expires_at = 1000;
}

decision_allows_exactly_example :
    ((decision_of reg reader "file" "8" "files:read").allowed ≡ true)
    ↔ Entitles reg reader "files:read"
decision_allows_exactly_example = decision_allows_exactly reg reader "file" "8" "files:read"
