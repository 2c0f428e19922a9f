-- ===== src/OAuth/Client.antt =====
-- The form of the OAuth endpoints and the client that sends it: parseOAuthForm, singleFormValue and
-- authenticateOAuthClient of internal/api/oauth_authorization.go.
use complicatedauth_backend.Prelude.{
  ℕ, String, str_eq, Bool, true, false, not, ◌&&◌, ◌||◌, List, [], ◌∷◌, Option, none, some, ltb,
  ◌==◌, if◌then◌else◌,
}
use complicatedauth_backend.Prelude.Bytes.{bytes_eq}
use complicatedauth_backend.Table.{find, update}
use complicatedauth_backend.Db.{Outcome}
use complicatedauth_backend.OAuth.Tables.{
  Application, ClientSecret, Registry, Tables, live_application,
}

-- An answer of the OAuth endpoints: an error with its status and code, or what is returned.
pub data Reply (A : Type 0) : Type 0 where
  refuses : ℕ → String → Reply A
  returns : A → Reply A

-- What mime.ParseMediaType, io.ReadAll and url.ParseQuery make of a request.
pub data Body : Type 0 where
  other_media too_large unparsable : Body
  parsed : List (String × List String) → Body

abbrev has_one : List String → Bool
has_one (v ∷ []) = true
has_one _ = false

unfoldable pub none_repeated : List (String × List String) → Bool
none_repeated [] = true
none_repeated ((name, values) ∷ form) = has_one values && none_repeated form

-- parseOAuthForm
unfoldable pub parse_oauth_form : Body → Reply (List (String × List String))
parse_oauth_form other_media = refuses 400 "invalid_request"
parse_oauth_form too_large = refuses 400 "invalid_request"
parse_oauth_form unparsable = refuses 400 "invalid_request"
parse_oauth_form (parsed form) =
    if none_repeated form then returns form else refuses 400 "invalid_request"

abbrev only : List String → String
only (v ∷ []) = v
only _ = ""

-- singleFormValue
unfoldable pub single_form_value : List (String × List String) → String → String
single_form_value [] name = ""
single_form_value ((key, values) ∷ form) name =
    if str_eq key name then only values else single_form_value form name

-- oauthClientRecord
pub record Client : Type 0 where
  pub uid : ℕ
  pub tenant_uid : ℕ
  pub client_id : String
  pub application_type : String

abbrev client_of : Application → Client
client_of a = record {
  uid = a.uid;
  tenant_uid = a.tenant_uid;
  client_id = a.client_id;
  application_type = a.application_type;
}

-- What authenticateOAuthClient reads of a request besides the form, and what its calls do. `prefix`
-- and `has_dot` are what strings.Cut(secret, ".") gives.
pub record ClientCall : Type 0 where
  pub basic : Option (String × String)
  pub prefix : String
  pub has_dot : Bool
  pub secret_hash : List ℕ
  pub read_fails : Bool
  pub secret_fails : Bool
  pub now : ℕ
  pub used : Outcome
  pub used_at : ℕ

abbrev invalid_client : {A : Type 0} → Reply A
invalid_client = refuses 401 "invalid_client"

-- The secret that a confidential client may use.
unfoldable pub matching_secret : ℕ → ClientCall → Tables → Option ClientSecret
matching_secret application_uid call t =
    find
      (λ s.
        s.application_uid == application_uid
        && str_eq s.prefix call.prefix
        && s.is_active
        && ltb call.now s.expires_at)
      t.secrets

abbrev pub touch : Outcome → ℕ → ℕ → Tables → Tables
touch Outcome.rejected now uid t = t
touch _ now uid t = record t {
  secrets = update (λ s. s.uid == uid) (λ s. record s { last_used_at = some now }) t.secrets;
}

-- The end of authenticateOAuthClient, for a confidential client.
unfoldable pub check_secret : ClientCall → Application → Tables → Reply Client × Tables
unfolding matching_secret
check_secret call a t =
    if call.secret_fails then (invalid_client, t) else elim (matching_secret a.uid call t) [
      | none ↦ (invalid_client, t)
      | some secret ↦
          if not call.has_dot || not (bytes_eq secret.secret_hash call.secret_hash)
          then (invalid_client, t)
          else (returns (client_of a), touch call.used call.used_at secret.uid t)
    ]

abbrev has_secret : Option (String × String) → Bool
has_secret none = false
has_secret (some (id, secret)) = not (str_eq secret "")

abbrev has_basic : Option (String × String) → Bool
has_basic none = false
has_basic (some b) = true

-- Both the form and the header name a client, and not the same one.
abbrev disagrees : Option (String × String) → String → Bool
disagrees none form_id = false
disagrees (some (id, secret)) form_id = not (str_eq form_id "") && not (str_eq form_id id)

abbrev client_id_of : Option (String × String) → String → String
client_id_of none form_id = form_id
client_id_of (some (id, secret)) form_id = id

-- authenticateOAuthClient
unfoldable pub authenticate_oauth_client :
    ClientCall → Registry → List (String × List String) → Tables → Reply Client × Tables
unfolding single_form_value check_secret
authenticate_oauth_client call reg form t =
    let form_id = single_form_value form "client_id" in
    let form_secret = single_form_value form "client_secret" in
    if disagrees call.basic form_id || call.read_fails
    then (invalid_client, t)
    else elim (find
        (λ a. str_eq a.client_id (client_id_of call.basic form_id) && live_application a)
        reg.applications) [
          | none ↦ (invalid_client, t)
          | some a ↦
              if str_eq a.application_type "public"
              then (if has_basic call.basic || not (str_eq form_secret "")
                  then (invalid_client, t)
                  else (returns (client_of a), t))
              else if not (has_secret call.basic) || not (str_eq form_secret "")
              then (invalid_client, t)
              else check_secret call a t
        ]
