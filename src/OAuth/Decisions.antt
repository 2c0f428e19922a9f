-- ===== src/OAuth/Decisions.antt =====
-- internal/api/authorization_decisions.go: oauthResourceAuthorized, currentOAuthCapabilities and
-- createAuthorizationDecision.
use Prim.Native.String.{len}
use complicatedauth_backend.Prelude.{
  ℕ, String, str_eq, Bool, not, ◌&&◌, ◌||◌, List, [], ◌∷◌, Option, none, some, ltb, ◌==◌,
  if◌then◌else◌,
}
use complicatedauth_backend.Prelude.Text.{trim_space}
use complicatedauth_backend.Table.{get, find, exists}
use complicatedauth_backend.OAuth.Tables.{
  ResourceServer, Scope, Token, token_keyed, Registry, Tables, live_application, live_resource,
  live_scope, live_grant,
}
use complicatedauth_backend.OAuth.Scopes.{scope_contains, is_delegated, sort_strings}
use complicatedauth_backend.OAuth.Client.{Reply, refuses, returns}
use complicatedauth_backend.OAuth.Exchange.{Env}
use complicatedauth_backend.OAuth.Access.{is_live_at}

-- oauthResourcePrincipal
pub record ResourcePrincipal : Type 0 where
  pub tenant_uid : ℕ
  pub member_uid : ℕ
  pub subject : String
  pub application_uid : ℕ
  pub resource_server_uid : ℕ
  pub resource_server_identifier : String
  pub scopes : List String
  pub policy_version : ℕ
  pub expires_at : ℕ

-- The member, the application and the grant of a token are still there.
unfoldable pub is_backed : Registry → ℕ → ℕ → ℕ → Bool
is_backed reg member_uid application_uid resource_uid =
    exists (λ m. m.uid == member_uid && m.is_active) reg.members
    && exists (λ a. a.uid == application_uid && live_application a) reg.applications
    && exists
        (λ g.
          g.application_uid == application_uid
          && g.resource_server_uid == resource_uid
          && live_grant g)
        reg.grants

abbrev principal_of : Token → ResourceServer → ResourcePrincipal
principal_of t r = record {
  tenant_uid = t.tenant_uid;
  member_uid = t.member_uid;
  subject = t.subject;
  application_uid = t.application_uid;
  resource_server_uid = r.uid;
  resource_server_identifier = r.identifier;
  scopes = t.scopes;
  policy_version = r.policy_version;
  expires_at = t.expires_at;
}

-- The SELECT of oauthResourceAuthorized, for the row of the token.
unfoldable pub resource_principal : Registry → ℕ → Token → Option ResourcePrincipal
unfolding is_backed
resource_principal reg now t = elim t.resource_server_uid [
  | none ↦ none
  | some uid ↦
      if not (is_live_at now t && is_backed reg t.member_uid t.application_uid uid)
      then none
      else elim (find (λ r. r.uid == uid && live_resource r) reg.resources) [
        | none ↦ none
        | some r ↦ some (principal_of t r)
      ]
]

-- oauthResourceAuthorized: the principal with which the next handler runs. `value` is what follows
-- "Bearer " in the Authorization header.
unfoldable pub oauth_resource_authorized :
    Env → Registry → Bool → ℕ → String → Tables → Reply ResourcePrincipal
unfolding resource_principal
oauth_resource_authorized env reg read_fails now value t =
    if str_eq value "" || ltb 8192 (len value) || read_fails
    then refuses 401 "invalid_token"
    else elim (get (env.session_hash value) t.tokens) [
      | none ↦ refuses 401 "invalid_token"
      | some token ↦ elim (resource_principal reg now token) [
        | none ↦ refuses 401 "invalid_token"
        | some p ↦ returns p
      ]
    ]

-- The scopes that currentOAuthCapabilities selects.
unfoldable pub is_capability : Registry → ResourcePrincipal → Scope → Bool
is_capability reg p s =
    s.resource_server_uid == p.resource_server_uid
    && live_scope s
    && scope_contains p.scopes s.name
    && exists (λ r. r.uid == p.resource_server_uid && live_resource r) reg.resources
    && exists
        (λ a.
          a.scope_uid == s.uid
          && exists
              (λ g.
                g.uid == a.grant_uid
                && g.application_uid == p.application_uid
                && g.resource_server_uid == p.resource_server_uid
                && live_grant g)
              reg.grants)
        reg.assignments
    && exists (λ a. a.uid == p.application_uid && live_application a) reg.applications
    && exists (λ m. m.uid == p.member_uid && m.is_active) reg.members

unfoldable pub names_where : (Scope → Bool) → List Scope → List String
names_where p [] = []
names_where p (s ∷ ss) = let rest = names_where p ss in if p s then s.name ∷ rest else rest

-- currentOAuthCapabilities, without its errors. Names are unique in a resource server.
unfoldable pub current_oauth_capabilities : Registry → ResourcePrincipal → List String
unfolding is_capability names_where
current_oauth_capabilities reg p = sort_strings (names_where (is_capability reg p) reg.scopes)

-- AuthorizationDecision
pub record Decision : Type 0 where
  pub allowed : Bool
  pub subject : String
  pub tenant_uid : ℕ
  pub resource_server_uid : ℕ
  pub resource_server_identifier : String
  pub resource_type : String
  pub resource_id : String
  pub operation : String
  pub capabilities : List String
  pub policy_version : ℕ
  pub valid_until : ℕ
  pub denial_reason : Option String

-- SELECT EXISTS(...) on the operation
unfoldable pub operation_exists : Registry → ℕ → String → Bool
operation_exists reg resource_uid operation =
    exists (λ s. s.resource_server_uid == resource_uid && str_eq s.name operation && live_scope s)
      reg.scopes

-- The decision, once its inputs are valid and its queries have succeeded.
unfoldable pub decision_of : Registry → ResourcePrincipal → String → String → String → Decision
unfolding current_oauth_capabilities operation_exists
decision_of reg p resource_type resource_id operation =
    let capabilities = current_oauth_capabilities reg p in
    let known = operation_exists reg p.resource_server_uid operation in
    let allowed = known && scope_contains capabilities operation in
    record {
      allowed = allowed;
      subject = p.subject;
      tenant_uid = p.tenant_uid;
      resource_server_uid = p.resource_server_uid;
      resource_server_identifier = p.resource_server_identifier;
      resource_type = resource_type;
      resource_id = resource_id;
      operation = operation;
      capabilities = capabilities;
      policy_version = p.policy_version;
      valid_until = p.expires_at;
      denial_reason =
          if allowed
          then none
          else if not known
          then some "unknown_operation"
          else some "missing_capability";
    }

-- createAuthorizationDecision on a decoded body. `context_size` is the length of the context as
-- JSON, `none` if it cannot be encoded.
unfoldable pub create_authorization_decision :
    Registry
    → Bool
    → Bool
    → ResourcePrincipal
    → String
    → String
    → String
    → Option ℕ
    → Reply Decision
unfolding decision_of
create_authorization_decision reg capabilities_fail operation_fails p raw_type raw_id raw_operation
      context_size =
    let resource_type = trim_space raw_type in
    let resource_id = trim_space raw_id in
    let operation = trim_space raw_operation in
    if str_eq resource_type ""
      || ltb 120 (len resource_type)
      || str_eq resource_id ""
      || ltb 500 (len resource_id)
      || not (is_delegated operation)
    then refuses 422 "validation_failed"
    else elim context_size [
      | none ↦ refuses 422 "validation_failed"
      | some n ↦
          if ltb 8192 n
          then refuses 422 "validation_failed"
          else if capabilities_fail || operation_fails
          then refuses 503 "authorization_unavailable"
          else returns (decision_of reg p resource_type resource_id operation)
    ]
