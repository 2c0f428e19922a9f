-- ===== src/OAuth/Access.antt =====
-- What an access token gives, and how it is taken away: oauthUserInfo, oauthRevoke and
-- revokeOAuthConsent of internal/api/oauth_authorization.go.
use Prim.Native.String.{len}
use complicatedauth_backend.Prelude.{
  ℕ, String, str_eq, Bool, true, false, not, ◌&&◌, ◌||◌, Option, none, some, ltb, ◌==◌,
  if◌then◌else◌,
}
use complicatedauth_backend.Prelude.Bytes.{bytes_eq}
use complicatedauth_backend.Table.{get, find, exists, update}
use complicatedauth_backend.Db.{Result, ok, err, Outcome, transact}
use complicatedauth_backend.Cleanup.{is_some}
use complicatedauth_backend.OAuth.Tables.{
  Member, Token, token_keyed, Consent, Registry, Tables, is_none, live_application,
}
use complicatedauth_backend.OAuth.Scopes.{scope_contains}
use complicatedauth_backend.OAuth.Client.{
  Reply, refuses, returns, Body, Client, ClientCall, parse_oauth_form, single_form_value,
  authenticate_oauth_client,
}
use complicatedauth_backend.OAuth.Exchange.{Env, Refusal, reply_of}

-- t.revoked_at IS NULL AND t.expires_at>now()
abbrev pub is_live_at : ℕ → Token → Bool
is_live_at now t = is_none t.revoked_at && ltb now t.expires_at

-- The claims of oauthUserInfo.
pub record UserInfo : Type 0 where
  pub sub : String
  pub name : Option String
  pub email : Option (String × Bool)

-- What oauthUserInfo selects on the token's own columns and on its application.
unfoldable pub shows_user : Registry → ℕ → Token → Bool
shows_user reg now t =
    is_live_at now t
    && is_none t.resource_server_uid
    && exists (λ a. a.uid == t.application_uid && live_application a) reg.applications

abbrev live_member : Registry → ℕ → Option Member
live_member reg uid = find (λ m. m.uid == uid && m.is_active) reg.members

-- oauthUserInfo. `value` is what follows "Bearer " in the Authorization header.
unfoldable pub user_info : Env → Registry → Bool → ℕ → String → Tables → Reply UserInfo
unfolding shows_user
user_info env reg read_fails now value t =
    if str_eq value "" || ltb 8192 (len value) || read_fails
    then refuses 401 "invalid_token"
    else elim (get (env.session_hash value) t.tokens) [
      | none ↦ refuses 401 "invalid_token"
      | some token ↦
          if not (shows_user reg now token)
          then refuses 401 "invalid_token"
          else elim (live_member reg token.member_uid) [
            | none ↦ refuses 401 "invalid_token"
            | some m ↦ returns (record {
              sub = token.subject;
              name = if scope_contains token.scopes "profile" then some m.display_name else none;
              email =
                  if scope_contains token.scopes "email"
                  then some (m.email, is_some m.email_verified_at)
                  else none;
            })
          ]
    ]

abbrev pub revoked : Option ℕ → ℕ → Option ℕ
revoked none now = some now
revoked (some t) now = some t

-- COALESCE(revoked_at,now())
abbrev pub revoke_token : ℕ → Token → Token
revoke_token now t = record t { revoked_at = revoked t.revoked_at now }

-- A statement outside a transaction, whose error the code ignores.
abbrev pub attempt : Outcome → Tables → Tables → Tables
attempt Outcome.rejected new old = old
attempt _ new old = new

-- oauthRevoke, after the client's authentication.
unfoldable pub revoke_for :
    Env → Outcome → ℕ → String → Reply Client → Tables → Reply (Unit {0}) × Tables
revoke_for env exec now token (refuses status code) t = (refuses status code, t)
revoke_for env exec now token (returns c) t =
    if str_eq token "" then (refuses 400 "invalid_request", t) else (
      returns tt,
      attempt exec
          (record t {
            tokens =
                update
                  (λ x.
                    x.application_uid == c.uid && bytes_eq x.token_hash (env.session_hash token))
                  (revoke_token now) t.tokens;
          })
          t,
    )

-- oauthRevoke
unfoldable pub oauth_revoke :
    Env → ClientCall → Outcome → ℕ → Registry → Body → Tables → Reply (Unit {0}) × Tables
unfolding revoke_for
oauth_revoke env call exec now reg body t = elim (parse_oauth_form body) [
  | refuses status code ↦ (refuses status code, t)
  | returns form ↦
      let (client, t') = authenticate_oauth_client call reg form t in
      revoke_for env exec now (single_form_value form "token") client t'
]

-- IS NOT DISTINCT FROM
abbrev pub same_option : Option ℕ → Option ℕ → Bool
same_option none none = true
same_option (some x) (some y) = x == y
same_option _ _ = false

-- The principal of a console session.
pub record Principal : Type 0 where
  pub member_uid : ℕ
  pub tenant_uid : ℕ

abbrev pub is_own : Principal → ℕ → Consent → Bool
is_own p uid c = c.uid == uid && c.tenant_uid == p.tenant_uid && c.member_uid == p.member_uid

abbrev pub revoke_row : ℕ → Consent → Consent
revoke_row now c = record c {
  is_active = false;
  revoked_at = revoked c.revoked_at now;
  updated_at = now;
}

-- The tokens that the second statement of revokeOAuthConsent revokes.
abbrev pub is_of_consent : Principal → Consent → Token → Bool
is_of_consent p c x =
    x.application_uid == c.application_uid
    && x.member_uid == p.member_uid
    && same_option x.resource_server_uid c.resource_server_uid

abbrev pub revocation_failed : Refusal
revocation_failed = (500, "internal_error")

-- The transaction of revokeOAuthConsent.
unfoldable pub revoke_consent_body :
    Bool → Bool → Bool → Principal → ℕ → ℕ → Tables → Result Refusal (Tables × Unit {0} × Refusal)
revoke_consent_body consent_fails tokens_fail audit_fails p uid now t =
    if consent_fails then err revocation_failed else elim (find (is_own p uid) t.consents) [
      | none ↦ err (404, "oauth_consent_not_found")
      | some c ↦
          if tokens_fail || audit_fails
          then err revocation_failed
          else ok (
            record t {
              consents = update (is_own p uid) (revoke_row now) t.consents;
              tokens = update (is_of_consent p c) (revoke_token now) t.tokens;
            },
            tt,
            revocation_failed,
          )
    ]

-- revokeOAuthConsent
unfoldable pub revoke_oauth_consent :
    Bool → Bool → Bool → Bool → Outcome → Principal → ℕ → ℕ → Tables → Reply (Unit {0}) × Tables
unfolding revoke_consent_body
revoke_oauth_consent begin_fails consent_fails tokens_fail audit_fails commit p uid now t =
    let (answer, t') =
      transact begin_fails revocation_failed commit
        (revoke_consent_body consent_fails tokens_fail audit_fails p uid now t) t in
    (reply_of answer, t')
