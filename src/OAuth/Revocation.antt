-- ===== src/OAuth/Revocation.antt =====
-- What oauthRevoke promises, and what it hides.
use complicatedauth_backend.Prelude.{
  ℕ, ◌≡◌, refl, Bool, true, false, List, Option, none, some, String, str_eq, arith, inl, inr,
  Option-cases, ◌==◌, ◌&&◌,
}
use complicatedauth_backend.Prelude.Bytes.{bytes_eq, bytes_eq_iff}
use complicatedauth_backend.Table.{get}
use complicatedauth_backend.Table.Laws.{get-update, get-key}
use complicatedauth_backend.Cleanup.{is_some}
use complicatedauth_backend.Db.{done, rejected}
use complicatedauth_backend.OAuth.Tables.{Token, token_keyed, Registry, Tables}
use complicatedauth_backend.OAuth.Client.{
  Reply, refuses, returns, Body, Client, ClientCall, parse_oauth_form, single_form_value,
  authenticate_oauth_client,
}
use complicatedauth_backend.OAuth.Exchange.{Env}
use complicatedauth_backend.OAuth.Access.{
  user_info, shows_user, oauth_revoke, revoke_for, revoke_token, revoked,
}
use complicatedauth_backend.OAuth.Decisions.{resource_principal, oauth_resource_authorized}
use complicatedauth_backend.OAuth.Changes.{authenticate_keeps}
use complicatedauth_backend.OAuth.Steps.{Call, run, IsRevoked, run-IsRevoked}

revoked_shows_nothing :
    (env : Env) (reg : Registry) (read_fails : Bool) (now : ℕ) (value : String) (t : Tables)
    → IsRevoked (env.session_hash value) t
    → user_info env reg read_fails now value t ≡ refuses 401 "invalid_token"
unfolding user_info shows_user
revoked_shows_nothing env reg read_fails now value t (x, held, gone) = ground arith

revoked_opens_nothing :
    (env : Env) (reg : Registry) (read_fails : Bool) (now : ℕ) (value : String) (t : Tables)
    → IsRevoked (env.session_hash value) t
    → oauth_resource_authorized env reg read_fails now value t ≡ refuses 401 "invalid_token"
unfolding oauth_resource_authorized resource_principal
revoked_opens_nothing env reg read_fails now value t (x, held, gone) =
    elim (Option-cases x.resource_server_uid) [ inl e ↦ ground arith | inr (uid, e) ↦ ground arith ]

revoked-is_some : (o : Option ℕ) (now : ℕ) → is_some (revoked o now) ≡ true
revoked-is_some none now = refl
revoked-is_some (some x) now = refl

-- A revocation that is carried out.
revoke_for-IsRevoked :
    (env : Env) (now : ℕ) (token : String) (client : Client) (t : Tables) (x : Token)
    → get (env.session_hash token) t.tokens ≡ some x
    → x.application_uid ≡ client.uid
    → str_eq token "" ≡ false
    → IsRevoked (env.session_hash token) (revoke_for env done now token (returns client) t).1
unfolding revoke_for
revoke_for-IsRevoked env now token client t x held own named =
    let hashed : bytes_eq x.token_hash (env.session_hash token) ≡ true =
      (bytes_eq_iff _ _).1 (get-key (env.session_hash token) t.tokens x held) in
    rw named (
      revoke_token now x,
      ground (
        arith,
        get-update
            (λ y. y.application_uid == client.uid && bytes_eq y.token_hash (env.session_hash token))
            (revoke_token now) (env.session_hash token) t.tokens (λ y. refl),
      ),
      revoked-is_some x.revoked_at now,
    )

oauth_revoke-IsRevoked :
    (env : Env) (call : ClientCall) (now : ℕ) (reg : Registry) (body : Body)
    (form : List (String × List String)) (t : Tables) (client : Client) (x : Token)
    → parse_oauth_form body ≡ returns form
    → (authenticate_oauth_client call reg form t).0 ≡ returns client
    → str_eq (single_form_value form "token") "" ≡ false
    → get (env.session_hash (single_form_value form "token")) t.tokens ≡ some x
    → x.application_uid ≡ client.uid
    → IsRevoked
        (env.session_hash (single_form_value form "token"))
        (oauth_revoke env call done now reg body t).1
unfolding oauth_revoke
oauth_revoke-IsRevoked env call now reg body form t client x p a named held own =
    let kept = authenticate_keeps call reg form t in
    let made =
      revoke_for-IsRevoked env now (single_form_value form "token") client
        (authenticate_oauth_client call reg form t).1 x (rw kept.1 held) own named in
    let same : (oauth_revoke env call done now reg body t).1
        ≡ (revoke_for env done now (single_form_value form "token") (returns client)
            (authenticate_oauth_client call reg form t).1).1 =
      ground arith in
    rw same made

-- A revoked token opens nothing: after a client has revoked a token of its own, and whatever is
-- called and registered since, neither the user info endpoint nor a resource server's accepts it.
pub revoked_token_is_dead :
    (env : Env) (call : ClientCall) (now : ℕ) (reg : Registry) (body : Body)
    (form : List (String × List String)) (t : Tables) (client : Client) (x : Token)
    → parse_oauth_form body ≡ returns form
    → (authenticate_oauth_client call reg form t).0 ≡ returns client
    → str_eq (single_form_value form "token") "" ≡ false
    → get (env.session_hash (single_form_value form "token")) t.tokens ≡ some x
    → x.application_uid ≡ client.uid
    → (cs : List Call) (reg' : Registry) (read_fails : Bool) (now' : ℕ)
    → (user_info env reg' read_fails now'
          (single_form_value form "token")
          (run env (oauth_revoke env call done now reg body t).1 cs)
        ≡ refuses 401 "invalid_token")
      × (oauth_resource_authorized env reg' read_fails now'
            (single_form_value form "token")
            (run env (oauth_revoke env call done now reg body t).1 cs)
          ≡ refuses 401 "invalid_token")
revoked_token_is_dead env call now reg body form t client x p a named held own cs reg' read_fails
      now' =
    let gone =
      run-IsRevoked env (env.session_hash (single_form_value form "token")) cs _
        (oauth_revoke-IsRevoked env call now reg body form t client x p a named held own) in
    (
      revoked_shows_nothing env reg' read_fails now' _ _ gone,
      revoked_opens_nothing env reg' read_fails now' _ _ gone,
    )

revoke_for_hides :
    (env : Env) (now : ℕ) (token : String) (a : Reply Client) (t : Tables)
    → ((revoke_for env rejected now token a t).0 ≡ (revoke_for env done now token a t).0)
      × ((revoke_for env rejected now token a t).1 ≡ t)
unfolding revoke_for
revoke_for_hides env now token (refuses status code) t = (refl, refl)
revoke_for_hides env now token (returns c) t = (ground arith, ground arith)

-- The answer of the revocation endpoint does not tell whether its statement ran: a client gets the
-- same answer when the statement fails, and then every token is as before.
pub revoke_hides_failure :
    (env : Env) (call : ClientCall) (now : ℕ) (reg : Registry) (body : Body) (t : Tables)
    → ((oauth_revoke env call rejected now reg body t).0
        ≡ (oauth_revoke env call done now reg body t).0)
      × ((oauth_revoke env call rejected now reg body t).1.tokens ≡ t.tokens)
unfolding oauth_revoke
revoke_hides_failure env call now reg body t = by_form (parse_oauth_form body) refl
  where
    by_form :
        (r : Reply (List (String × List String)))
        → parse_oauth_form body ≡ r
        → ((oauth_revoke env call rejected now reg body t).0
            ≡ (oauth_revoke env call done now reg body t).0)
          × ((oauth_revoke env call rejected now reg body t).1.tokens ≡ t.tokens)
    by_form (refuses status code) e = (ground arith, ground arith)
    by_form (returns form) e =
        let kept = authenticate_keeps call reg form t in
        let (client, t') = authenticate_oauth_client call reg form t in
        let hidden = revoke_for_hides env now (single_form_value form "token") client t' in
        (ground arith, ground arith)
