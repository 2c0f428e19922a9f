-- ===== src/OAuth/Scopes.antt =====
-- Scopes of internal/api/oauth_authorization.go: scopeContains, normalizeRequestedScopes and
-- resolveAuthorizationScopes.
use Prim.Native.String.{compare as str_compare}
use Prim.Native.Nat.{Ordering, gt}
use complicatedauth_backend.Prelude.{
  ℕ, String, str_eq, Bool, true, false, not, ◌&&◌, ◌||◌, List, [], ◌∷◌, Option, none, some, ◌==◌,
  if◌then◌else◌,
}
use complicatedauth_backend.Prelude.Text.{fields, matches, is_lower, is_dotted}
use complicatedauth_backend.Table.{find, exists}
use complicatedauth_backend.Db.{Result, ok, err}
use complicatedauth_backend.OAuth.Tables.{
  ResourceServer, Grant, Registry, live_resource, live_scope, live_grant,
}

-- scopeContains
unfoldable pub scope_contains : List String → String → Bool
scope_contains [] wanted = false
scope_contains (scope ∷ scopes) wanted = str_eq scope wanted || scope_contains scopes wanted

-- oidcScopes
abbrev pub is_oidc : String → Bool
is_oidc s = str_eq s "openid" || str_eq s "profile" || str_eq s "email"

-- [a-z0-9._:-]
abbrev is_scope_code : ℕ → Bool
is_scope_code c = is_lower c || (is_dotted c || (c == b':' || c == b'-'))

-- delegatedScopePattern
unfoldable pub is_delegated : String → Bool
is_delegated s = matches is_lower is_scope_code 119 s

pub data ScopeError : Type 0 where
  no_openid : ScopeError
  duplicated unsupported : String → ScopeError
  resource_required bad_resource no_delegated_scope resource_not_granted : ScopeError
  not_validated : ScopeError
  not_granted : String → ScopeError

-- The loop of normalizeRequestedScopes over the values, of which `seen` came before. It gives the
-- delegated scopes among them.
unfoldable pub check_scopes : List String → List String → Result ScopeError (List String)
check_scopes seen [] = ok []
check_scopes seen (value ∷ values) =
    let rest = check_scopes (value ∷ seen) values in
    if scope_contains seen value
    then err (duplicated value)
    else if is_oidc value
    then rest
    else if not (is_delegated value) || str_eq value "offline_access"
    then err (unsupported value)
    else elim rest [ err e ↦ err e | ok custom ↦ ok (value ∷ custom) ]

-- sort.Strings
abbrev before : Ordering → Bool
before gt = false
before _ = true

unfoldable pub insert_string : String → List String → List String
insert_string s [] = s ∷ []
insert_string s (x ∷ xs) = if before (str_compare s x) then s ∷ x ∷ xs else x ∷ insert_string s xs

unfoldable pub sort_strings : List String → List String
unfolding insert_string
sort_strings [] = []
sort_strings (x ∷ xs) = insert_string x (sort_strings xs)

-- normalizeRequestedScopes
unfoldable pub normalize_requested_scopes : String → Result ScopeError (List String × List String)
unfolding check_scopes
normalize_requested_scopes raw = elim (check_scopes [] (fields raw)) [
  | err e ↦ err e
  | ok custom ↦
      if scope_contains (fields raw) "openid"
      then ok (sort_strings (fields raw), sort_strings custom)
      else err no_openid
]

-- The grant that a live application has on a resource server.
abbrev is_grant : ℕ → ℕ → Grant → Bool
is_grant application_uid resource_uid g =
    g.application_uid == application_uid && g.resource_server_uid == resource_uid && live_grant g

-- Whether the second query of resolveAuthorizationScopes returns a name.
unfoldable pub is_granted : Registry → ℕ → ℕ → String → Bool
is_granted reg application_uid resource_uid name =
    exists
      (λ g.
        is_grant application_uid resource_uid g
        && exists
            (λ a.
              a.grant_uid == g.uid
              && exists (λ s. s.uid == a.scope_uid && live_scope s && str_eq s.name name)
                  reg.scopes)
            reg.assignments)
      reg.grants

-- The last loop of resolveAuthorizationScopes: the first name that is not granted.
unfoldable pub first_ungranted : Registry → ℕ → ℕ → List String → Option String
first_ungranted reg application_uid resource_uid [] = none
first_ungranted reg application_uid resource_uid (name ∷ names) =
    if is_granted reg application_uid resource_uid name
    then first_ungranted reg application_uid resource_uid names
    else some name

-- The resource server of the first query.
unfoldable pub granted_resource : Registry → ℕ → ℕ → String → Option ResourceServer
granted_resource reg tenant_uid application_uid identifier =
    find
      (λ r.
        r.tenant_uid == tenant_uid
        && str_eq r.identifier identifier
        && live_resource r
        && exists (is_grant application_uid r.uid) reg.grants)
      reg.resources

abbrev is_empty : List String → Bool
is_empty [] = true
is_empty (x ∷ xs) = false

-- The part of resolveAuthorizationScopes after its guards.
unfoldable pub resolve_granted :
    Bool
    → Bool
    → Registry
    → ℕ
    → ℕ
    → String
    → List String
    → List String
    → Result ScopeError (List String × Option ResourceServer)
unfolding granted_resource first_ungranted
resolve_granted read_fails scopes_fail reg tenant_uid application_uid canonical values custom =
    if read_fails
    then err resource_not_granted
    else elim (granted_resource reg tenant_uid application_uid canonical) [
      | none ↦ err resource_not_granted
      | some resource ↦
          if scopes_fail
          then err not_validated
          else elim (first_ungranted reg application_uid resource.uid custom) [
            | some name ↦ err (not_granted name)
            | none ↦ ok (values, some resource)
          ]
    ]

-- resolveAuthorizationScopes. normalizeResourceIdentifier is url.Parse with conditions on its
-- result: a parameter. The two faults are those of the queries.
unfoldable pub resolve_authorization_scopes :
    (String → Option String)
    → Bool
    → Bool
    → Registry
    → ℕ
    → ℕ
    → String
    → String
    → Result ScopeError (List String × Option ResourceServer)
unfolding normalize_requested_scopes resolve_granted
resolve_authorization_scopes normalize read_fails scopes_fail reg tenant_uid application_uid raw
      indicator =
    elim (normalize_requested_scopes raw) [
      | err e ↦ err e
      | ok normal ↦
          let (values, custom) = normal in
          if str_eq indicator ""
          then (if not (is_empty custom) then err resource_required else ok (values, none))
          else elim (normalize indicator) [
            | none ↦ err bad_resource
            | some canonical ↦
                if is_empty custom
                then err no_delegated_scope
                else resolve_granted read_fails scopes_fail reg tenant_uid application_uid canonical
                    values custom
          ]
    ]
