-- ===== src/OAuth/Entitled.antt =====
-- What entitles an access token to an operation of its resource server, and that
-- currentOAuthCapabilities of internal/api/oauth_runtime.go selects just that.
use complicatedauth_backend.Prelude.{
  ℕ, ◌≡◌, ◌==◌, ==_iff, ◌⊎◌, refl, ap, Bool, true, false, ◌&&◌, List, [], ◌∷◌, Option, none, some,
  String, str_eq, eq_iff, arith, inl, inr, Bool-cases,
}
use complicatedauth_backend.Table.{exists}
use complicatedauth_backend.OAuth.Tables.{
  Application, Member, ResourceServer, Scope, Grant, Assignment, Registry, is_none,
  live_application, live_resource, live_grant,
}
use complicatedauth_backend.OAuth.Scopes.{scope_contains}
use complicatedauth_backend.OAuth.Decisions.{ResourcePrincipal, is_capability}

-- A row of a table.
abbrev pub IsIn : {A : Type 0} → A → List A → Type 0
IsIn x [] = ⊥
IsIn x (y ∷ ys) = (y ≡ x) ⊎ IsIn x ys

module _ {A : Type 0} (p : A → Bool) where
  pub exists_row : (xs : List A) → exists p xs ≡ true → (x : A) × IsIn x xs × (p x ≡ true)
  unfolding exists
  exists_row [] h = absurd (ground arith)
  exists_row (x ∷ xs) h = elim (Bool-cases (p x)) [
    | inl good ↦ (x, inl refl, good)
    | inr bad ↦ let (y, there, good) = exists_row xs (ground arith) in (y, inr there, good)
  ]

  pub row_exists : (xs : List A) (x : A) → IsIn x xs → p x ≡ true → exists p xs ≡ true
  unfolding exists
  row_exists [] x there good = absurd there
  row_exists (y ∷ ys) x (inl same) good = ground (arith, ap p same)
  row_exists (y ∷ ys) x (inr there) good = ground (arith, row_exists ys x there good)

-- What entitles a token to an operation: the operation names a live scope of the token's resource
-- server, the token carries it, the resource server is live, the scope is assigned to a live grant of
-- the token's application on the resource server, the application is live, and the member is active.
pub record Entitles (reg : Registry) (p : ResourcePrincipal) (operation : String) : Type 0 where
  pub scope : Scope
  pub scope_is_in : IsIn scope reg.scopes
  pub scope_name : scope.name ≡ operation
  pub scope_resource : scope.resource_server_uid ≡ p.resource_server_uid
  pub scope_is_live : (scope.is_active ≡ true) × (scope.deleted_at ≡ none)
  pub carried : scope_contains p.scopes operation ≡ true
  pub resource : ResourceServer
  pub resource_is_in : IsIn resource reg.resources
  pub resource_uid : resource.uid ≡ p.resource_server_uid
  pub resource_is_live : (resource.is_active ≡ true) × (resource.deleted_at ≡ none)
  pub assignment : Assignment
  pub assignment_is_in : IsIn assignment reg.assignments
  pub assignment_scope : assignment.scope_uid ≡ scope.uid
  pub grant : Grant
  pub grant_is_in : IsIn grant reg.grants
  pub grant_uid : grant.uid ≡ assignment.grant_uid
  pub grant_application : grant.application_uid ≡ p.application_uid
  pub grant_resource : grant.resource_server_uid ≡ p.resource_server_uid
  pub grant_is_live : (grant.is_active ≡ true) × (grant.deleted_at ≡ none)
  pub application : Application
  pub application_is_in : IsIn application reg.applications
  pub application_uid : application.uid ≡ p.application_uid
  pub application_is_live : (application.is_active ≡ true) × (application.deleted_at ≡ none)
  pub member : Member
  pub member_is_in : IsIn member reg.members
  pub member_uid : member.uid ≡ p.member_uid
  pub member_is_active : member.is_active ≡ true

both : (a b : Bool) → (a && b) ≡ true → (a ≡ true) × (b ≡ true)
both true b h = (refl, h)
both false b h = absurd (ground arith)

-- status='active' AND deleted_at IS NULL
is_live :
    (active : Bool) (o : Option ℕ) → (active && is_none o) ≡ true → (active ≡ true) × (o ≡ none)
is_live true none h = (refl, refl)
is_live true (some x) h = absurd (ground arith)
is_live false o h = absurd (ground arith)

pub capability-Entitles :
    (reg : Registry) (p : ResourcePrincipal) (operation : String) (s : Scope)
    → IsIn s reg.scopes
    → (is_capability reg p s && str_eq s.name operation) ≡ true
    → Entitles reg p operation
unfolding is_capability
capability-Entitles reg p operation s there h =
    let (capable, named) = both _ _ h in
    let (capable5, members) = both _ _ capable in
    let (capable4, applications) = both _ _ capable5 in
    let (capable3, assignments) = both _ _ capable4 in
    let (capable2, resources) = both _ _ capable3 in
    let (capable1, carried) = both _ _ capable2 in
    let (server, scope_live) = both _ _ capable1 in
    let name : s.name ≡ operation = (eq_iff s.name operation).0 named in
    let (resource, resource_there, good) =
      exists_row (λ r. r.uid == p.resource_server_uid && live_resource r) reg.resources resources in
    let (assignment, assignment_there, assigned) =
      exists_row
        (λ a.
          a.scope_uid == s.uid
          && exists
              (λ g.
                g.uid == a.grant_uid
                && g.application_uid == p.application_uid
                && g.resource_server_uid == p.resource_server_uid
                && live_grant g)
              reg.grants)
        reg.assignments assignments in
    let (assigned_scope, grants) = both _ _ assigned in
    let (grant, grant_there, granted) =
      exists_row
        (λ g.
          g.uid == assignment.grant_uid
          && g.application_uid == p.application_uid
          && g.resource_server_uid == p.resource_server_uid
          && live_grant g)
        reg.grants grants in
    let (granted2, grant_live) = both _ _ granted in
    let (granted1, on_resource) = both _ _ granted2 in
    let (own_grant, to_application) = both _ _ granted1 in
    let (application, application_there, good_application) =
      exists_row (λ a. a.uid == p.application_uid && live_application a) reg.applications
        applications in
    let (member, member_there, good_member) =
      exists_row (λ m. m.uid == p.member_uid && m.is_active) reg.members members in
    record {
      scope = s;
      scope_is_in = there;
      scope_name = name;
      scope_resource = (==_iff _ _).0 server;
      scope_is_live = is_live _ _ scope_live;
      carried = rw name at carried;
      resource = resource;
      resource_is_in = resource_there;
      resource_uid = (==_iff _ _).0 (both _ _ good).0;
      resource_is_live = is_live _ _ (both _ _ good).1;
      assignment = assignment;
      assignment_is_in = assignment_there;
      assignment_scope = (==_iff _ _).0 assigned_scope;
      grant = grant;
      grant_is_in = grant_there;
      grant_uid = (==_iff _ _).0 own_grant;
      grant_application = (==_iff _ _).0 to_application;
      grant_resource = (==_iff _ _).0 on_resource;
      grant_is_live = is_live _ _ grant_live;
      application = application;
      application_is_in = application_there;
      application_uid = (==_iff _ _).0 (both _ _ good_application).0;
      application_is_live = is_live _ _ (both _ _ good_application).1;
      member = member;
      member_is_in = member_there;
      member_uid = (==_iff _ _).0 (both _ _ good_member).0;
      member_is_active = (both _ _ good_member).1;
    }

pub Entitles-capability :
    (reg : Registry) (p : ResourcePrincipal) (operation : String) (e : Entitles reg p operation)
    → (is_capability reg p e.scope && str_eq e.scope.name operation) ≡ true
unfolding is_capability
Entitles-capability reg p operation e = ground (
  arith,
  e.scope_name,
  e.scope_resource,
  e.scope_is_live,
  rw (← e.scope_name) at e.carried,
  eq_iff e.scope.name operation,
  row_exists (λ r. r.uid == p.resource_server_uid && live_resource r) reg.resources e.resource
      e.resource_is_in (ground (arith, e.resource_uid, e.resource_is_live)),
  row_exists
      (λ a.
        a.scope_uid == e.scope.uid
        && exists
            (λ g.
              g.uid == a.grant_uid
              && g.application_uid == p.application_uid
              && g.resource_server_uid == p.resource_server_uid
              && live_grant g)
            reg.grants)
      reg.assignments e.assignment e.assignment_is_in
      (ground (
        arith,
        e.assignment_scope,
        row_exists
            (λ g.
              g.uid == e.assignment.grant_uid
              && g.application_uid == p.application_uid
              && g.resource_server_uid == p.resource_server_uid
              && live_grant g)
            reg.grants e.grant e.grant_is_in
            (ground (arith, e.grant_uid, e.grant_application, e.grant_resource, e.grant_is_live)),
      )),
  row_exists (λ a. a.uid == p.application_uid && live_application a) reg.applications e.application
      e.application_is_in (ground (arith, e.application_uid, e.application_is_live)),
  row_exists (λ m. m.uid == p.member_uid && m.is_active) reg.members e.member e.member_is_in
      (ground (arith, e.member_uid, e.member_is_active)),
)

exists-implied :
    (p q : Scope → Bool) (ss : List Scope)
    → ((s : Scope) → p s ≡ true → q s ≡ true)
    → (exists q ss && exists p ss) ≡ exists p ss
unfolding exists
exists-implied p q [] h = refl
exists-implied p q (s ∷ ss) h = ground (arith, h s, exists-implied p q ss h)
