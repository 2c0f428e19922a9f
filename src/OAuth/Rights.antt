-- ===== src/OAuth/Rights.antt =====
-- Which scopes a request resolves to and what a decision allows, against the tables.
use complicatedauth_backend.Prelude.{
  ◌≡◌, ◌↔◌, refl, ◌∙◌, sym, Bool, true, ◌&&◌, ◌||◌, List, [], ◌∷◌, String, str_eq, arith,
}
use complicatedauth_backend.Table.{exists}
use complicatedauth_backend.OAuth.Tables.{Scope, Registry}
use complicatedauth_backend.OAuth.Scopes.{scope_contains, insert_string, sort_strings}
use complicatedauth_backend.OAuth.Entitled.{
  exists_row, row_exists, Entitles, capability-Entitles, Entitles-capability,
}
use complicatedauth_backend.OAuth.Decisions.{
  ResourcePrincipal, is_capability, names_where, current_oauth_capabilities, operation_exists,
  decision_of,
}

scope_contains-insert_string :
    (s : String) (xs : List String) (w : String)
    → scope_contains (insert_string s xs) w ≡ (str_eq s w || scope_contains xs w)
unfolding insert_string scope_contains
scope_contains-insert_string s [] w = refl
scope_contains-insert_string s (x ∷ xs) w = ground (arith, scope_contains-insert_string s xs w)

-- Sorting keeps the names.
pub scope_contains-sort_strings :
    (xs : List String) (w : String) → scope_contains (sort_strings xs) w ≡ scope_contains xs w
unfolding sort_strings scope_contains
scope_contains-sort_strings [] w = refl
scope_contains-sort_strings (x ∷ xs) w =
    ground
      (arith, scope_contains-insert_string x (sort_strings xs) w, scope_contains-sort_strings xs w)

scope_contains-names_where :
    (p : Scope → Bool) (ss : List Scope) (w : String)
    → scope_contains (names_where p ss) w ≡ exists (λ s. p s && str_eq s.name w) ss
unfolding names_where scope_contains exists
scope_contains-names_where p [] w = refl
scope_contains-names_where p (s ∷ ss) w = ground (arith, scope_contains-names_where p ss w)

exists-implied :
    (p q : Scope → Bool) (ss : List Scope)
    → ((s : Scope) → p s ≡ true → q s ≡ true)
    → (exists q ss && exists p ss) ≡ exists p ss
unfolding exists
exists-implied p q [] h = refl
exists-implied p q (s ∷ ss) h = ground (arith, h s, exists-implied p q ss h)

allowed-capability :
    (reg : Registry) (p : ResourcePrincipal) (resource_type resource_id operation : String)
    → (decision_of reg p resource_type resource_id operation).allowed
      ≡ exists (λ s. is_capability reg p s && str_eq s.name operation) reg.scopes
unfolding decision_of current_oauth_capabilities operation_exists
allowed-capability reg p resource_type resource_id operation =
    rw
      (
        scope_contains-sort_strings (names_where (is_capability reg p) reg.scopes) operation,
        scope_contains-names_where (is_capability reg p) reg.scopes operation,
      )
      (exists-implied (λ s. is_capability reg p s && str_eq s.name operation) _ reg.scopes
        (λ s h. unfold is_capability in ground arith))

-- A decision allows an operation exactly if the token is entitled to it: the operation names a live scope
-- of the token's live resource server, which the token carries and which is assigned to a live grant
-- of its live application on that server, and the member is active.
pub decision_allows_exactly :
    (reg : Registry) (p : ResourcePrincipal) (resource_type resource_id operation : String)
    → ((decision_of reg p resource_type resource_id operation).allowed ≡ true)
      ↔ Entitles reg p operation
decision_allows_exactly reg p resource_type resource_id operation =
    let same = allowed-capability reg p resource_type resource_id operation in
    let capable : Scope → Bool = λ s. is_capability reg p s && str_eq s.name operation in
    (
      λ h.
          let (s, there, good) = exists_row capable reg.scopes (sym same ∙ h) in
          capability-Entitles reg p operation s there good,
      λ e.
          same
          ∙ row_exists capable reg.scopes e.scope e.scope_is_in
              (Entitles-capability reg p operation e),
    )
