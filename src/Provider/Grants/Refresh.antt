-- ===== src/Provider/Grants/Refresh.antt =====
-- The scopes that a refresh token grants.
use lico.Base.{
  ne_of_eq, not, ◌≢◌, Option-cases, inl, inr, String, ◌≡◌, Bool, true, false, Option, none, some,
  List, [], ◌∷◌, ◌==◌, refl, sym, ap, ◌∙◌, ◌⊎◌, Bool-cases, then_of, else_of, arith, eq_iff,
  if◌then◌else◌,
}
use mathlib.Core.Path.{subst}
use lico.Base.Lists.{contains}
use lico.Payload.Claims.{ClaimsRequest}
use lico.Base.Dict.{
  Dict, get, flag, has, put, get-put, mark, get-set_of, IsDistinct, IsDistinct-put,
}
use lico.Errors.{GoError, oauth2_error, Result, ok, err, panic, >>=-eq-ok}
use lico.Oidc.{Oidc}
use lico.Payload.Token.{TokenRequest, RefreshTokenClaims}
use lico.Identity.{ManagerRef, AuthRecord, authorize_claims, auth_authorize_scopes}
use lico.Identity.Authorize.{auth_authorize_scopes_lem}
use lico.Provider.Managers.{IdentityManagers, manager_from_claims, user_from_claims}
use lico.Jwt.{Token}
use lico.Provider.Grants.{
  Grant, Outcome, granted, failed, lost_outcome_of, refresh_claims, refresh, requested_scopes,
  authorized_of, approved_or, refresh_user, refreshed_grant,
}

lost_outcome_of-granted : (m : Result Grant) (g : Grant) → lost_outcome_of m ≡ granted g → m ≡ ok g
lost_outcome_of-granted (ok a) g h = cc
lost_outcome_of-granted (err e) g h = cc
lost_outcome_of-granted panic g h = cc

-- What two failing tests leave.
passed_tests :
    (b c : Bool) (d e : GoError) (m : Outcome) (g : Grant)
    → (if not b then failed d else if c then failed e else m) ≡ granted g
    → (b ≡ true) × (c ≡ false) × (m ≡ granted g)
passed_tests false c d e m g h = cc
passed_tests true true d e m g h = cc
passed_tests true false d e m g h = (refl, refl, h)

-- The scopes that a refresh asks for, if it asks for any.
abbrev pub IsAskedFor : Dict Bool → String → Type 0
IsAskedFor [] j = Unit
IsAskedFor (scope ∷ scopes) j = has j (scope ∷ scopes) ≡ true

module _ (o : Oidc) (approved : Dict Bool) where
  -- The loop gives all requested scopes, on top of what it started with, if they all are approved.
  requested_scopes_sound :
      (scopes start authorized : Dict Bool) (j : String)
      → requested_scopes o approved scopes start ≡ ok authorized
      → flag j authorized ≡ true
      → (flag j start ≡ false)
      → (flag j approved ≡ true) × (has j scopes ≡ true)
  unfolding requested_scopes get
  requested_scopes_sound [] start authorized j h g n = ground arith
  requested_scopes_sound ((scope, b) ∷ scopes) start authorized j h g n = ground (
    arith,
    eq_iff scope j,
    get-put scope j true start,
    requested_scopes_sound scopes (put scope true start) authorized j,
  )

  -- One requested scope that is not approved fails the loop.
  pub requested_scopes_refused :
      (scopes start : Dict Bool) (j : String)
      → has j scopes ≡ true
      → flag j approved ≡ false
      → requested_scopes o approved scopes start
        ≡ err (oauth2_error o.insufficient_scope "insufficient scope")
  unfolding requested_scopes get
  requested_scopes_refused [] start j h n = ground arith
  requested_scopes_refused ((scope, b) ∷ scopes) start j h n =
      ground (arith, eq_iff scope j, requested_scopes_refused scopes (put scope true start) j)

  authorized_of_sound :
      (scopes authorized : Dict Bool) (j : String)
      → authorized_of o approved scopes ≡ ok authorized
      → flag j authorized ≡ true
      → (flag j approved ≡ true) × IsAskedFor scopes j
  unfolding authorized_of get
  authorized_of_sound [] authorized j h g = (ground arith, tt)
  authorized_of_sound (scope ∷ scopes) authorized j h g =
      requested_scopes_sound (scope ∷ scopes) [] authorized j h g refl

-- A scope that the backend approves or, where that says nothing, the token.
abbrev pub is_approved : Option (Dict Bool) → List String → String → Bool
is_approved none approved_list j = contains j approved_list
is_approved (some approved) approved_list j = flag j approved

approved_or-is_approved :
    (backend : Option (Dict Bool)) (approved_list : List String) (j : String)
    → flag j (approved_or backend approved_list) ≡ is_approved backend approved_list j
approved_or-is_approved none approved_list j = ground (arith, get-set_of approved_list j)
approved_or-is_approved (some approved) approved_list j = refl

-- A map of scopes of a backend names no scope twice, as any map.
abbrev pub IsMap : Option (Dict Bool) → Type 0
IsMap none = Unit
IsMap (some m) = IsDistinct m

mark-IsDistinct : (ks : List String) (m : Dict Bool) → IsDistinct m → IsDistinct (mark ks m)
unfolding mark
mark-IsDistinct [] m h = h
mark-IsDistinct (k ∷ ks) m h = mark-IsDistinct ks (put k true m) (IsDistinct-put k true m h)

approved_or-IsDistinct :
    (backend : Option (Dict Bool)) (approved_list : List String)
    → IsMap backend
    → IsDistinct (approved_or backend approved_list)
approved_or-IsDistinct none approved_list h = mark-IsDistinct approved_list [] tt
approved_or-IsDistinct (some m) approved_list h = h

requested_scopes-IsDistinct :
    (o : Oidc) (approved scopes start authorized : Dict Bool)
    → IsDistinct start
    → requested_scopes o approved scopes start ≡ ok authorized
    → IsDistinct authorized
unfolding requested_scopes
requested_scopes-IsDistinct o approved [] start authorized distinct h =
    let same : start ≡ authorized = cc h in subst IsDistinct same distinct
requested_scopes-IsDistinct o approved ((scope, b) ∷ scopes) start authorized distinct h =
    elim (Bool-cases (flag scope approved)) [
      | inl fine ↦
          requested_scopes-IsDistinct o approved scopes (put scope true start) authorized
            (IsDistinct-put scope true start distinct) (then_of _ fine h)
      | inr missing ↦ absurd (cc (else_of _ missing h))
    ]

authorized_of-IsDistinct :
    (o : Oidc) (approved scopes authorized : Dict Bool)
    → IsDistinct approved
    → authorized_of o approved scopes ≡ ok authorized
    → IsDistinct authorized
unfolding authorized_of
authorized_of-IsDistinct o approved [] authorized distinct h =
    let same : approved ≡ authorized = cc h in subst IsDistinct same distinct
authorized_of-IsDistinct o approved (scope ∷ scopes) authorized distinct h =
    requested_scopes-IsDistinct o approved (scope ∷ scopes) [] authorized tt h

module _ (o : Oidc) (managers : IdentityManagers) where
  reauthorized :
      (auth : AuthRecord) (authorized : Dict Bool) (claims : Option ClaimsRequest) (j : String)
      → IsDistinct authorized
      → flag j
          (authorize_claims
            (auth_authorize_scopes o (managers.scopes_supported auth.manager) auth authorized)
            claims).authorized_scopes
        ≡ true
      → (flag j authorized ≡ true) ⊎ (flag j auth.authorized_scopes ≡ true)
  unfolding authorize_claims
  reauthorized auth authorized claims j distinct given =
      let after =
        auth_authorize_scopes_lem o (managers.scopes_supported auth.manager) auth authorized
          distinct j in
      elim (Option-cases auth.user) [
        | inl nobody ↦ let unchanged = rw nobody at after in inr (ground (arith, given, unchanged))
        | inr (u, present) ↦
            let decided = rw present at after in
            elim (Bool-cases (flag j authorized)) [
              | inl fine ↦ inl fine
              | inr missing ↦ inr (ground (arith, given, decided, missing))
            ]
      ]

  refreshed_grant_scopes :
      (claims : RefreshTokenClaims) (authorized : Dict Bool)
      → (fetched : Option AuthRecord × Bool × Option GoError) (g : Grant)
      → refreshed_grant o managers claims authorized fetched ≡ ok g
      → (auth : AuthRecord) × (fetched ≡ (some auth, true, none))
        × (g.authorized_scopes ≡ authorized)
        × (g.auth
            ≡ authorize_claims
                (auth_authorize_scopes o (managers.scopes_supported auth.manager) auth authorized)
                claims.approved_claims_request)
  unfolding refreshed_grant
  refreshed_grant_scopes claims authorized (auth, false, e) g h = cc
  refreshed_grant_scopes claims authorized (auth, true, some e) g h = cc
  refreshed_grant_scopes claims authorized (none, true, none) g h = cc
  refreshed_grant_scopes claims authorized (some auth, true, none) g h = (auth, refl, cc h, cc h)

  -- A refresh that grants has asked the manager of the token's identity for the approved scopes and for
  -- the user, and every scope that it authorizes is approved, by the manager or, if that says nothing,
  -- by the token, and asked for, if the request asks for scopes. So is every scope of the record that it
  -- grants with, save those that the record had when the manager gave it. The record has the claims
  -- request of the token. The maps that the manager gives name no scope twice.
  pub refresh_user_sound :
      (tr : TokenRequest) (claims : RefreshTokenClaims) (user_id : String) (session : Option String)
      (g : Grant)
      → ((manager : ManagerRef) (backend : Option (Dict Bool))
          → managers.approved_scopes manager claims.subject tr.client_id claims.ref ≡ ok backend
          → IsMap backend)
      → refresh_user o managers tr claims user_id session ≡ ok g
      → (manager : ManagerRef) × (backend : Option (Dict Bool)) × (auth : AuthRecord)
        × (manager_from_claims managers claims.identity_provider claims.identity_claims
            ≡ ok manager)
        × (managers.approved_scopes manager claims.subject tr.client_id claims.ref ≡ ok backend)
        × (managers.fetch manager user_id session none [] g.authorized_scopes
            ≡ (some auth, true, none))
        × (g.auth.authorized_claims ≡ claims.approved_claims_request)
        × ((j : String)
            → flag j g.authorized_scopes ≡ true
            → (is_approved backend claims.approved_scopes_list j ≡ true) × IsAskedFor tr.scopes j)
        × ((j : String)
            → flag j g.auth.authorized_scopes ≡ true
            → ((is_approved backend claims.approved_scopes_list j ≡ true) × IsAskedFor tr.scopes j)
              ⊎ (flag j auth.authorized_scopes ≡ true))
  unfolding refresh_user authorize_claims
  refresh_user_sound tr claims user_id session g maps h =
      let (manager, managed, h1) =
        >>=-eq-ok (manager_from_claims managers claims.identity_provider claims.identity_claims) _
          h in
      let (backend, answered, h2) =
        >>=-eq-ok (managers.approved_scopes manager claims.subject tr.client_id claims.ref) _ h1 in
      let approved = approved_or backend claims.approved_scopes_list in
      let (authorized, allowed, h3) = >>=-eq-ok (authorized_of o approved tr.scopes) _ h2 in
      let (auth, fetched, same, record1) =
        refreshed_grant_scopes claims authorized
          (managers.fetch manager user_id session none [] authorized) g h3 in
      let distinct =
        authorized_of-IsDistinct o approved tr.scopes authorized
          (approved_or-IsDistinct backend claims.approved_scopes_list
            (maps manager backend answered))
          allowed in
      let why : (j : String)
          → flag j authorized ≡ true
          → (is_approved backend claims.approved_scopes_list j ≡ true) × IsAskedFor tr.scopes j =
        λ j given.
          let (fine, wanted) =
            authorized_of_sound o approved tr.scopes authorized j allowed given in
          (sym (approved_or-is_approved backend claims.approved_scopes_list j) ∙ fine, wanted) in
      (
        manager,
        backend,
        auth,
        managed,
        answered,
        cc (same, fetched),
        ap (λ (r : AuthRecord). r.authorized_claims) record1,
        λ j given. why j (cc (same, given)),
        λ j given.
            elim (reauthorized auth authorized claims.approved_claims_request j distinct
              (rw record1 at given)) [ inl fine ↦ inl (why j fine) | inr had ↦ inr had ],
      )

  -- The refresh token of a refresh grant, whose user is read from its claims.
  abbrev pub IsRefreshOf : TokenRequest → Token RefreshTokenClaims → Grant → Type 0
  IsRefreshOf tr token g =
      let user : String × Option String =
        user_from_claims managers token.claims.audience none token.claims.identity_claims in
      (token.claims.audience ≡ tr.client_id)
      × (user.0 ≢ "")
      × (refresh_user o managers tr token.claims user.0 user.1 ≡ ok g)

  refresh_claims-granted :
      (tr : TokenRequest) (token : Token RefreshTokenClaims) (g : Grant)
      → refresh_claims o managers tr token.claims ≡ granted g
      → IsRefreshOf tr token g
  unfolding refresh_claims
  refresh_claims-granted tr token g h =
      let (same, named, found) =
        passed_tests (token.claims.audience == tr.client_id)
          ((user_from_claims managers token.claims.audience none token.claims.identity_claims).0
            == "")
          _ _ _ g h in
      ((eq_iff _ _).0 same, ne_of_eq _ _ named, lost_outcome_of-granted _ g found)

  pub refresh-granted :
      (tr : TokenRequest) (g : Grant)
      → refresh o managers tr ≡ granted g
      → (token : Token RefreshTokenClaims) × (tr.refresh_token ≡ some token)
        × IsRefreshOf tr token g
  unfolding refresh
  refresh-granted tr g h = elim (Option-cases tr.refresh_token) [
    | inl missing ↦ ground arith
    | inr (token, there) ↦ (token, there, refresh_claims-granted tr token g (ground arith))
  ]
