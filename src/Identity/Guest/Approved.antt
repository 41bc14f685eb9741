-- ===== src/Identity/Guest/Approved.antt =====
-- Which scopes Authorize of identity/managers/guest.go grants.
use lico.Base.{
  String, ◌≡◌, refl, sym, Bool, true, false, none, some, List, [], ◌∷◌, ◌==◌, ◌||◌, ◌&&◌, not,
  if◌then◌else◌, eq_iff, not-eq-true, eq_refl, arith, Bool-cases, then_of, else_of, inl, inr,
}
use mathlib.Core.Path.{subst}
use lico.Base.Lists.{contains}
use lico.Base.Dict.{
  Dict, get, put, has, flag, keys, set_of, get-put, get-remove, get-set_of, contains-keys,
  IsDistinct, IsDistinct-put, IsDistinct-remove,
}
use lico.Errors.{
  Result, ok, err, panic, guard, or_error, >>=-eq-ok, >>-eq-ok, guard-eq-ok, or_error-eq-ok,
}
use lico.Jwt.{Token}
use lico.Oidc.{Oidc}
use lico.Clients.{Details, Secured}
use lico.Payload.Authentication.{
  AuthenticationRequest, RequestObjectClaims, new_error, new_bad_request,
}
use lico.Identity.{AuthRecord, auth_authorize_scopes, authorize_claims}
use lico.Identity.Authorize.{authorized-asked}
use lico.TokenClaims.{scope_guest_ok}
use lico.Identity.Guest.{GuestManager, guest_scopes_supported}
use lico.Identity.Guest.Authorize.{
  approve_listed, approve_supported, without_offline, approved_for, approve_guest_scopes, access_of,
  authorize_client, guest_authorize,
}

get-approve_listed :
    (wanted : Dict Bool) (ks : List String) (m : Dict Bool) (j : String)
    → get j (approve_listed wanted ks m)
      ≡ (if contains j ks && has j wanted then some true else get j m)
unfolding approve_listed
get-approve_listed wanted [] m j = refl
get-approve_listed wanted (k ∷ ks) m j = ground (
  arith,
  eq_iff k j,
  get-put k j true m,
  get-approve_listed wanted ks (put k true m) j,
  get-approve_listed wanted ks m j,
)

get-approve_supported :
    (supported : Dict Bool) (ks : List String) (m : Dict Bool) (j : String)
    → get j (approve_supported supported ks m)
      ≡ (if contains j ks && has j supported then some true else get j m)
unfolding approve_supported
get-approve_supported supported [] m j = refl
get-approve_supported supported (k ∷ ks) m j = ground (
  arith,
  eq_iff k j,
  get-put k j true m,
  get-approve_supported supported ks (put k true m) j,
  get-approve_supported supported ks m j,
)

approve_listed-IsDistinct :
    (wanted : Dict Bool) (ks : List String) (m : Dict Bool)
    → IsDistinct m
    → IsDistinct (approve_listed wanted ks m)
unfolding approve_listed
approve_listed-IsDistinct wanted [] m h = h
approve_listed-IsDistinct wanted (k ∷ ks) m h =
    approve_listed-IsDistinct wanted ks (if has k wanted then put k true m else m)
      (if_distinct (has k wanted) k m h)
  where
    if_distinct :
        (b : Bool) (k : String) (m : Dict Bool)
        → IsDistinct m
        → IsDistinct (if b then put k true m else m)
    if_distinct true k m h = IsDistinct-put k true m h
    if_distinct false k m h = h

approve_supported-IsDistinct :
    (supported : Dict Bool) (ks : List String) (m : Dict Bool)
    → IsDistinct m
    → IsDistinct (approve_supported supported ks m)
unfolding approve_supported
approve_supported-IsDistinct supported [] m h = h
approve_supported-IsDistinct supported (k ∷ ks) m h =
    approve_supported-IsDistinct supported ks (if has k supported then put k true m else m)
      (if_distinct (has k supported) k m h)
  where
    if_distinct :
        (b : Bool) (k : String) (m : Dict Bool)
        → IsDistinct m
        → IsDistinct (if b then put k true m else m)
    if_distinct true k m h = IsDistinct-put k true m h
    if_distinct false k m h = h

module _ (o : Oidc) (im : GuestManager) where
  -- Whether a scope may be granted by a client that is not trusted with all scopes.
  abbrev pub is_grantable : Secured → String → Bool
  is_grantable secured j =
      j == o.scope_openid || contains j secured.trusted_scopes || contains j im.scopes_supported

  approved_for-grantable :
      (secured : Secured) (scopes : Dict Bool) (j : String)
      → flag j (approved_for o im secured scopes) ≡ true
      → (has j scopes ≡ true) × (is_grantable secured j ≡ true)
  unfolding approved_for guest_scopes_supported get
  approved_for-grantable secured scopes j h = ground (
    arith,
    get-approve_listed scopes (o.scope_openid ∷ [])
        (approve_listed scopes secured.trusted_scopes
          (approve_supported (set_of im.scopes_supported) (keys scopes) []))
        j,
    get-approve_listed scopes secured.trusted_scopes
        (approve_supported (set_of im.scopes_supported) (keys scopes) []) j,
    get-approve_supported (set_of im.scopes_supported) (keys scopes) [] j,
    contains-keys j scopes,
    get-set_of im.scopes_supported j,
    eq_iff o.scope_openid j,
    eq_iff j o.scope_openid,
  )

  approved_for-IsDistinct :
      (secured : Secured) (scopes : Dict Bool) → IsDistinct (approved_for o im secured scopes)
  unfolding approved_for
  approved_for-IsDistinct secured scopes =
      approve_listed-IsDistinct scopes (o.scope_openid ∷ []) _ (
        approve_listed-IsDistinct scopes secured.trusted_scopes _ (
          approve_supported-IsDistinct (set_of (guest_scopes_supported im none)) (keys scopes) []
            tt))

  -- Why an approved scope is approved.
  abbrev pub IsApproved : Dict Bool → Details → Secured → String → Type 0
  IsApproved scopes details secured j =
      (has j scopes ≡ true)
      × ((details.trusted && im.has_no_trusted_scopes secured) || is_grantable secured j) ≡ true

  approve_guest_scopes-IsApproved :
      (ar : AuthenticationRequest) (details : Details) (secured : Secured) (approved : Dict Bool)
      (j : String)
      → IsDistinct ar.scopes
      → approve_guest_scopes o im ar details secured ≡ ok approved
      → IsDistinct approved × (flag j approved ≡ true → IsApproved ar.scopes details secured j)
  unfolding approve_guest_scopes
  approve_guest_scopes-IsApproved ar details secured approved j distinct h =
      elim (Bool-cases (details.trusted && im.has_no_trusted_scopes secured)) [
        | inl trusted ↦
            let same : ar.scopes ≡ approved = cc (then_of _ trusted h) in
            (
              subst IsDistinct same distinct,
              λ given.
                  let there : flag j ar.scopes ≡ true = rw (sym same) at given in
                  ground (arith, there, trusted),
            )
        | inr untrusted ↦
            let (guest_ok, same1) =
              >>-eq-ok (guard (flag scope_guest_ok (approved_for o im secured ar.scopes)) _) _
                (else_of _ untrusted h) in
            let same : approved_for o im secured ar.scopes ≡ approved = cc same1 in
            (
              subst IsDistinct same (approved_for-IsDistinct secured ar.scopes),
              λ given.
                  let (there, grantable) =
                    approved_for-grantable secured ar.scopes j (rw (sym same) at given) in
                  (there, ground (arith, grantable)),
            )
      ]

  access_of-ok :
      (ar : AuthenticationRequest) (found : Result Details) (details : Details)
      → access_of o im ar found ≡ ok details
      → found ≡ ok details
  unfolding access_of
  access_of-ok ar (ok details1) details h = h
  access_of-ok ar (err e) details h = cc
  access_of-ok ar panic details h = cc

  authorize_client-IsApproved :
      (ar : AuthenticationRequest) (auth granted : AuthRecord) (secured : Secured) (j : String)
      → IsDistinct ar.scopes
      → auth.authorized_scopes ≡ []
      → authorize_client o im ar auth secured ≡ ok granted
      → flag j granted.authorized_scopes ≡ true
      → (details : Details) × (im.lookup_client ar.client_id ar.redirect_uri ≡ ok details)
        × (details.id ≡ secured.id)
        × IsApproved ar.scopes details secured j
  unfolding authorize_client authorize_claims
  authorize_client-IsApproved ar auth granted secured j distinct empty h given =
      let (details, looked, h1) =
        >>=-eq-ok (access_of o im ar (im.lookup_client ar.client_id ar.redirect_uri)) _ h in
      let (same_client, h2) = >>-eq-ok (guard (details.id == secured.id) _) _ h1 in
      let (approved, approves, same) =
        >>=-eq-ok (approve_guest_scopes o im ar details secured) _ h2 in
      let (distinct1, why) =
        approve_guest_scopes-IsApproved ar details secured approved j distinct approves in
      let is_granted : authorize_claims
            (auth_authorize_scopes o (λ scopes. guest_scopes_supported im (some scopes)) auth
              approved)
            ar.claims
          ≡ granted =
        cc same in
      (
        details,
        access_of-ok ar _ details looked,
        (eq_iff details.id secured.id).0 (guard-eq-ok _ _ same_client),
        why (
            authorized-asked o (λ scopes. guest_scopes_supported im (some scopes)) auth approved j
              distinct1 empty (rw (sym is_granted) at given)),
      )

  without_offline-scopes :
      (ar : AuthenticationRequest)
      → IsDistinct ar.scopes
      → flag o.prompt_consent ar.prompts ≡ false
      → IsDistinct (without_offline o im ar).scopes
        × (flag o.scope_offline_access (without_offline o im ar).scopes ≡ false)
  unfolding without_offline
  without_offline-scopes ar distinct unprompted =
      elim (Bool-cases (flag o.scope_offline_access ar.scopes)) [
        | inl asked ↦
            rw (asked, unprompted)
              ((
                IsDistinct-remove o.scope_offline_access ar.scopes distinct,
                ground (
                  arith,
                  get-remove o.scope_offline_access o.scope_offline_access ar.scopes,
                  eq_refl o.scope_offline_access,
                ),
              ))
        | inr unasked ↦ rw unasked (distinct, unasked)
      ]

  -- What Authorize grants a guest whose record has no scopes yet, for a request that names no scope twice:
  -- the client of the request's signed object is the one that the lookup takes, and a granted scope is one
  -- of the request as it is left, which has no offline access, and either the client is trusted and its
  -- configuration names no trusted scopes, or the scope is openid, a trusted scope of the client or one
  -- that the manager supports.
  pub guest_authorize-IsApproved :
      (ar left : AuthenticationRequest) (auth granted : AuthRecord) (j : String)
      → IsDistinct ar.scopes
      → auth.authorized_scopes ≡ []
      → guest_authorize o im ar auth ≡ ok (granted, left)
      → flag j granted.authorized_scopes ≡ true
      → (request : Token RequestObjectClaims) × (secured : Secured) × (details : Details)
        × (left.request ≡ some request)
        × (request.claims.client ≡ some secured)
        × (im.lookup_client left.client_id left.redirect_uri ≡ ok details)
        × (details.id ≡ secured.id)
        × (flag o.scope_offline_access left.scopes ≡ false)
        × IsApproved left.scopes details secured j
  unfolding guest_authorize
  guest_authorize-IsApproved ar left auth granted j distinct empty h given =
      let limited : AuthenticationRequest = without_offline o im ar in
      let (request, object, h1) =
        >>=-eq-ok
          (or_error
            (new_error limited o.invalid_request_object
              "GuestIdentityManager: authorize without request object")
            limited.request)
          _ h in
      let (secured, client, h2) =
        >>=-eq-ok
          (or_error
            (new_bad_request limited o.invalid_request_object
              "GuestIdentityManager: authorize without secure client")
            request.claims.client)
          _ h1 in
      let (unprompted, h3) = >>-eq-ok (guard (not (flag o.prompt_consent ar.prompts)) _) _ h2 in
      let (granted1, authorized, same) =
        >>=-eq-ok (authorize_client o im limited auth secured) _ h3 in
      let same_left : limited ≡ left = cc same in
      let same_granted : granted1 ≡ granted = cc same in
      let (distinct1, offline) =
        without_offline-scopes ar distinct
          (not-eq-true (flag o.prompt_consent ar.prompts) (guard-eq-ok _ _ unprompted)) in
      let (details, looked, same_client, why) =
        authorize_client-IsApproved limited auth granted1 secured j distinct1 empty authorized
          (rw (sym same_granted) at given) in
      subst
        (λ (left1 : AuthenticationRequest).
          (request1 : Token RequestObjectClaims) × (secured1 : Secured) × (details1 : Details)
          × (left1.request ≡ some request1)
          × (request1.claims.client ≡ some secured1)
          × (im.lookup_client left1.client_id left1.redirect_uri ≡ ok details1)
          × (details1.id ≡ secured1.id)
          × (flag o.scope_offline_access left1.scopes ≡ false)
          × IsApproved left1.scopes details1 secured1 j)
        same_left
        (
          request,
          secured,
          details,
          or_error-eq-ok _ limited.request object,
          or_error-eq-ok _ request.claims.client client,
          looked,
          same_client,
          offline,
          why,
        )
