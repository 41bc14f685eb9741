-- ===== src/Identity/Identifier/Consented.antt =====
-- Which scopes Authorize of identity/managers/identifier.go grants.
use lico.Base.{
  String, ◌≡◌, ◌≢◌, sym, Bool, true, false, none, some, [], ◌∷◌, ◌==◌, ◌||◌, ◌&&◌, not,
  if◌then◌else◌, ◌⊎◌, inl, inr, eq_iff, arith, Bool-cases, Option-cases, then_of, else_of, ne_of_eq,
}
use lico.Base.Dict.{
  Dict, get, put, flag, get-put, get-remove, get-set_of, IsDistinct, IsDistinct-put,
  IsDistinct-remove,
}
use lico.Base.Lists.{contains}
use lico.Base.Text.{split}
use lico.Errors.{Result, ok, err, panic, guard, deref, >>=-eq-ok, >>-eq-ok, guard-eq-ok}
use lico.Oidc.{Oidc}
use lico.Clients.{Details}
use lico.Payload.Claims.{ClaimNames}
use lico.Payload.Authentication.{AuthenticationRequest}
use lico.Identity.{AuthRecord, authorize_claims}
use lico.Identity.Authorize.{authorized-asked}
use lico.Identity.Identifier.{scopes_supported}
use lico.Identity.Identifier.Authorize.{
  Consent, approve_given, given_scopes, consent_scopes, SignIn, granted, ask_consent,
  is_offline_allowed, kept_scopes, grant_record, without_consent, with_approved_claims,
  with_consent, client_or_denied, identifier_authorize,
}

get-approve_given :
    (given requested approved : Dict Bool) (j : String)
    → IsDistinct requested
    → get j (approve_given given requested approved)
      ≡ (if flag j given && flag j requested then some true else get j approved)
unfolding approve_given get
get-approve_given given [] approved j distinct = ground arith
get-approve_given given ((n, v) ∷ m) approved j distinct =
    let ih =
      get-approve_given given m (if flag n given && v then put n true approved else approved) j
        distinct.1 in
    ground (arith, ih, eq_iff n j, get-put n j true approved)

approve_given-IsDistinct :
    (given requested approved : Dict Bool)
    → IsDistinct approved
    → IsDistinct (approve_given given requested approved)
unfolding approve_given
approve_given-IsDistinct given [] approved h = h
approve_given-IsDistinct given ((n, v) ∷ m) approved h =
    approve_given-IsDistinct given m (if flag n given && v then put n true approved else approved)
      (put_if (flag n given && v))
  where
    put_if : (b : Bool) → IsDistinct (if b then put n true approved else approved)
    put_if true = IsDistinct-put n true approved h
    put_if false = h

given_scopes-named :
    (c : Consent) (j : String)
    → flag j (given_scopes c) ≡ true
    → (c.raw_scope ≢ "") × (contains j (split c.raw_scope) ≡ true)
unfolding get
given_scopes-named c j h = elim (Bool-cases (c.raw_scope == "")) [
  | inl empty ↦ absurd (ground (arith, rw empty at h))
  | inr filled ↦
      let h1 = rw filled at h in
      (ne_of_eq c.raw_scope "" filled, ground (arith, h1, get-set_of (split c.raw_scope) j))
]

module _ {Q : Type 0} (o : Oidc) (names : ClaimNames) (s : SignIn Q) where
  -- Whether offline access, if it is the scope, may be granted.
  abbrev pub IsOfflineAllowed : AuthenticationRequest → Details → Bool → String → Type 0
  IsOfflineAllowed ar details has_consent j =
      (not (j == o.scope_offline_access)
        || (flag o.response_type_code ar.response_types
            && (details.trusted || flag o.prompt_consent ar.prompts || has_consent)))
      ≡ true

  kept_scopes-IsOfflineAllowed :
      (ar : AuthenticationRequest) (details : Details) (has_consent : Bool) (approved : Dict Bool)
      (j : String)
      → flag j (kept_scopes o names s ar details has_consent approved) ≡ true
      → (flag j approved ≡ true) × IsOfflineAllowed ar details has_consent j
  unfolding kept_scopes
  kept_scopes-IsOfflineAllowed ar details has_consent approved j h = (
    ground (arith, h, get-remove o.scope_offline_access j approved),
    ground (
      arith,
      h,
      get-remove o.scope_offline_access j approved,
      eq_iff o.scope_offline_access j,
      eq_iff j o.scope_offline_access,
    ),
  )

  kept_scopes-IsDistinct :
      (ar : AuthenticationRequest) (details : Details) (has_consent : Bool) (approved : Dict Bool)
      → IsDistinct approved
      → IsDistinct (kept_scopes o names s ar details has_consent approved)
  unfolding kept_scopes
  kept_scopes-IsDistinct ar details has_consent approved h =
      elim (Bool-cases (
        flag o.scope_offline_access approved
        && not (is_offline_allowed o names s ar details has_consent))) [
          | inl drops ↦ rw drops (IsDistinct-remove o.scope_offline_access approved h)
          | inr keeps ↦ rw keeps h
        ]

  grant_record-asked :
      (ar : AuthenticationRequest) (auth : AuthRecord) (approved : Dict Bool) (j : String)
      → IsDistinct approved
      → auth.authorized_scopes ≡ []
      → flag j (grant_record o names s ar auth approved).authorized_scopes ≡ true
      → flag j approved ≡ true
  unfolding grant_record authorize_claims
  grant_record-asked ar auth approved j distinct empty given =
      authorized-asked o (scopes_supported o names s.identifier) auth approved j distinct empty
        given

  client_or_denied-ok :
      (ar : AuthenticationRequest) (found : Result Details) (details : Details)
      → client_or_denied o names s ar found ≡ ok details
      → found ≡ ok details
  unfolding client_or_denied
  client_or_denied-ok ar (ok details1) details h = h
  client_or_denied-ok ar (err e) details h = cc
  client_or_denied-ok ar panic details h = cc

  ask_consent-sent :
      (ar left : AuthenticationRequest) (record1 : AuthRecord)
      → ask_consent o names s ar ≢ ok (granted record1 left)
  unfolding ask_consent
  ask_consent-sent ar left record1 h =
      let (prompts, h1) = >>-eq-ok (guard (not (flag o.prompt_none ar.prompts)) _) _ h in
      let (q, asked, h2) = >>=-eq-ok s.query _ h1 in
      let (uri, parsed, h3) = >>=-eq-ok (deref (s.identifier.urls.parse s.sign_in_form_uri)) _ h2 in
      cc h3

  -- Why Authorize grants a scope: a trusted client without a prompt for consent, or a consent.
  abbrev pub IsConsented : AuthenticationRequest → Details → String → Type 0
  IsConsented ar details j =
      ((s.consent ≡ ok none)
        × (details.trusted ≡ true)
        × (flag o.prompt_consent ar.prompts ≡ false)
        × IsOfflineAllowed ar details false j)
      ⊎ ((c : Consent) × (s.consent ≡ ok (some c))
          × (c.allow ≡ true)
          × (c.raw_scope ≢ "")
          × (contains j (split c.raw_scope) ≡ true)
          × IsOfflineAllowed ar details true j)

  without_consent-IsConsented :
      (ar left : AuthenticationRequest) (auth record1 : AuthRecord) (details : Details) (j : String)
      → IsDistinct ar.scopes
      → auth.authorized_scopes ≡ []
      → without_consent o names s ar auth details ≡ ok (granted record1 left)
      → flag j record1.authorized_scopes ≡ true
      → (details.trusted ≡ true)
        × (flag o.prompt_consent ar.prompts ≡ false)
        × (flag j ar.scopes ≡ true)
        × IsOfflineAllowed ar details false j
  unfolding without_consent
  without_consent-IsConsented ar left auth record1 details j distinct empty h given =
      elim (Bool-cases (details.trusted && not (flag o.prompt_consent ar.prompts))) [
        | inr asks ↦ absurd (ask_consent-sent ar left record1 (else_of _ asks h))
        | inl takes ↦
            let kept = kept_scopes o names s ar details false ar.scopes in
            let same : grant_record o names s ar auth kept ≡ record1 = cc (then_of _ takes h) in
            let (asked, offline) = kept_scopes-IsOfflineAllowed ar details false ar.scopes j (
              grant_record-asked ar auth kept j
                (kept_scopes-IsDistinct ar details false ar.scopes distinct) empty
                (rw (sym same) at given)) in
            (ground (arith, takes), ground (arith, takes), asked, offline)
      ]

  with_consent-IsConsented :
      (ar left : AuthenticationRequest) (auth record1 : AuthRecord) (details : Details)
      (c : Consent) (j : String)
      → IsDistinct ar.scopes
      → auth.authorized_scopes ≡ []
      → with_consent o names s ar auth details c ≡ ok (granted record1 left)
      → flag j record1.authorized_scopes ≡ true
      → (c.allow ≡ true)
        × (flag j (given_scopes c) ≡ true)
        × (flag j ar.scopes ≡ true)
        × IsOfflineAllowed ar details true j
  unfolding with_consent consent_scopes get
  with_consent-IsConsented ar left auth record1 details c j distinct empty h given =
      let (allows, h1) = >>-eq-ok (guard c.allow _) _ h in
      let approved = approve_given (given_scopes c) ar.scopes [] in
      let filtered = with_approved_claims o names s (given_scopes c) ar in
      let same : grant_record o names s filtered auth
            (kept_scopes o names s ar details true approved)
          ≡ record1 =
        cc h1 in
      let (asked, offline) = kept_scopes-IsOfflineAllowed ar details true approved j (
        grant_record-asked filtered auth (kept_scopes o names s ar details true approved) j
          (kept_scopes-IsDistinct ar details true approved
            (approve_given-IsDistinct (given_scopes c) ar.scopes [] tt))
          empty (rw (sym same) at given)) in
      let both = get-approve_given (given_scopes c) ar.scopes [] j distinct in
      (guard-eq-ok _ _ allows, ground (arith, asked, both), ground (arith, asked, both), offline)

  -- What Authorize of the identifier manager grants a record that has no scopes yet, for a request that
  -- names no scope twice: the lookup takes the client with the redirect URI of the request, and a granted
  -- scope is one that the request asks for. Either there is no consent, the client is trusted and the
  -- request does not prompt for consent, or the user gave a consent that allows and names the scope.
  -- Offline access is granted only where a code is asked for, and the client is trusted, consent was
  -- prompted for, or a consent was given.
  pub identifier_authorize-IsConsented :
      (ar left : AuthenticationRequest) (auth record1 : AuthRecord) (j : String)
      → IsDistinct ar.scopes
      → auth.authorized_scopes ≡ []
      → identifier_authorize o names s ar auth ≡ ok (granted record1 left)
      → flag j record1.authorized_scopes ≡ true
      → (details : Details) × (s.identifier.lookup_client ar.client_id ar.redirect_uri ≡ ok details)
        × (flag j ar.scopes ≡ true)
        × IsConsented ar details j
  unfolding identifier_authorize
  identifier_authorize-IsConsented ar left auth record1 j distinct empty h given =
      let (details, looked, h1) =
        >>=-eq-ok
          (client_or_denied o names s ar (s.identifier.lookup_client ar.client_id ar.redirect_uri))
          _ h in
      let (consent, consented, h2) = >>=-eq-ok s.consent _ h1 in
      let known = client_or_denied-ok ar _ details looked in
      elim (Option-cases consent) [
        | inl nothing ↦
            let (trusted, unprompted, asked, offline) =
              without_consent-IsConsented ar left auth record1 details j distinct empty
                (rw nothing at h2) given in
            (details, known, asked, inl (rw nothing at consented, trusted, unprompted, offline))
        | inr (c, present) ↦
            let (allows, names_scope, asked, offline) =
              with_consent-IsConsented ar left auth record1 details c j distinct empty
                (rw present at h2) given in
            let (filled, named) = given_scopes-named c j names_scope in
            (
              details,
              known,
              asked,
              inr (c, rw present at consented, allows, filled, named, offline),
            )
      ]
