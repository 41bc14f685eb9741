-- ===== src/Identity/Claims/Profile.antt =====
-- The profile claims that GetUserClaimsForScopes of identity/utils.go releases on request.
use lico.Base.{
  String, ◌≡◌, ◌≢◌, refl, sym, Bool, false, Option, none, some, List, [], ◌∷◌, ◌==◌, if◌then◌else◌,
  eq_iff, arith, Bool-cases, then_of, else_of, Option-cases, inl, inr,
}
use mathlib.Core.Path.{subst}
use lico.Base.Dict.{Dict, get, put, flag, get-put-same, get-put-other}
use lico.Errors.{ok, >>=-eq-ok}
use lico.Payload.Claims.{ClaimNames, ClaimsRequestMap, ClaimsRequestValue}
use lico.Identity.{
  ProfileClaims, UserProfile, ScopeClaims, email_claims, profile_claims, map_claims, User,
}
use lico.Identity.Claims.Email.{get-put_some-other, get-with_extra}
use lico.Identity.Claims.{
  Collected, new_email_claims, new_profile_claims, add_profile_claim, add_email, add_profile,
  add_scoped, add_found, add_requested, add_requested_map, add_requested_maps,
  authorized_scope_claims, get_user_claims_for_scopes, or_no_profile, or_no_email, add_email_claim,
  extra_claims, with_extra, own_scoped_claims, as_email_claims,
}

-- What holds of claims before the loops over the requested claims and is kept by the two stores is so
-- after them.
module _ (names : ClaimNames) (u : User) (scopes : Dict Bool) (Holds : Dict ScopeClaims → Type 0)
    (email_keeps : (claim : String) (m after : Dict ScopeClaims)
      → Holds m
      → add_email names u claim m ≡ ok after
      → Holds after)
    (profile_keeps : (claim : String) (m after : Dict ScopeClaims)
      → flag names.scope_profile scopes ≡ false
      → Holds m
      → add_profile names u claim m ≡ ok after
      → Holds after) where
  add_scoped-keeps :
      (scope claim : String) (m after : Dict ScopeClaims)
      → Holds m
      → add_scoped names u scopes scope claim m ≡ ok after
      → Holds after
  unfolding add_scoped
  add_scoped-keeps scope claim m after holds h = elim (Bool-cases (flag scope scopes)) [
    | inl authorized ↦ let kept : m ≡ after = cc (then_of _ authorized h) in subst Holds kept holds
    | inr unauthorized ↦
        let chosen = else_of _ unauthorized h in
        elim (Bool-cases (scope == names.scope_email)) [
          | inl mail ↦ email_keeps claim m after holds (then_of _ mail chosen)
          | inr other ↦
              let rest = else_of _ other chosen in
              elim (Bool-cases (scope == names.scope_profile)) [
                | inl own ↦
                    profile_keeps claim m after
                      (rw ((eq_iff scope names.scope_profile).0 own) at unauthorized) holds
                      (then_of _ own rest)
                | inr neither ↦
                    let kept : m ≡ after = cc (else_of _ neither rest) in subst Holds kept holds
              ]
        ]
  ]

  add_found-keeps :
      (claim : String) (entry : Option ClaimsRequestValue) (c after : Collected)
      (found : Option String)
      → Holds c.claims
      → add_found names u scopes claim entry c found ≡ ok after
      → Holds after.claims
  unfolding add_found
  add_found-keeps claim entry c after none holds h =
      let kept : c.claims ≡ after.claims = cc h in subst Holds kept holds
  add_found-keeps claim entry c after (some scope) holds h =
      let (claims, added, same) = >>=-eq-ok (add_scoped names u scopes scope claim c.claims) _ h in
      let stored : claims ≡ after.claims = cc same in
      subst Holds stored (add_scoped-keeps scope claim c.claims claims holds added)

  add_requested_map-keeps :
      (m : ClaimsRequestMap) (c after : Collected)
      → Holds c.claims
      → add_requested_map names u scopes m c ≡ ok after
      → Holds after.claims
  unfolding add_requested_map add_requested
  add_requested_map-keeps [] c after holds h =
      let kept : c.claims ≡ after.claims = cc h in subst Holds kept holds
  add_requested_map-keeps ((claim, entry) ∷ m) c after holds h =
      let (c1, first, rest) = >>=-eq-ok (add_requested names u scopes (claim, entry) c) _ h in
      add_requested_map-keeps m c1 after (add_found-keeps claim entry c c1 _ holds first) rest

  pub add_requested_maps-keeps :
      (ms : List ClaimsRequestMap) (c after : Collected)
      → Holds c.claims
      → add_requested_maps names u scopes ms c ≡ ok after
      → Holds after.claims
  unfolding add_requested_maps
  add_requested_maps-keeps [] c after holds h =
      let kept : c.claims ≡ after.claims = cc h in subst Holds kept holds
  add_requested_maps-keeps (m ∷ ms) c after holds h =
      let (c1, first, rest) = >>=-eq-ok (add_requested_map names u scopes m c) _ h in
      add_requested_maps-keeps ms c1 after (add_requested_map-keeps m c c1 holds first) rest

-- No family name, given name or user name in the claims of a scope.
abbrev HasNameOnly : String → Dict ScopeClaims → Type 0
HasNameOnly scope m =
    (p : ProfileClaims)
    → get scope m ≡ some (profile_claims p)
    → (p.family_name ≡ "") × (p.given_name ≡ "") × (p.preferred_username ≡ "")

module _ (names : ClaimNames) (differ : names.scope_email ≢ names.scope_profile) where
  add_email-other :
      (u : User) (claim : String) (m after : Dict ScopeClaims)
      → HasNameOnly names.scope_profile m
      → add_email names u claim m ≡ ok after
      → HasNameOnly names.scope_profile after
  unfolding add_email
  add_email-other u claim m after holds h = elim (Option-cases u.email) [
    | inl absent ↦
        let kept : ok m ≡ ok after = rw absent at h in
        let same : m ≡ after = cc kept in subst (HasNameOnly names.scope_profile) same holds
    | inr (mine, has) ↦
        let stored = rw has at h in
        let (there, found, same) =
          >>=-eq-ok (new_email_claims (get names.scope_email m)) _ stored in
        let after_is : put names.scope_email
              (email_claims (add_email_claim names claim mine (or_no_email there))) m
            ≡ after =
          cc same in
        subst (HasNameOnly names.scope_profile) after_is (λ p b. holds p (
          rw
            (get-put-other names.scope_email names.scope_profile
              (email_claims (add_email_claim names claim mine (or_no_email there))) m differ)
            at b))
  ]

  add_profile_claim-name :
      (claim : String) (mine : UserProfile) (p : ProfileClaims)
      → (p.family_name ≡ "") × (p.given_name ≡ "") × (p.preferred_username ≡ "")
      → ((add_profile_claim names claim mine p).family_name ≡ "")
        × ((add_profile_claim names claim mine p).given_name ≡ "")
        × ((add_profile_claim names claim mine p).preferred_username ≡ "")
  unfolding add_profile_claim
  add_profile_claim-name claim mine p h = ground arith

  there_name :
      (slot : Option ScopeClaims) (there : Option ProfileClaims)
      → new_profile_claims slot ≡ ok there
      → ((p : ProfileClaims)
          → slot ≡ some (profile_claims p)
          → (p.family_name ≡ "") × (p.given_name ≡ "") × (p.preferred_username ≡ ""))
      → ((or_no_profile there).family_name ≡ "")
        × ((or_no_profile there).given_name ≡ "")
        × ((or_no_profile there).preferred_username ≡ "")
  unfolding new_profile_claims
  there_name none none found holds = (refl, refl, refl)
  there_name none (some p) found holds = cc
  there_name (some (email_claims e)) there found holds = cc
  there_name (some (map_claims m)) there found holds = cc
  there_name (some (profile_claims q)) none found holds = cc
  there_name (some (profile_claims q)) (some p) found holds = holds p (cc found)

  authorized-name :
      (u : User) (scopes : Dict Bool)
      → flag names.scope_profile scopes ≡ false
      → HasNameOnly names.scope_profile (authorized_scope_claims names u scopes)
  unfolding authorized_scope_claims get
  authorized-name u scopes unauthorized p h =
      let first =
        rw
          (
            unauthorized,
            get-put_some-other
                (if flag names.scope_email scopes then as_email_claims u.email else none) [] differ,
          )
          at h in
      cc first

  add_profile-name :
      (u : User) (claim : String) (m after : Dict ScopeClaims)
      → HasNameOnly names.scope_profile m
      → add_profile names u claim m ≡ ok after
      → HasNameOnly names.scope_profile after
  unfolding add_profile
  add_profile-name u claim m after holds h = elim (Option-cases u.profile) [
    | inl absent ↦
        let kept : ok m ≡ ok after = rw absent at h in
        let same : m ≡ after = cc kept in subst (HasNameOnly names.scope_profile) same holds
    | inr (mine, has) ↦
        let stored = rw has at h in
        let (there, found, same) =
          >>=-eq-ok (new_profile_claims (get names.scope_profile m)) _ stored in
        let p1 : ProfileClaims = add_profile_claim names claim mine (or_no_profile there) in
        let after_is : put names.scope_profile (profile_claims p1) m ≡ after = cc same in
        let named =
          add_profile_claim-name claim mine (or_no_profile there)
            (there_name (get names.scope_profile m) there found holds) in
        subst (HasNameOnly names.scope_profile) after_is (λ p b.
          let p_is : p1 ≡ p = cc (b, get-put-same names.scope_profile (profile_claims p1) m) in
          rw p_is at named)
  ]

  -- Where the scope profile is not authorized and its name is not empty, the profile claims that are
  -- collected have no family name, no given name and no user name, whatever is requested.
  pub get_user_claims_for_scopes-name :
      (u : User) (scopes : Dict Bool) (requested : List ClaimsRequestMap)
      → (claims : Dict ScopeClaims) (p : ProfileClaims) → names.scope_profile ≢ ""
      → flag names.scope_profile scopes ≡ false
      → get_user_claims_for_scopes names (some u) scopes requested ≡ ok claims
      → get names.scope_profile claims ≡ some (profile_claims p)
      → (p.family_name ≡ "") × (p.given_name ≡ "") × (p.preferred_username ≡ "")
  unfolding get_user_claims_for_scopes
  get_user_claims_for_scopes-name u scopes requested claims p named unauthorized h there =
      let (c, collected, same) = >>=-eq-ok (add_requested_maps names u scopes requested _) _ h in
      let stored : with_extra (extra_claims (own_scoped_claims u scopes) c.unknown) c.claims
          ≡ claims =
        cc same in
      let before =
        rw
          (
            sym stored,
            get-with_extra (extra_claims (own_scoped_claims u scopes) c.unknown) c.claims named,
          )
          at there in
      add_requested_maps-keeps names u scopes (HasNameOnly names.scope_profile) (add_email-other u)
        (λ claim m after off. add_profile-name u claim m after) requested _ c
        (authorized-name u scopes unauthorized) collected p before
