-- ===== src/Identity/Claims/Email.antt =====
-- The e-mail claims that GetUserClaimsForScopes of identity/utils.go releases.
use lico.Base.{
  String, ◌≡◌, ◌≢◌, refl, sym, Bool, true, false, Option, none, some, List, [], ◌∷◌, ◌==◌, ◌||◌,
  if◌then◌else◌, eq_iff, eq_refl, arith, Bool-cases, Eq-cases, eq_of_ne, then_of, else_of,
  Option-cases, inl, inr, ◌++◌,
}
use lico.Base.Lists.{contains, contains-append}
use lico.Base.Dict.{Dict, get, put, flag, keys, get-put, get-put-other}
use lico.Errors.{ok, >>=-eq-ok}
use lico.Payload.Claims.{
  ClaimNames, ClaimsRequestMap, ClaimsRequestValue, Value, get_scope_for_claim, scoped_claims,
}
use lico.Identity.{EmailClaims, ScopeClaims, email_claims, profile_claims, map_claims, User}
use lico.Identity.Claims.{
  Collected, new_email_claims, new_profile_claims, add_email_claim, add_email, or_no_email,
  or_no_profile, add_profile_claim, add_profile, add_scoped, add_found, add_requested,
  add_requested_map, add_requested_maps, authorized_scope_claims, get_user_claims_for_scopes,
  profile_of, extra_claims, put_some, with_extra, own_scoped_claims, as_email_claims,
  as_profile_claims,
}

-- What the table of scoped claims is relied on for: its two scopes differ, and the two claims of the
-- scope email are not among those of the profile.
pub record EmailNames (names : ClaimNames) : Type 0 where
  pub scopes_differ : names.scope_profile ≢ names.scope_email
  pub named : names.scope_email ≢ ""
  pub email_scope : get_scope_for_claim names names.email_claim ≡ some names.scope_email
  pub verified_scope : get_scope_for_claim names names.email_verified_claim ≡ some names.scope_email

-- A map with some claims of one scope before the others.
tagged : String → List String → Dict String → Dict String
tagged scope [] m = m
tagged scope (claim ∷ claims) m = (claim, scope) ∷ tagged scope claims m

get-tagged :
    {scope wanted : String} (claims : List String) (m : Dict String) (claim : String)
    → scope ≢ wanted
    → get claim (tagged scope claims m) ≡ some wanted
    → get claim m ≡ some wanted
unfolding tagged get
get-tagged [] m claim other h = h
get-tagged {scope} {wanted} (first ∷ claims) m claim other h = elim (Bool-cases (first == claim)) [
  | inl same ↦ let found : some scope ≡ some wanted = then_of _ same h in absurd (other (cc found))
  | inr next ↦ get-tagged claims m claim other (else_of _ next h)
]

only_email :
    (names : ClaimNames)
    → EmailNames names
    → (claim : String) → get_scope_for_claim names claim ≡ some names.scope_email
    → ((claim == names.email_claim) || (claim == names.email_verified_claim)) ≡ true
unfolding get_scope_for_claim scoped_claims get tagged
only_email names laws claim h =
    let rest : get claim (
          (names.email_claim, names.scope_email)
          ∷ (names.email_verified_claim, names.scope_email)
          ∷ [])
        ≡ some names.scope_email =
      get-tagged
        (names.name_claim ∷ names.family_name_claim ∷ names.given_name_claim
          ∷ names.middle_name_claim ∷ names.preferred_username_claim ∷ names.profile_claim
          ∷ names.picture_claim ∷ names.website_claim ∷ names.gender_claim ∷ names.birthdate_claim
          ∷ names.zoneinfo_claim ∷ names.updated_at_claim ∷ [])
        ((names.email_claim, names.scope_email)
          ∷ (names.email_verified_claim, names.scope_email)
          ∷ [])
        claim laws.scopes_differ h in
    ground (
      arith,
      eq_iff names.email_claim claim,
      eq_iff claim names.email_claim,
      eq_iff names.email_verified_claim claim,
      eq_iff claim names.email_verified_claim,
    )

-- The names of all requested claims.
unfoldable pub requested_names : List ClaimsRequestMap → List String
requested_names [] = []
requested_names (m ∷ ms) = keys m ++ requested_names ms

-- The e-mail claims that a user without the scope releases on request: the address only if it is
-- asked for, and whether it is verified with either claim.
unfoldable pub requested_email : EmailClaims → Bool → Bool → Option ScopeClaims
requested_email mine false false = none
requested_email mine false true =
    some (email_claims (record { email = ""; email_verified = mine.email_verified }))
requested_email mine true verified =
    some (email_claims (record { email = mine.email; email_verified = mine.email_verified }))

-- The claims of the scope email for a user's e-mail data, whether the scope is authorized, and which of
-- the two claims are requested.
unfoldable pub released_email : Option EmailClaims → Bool → Bool → Bool → Option ScopeClaims
unfolding requested_email
released_email none authorized asked verified = none
released_email (some mine) true asked verified = some (email_claims mine)
released_email (some mine) false asked verified = requested_email mine asked verified

released_email-authorized :
    (mine : Option EmailClaims) (asked verified asked1 verified1 : Bool)
    → released_email mine true asked verified ≡ released_email mine true asked1 verified1
unfolding released_email
released_email-authorized none asked verified asked1 verified1 = refl
released_email-authorized (some mine) asked verified asked1 verified1 = refl

or_assoc : (a b c : Bool) → ((a || b) || c) ≡ (a || (b || c))
or_assoc true b c = refl
or_assoc false b c = refl

pub get-put_some-other :
    {k j : String} (v : Option ScopeClaims) (m : Dict ScopeClaims)
    → k ≢ j
    → get j (put_some k v m) ≡ get j m
get-put_some-other none m other = refl
get-put_some-other {k} {j} (some v) m other = get-put-other k j v m other

pub get-with_extra :
    {j : String} (extra : Option (Dict Value)) (m : Dict ScopeClaims)
    → j ≢ ""
    → get j (with_extra extra m) ≡ get j m
get-with_extra none m named = refl
get-with_extra {j} (some extra) m named =
    get-put-other "" j (map_claims extra) m (λ b. named (sym b))

slot_read :
    (mine : EmailClaims) (asked verified : Bool) (slot : Option ScopeClaims)
    → slot ≡ requested_email mine asked verified
    → (there : Option EmailClaims) × (new_email_claims slot ≡ ok there)
      × (asked ≡ true → there ≡ some mine)
      × (asked ≡ false → (or_no_email there).email ≡ "")
unfolding requested_email new_email_claims
slot_read mine false false slot before = (none, rw before refl, cc, cc)
slot_read mine false true slot before = (some (record mine { email = "" }), rw before refl, cc, cc)
slot_read mine true verified slot before = (some mine, rw before refl, cc, cc)

module _ (names : ClaimNames) where
  add_email_claim-keeps :
      (mine : EmailClaims) (there : Option EmailClaims) (claim : String) (asked verified : Bool)
      → (asked ≡ true → there ≡ some mine)
      → (asked ≡ false → (or_no_email there).email ≡ "")
      → ((claim == names.email_claim) || (claim == names.email_verified_claim)) ≡ true
      → some (email_claims (add_email_claim names claim mine (or_no_email there)))
        ≡ requested_email mine
            (asked || (claim == names.email_claim))
            (verified || (claim == names.email_verified_claim))
  unfolding add_email_claim requested_email
  add_email_claim-keeps mine there claim true verified same unasked known =
      rw (same refl) (ground arith)
  add_email_claim-keeps mine there claim false verified same unasked known =
      let empty = unasked refl in ground arith

  -- What add_email stores.
  add_email_lem :
      (u : User) (mine : EmailClaims) (claim : String) (claims : Dict ScopeClaims)
      → (there : Option EmailClaims) → u.email ≡ some mine
      → new_email_claims (get names.scope_email claims) ≡ ok there
      → add_email names u claim claims
        ≡ ok (
            put names.scope_email
              (email_claims (add_email_claim names claim mine (or_no_email there)))
              claims)
  unfolding add_email
  add_email_lem u mine claim claims there has found = rw (has, found) refl

  add_email-keeps :
      (u : User) (mine : EmailClaims) (claim : String) (claims after : Dict ScopeClaims)
      → (asked verified : Bool) → u.email ≡ some mine
      → get names.scope_email claims ≡ requested_email mine asked verified
      → ((claim == names.email_claim) || (claim == names.email_verified_claim)) ≡ true
      → add_email names u claim claims ≡ ok after
      → get names.scope_email after
        ≡ requested_email mine
            (asked || (claim == names.email_claim))
            (verified || (claim == names.email_verified_claim))
  unfolding add_email new_email_claims add_email_claim requested_email
  add_email-keeps u mine claim claims after asked verified has before known h =
      let (there, found, same, unasked) =
        slot_read mine asked verified (get names.scope_email claims) before in
      let stored : put names.scope_email
            (email_claims (add_email_claim names claim mine (or_no_email there))) claims
          ≡ after =
        cc (h, add_email_lem u mine claim claims there has found) in
      rw
        (
          sym stored,
          get-put names.scope_email names.scope_email
              (email_claims (add_email_claim names claim mine (or_no_email there))) claims,
          eq_refl names.scope_email,
        )
        (add_email_claim-keeps mine there claim asked verified same unasked known)

  put-keeps :
      {k j : String} (v : ScopeClaims) (claims after : Dict ScopeClaims)
      → k ≢ j
      → put k v claims ≡ after
      → get j after ≡ get j claims
  put-keeps {k} {j} v claims after other stored = rw (sym stored) (get-put-other k j v claims other)

  -- What a claim of another scope stores is not under the scope email.
  add_profile-other :
      EmailNames names
      → (u : User) (claim : String) (claims after : Dict ScopeClaims)
      → add_profile names u claim claims ≡ ok after
      → get names.scope_email after ≡ get names.scope_email claims
  unfolding add_profile
  add_profile-other laws u claim claims after h = elim (Option-cases u.profile) [
    | inl no_profile ↦ let same : ok claims ≡ ok after = rw no_profile at h in cc same
    | inr (mine, has) ↦
        let stored = rw has at h in
        let (there, found, same) =
          >>=-eq-ok (new_profile_claims (get names.scope_profile claims)) _ stored in
        put-keeps (profile_claims (add_profile_claim names claim mine (or_no_profile there))) claims
          after laws.scopes_differ (cc same)
  ]

  add_scoped-other :
      EmailNames names
      → (u : User) (scopes : Dict Bool) (scope claim : String) (claims after : Dict ScopeClaims)
      → scope ≢ names.scope_email
      → add_scoped names u scopes scope claim claims ≡ ok after
      → get names.scope_email after ≡ get names.scope_email claims
  unfolding add_scoped
  add_scoped-other laws u scopes scope claim claims after other h =
      ground (arith, eq_iff scope names.scope_email, add_profile-other laws u claim claims after)

  add_email-released :
      (u : User) (claim : String) (claims after : Dict ScopeClaims) (asked verified : Bool)
      → ((claim == names.email_claim) || (claim == names.email_verified_claim)) ≡ true
      → get names.scope_email claims ≡ released_email u.email false asked verified
      → add_email names u claim claims ≡ ok after
      → get names.scope_email after
        ≡ released_email u.email false
            (asked || (claim == names.email_claim))
            (verified || (claim == names.email_verified_claim))
  unfolding add_email released_email
  add_email-released u claim claims after asked verified known before h =
      elim (Option-cases u.email) [
        | inl absent ↦
            let kept : ok claims ≡ ok after = rw absent at h in
            let empty : get names.scope_email claims ≡ none = rw absent at before in
            let same : claims ≡ after = cc kept in rw (absent, sym same) empty
        | inr (mine, has) ↦ rw has (
            add_email-keeps u mine claim claims after asked verified has (rw has at before) known h)
      ]

  add_scoped-email :
      (u : User) (scopes : Dict Bool) (claim : String) (claims after : Dict ScopeClaims)
      → (asked verified : Bool)
      → ((claim == names.email_claim) || (claim == names.email_verified_claim)) ≡ true
      → get names.scope_email claims
        ≡ released_email u.email (flag names.scope_email scopes) asked verified
      → add_scoped names u scopes names.scope_email claim claims ≡ ok after
      → get names.scope_email after
        ≡ released_email u.email
            (flag names.scope_email scopes)
            (asked || (claim == names.email_claim))
            (verified || (claim == names.email_verified_claim))
  unfolding add_scoped released_email
  add_scoped-email u scopes claim claims after asked verified known before h =
      elim (Bool-cases (flag names.scope_email scopes)) [
        | inl authorized ↦
            let kept : claims ≡ after = cc (then_of _ authorized h) in
            rw (sym kept, before, authorized) (released_email-authorized u.email asked verified _ _)
        | inr unauthorized ↦ rw unauthorized (
            add_email-released u claim claims after asked verified known (rw unauthorized at before)
              (then_of _ (eq_refl names.scope_email) (else_of _ unauthorized h)))
      ]

  -- The claim of one round among the two of the scope.
  not_email :
      EmailNames names
      → (claim : String) → get_scope_for_claim names claim ≢ some names.scope_email
      → ((claim == names.email_claim) ≡ false) × ((claim == names.email_verified_claim) ≡ false)
  not_email laws claim other = (
    eq_of_ne claim names.email_claim (λ same. other (rw same laws.email_scope)),
    eq_of_ne claim names.email_verified_claim (λ same. other (rw same laws.verified_scope)),
  )

  add_found-released :
      EmailNames names
      → (u : User) (scopes : Dict Bool) (claim : String) (entry : Option ClaimsRequestValue)
      → (c after : Collected) (asked verified : Bool) (found : Option String)
      → get_scope_for_claim names claim ≡ found
      → get names.scope_email c.claims
        ≡ released_email u.email (flag names.scope_email scopes) asked verified
      → add_found names u scopes claim entry c found ≡ ok after
      → get names.scope_email after.claims
        ≡ released_email u.email
            (flag names.scope_email scopes)
            (asked || (claim == names.email_claim))
            (verified || (claim == names.email_verified_claim))
  unfolding add_found
  add_found-released laws u scopes claim entry c after asked verified none scoped before h =
      let (no_mail, no_flag) = not_email laws claim (λ b. cc (scoped, b)) in
      let kept : c.claims ≡ after.claims = cc h in
      rw (no_mail, no_flag, sym kept) (ground (arith, before))
  add_found-released laws u scopes claim entry c after asked verified (some scope) scoped before h =
      let (claims, added, same) = >>=-eq-ok (add_scoped names u scopes scope claim c.claims) _ h in
      let stored : claims ≡ after.claims = cc same in
      rw (sym stored) (elim (Eq-cases scope names.scope_email) [
        | inl mail ↦
            add_scoped-email u scopes claim c.claims claims asked verified
              (only_email names laws claim (cc (scoped, mail))) before (rw mail at added)
        | inr other ↦
            let (no_mail, no_flag) = not_email laws claim (λ b. other (cc (scoped, b))) in
            rw
              (
                no_mail,
                no_flag,
                add_scoped-other laws u scopes scope claim c.claims claims other added,
              )
              (ground (arith, before))
      ])

  add_requested_map-released :
      EmailNames names
      → (u : User) (scopes : Dict Bool) (m : ClaimsRequestMap)
      → (c after : Collected) (asked verified : Bool)
      → get names.scope_email c.claims
        ≡ released_email u.email (flag names.scope_email scopes) asked verified
      → add_requested_map names u scopes m c ≡ ok after
      → get names.scope_email after.claims
        ≡ released_email u.email
            (flag names.scope_email scopes)
            (asked || contains names.email_claim (keys m))
            (verified || contains names.email_verified_claim (keys m))
  unfolding add_requested_map add_requested keys
  add_requested_map-released laws u scopes [] c after asked verified before h =
      let kept : c ≡ after = cc h in rw (sym kept) (ground (arith, before))
  add_requested_map-released laws u scopes ((claim, entry) ∷ m) c after asked verified before h =
      let (c1, first, rest) = >>=-eq-ok (add_requested names u scopes (claim, entry) c) _ h in
      let released =
        add_requested_map-released laws u scopes m c1 after _ _
          (add_found-released laws u scopes claim entry c c1 asked verified _ refl before first)
          rest in
      rw (or_assoc asked, or_assoc verified) at released

  add_requested_maps-released :
      EmailNames names
      → (u : User) (scopes : Dict Bool) (ms : List ClaimsRequestMap)
      → (c after : Collected) (asked verified : Bool)
      → get names.scope_email c.claims
        ≡ released_email u.email (flag names.scope_email scopes) asked verified
      → add_requested_maps names u scopes ms c ≡ ok after
      → get names.scope_email after.claims
        ≡ released_email u.email
            (flag names.scope_email scopes)
            (asked || contains names.email_claim (requested_names ms))
            (verified || contains names.email_verified_claim (requested_names ms))
  unfolding add_requested_maps requested_names
  add_requested_maps-released laws u scopes [] c after asked verified before h =
      let kept : c ≡ after = cc h in rw (sym kept) (ground (arith, before))
  add_requested_maps-released laws u scopes (m ∷ ms) c after asked verified before h =
      let (c1, first, rest) = >>=-eq-ok (add_requested_map names u scopes m c) _ h in
      let released =
        add_requested_maps-released laws u scopes ms c1 after _ _
          (add_requested_map-released laws u scopes m c c1 asked verified before first) rest in
      rw
        (
          contains-append names.email_claim (keys m),
          contains-append names.email_verified_claim (keys m),
        )
        (rw (or_assoc asked, or_assoc verified) at released)

  first_email :
      (mine : Option EmailClaims) (authorized : Bool)
      → get names.scope_email
          (put_some names.scope_email (if authorized then as_email_claims mine else none) [])
        ≡ released_email mine authorized false false
  unfolding released_email requested_email get put
  first_email none true = refl
  first_email none false = refl
  first_email (some mine) true = rw (eq_refl names.scope_email) refl
  first_email (some mine) false = refl

  authorized-released :
      EmailNames names
      → (u : User) (scopes : Dict Bool)
      → get names.scope_email (authorized_scope_claims names u scopes)
        ≡ released_email u.email (flag names.scope_email scopes) false false
  unfolding authorized_scope_claims released_email
  authorized-released laws u scopes =
      rw
        (get-put_some-other
          (if flag names.scope_profile scopes then as_profile_claims (profile_of u) else none)
          (put_some names.scope_email
            (if flag names.scope_email scopes then as_email_claims u.email else none) [])
          laws.scopes_differ)
        (first_email u.email (flag names.scope_email scopes))

  -- The claims of the scope email in what is collected for a user: all of the user's e-mail data where
  -- the scope is authorized; else, of a user with such data, the address only if it was requested and
  -- whether it is verified only if one of the two was; else none. No other requested claim and no extra
  -- claim changes them.
  pub get_user_claims_for_scopes-released :
      EmailNames names
      → (u : User) (scopes : Dict Bool) (requested : List ClaimsRequestMap)
        (claims : Dict ScopeClaims)
      → get_user_claims_for_scopes names (some u) scopes requested ≡ ok claims
      → get names.scope_email claims
        ≡ released_email u.email
            (flag names.scope_email scopes)
            (contains names.email_claim (requested_names requested))
            (contains names.email_verified_claim (requested_names requested))
  unfolding get_user_claims_for_scopes
  get_user_claims_for_scopes-released laws u scopes requested claims h =
      let (c, collected, same) = >>=-eq-ok (add_requested_maps names u scopes requested _) _ h in
      let released =
        add_requested_maps-released laws u scopes requested _ c false false
          (authorized-released laws u scopes) collected in
      let stored : with_extra (extra_claims (own_scoped_claims u scopes) c.unknown) c.claims
          ≡ claims =
        cc same in
      rw
        (
          sym stored,
          get-with_extra (extra_claims (own_scoped_claims u scopes) c.unknown) c.claims laws.named,
        )
        released
