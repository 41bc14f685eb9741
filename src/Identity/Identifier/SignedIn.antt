-- ===== src/Identity/Identifier/SignedIn.antt =====
-- Whom Authenticate of identity/managers/identifier.go authenticates.
use mathlib.Core.Path.{subst}
use lico.Base.{
  String, ◌≡◌, ◌≢◌, refl, sym, Bool, true, false, none, some, ◌==◌, ◌&&◌, ◌||◌, not, ◌⊎◌, inl, inr,
  eq_iff, arith, Bool-cases, Option-cases, then_of, else_of, ne_of_eq,
}
use lico.Base.Dict.{Dict, get, flag}
use lico.Errors.{GoError, Result, ok, err, panic, guard, deref, >>=-eq-ok, >>-eq-ok, guard-eq-ok}
use lico.Oidc.{Oidc}
use lico.Payload.Claims.{ClaimNames}
use lico.Payload.Authentication.{AuthenticationRequest}
use lico.Payload.Validation.{verify_user}
use lico.Identity.{AuthRecord, User}
use lico.Identity.Identifier.{fetch}
use lico.Identity.Identifier.Authorize.{granted}
use lico.Identity.Identifier.Authenticate.{
  Logon, must_be_signed_in, required_scopes, updated_scopes, ask_sign_in, taken_auth, inner_auth,
  not_signed_in, wants_form, timed, backend_scopes, refreshed, injected, signed_in,
  identifier_authenticate,
}
use lico.Identity.Identifier.Locked.{
  is_off_in, get-inject_required, required_scopes-IsDistinct, required_scopes-off,
  updated_scopes-locked,
}
use lico.Identity.Identifier.Fetched.{IsUserOf, fetched_user-IsUserOf}

module _ {Q : Type 0} (o : Oidc) (names : ClaimNames) (l : Logon Q) where
  ask_sign_in-sent :
      (ar left : AuthenticationRequest) (e : GoError) (auth : AuthRecord)
      → ask_sign_in o names l ar e ≢ ok (granted auth left)
  unfolding ask_sign_in
  ask_sign_in-sent ar left e auth h =
      let (prompts, h1) = >>-eq-ok (guard (not (flag o.prompt_none ar.prompts)) e) _ h in
      let (q, asked, h2) = >>=-eq-ok l.sign_in.query _ h1 in
      let (uri, parsed, h3) =
        >>=-eq-ok (deref (l.sign_in.identifier.urls.parse l.sign_in.sign_in_form_uri)) _ h2 in
      cc h3

  -- The next manager took the request.
  abbrev pub IsTaken : AuthenticationRequest → AuthRecord → Type 0
  IsTaken ar auth =
      (l.mode ≢ must_be_signed_in)
      × (authenticate : (AuthenticationRequest → Result AuthRecord)) × (l.next ≡ some authenticate)
      × (authenticate ar ≡ ok auth)

  taken_auth-ok :
      (r : Result AuthRecord) (auth : AuthRecord)
      → taken_auth o names l r ≡ ok (some auth)
      → r ≡ ok auth
  unfolding taken_auth
  taken_auth-ok (ok a) auth h = cc h
  taken_auth-ok (err e) auth h = cc
  taken_auth-ok panic auth h = cc

  inner_auth-IsTaken :
      (ar : AuthenticationRequest) (auth : AuthRecord)
      → inner_auth o names l ar ≡ ok (some auth)
      → IsTaken ar auth
  unfolding inner_auth
  inner_auth-IsTaken ar auth h = elim (Bool-cases (l.mode == must_be_signed_in)) [
    | inl must ↦ absurd (cc (then_of _ must h))
    | inr free ↦
        let h1 = else_of _ free h in
        elim (Option-cases l.next) [
          | inl nobody ↦ absurd (cc (rw nobody at h1))
          | inr (authenticate, present) ↦ (
            ne_of_eq l.mode must_be_signed_in free,
            authenticate,
            present,
            taken_auth-ok (authenticate ar) auth (rw present at h1),
          )
        ]
  ]

  not_signed_in-IsTaken :
      (ar left : AuthenticationRequest) (auth : AuthRecord)
      → not_signed_in o names l ar ≡ ok (granted auth left)
      → IsTaken ar auth
  unfolding not_signed_in
  not_signed_in-IsTaken ar left auth h =
      let (inner, found, h1) = >>=-eq-ok (inner_auth o names l ar) _ h in
      elim (Option-cases inner) [
        | inl nobody ↦ absurd (ask_sign_in-sent ar left _ auth (rw nobody at h1))
        | inr (taken, present) ↦
            let h2 = rw present at h1 in
            let same : taken ≡ auth = cc h2 in
            inner_auth-IsTaken ar auth (cc (found, present, same))
      ]

  -- A request that a user who is signed in passes without the form, and what is left of it.
  abbrev pub IsSignedIn :
      AuthenticationRequest → AuthenticationRequest → AuthRecord → User → String → Type 0
  IsSignedIn ar left auth u j =
      ((flag o.prompt_none ar.prompts
          || not (flag o.prompt_login ar.prompts || flag o.prompt_select_account ar.prompts))
        ≡ true)
      × ((elim ar.id_token_hint [ none ↦ true | some token ↦ u.subject == token.claims.subject ])
          ≡ true)
      × (asked : Dict Bool) × IsUserOf o names l u asked auth
      × (left ≡ record ar { scopes = left.scopes })
      × ((is_off_in (l.locked_scopes u) j && flag j asked) ≡ false)
      × ((is_off_in (l.locked_scopes u) j && flag j left.scopes) ≡ false)

  unwanted_prompts :
      (silent login select : Bool)
      → (not silent && (login || select)) ≡ false
      → (silent || not (login || select)) ≡ true
  unwanted_prompts silent login select h = ground (arith, h)

  verified_hint :
      (ar : AuthenticationRequest) (u : User)
      → verify_user o u.subject ar ≡ ok tt
      → (elim ar.id_token_hint [ none ↦ true | some token ↦ u.subject == token.claims.subject ])
        ≡ true
  unfolding verify_user
  verified_hint ar u h = elim (Option-cases ar.id_token_hint) [
    | inl nothing ↦ rw nothing refl
    | inr (token, present) ↦ rw present (guard-eq-ok _ _ (rw present at h))
  ]

  known-off :
      (ar : AuthenticationRequest) (u : User) (j : String)
      → is_off_in (l.locked_scopes u) j ≡ true
      → get j (injected o names l ar u).scopes ≡ some false
  known-off ar u j off =
      let required = required_scopes (l.locked_scopes u) in
      ground (
        arith,
        get-inject_required required ar.scopes j (required_scopes-IsDistinct (l.locked_scopes u)),
        required_scopes-off (l.locked_scopes u) j off,
      )

  off_of :
      (u : User) (j : String) (b : Bool)
      → (is_off_in (l.locked_scopes u) j ≡ true → b ≡ false)
      → (is_off_in (l.locked_scopes u) j && b) ≡ false
  off_of u j b h = elim (Bool-cases (is_off_in (l.locked_scopes u) j)) [
    | inl off ↦ rw (off, h off) refl
    | inr on ↦ rw on refl
  ]

  refreshed-fetched :
      (ar left : AuthenticationRequest) (u : User) (r : Result AuthRecord) (auth : AuthRecord)
      → refreshed o names l ar u r ≡ ok (granted auth left)
      → (fetched : AuthRecord) × (r ≡ ok fetched)
        × (auth ≡ timed o names l (l.logged_on u) fetched)
        × (left ≡ record ar {
          scopes = updated_scopes (backend_scopes o names l fetched.user) ar.scopes;
        })
  unfolding refreshed
  refreshed-fetched ar left u (err e) auth h = absurd (ask_sign_in-sent ar left _ auth h)
  refreshed-fetched ar left u panic auth h = cc
  refreshed-fetched ar left u (ok fetched) auth h = (fetched, refl, cc h, cc h)

  signed_in-IsSignedIn :
      (ar left : AuthenticationRequest) (u : User) (auth : AuthRecord) (j : String)
      → signed_in o names l ar u ≡ ok (granted auth left)
      → IsSignedIn ar left auth u j
  unfolding signed_in fetch
  signed_in-IsSignedIn ar left u auth j h = elim (Bool-cases (wants_form o names l ar)) [
    | inl wanted ↦ absurd (ask_sign_in-sent ar left _ auth (then_of _ wanted h))
    | inr unwanted ↦
        let (verified, h1) = >>-eq-ok (verify_user o u.subject ar) _ (else_of _ unwanted h) in
        let (fetched, fetches, is_timed, is_left) =
          refreshed-fetched (injected o names l ar u) left u _ auth h1 in
        let asked : Dict Bool = (injected o names l ar u).scopes in
        let backend = backend_scopes o names l fetched.user in
        (
          unwanted_prompts (flag o.prompt_none ar.prompts) (flag o.prompt_login ar.prompts)
              (flag o.prompt_select_account ar.prompts) unwanted,
          verified_hint ar u verified,
          asked,
          subst (λ a. IsUserOf o names l u asked a) (sym is_timed)
              (fetched_user-IsUserOf o names l u asked _ fetched refl fetches),
          rw is_left refl,
          off_of u j (flag j asked) (λ off. rw (known-off ar u j off) refl),
          off_of u j (flag j left.scopes)
              (λ off. rw is_left (updated_scopes-locked backend asked j (known-off ar u j off))),
        )
  ]

  -- A request that Authenticate of the identifier manager answers with a record comes without an error,
  -- and either nobody is signed in, the request does not insist on it, and the next manager made the
  -- record; or a user is signed in. Then the request has prompt=none or neither prompt=login nor
  -- prompt=select_account, and its hint, if it has one, names this user. The record has the user that the
  -- backend finds for the signed-in user and session, no authorized scope or claim yet, and the time of
  -- the logon. Only the scopes of the request change, and a scope that the user's locked scopes have off
  -- is neither asked of the backend nor left in the request.
  pub identifier_authenticate-IsSignedIn :
      (ar left : AuthenticationRequest) (auth : AuthRecord) (j : String)
      → identifier_authenticate o names l ar ≡ ok (granted auth left)
      → (l.form_error ≡ "")
        × (((l.logon_user ar.max_age ≡ none) × IsTaken ar auth)
            ⊎ ((u : User) × (l.logon_user ar.max_age ≡ some u) × IsSignedIn ar left auth u j))
  unfolding identifier_authenticate
  identifier_authenticate-IsSignedIn ar left auth j h =
      let (no_error, h1) = >>-eq-ok (guard (l.form_error == "") _) _ h in
      (
        (eq_iff l.form_error "").0 (guard-eq-ok _ _ no_error),
        elim (Option-cases (l.logon_user ar.max_age)) [
          | inl nobody ↦ inl (nobody, not_signed_in-IsTaken ar left auth (rw nobody at h1))
          | inr (u, present) ↦
              inr (u, present, signed_in-IsSignedIn ar left u auth j (rw present at h1))
        ],
      )
