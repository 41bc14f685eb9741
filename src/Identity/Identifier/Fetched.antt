-- ===== src/Identity/Identifier/Fetched.antt =====
-- The record that Authenticate of identity/managers/identifier.go fetches for a user who is signed in.
use lico.Base.{ℕ, String, ◌≡◌, refl, Bool, Option, none, some, []}
use lico.Base.Dict.{Dict}
use lico.Errors.{Result, ok, err, panic}
use lico.Oidc.{Oidc}
use lico.Payload.Claims.{ClaimNames}
use lico.Identity.{AuthRecord, User, authorize_scopes, authorize_loop}
use lico.Identity.Identifier.{fetched_user, fetched_record, scopes_supported}
use lico.Identity.Identifier.Authenticate.{Logon, timed, session_ref_of}

module _ {Q : Type 0} (o : Oidc) (names : ClaimNames) (l : Logon Q) where
  -- The record is of the user that the backend finds for a user who is signed in and a session, asked for
  -- some scopes. Nothing is authorized yet, and the time is that of the logon, where it is known.
  abbrev pub IsUserOf : User → Dict Bool → AuthRecord → Type 0
  IsUserOf u asked auth =
      (found : User) × (l.sign_in.identifier.get_user_from_id u.raw
          (elim u.session_ref [ none ↦ none | some ref ↦ ref ]) asked
        ≡ ok (some found))
      × (auth.sub ≡ found.subject)
      × (auth.user ≡ some found)
      × (auth.authorized_scopes ≡ [])
      × (auth.authorized_claims ≡ none)
      × (auth.auth_time ≡ l.logged_on u)

  timed-fields :
      (logon : Option ℕ) (fetched : AuthRecord)
      → fetched.auth_time ≡ none
      → ((timed o names l logon fetched).sub ≡ fetched.sub)
        × ((timed o names l logon fetched).user ≡ fetched.user)
        × ((timed o names l logon fetched).authorized_scopes ≡ fetched.authorized_scopes)
        × ((timed o names l logon fetched).authorized_claims ≡ fetched.authorized_claims)
        × ((timed o names l logon fetched).auth_time ≡ logon)
  timed-fields none fetched untimed = (refl, refl, refl, refl, untimed)
  timed-fields (some at_time) fetched untimed = (refl, refl, refl, refl, refl)

  session_ref_of_lem :
      (r : Option (Option String))
      → session_ref_of o names l r ≡ elim r [ none ↦ none | some ref ↦ ref ]
  session_ref_of_lem none = refl
  session_ref_of_lem (some ref) = refl

  fetched_record-fields :
      (found : User) (authorized : Option (Dict Bool × Dict Bool)) (fetched : AuthRecord)
      → fetched_record o names l.sign_in.identifier found authorized [] ≡ ok fetched
      → (fetched.sub ≡ found.subject)
        × (fetched.user ≡ some found)
        × (fetched.authorized_scopes
            ≡ elim authorized [ none ↦ [] | some (given, refused) ↦ given ])
        × (fetched.authorized_claims ≡ none)
        × (fetched.auth_time ≡ none)
  unfolding fetched_record
  fetched_record-fields found authorized fetched h = (cc h, cc h, cc h, cc h, cc h)

  pub fetched_user-IsUserOf :
      (u : User) (asked : Dict Bool) (r : Result (Option User)) (fetched : AuthRecord)
      → l.sign_in.identifier.get_user_from_id u.raw (session_ref_of o names l u.session_ref) asked
        ≡ r
      → fetched_user o names l.sign_in.identifier [] [] r ≡ ok fetched
      → IsUserOf u asked (timed o names l (l.logged_on u) fetched)
  unfolding fetched_user authorize_scopes authorize_loop
  fetched_user-IsUserOf u asked (err e) fetched finds h = cc
  fetched_user-IsUserOf u asked panic fetched finds h = cc
  fetched_user-IsUserOf u asked (ok none) fetched finds h = cc
  fetched_user-IsUserOf u asked (ok (some found)) fetched finds h =
      let (is_sub, is_user, is_scopes, is_claims, is_time) =
        fetched_record-fields found
          (authorize_scopes o (scopes_supported o names l.sign_in.identifier) (some found) [])
          fetched h in
      let (same_sub, same_user, same_scopes, same_claims, same_time) =
        timed-fields (l.logged_on u) fetched is_time in
      (
        found,
        rw (session_ref_of_lem u.session_ref) at finds,
        cc (is_sub, same_sub),
        cc (is_user, same_user),
        cc (is_scopes, same_scopes),
        cc (is_claims, same_claims),
        same_time,
      )
