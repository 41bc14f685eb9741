-- ===== src/Identity/Guest/Roundtrip.antt =====
-- Guest users through the claims of a token (identity/managers/guest.go).
use lico.Base.{◌≡◌, false, some, eq_iff, arith}
use lico.Base.Dict.{get}
use lico.Errors.{ok}
use lico.Identity.Guest.{
  GuestUser, new_guest_user_from_claims, guest_of, text_or_panic, guest_claims, set_all_data,
  set_data,
}

-- The claims of a guest user, encoded and decoded again, give the user back, save that its e-mail address
-- is no longer verified: the decoded number is not of the type that the check asks for.
pub new_guest_user_from_claims-guest_claims :
    (u : GuestUser)
    → new_guest_user_from_claims (guest_claims u) ≡ ok (some (record u { email_verified = false }))
unfolding new_guest_user_from_claims guest_claims guest_of text_or_panic set_all_data set_data get
new_guest_user_from_claims-guest_claims u =
    ground
      (arith, eq_iff u.email "", eq_iff u.name "", eq_iff u.family_name "", eq_iff u.given_name "")
