-- ===== src/Provider/Session/Cookie.antt =====
-- The provider's session in its cookie.
use lico.Base.{
  ◌≢◌, String, ◌≡◌, refl, true, Option, none, some, arith, eq_refl, inl, inr, Bool-cases, then_of,
  else_of,
}
use mathlib.Core.Path.{subst}
use lico.Errors.{Result, ok, ◌>>=◌, >>=-eq-ok}
use lico.Payload.Authentication.{Session}
use lico.Identity.{AuthRecord, ManagerRef}
use lico.Provider.Session.{
  SessionLib, cookie, serialize_session, unserialize_session, get_session, is_kept, new_session,
  update_or_create_session,
}

-- The session that is encoded, and what is encrypted or put in base 64, comes back.
pub record SessionLaws (lib : SessionLib) (s : Session) : Type 0 where
  pub gob : (raw : String) → lib.encode_gob s ≡ ok raw → lib.decode_gob raw ≡ ok s
  pub cipher : (raw text : String) → lib.encrypt raw ≡ ok text → lib.decrypt text ≡ ok raw
  pub base64 : (text : String) → lib.decode_base64 (lib.encode_base64 text) ≡ ok text

kept_no_cookie :
    (a b : Session) (value : String)
    → ◌≢◌ {A = Result (Session × Option String)} (ok (a, none)) (ok (b, some value))
kept_no_cookie a b value e = cc

module _ (lib : SessionLib) where
  unserialize_session-serialize_session :
      (s : Session) (value : String)
      → SessionLaws lib s
      → serialize_session lib s ≡ ok value
      → unserialize_session lib value ≡ ok s
  unfolding serialize_session unserialize_session
  unserialize_session-serialize_session s value laws h =
      let (raw, encoded, h1) = >>=-eq-ok (lib.encode_gob s) _ h in
      let (text, encrypted, h2) = >>=-eq-ok (lib.encrypt raw) _ h1 in
      let same : lib.encode_base64 text ≡ value = cc h2 in
      rw
        (
          ← same,
          laws.base64 text,
          ◌>>=◌,
          laws.cipher raw text encrypted,
          ◌>>=◌,
          laws.gob raw encoded,
        )
        refl

  is_kept-new_session :
      (id : String) (name : ManagerRef → String) (auth : AuthRecord)
      → is_kept lib (some (new_session lib id name auth)) auth.sub ≡ true
  is_kept-new_session id name auth = ground (arith, eq_refl auth.sub)

  -- The session and the cookie's value of a response that makes a new session.
  made_session :
      (id : String) (name : ManagerRef → String) (auth : AuthRecord) (s : Session) (value : String)
      → update_or_create_session lib id name none auth ≡ ok (s, some value)
      → (serialize_session lib s ≡ ok value) × (is_kept lib (some s) auth.sub ≡ true)
  unfolding update_or_create_session
  made_session id name auth s value h =
      let (v, serialized, h1) =
        >>=-eq-ok (serialize_session lib (new_session lib id name auth)) _ h in
      let same : new_session lib id name auth ≡ s = cc h1 in
      let same_value : v ≡ value = cc h1 in
      (
        cc (serialized, same, same_value),
        subst (λ t. is_kept lib (some t) auth.sub ≡ true) same (is_kept-new_session id name auth),
      )

  -- A response that sets a cookie makes a new session.
  set_cookie :
      (id : String) (name : ManagerRef → String) (old : Option Session) (auth : AuthRecord)
      (s : Session) (value : String)
      → update_or_create_session lib id name old auth ≡ ok (s, some value)
      → update_or_create_session lib id name none auth ≡ ok (s, some value)
  unfolding update_or_create_session
  set_cookie id name none auth s value h = h
  set_cookie id name (some old) auth s value h =
      elim (Bool-cases (is_kept lib (some old) auth.sub)) [
        | inl kept ↦ absurd (kept_no_cookie old s value (then_of _ kept h))
        | inr other ↦ else_of _ other h
      ]

  -- Where gob, the encryption and base 64 give back what they were given, a session that is created for
  -- a user is in the value of its cookie: the next request gets it back from there, and a response for
  -- the same user keeps it and sets no cookie.
  pub get_session-update_or_create_session :
      (id : String) (name : ManagerRef → String) (old : Option Session) (auth : AuthRecord)
      → (s : Session) (value : String) → SessionLaws lib s
      → update_or_create_session lib id name old auth ≡ ok (s, some value)
      → (get_session lib (cookie value) ≡ ok (some s))
        × ((other : String) → update_or_create_session lib other name (some s) auth ≡ ok (s, none))
  unfolding get_session update_or_create_session
  get_session-update_or_create_session id name old auth s value laws h =
      let (serialized, kept) =
        made_session id name auth s value (set_cookie id name old auth s value h) in
      (
        rw (unserialize_session-serialize_session s value laws serialized) refl,
        λ other. rw kept refl,
      )
