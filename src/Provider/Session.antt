-- ===== src/Provider/Session.antt =====
-- oidc/provider/session.go and state.go: the provider's session and the origin of a session state.
pub mod Cookie
use lico.Base.{ℕ, String, Bool, false, Option, none, some, ◌==◌, ◌&&◌, nat_eq, if◌then◌else◌}
use lico.Errors.{GoError, Result, ok, err, ◌>>=◌}
use lico.Payload.Authentication.{Session}
use lico.Identity.{AuthRecord, ManagerRef}

abbrev pub session_version : ℕ
session_version = 2

-- What the session code calls of other packages: gob, base64 and the encryption manager.
pub record SessionLib : Type 0 where
  pub encode_gob : Session → Result String
  pub decode_gob : String → Result Session
  pub encrypt : String → Result String
  pub decrypt : String → Result String
  pub encode_base64 : String → String
  pub decode_base64 : String → Result String

-- What getSessionCookie returns: no cookie, an error, or the value.
pub data CookieValue : Type 0 where
  no_cookie : CookieValue
  cookie_error : GoError → CookieValue
  cookie : String → CookieValue

module _ (lib : SessionLib) where
  -- serializeSession
  unfoldable pub serialize_session : Session → Result String
  serialize_session session = do
    raw ← lib.encode_gob session
    ciphertext ← lib.encrypt raw
    ok (lib.encode_base64 ciphertext)

  -- unserializeSession
  unfoldable pub unserialize_session : String → Result Session
  unserialize_session value = do
    ciphertext ← lib.decode_base64 value
    raw ← lib.decrypt ciphertext
    lib.decode_gob raw

  -- getSession
  unfoldable pub get_session : CookieValue → Result (Option Session)
  get_session no_cookie = ok none
  get_session (cookie_error e) = err e
  get_session (cookie value) = do session ← unserialize_session value; ok (some session)

  -- Whether updateOrCreateSession keeps the session of the request.
  abbrev pub is_kept : Option Session → String → Bool
  is_kept none sub = false
  is_kept (some session) sub = nat_eq session.version session_version && session.sub == sub

  -- A new session, with the random id that was made for it.
  abbrev pub new_session : String → (ManagerRef → String) → AuthRecord → Session
  new_session random_id name auth = record {
    version = session_version;
    id = random_id;
    sub = auth.sub;
    provider = name auth.manager;
  }

  -- The result of updateOrCreateSession: the session, and the value of the cookie that it sets, if any.
  unfoldable pub update_or_create_session :
      String
      → (ManagerRef → String)
      → Option Session
      → AuthRecord
      → Result (Session × Option String)
  update_or_create_session random_id name none auth = do
    serialized ← serialize_session (new_session random_id name auth)
    ok (new_session random_id name auth, some serialized)
  update_or_create_session random_id name (some old) auth =
      if is_kept (some old) auth.sub then ok (old, none) else do
        serialized ← serialize_session (new_session random_id name auth)
        ok (new_session random_id name auth, some serialized)
