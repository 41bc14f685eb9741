-- ===== src/Payload/Token/Credentials.antt =====
-- Whose credentials a decoded token request carries.
use lico.Base.{◌==◌, ◌||◌, if◌then◌else◌, ◌≡◌, ◌≢◌}
use lico.Payload.Token.{TokenRequest, TokenLib, HeaderCredentials}

module _ {V : Type 0} (lib : TokenLib V) where
  -- Whose request the result is, given that of the form and the credentials of the header.
  pub record IsClientOf (form : TokenRequest) (given : HeaderCredentials) (tr : TokenRequest)
      : Type 0 where
    pub some_client : tr.client_id ≢ ""
    pub client : tr.client_id ≡ (if form.client_id == "" then given.client_id else form.client_id)
    pub secret : tr.client_secret ≡ (
        if form.client_id == "" || form.client_id == given.client_id
        then given.client_secret
        else form.client_secret)
    pub rest : tr ≡ record form {
      params = record form.params { client_id = tr.client_id; client_secret = tr.client_secret };
    }
