-- ===== src/Provider/TokenEndpoint/Replay.antt =====
-- What the token endpoint does to the table of codes, and what it answers for a code that is gone.
use lico.Base.{String, ◌≡◌, none, ◌==◌, refl, arith, eq_iff, if◌then◌else◌}
use lico.Base.Dict.{get}
use lico.Errors.{Result, ok}
use lico.Oidc.{Oidc}
use lico.Clients.{Details}
use lico.Code.{CodeManager, pop}
use lico.Code.Life.{get-pop, pop_absent}
use lico.Payload.Token.{TokenRequest}
use lico.Provider.Grants.{CodeRecord, outcome_of, exchange_code}
use lico.Provider.TokenEndpoint.{
  bad_request, error_response, Endpoint, read_token_request, respond, token_handler,
}
use lico.Provider.TokenEndpoint.Issue.{take_grant_of_code}

module _ (o : Oidc) {V : Type 0} (e : Endpoint V) where
  token_handler_of_code :
      (cm : CodeManager CodeRecord) (method : String) (form : Result V) (header : String)
      → (tr : TokenRequest) (details : Details)
      → read_token_request o e method form header ≡ ok (tr, details)
      → tr.grant_type ≡ o.grant_type_authorization_code
      → token_handler o e cm method form header ≡ (
        (pop tr.code cm).1,
        respond o e tr details
            (outcome_of (exchange_code o e.challenge_error tr (pop tr.code cm).0)),
      )
  unfolding token_handler
  token_handler_of_code cm method form header tr details read code =
      rw (read, take_grant_of_code o e cm tr code) refl

  -- A code that a request sends that is read, as an exchange of a code, is gone: whatever the endpoint
  -- answers, the table loses the code of the request and keeps all others as they were.
  pub get-token_handler :
      (cm : CodeManager CodeRecord) (method : String) (form : Result V) (header : String)
      → (tr : TokenRequest) (details : Details)
      → read_token_request o e method form header ≡ ok (tr, details)
      → tr.grant_type ≡ o.grant_type_authorization_code
      → (other : String)
      → get other (token_handler o e cm method form header).0.table
        ≡ (if tr.code == other then none else get other cm.table)
  get-token_handler cm method form header tr details read code other =
      rw (token_handler_of_code cm method form header tr details read code)
        (get-pop tr.code other cm)

  -- A code that the table does not hold is answered with invalid_grant.
  unknown_code :
      (cm : CodeManager CodeRecord) (method : String) (form : Result V) (header : String)
      → (tr : TokenRequest) (details : Details)
      → read_token_request o e method form header ≡ ok (tr, details)
      → tr.grant_type ≡ o.grant_type_authorization_code
      → get tr.code cm.table ≡ none
      → (token_handler o e cm method form header).1 ≡ bad_request o.invalid_grant "code not found"
  unknown_code cm method form header tr details read code gone =
      rw
        (
          token_handler_of_code cm method form header tr details read code,
          pop_absent tr.code cm gone,
        )
        (unfold exchange_code respond error_response in refl)

  -- Two requests in a row that are read, as exchanges of the same code: whatever the first one got, also
  -- if it failed after the code was found, the second is answered with invalid_grant.
  pub token_handler_twice :
      (cm : CodeManager CodeRecord) (method : String) (form : Result V) (header : String)
      → (tr : TokenRequest) (details : Details)
      → read_token_request o e method form header ≡ ok (tr, details)
      → tr.grant_type ≡ o.grant_type_authorization_code
      → (method2 : String) (form2 : Result V) (header2 : String) (tr2 : TokenRequest)
        (details2 : Details)
      → read_token_request o e method2 form2 header2 ≡ ok (tr2, details2)
      → tr2.grant_type ≡ o.grant_type_authorization_code
      → tr2.code ≡ tr.code
      → (token_handler o e (token_handler o e cm method form header).0 method2 form2 header2).1
        ≡ bad_request o.invalid_grant "code not found"
  token_handler_twice cm method form header tr details read code method2 form2 header2 tr2 details2
        read2 code2 same =
      unknown_code (token_handler o e cm method form header).0 method2 form2 header2 tr2 details2
        read2 code2
        (ground (
          arith,
          get-token_handler cm method form header tr details read code tr2.code,
          eq_iff tr.code tr2.code,
        ))
