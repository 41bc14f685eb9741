-- ===== src/Payload/Claims/Encoding.antt =====
-- Lists of scopes as they stand in a token.
use lico.Base.{String, ◌≡◌, List, [], ◌∷◌, refl}
use lico.Base.Lists.{All}
use lico.Base.Text.{IsWord, split-join, join-split}
use lico.Payload.Claims.{marshal_scopes, unmarshal_scopes}

-- A list of scopes of which none holds a space and which is not empty comes back from its text; and
-- every text that a token carries comes back from its list.
pub unmarshal_scopes-marshal_scopes :
    (scope : String) (scopes : List String)
    → All IsWord (scope ∷ scopes)
    → (unmarshal_scopes (marshal_scopes (scope ∷ scopes)) ≡ scope ∷ scopes)
      × ((s : String) → marshal_scopes (unmarshal_scopes s) ≡ s)
unfolding marshal_scopes unmarshal_scopes
unmarshal_scopes-marshal_scopes scope scopes h = (split-join scope scopes h, join-split)

-- The empty list does not come back: it is read as the list of the empty scope.
no_scopes : unmarshal_scopes (marshal_scopes []) ≡ "" ∷ []
unfolding marshal_scopes unmarshal_scopes
no_scopes = refl
