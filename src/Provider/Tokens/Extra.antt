-- ===== src/Provider/Tokens/Extra.antt =====
-- What the extra claims of a user do to the claims of a token (oidc/provider/tokens.go).
use lico.Base.{
  String, ◌≡◌, ◌≢◌, ◌∙◌, ◌++◌, refl, false, Option, none, some, List, [], ◌∷◌, ◌==◌, if◌then◌else◌,
  eq_iff, arith, Bool-cases, inl, inr,
}
use lico.Base.Dict.{Dict, get, put, has, get-put, IsDistinct}
use lico.Base.Text.{join}
use lico.Payload.Claims.{
  Value, null, text, boolean, object, as_object, map_of, object_of, marshal_scopes,
}
use lico.Identity.Claims.{put_all}
use lico.TokenClaims.{scopes_claim}
use lico.Provider.Tokens.{extend_scopes, inject_extra, extra_of}

pub map_of-object_of : (m : Dict Value) → map_of (object_of m) ≡ m
unfolding map_of object_of
map_of-object_of [] = refl
map_of-object_of ((name, value) ∷ m) = rw (map_of-object_of m) refl

-- A claim other than the scopes is the token's own if the token has it, else the extra claim.
pub get-inject_extra :
    (scopes : List String) (extra m : Dict Value) (claim : String)
    → claim ≢ scopes_claim
    → get claim (inject_extra scopes extra m)
      ≡ (if has claim m then get claim m else get claim extra)
unfolding inject_extra get
get-inject_extra scopes [] m claim other = ground arith
get-inject_extra scopes ((name, value) ∷ extra) m claim other = ground (
  arith,
  eq_iff name scopes_claim,
  eq_iff name claim,
  get-inject_extra (extend_scopes scopes value).0 extra (put name (extend_scopes scopes value).1 m)
      claim other,
  get-inject_extra scopes extra m claim other,
  get-inject_extra scopes extra (put name value m) claim other,
  get-put name claim (extend_scopes scopes value).1 m,
  get-put name claim value m,
)

-- What the scopes claim is after the loop, by the function that extends the scopes.
abbrev extended_scopes : List String → Option Value → Option Value → Option Value
extended_scopes scopes none own = own
extended_scopes scopes (some value) own = some (extend_scopes scopes value).1

pub inject_extra-absent :
    (scopes : List String) (extra m : Dict Value)
    → has scopes_claim extra ≡ false
    → get scopes_claim (inject_extra scopes extra m) ≡ get scopes_claim m
unfolding inject_extra get
inject_extra-absent scopes [] m absent = refl
inject_extra-absent scopes ((name, value) ∷ extra) m absent = ground (
  arith,
  eq_iff name scopes_claim,
  inject_extra-absent scopes extra m,
  inject_extra-absent scopes extra (put name value m),
  get-put name scopes_claim value m,
)

get-inject_extra-extended_scopes :
    (scopes : List String) (extra m : Dict Value)
    → IsDistinct extra
    → get scopes_claim (inject_extra scopes extra m)
      ≡ extended_scopes scopes (get scopes_claim extra) (get scopes_claim m)
unfolding inject_extra get
get-inject_extra-extended_scopes scopes [] m distinct = refl
get-inject_extra-extended_scopes scopes ((name, value) ∷ extra) m distinct =
    elim (Bool-cases (name == scopes_claim)) [
      | inl own ↦
          let same = (eq_iff name scopes_claim).0 own in
          let absent : has scopes_claim extra ≡ false = rw same at distinct.0 in
          ground (
            arith,
            own,
            same,
            inject_extra-absent (extend_scopes scopes value).0 extra
                (put name (extend_scopes scopes value).1 m) absent,
            get-put name scopes_claim (extend_scopes scopes value).1 m,
          )
      | inr other ↦ ground (
        arith,
        other,
        get-inject_extra-extended_scopes scopes extra m distinct.1,
        get-inject_extra-extended_scopes scopes extra (put name value m) distinct.1,
        get-put name scopes_claim value m,
      )
    ]

-- What the scopes claim is after the loop: the token's own; or, if the extra claims have a text that is
-- not empty, the granted scopes with this text after them; or another extra value as it is.
abbrev pub scopes_after : List String → Option Value → Option Value → Option Value
scopes_after granted none own = own
scopes_after granted (some (text extra)) own =
    some (text (if extra == "" then extra else join (granted ++ extra ∷ [])))
scopes_after granted (some value) own = some value

extended_scopes-scopes_after :
    (granted : List String) (value own : Option Value)
    → extended_scopes granted value own ≡ scopes_after granted value own
unfolding extend_scopes marshal_scopes
extended_scopes-scopes_after granted none own = refl
extended_scopes-scopes_after granted (some (text extra)) own = elim (Bool-cases (extra == "")) [
  | inl empty ↦ rw empty refl
  | inr filled ↦ rw filled refl
]
extended_scopes-scopes_after granted (some null) own = refl
extended_scopes-scopes_after granted (some (boolean b)) own = refl
extended_scopes-scopes_after granted (some (object fields)) own = refl
extended_scopes-scopes_after granted (some (Value.other value)) own = refl

pub get-inject_extra-scopes :
    (scopes : List String) (extra m : Dict Value)
    → IsDistinct extra
    → get scopes_claim (inject_extra scopes extra m)
      ≡ scopes_after scopes (get scopes_claim extra) (get scopes_claim m)
get-inject_extra-scopes scopes extra m distinct =
    get-inject_extra-extended_scopes scopes extra m distinct
    ∙ extended_scopes-scopes_after scopes (get scopes_claim extra) (get scopes_claim m)

-- The map of a claim, if it is one.
abbrev pub extra_map : Option Value → Dict Value
extra_map (some (object fields)) = map_of fields
extra_map _ = []

extra_of_value :
    (value : Option Value)
    → (elim (as_object value) [ none ↦ [] | some fields ↦ map_of fields ]) ≡ extra_map value
extra_of_value none = refl
extra_of_value (some null) = refl
extra_of_value (some (text s)) = refl
extra_of_value (some (boolean b)) = refl
extra_of_value (some (object fields)) = refl
extra_of_value (some (Value.other s)) = refl

pub extra_of-extra_map :
    (claim : String) (claims : Dict Value) → extra_of claim claims ≡ extra_map (get claim claims)
extra_of-extra_map claim claims = extra_of_value (get claim claims)

-- A claim of the second map is that of the first, if it is there.
abbrev pub or_else {ℓ} : {A : Type ℓ} → Option A → Option A → Option A
or_else none b = b
or_else (some a) b = some a

put_all-absent :
    (values m : Dict Value) (claim : String)
    → has claim values ≡ false
    → get claim (put_all values m) ≡ get claim m
unfolding put_all get
put_all-absent [] m claim absent = refl
put_all-absent ((name, value) ∷ values) m claim absent = ground (
  arith,
  eq_iff name claim,
  put_all-absent values (put name value m) claim,
  get-put name claim value m,
)

pub get-put_all :
    (values m : Dict Value) (claim : String)
    → IsDistinct values
    → get claim (put_all values m) ≡ or_else (get claim values) (get claim m)
unfolding put_all get
get-put_all [] m claim distinct = refl
get-put_all ((name, value) ∷ values) m claim distinct = elim (Bool-cases (name == claim)) [
  | inl own ↦
      let same = (eq_iff name claim).0 own in
      let absent : has claim values ≡ false = rw same at distinct.0 in
      ground (
        arith,
        own,
        put_all-absent values (put name value m) claim absent,
        get-put name claim value m,
      )
  | inr other ↦ ground (
    arith,
    other,
    get-put_all values (put name value m) claim distinct.1,
    get-put name claim value m,
  )
]
