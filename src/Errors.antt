-- ===== src/Errors.antt =====
-- The error values of oidc/errors.go, identity/errors.go and oidc/payload/authentication.go, and the
-- results of functions that return an error beside their value.
use lico.Base.{String, ◌≡◌, ◌≢◌, refl, ◌⊎◌, inl, inr, Bool, true, false, Option, none, some}
use lico.Url.{Url}

-- One constructor for each error type that a handler tells apart; `failure` stands for all others
-- (fmt.Errorf, errors.New and the errors of libraries).
pub data GoError : Type 0 where
  oauth2_error : String → String → GoError
  authentication_error : String → String → String → GoError
  authentication_bad_request : String → String → String → GoError
  redirect_error : String → Url → GoError
  login_required_error : String → Url → GoError
  is_handled_error : GoError
  failure : String → GoError

-- err.Error()
unfoldable pub error_text : GoError → String
error_text (oauth2_error id description) = id
error_text (authentication_error id description state) = id
error_text (authentication_bad_request id description state) = id
error_text (redirect_error id uri) = id
error_text (login_required_error id uri) = id
error_text is_handled_error = "is_handled"
error_text (failure text) = text

-- A value, an error, or a run-time panic such as the use of a nil pointer.
pub data Result {ℓ} (A : Type ℓ) : Type ℓ where
  ok : A → Result A
  err : GoError → Result A
  panic : Result A

-- The calls of a function one after the other, up to the first that does not return a value.
module _ {ℓ κ} {A : Type ℓ} {B : Type κ} where
  infixl 5 ◌>>=◌ ◌>>◌
  abbrev pub ◌>>=◌ : Result A → (A → Result B) → Result B
  panic >>= rest = panic
  err error >>= rest = err error
  ok value >>= rest = rest value

  abbrev pub ◌>>◌ : Result A → Result B → Result B
  call >> next_call = call >>= (λ nothing. next_call)

  -- A chain that returns a value got one from its first call.
  pub >>=-eq-ok :
      (first : Result A) (rest : A → Result B) {result : B}
      → (first >>= rest) ≡ ok result
      → (value : A) × (first ≡ ok value) × (rest value ≡ ok result)
  >>=-eq-ok panic rest returned = cc
  >>=-eq-ok (err error) rest returned = cc
  >>=-eq-ok (ok value) rest returned = (value, refl, returned)

-- if !b { return e }
abbrev pub guard : Bool → GoError → Result (Unit {0})
guard false error = err error
guard true error = ok tt

-- v, _ := f()
abbrev pub value_of {ℓ} : {A : Type ℓ} → Result A → Option A
value_of (ok a) = some a
value_of (err e) = none
value_of panic = none

-- p.f where p may be nil
abbrev pub deref {ℓ} : {A : Type ℓ} → Option A → Result A
deref none = panic
deref (some a) = ok a

-- The same for a step that returns nothing.
pub >>-eq-ok {ℓ} :
    {B : Type ℓ} (m : Result (Unit {0})) (k : Result B) {b : B}
    → (m >> k) ≡ ok b
    → (m ≡ ok tt) × (k ≡ ok b)
>>-eq-ok (ok a) k h = (refl, h)
>>-eq-ok (err e) k h = cc
>>-eq-ok panic k h = cc

pub guard-eq-ok : (b : Bool) (e : GoError) → guard b e ≡ ok tt → b ≡ true
guard-eq-ok true e h = refl
guard-eq-ok false e h = cc

-- The value, or an error where there is none.
abbrev pub or_error {ℓ} : {A : Type ℓ} → GoError → Option A → Result A
or_error e none = err e
or_error e (some a) = ok a

pub deref-eq-ok {ℓ} : {A : Type ℓ} (o : Option A) {a : A} → deref o ≡ ok a → o ≡ some a
deref-eq-ok none h = cc
deref-eq-ok (some b) h = cc h

pub or_error-eq-ok {ℓ} :
    {A : Type ℓ} (e : GoError) (o : Option A) {a : A} → or_error e o ≡ ok a → o ≡ some a
or_error-eq-ok e none h = cc
or_error-eq-ok e (some b) h = cc h

-- Of a chain that returns an error, the first call did, or the rest.
pub >>=-eq-err {ℓ κ} :
    {A : Type ℓ} {B : Type κ} (first : Result A) (rest : A → Result B) {error : GoError}
    → (first >>= rest) ≡ err error
    → (first ≡ err error) ⊎ ((value : A) × (first ≡ ok value) × (rest value ≡ err error))
>>=-eq-err (ok value) rest h = inr (value, refl, h)
>>=-eq-err (err e) rest h = inl (cc h)
>>=-eq-err panic rest h = cc

pub deref-eq-err {ℓ} : {A : Type ℓ} (o : Option A) {error : GoError} → deref o ≢ err error
deref-eq-err none h = cc
deref-eq-err (some a) h = cc
