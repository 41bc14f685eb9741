-- ===== src/Identity/Authorize.antt =====
-- Which scopes an auth record is authorized for.
use lico.Base.{
  String, ◌≡◌, ◌∙◌, refl, Bool, true, false, Option, none, some, List, [], ◌∷◌, ◌==◌, ◌||◌, ◌&&◌,
  not, if◌then◌else◌, arith, eq_iff, inl, inr, Option-cases,
}
use lico.Base.Lists.{contains}
use lico.Base.Dict.{
  flag, Dict, get, put, keys, has, set_of, get-set_of, get-put, get-remove_all, contains-keys,
  IsDistinct,
}
use lico.Oidc.{Oidc}
use lico.Identity.{
  User, AuthRecord, is_authorized, authorize_loop, grant_scopes, apply_authorized,
  auth_authorize_scopes,
}

-- All flags of the map are set.
abbrev AllTrue : Dict Bool → Type 0
AllTrue [] = Unit
AllTrue ((k, v) ∷ m) = (v ≡ true) × AllTrue m

AllTrue-put : (k : String) (m : Dict Bool) → AllTrue m → AllTrue (put k true m)
unfolding put
AllTrue-put k [] h = (refl, tt)
AllTrue-put k ((j, v) ∷ m) h = ground (arith, AllTrue-put k m h.1)

get-grant_scopes :
    (scope : String) (granted scopes : Dict Bool)
    → AllTrue granted
    → get scope (grant_scopes granted scopes)
      ≡ (if has scope granted then some true else get scope scopes)
unfolding grant_scopes get
get-grant_scopes scope [] scopes h = refl
get-grant_scopes scope ((k, v) ∷ granted) scopes h = rw h.0 (
    ground (
      arith,
      get-grant_scopes scope granted (put k true scopes) h.1,
      get-put k scope true scopes,
      eq_iff k scope,
    ))

module _ (o : Oidc) where
  -- Of a scope of the request: whether it is authorized, or refused.
  abbrev pub granted : Dict Bool → String → Option Bool → Bool
  granted supported scope none = false
  granted supported scope (some b) = is_authorized o supported scope b

  abbrev pub refused : Dict Bool → String → Option Bool → Bool
  refused supported scope none = false
  refused supported scope (some b) = not (is_authorized o supported scope b)

  authorize_loop-AllTrue :
      (supported scopes ys ns : Dict Bool)
      → AllTrue ys
      → AllTrue (authorize_loop o supported scopes ys ns).0
  unfolding authorize_loop
  authorize_loop-AllTrue supported [] ys ns h = h
  authorize_loop-AllTrue supported ((k, b) ∷ scopes) ys ns h =
      let good = is_authorized o supported k b in
      authorize_loop-AllTrue supported scopes (if good then put k true ys else ys)
        (if good then ns else put k false ns) (ground (arith, AllTrue-put k ys h))

  get-authorize_loop :
      (supported : Dict Bool) (scope : String) (scopes ys ns : Dict Bool)
      → IsDistinct scopes
      → (get scope (authorize_loop o supported scopes ys ns).0
          ≡ (if granted supported scope (get scope scopes) then some true else get scope ys))
        × (get scope (authorize_loop o supported scopes ys ns).1
            ≡ (if refused supported scope (get scope scopes) then some false else get scope ns))
  unfolding authorize_loop get
  get-authorize_loop supported scope [] ys ns h = (refl, refl)
  get-authorize_loop supported scope ((k, b) ∷ scopes) ys ns h =
      let good = is_authorized o supported k b in
      let ih =
        get-authorize_loop supported scope scopes (if good then put k true ys else ys)
          (if good then ns else put k false ns) h.1 in
      ground (arith, ih, get-put k scope true ys, get-put k scope false ns, eq_iff k scope)

  -- What becomes of a scope: `asked` is its flag in the request, `before` the one in the record.
  abbrev scope_after : Dict Bool → String → Option User → Option Bool → Option Bool → Option Bool
  scope_after supported scope none asked before = before
  scope_after supported scope (some u) none before = before
  scope_after supported scope (some u) (some b) before =
      if is_authorized o supported scope b then some true else none

  get-apply_authorized :
      (supported : Dict Bool) (r : AuthRecord) (scopes : Dict Bool) (u : User)
      → IsDistinct scopes
      → (scope : String)
      → get scope
          (apply_authorized r (some (authorize_loop o supported scopes [] []))).authorized_scopes
        ≡ scope_after supported scope (some u) (get scope scopes) (get scope r.authorized_scopes)
  unfolding apply_authorized get
  get-apply_authorized supported r scopes u h scope =
      let both = authorize_loop o supported scopes [] [] in
      ground (
        arith,
        get-remove_all (keys both.1) scope (grant_scopes both.0 r.authorized_scopes),
        get-grant_scopes scope both.0 r.authorized_scopes
            (authorize_loop-AllTrue supported scopes [] [] tt),
        contains-keys scope both.1,
        get-authorize_loop supported scope scopes [] [] h,
      )

  -- What becomes of a scope: `supported` lists the scopes that the manager supports, `asked` is the
  -- scope's flag in the request, `before` the one in the record.
  abbrev pub authorized_after :
      List String → String → Option User → Option Bool → Option Bool → Option Bool
  authorized_after supported scope none asked before = before
  authorized_after supported scope (some u) none before = before
  authorized_after supported scope (some u) (some b) before =
      if b && (scope == o.scope_openid || contains scope supported) then some true else none

  scope_after-authorized_after :
      (supported : List String) (scope : String) (user : Option User) (asked before : Option Bool)
      → scope_after (set_of supported) scope user asked before
        ≡ authorized_after supported scope user asked before
  unfolding is_authorized
  scope_after-authorized_after supported scope none asked before = refl
  scope_after-authorized_after supported scope (some u) none before = refl
  scope_after-authorized_after supported scope (some u) (some b) before =
      ground (arith, get-set_of supported scope)

  -- After AuthorizeScopes a scope that was asked for is authorized exactly if it was asked for as
  -- true and is openid or one that the manager supports; if it is not, it is no longer authorized,
  -- also where it was before. A scope that was not asked for stays as it was. Without a user nothing
  -- changes. The request names no scope twice.
  pub auth_authorize_scopes_lem :
      (scopes_supported : Dict Bool → List String) (r : AuthRecord) (scopes : Dict Bool)
      → IsDistinct scopes
      → (scope : String)
      → get scope (auth_authorize_scopes o scopes_supported r scopes).authorized_scopes
        ≡ authorized_after
            (scopes_supported scopes)
            scope
            r.user
            (get scope scopes)
            (get scope r.authorized_scopes)
  unfolding auth_authorize_scopes
  auth_authorize_scopes_lem scopes_supported r scopes h scope = elim (Option-cases r.user) [
    | inl missing ↦ rw (missing, apply_authorized)
    | inr (u, present) ↦
        rw (present, apply_authorized)
          (get-apply_authorized (set_of (scopes_supported scopes)) r scopes u h scope
            ∙ scope_after-authorized_after (scopes_supported scopes) scope (some u)
                (get scope scopes) (get scope r.authorized_scopes))
  ]

  -- What is authorized of a record without scopes was asked for.
  pub authorized-asked :
      (scopes_supported : Dict Bool → List String) (r : AuthRecord) (scopes : Dict Bool)
      (scope : String)
      → IsDistinct scopes
      → r.authorized_scopes ≡ []
      → flag scope (auth_authorize_scopes o scopes_supported r scopes).authorized_scopes ≡ true
      → flag scope scopes ≡ true
  unfolding get
  authorized-asked scopes_supported r scopes scope distinct empty given =
      let after = auth_authorize_scopes_lem scopes_supported r scopes distinct scope in
      elim (Option-cases r.user) [
        | inl nobody ↦
            let unchanged = rw (nobody, empty) at after in ground (arith, given, unchanged)
        | inr (u, present) ↦
            let decided = rw (present, empty) at after in ground (arith, given, decided)
      ]
