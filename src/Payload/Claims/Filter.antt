-- ===== src/Payload/Claims/Filter.antt =====
-- Which claims and scopes a claims request keeps.
use lico.Base.{
  String, ◌≡◌, refl, Bool, true, false, Option, none, some, List, [], ◌∷◌, ◌==◌, ◌&&◌, ◌||◌, not,
  if◌then◌else◌, arith, eq_iff, Bool-cases, inl, inr,
}
use lico.Base.Lists.{contains}
use lico.Base.Dict.{Dict, get, put, keys, has, flag, get-put, get-remove_all, contains-keys}
use lico.Payload.Claims.{
  ClaimNames, ClaimsRequest, ClaimsRequestMap, ClaimsRequestValue, scope_of, unapproved,
  apply_scopes, apply_scopes_map, collect_scopes, scopes, keys_of,
}

-- A claim of a request, where there is one.
abbrev pub requested : Option ClaimsRequestMap → String → Option (Option ClaimsRequestValue)
requested none claim = none
requested (some m) claim = get claim m

-- Whether one of the claims maps to the scope.
abbrev pub maps_to : ClaimNames → String → List String → Bool
maps_to names scope [] = false
maps_to names scope (claim ∷ claims) = scope_of names claim == scope || maps_to names scope claims

module _ (names : ClaimNames) where
  contains-unapproved :
      (approved : Dict Bool) (claim : String) (claims : List String)
      → contains claim (unapproved names approved claims)
        ≡ (contains claim claims && not (flag (scope_of names claim) approved))
  unfolding unapproved
  contains-unapproved approved claim [] = refl
  contains-unapproved approved claim (c ∷ cs) =
      ground (arith, eq_iff c claim, contains-unapproved approved claim cs)

  requested-apply_scopes_map :
      (approved : Dict Bool) (m : Option ClaimsRequestMap) (claim : String)
      → requested (apply_scopes_map names approved m) claim
        ≡ (if flag (scope_of names claim) approved then requested m claim else none)
  unfolding apply_scopes_map
  requested-apply_scopes_map approved none claim = ground arith
  requested-apply_scopes_map approved (some m) claim = ground (
    arith,
    get-remove_all (unapproved names approved (keys m)) claim m,
    contains-unapproved approved claim (keys m),
    contains-keys claim m,
  )

  -- ApplyScopes keeps a requested claim, with its value, exactly if the scope that it is mapped to is
  -- approved; this holds of both maps, and what is passed through stays.
  pub apply_scopes_lem :
      (approved : Dict Bool) (cr : ClaimsRequest) (claim : String)
      → (requested (apply_scopes names approved cr).user_info claim
          ≡ (if flag (scope_of names claim) approved then requested cr.user_info claim else none))
        × (requested (apply_scopes names approved cr).id_token claim
            ≡ (if flag (scope_of names claim) approved then requested cr.id_token claim else none))
        × ((apply_scopes names approved cr).passthru ≡ cr.passthru)
  unfolding apply_scopes
  apply_scopes_lem approved cr claim = (
    requested-apply_scopes_map approved cr.user_info claim,
    requested-apply_scopes_map approved cr.id_token claim,
    refl,
  )

  get-collect_scopes :
      (excluded : Dict Bool) (scope : String) (claims : List String) (m : Dict Bool)
      → get scope (collect_scopes names excluded claims m) ≡ (
          if maps_to names scope claims && not (has scope excluded) then some true else get scope m)
  unfolding collect_scopes
  get-collect_scopes excluded scope [] m = refl
  get-collect_scopes excluded scope (c ∷ cs) m =
      elim (Bool-cases (has (scope_of names c) excluded)) [
        | inl out ↦
            ground (arith, get-collect_scopes excluded scope cs m, eq_iff (scope_of names c) scope)
        | inr kept ↦ ground (
          arith,
          get-collect_scopes excluded scope cs (put (scope_of names c) true m),
          get-put (scope_of names c) scope true m,
          eq_iff (scope_of names c) scope,
        )
      ]

  -- Scopes lists a scope exactly if a claim of either map is mapped to it and it is not excluded.
  pub contains-scopes :
      (excluded : Dict Bool) (cr : ClaimsRequest) (scope : String)
      → contains scope (scopes names excluded cr) ≡ (
          (maps_to names scope (keys_of cr.user_info) || maps_to names scope (keys_of cr.id_token))
          && not (has scope excluded))
  unfolding scopes get
  contains-scopes excluded cr scope = ground (
    arith,
    contains-keys scope (
        collect_scopes names excluded (keys_of cr.id_token)
          (collect_scopes names excluded (keys_of cr.user_info) [])),
    get-collect_scopes excluded scope (keys_of cr.id_token)
        (collect_scopes names excluded (keys_of cr.user_info) []),
    get-collect_scopes excluded scope (keys_of cr.user_info) [],
  )
