-- ===== src/Identity/Identifier/Locked.antt =====
-- The scopes that the identifier locks off for a user, in the required scopes of
-- identity/managers/identifier.go.
use Prim.Native.Char.{code}
use lico.Base.{
  String, ◌≡◌, refl, Bool, true, false, Option, none, some, List, [], ◌∷◌, ◌==◌, ◌&&◌, not,
  if◌then◌else◌, ◌⊎◌, inl, inr, eq_iff, arith, Bool-cases, nat_eq,
}
use lico.Base.Lists.{contains}
use lico.Base.Dict.{Dict, get, put, has, flag, get-put, IsDistinct, IsDistinct-put}
use lico.Identity.Identifier.Authenticate.{
  trim_bangs, is_bang, require_scope, require_scopes, required_scopes, inject_required,
  expand_scopes, updated_scopes,
}

pub get-inject_required :
    (required m : Dict Bool) (j : String)
    → IsDistinct required
    → get j (inject_required required m) ≡ (if has j required then get j required else get j m)
unfolding inject_required get
get-inject_required [] m j h = refl
get-inject_required ((scope, b) ∷ required) m j h =
    ground (
      arith,
      get-inject_required required (put scope b m) j h.1,
      get-put scope j b m,
      eq_iff scope j,
    )

require_scope-IsDistinct :
    (scope : String) (m : Dict Bool) → IsDistinct m → IsDistinct (require_scope scope m)
unfolding require_scope
require_scope-IsDistinct String.[] m h = IsDistinct-put String.[] true m h
require_scope-IsDistinct (String.◌∷◌ c s) m h =
    if_distinct _ _ _ (IsDistinct-put (trim_bangs s) false m h)
      (IsDistinct-put (String.◌∷◌ c s) true m h)
  where
    if_distinct :
        (b : Bool) (m1 m2 : Dict Bool)
        → IsDistinct m1
        → IsDistinct m2
        → IsDistinct (if b then m1 else m2)
    if_distinct true m1 m2 h1 h2 = h1
    if_distinct false m1 m2 h1 h2 = h2

require_scopes-IsDistinct :
    (scopes : List String) (m : Dict Bool) → IsDistinct m → IsDistinct (require_scopes scopes m)
unfolding require_scopes
require_scopes-IsDistinct [] m h = h
require_scopes-IsDistinct (scope ∷ scopes) m h =
    require_scopes-IsDistinct scopes (require_scope scope m) (require_scope-IsDistinct scope m h)

pub required_scopes-IsDistinct :
    (locked : Option (List String)) → IsDistinct (required_scopes locked)
unfolding required_scopes
required_scopes-IsDistinct none = tt
required_scopes-IsDistinct (some locked) = require_scopes-IsDistinct locked [] tt

expand_scopes-locked :
    (known : Dict Bool) (scopes : List String) (expanded : Dict Bool) (j : String)
    → get j known ≡ some false
    → flag j expanded ≡ false
    → flag j (expand_scopes known scopes expanded) ≡ false
unfolding expand_scopes
expand_scopes-locked known [] expanded j locked h = h
expand_scopes-locked known (scope ∷ scopes) expanded j locked h =
    expand_scopes-locked known scopes _ j locked (kept (get scope known) refl)
  where
    kept :
        (e : Option Bool)
        → get scope known ≡ e
        → flag j (elim e [
          | none ↦ put scope true expanded
          | some enabled ↦ if enabled then put scope true expanded else expanded
        ])
          ≡ false
    kept none there =
        ground (arith, locked, there, h, get-put scope j true expanded, eq_iff scope j)
    kept (some true) there =
        ground (arith, locked, there, h, get-put scope j true expanded, eq_iff scope j)
    kept (some false) there = h

pub updated_scopes-locked :
    (scopes : Option (List String)) (known : Dict Bool) (j : String)
    → get j known ≡ some false
    → flag j (updated_scopes scopes known) ≡ false
unfolding updated_scopes get
updated_scopes-locked none known j locked = ground (arith, locked)
updated_scopes-locked (some scopes) known j locked =
    expand_scopes-locked known scopes [] j locked refl

-- Whether a scope starts with an exclamation mark.
abbrev pub has_bang : String → Bool
has_bang String.[] = false
has_bang (String.◌∷◌ c s) = nat_eq (code c) b'!'

-- Whether a list of locked scopes has a scope off: with the mark before it, and not as it is.
abbrev pub is_off_in : Option (List String) → String → Bool
is_off_in none j = false
is_off_in (some locked) j =
    not (has_bang j) && contains (String.◌∷◌ "!" j) locked && not (contains j locked)

trim_bangs-plain : (j : String) → has_bang j ≡ false → trim_bangs j ≡ j
unfolding trim_bangs
trim_bangs-plain String.[] h = refl
trim_bangs-plain (String.◌∷◌ c s) h = rw h refl

require_scope-off :
    (x j : String) (m : Dict Bool)
    → has_bang j ≡ false
    → (x == j) ≡ false
    → ((x == String.◌∷◌ "!" j) ≡ true) ⊎ (get j m ≡ some false)
    → get j (require_scope x m) ≡ some false
unfolding require_scope
require_scope-off String.[] j m plain other (inl marked) =
    let same : String.[] ≡ String.◌∷◌ "!" j = (eq_iff String.[] (String.◌∷◌ "!" j)).0 marked in
    absurd (cc same)
require_scope-off String.[] j m plain other (inr off) =
    ground (arith, get-put String.[] j true m, other, off)
require_scope-off (String.◌∷◌ c s) j m plain other h = elim (Bool-cases (is_bang c)) [
  | inl bang ↦ rw bang (bang_off h)
  | inr free ↦ rw free (free_off h free)
]
  where
    marks : (String.◌∷◌ c s == String.◌∷◌ "!" j) ≡ true → String.◌∷◌ c s ≡ String.◌∷◌ "!" j
    marks h = (eq_iff (String.◌∷◌ c s) (String.◌∷◌ "!" j)).0 h

    bang_off :
        ((String.◌∷◌ c s == String.◌∷◌ "!" j) ≡ true) ⊎ (get j m ≡ some false)
        → get j (put (trim_bangs s) false m) ≡ some false
    bang_off (inl marked) =
        let is_s : s ≡ j = cc (marks marked) in
        rw is_s (rw (trim_bangs-plain j plain) (ground (arith, get-put j j false m, eq_iff j j)))
    bang_off (inr off) = ground (arith, get-put (trim_bangs s) j false m, off)

    free_off :
        ((String.◌∷◌ c s == String.◌∷◌ "!" j) ≡ true) ⊎ (get j m ≡ some false)
        → is_bang c ≡ false
        → get j (put (String.◌∷◌ c s) true m) ≡ some false
    free_off (inl marked) free =
        let is_c : c ≡ "!" = cc (marks marked) in absurd (cc (rw is_c at free))
    free_off (inr off) free = ground (arith, get-put (String.◌∷◌ c s) j true m, off, other)

require_scopes-off :
    (locked : List String) (j : String) (m : Dict Bool)
    → has_bang j ≡ false
    → contains j locked ≡ false
    → (contains (String.◌∷◌ "!" j) locked ≡ true) ⊎ (get j m ≡ some false)
    → get j (require_scopes locked m) ≡ some false
unfolding require_scopes
require_scopes-off [] j m plain other (inl missing) = cc
require_scopes-off [] j m plain other (inr off) = off
require_scopes-off (x ∷ locked) j m plain other h =
    require_scopes-off locked j (require_scope x m) plain (ground (arith, other))
      (step h (Bool-cases (x == String.◌∷◌ "!" j)))
  where
    is_other : (x == j) ≡ false
    is_other = ground (arith, other)

    step :
        (contains (String.◌∷◌ "!" j) (x ∷ locked) ≡ true) ⊎ (get j m ≡ some false)
        → ((x == String.◌∷◌ "!" j) ≡ true) ⊎ ((x == String.◌∷◌ "!" j) ≡ false)
        → (contains (String.◌∷◌ "!" j) locked ≡ true) ⊎ (get j (require_scope x m) ≡ some false)
    step h (inl here) = inr (require_scope-off x j m plain is_other (inl here))
    step (inl there) (inr elsewhere) = inl (rw elsewhere at there)
    step (inr off) (inr elsewhere) = inr (require_scope-off x j m plain is_other (inr off))

pub required_scopes-off :
    (locked : Option (List String)) (j : String)
    → is_off_in locked j ≡ true
    → get j (required_scopes locked) ≡ some false
unfolding required_scopes
required_scopes-off none j h = cc
required_scopes-off (some locked) j h =
    require_scopes-off locked j [] (ground (arith, h)) (ground (arith, h)) (inl (ground (arith, h)))
