-- ===== src/Base/Dict.antt =====
-- Go's maps with text keys, as association lists. A `range` loop goes through the entries in the
-- order of the list; Go's order is arbitrary, so no theorem speaks of it.
use Prim.Native.String.{String}
use mathlib.Core.Path.{◌≡◌, refl}
use mathlib.Core.Logic.{◌≢◌}
use mathlib.Core.Bool.{Bool, true, false}
use mathlib.Core.Option.{Option, none, some}
use mathlib.Core.List.{List, [], ◌∷◌}
use native.Mathlib.Omega.{arith}
use text.Mathlib.Text.{◌==◌}
use text.Mathlib.TextEquality.{eq_iff}
use lico.Base.Tests.{if◌then◌else◌}
use lico.Base.Lists.{contains}

abbrev pub Dict {ℓ} : Type ℓ → Type ℓ
Dict V = List (String × V)

module _ {ℓ} {V : Type ℓ} where
  -- v, ok := m[k]
  unfoldable pub get : String → Dict V → Option V
  get k [] = none
  get k ((j, v) ∷ m) = if j == k then some v else get k m

  -- m[k] = v
  unfoldable pub put : String → V → Dict V → Dict V
  put k v [] = (k, v) ∷ []
  put k v ((j, w) ∷ m) = if j == k then (k, v) ∷ m else (j, w) ∷ put k v m

  -- delete(m, k)
  unfoldable pub remove : String → Dict V → Dict V
  remove k [] = []
  remove k ((j, v) ∷ m) = let rest = remove k m in if j == k then rest else (j, v) ∷ rest

  -- The keys that a `range` loop goes through.
  unfoldable pub keys : Dict V → List String
  keys [] = []
  keys ((k, v) ∷ m) = k ∷ keys m

  pub get-put :
      (k j : String) (v : V) (m : Dict V) → get j (put k v m) ≡ (if k == j then some v else get j m)
  unfolding get put
  get-put k j v [] = refl
  get-put k j v ((i, w) ∷ m) = ground (arith, eq_iff k j, eq_iff i k, eq_iff i j, get-put k j v m)

  pub get-put-same : (k : String) (v : V) (m : Dict V) → get k (put k v m) ≡ some v
  get-put-same k v m = ground (arith, get-put k k v m, eq_iff k k)

  pub get-put-other : (k j : String) (v : V) (m : Dict V) → k ≢ j → get j (put k v m) ≡ get j m
  get-put-other k j v m other = ground (arith, get-put k j v m, eq_iff k j)

  pub get-remove :
      (k j : String) (m : Dict V) → get j (remove k m) ≡ (if k == j then none else get j m)
  unfolding get remove
  get-remove k j [] = ground arith
  get-remove k j ((i, v) ∷ m) = ground (arith, get-remove k j m, eq_iff i k, eq_iff i j, eq_iff k j)

pub ruleset dict_laws = (get-put, get-remove)

-- The value of a `map[string]bool` at a key: false where the key is missing.
abbrev pub value_or_false : Option Bool → Bool
value_or_false none = false
value_or_false (some b) = b

-- m[k] of a `map[string]bool`
abbrev pub flag : String → Dict Bool → Bool
flag k m = value_or_false (get k m)

-- _, ok := m[k]
abbrev pub has {ℓ} : {V : Type ℓ} → String → Dict V → Bool
has k m = elim (get k m) [ none ↦ false | some v ↦ true ]

-- for _, k := range ks { m[k] = true }
unfoldable pub mark : List String → Dict Bool → Dict Bool
mark [] m = m
mark (k ∷ ks) m = mark ks (put k true m)

-- for _, k := range ks { delete(m, k) }
unfoldable pub remove_all {ℓ} : {V : Type ℓ} → List String → Dict V → Dict V
remove_all [] m = m
remove_all (k ∷ ks) m = remove_all ks (remove k m)

pub get-mark :
    (ks : List String) (j : String) (m : Dict Bool)
    → get j (mark ks m) ≡ (if contains j ks then some true else get j m)
unfolding mark
get-mark [] j m = refl
get-mark (k ∷ ks) j m = ground (arith, get-mark ks j (put k true m), get-put k j true m)

pub get-remove_all {ℓ} :
    {V : Type ℓ} (ks : List String) (j : String) (m : Dict V)
    → get j (remove_all ks m) ≡ (if contains j ks then none else get j m)
unfolding remove_all
get-remove_all [] j m = refl
get-remove_all (k ∷ ks) j m = ground (arith, get-remove_all ks j (remove k m), get-remove k j m)

-- A `map[string]bool` whose keys are those of a list.
abbrev pub set_of : List String → Dict Bool
set_of ks = mark ks []

pub get-set_of :
    (ks : List String) (j : String)
    → get j (set_of ks) ≡ (if contains j ks then some true else none)
unfolding get
get-set_of ks j = get-mark ks j []

pub contains-keys {ℓ} : {V : Type ℓ} (j : String) (m : Dict V) → contains j (keys m) ≡ has j m
unfolding keys get
contains-keys j [] = refl
contains-keys j ((k, v) ∷ m) = ground (arith, contains-keys j m)

-- No key stands twice, as in any map of Go.
abbrev pub IsDistinct {ℓ} : {V : Type ℓ} → Dict V → Type 0
IsDistinct [] = Unit
IsDistinct ((k, v) ∷ m) = (has k m ≡ false) × IsDistinct m

module _ {ℓ} {V : Type ℓ} where
  pub IsDistinct-put : (k : String) (v : V) (m : Dict V) → IsDistinct m → IsDistinct (put k v m)
  unfolding put get
  IsDistinct-put k v [] h = (refl, tt)
  IsDistinct-put k v ((j, w) ∷ m) h =
      ground (arith, eq_iff j k, eq_iff k j, get-put k j v m, IsDistinct-put k v m h.1)

  pub IsDistinct-remove : (k : String) (m : Dict V) → IsDistinct m → IsDistinct (remove k m)
  unfolding remove
  IsDistinct-remove k [] h = tt
  IsDistinct-remove k ((j, w) ∷ m) h = ground (arith, get-remove k j m, IsDistinct-remove k m h.1)

  pub IsDistinct-remove_all :
      (ks : List String) (m : Dict V) → IsDistinct m → IsDistinct (remove_all ks m)
  unfolding remove_all
  IsDistinct-remove_all [] m h = h
  IsDistinct-remove_all (k ∷ ks) m h =
      IsDistinct-remove_all ks (remove k m) (IsDistinct-remove k m h)
