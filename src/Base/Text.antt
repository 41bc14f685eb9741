-- ===== src/Base/Text.antt =====
-- The functions of Go's `strings` package that the program splits and joins its lists by.
use Prim.Native.Char.{Char, code}
use mathlib.Core.Option.{Option, none, some}
use Prim.Native.Nat.{ℕ}
use Prim.Native.String
use Prim.Native.String.{String}
use mathlib.Core.Path.{◌≡◌, refl, ap, ◌∙◌}
use mathlib.Core.Logic.{◌≢◌, inl, inr}
use mathlib.Core.Bool.{Bool, true, false}
use mathlib.Core.List.{List, [], ◌∷◌}
use native.Mathlib.Omega.{arith}
use text.Mathlib.TextLemmas.{nil-append, cons-append}
use text.Mathlib.TextEquality.{Char-path}
use lico.Base.Tests.{if◌then◌else◌, nat_eq, Bool-cases}
use lico.Base.Lists.{All}

abbrev pub space : String
space = " "

abbrev pub is_space : Char → Bool
is_space c = nat_eq (code c) b' '

abbrev push : Char → String → String
push c w = String.◌∷◌ c w

-- One more character in front of the first part.
abbrev grow : Char → List String → List String
grow c [] = push c "" ∷ []
grow c (w ∷ ws) = push c w ∷ ws

-- strings.Split(s, " ")
unfoldable pub split : String → List String
split String.[] = String.[] ∷ []
split (String.◌∷◌ c s) = if is_space c then String.[] ∷ split s else grow c (split s)

-- strings.Join(parts, " ")
unfoldable pub join : List String → String
join [] = String.[]
join (w ∷ []) = w
join (w ∷ v ∷ ws) = String.◌++◌ w (String.◌++◌ space (join (v ∷ ws)))

-- A part that holds no space.
abbrev pub IsWord : String → Type 0
IsWord String.[] = Unit
IsWord (String.◌∷◌ c s) = (is_space c ≡ false) × IsWord s

split-ne-nil : (s : String) → split s ≢ []
unfolding split
split-ne-nil String.[] = cc
split-ne-nil (String.◌∷◌ c s) = ground (arith, split-ne-nil s)

-- Splitting what was joined gives the parts back.
split-prepend :
    (w s : String) → IsWord w → split (String.◌++◌ w (String.◌++◌ space s)) ≡ w ∷ split s
unfolding split
split-prepend String.[] s h = rw (nil-append, cons-append, nil-append)
split-prepend (String.◌∷◌ c w) s h = rw cons-append (ground (arith, split-prepend w s h.1))

split_of_IsWord : (w : String) → IsWord w → split w ≡ w ∷ []
unfolding split
split_of_IsWord String.[] h = refl
split_of_IsWord (String.◌∷◌ c w) h = ground (arith, split_of_IsWord w h.1)

pub split-join :
    (w : String) (ws : List String) → All IsWord (w ∷ ws) → split (join (w ∷ ws)) ≡ w ∷ ws
unfolding join
split-join w [] h = split_of_IsWord w h.0
split-join w (v ∷ ws) h =
    split-prepend w (join (v ∷ ws)) h.0 ∙ ap (λ r. w ∷ r) (split-join v ws h.1)

join-grow : (c : Char) (ws : List String) → join (grow c ws) ≡ push c (join ws)
unfolding join
join-grow c [] = refl
join-grow c (w ∷ []) = refl
join-grow c (w ∷ v ∷ ws) = rw cons-append

-- The space character.
space_of_code : (c : Char) → is_space c ≡ true → push c "" ≡ space
space_of_code c h = ap (λ d. push d "") (Char-path c _ (ground arith))

join-space :
    (c : Char) (ws : List String) → is_space c ≡ true → ws ≢ [] → join ("" ∷ ws) ≡ push c (join ws)
unfolding join
join-space c [] h k = absurd (k refl)
join-space c (w ∷ ws) h k = rw (nil-append, ← space_of_code c h, cons-append, nil-append)

-- Joining what was split gives the text back.
pub join-split : (s : String) → join (split s) ≡ s
unfolding split
join-split String.[] = unfold join in refl
join-split (String.◌∷◌ c s) = elim (Bool-cases (is_space c)) [
  | inl sep ↦ rw sep (cc (join-space c (split s) sep (split-ne-nil s), join-split s))
  | inr other ↦ rw other (cc (join-grow c (split s), join-split s))
]

-- strings.SplitN(s, sep, 2), for a separator of one character: the second part, if there is one
unfoldable pub cut : ℕ → String → String × Option String
cut sep String.[] = ("", none)
cut sep (String.◌∷◌ c s) =
    let (w, rest) = cut sep s in if nat_eq (code c) sep then ("", some s) else (push c w, rest)
