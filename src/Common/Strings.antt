-- ===== src/Common/Strings.antt =====
-- `strings.Join` and `strings.Split` of Go, for a separator of one character.
use Prim.Native.Nat.{ℕ}
use Prim.Native.Char.{Char, code}
use Prim.Native.String.{String, ◌++◌}
use text.Mathlib.TextLemmas.{nil-append, cons-append}
use mathlib.Core.Path.{◌≡◌, refl, ap}
use mathlib.Core.Bool.{true, false}
use mathlib.Core.List.{List, [], ◌∷◌}
use fabric_snaps.Common.Tests.{if◌then◌else◌, eqb}
use fabric_snaps.Common.Lists.{All}

-- `strings.Join(parts, sep)`
unfoldable pub join : List String → String → String
join [] sep = ""
join (p ∷ []) sep = p
join (p ∷ q ∷ ps) sep = p ++ (sep ++ join (q ∷ ps) sep)

-- Puts a character in front of the first part.
unfoldable pub extend : Char → List String → List String
extend c [] = String.◌∷◌ c String.[] ∷ []
extend c (p ∷ ps) = String.◌∷◌ c p ∷ ps

-- `strings.Split(s, sep)`, where `sep` is the character with this code
unfoldable pub split : String → ℕ → List String
unfolding extend
split String.[] sep = String.[] ∷ []
split (String.◌∷◌ c s) sep =
    let rest = split s sep in if eqb (code c) sep then String.[] ∷ rest else extend c rest

-- The text does not hold the character.
abbrev pub Lacks : ℕ → String → Type 0
Lacks sep String.[] = Unit
Lacks sep (String.◌∷◌ c s) = (eqb (code c) sep ≡ false) × Lacks sep s

pub split_part : (sep : ℕ) (p : String) → Lacks sep p → split p sep ≡ p ∷ []
unfolding split
split_part sep String.[] h = refl
split_part sep (String.◌∷◌ c s) h = rw (h.0, split_part sep s h.1)

-- A part ends at the separator.
pub split-append :
    (sep : ℕ) (d : Char) (p rest : String)
    → eqb (code d) sep ≡ true
    → Lacks sep p
    → split (p ++ (String.◌∷◌ d rest)) sep ≡ p ∷ split rest sep
unfolding split
split-append sep d String.[] rest e h = rw nil-append (rw e refl)
split-append sep d (String.◌∷◌ c s) rest e h =
    rw cons-append (rw (h.0, split-append sep d s rest e h.1) (unfold extend in refl))

-- Splitting a join gives the parts back, if there is a part and none holds the separator.
pub split-join :
    (sep : ℕ) (d : Char) (p : String) (ps : List String)
    → eqb (code d) sep ≡ true
    → All (Lacks sep) (p ∷ ps)
    → split (join (p ∷ ps) (String.◌∷◌ d String.[])) sep ≡ p ∷ ps
unfolding join
split-join sep d p [] e h = split_part sep p h.0
split-join sep d p (q ∷ ps) e h =
    rw (cons-append, nil-append, split-append sep d p _ e h.0)
      (ap (λ r. p ∷ r) (split-join sep d q ps e h.1))
