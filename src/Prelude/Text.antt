-- ===== src/Prelude/Text.antt =====
-- The functions of Go's strings package that the services call.
use Prim.Native.Char.{code}
use Prim.Native.Nat.{ℕ, Ordering}
use Prim.Native.String.{String}
use mathlib.Core.Path.{◌≡◌, refl}
use mathlib.Core.Bool.{Bool, true, false, ◌&&◌, ◌||◌}
use mathlib.Core.List.{List, [], ◌∷◌}
use stripe_payment_integrati.Prelude.{leb, eqb, ◌==◌, if◌then◌else◌}
use Prim.Native.String as S

-- unicode.IsSpace
abbrev is_space : ℕ → Bool
is_space c =
    (leb 9 c && leb c 13)
    || eqb c 32
    || eqb c 133
    || eqb c 160
    || eqb c 5760
    || (leb 8192 c && leb c 8202)
    || eqb c 8232
    || eqb c 8233
    || eqb c 8239
    || eqb c 8287
    || eqb c 12288

trim_left : String → String
trim_left String.[] = ""
trim_left (String.◌∷◌ c s) =
    let rest = trim_left s in if is_space (code c) then rest else String.◌∷◌ c s

-- A space is dropped when nothing but spaces follows it.
trim_right : String → String
trim_right String.[] = ""
trim_right (String.◌∷◌ c s) =
    let rest = trim_right s in if is_space (code c) && (rest == "") then "" else String.◌∷◌ c rest

unfoldable pub trim_space : String → String
unfolding trim_left trim_right
trim_space s = trim_right (trim_left s)

trims : trim_space " \t a b " ≡ "a b"
unfolding trim_space
trims = refl

codes : String → List ℕ
codes String.[] = []
codes (String.◌∷◌ c s) = code c ∷ codes s

fold_equal : (ℕ → ℕ) → List ℕ → List ℕ → Bool
fold_equal fold [] [] = true
fold_equal fold (a ∷ s) (b ∷ t) = eqb (fold a) (fold b) && fold_equal fold s t
fold_equal fold _ _ = false

-- strings.EqualFold, over the table of Unicode's simple case folding: `fold` takes a code point to
-- the least one in its orbit of unicode.SimpleFold.
unfoldable pub equal_fold : (ℕ → ℕ) → String → String → Bool
unfolding codes fold_equal
equal_fold fold s t = fold_equal fold (codes s) (codes t)

unfoldable pub concat : String → String → String
concat s t = S.◌++◌ s t

-- len of a string: its bytes
abbrev pub len : String → ℕ
len s = S.len s

abbrev pub ltb_text : String → String → Bool
ltb_text s t = elim (S.compare s t) [ Ordering.lt ↦ true | _ ↦ false ]

-- strings.TrimRight(s, "/")
unfoldable pub trim_slashes : String → String
trim_slashes String.[] = ""
trim_slashes (String.◌∷◌ c s) =
    let rest = trim_slashes s in if eqb (code c) 47 && (rest == "") then "" else String.◌∷◌ c rest
