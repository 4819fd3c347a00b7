-- ===== src/Prelude/Distinct.antt =====
-- Lists of ids in which no id stands twice.
use Prim.Native.String.{String}
use mathlib.Core.Path.{◌≡◌, refl}
use mathlib.Core.Bool.{Bool, false}
use mathlib.Core.List.{List, [], ◌∷◌, ◌++◌}
use native.Mathlib.Omega.{arith}
use text.Mathlib.Text.{◌==◌}
use text.Mathlib.TextEquality.{eq_iff}
use combox_backend.Prelude.Lists.{any, any-append}

abbrev pub among_ids : String → List String → Bool
among_ids x ids = any (λ id. id == x) ids

-- No id stands twice.
abbrev pub NoRepeat : List String → Type 0
NoRepeat [] = Unit {0}
NoRepeat (x ∷ xs) = (among_ids x xs ≡ false) × NoRepeat xs

pub append-NoRepeat :
    (xs : List String) (x : String) → NoRepeat xs → among_ids x xs ≡ false → NoRepeat (xs ++ x ∷ [])
unfolding any
append-NoRepeat [] x h k = (refl, tt)
append-NoRepeat (y ∷ xs) x h k = ground (
  arith,
  any-append (λ id. id == y) xs (x ∷ []),
  append-NoRepeat xs x h.1,
  eq_iff x y,
  eq_iff y x,
)
