-- ===== src/Prelude/Text.antt =====
-- C strings: the bytes before the terminator.
use Prim.Native.Nat.{ℕ}
use Prim.Native.Char.{code}
use Prim.Native.String.{String}
use mathlib.Core.Path.{◌≡◌, refl}
use mathlib.Core.Bool.{Bool, true, false, ◌&&◌}
use mathlib.Core.List.{List, [], ◌∷◌}
use native.Mathlib.Omega.{arith}
use bg96_driver.Prelude.Tests.{◌==◌}

abbrev pub CStr : Type 0
CStr = List ℕ

-- A string literal.
abbrev pub c_str : String → CStr
c_str String.[] = []
c_str (String.◌∷◌ c s) = code c ∷ c_str s

-- `strcmp(a, b) == 0`
unfoldable pub strcmp_eq : CStr → CStr → Bool
strcmp_eq [] [] = true
strcmp_eq [] (y ∷ ys) = false
strcmp_eq (x ∷ xs) [] = false
strcmp_eq (x ∷ xs) (y ∷ ys) = x == y && strcmp_eq xs ys

pub strcmp_eq_refl : (a : CStr) → strcmp_eq a a ≡ true
unfolding strcmp_eq
strcmp_eq_refl [] = refl
strcmp_eq_refl (x ∷ xs) = ground (arith, strcmp_eq_refl xs)

pub eq_of_strcmp_eq : (a b : CStr) → strcmp_eq a b ≡ true → a ≡ b
unfolding strcmp_eq
eq_of_strcmp_eq [] [] h = refl
eq_of_strcmp_eq [] (y ∷ ys) h = ground arith
eq_of_strcmp_eq (x ∷ xs) [] h = ground arith
eq_of_strcmp_eq (x ∷ xs) (y ∷ ys) h = ground (arith, eq_of_strcmp_eq xs ys)
