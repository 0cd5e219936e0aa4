-- ===== src/Printf/Again.antt =====
-- A text that is used as a format itself.
use bg96_driver.Prelude.{
  ℕ, zero, suc, ◌+◌, ◌/◌, ◌%◌, ◌≡◌, refl, arith, ℤ, pos, negsuc, false, [], ◌∷◌, ◌++◌, elem, CStr,
}
use bg96_driver.At.{Command}
use bg96_driver.Printf.{print, sprintf, verbatim, put_digits, decimal}

-- It has no `%`.
abbrev pub IsPlain : CStr → Type 0
IsPlain s = elem b'%' s ≡ false

-- What is printed for the command is printed again without a change.
abbrev pub IsStable : Command → Type 0
IsStable cmd = print verbatim (sprintf cmd) [] ≡ sprintf cmd

pub print-IsPlain : (s : CStr) → IsPlain s → print verbatim s [] ≡ s
unfolding print
print-IsPlain [] h = refl
print-IsPlain (x ∷ s) h = ground (arith, print-IsPlain s)

pub IsPlain-append : (s t : CStr) → IsPlain s → IsPlain t → IsPlain (s ++ t)
IsPlain-append [] t h k = k
IsPlain-append (x ∷ s) t h k = ground (arith, IsPlain-append s t)

put_digits-IsPlain : (rounds n : ℕ) (out : CStr) → IsPlain out → IsPlain (put_digits rounds n out)
unfolding put_digits
put_digits-IsPlain zero n out h = h
put_digits-IsPlain (suc rounds) n out h =
    ground (arith, put_digits-IsPlain rounds (n / 10) ((b'0' + n % 10) ∷ out))

pub decimal-IsPlain : (n : ℤ) → IsPlain (decimal n)
decimal-IsPlain (pos n) = put_digits-IsPlain (suc n) n [] refl
decimal-IsPlain (negsuc n) = put_digits-IsPlain (suc (suc n)) (suc n) [] refl
