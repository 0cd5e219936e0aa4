-- ===== src/Printf/Digits.antt =====
-- The digits that are printed for a number.
use bg96_driver.Prelude.{
  ℕ, zero, suc, ◌+◌, ◌-◌, ◌*◌, ◌/◌, ◌%◌, ◌≤◌, ◌<◌, ◌≡◌, arith, ℤ, pos, negsuc, [], ◌∷◌, length,
  CStr,
}
use bg96_driver.Printf.{put_digits, digits, decimal}

-- Horner's rule: the number that digits stand for, after `n`.
abbrev value : CStr → ℕ → ℕ
value [] n = n
value (c ∷ s) n = value s (n * 10 + (c - b'0'))

value-put_digits :
    (rounds n : ℕ) (out : CStr) → n < rounds → value (put_digits rounds n out) 0 ≡ value out n
unfolding put_digits
value-put_digits zero n out h = absurd (omega arith)
value-put_digits (suc rounds) n out h =
    ground (arith, value-put_digits rounds (n / 10) ((b'0' + n % 10) ∷ out))

-- The rounds are enough: the digits stand for the number.
value-digits : (n : ℕ) → value (digits n) 0 ≡ n
value-digits n = value-put_digits (suc n) n [] (omega arith)

-- 10 to the power of `k`
power : ℕ → ℕ
power zero = 1
power (suc k) = 10 * power k

length-put_digits :
    (k rounds n : ℕ) (out : CStr)
    → n < power (suc k)
    → length (put_digits rounds n out) ≤ suc k + length out
unfolding put_digits power
length-put_digits k zero n out h = omega arith
length-put_digits zero (suc rounds) n out h = ground arith
length-put_digits (suc k) (suc rounds) n out h =
    ground (arith, length-put_digits k rounds (n / 10) ((b'0' + n % 10) ∷ out))

put_digits-le : (rounds n : ℕ) (out : CStr) → length out ≤ length (put_digits rounds n out)
unfolding put_digits
put_digits-le zero n out = omega arith
put_digits-le (suc rounds) n out =
    ground (arith, put_digits-le rounds (n / 10) ((b'0' + n % 10) ∷ out))

-- An int.
abbrev pub IsInt : ℤ → Type 0
IsInt (pos n) = n < 2147483648
IsInt (negsuc n) = n < 2147483648

-- An int is printed in at most 11 characters.
pub length-decimal : (n : ℤ) → IsInt n → length (decimal n) ≤ 11
unfolding power
length-decimal (pos n) h = omega (arith, length-put_digits 9 (suc n) n [] (omega arith))
length-decimal (negsuc n) h =
    omega (arith, length-put_digits 9 (suc (suc n)) (suc n) [] (omega arith))

-- A number below 100 is printed in at most two.
pub length-two_digits : (n : ℕ) → n < 100 → length (decimal (pos n)) ≤ 2
unfolding power
length-two_digits n h = omega (arith, length-put_digits 1 (suc n) n [] (omega arith))

first_digit : (rounds n : ℕ) → 0 < length (put_digits (suc rounds) n [])
unfolding put_digits
first_digit rounds n = ground (arith, put_digits-le rounds (n / 10) ((b'0' + n % 10) ∷ []))

-- And in at least one.
pub decimal-pos : (n : ℤ) → 0 < length (decimal n)
decimal-pos (pos n) = first_digit n n
decimal-pos (negsuc n) = omega arith
