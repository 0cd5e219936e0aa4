-- ===== src/Printf.antt =====
-- The text that sprintf makes of a command: `%d`, `%ld`, `%u`, `%s` and `%%`, as far as the driver
-- prints them into a buffer of its own.
pub mod Digits
pub mod Again
use bg96_driver.Prelude.{
  ℕ, zero, suc, ◌+◌, ◌/◌, ◌%◌, ℤ, pos, negsuc, List, [], ◌∷◌, ◌++◌, ◌≡◌, refl, ◌==◌, ltb, true,
  false, CStr, c_str,
}
use bg96_driver.At.{Arg, Command, int, text}

-- The digits of `n` before `out`, in at most `rounds` rounds.
unfoldable pub put_digits : ℕ → ℕ → CStr → CStr
put_digits zero n out = out
put_digits (suc rounds) n out = elim (ltb n 10) [
  | true ↦ (b'0' + n) ∷ out
  | false ↦ put_digits rounds (n / 10) ((b'0' + n % 10) ∷ out)
]

-- A round for each digit is enough, and `n` has no more of them than itself, but for 0.
abbrev pub digits : ℕ → CStr
digits n = put_digits (suc n) n []

abbrev pub decimal : ℤ → CStr
decimal (pos n) = digits n
decimal (negsuc n) = b'-' ∷ digits (suc n)

abbrev pub printed : Arg → CStr
printed (int n) = decimal n
printed (text t) = t

-- Where the scan of the format stands.
pub data Mode : Type 0 where
  verbatim conversion : Mode

-- A conversion without an argument is undefined; here it prints nothing.
unfoldable pub print : Mode → CStr → List Arg → CStr
print verbatim [] args = []
print verbatim (x ∷ f) args = elim (x == b'%') [
  | true ↦ print conversion f args
  | false ↦ x ∷ print verbatim f args
]
print conversion [] args = []
print conversion (x ∷ f) [] = elim (x == b'%') [
  | true ↦ x ∷ print verbatim f []
  | false ↦ print verbatim f []
]
print conversion (x ∷ f) (a ∷ args) = elim (x == b'%') [
  | true ↦ x ∷ print verbatim f (a ∷ args)
  | false ↦ elim (x == b'l') [
    | true ↦ print conversion f (a ∷ args)
    | false ↦ printed a ++ print verbatim f args
  ]
]

abbrev pub sprintf : Command → CStr
sprintf cmd = print verbatim (c_str cmd.format) cmd.args

printed_command :
    sprintf (record { format = "+QIOPEN: %d,%%d"; args = int (pos 12) ∷ [] })
    ≡ c_str "+QIOPEN: 12,%d"
unfolding print put_digits
printed_command = refl

printed_numbers :
    sprintf (record { format = "AT+QISEND=%d,%ld"; args = int (negsuc 0) ∷ int (pos 1500) ∷ [] })
    ≡ c_str "AT+QISEND=-1,1500"
unfolding print put_digits
printed_numbers = refl
