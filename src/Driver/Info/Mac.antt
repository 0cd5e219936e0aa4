-- ===== src/Driver/Info/Mac.antt =====
-- BG96/BG96.cpp, getMACAddress: the size of the array that it writes to.
use mathlib.Core.Path.{subst}
use bg96_driver.Prelude.{
  ℕ, zero, suc, ◌<◌, ◌≤◌, ◌≡◌, refl, sym, ◌∙◌, arith, true, Option, none, some, List, [], ◌∷◌,
  length,
}
use bg96_driver.At.{AtParser, Arg, Bg96, plain, lock, parser_send, parser_values}
use bg96_driver.Driver.Info.{
  put_char, char_of, put_chars, put_each, mac_indices, mac_text, get_mac_address,
}

-- The result is there, and as long as `sn`.
abbrev Fits : List ℕ → Option (List ℕ) → Type 0
Fits sn r = (sn' : List ℕ) × (r ≡ some sn') × (length sn' ≡ length sn)

put_char-Fits : (i c : ℕ) (sn : List ℕ) → i < length sn → Fits sn (put_char i c sn)
put_char-Fits i c [] lt = absurd (omega arith)
put_char-Fits zero c (x ∷ sn) lt = (c ∷ sn, refl, refl)
put_char-Fits (suc i) c (x ∷ sn) lt =
    let (r, e, l) = put_char-Fits i c sn (omega arith) in (x ∷ r, ground arith, omega arith)

put_char-none : (i c : ℕ) (sn : List ℕ) → length sn ≤ i → put_char i c sn ≡ none
put_char-none i c [] le = refl
put_char-none zero c (x ∷ sn) le = absurd (omega arith)
put_char-none (suc i) c (x ∷ sn) le = ground (arith, put_char-none i c sn (omega arith))

-- Every index is below `n`.
abbrev Below : ℕ → List ℕ → Type 0
Below n [] = Unit {0}
Below n (i ∷ is) = (i < n) × Below n is

put_chars-Fits :
    (is : List ℕ) (vs : List Arg) (sn : List ℕ)
    → Below (length sn) is
    → Fits sn (put_chars is vs sn)
unfolding put_chars
put_chars-Fits [] vs sn b = (sn, refl, refl)
put_chars-Fits (i ∷ is) [] sn b = (sn, refl, refl)
put_chars-Fits (i ∷ is) (v ∷ vs) sn (lt, b) =
    let (r, e, l) = put_char-Fits i (char_of v) sn lt in
    let (r', e', l') = put_chars-Fits is vs r (subst (λ n. Below n is) (sym l) b) in
    (r', ground (arith, e, e'), l' ∙ l)

put_each-Fits :
    (c : ℕ) (is : List ℕ) (sn : List ℕ) → Below (length sn) is → Fits sn (put_each c is sn)
unfolding put_each
put_each-Fits c [] sn b = (sn, refl, refl)
put_each-Fits c (i ∷ is) sn (lt, b) =
    let (r, e, l) = put_char-Fits i c sn lt in
    let (r', e', l') = put_each-Fits c is r (subst (λ n. Below n is) (sym l) b) in
    (r', ground (arith, e, e'), l' ∙ l)

Below-mono : (m n : ℕ) (is : List ℕ) → m ≤ n → Below m is → Below n is
Below-mono m n [] le b = tt
Below-mono m n (i ∷ is) le (lt, b) = (omega arith, Below-mono m n is le b)

mac_indices-Below : Below 27 mac_indices
mac_indices-Below = ground arith

mac_text-Fits : (vs : List Arg) (sn : List ℕ) → 27 ≤ length sn → Fits sn (mac_text vs sn)
unfolding mac_text
mac_text-Fits vs sn le =
    let (r, e, l) =
      put_chars-Fits mac_indices vs sn
        (Below-mono 27 (length sn) mac_indices le mac_indices-Below) in
    let (r', e', l') =
      put_each-Fits b':' (17 ∷ 14 ∷ 11 ∷ 8 ∷ 5 ∷ 2 ∷ []) r
        (Below-mono 27 (length r) (17 ∷ 14 ∷ 11 ∷ 8 ∷ 5 ∷ 2 ∷ []) (omega arith) (ground arith)) in
    let (r'', e'', l'') = put_char-Fits 20 0 r' (omega arith) in
    (r'', ground (arith, e, e', e''), l'' ∙ l' ∙ l)

mac_text-none :
    (v : Arg) (vs : List Arg) (sn : List ℕ) → length sn ≤ 26 → mac_text (v ∷ vs) sn ≡ none
unfolding mac_text put_chars
mac_text-none v vs sn le = rw (mac_text, put_char-none 26 (char_of v) sn le) refl

-- The length of the array that a call leaves, if it returns.
abbrev pub length_after : {B : Type 0} → Option (List ℕ × B) → Option ℕ
length_after none = none
length_after (some (sn, b)) = some (length sn)

module _ {D : Type 0} (io : AtParser D) where
  open io use {send, recv}

  -- An array of 27 characters or more is large enough for getMACAddress, whatever the modem answers.
  get_mac_address-fits :
      (sn : List ℕ) (b : Bg96 D)
      → 27 ≤ length sn
      → length_after (get_mac_address io sn b) ≡ some (length sn)
  unfolding get_mac_address
  get_mac_address-fits sn b le =
      let ((found, vs), b₂) =
        parser_values io (plain "+QCCID: %c%c%c%c%c%c%c%c%c%c%c%c%c%c%c%c%c%c%c%c")
          (parser_send io (plain "AT+QCCID") (lock b).1).1 in
      let (sn', e, l) = mac_text-Fits vs sn le in ground (arith, e, l)

  -- One of 26 or fewer, as the 25 of BG96Interface::get_mac_address, is not: if the modem answers
  -- with at least one character, getMACAddress writes behind the array.
  pub get_mac_address-overflows :
      (v : Arg) (vs : List Arg)
      → ((t : ℕ) (d : D) → (send t (plain "AT+QCCID") d).0 ≡ true)
      → ((t : ℕ) (d : D)
          → (recv t (plain "+QCCID: %c%c%c%c%c%c%c%c%c%c%c%c%c%c%c%c%c%c%c%c") d).0 ≡ some (v ∷ vs))
      → (sn : List ℕ) (b : Bg96 D) → length sn ≤ 26
      → get_mac_address io sn b ≡ none
  unfolding get_mac_address
  get_mac_address-overflows v vs sends answers sn b le =
      grind (arith, sends, answers, mac_text-none v vs sn le)
