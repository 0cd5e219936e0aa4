-- ===== src/Driver/Info.antt =====
-- BG96/BG96.cpp: the revision, the MAC address, the time, and the position.
pub mod Mac
use bg96_driver.Prelude.{
  ℕ, zero, suc, ℤ, pos, negsuc, false, Option, none, some, List, [], ◌∷◌, ◌++◌, if◌then◌else◌,
  as_u32, ◌%◌, CStr, c_str,
}
use bg96_driver.Prelude.State.{St, pure, ◌>>=◌, ◌>>◌}
use bg96_driver.Prelude.Partial
use bg96_driver.Prelude.Partial.{Partial}
use bg96_driver.At.{
  AtParser, Arg, as_int_or, Bg96, values_ok, parser_values, parser_send, lock, unlock, set_timeout,
  plain, int_at, text_at,
}
use bg96_driver.Driver.Network.{tx2bg96}

-- `sn[i] = c`; `none` where the write is outside of the array.
abbrev pub put_char : ℕ → ℕ → List ℕ → Option (List ℕ)
put_char i c [] = none
put_char zero c (x ∷ sn) = some (c ∷ sn)
put_char (suc i) c (x ∷ sn) = elim (put_char i c sn) [ none ↦ none | some r ↦ some (x ∷ r) ]

abbrev pub char_of : Arg → ℕ
char_of v = as_u32 (as_int_or (pos 0) (some v)) % 256

-- The characters that `%c` conversions read, stored at the given indices in turn.
unfoldable pub put_chars : List ℕ → List Arg → List ℕ → Option (List ℕ)
put_chars [] vs sn = some sn
put_chars (i ∷ is) [] sn = some sn
put_chars (i ∷ is) (v ∷ vs) sn = elim (put_char i (char_of v) sn) [
  | none ↦ none
  | some sn' ↦ put_chars is vs sn'
]

-- The indices that the reply is stored at, from its first character on.
abbrev pub mac_indices : List ℕ
mac_indices =
    26 ∷ 25 ∷ 24 ∷ 23 ∷ 22 ∷ 21 ∷ 19 ∷ 18 ∷ 16 ∷ 15 ∷ 13 ∷ 12 ∷ 10 ∷ 9 ∷ 7 ∷ 6 ∷ 4 ∷ 3 ∷ 1 ∷ 0 ∷ []

-- One character at each of the indices.
unfoldable pub put_each : ℕ → List ℕ → List ℕ → Option (List ℕ)
put_each c [] sn = some sn
put_each c (i ∷ is) sn = elim (put_char i c sn) [ none ↦ none | some sn' ↦ put_each c is sn' ]

-- What getMACAddress makes of the reply.
unfoldable pub mac_text : List Arg → List ℕ → Option (List ℕ)
unfolding put_chars put_each
mac_text vs sn = elim (put_chars mac_indices vs sn) [
  | none ↦ none
  | some sn₁ ↦ elim (put_each b':' (17 ∷ 14 ∷ 11 ∷ 8 ∷ 5 ∷ 2 ∷ []) sn₁) [
    | none ↦ none
    | some sn₂ ↦ put_char 20 0 sn₂
  ]
]

module _ {D : Type 0} (io : AtParser D) where
  -- BG96::getRev; the text that it prints into `combined`, or null.
  unfoldable pub get_rev : St (Bg96 D) (Option CStr)
  unfolding tx2bg96
  get_rev = do
    lock
    echo ← tx2bg96 io (plain "AT+CGMM")
    model ← if echo then values_ok io (plain "%s\n") else pure (false, [])
    sent ← if model.0 then parser_send io (plain "AT+CGMR") else pure false
    revision ← if sent then values_ok io (plain "%s\n") else pure (false, [])
    unlock
    pure (
        if revision.0
        then some (text_at 0 [] model.1 ++ c_str " Rev:" ++ text_at 0 [] revision.1)
        else none)

  -- BG96::getMACAddress of an array `sn`.
  unfoldable pub get_mac_address : List ℕ → Partial (Bg96 D) (List ℕ)
  get_mac_address sn b =
      let (sent, b₁) = parser_send io (plain "AT+QCCID") (lock b).1 in
      let ((found, vs), b₂) =
        parser_values io (plain "+QCCID: %c%c%c%c%c%c%c%c%c%c%c%c%c%c%c%c%c%c%c%c") b₁ in
      if sent
      then elim (mac_text vs sn) [ none ↦ none | some sn' ↦ some (sn', (unlock b₂).1) ]
      else some (sn, (unlock b₁).1)

  unfoldable pub is_gnss_on : St (Bg96 D) ℤ
  is_gnss_on = do
    lock
    set_timeout 1000
    sent ← parser_send io (plain "AT+QGPS?")
    reply ← if sent then parser_values io (plain "+QGPS: %d") else pure (false, [])
    set_timeout 1000
    unlock
    pure (if reply.0 then int_at 0 (pos 0) reply.1 else negsuc 0)

  -- BG96::getLatesSyncTime: the result, and `gmttime` and `dst` as they are left; `scan` gives the
  -- values that the conversions of `sscanf(time, "%22s,%d", ...)` read of a text.
  unfoldable pub get_lates_sync_time : (CStr → List Arg) → CStr → ℤ → St (Bg96 D) (ℤ × CStr × ℤ)
  get_lates_sync_time scan gmttime dst = do
    lock
    set_timeout 2000
    sent ← parser_send io (plain "AT+QLTS=1")
    reply ← if sent then values_ok io (plain "+QLTS: \"%[^\"]\"") else pure (false, [])
    set_timeout 1000
    unlock
    let read = scan (text_at 0 [] reply.1)
    pure (
        if reply.0
        then (pos 0, text_at 0 gmttime read, int_at 1 dst read)
        else (negsuc 0, gmttime, dst))
