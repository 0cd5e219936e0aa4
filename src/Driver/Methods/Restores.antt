-- ===== src/Driver/Methods/Restores.antt =====
-- What every method of `Method` keeps: the mutex, the context and the pins.
use bg96_driver.Prelude.{
  ℕ, zero, suc, ℤ, CStr, Bool, true, false, ◌≡◌, refl, arith, ◌⊎◌, List, [], ◌∷◌,
}
use bg96_driver.At.{AtParser, Bg96}
use bg96_driver.Driver.Methods.{Method, invoke, bg96_send, fs_read, fs_download_file, resolve_url}
use bg96_driver.Driver.Files.{get_all}
use bg96_driver.Driver.Network.{discard_addresses, read_answer, first_address, await_answer}

-- The mutex is held as often as before, the timeout is the old one or BG96_AT_TIMEOUT, and context
-- and pins are untouched.
pub record Restores {D : Type 0} (s t : Bg96 D) : Type 0 where
  pub locks : t.locks ≡ s.locks
  pub timeout : (t.timeout ≡ s.timeout) ⊎ (t.timeout ≡ 1000)
  pub context_id : t.context_id ≡ s.context_id
  pub bg96_reset : t.bg96_reset ≡ s.bg96_reset
  pub vbat_3v8_en : t.vbat_3v8_en ≡ s.vbat_3v8_en
  pub bg96_pwrkey : t.bg96_pwrkey ≡ s.bg96_pwrkey

-- A loop of parser calls touches the device only.
abbrev SameButDev : {D : Type 0} → Bg96 D → Bg96 D → Type 0
SameButDev {D} s t = t ≡ record s { dev = t.dev }

module _ {D : Type 0} (io : AtParser D) where
  get_all-dev : (n : ℕ) (s : Bg96 D) → SameButDev s (get_all io n s).1
  unfolding get_all
  get_all-dev zero s = refl
  get_all-dev (suc n) s = get_all-dev n _

  discard_addresses-dev : (n : ℕ) (s : Bg96 D) → SameButDev s (discard_addresses io n s).1
  unfolding discard_addresses
  discard_addresses-dev zero s = refl
  discard_addresses-dev (suc n) s = discard_addresses-dev n _

  -- So does the scan of a name server's answer, but for the timeout.
  read_answer-dev :
      (answer : List ℤ) (s : Bg96 D)
      → let t = (read_answer io answer s).1 in t ≡ record s { dev = t.dev; timeout = t.timeout }
  unfolding read_answer first_address
  read_answer-dev [] s = refl
  read_answer-dev (a ∷ []) s = refl
  read_answer-dev (a ∷ b ∷ []) s = refl
  read_answer-dev (a ∷ b ∷ c ∷ r) s = grind (arith, discard_addresses-dev)

  await_answer-dev :
      (numbers : CStr → List ℤ) (ok : Bool) (s : Bg96 D)
      → let t = (await_answer io numbers ok s).1 in
        t ≡ record s { dev = t.dev; timeout = t.timeout }
  unfolding await_answer
  await_answer-dev numbers false s = refl
  await_answer-dev numbers true s = grind (arith, read_answer-dev)

  -- Each method of `Method`, on every path: it gives the mutex back as often as it takes it, leaves
  -- the parser's timeout as it was or at BG96_AT_TIMEOUT, and leaves the context and the pins alone.
  pub invoke-Restores : (m : Method) (s : Bg96 D) → Restores s (invoke io m s)
  unfolding invoke
  invoke-Restores (bg96_send a b c) s = ground arith
  invoke-Restores (fs_read a n) s = grind (arith, get_all-dev)
  invoke-Restores (fs_download_file a n b) s = grind (arith, get_all-dev)
  invoke-Restores (resolve_url f a) s = grind (arith, await_answer-dev)
  invoke-Restores _ s = ground arith
