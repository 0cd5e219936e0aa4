-- ===== src/Tests/Setup.antt =====
-- Positions, addresses, options and TLS sockets on concrete modems.
use bg96_driver.Prelude.{ℕ, ◌≡◌, refl, arith, pos, true, none, [], ◌∷◌}
use bg96_driver.At.{int}
use bg96_driver.Driver.Info.{get_mac_address}
use bg96_driver.Driver.Info.Mac.{get_mac_address-overflows}
use bg96_driver.Driver.Power.{start_gnss}
use bg96_driver.Gnss.{
  GnssLoc, Library, Memory, Locator, attempt_fix, update_gnss_loc, get_gnss_location,
}
use bg96_driver.Gnss.Fix.{after, started, get_gnss_location-first}
use bg96_driver.Interface.Setup.{connect_default}
use bg96_driver.Interface.Setup.Start.{connect_default-silent}
use bg96_driver.Tests.Fixtures.{zeros, silent, answering, at_rest, none_open}

get_mac_address-overflows_example : get_mac_address answering (zeros 25) at_rest ≡ none
get_mac_address-overflows_example =
    get_mac_address-overflows answering (int (pos 0)) [] (λ t d. refl) (λ t d. refl) (zeros 25)
      at_rest (omega arith)

-- Positions whose numbers are natural numbers, and a text with none of them.
abbrev nowhere : GnssLoc ℕ
nowhere = record {
  gnssutctime = pos 0;
  latitude = 0;
  longitude = 0;
  hdop = 0;
  altitude = 0;
  fix = pos 0;
  degrees = pos 0;
  minutes = pos 0;
  spkm = 0;
  spkn = 0;
  nsat = pos 0;
}

abbrev library : Library ℕ
library = record { scan = λ text. []; make_time = λ t. none }

abbrev memory : Memory ℕ
memory = record {
  loc = record nowhere { latitude = 54 };
  time = record { hour = pos 0; min = pos 0; sec = pos 0; mday = pos 0; mon = pos 0; year = pos 0 };
  cogdeg = pos 0;
  cogmin = pos 0;
  shortyear = pos 0;
}

abbrev locator : Locator ℕ ℕ
locator = record { bg96 = at_rest; gnss_loc = nowhere }

answered :
    (attempt_fix answering library memory
      (after answering library memory 0 (started answering library memory locator))).0
    ≡ true
unfolding after attempt_fix update_gnss_loc start_gnss
answered = refl

begun : (start_gnss answering at_rest).0 ≡ true
unfolding start_gnss
begun = refl

get_gnss_location-first_example :
    (get_gnss_location answering library memory nowhere locator).0
    ≡ (true, (after answering library memory 1 (started answering library memory locator)).gnss_loc)
get_gnss_location-first_example =
    get_gnss_location-first answering library memory 0 nowhere locator begun
      (λ j lt. absurd (omega arith)) answered (omega arith)

connect_default-silent_example :
    connect_default silent 100 (pos 0) (b'T' ∷ b'M' ∷ []) [] none_open ≡ none
connect_default-silent_example =
    connect_default-silent silent (λ t c d. refl) 100 (pos 0) (b'T' ∷ b'M' ∷ []) [] none_open
