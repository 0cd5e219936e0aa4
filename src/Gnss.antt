-- ===== src/Gnss.antt =====
-- GNSS/GNSSLoc.h, GNSS/GNSSLoc.cpp: a position. BG96/BG96.cpp, BG96Interface.cpp: how it is found.
pub mod Fix
use bg96_driver.Prelude.{
  ℕ, zero, suc, ℤ, pos, ◌+ℤ◌, ◌-ℤ◌, Bool, true, false, Option, none, some, List, [], get_elem?,
  if◌then◌else◌, CStr,
}
use bg96_driver.Prelude.State.{St, pure, ◌>>=◌, ◌>>◌}
use bg96_driver.At.{
  AtParser, Bg96, parser_values, parser_send, lock, unlock, set_timeout, plain, text_at, wait_ms,
}
use bg96_driver.Driver.Power.{start_gnss, stop_gnss}

-- class GNSSLoc, with the class COG in `degrees` and `minutes`; `F` is the type `float`.
pub record GnssLoc (F : Type 0) : Type 0 where
  pub gnssutctime : ℤ
  pub latitude : F
  pub longitude : F
  pub hdop : F
  pub altitude : F
  pub fix : ℤ
  pub degrees : ℤ
  pub minutes : ℤ
  pub spkm : F
  pub spkn : F
  pub nsat : ℤ

-- GNSSLoc::GNSSLoc(const GNSSLoc &); `degrees` and `minutes` are the members of `cog`.
unfoldable pub copy_gnss_loc : {F : Type 0} → GnssLoc F → GnssLoc F
copy_gnss_loc loc = record {
  gnssutctime = loc.gnssutctime;
  latitude = loc.latitude;
  longitude = loc.longitude;
  hdop = loc.hdop;
  altitude = loc.altitude;
  fix = loc.fix;
  degrees = loc.degrees;
  minutes = loc.minutes;
  spkm = loc.spkm;
  spkn = loc.spkn;
  nsat = loc.nsat;
}

-- The members of `struct tm` that the constructor writes.
pub record Tm : Type 0 where
  pub hour : ℤ
  pub min : ℤ
  pub sec : ℤ
  pub mday : ℤ
  pub mon : ℤ
  pub year : ℤ

-- A value that a conversion of `sscanf` reads.
pub data Scanned (F : Type 0) : Type 0 where
  number : ℤ → Scanned F
  real : F → Scanned F

-- What the constructor takes from the C library and mbed OS: the values that the conversions of its
-- format read of a text, in order and as many as match, and `_rtc_maketime`, which gives no time for
-- a date that is out of range.
pub record Library (F : Type 0) : Type 0 where
  pub scan : CStr → List (Scanned F)
  pub make_time : Tm → Option ℤ

-- What the memory of a new object and of the constructor's local variables holds.
pub record Memory (F : Type 0) : Type 0 where
  pub loc : GnssLoc F
  pub time : Tm
  pub cogdeg : ℤ
  pub cogmin : ℤ
  pub shortyear : ℤ

abbrev pub number_or : {F : Type 0} → ℤ → Option (Scanned F) → ℤ
number_or v (some (number n)) = n
number_or v _ = v

abbrev pub real_or : {F : Type 0} → F → Option (Scanned F) → F
real_or v (some (real x)) = x
real_or v _ = v

module _ {F : Type 0} (lib : Library F) (m : Memory F) where
  open lib use {scan, make_time}

  abbrev number_at : ℕ → ℤ → CStr → ℤ
  number_at i v text = number_or v (get_elem? (scan text) i)

  abbrev real_at : ℕ → F → CStr → F
  real_at i v text = real_or v (get_elem? (scan text) i)

  unfoldable pub scanned_time : CStr → Tm
  scanned_time text = record {
    hour = number_at 0 m.time.hour text;
    min = number_at 1 m.time.min text;
    sec = number_at 2 m.time.sec text;
    mday = number_at 13 m.time.mday text;
    mon = number_at 14 m.time.mon text -ℤ pos 1;
    year = number_at 15 m.shortyear text +ℤ pos 100;
  }

  -- GNSSLoc::GNSSLoc(const char *)
  unfoldable pub new_gnss_loc : CStr → GnssLoc F
  unfolding scanned_time
  new_gnss_loc text = record {
    gnssutctime = elim (make_time (scanned_time text)) [ none ↦ m.loc.gnssutctime | some t ↦ t ];
    latitude = real_at 4 m.loc.latitude text;
    longitude = real_at 5 m.loc.longitude text;
    hdop = real_at 6 m.loc.hdop text;
    altitude = real_at 7 m.loc.altitude text;
    fix = number_at 8 m.loc.fix text;
    degrees = number_at 9 m.cogdeg text;
    minutes = number_at 10 m.cogmin text;
    spkm = real_at 11 m.loc.spkm text;
    spkn = real_at 12 m.loc.spkn text;
    nsat = number_at 16 m.loc.nsat text;
  }

-- BG96 with its member `_gnss_loc`.
pub record Locator (F D : Type 0) : Type 0 where
  pub bg96 : Bg96 D
  pub gnss_loc : GnssLoc F

module _ {F D : Type 0} where
  abbrev pub on_bg96 : {A : Type 0} → St (Bg96 D) A → St (Locator F D) A
  on_bg96 f s = let (a, b) = f s.bg96 in (a, record s { bg96 = b })

module _ {F D : Type 0} (io : AtParser D) (lib : Library F) (m : Memory F) where
  -- BG96::updateGNSSLoc
  unfoldable pub update_gnss_loc : St (Locator F D) Bool
  update_gnss_loc s =
      let ((done, text), b) = ask s.bg96 in
      (done, record s { bg96 = b; gnss_loc = if done then new_gnss_loc lib m text else s.gnss_loc })
    where
      ask : St (Bg96 D) (Bool × CStr)
      ask = do
        lock
        set_timeout 3000
        sent ← parser_send io (plain "AT+QGPSLOC=2")
        reply ← if sent then parser_values io (plain "+QGPSLOC: %s\n") else pure (false, [])
        set_timeout 1000
        unlock
        pure (reply.0, text_at 0 [] reply.1)

  -- One round of the loop of getGNSSLocation.
  unfoldable pub attempt_fix : St (Locator F D) Bool
  attempt_fix = do fix ← update_gnss_loc; on_bg96 (wait_ms io 2000); pure fix

  -- `while (!fix && ntries < 30)`, over the tries that are left.
  unfoldable pub fix_loop : ℕ → St (Locator F D) Bool
  fix_loop zero s = (false, s)
  fix_loop (suc tries) s =
      let (fix, s') = attempt_fix s in
      let rest = fix_loop tries s' in if fix then (true, s') else rest

  -- BG96::getGNSSLoc(GNSSLoc &), and the other getGNSSLoc, which gives the copy on the heap.
  unfoldable pub get_gnss_loc : St (Locator F D) (GnssLoc F)
  unfolding copy_gnss_loc
  get_gnss_loc s =
      let (_, b) = lock s.bg96 in (copy_gnss_loc s.gnss_loc, record s { bg96 = (unlock b).1 })

  -- BG96Interface::getGNSSLocation: the result, and `loc` as it is left.
  unfoldable pub get_gnss_location : GnssLoc F → St (Locator F D) (Bool × GnssLoc F)
  get_gnss_location loc s =
      let (done, s₁) = on_bg96 (start_gnss io) s in
      let (_, s₂) = on_bg96 (wait_ms io 5000) s₁ in
      let (fix, s₃) = fix_loop 30 s₂ in
      let (_, s₄) = on_bg96 (stop_gnss io) s₃ in
      let (found, s₅) = get_gnss_loc s₄ in
      if done then (if fix then ((true, found), s₅) else ((false, loc), s₄)) else ((false, loc), s₁)
