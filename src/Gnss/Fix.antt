-- ===== src/Gnss/Fix.antt =====
-- BG96Interface.cpp, getGNSSLocation: the tries for a position.
use bg96_driver.Prelude.{ℕ, zero, suc, ◌<◌, ◌≡◌, refl, arith, true, false}
use bg96_driver.At.{AtParser, wait_ms}
use bg96_driver.Driver.Power.{start_gnss, stop_gnss}
use bg96_driver.Gnss.{
  GnssLoc, Library, Memory, Locator, attempt_fix, fix_loop, get_gnss_loc, get_gnss_location,
  on_bg96,
}

module _ {F D : Type 0} (io : AtParser D) (lib : Library F) (m : Memory F) where
  -- The state after `k` rounds of the loop.
  unfoldable pub after : ℕ → Locator F D → Locator F D
  after zero s = s
  after (suc k) s = after k (attempt_fix io lib m s).1

  fix_loop-first :
      (k n : ℕ) (s : Locator F D)
      → ((j : ℕ) → j < k → (attempt_fix io lib m (after j s)).0 ≡ false)
      → (attempt_fix io lib m (after k s)).0 ≡ true
      → k < n
      → fix_loop io lib m n s ≡ (true, after (suc k) s)
  unfolding fix_loop after
  fix_loop-first k zero s f t lt = absurd (omega arith)
  fix_loop-first zero (suc n) s f t lt = ground (arith, t)
  fix_loop-first (suc k) (suc n) s f t lt = ground (
    arith,
    f 0 (omega arith),
    fix_loop-first k n (attempt_fix io lib m s).1 (λ j h. f (suc j) (omega arith)) t (omega arith),
  )

  fix_loop-never :
      (n : ℕ) (s : Locator F D)
      → ((j : ℕ) → j < n → (attempt_fix io lib m (after j s)).0 ≡ false)
      → fix_loop io lib m n s ≡ (false, after n s)
  unfolding fix_loop after
  fix_loop-never zero s f = refl
  fix_loop-never (suc n) s f = ground (
    arith,
    f 0 (omega arith),
    fix_loop-never n (attempt_fix io lib m s).1 (λ j h. f (suc j) (omega arith)),
  )

  -- The state in which the first round starts.
  abbrev pub started : Locator F D → Locator F D
  started s = (on_bg96 (wait_ms io 5000) (on_bg96 (start_gnss io) s).1).1

  -- getGNSSLocation gives the position of the first round that finds one, if that is among the first
  -- 30 and the modem has taken the command that starts the search.
  pub get_gnss_location-first :
      (k : ℕ) (loc : GnssLoc F) (s : Locator F D)
      → (start_gnss io s.bg96).0 ≡ true
      → ((j : ℕ) → j < k → (attempt_fix io lib m (after j (started s))).0 ≡ false)
      → (attempt_fix io lib m (after k (started s))).0 ≡ true
      → k < 30
      → (get_gnss_location io lib m loc s).0 ≡ (true, (after (suc k) (started s)).gnss_loc)
  unfolding get_gnss_location get_gnss_loc
  get_gnss_location-first k loc s g f t lt =
      ground (arith, g, fix_loop-first k 30 (started s) f t lt)

  -- If none of the 30 rounds finds a position, getGNSSLocation fails after them, leaves the given
  -- position alone, and ends the search.
  get_gnss_location-never :
      (loc : GnssLoc F) (s : Locator F D)
      → (start_gnss io s.bg96).0 ≡ true
      → ((j : ℕ) → j < 30 → (attempt_fix io lib m (after j (started s))).0 ≡ false)
      → (get_gnss_location io lib m loc s
          ≡ ((false, loc), (on_bg96 (stop_gnss io) (after 30 (started s))).1))
  unfolding get_gnss_location
  get_gnss_location-never loc s g f = ground (arith, g, fix_loop-never 30 (started s) f)
