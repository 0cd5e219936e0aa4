-- ===== src/Interface/Setup/Options.antt =====
-- BG96Interface.cpp: what getsockopt gives of what setsockopt was given.
use bg96_driver.Prelude.{ℕ, ◌<◌, ◌≡◌, arith, true, Option, some}
use bg96_driver.At.{nsapi_error_ok}
use bg96_driver.Interface.{Iface, tcp}
use bg96_driver.Interface.Setup.{rcvbuf, setsockopt, getsockopt}

-- On a TCP socket setsockopt takes a receive buffer, and getsockopt reports success and the size,
-- but does not hand out the buffer: the caller's variable keeps its value.
getsockopt-setsockopt :
    {D : Type 0} (pointer_size h : ℕ) (buffer value : Option ℕ) (len : ℕ) (s : Iface D)
    → 0 < pointer_size
    → (s.sock h).proto ≡ tcp
    → let (rc, t) = setsockopt pointer_size (some h) true rcvbuf buffer pointer_size s in
      (rc ≡ nsapi_error_ok)
      × ((t.sock h).dptr_last ≡ buffer)
      × (getsockopt (some h) true rcvbuf (some value) (some len) t
          ≡ (nsapi_error_ok, some value, some pointer_size))
unfolding setsockopt getsockopt
getsockopt-setsockopt pointer_size h buffer value len s lt p = ground arith
