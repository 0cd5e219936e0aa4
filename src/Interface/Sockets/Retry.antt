-- ===== src/Interface/Sockets/Retry.antt =====
-- BG96Interface.cpp: the three attempts of socket_connect.
use bg96_driver.Prelude.{ℕ, ◌≡◌, Bool, true, false, Option, some, if◌then◌else◌, inl, inr, ◌⊎◌}
use bg96_driver.At.{AtParser, Bg96, nsapi_error_ok, nsapi_error_device_error}
use bg96_driver.Driver.Sockets.{bg96_open, bg96_close}
use bg96_driver.Interface.{Iface, Application, Address, call_back, set_sock}
use bg96_driver.Interface.Sockets.{socket_connect, try_open, connected_after, is_udp, id_int}

module _ {D : Type 0} (io : AtParser D) (app : Application D) (rounds h : ℕ) (addr : Address) where
  -- BG96::open as socket_connect calls it, and BG96::close between two attempts.
  abbrev pub opens : Iface D → Bg96 D → Option (Bool × Bg96 D)
  opens s b =
      let sock = s.sock h in
      bg96_open io rounds (if is_udp sock.proto then b'u' else b't') (id_int sock.id)
        addr.ip_address addr.port b

  abbrev pub closes : Iface D → Bg96 D → Bg96 D
  closes s b = (bg96_close io (id_int (s.sock h).id) b).1

  -- The state that the application's callback finds after a connection.
  abbrev pub connected : Iface D → Bg96 D → Iface D
  connected s b =
      set_sock h (record (s.sock h) { addr = addr; connected = true }) (record s { bg96 = b })

  -- If the first or the second attempt opens the socket, socket_connect succeeds: it marks the
  -- socket as connected to the address and only then calls the application back.
  socket_connect_early :
      (s : Iface D) (b b₁ : Bg96 D)
      → (opens s s.bg96 ≡ some (true, b))
        ⊎ ((opens s s.bg96 ≡ some (false, b₁)) × (opens s (closes s b₁) ≡ some (true, b)))
      → socket_connect io app rounds h addr s
        ≡ some
            (nsapi_error_ok, call_back app (s.sock h).callback (s.sock h).cb_data (connected s b))
  unfolding socket_connect try_open connected_after
  socket_connect_early s b b₁ (inl e) = rw (e, socket_connect, try_open, connected_after)
  socket_connect_early s b b₁ (inr (e, f)) = rw (e, f, socket_connect, try_open, connected_after)

  -- If only the third attempt opens the socket, socket_connect reports a device error, does not
  -- mark the socket as connected, and leaves the modem's socket open.
  socket_connect_third :
      (s : Iface D) (b₁ b₂ b : Bg96 D)
      → opens s s.bg96 ≡ some (false, b₁)
      → opens s (closes s b₁) ≡ some (false, b₂)
      → opens s (closes s b₂) ≡ some (true, b)
      → socket_connect io app rounds h addr s
        ≡ some (nsapi_error_device_error, record s { bg96 = b })
  unfolding socket_connect try_open connected_after
  socket_connect_third s b₁ b₂ b e f g = rw (e, f, g, socket_connect, try_open, connected_after)
