-- ===== src/Interface/Sockets/Table.antt =====
-- BG96Interface.cpp: what the table of sockets promises to its callers.
use bg96_driver.Prelude.{
  ℕ, ◌<◌, ◌≡◌, ◌≢◌, arith, false, none, some, inl, inr, ◌⊎◌, Option-cases, ◌↔◌,
}
use bg96_driver.At.{AtParser, nsapi_error_ok, nsapi_error_no_socket, nsapi_error_device_error}
use bg96_driver.Interface.{Iface, Socket, Protocol, slots, read_start, tx_idle}
use bg96_driver.Interface.Sockets.{find_free, open_slot, socket_open, socket_close}

below_five : (j : ℕ) → j < 5 → (j ≡ 0) ⊎ (j ≡ 1) ⊎ (j ≡ 2) ⊎ (j ≡ 3) ⊎ (j ≡ 4)
below_five j h = ground arith

find_free-none :
    (sock : ℕ → Socket) (j : ℕ) → find_free slots sock ≡ none → j < 5 → (sock j).id ≢ none
unfolding find_free
find_free-none sock j e lt free = ground (arith, below_five j lt)

find_free-some :
    (sock : ℕ → Socket) (i : ℕ)
    → find_free slots sock ≡ some i
    → (i < 5) × ((sock i).id ≡ none) × ((j : ℕ) → j < i → (sock j).id ≢ none)
unfolding find_free
find_free-some sock i e = (ground arith, ground arith, λ j lt free. ground (arith, below_five j))

module _ {D : Type 0} where
  -- socket_open gives the lowest handle whose socket is not in use; the socket is then in use under
  -- that handle, not connected and without a callback, its events are idle, and the other sockets
  -- are as they were.
  pub socket_open_lowest :
      (proto : Protocol) (s : Iface D) {i : ℕ} {t : Iface D}
      → socket_open proto s ≡ ((nsapi_error_ok, some i), t)
      → (i < 5)
        × ((s.sock i).id ≡ none)
        × ((j : ℕ) → j < i → (s.sock j).id ≢ none)
        × ((t.sock i).id ≡ some i)
        × ((t.sock i).connected ≡ false)
        × ((t.sock i).callback ≡ none)
        × ((t.soc_tx i).state ≡ tx_idle)
        × ((t.soc_rx i).state ≡ read_start)
        × ((j : ℕ) → j ≢ i → t.sock j ≡ s.sock j)
  unfolding socket_open
  socket_open_lowest proto s {i} {t} e = elim (Option-cases (find_free slots s.sock)) [
    | inl full ↦ absurd (ground arith)
    | inr (k, found) ↦
        let f = find_free-some s.sock k found in
        let same : k ≡ i = ground arith in
        let left : t ≡ open_slot k proto s = ground arith in
        rw (left, ← same)
          (
            f.0,
            f.1,
            f.2,
            ground arith,
            ground arith,
            ground arith,
            ground arith,
            ground arith,
            λ j other. ground arith,
          )
  ]

  -- socket_open fails exactly when all of the BG96_SOCKET_COUNT sockets are in use.
  socket_open_full :
      (proto : Protocol) (s : Iface D)
      → ((socket_open proto s).0.0 ≡ nsapi_error_no_socket)
        ↔ ((j : ℕ) → j < 5 → (s.sock j).id ≢ none)
  unfolding socket_open
  socket_open_full proto s = (
    λ e j lt free. ground (arith, find_free-none s.sock j),
    λ all. elim (Option-cases (find_free slots s.sock)) [
      | inl e ↦ rw (e, socket_open)
      | inr (k, e) ↦ let f = find_free-some s.sock k e in absurd (all k f.0 f.1)
    ],
  )

module _ {D : Type 0} (io : AtParser D) where
  -- socket_close frees the socket and puts its events to rest, also where it was connected, and a
  -- second socket_close is refused and changes nothing.
  socket_close_twice :
      (h i : ℕ) (s : Iface D)
      → (s.sock h).id ≡ some i
      → let (r, t) = socket_close io h s in
        (r ≡ nsapi_error_ok)
        × ((t.sock h).id ≡ none)
        × ((t.sock h).connected ≡ false)
        × ((t.soc_tx i).state ≡ tx_idle)
        × ((t.soc_rx i).state ≡ read_start)
        × (socket_close io h t ≡ (nsapi_error_device_error, t))
  unfolding socket_close
  socket_close_twice h i s e = ground arith
