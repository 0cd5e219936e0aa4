-- ===== src/Interface/Reception/Attempt.antt =====
-- BG96Interface.cpp, rx_event: an attempt at a read over a modem that keeps what has come.
use bg96_driver.Prelude.{
  ℕ, ◌<◌, ◌≡◌, ◌⊎◌, refl, sym, ap, ◌∙◌, arith, pos, Bool, true, false, not, ◌&&◌, ◌+◌, List, [],
  ◌++◌, take, drop, length, length-take, take-append-drop, Bool-cases, inl, inr, ltb,
}
use mathlib.Core.Path.{subst}
use bg96_driver.At.{AtParser, Bg96}
use bg96_driver.Driver.Sockets.{bg96_recv}
use bg96_driver.Driver.Sockets.Source.{IsSource, bg96_recv-inbox, length-zero, take-length-take}
use bg96_driver.Interface.{RxEvent}
use bg96_driver.Interface.Events.Reading.{next_state}
use bg96_driver.Interface.Events.{rx_event, rx_received, timeout_ticks}
use bg96_driver.Interface.Reception.{IsFetched, IsBegun, is_complete}

-- The read is complete with the bytes that it gets; or there are none, and only the timer goes on.
abbrev pub Outcome : RxEvent → List ℕ → Bool × RxEvent → Type 0
Outcome p got (more, q) =
    ((more ≡ false)
      × (q ≡ record p {
        timer = q.timer;
        state = next_state p;
        return_cnt = length got;
        dptr = got ++ drop (length got) p.dptr;
      }))
    ⊎ ((more ≡ true) × (got ≡ []) × (q ≡ record p { timer = q.timer }))

nothing-Outcome : (p : RxEvent) → Outcome p [] (rx_received p (pos 0) [])
unfolding rx_received
nothing-Outcome p = elim (Bool-cases (ltb timeout_ticks (p.timer + 1) && not p.dis_to)) [
  | inl over ↦ inl (ground arith, ground arith)
  | inr waits ↦ inr (ground arith, refl, ground arith)
]

pub rx_received-Outcome :
    (p : RxEvent) (got : List ℕ)
    → p.return_cnt ≡ 0
    → length got < 4294967296
    → Outcome p got (rx_received p (pos (length got)) got)
unfolding rx_received
rx_received-Outcome p got z lt = elim (Bool-cases (ltb 0 (length got))) [
  | inl some_bytes ↦ inl (ground arith, ground arith)
  | inr no_bytes ↦
      let e : got ≡ [] = length-zero got (ground arith) in
      subst (λ x. Outcome p x (rx_received p (pos (length x)) x)) (sym e) (nothing-Outcome p)
]

next_complete : (p : RxEvent) → is_complete (next_state p) ≡ true
next_complete p = ground arith

split_take : (n : ℕ) (xs : List ℕ) → take n xs ++ drop (length (take n xs)) xs ≡ xs
split_take n xs =
    ap (λ ys. ys ++ drop (length (take n xs)) xs) (sym (take-length-take n xs))
    ∙ take-append-drop (length (take n xs)) xs

module _ {D : Type 0} {io : AtParser D} {target room : D → ℕ} {ready : D → Bool}
    {inbox : ℕ → D → List ℕ} (src : IsSource io target room ready inbox) where
  -- What is to hold after an attempt at `p`.
  abbrev pub Attempted : List ℕ → List ℕ → ℕ → RxEvent → (Bool × RxEvent) → List ℕ → Type 0
  Attempted buffer stream size p (more, q) left =
      ((more ≡ false)
        × IsFetched buffer stream size q left
        × (q.return_cnt ≡ length (take size stream)))
      ⊎ ((more ≡ true)
          × (take size stream ≡ [])
          × (q ≡ record p { timer = q.timer })
          × (left ≡ stream))

  -- What the modem hands over to the attempt.
  begun_recv :
      {i : ℕ} {buffer stream : List ℕ} {size : ℕ} {p : RxEvent} (b : Bg96 D)
      → size < 2147483648
      → IsBegun i buffer stream size p (inbox i b.dev)
      → let got = take size stream in
        let ((cnt, bytes), b') = bg96_recv io (pos p.socket_id) p.req_size b in
        (cnt ≡ pos (length got)) × (bytes ≡ got) × (inbox i b'.dev ≡ drop (length got) stream)
  begun_recv {i} {size} b lt v =
      rw (v.of_socket, v.asked) (rw v.whole at (bg96_recv-inbox src i size b lt))

  pub rx_event-Attempted :
      {i : ℕ} {buffer stream : List ℕ} {size : ℕ} {p : RxEvent} (b : Bg96 D)
      → size < 2147483648
      → IsBegun i buffer stream size p (inbox i b.dev)
      → let (r, b') = rx_event io p b in Attempted buffer stream size p r (inbox i b'.dev)
  unfolding rx_event
  rx_event-Attempted {i} {buffer} {stream} {size} {p} b lt v =
      let got = take size stream in
      let e = begun_recv b lt v in
      let few : length got < 4294967296 = ground (arith, length-take size stream) in
      let o = rx_received-Outcome p got v.uncounted few in
      rw (e.0, e.1, e.2)
        (elim o [
          | inl (m, q) ↦ inl (
            m,
            rw q (record {
              complete = next_complete p;
              deaf = v.deaf;
              got = got;
              counted = refl;
              stored = ap (λ d. got ++ drop (length got) d) v.stored;
              split = split_take size stream;
              fits = ground (arith, length-take size stream);
            }),
            rw q refl,
          )
          | inr (m, z, q) ↦ inr (m, z, q, ap (λ g. drop (length g) stream) z)
        ])

  -- The first attempt goes on if the modem has nothing.
  pub rx_event_first :
      {i : ℕ} {buffer stream : List ℕ} {size : ℕ} {p : RxEvent} (b : Bg96 D)
      → size < 2147483648
      → p.timer ≡ 0
      → take size stream ≡ []
      → IsBegun i buffer stream size p (inbox i b.dev)
      → (rx_event io p b).0.0 ≡ true
  unfolding rx_event rx_received
  rx_event_first {stream} {size} {p} b lt t e v =
      let r = begun_recv b lt v in
      let z : length (take size stream) ≡ 0 = ap (λ x. length x) e in
      rw (r.0, r.1, z) (ground arith)
