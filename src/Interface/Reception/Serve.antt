-- ===== src/Interface/Reception/Serve.antt =====
-- BG96Interface.cpp: data come and the queue makes its calls, in any order, until a read is complete.
use mathlib.Core.List.{append_assoc, append-nil}
use bg96_driver.Prelude.{
  ℕ, ◌<◌, ◌≡◌, ◌≢◌, sym, ap, ◌∙◌, arith, inl, inr, Bool, true, false, not, ◌&&◌, ◌||◌, List, [],
  ◌∷◌, ◌++◌, take, length, length-take, length-append, ltb, Bool-cases,
}
use bg96_driver.At.{AtParser}
use bg96_driver.Driver.Sockets.Source.{IsSource}
use bg96_driver.Interface.{Iface, Application, RxEvent}
use bg96_driver.Interface.Poll.Awake.{IsAwake, Keeps}
use bg96_driver.Interface.Poll.Dispatch.{elem-slots}
use bg96_driver.Interface.Transfer.Awake.{modem-IsAwake}
use bg96_driver.Interface.Delivery.{serve}
use bg96_driver.Interface.Delivery.Serve.{serve-IsAwake}
use bg96_driver.Interface.Reception.{
  Chance, IsReading, Reads, Leaves, Brings, bring, receive_all, arrived, is_served,
}
use bg96_driver.Interface.Reception.Queue.{dispatch-IsReading, dispatch-fetches}

more_left :
    {i : ℕ} {buffer stream left : List ℕ} {size : ℕ} {may_wait : Bool} {p : RxEvent} (new : List ℕ)
    → Reads i buffer stream size may_wait p left
    → Reads i buffer (stream ++ new) size may_wait p (left ++ new)
more_left {left} new (inl v) = inl (record {
  complete = v.complete;
  deaf = v.deaf;
  got = v.got;
  counted = v.counted;
  stored = v.stored;
  split = sym (append_assoc v.got left new) ∙ ap (λ x. x ++ new) v.split;
  fits = v.fits;
})
more_left new (inr (w, v)) = inr (
  w,
  (
    v.0,
    record {
      deaf = v.1.deaf;
      of_socket = v.1.of_socket;
      uncounted = v.1.uncounted;
      stored = v.1.stored;
      asked = v.1.asked;
      whole = ap (λ x. x ++ new) v.1.whole;
    },
  ),
)

and_false : (b : Bool) → (b && not true) ≡ false
and_false b = ground arith

and_true : (b : Bool) → (b && not false) ≡ b
and_true b = ground arith

-- As far as the read is open, the chances that are left decide.
combine :
    (may_wait more free : Bool) (rest : Bool)
    → ((may_wait && not (more && free)) && not rest) ≡ (may_wait && not ((more && free) || rest))
combine may_wait more free rest = ground arith

some_left : (size : ℕ) (stream : List ℕ) → 0 < size → 0 < length stream → take size stream ≢ []
some_left size stream h l e = absurd (ground (arith, length-take size stream, ap (λ x. length x) e))

module _ {D : Type 0} {io : AtParser D} {target room : D → ℕ} {ready : D → Bool}
    {inbox : ℕ → D → List ℕ} (src : IsSource io target room ready inbox) {app : Application D}
    (leaves : Leaves inbox app) (keeps : Keeps app) {arrive : (ℕ → List ℕ) → D → D}
    (brings : Brings inbox arrive) {i : ℕ} (in_table : i < 5) {buffer : List ℕ} {size : ℕ}
    (lt : size < 2147483648) (size_pos : 0 < size) where
  bring-IsReading :
      {stream : List ℕ} {may_wait : Bool} (c : Chance) (s : Iface D)
      → IsReading inbox i buffer stream size may_wait s
      → IsReading inbox i buffer (stream ++ c.arrives i) size may_wait (bring io app arrive c s)
  bring-IsReading c s v = record {
    heard = v.heard;
    status = rw (brings.adds c.arrives s.bg96.dev i) (more_left (c.arrives i) v.status);
  }

  -- With no call in the queue the read is complete.
  nothing_waits :
      {stream : List ℕ} {may_wait : Bool} (s : Iface D)
      → IsAwake false s
      → ltb 0 s.pending ≡ false
      → IsReading inbox i buffer stream size may_wait s
      → IsReading inbox i buffer stream size false s
  nothing_waits {stream} {may_wait} s a z v = record { heard = v.heard; status = over v.status }
    where
      over :
          Reads i buffer stream size may_wait (s.soc_rx i) (inbox i s.bg96.dev)
          → Reads i buffer stream size false (s.soc_rx i) (inbox i s.bg96.dev)
      over (inl d) = inl d
      over (inr (w, p)) = absurd (ground (arith, a.covered i in_table, p.0))

  serve-IsReading :
      {stream : List ℕ} {may_wait : Bool} (locked : Bool) (s : Iface D)
      → IsReading inbox i buffer stream size may_wait s
      → IsReading inbox i buffer stream size may_wait (serve io app locked s)
  serve-IsReading locked s v = elim (Bool-cases (ltb 0 s.pending)) [
    | inl call ↦ rw call (dispatch-IsReading src leaves lt locked v)
    | inr none ↦ rw none v
  ]

  serve-fetches :
      {stream : List ℕ} {may_wait : Bool} (s : Iface D)
      → IsAwake false s
      → 0 < length stream
      → IsReading inbox i buffer stream size may_wait s
      → IsReading inbox i buffer stream size false (serve io app true s)
  serve-fetches {stream} s a l v = elim (Bool-cases (ltb 0 s.pending)) [
    | inl call ↦ rw call (
        dispatch-fetches src leaves lt (elem-slots i in_table) (some_left size stream size_pos l) v)
    | inr none ↦ rw none (nothing_waits s a none v)
  ]

  -- What one chance does: a free mutex and something to be had complete the read.
  chance-IsReading :
      {stream : List ℕ} {may_wait : Bool} (c : Chance) (s : Iface D)
      → IsAwake false s
      → IsReading inbox i buffer stream size may_wait s
      → IsReading inbox i buffer
          (stream ++ c.arrives i)
          size
          (may_wait && not ((ltb 0 (length stream) || ltb 0 (length (c.arrives i))) && c.locked))
          (serve io app c.locked (bring io app arrive c s))
  chance-IsReading {stream} {may_wait} c s a v =
      let more = ltb 0 (length stream) || ltb 0 (length (c.arrives i)) in
      let t = bring io app arrive c s in
      let w = bring-IsReading c s v in
      elim (Bool-cases (more && c.locked)) [
        | inl now ↦
            let free : c.locked ≡ true = ground arith in
            let l : 0 < length (stream ++ c.arrives i) =
              ground (arith, length-append stream (c.arrives i)) in
            rw (now, and_false may_wait, free) (serve-fetches t (modem-IsAwake _ a) l w)
        | inr later ↦ rw (later, and_true may_wait) (serve-IsReading c.locked t w)
      ]

  -- The data that come are added to the stream, and the first call that finds the mutex free when
  -- something is to be had completes the read.
  pub receive_all-IsReading :
      (cs : List Chance) {stream : List ℕ} {may_wait : Bool} (s : Iface D)
      → IsAwake false s
      → IsReading inbox i buffer stream size may_wait s
      → IsReading inbox i buffer
          (stream ++ arrived i cs)
          size
          (may_wait && not (is_served i (ltb 0 (length stream)) cs))
          (receive_all io app arrive cs s)
  unfolding receive_all arrived is_served
  receive_all-IsReading [] {stream} {may_wait} s a v = rw (append-nil stream, and_true may_wait) v
  receive_all-IsReading (c ∷ cs) {stream} {may_wait} s a v =
      let more = ltb 0 (length stream) || ltb 0 (length (c.arrives i)) in
      let rest = is_served i more cs in
      let u = serve io app c.locked (bring io app arrive c s) in
      let now : ltb 0 (length (stream ++ c.arrives i)) ≡ more =
        ground (arith, length-append stream (c.arrives i)) in
      let w =
        receive_all-IsReading cs u (serve-IsAwake io keeps c.locked _ (modem-IsAwake _ a))
          (chance-IsReading c s a v) in
      rw
        (
          sym (combine may_wait more c.locked rest),
          sym (append_assoc stream (c.arrives i) (arrived i cs)),
        )
        (rw now at w)
