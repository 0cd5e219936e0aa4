-- ===== src/Interface/Reception/Listening.antt =====
-- BG96Interface.cpp, g_eq_event: the read of a listening socket after it is complete.
use bg96_driver.Prelude.{
  ℕ, ◌+◌, ◌<◌, ◌≡◌, ap, ◌∙◌, arith, pos, Bool, true, false, none, some, List, ◌++◌, take, drop,
  length, u32, as_int,
}
use bg96_driver.At.{AtParser}
use bg96_driver.Driver.Sockets.{bg96_recv}
use bg96_driver.Driver.Sockets.Source.{IsSource, bg96_recv-inbox}
use bg96_driver.Interface.{Iface, Application, RxEvent, data_available}
use bg96_driver.Interface.Events.{rx_event, rx_received}
use bg96_driver.Interface.Poll.{poll_rx}
use bg96_driver.Interface.Transfer.{socket_recv, finish_rx}
use bg96_driver.Interface.Reception.First.{socket_recv_complete}

received_again :
    (p : RxEvent) (got : List ℕ)
    → p.callback ≡ none
    → 0 < length got
    → rx_received p (pos (length got)) got ≡ (
      false,
      record p {
        state = data_available;
        dptr = got ++ drop (length got) p.dptr;
        return_cnt = u32 (p.return_cnt + length got);
      },
    )
unfolding rx_received
received_again p got cb lt = ground arith

same_dptr :
    {D : Type 0} (i : ℕ) (s : Iface D) → ((finish_rx i s).1.soc_rx i).dptr ≡ (s.soc_rx i).dptr
unfolding finish_rx
same_dptr i s = ground arith

module _ {D : Type 0} {io : AtParser D} {target room : D → ℕ} {ready : D → Bool}
    {inbox : ℕ → D → List ℕ} (src : IsSource io target room ready inbox) (app : Application D) where
  listening_recv :
      (i : ℕ) (s : Iface D)
      → let p = s.soc_rx i in
        let got = take p.req_size (inbox i s.bg96.dev) in
        p.socket_id ≡ i
        → p.req_size < 2147483648
        → let (r, _) = bg96_recv io (pos p.socket_id) p.req_size s.bg96 in
          (r.0 ≡ pos (length got)) × (r.1 ≡ got)
  listening_recv i s own small =
      let e = bg96_recv-inbox src i (s.soc_rx i).req_size s.bg96 small in rw own (e.0, e.1)

  attempt_again :
      (i : ℕ) (slow : Bool) (s : Iface D)
      → let p = s.soc_rx i in
        let got = take p.req_size (inbox i s.bg96.dev) in
        p.dis_to ≡ true
        → p.callback ≡ none
        → p.socket_id ≡ i
        → p.req_size < 2147483648
        → 0 < length got
        → let q = (poll_rx io i slow s).1.soc_rx i in
          (q.state ≡ data_available)
          × (q.dptr ≡ got ++ drop (length got) p.dptr)
          × (q.return_cnt ≡ u32 (p.return_cnt + length got))
  unfolding poll_rx rx_event
  attempt_again i slow s heard cb own small lt =
      let p = s.soc_rx i in
      let e = listening_recv i s own small in
      let a = received_again p (take p.req_size (inbox i s.bg96.dev)) cb lt in
      ground (arith, e.0, e.1, a)

  id_kept :
      (i : ℕ) (slow : Bool) (s : Iface D) (h : ℕ)
      → ((poll_rx io i slow s).1.sock h).id ≡ (s.sock h).id
  unfolding poll_rx
  id_kept i slow s h = ground arith

  -- A listening socket without a callback overwrites what it has received: whatever state its read
  -- is in, also complete and not yet reported, or reported, the step of g_eq_event that looks at this
  -- read takes the bytes that the modem has for it. They replace the first bytes of the buffer that
  -- the last socket_recv gave, and a socket_recv that follows at once, whatever buffer it is given,
  -- reports their number added to the one before and leaves its buffer alone.
  pub listening_overwrites :
      (h i : ℕ) (buffer : List ℕ) (size : ℕ) (slow : Bool) (s : Iface D)
      → let p = s.soc_rx i in
        let got = take p.req_size (inbox i s.bg96.dev) in
        (s.sock h).id ≡ some i
        → p.dis_to ≡ true
        → p.callback ≡ none
        → p.socket_id ≡ i
        → p.req_size < 2147483648
        → 0 < length got
        → 0 < size
        → let t = (poll_rx io i slow s).1 in
          (v : Iface D) × (socket_recv io app h (some buffer) size t
            ≡ some (as_int (u32 (p.return_cnt + length got)), v))
          × ((v.soc_rx i).dptr ≡ got ++ drop (length got) p.dptr)
  unfolding finish_rx
  listening_overwrites h i buffer size slow s id heard cb own small lt pos_size =
      let t = (poll_rx io i slow s).1 in
      let a = attempt_again i slow s heard cb own small lt in
      (
        (finish_rx i t).1,
        socket_recv_complete io app h i buffer size t pos_size (id_kept i slow s h ∙ id) a.0
            ∙ ap (λ n. some (as_int n, (finish_rx i t).1)) a.2,
        same_dptr i t ∙ a.1,
      )
