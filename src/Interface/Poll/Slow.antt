-- ===== src/Interface/Poll/Slow.antt =====
-- BG96Interface.cpp, g_eq_event: what goSlow of a listening socket does to the reads of the sockets
-- behind it in the round.
use mathlib.Core.Path.{subst}
use bg96_driver.Prelude.{
  ℕ, zero, suc, ◌+◌, ◌≤◌, ◌<◌, ◌≡◌, ◌≢◌, inl, inr, refl, sym, ap, ◌∙◌, arith, pos, Bool, true,
  false, List, [], ◌∷◌, Bool-cases, ◌==◌, ◌||◌,
}
use bg96_driver.At.{AtParser, Bg96}
use bg96_driver.Driver.Sockets.{bg96_recv}
use bg96_driver.Interface.{Iface, RxEvent, slots}
use bg96_driver.Interface.Events.{rx_event, rx_received}
use bg96_driver.Interface.Events.Reading.{next_state}
use bg96_driver.Interface.Poll.{poll_rx, poll_tx, poll_all, is_read_active, is_tx_active}

-- The indices of the loop from `k` on.
abbrev pub upward : ℕ → ℕ → List ℕ
upward k zero = []
upward k (suc n) = k ∷ upward (k + 1) n

-- No socket sends.
abbrev pub NoneSends : {D : Type 0} → Iface D → Type 0
NoneSends s = (k : ℕ) → is_tx_active (s.soc_tx k).state ≡ false

-- A read under way that has not waited for long.
pub record IsFresh (p : RxEvent) : Type 0 where
  pub active : is_read_active p.state ≡ true
  pub hears_not : p.dis_to ≡ false
  pub recent : p.timer < 600

-- What has become of it.
pub record IsSlowed (p : RxEvent) : Type 0 where
  pub still : is_read_active p.state ≡ true
  pub no_listener : p.dis_to ≡ false
  pub late : p.timer ≡ 24000

module _ {D : Type 0} (io : AtParser D) where
  -- A turn of the loop on a socket that does not send.
  turn :
      (k : ℕ) (is : List ℕ) (done slow : Bool) (s : Iface D)
      → NoneSends s
      → let ((more, slow'), t) = poll_rx io k slow s in
        (done' : Bool) × (poll_all io (k ∷ is) done slow s ≡ poll_all io is done' slow' t)
        × NoneSends t
  unfolding poll_all poll_rx poll_tx
  turn k is done slow s idle = (
    done || (poll_rx io k slow s).0.0 || false,
    ground (arith, idle k),
    λ m. ground (arith, idle m),
  )

  rx_kept :
      (k j : ℕ) (slow : Bool) (s : Iface D) → k ≢ j → (poll_rx io k slow s).1.soc_rx j ≡ s.soc_rx j
  unfolding poll_rx
  rx_kept k j slow s ne = ground arith

  slow_kept : (k : ℕ) (s : Iface D) → (poll_rx io k true s).0.1 ≡ true
  unfolding poll_rx
  slow_kept k s = ground arith

  -- The sockets of the loop leave one that is before them alone.
  behind :
      (n k j : ℕ) (done slow : Bool) (s : Iface D)
      → NoneSends s
      → j < k
      → (poll_all io (upward k n) done slow s).1.soc_rx j ≡ s.soc_rx j
  unfolding poll_all
  behind zero k j done slow s idle lt = refl
  behind (suc n) k j done slow s idle lt =
      let (done', e, idle') = turn k (upward (k + 1) n) done slow s idle in
      ap (λ r. r.1.soc_rx j) e
      ∙ behind n (k + 1) j done' (poll_rx io k slow s).0.1 (poll_rx io k slow s).1 idle'
          (omega (arith, lt))
      ∙ rx_kept k j slow s (λ e. absurd (omega (arith, lt, e)))

  module _
      (quiet : (id size : ℕ) (b : Bg96 D) → (bg96_recv io (pos id) size b).0 ≡ (pos 0, [])) where
    slowed :
        (j : ℕ) (s : Iface D) → IsFresh (s.soc_rx j) → IsSlowed ((poll_rx io j true s).1.soc_rx j)
    unfolding poll_rx rx_event rx_received
    slowed j s v =
        let p = s.soc_rx j in
        let e = quiet p.socket_id p.req_size s.bg96 in
        record {
          still = ground (arith, e, v.active, v.hears_not, v.recent);
          no_listener = ground (arith, e, v.active, v.hears_not, v.recent);
          late = ground (arith, e, v.active, v.hears_not, v.recent);
        }

    goes_slow :
        (i : ℕ) (slow : Bool) (s : Iface D)
        → (s.soc_rx i).dis_to ≡ true
        → 24000 ≤ (s.soc_rx i).timer
        → (poll_rx io i slow s).0.1 ≡ true
    unfolding poll_rx rx_event rx_received
    goes_slow i slow s d le =
        let p = s.soc_rx i in
        let e = quiet p.socket_id p.req_size s.bg96 in ground (arith, e, d, le)

    -- The rest of the loop once goSlow is set.
    slow_on :
        (n k j : ℕ) (done : Bool) (s : Iface D)
        → NoneSends s
        → k ≤ j
        → j < k + n
        → IsFresh (s.soc_rx j)
        → IsSlowed ((poll_all io (upward k n) done true s).1.soc_rx j)
    slow_on zero k j done s idle le lt v = absurd (omega (arith, le, lt))
    slow_on (suc n) k j done s idle le lt v =
        let (done', e, idle') = turn k (upward (k + 1) n) done true s idle in
        let t = (poll_rx io k true s).1 in
        let sl = slow_kept k s in
        let on : poll_all io (k ∷ upward (k + 1) n) done true s
            ≡ poll_all io (upward (k + 1) n) done' true t =
          e ∙ ap (λ x. poll_all io (upward (k + 1) n) done' x t) sl in
        subst (λ r. IsSlowed (r.1.soc_rx j)) (sym on)
          (elim (Bool-cases (k == j)) [
            | inl own ↦
                let same : k ≡ j = ground arith in
                let kept = behind (n) (k + 1) j done' true t idle' (omega (arith, same)) in
                let v' =
                  subst (λ x. IsSlowed ((poll_rx io x true s).1.soc_rx j)) (sym same)
                    (slowed j s v) in
                subst IsSlowed (sym kept) v'
            | inr other ↦
                let differ : k ≢ j = λ e. ground arith in
                slow_on n (k + 1) j done' t idle' (omega (arith, le, differ)) (omega (arith, lt))
                  (subst IsFresh (sym (rx_kept k j true s differ)) v)
          ])

    -- The loop up to the listening socket.
    up_to :
        (n k i j : ℕ) (done slow : Bool) (s : Iface D)
        → NoneSends s
        → k ≤ i
        → i < j
        → j < k + n
        → (s.soc_rx i).dis_to ≡ true
        → 24000 ≤ (s.soc_rx i).timer
        → IsFresh (s.soc_rx j)
        → IsSlowed ((poll_all io (upward k n) done slow s).1.soc_rx j)
    up_to zero k i j done slow s idle le lt top d l v = absurd (omega (arith, le, lt, top))
    up_to (suc n) k i j done slow s idle le lt top d l v =
        let (done', e, idle') = turn k (upward (k + 1) n) done slow s idle in
        let (_, slow') = (poll_rx io k slow s).0 in
        let t = (poll_rx io k slow s).1 in
        let differ : k ≢ j = λ e. absurd (omega (arith, le, lt, e)) in
        let v' = subst IsFresh (sym (rx_kept k j slow s differ)) v in
        subst (λ r. IsSlowed (r.1.soc_rx j)) (sym e)
          (elim (Bool-cases (k == i)) [
            | inl own ↦
                let same : k ≡ i = ground arith in
                let on =
                  subst (λ x. (poll_rx io x slow s).0.1 ≡ true) (sym same)
                    (goes_slow i slow s d l) in
                subst (λ x. IsSlowed ((poll_all io (upward (k + 1) n) done' x t).1.soc_rx j))
                  (sym on)
                  (slow_on n (k + 1) j done' t idle' (omega (arith, le, lt)) (omega (arith, top))
                    v')
            | inr other ↦
                let differs : k ≢ i = λ e. ground arith in
                let kept = sym (rx_kept k i slow s differs) in
                up_to n (k + 1) i j done' slow' t idle' (omega (arith, le, differs)) lt
                  (omega (arith, top)) (subst (λ p. p.dis_to ≡ true) kept d)
                  (subst (λ p. 24000 ≤ p.timer) kept l) v'
          ])

    slowed_ends :
        (p : RxEvent) (b : Bg96 D)
        → IsSlowed p
        → (rx_event io p b).0
          ≡ (false, record p { timer = 24001; return_cnt = 0; state = next_state p })
    unfolding rx_event rx_received
    slowed_ends p b v =
        let e = quiet p.socket_id p.req_size b in ground (arith, e, v.no_listener, v.late)

    -- goSlow reaches other sockets. BG96::recv finds nothing for any socket and meets no error, and no
    -- socket sends. If the read of the listening socket `i` has waited 24000 ticks or more, then the
    -- loop of one round over all the sockets sets the timer of a read of a later socket `j` that is
    -- under way, does not listen and has waited less than 600 ticks to 24000, and the next attempt of
    -- this read completes it with 0 bytes.
    pub slow_cuts_short :
        (i j : ℕ) (s : Iface D) (b : Bg96 D)
        → NoneSends s
        → i < j
        → j < 5
        → (s.soc_rx i).dis_to ≡ true
        → 24000 ≤ (s.soc_rx i).timer
        → IsFresh (s.soc_rx j)
        → let r = (poll_all io slots false false s).1.soc_rx j in
          (r.timer ≡ 24000)
          × ((rx_event io r b).0
              ≡ (false, record r { timer = 24001; return_cnt = 0; state = next_state r }))
    slow_cuts_short i j s b idle lt top d l v =
        let slow = up_to 5 0 i j false false s idle (omega arith) lt (omega (arith, top)) d l v in
        (slow.late, slowed_ends _ b slow)
