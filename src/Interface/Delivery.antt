-- ===== src/Interface/Delivery.antt =====
-- BG96Interface.cpp: a transfer from socket_send through the rounds of the event queue to its end.
pub mod Pieces
pub mod Rounds
pub mod Queue
pub mod Serve
pub mod Table
pub mod First
pub mod Send
use bg96_driver.Prelude.{
  ℕ, ◌+◌, ◌*◌, ◌≤◌, ◌<◌, ◌≡◌, ◌≢◌, ◌⊎◌, Bool, true, none, List, [], ◌∷◌, ◌++◌, if◌then◌else◌, ltb,
}
use bg96_driver.At.{AtParser}
use bg96_driver.Interface.{Iface, Application, TxEvent, tx_active, tx_complete}
use bg96_driver.Interface.Events.Transmit.{IsSending}
use bg96_driver.Interface.Poll.{dispatch, is_tx_active}

-- The transfer of socket `i` is under way: what the modem has of it and what is left make `goal`, and
-- `k` pieces are enough for the rest.
pub record IsPending (i : ℕ) (goal : List ℕ) (size k : ℕ) (p : TxEvent) (taken : List ℕ)
    : Type 0 where
  pub sending : IsSending p
  pub active : p.state ≡ tx_active
  pub no_callback : p.callback ≡ none
  pub of_socket : p.socket_id ≡ i
  pub of_size : p.orig_size ≡ size
  pub split : taken ++ p.dptr ≡ goal
  pub enough : p.orig_size ≤ p.total_sent + 1500 * k

-- It is complete, and socket_send has not yet been told.
abbrev pub IsDelivered : List ℕ → ℕ → TxEvent → List ℕ → Type 0
IsDelivered goal size p taken = (p.state ≡ tx_complete) × (p.total_sent ≡ size) × (taken ≡ goal)

abbrev pub Delivers : ℕ → List ℕ → ℕ → ℕ → TxEvent → List ℕ → Type 0
Delivers i goal size k p taken = IsDelivered goal size p taken ⊎ IsPending i goal size k p taken

-- No event of the table but that of the socket sends on it.
abbrev pub Alone : {D : Type 0} → ℕ → Iface D → Type 0
Alone i s =
    (j : ℕ) → j < 5 → j ≢ i → is_tx_active (s.soc_tx j).state ≡ true → (s.soc_tx j).socket_id ≢ i

-- No other event of the table that is under way sends on the socket, and its own transfer is under
-- way or complete; `sent` is what the modem has taken for each socket.
pub record IsFlying {D : Type 0} (sent : ℕ → D → List ℕ) (i : ℕ) (goal : List ℕ) (size k : ℕ)
    (s : Iface D) : Type 0 where
  pub alone : Alone i s
  pub status : Delivers i goal size k (s.soc_tx i) (sent i s.bg96.dev)

-- The application's callbacks send nothing, and leave the table of sockets alone.
pub record Spares {D : Type 0} (sent : ℕ → D → List ℕ) (app : Application D) : Type 0 where
  pub keeps_events : (f d : ℕ) (s : Iface D) → (app f d s).soc_tx ≡ s.soc_tx
  pub keeps_sockets : (f d : ℕ) (s : Iface D) → (app f d s).sock ≡ s.sock
  pub adds_none : (f d j : ℕ) (s : Iface D) → sent j (app f d s).bg96.dev ≡ sent j s.bg96.dev

module _ {D : Type 0} (io : AtParser D) (app : Application D) where
  -- The queue makes one of its calls, if any waits.
  abbrev pub serve : Bool → Iface D → Iface D
  serve locked s = if ltb 0 s.pending then dispatch io app locked s else s

  -- One chance for each member of the list, which says whether the mutex is free.
  unfoldable pub serve_all : List Bool → Iface D → Iface D
  serve_all [] s = s
  serve_all (locked ∷ r) s = serve_all r (serve locked s)

-- How often the mutex is free.
unfoldable pub free_rounds : List Bool → ℕ
free_rounds [] = 0
free_rounds (locked ∷ r) = (if locked then 1 else 0) + free_rounds r
