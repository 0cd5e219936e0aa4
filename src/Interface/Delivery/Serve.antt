-- ===== src/Interface/Delivery/Serve.antt =====
-- BG96Interface.cpp: the queue makes its calls until a transfer is complete.
use bg96_driver.Prelude.{
  ℕ, zero, suc, ◌-◌, ◌≤◌, ◌<◌, ◌≡◌, arith, inl, inr, ℤ, Bool, true, false, List, [], ◌∷◌,
  if◌then◌else◌, ltb, Bool-cases,
}
use bg96_driver.At.{AtParser}
use bg96_driver.Driver.Sockets.Channel.{IsChannel}
use bg96_driver.Interface.{Iface, Application}
use bg96_driver.Interface.Poll.{dispatch}
use bg96_driver.Interface.Poll.Awake.{IsAwake, Keeps}
use bg96_driver.Interface.Poll.Dispatch.{dispatch-IsAwake, elem-slots}
use bg96_driver.Interface.Delivery.{IsFlying, Delivers, Spares, serve, serve_all, free_rounds}
use bg96_driver.Interface.Delivery.Pieces.{weaken}
use bg96_driver.Interface.Delivery.Queue.{dispatch-IsFlying, dispatch-lands}

module _ {D : Type 0} (io : AtParser D) {app : Application D} (keeps : Keeps app) where
  pub serve-IsAwake :
      (locked : Bool) (s : Iface D) → IsAwake false s → IsAwake false (serve io app locked s)
  serve-IsAwake locked s a = elim (Bool-cases (ltb 0 s.pending)) [
    | inl call ↦ rw call (dispatch-IsAwake io keeps locked s a (ground arith))
    | inr none ↦ rw none a
  ]

module _ {D : Type 0} {io : AtParser D} {target : D → ℤ} {sent : ℕ → D → List ℕ}
    (ch : IsChannel io target sent) {app : Application D} (spares : Spares sent app)
    (keeps : Keeps app) {i : ℕ} {goal : List ℕ} {size : ℕ} (lt : i < 5) where
  landed :
      {k : ℕ} {s : Iface D} (m : ℕ)
      → k ≤ m
      → IsFlying sent i goal size k s
      → IsFlying sent i goal size m s
  landed m le v = record { alone = v.alone; status = weaken le v.status }

  -- With no call in the queue nothing is left to be sent.
  nothing_left :
      {k : ℕ} {s : Iface D} (m : ℕ)
      → IsAwake false s
      → ltb 0 s.pending ≡ false
      → IsFlying sent i goal size k s
      → IsFlying sent i goal size m s
  nothing_left {k} {s} m a z v = record { alone = v.alone; status = over v.status }
    where
      over :
          Delivers i goal size k (s.soc_tx i) (sent i s.bg96.dev)
          → Delivers i goal size m (s.soc_tx i) (sent i s.bg96.dev)
      over (inl d) = inl d
      over (inr p) = absurd (ground (arith, a.covered i lt, p.active))

  called :
      (k : ℕ) (locked : Bool) {s : Iface D}
      → IsFlying sent i goal size k s
      → IsFlying sent i goal size (k - (if locked then 1 else 0)) (dispatch io app locked s)
  called k false v = landed _ (omega arith) (dispatch-IsFlying ch spares false v)
  called zero true v = landed _ (omega arith) (dispatch-IsFlying ch spares true v)
  called (suc k) true v = landed _ (omega arith) (dispatch-lands ch spares (elem-slots i lt) v)

  serve-IsFlying :
      (k : ℕ) (locked : Bool) (s : Iface D)
      → IsAwake false s
      → IsFlying sent i goal size k s
      → IsFlying sent i goal size (k - (if locked then 1 else 0)) (serve io app locked s)
  serve-IsFlying k locked s a v = elim (Bool-cases (ltb 0 s.pending)) [
    | inl call ↦ rw call (called k locked v)
    | inr none ↦ rw none (nothing_left _ a none v)
  ]

  -- As many chances with a free mutex as pieces are needed, whatever chances are lost in between,
  -- leave nothing to be sent.
  pub serve_all-IsFlying :
      (k : ℕ) (rounds : List Bool) (s : Iface D)
      → IsAwake false s
      → IsFlying sent i goal size k s
      → k ≤ free_rounds rounds
      → IsFlying sent i goal size 0 (serve_all io app rounds s)
  unfolding serve_all free_rounds
  serve_all-IsFlying k [] s a v le = landed 0 le v
  serve_all-IsFlying k (locked ∷ r) s a v le =
      serve_all-IsFlying (k - (if locked then 1 else 0)) r _ (serve-IsAwake io keeps locked s a)
        (serve-IsFlying k locked s a v) (omega (arith, le))
