-- ===== src/Tests/Timer.antt =====
-- Runs of recv of a TLS socket beside timeout_task, on a modem that does not answer.
use bg96_driver.Prelude.{ℕ, ◌+◌, ◌≤◌, ◌≡◌, ◌⊎◌, refl, pos, negsuc, ltb_ℤ, true, false, []}
use bg96_driver.At.{nsapi_error_timeout}
use bg96_driver.Driver.Tls.{sslrecv}
use bg96_driver.Tls.{new_tls_socket}
use bg96_driver.Tls.Timer.{
  System, returned, resets, sleeps, rings, asks, receives, leaves, returns, Reach, here, next,
  begin,
}
use bg96_driver.Tls.Timer.Ends.{own_steps, steps_left, Goes, Reach-ends}
use bg96_driver.Tls.Timer.Patience.{Reach-patient, Reach-rung, Reach-stale}
use bg96_driver.Tests.Fixtures.{silent, at_rest}

-- The thread starts, recv asks once, and takes the 0 bytes for an answer.
abbrev Ran : System ℕ → Type 0
Ran t = Reach silent new_tls_socket 8 (begin true false at_rest) t

asked_once : (t : System ℕ) × Ran t × (t.receiver ≡ returned (pos 0) []) × (t.rung ≡ false)
unfolding sslrecv
asked_once = (
  _,
  next
      (next
        (next (next (next here (resets refl)) (asks (negsuc 0) [] refl refl))
          (receives (negsuc 0) [] refl))
        (leaves (pos 0) [] refl refl))
      (returns (pos 0) [] refl),
  refl,
  refl,
)

Reach-patient_example : ltb_ℤ (pos 0) (pos 0) ≡ false
Reach-patient_example =
    Reach-patient silent new_tls_socket 8 true at_rest (pos 0) [] asked_once.1 asked_once.2
      asked_once.3

-- The wait ends when recv has tested the flag and not yet asked.
rung_first :
    (t : System ℕ) × Ran t × (t.rung ≡ true) × (u : System ℕ) × Reach silent new_tls_socket 8 t u
rung_first = (
  _,
  next (next (next (next here (resets refl)) (sleeps refl refl)) (asks (negsuc 0) [] refl refl))
      (rings refl),
  refl,
  _,
  next here (receives (negsuc 0) [] refl),
)

Reach-rung_example :
    (rung_first.3.bg96 ≡ rung_first.0.bg96)
    ⊎ (rung_first.3.bg96 ≡ (sslrecv silent new_tls_socket.client_id 8 rung_first.0.bg96).1)
Reach-rung_example =
    Reach-rung silent new_tls_socket 8 true false at_rest rung_first.1 rung_first.2 rung_first.4

Reach-stale_example :
    (t : System ℕ) × Reach silent new_tls_socket 8 (begin true true at_rest) t
    × (t.receiver ≡ returned nsapi_error_timeout [])
    × (t.rung ≡ false)
    × (t.bg96 ≡ at_rest)
Reach-stale_example = Reach-stale silent new_tls_socket 8 true at_rest

Reach-ends_example :
    (own_steps silent new_tls_socket 8 rung_first.4 + steps_left rung_first.3.receiver ≤ 3)
    × Goes silent new_tls_socket 8 rung_first.3
Reach-ends_example =
    Reach-ends silent new_tls_socket 8 true false at_rest rung_first.1 rung_first.2 rung_first.4
