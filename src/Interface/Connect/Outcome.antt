-- ===== src/Interface/Connect/Outcome.antt =====
-- BG96Interface.cpp: what BG96Interface::connect and gethostbyname promise.
use bg96_driver.Prelude.{
  ℕ, zero, suc, ◌≡◌, refl, arith, ℤ, negsuc, ◌==ℤ◌, Bool, true, false, Option, none, some, List,
  if◌then◌else◌, CStr, Option-cases, Bool-cases, inl, inr, ◌⊎◌,
}
use bg96_driver.At.{
  AtParser, Bg96, nsapi_error_ok, nsapi_error_device_error, nsapi_error_is_connected,
}
use bg96_driver.Driver.Network.{resolve_url}
use bg96_driver.Interface.{Iface}
use bg96_driver.Interface.Session.{disconnect, set_credentials}
use bg96_driver.Interface.Session.Power.{set_credentials_result}
use bg96_driver.Interface.Connect.{start_modem, leave, connect, try_resolve, gethostbyname}

module _ {D : Type 0} (io : AtParser D) where
  -- BG96Interface::connect never returns NSAPI_ERROR_OK: whenever it returns, the result is
  -- NSAPI_ERROR_DEVICE_ERROR or NSAPI_ERROR_IS_CONNECTED.
  connect_result :
      (rounds : ℕ) (monitor : ℤ) (apn username password : CStr) (s : Iface D) {r : ℤ} {t : Iface D}
      → connect io rounds monitor apn username password s ≡ some (r, t)
      → (r ≡ nsapi_error_device_error) ⊎ (r ≡ nsapi_error_is_connected)
  unfolding connect
  connect_result rounds monitor apn username password s {r} {t} e =
      let s₁ = (leave io s).1 in
      elim (Option-cases
        (start_modem io rounds rounds (io.read_ms s₁.bg96.dev) (leave io s).0 s₁.bg96)) [
          | inl f ↦ absurd (ground arith)
          | inr ((ok, b), f) ↦ elim (Bool-cases ok) [
            | inr failed ↦ ground arith
            | inl up ↦
                inr
                  (set_credentials_result io rounds apn username password
                    (record s₁ {
                      bg96 = b;
                      queue_id = if s₁.queue_id ==ℤ negsuc 0 then monitor else s₁.queue_id;
                    })
                    {r = r} {t = t} (ground arith)).0
          ]
        ]

  -- On an interface that is connected, where BG96Interface::disconnect fails, the modem is not
  -- started again: BG96Interface::connect goes on with set_credentials at once.
  connect_unstarted :
      (rounds : ℕ) (monitor : ℤ) (apn username password : CStr) (s : Iface D)
      → s.is_initialized ≡ nsapi_error_is_connected
      → (disconnect io s).0 ≡ nsapi_error_device_error
      → connect io (suc rounds) monitor apn username password s
        ≡ set_credentials io
            (suc rounds)
            apn
            username
            password
            (record (disconnect io s).1 { queue_id = monitor })
  unfolding connect leave start_modem disconnect
  connect_unstarted rounds monitor apn username password s i d = ground arith

  try_resolve_result :
      (rounds : ℕ) (numbers : CStr → List ℤ) (name : CStr) (b : Bg96 D) {r : Bool × CStr}
      {b' : Bg96 D}
      → try_resolve io rounds 0 numbers name b ≡ some (r, b')
      → r.0 ≡ true
  unfolding try_resolve
  try_resolve_result zero numbers name b e = absurd (ground arith)
  try_resolve_result (suc rounds) numbers name b {r} {b'} e = ground (
    arith,
    try_resolve_result rounds numbers name (resolve_url io numbers name b).1 {r = r} {b' = b'},
  )

  -- gethostbyname fails only by not returning: whenever it returns, the result is NSAPI_ERROR_OK.
  gethostbyname_result :
      (rounds : ℕ) (numbers : CStr → List ℤ) (name : CStr) (s : Iface D) {r : ℤ × Option CStr}
      {t : Iface D}
      → gethostbyname io rounds numbers name s ≡ some (r, t)
      → r.0 ≡ nsapi_error_ok
  unfolding gethostbyname
  gethostbyname_result rounds numbers name s e =
      elim (Option-cases (try_resolve io rounds 0 numbers name s.bg96)) [
        | inl f ↦ absurd (ground arith)
        | inr ((a, b), f) ↦ ground (arith, try_resolve_result rounds numbers name s.bg96 f)
      ]

  try_resolve_stuck :
      (unresolved : (numbers : CStr → List ℤ) (name : CStr) (b : Bg96 D)
        → (resolve_url io numbers name b).0.0 ≡ false)
      (rounds : ℕ) (numbers : CStr → List ℤ) (name : CStr) (b : Bg96 D)
      → try_resolve io rounds 0 numbers name b ≡ none
  unfolding try_resolve
  try_resolve_stuck unresolved zero numbers name b = refl
  try_resolve_stuck unresolved (suc n) numbers name b = ground (
    arith,
    unresolved numbers name b,
    try_resolve_stuck unresolved n numbers name (resolve_url io numbers name b).1,
  )

  -- With a modem that does not resolve the name gethostbyname does not return, whatever the number
  -- of rounds: the bound of three attempts is never reached.
  gethostbyname_stuck :
      (unresolved : (numbers : CStr → List ℤ) (name : CStr) (b : Bg96 D)
        → (resolve_url io numbers name b).0.0 ≡ false)
      (rounds : ℕ) (numbers : CStr → List ℤ) (name : CStr) (s : Iface D)
      → gethostbyname io rounds numbers name s ≡ none
  unfolding gethostbyname
  gethostbyname_stuck unresolved rounds numbers name s =
      rw (try_resolve_stuck unresolved rounds numbers name s.bg96, gethostbyname) refl
