-- ===== src/Tls/Timer.antt =====
-- TLS/BG96TLSSocket.cpp: recv and the thread timeout_task, which share timeout_ovf, a shared access
-- at a time. The test of the `while` and the call of sslrecv in its body are two steps, so that the
-- other thread may go on between them; sslrecv is one step, since the thread does not touch what it
-- reads and writes.
pub mod Patience
pub mod Ends
use bg96_driver.Prelude.{
  ℕ, ◌≡◌, ℤ, pos, negsuc, ◌==ℤ◌, ltb_ℤ, Bool, true, false, not, ◌&&◌, List, [], ◌++◌, drop, length,
  if◌then◌else◌,
}
use bg96_driver.At.{AtParser, Bg96, nsapi_error_timeout}
use bg96_driver.Driver.Tls
use bg96_driver.Tls.{TlsSocket}

-- Where timeout_task stands.
pub data Task : Type 0 where
  starting : Task  -- before `set_timeout_ovf(false)`
  testing_ovf : Task  -- before the test of the `while`
  sleeping : Task  -- in `Thread::wait`
  ended : Task  -- after the loop, terminated, or never started

-- Where recv stands, with `cnt` and what has been stored at `buffer`.
pub data Receiver : Type 0 where
  looping : (cnt : ℤ) (stored : List ℕ) → Receiver  -- before the test of the `while`
  asking : (cnt : ℤ) (stored : List ℕ) → Receiver  -- before the body of the `while`
  judging : (cnt : ℤ) (stored : List ℕ) → Receiver  -- after `timeout_thread.terminate()`
  returned : (result : ℤ) (stored : List ℕ) → Receiver

-- `rung` is whether a wait of timeout_task has come to its end.
pub record System (D : Type 0) : Type 0 where
  pub ovf : Bool
  pub task : Task
  pub receiver : Receiver
  pub bg96 : Bg96 D
  pub rung : Bool

-- After `timeout_thread.start`, which may refuse to start the thread.
abbrev pub begin : {D : Type 0} → Bool → Bool → Bg96 D → System D
begin started ovf b = record {
  ovf = ovf;
  task = if started then starting else ended;
  receiver = looping (negsuc 0) [];
  bg96 = b;
  rung = false;
}

-- `if (cnt == -1 && this->timeout_ovf) return NSAPI_ERROR_TIMEOUT; return cnt;`
abbrev pub verdict : ℤ → Bool → ℤ
verdict cnt ovf = if cnt ==ℤ negsuc 0 && ovf then nsapi_error_timeout else cnt

module _ {D : Type 0} (io : AtParser D) (sock : TlsSocket) (size : ℕ) where
  -- The body of the `while` of recv; what is read is stored over what an earlier attempt has.
  abbrev pub attempt : List ℕ → System D → System D
  attempt stored s =
      let ((cnt, bytes), b) = Tls.sslrecv io sock.client_id size s.bg96 in
      record s { receiver = looping cnt (bytes ++ drop (length bytes) stored); bg96 = b }

  pub data Step (s : System D) : System D → Type 0 where
    resets : s.task ≡ starting → Step s (record s { ovf = false; task = testing_ovf })
    sleeps : s.task ≡ testing_ovf → s.ovf ≡ false → Step s (record s { task = sleeping })
    ends : s.task ≡ testing_ovf → s.ovf ≡ true → Step s (record s { task = ended })
    rings : s.task ≡ sleeping → Step s (record s { ovf = true; task = testing_ovf; rung = true })
    asks :
        (cnt : ℤ) (stored : List ℕ)
        → s.receiver ≡ looping cnt stored
        → (not s.ovf && ltb_ℤ cnt (pos 0)) ≡ true
        → Step s (record s { receiver = asking cnt stored })
    receives :
        (cnt : ℤ) (stored : List ℕ) → s.receiver ≡ asking cnt stored → Step s (attempt stored s)
    leaves :
        (cnt : ℤ) (stored : List ℕ)
        → s.receiver ≡ looping cnt stored
        → (not s.ovf && ltb_ℤ cnt (pos 0)) ≡ false
        → Step s (record s { receiver = judging cnt stored; task = ended })
    returns :
        (cnt : ℤ) (stored : List ℕ)
        → s.receiver ≡ judging cnt stored
        → Step s (record s { receiver = returned (verdict cnt s.ovf) stored })

  pub data Reach (s : System D) : System D → Type 0 where
    here : Reach s s
    next : {t u : System D} → Reach s t → Step t u → Reach s u
