-- ===== src/Driver/Mqtt/Receive/Message.antt =====
-- BG96/BG96.cpp: the message that BG96::mqtt_checkAvail makes of a reply.
use bg96_driver.Prelude.{
  ℕ, ◌+◌, ◌≡◌, refl, arith, false, none, some, [], ◌∷◌, ◌++◌, length, length-append, elem, CStr,
}
use bg96_driver.Driver.Mqtt.Receive.{receive, upto_last_slash, drop_last}

upto_last_slash-none : (name : CStr) → elem b'/' name ≡ false → upto_last_slash name ≡ none
unfolding upto_last_slash
upto_last_slash-none [] h = refl
upto_last_slash-none (c ∷ cs) h = ground (arith, upto_last_slash-none cs)

upto_last_slash-append :
    (path name : CStr)
    → elem b'/' name ≡ false
    → upto_last_slash (path ++ b'/' ∷ name) ≡ some (path ++ b'/' ∷ [])
unfolding upto_last_slash
upto_last_slash-append [] name h = rw (upto_last_slash-none name h, upto_last_slash)
upto_last_slash-append (c ∷ path) name h = rw (upto_last_slash-append path name h, upto_last_slash)

drop_last-append : (t : CStr) (d : ℕ) → drop_last (t ++ d ∷ []) ≡ some t
unfolding drop_last
drop_last-append [] d = refl
drop_last-append (c ∷ []) d = refl
drop_last-append (c ∷ e ∷ t) d = rw (drop_last-append (e ∷ t) d)

-- Of a topic and a payload between two quotes the message has the topic with what follows its last
-- '/' replaced by '#', the payload without the quotes, and a length that is one more than the
-- payload's.
pub receive_quoted :
    (path name t : CStr) (open_quote close_quote : ℕ)
    → elem b'/' name ≡ false
    → receive (path ++ b'/' ∷ name) (open_quote ∷ t ++ close_quote ∷ [])
      ≡ some (record {
        topic = (path ++ b'/' ∷ []) ++ b'#' ∷ [];
        topic_len = length path + 2;
        payload = t;
        payload_len = length t + 1;
      })
unfolding receive
receive_quoted path name t open_quote close_quote h =
    rw
      (
        drop_last-append (open_quote ∷ t) close_quote,
        upto_last_slash-append path name h,
        receive,
        length-append (path ++ b'/' ∷ []) (b'#' ∷ []),
        length-append path (b'/' ∷ []),
      )
      (ground arith)
