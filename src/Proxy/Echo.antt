-- ===== src/Proxy/Echo.antt =====
-- ICMP echoes over a session's relay (internal/proxy/icmp_forwarder.go). Of a session only the
-- connection of its relay matters here; a reply that comes after the deadline is input that comes
-- after the read.
use mutiauk.Base.{
  ℕ, suc, ◌<◌, ◌≡◌, ◌≢◌, refl, ◌∙◌, sym, ◌+◌, not, Option, none, some, List, [], ◌∷◌, ◌++◌, ◌==◌,
  if◌then◌else◌, Bytes, length, All, arith, append-nil,
}
use mutiauk.Base.Conn.{Conn, Result, ok, err, write}
use mutiauk.Socks5.Client.{ClientError, echo_frame, send_echo, receive_echo}
use mutiauk.Socks5.Relay.{receive_echo-echo_frame}

pub data EchoError : Type 0 where
  relay_failed : ClientError → EchoError
  sequence_mismatch : (expected got : ℕ) → EchoError

unfoldable pub check_reply :
    ℕ → Result ClientError (Bytes × ℕ) × Conn → Result EchoError Bytes × Conn
check_reply seq (err e, c) = (err (relay_failed e), c)
check_reply seq (ok (payload, reply_seq), c) =
    if not (reply_seq == seq) then (err (sequence_mismatch seq reply_seq), c) else (ok payload, c)

unfoldable pub echo_sent : ℕ → Result ClientError (Unit {0}) × Conn → Result EchoError Bytes × Conn
unfolding check_reply receive_echo
echo_sent seq (err e, c) = (err (relay_failed e), c)
echo_sent seq (ok _, c) = check_reply seq (receive_echo c)

-- icmpSession.sendEcho
unfoldable pub send_session_echo : ℕ → ℕ → Bytes → Conn → Result EchoError Bytes × Conn
unfolding echo_sent send_echo
send_session_echo id seq payload c = echo_sent seq (send_echo id seq payload c)

-- The codes of mapAssociateError, for the reply code of the proxy if there is one.
abbrev pub reply_not_allowed : ℕ
reply_not_allowed = 2

abbrev pub reply_network_unreachable : ℕ
reply_network_unreachable = 3

abbrev pub reply_host_unreachable : ℕ
reply_host_unreachable = 4

abbrev pub reply_command_not_supported : ℕ
reply_command_not_supported = 7

unfoldable pub map_associate_error : Option ℕ → ℕ × ℕ
map_associate_error none = (1, 3)
map_associate_error (some code) =
    if code == reply_not_allowed
    then (13, 1)
    else (if code == reply_command_not_supported
        then (13, 1)
        else (if code == reply_network_unreachable then (0, 0) else (1, 3)))

send_echo_written :
    (id seq n : ℕ) (payload : Bytes) (c : Conn)
    → c.writes_left ≡ suc n
    → send_echo id seq payload c
      ≡ (ok tt, record c { output = c.output ++ echo_frame id seq payload; writes_left = n })
unfolding send_echo write
send_echo_written id seq n payload c h = rw h refl

-- What one echo does when the reply to an earlier one is all there is to read.
send_session_echo_late :
    (id seq old n : ℕ) (payload reply : Bytes) (c : Conn)
    → old < 65536
    → length reply < 65536
    → old ≢ seq
    → c.input ≡ echo_frame id old reply
    → c.writes_left ≡ suc n
    → send_session_echo id seq payload c ≡ (
      err (sequence_mismatch seq old),
      record c { input = []; output = c.output ++ echo_frame id seq payload; writes_left = n },
    )
unfolding send_session_echo echo_sent check_reply
send_session_echo_late id seq old n payload reply c ho hl ne hi hw = ground (
  arith,
  send_echo_written id seq n payload c hw,
  receive_echo-echo_frame id old reply []
      (record c { output = c.output ++ echo_frame id seq payload; writes_left = n }) ho hl
      (hi ∙ sym (append-nil (echo_frame id old reply))),
)

-- An echo of a session: its sequence number and payload, and the reply that the peer sends to it.
pub record Echo : Type 0 where
  pub seq : ℕ
  pub payload : Bytes
  pub reply : Bytes

-- Echoes one after the other, where the reply to each comes after the read of its own call.
pub late_echoes : ℕ → List Echo → Conn → List (Result EchoError Bytes)
unfolding send_session_echo
late_echoes id [] c = []
late_echoes id (e ∷ es) c =
    let (r, c') = send_session_echo id e.seq e.payload c in
    r ∷ late_echoes id es (record c' { input = c'.input ++ echo_frame id e.seq e.reply })

-- The sequence numbers and lengths fit 16 bits, and no number is that of the echo before.
abbrev pub Distinct : ℕ → List Echo → Type 0
Distinct old [] = Unit
Distinct old (e ∷ es) =
    (old ≢ e.seq) × (e.seq < 65536) × (length e.reply < 65536) × Distinct e.seq es

abbrev pub Mismatch : Result EchoError Bytes → Type 0
Mismatch (ok payload) = ⊥
Mismatch (err (relay_failed e)) = ⊥
Mismatch (err (sequence_mismatch expected got)) = expected ≢ got

-- Once the reply to one echo has come after its call gave up, every later echo of the session fails
-- with a sequence mismatch, however many there are and although each is answered, as long as no
-- two echoes in a row have the same number and the writes succeed.
pub late_echoes-Mismatch :
    (id old n : ℕ) (reply : Bytes) (es : List Echo) (c : Conn)
    → old < 65536
    → length reply < 65536
    → Distinct old es
    → c.input ≡ echo_frame id old reply
    → c.writes_left ≡ length es + n
    → All Mismatch (late_echoes id es c)
unfolding late_echoes
late_echoes-Mismatch id old n reply [] c ho hl d hi hw = tt
late_echoes-Mismatch id old n reply (e ∷ es) c ho hl d hi hw =
    rw
      (send_session_echo_late id e.seq old (length es + n) e.payload reply c ho hl d.0 hi
        (omega arith))
      (λ e'. d.0 (sym e'), late_echoes-Mismatch id e.seq n e.reply es _ d.1 d.2 d.3 refl refl)
