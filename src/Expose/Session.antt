-- ===== src/Expose/Session.antt =====
-- The session (internal/expose/session.go): frame dispatch, opening and dropping streams, and what
-- it writes. Streams are references into a store, since the handlers keep them after the session
-- has dropped them. The writes of the session go through `wire`, in the order of its write mutex.
--
-- JSON bodies are encoded and decoded by `Json`, and the handlers known by key are `has_handler`;
-- both are arguments. `open_ack` encodes the body for success (`none`) or a refusal.
use mutiauk.Base.{
  ℕ, zero, suc, min, ◌-◌, Bool, true, false, Option, none, some, List, [], ◌∷◌, ltb, ◌==◌,
  if◌then◌else◌, is_some, Bytes, Text, text_discrete, ℕ_discrete, length, take, drop,
}
use mutiauk.Base.Conn.{Conn, Result, ok, err}
use mutiauk.Base.GoMap.{find, put, delete, values}
use mutiauk.Expose.Frame.{
  FrameError, encode_frame, TransportError, session_closed, bad_frame, write_message,
  frame_open_ack, frame_data, frame_close,
}
use mutiauk.Expose.Stream.{Stream, new_stream, close_local}

pub data Refusal : Type 0 where
  bad_open_payload duplicate_stream_id : Refusal
  no_handler : Text → Refusal
  cap_reached : ℕ → Refusal

pub record AckResult : Type 0 where
  pub key : Text
  pub accepted : Bool
  pub error : Text

pub record Json : Type 0 where
  pub read_open : Bytes → Option Text
  pub read_ack : Bytes → Option (List AckResult)
  pub open_ack : Option Refusal → Bytes

pub record Session : Type 0 where
  pub max_streams_per_key : ℕ
  pub max_buffered_bytes : ℕ
  pub wire : Conn
  pub write_closed : Bool
  pub store : ℕ → Stream
  pub next_ref : ℕ
  pub streams : List (ℕ × ℕ)
  pub key_by_id : List (ℕ × Text)
  pub key_counts : List (Text × ℕ)
  pub last_pong_at : ℕ
  pub pending_register : Option ℕ
  pub pending_unregister : Option ℕ
  -- The calls made of the registered callbacks, and the streams handed to `serveStream`.
  pub acks : List (ℕ × AckResult)
  pub served : List ℕ

pub data SessionError : Type 0 where
  transport : TransportError → SessionError
  bad_ack_payload : SessionError

-- What a step of the session returns: an error or nil, and the session after it.
abbrev pub Step : Type 0
Step = Session → Option SessionError × Session

-- newSession; a limit of 0 asks for the default.
unfoldable pub new_session : Conn → ℕ → ℕ → ℕ → Session
new_session wire max_streams max_buffered now = record {
  max_streams_per_key = if max_streams == 0 then 256 else max_streams;
  max_buffered_bytes = if max_buffered == 0 then 16_777_216 else max_buffered;
  wire = wire;
  write_closed = false;
  store = new_stream 0;
  next_ref = 0;
  streams = [];
  key_by_id = [];
  key_counts = [];
  last_pong_at = now;
  pending_register = none;
  pending_unregister = none;
  acks = [];
  served = [];
}

-- A stream of the store, changed in place.
abbrev pub update : ℕ → Stream → Session → Session
update r st s = record s { store = λ q. if r == q then st else s.store q }

unfoldable pub sent :
    Session → Result TransportError (Unit {0}) × Conn → Option SessionError × Session
sent s (ok _, wire) = (none, record s { wire = wire })
sent s (err e, wire) = (some (transport e), record s { wire = wire })

unfoldable pub write_raw : Bytes → Step
unfolding sent write_message
write_raw frame s =
    if s.write_closed
    then (some (transport session_closed), s)
    else sent s (write_message frame s.wire)

unfoldable pub write_encoded : Result FrameError Bytes → Step
unfolding write_raw
write_encoded (err e) s = (some (transport (bad_frame e)), s)
write_encoded (ok frame) s = write_raw frame s

unfoldable pub write_control : ℕ → ℕ → Bytes → Step
unfolding write_encoded encode_frame
write_control typ id payload s = write_encoded (encode_frame typ id payload) s

unfoldable pub write_open_ack : Json → ℕ → Option Refusal → Step
unfolding write_control
write_open_ack json id refusal = write_control frame_open_ack id (json.open_ack refusal)

-- A missing count reads as 0.
abbrev pub count_of : Option ℕ → ℕ
count_of none = 0
count_of (some n) = n

abbrev pub key_count : Text → Session → ℕ
key_count k s = count_of (find text_discrete k s.key_counts)

abbrev pub stream_at : ℕ → Session → Option ℕ
stream_at id s = find ℕ_discrete id s.streams

-- The counter of a key after one stream of it is dropped: decremented if positive, deleted at zero.
unfoldable pub drop_count : Text → List (Text × ℕ) → List (Text × ℕ)
drop_count k m =
    let n = count_of (find text_discrete k m) in
    let lowered = if ltb 0 n then put text_discrete k (n - 1) m else m in
    if count_of (find text_discrete k lowered) == 0 then delete text_discrete k lowered else lowered

unfoldable pub drop_key : ℕ → Option Text → Session → Session
unfolding drop_count
drop_key id none s = s
drop_key id (some k) s = record s {
  key_by_id = delete ℕ_discrete id s.key_by_id;
  key_counts = drop_count k s.key_counts;
}

-- dropStreamLocked, and so removeStream.
unfoldable pub remove_stream : ℕ → Session → Session
unfolding drop_key
remove_stream id s =
    if is_some (stream_at id s)
    then drop_key id (find ℕ_discrete id s.key_by_id)
        (record s { streams = delete ℕ_discrete id s.streams })
    else s

-- stream.Close, which the handler's side calls and the session on an overflow.
unfoldable pub close_stream : ℕ → Session → Session
unfolding remove_stream write_control
close_stream r s =
    let st = s.store r in
    let removed = remove_stream st.id (update r (record st { closed = true }) s) in
    if st.closed then s else (write_control frame_close st.id [] removed).1

-- Session.Close and shutdown.
unfoldable pub close_all_streams : List ℕ → Session → Session
unfolding close_local
close_all_streams [] s = s
close_all_streams (r ∷ rs) s = close_all_streams rs (update r (close_local (s.store r)) s)

unfoldable pub shutdown : Session → Session
unfolding close_all_streams
shutdown s = record (close_all_streams (values s.streams) s) {
  streams = [];
  key_by_id = [];
  key_counts = [];
  write_closed = true;
}

-- writeData: the frames of a large write, one for each chunk. A round takes a byte at least, so the
-- length of the slice is fuel enough.
abbrev pub max_data_chunk : ℕ
max_data_chunk = 1048567

unfoldable pub write_chunks : ℕ → ℕ → Bytes → Step
unfolding write_control
write_chunks zero id b s = (none, s)
write_chunks (suc fuel) id b s =
    let n = min (length b) max_data_chunk in
    let (e, s') = write_control frame_data id (take n b) s in
    let rest = write_chunks fuel id (drop n b) s' in
    if length b == 0 then (none, s) else (if is_some e then (e, s') else rest)

unfoldable pub write_data : ℕ → Bytes → Step
unfolding write_chunks
write_data id b s = write_chunks (length b) id b s
