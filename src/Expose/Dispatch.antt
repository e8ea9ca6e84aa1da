-- ===== src/Expose/Dispatch.antt =====
-- The dispatch of inbound frames (internal/expose/session.go).
use mutiauk.Base.{
  ℕ, suc, ◌+◌, Bool, true, false, not, Option, none, some, List, [], ◌∷◌, ◌++◌, leb, ◌==◌,
  if◌then◌else◌, is_some, Bytes, Text, text_discrete, ℕ_discrete,
}
use mutiauk.Base.Conn.{Result, ok, err}
use mutiauk.Base.GoMap.{put}
use mutiauk.Expose.Frame.{
  Frame, FrameError, bad_frame, frame_register_ack, frame_unregister_ack, frame_open, frame_data,
  frame_register, frame_unregister, decode_frame, frame_close_write, frame_close, frame_ping,
  frame_pong,
}
use mutiauk.Expose.Stream.{Stream, StreamError, new_stream, push, close_read, close_local}
use mutiauk.Expose.Session.{
  bad_open_payload, duplicate_stream_id, no_handler, cap_reached, AckResult, Json, Session,
  SessionError, transport, bad_ack_payload, Step, update, write_control, write_open_ack, key_count,
  stream_at, remove_stream, close_stream, write_data,
}

-- The bookkeeping of an accepted OPEN, before its acknowledgement is written.
unfoldable pub register : ℕ → Text → Session → Session
unfolding new_stream
register id k s = record (update s.next_ref (new_stream id s.max_buffered_bytes) s) {
  next_ref = suc s.next_ref;
  streams = put ℕ_discrete id s.next_ref s.streams;
  key_by_id = put ℕ_discrete id k s.key_by_id;
  key_counts = put text_discrete k (key_count k s + 1) s.key_counts;
}

-- What follows the acknowledgement: the stream is served, or dropped again if the write failed.
unfoldable pub opened : ℕ → ℕ → Option SessionError × Session → Option SessionError × Session
unfolding remove_stream close_local
opened id r (none, s) = (none, record s { served = s.served ++ r ∷ [] })
opened id r (some e, s) =
    let removed = remove_stream id s in (some e, update r (close_local (removed.store r)) removed)

unfoldable pub open_key : Json → (Text → Bool) → ℕ → Option Text → Step
unfolding write_open_ack register opened
open_key json has_handler id none s = (none, (write_open_ack json id (some bad_open_payload) s).1)
open_key json has_handler id (some k) s =
    if not (has_handler k)
    then (none, (write_open_ack json id (some (no_handler k)) s).1)
    else (if is_some (stream_at id s)
        then (none, (write_open_ack json id (some duplicate_stream_id) s).1)
        else (if leb s.max_streams_per_key (key_count k s)
            then (none, (write_open_ack json id (some (cap_reached s.max_streams_per_key)) s).1)
            else opened id s.next_ref (write_open_ack json id none (register id k s))))

unfoldable pub handle_open : Json → (Text → Bool) → Frame → Step
unfolding open_key
handle_open json has_handler f = open_key json has_handler f.stream_id (json.read_open f.payload)

-- handleData, on the stream that the map gave.
unfoldable pub pushed : ℕ → Option StreamError × Stream → Session → Session
unfolding close_stream
pushed r (none, st) s = update r st s
pushed r (some e, st) s = close_stream r s

unfoldable pub data_to : Option ℕ → Bytes → Session → Session
unfolding pushed push
data_to none payload s = s
data_to (some r) payload s = pushed r (push payload (s.store r)) s

unfoldable pub handle_data : Frame → Session → Session
unfolding data_to
handle_data f s = data_to (stream_at f.stream_id s) f.payload s

unfoldable pub close_write_of : Option ℕ → Session → Session
unfolding close_read
close_write_of none s = s
close_write_of (some r) s = update r (close_read (s.store r)) s

unfoldable pub handle_close_write : Frame → Session → Session
unfolding close_write_of
handle_close_write f s = close_write_of (stream_at f.stream_id s) s

unfoldable pub close_of : Option ℕ → Session → Session
unfolding close_read close_local
close_of none s = s
close_of (some r) s = update r (close_local (close_read (s.store r))) s

unfoldable pub handle_close : Frame → Session → Session
unfolding close_of remove_stream
handle_close f s = close_of (stream_at f.stream_id s) (remove_stream f.stream_id s)

-- The callback is called once for each result.
unfoldable pub calls : Option ℕ → List AckResult → List (ℕ × AckResult)
calls none results = []
calls (some cb) [] = []
calls (some cb) (r ∷ results) = (cb, r) ∷ calls (some cb) results

unfoldable pub ack_with : Bool → Option (List AckResult) → Step
unfolding calls
ack_with is_register none s = (some bad_ack_payload, s)
ack_with true (some results) s =
    (none, record s { pending_register = none; acks = s.acks ++ calls s.pending_register results })
ack_with false (some results) s = (
  none,
  record s { pending_unregister = none; acks = s.acks ++ calls s.pending_unregister results },
)

unfoldable pub handle_ack : Json → Bool → Frame → Step
unfolding ack_with
handle_ack json is_register f = ack_with is_register (json.read_ack f.payload)

-- dispatch; `now` is read for a PONG. The other frame types are logged and ignored.
unfoldable pub dispatch : Json → (Text → Bool) → ℕ → Frame → Step
unfolding handle_ack handle_open handle_data handle_close_write handle_close write_control
dispatch json has_handler now f s =
    if f.frame_type == frame_register_ack
    then handle_ack json true f s
    else (if f.frame_type == frame_unregister_ack
        then handle_ack json false f s
        else (if f.frame_type == frame_open
            then handle_open json has_handler f s
            else (if f.frame_type == frame_data
                then (none, handle_data f s)
                else (if f.frame_type == frame_close_write
                    then (none, handle_close_write f s)
                    else (if f.frame_type == frame_close
                        then (none, handle_close f s)
                        else (if f.frame_type == frame_ping
                            then write_control frame_pong 0 f.payload s
                            else (if f.frame_type == frame_pong
                                then (none, record s { last_pong_at = now })
                                else (none, s))))))))

-- One round of runReader: a message that does not decode ends the session with an error.
unfoldable pub received : Json → (Text → Bool) → ℕ → Result FrameError Frame → Step
unfolding dispatch
received json has_handler now (err e) s = (some (transport (bad_frame e)), s)
received json has_handler now (ok f) s = dispatch json has_handler now f s

unfoldable pub receive : Json → (Text → Bool) → ℕ → Bytes → Step
unfolding received decode_frame
receive json has_handler now message s = received json has_handler now (decode_frame message) s

-- SendRegister and SendUnregister, with the encoded body and the callback.
unfoldable pub send_register : ℕ → Bytes → Step
unfolding write_control
send_register cb body s =
    write_control frame_register 0 body (record s { pending_register = some cb })

unfoldable pub send_unregister : ℕ → Bytes → Step
unfolding write_control
send_unregister cb body s =
    write_control frame_unregister 0 body (record s { pending_unregister = some cb })

-- stream.Write; `none` is the closed stream's own error.
unfoldable pub stream_write : ℕ → Bytes → Session → Option (Option SessionError) × Session
unfolding write_data
stream_write r b s =
    let (e, s') = write_data (s.store r).id b s in
    if (s.store r).closed then (none, s) else (some e, s')
