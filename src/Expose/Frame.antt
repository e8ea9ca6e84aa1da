-- ===== src/Expose/Frame.antt =====
-- The frames of the expose protocol (internal/expose/protocol.go), and the length-prefixed messages
-- that carry them (internal/expose/transport.go).
use mutiauk.Base.{ℕ, ◌-◌, ◌&&◌, [], ◌∷◌, ◌++◌, ltb, if◌then◌else◌, Bytes, length, drop}
use mutiauk.Base.Conn.{Result, ok, err, Io, ◌>>=◌, throw, write, read_full}
use mutiauk.Base.Words.{put_uint32, put_uint64, read_uint32, read_uint64}

abbrev pub frame_register : ℕ
frame_register = 0x01

abbrev pub frame_register_ack : ℕ
frame_register_ack = 0x02

abbrev pub frame_unregister : ℕ
frame_unregister = 0x03

abbrev pub frame_unregister_ack : ℕ
frame_unregister_ack = 0x04

abbrev pub frame_open : ℕ
frame_open = 0x10

abbrev pub frame_open_ack : ℕ
frame_open_ack = 0x11

abbrev pub frame_data : ℕ
frame_data = 0x20

abbrev pub frame_close_write : ℕ
frame_close_write = 0x21

abbrev pub frame_close : ℕ
frame_close = 0x22

abbrev pub frame_ping : ℕ
frame_ping = 0xF0

abbrev pub frame_pong : ℕ
frame_pong = 0xF1

abbrev pub header_size : ℕ
header_size = 9

-- 1 << 20
abbrev pub max_payload_size : ℕ
max_payload_size = 1048576

pub record Frame : Type 0 where
  pub frame_type : ℕ
  pub stream_id : ℕ
  pub payload : Bytes

pub data FrameError : Type 0 where
  frame_too_short : FrameError
  payload_too_large : ℕ → FrameError

-- EncodeFrame and DecodeFrame.
unfoldable pub encode_frame : ℕ → ℕ → Bytes → Result FrameError Bytes
encode_frame typ stream_id payload =
    if ltb max_payload_size (length payload)
    then err (payload_too_large (length payload))
    else ok (typ ∷ (put_uint64 stream_id ++ payload))

-- The frame in a slice that holds its header.
unfoldable pub parse_frame : Bytes → Result FrameError Frame
parse_frame [] = err frame_too_short
parse_frame (typ ∷ rest) =
    ok (record { frame_type = typ; stream_id = read_uint64 rest; payload = drop 8 rest })

unfoldable pub decode_frame : Bytes → Result FrameError Frame
unfolding parse_frame
decode_frame message =
    if ltb (length message) header_size
    then err frame_too_short
    else (if ltb max_payload_size (length message - header_size)
        then err (payload_too_large (length message - header_size))
        else parse_frame message)

pub data TransportError : Type 0 where
  write_failed read_failed session_closed : TransportError
  message_too_large : ℕ → TransportError
  bad_frame : FrameError → TransportError

-- rawConn.WriteMessage and ReadMessage, with the limit on what is read; 0 is no limit.
unfoldable pub write_message : Bytes → Io TransportError (Unit {0})
write_message b = write write_failed (put_uint32 (length b) ++ b)

unfoldable pub read_message : ℕ → Io TransportError Bytes
read_message max_read = do
  len_buf ← read_full read_failed 4
  let n = read_uint32 len_buf
  if ltb 0 max_read && ltb max_read n then throw (message_too_large n) else read_full read_failed n
