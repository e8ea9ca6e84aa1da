-- ===== src/Expose/Samples.antt =====
-- A short session, and the theorems at concrete inputs.
use mutiauk.Base.{
  ◌≡◌, refl, Bool, none, some, List, [], ◌∷◌, ◌++◌, length, ◌≤◌, does, Bytes, Text, bytes,
  text_discrete, arith,
}
use mutiauk.Base.Conn.{Conn, ok}
use mutiauk.Base.Words.{put_uint64}
use mutiauk.Expose.Frame.{encode_frame, decode_frame, frame_open, frame_data}
use mutiauk.Expose.FrameCodec.{decode_frame-encode_frame}
use mutiauk.Expose.Stream.{new_stream}
use mutiauk.Expose.Session.{write_chunks, write_data, Session, Json, new_session}
use mutiauk.Expose.Chunks.{write_data-enough}
use mutiauk.Expose.Run.{arrives, run, run-new_session-Balanced}
use mutiauk.Expose.Bookkeeping.{Balanced}
use mutiauk.Expose.Buffers.{Op, pushes, reads as reads_stream, trace, trace-new_stream}

-- An OPEN carries its key as it stands.
abbrev json : Json
json = record { read_open = λ b. some b; read_ack = λ b. none; open_ack = λ r. 1 ∷ [] }

abbrev has_handler : Text → Bool
has_handler k = does (text_discrete k (bytes "web"))

abbrev wire : Conn
wire = record { input = []; output = []; writes_left = 9 }

abbrev idle : Session
idle = new_session wire 1 64 5

abbrev open_web : Bytes
open_web = frame_open ∷ (put_uint64 7 ++ bytes "web")

abbrev some_data : Bytes
some_data = frame_data ∷ (put_uint64 7 ++ bytes "hello")

abbrev busy : Session
busy = run json has_handler (arrives 6 open_web ∷ arrives 7 some_data ∷ []) idle

run-new_session-Balanced_example : Balanced busy
run-new_session-Balanced_example =
    run-new_session-Balanced json has_handler wire 1 64 5
      (arrives 6 open_web ∷ arrives 7 some_data ∷ [])

abbrev stuck : Session
stuck = new_session (record { input = []; output = []; writes_left = 0 }) 1 64 5

decode_frame-encode_frame_example :
    decode_frame (32 ∷ 0 ∷ 0 ∷ 0 ∷ 0 ∷ 0 ∷ 0 ∷ 1 ∷ 2 ∷ 5 ∷ 6 ∷ [])
    ≡ ok (record { frame_type = 32; stream_id = 258; payload = 5 ∷ 6 ∷ [] })
unfolding encode_frame put_uint64
decode_frame-encode_frame_example =
    decode_frame-encode_frame 32 258 (5 ∷ 6 ∷ []) _ (omega arith) refl

abbrev ops : List Op
ops = pushes (bytes "hello") ∷ reads_stream 0 2 ∷ pushes (bytes "!") ∷ []

trace-new_stream_example :
    ((trace ops (new_stream 7 8)).returned ++ (trace ops (new_stream 7 8)).left.buf
      ≡ (trace ops (new_stream 7 8)).accepted)
    × (length (trace ops (new_stream 7 8)).left.buf
        ≤ (trace ops (new_stream 7 8)).left.max_buffered_bytes)
trace-new_stream_example = trace-new_stream ops 7 8

write_data-enough_example :
    write_chunks 9 7 (bytes "hello") idle ≡ write_data 7 (bytes "hello") idle
write_data-enough_example = write_data-enough 9 7 (bytes "hello") idle (omega arith)
