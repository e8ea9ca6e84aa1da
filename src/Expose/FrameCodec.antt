-- ===== src/Expose/FrameCodec.antt =====
-- Frames and messages, written and read (internal/expose/protocol.go, transport.go).
use mutiauk.Base.{
  ℕ, ◌+◌, ◌≤◌, ◌<◌, ◌≡◌, refl, ◌∙◌, [], ◌∷◌, ◌++◌, Bytes, length, drop, arith, length-append,
  length-drop, ◌⊎◌,
}
use mathlib.Core.List.{append_assoc, append-nil}
use mutiauk.Base.Conn.{Conn, ok, read_full-append}
use mutiauk.Base.Words.{put_uint32, put_uint64, read_uint32, read-put_uint32, read-put_uint64}
use mutiauk.Expose.Frame.{
  Frame, header_size, max_payload_size, encode_frame, decode_frame, read_failed, read_message,
}

length-put_uint64 : (n : ℕ) → length (put_uint64 n) ≡ 8
unfolding put_uint64
length-put_uint64 n = refl

drop-put_uint64 : (n : ℕ) (rest : Bytes) → drop 8 (put_uint64 n ++ rest) ≡ rest
unfolding put_uint64
drop-put_uint64 n rest = refl

length-put_uint32 : (n : ℕ) → length (put_uint32 n) ≡ 4
unfolding put_uint32
length-put_uint32 n = refl

word32-back : (n : ℕ) → n < 4294967296 → read_uint32 (put_uint32 n) ≡ n
word32-back n h = omega (arith, rw append-nil at (read-put_uint32 n []))

-- DecodeFrame gives back the frame that EncodeFrame wrote.
pub decode_frame-encode_frame :
    (typ id : ℕ) (payload message : Bytes)
    → id < 18446744073709551616
    → encode_frame typ id payload ≡ ok message
    → decode_frame message ≡ ok (record { frame_type = typ; stream_id = id; payload = payload })
unfolding encode_frame decode_frame
decode_frame-encode_frame typ id payload message hid h = ground (
  arith,
  length-put_uint64 id,
  length-append (put_uint64 id) payload,
  drop-put_uint64 id payload,
  read-put_uint64 id payload hid,
)

-- A frame that is accepted has a payload within the limit, and its message is the header longer.
pub decode_frame_bounds :
    (message : Bytes) (f : Frame)
    → decode_frame message ≡ ok f
    → (length f.payload + header_size ≡ length message) × (length f.payload ≤ max_payload_size)
unfolding decode_frame
decode_frame_bounds [] f h = ground arith
decode_frame_bounds (t ∷ rest) f h = ground (arith, length-drop 8 rest)

-- A message within the reader's limit is read back, and what follows it stays on the connection.
pub read_message_written :
    (max_read : ℕ) (b rest : Bytes) (c : Conn)
    → length b < 4294967296
    → (max_read ≡ 0) ⊎ (length b ≤ max_read)
    → c.input ≡ (put_uint32 (length b) ++ b) ++ rest
    → read_message max_read c ≡ (ok b, record c { input = rest })
unfolding read_message
read_message_written max_read b rest c hb hm hi = ground (
  arith,
  read_full-append read_failed 4 (put_uint32 (length b)) (b ++ rest) c
      (length-put_uint32 (length b)) (hi ∙ append_assoc (put_uint32 (length b)) b rest),
  word32-back (length b) hb,
  read_full-append read_failed (length b) b rest (record c { input = b ++ rest }) refl refl,
)
