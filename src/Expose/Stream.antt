-- ===== src/Expose/Stream.antt =====
-- One multiplexed stream (internal/expose/stream.go), without its session. The condition variable
-- has no state: a Read that would wait answers `blocked`, and runs again when it is woken.
use mutiauk.Base.{
  ℕ, ◌+◌, Bool, true, false, ◌&&◌, not, Option, none, some, [], ◌++◌, ltb, leb, ◌==◌, if◌then◌else◌,
  Bytes, length, take, drop,
}

pub record Stream : Type 0 where
  pub id : ℕ
  pub max_buffered_bytes : ℕ
  pub buf : Bytes
  pub rx_eof : Bool
  pub closed : Bool
  pub read_deadline : Option ℕ

pub data StreamError : Type 0 where
  closed_stream buffer_overflow eof deadline_exceeded : StreamError

-- newStream, where `cap` is the session's limit; 0 asks for the default of 16 MiB.
unfoldable pub new_stream : ℕ → ℕ → Stream
new_stream id cap = record {
  id = id;
  max_buffered_bytes = if ltb 0 cap then cap else 16_777_216;
  buf = [];
  rx_eof = false;
  closed = false;
  read_deadline = none;
}

unfoldable pub push : Bytes → Stream → Option StreamError × Stream
push payload s =
    if length payload == 0
    then (none, s)
    else (if s.closed
        then (some closed_stream, s)
        else (if ltb s.max_buffered_bytes (length s.buf + length payload)
            then (some buffer_overflow, s)
            else (none, record s { buf = s.buf ++ payload })))

unfoldable pub close_read : Stream → Stream
close_read s = record s { rx_eof = true }

unfoldable pub close_local : Stream → Stream
close_local s = if s.closed then s else record s { closed = true }

pub data Reading : Type 0 where
  got : Bytes → Reading
  failed : StreamError → Reading
  blocked : Reading

-- `!now.Before(deadline)`
unfoldable pub passed : ℕ → Option ℕ → Bool
passed now none = false
passed now (some deadline) = leb deadline now

-- Read into a buffer of n bytes.
unfoldable pub read : ℕ → ℕ → Stream → Reading × Stream
unfolding passed
read now n s =
    if n == 0
    then (got [], s)
    else (if length s.buf == 0 && not s.rx_eof && not s.closed
        then (if passed now s.read_deadline then failed deadline_exceeded else blocked, s)
        else (if ltb 0 (length s.buf)
            then (got (take n s.buf), record s { buf = drop n s.buf })
            else (if s.rx_eof then (failed eof, s) else (failed closed_stream, s))))
