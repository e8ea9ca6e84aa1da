-- ===== src/Expose/Buffers.antt =====
-- Sequences of operations on one stream's buffer (internal/expose/stream.go).
use mutiauk.Base.{
  ℕ, ◌≤◌, ◌≡◌, ◌∙◌, sym, ap, Option, none, some, List, [], ◌∷◌, ◌++◌, Bytes, length, arith,
  length-append, length_zero, append-nil, append_assoc, take-append-drop, length-drop,
}
use mutiauk.Expose.Stream.{
  Stream, StreamError, Reading, got, failed, blocked, push, read, close_read, close_local,
  new_stream,
}

-- What the session and the handler do to a stream, in order.
pub data Op : Type 0 where
  pushes : Bytes → Op
  reads : (now n : ℕ) → Op
  ends closes : Op

-- The bytes that a push accepted and that a read gave.
abbrev taken : Bytes → Option StreamError → Bytes
taken payload none = payload
taken payload (some e) = []

abbrev given : Reading → Bytes
given (got b) = b
given (failed e) = []
given blocked = []

pub record Trace : Type 0 where
  pub accepted : Bytes
  pub returned : Bytes
  pub left : Stream

pub trace : List Op → Stream → Trace
unfolding push read close_read close_local
trace [] s = record { accepted = []; returned = []; left = s }
trace (pushes payload ∷ ops) s =
    let (e, s') = push payload s in
    let t = trace ops s' in
    record { accepted = taken payload e ++ t.accepted; returned = t.returned; left = t.left }
trace (reads now n ∷ ops) s =
    let (r, s') = read now n s in
    let t = trace ops s' in
    record { accepted = t.accepted; returned = given r ++ t.returned; left = t.left }
trace (ends ∷ ops) s = trace ops (close_read s)
trace (closes ∷ ops) s = trace ops (close_local s)

-- A step of the buffer keeps its bytes in order and its length within the limit.
abbrev Within : Stream → Type 0
Within s = length s.buf ≤ s.max_buffered_bytes

push-order :
    (payload : Bytes) (s : Stream)
    → s.buf ++ taken payload (push payload s).0 ≡ (push payload s).1.buf
unfolding push
push-order payload s = ground (arith, length_zero payload, append-nil s.buf)

push-Within : (payload : Bytes) (s : Stream) → Within s → Within (push payload s).1
unfolding push
push-Within payload s h = ground (arith, length-append s.buf payload)

read-order : (now n : ℕ) (s : Stream) → given (read now n s).0 ++ (read now n s).1.buf ≡ s.buf
unfolding read
read-order now n s = ground (arith, take-append-drop n s.buf)

read-Within : (now n : ℕ) (s : Stream) → Within s → Within (read now n s).1
unfolding read
read-Within now n s h = ground (arith, length-drop n s.buf)

close_local-same :
    (s : Stream)
    → ((close_local s).buf ≡ s.buf) × ((close_local s).max_buffered_bytes ≡ s.max_buffered_bytes)
unfolding close_local
close_local-same s = ground arith

abbrev Ordered : Stream → Trace → Type 0
Ordered s t = (s.buf ++ t.accepted ≡ t.returned ++ t.left.buf) × (Within s → Within t.left)

trace_order : (ops : List Op) (s : Stream) → Ordered s (trace ops s)
unfolding trace close_read
trace_order [] s = (append-nil s.buf, λ h. h)
trace_order (pushes payload ∷ ops) s = (
  sym (append_assoc s.buf (taken payload (push payload s).0) t.accepted)
      ∙ ap (λ b. b ++ t.accepted) (push-order payload s)
      ∙ (trace_order ops (push payload s).1).0,
  λ h. (trace_order ops (push payload s).1).1 (push-Within payload s h),
)
  where
    t : Trace
    t = trace ops (push payload s).1
trace_order (reads now n ∷ ops) s = (
  ap (λ b. b ++ t.accepted) (sym (read-order now n s))
      ∙ append_assoc (given (read now n s).0) (read now n s).1.buf t.accepted
      ∙ ap (λ b. given (read now n s).0 ++ b) (trace_order ops (read now n s).1).0
      ∙ sym (append_assoc (given (read now n s).0) t.returned t.left.buf),
  λ h. (trace_order ops (read now n s).1).1 (read-Within now n s h),
)
  where
    t : Trace
    t = trace ops (read now n s).1
trace_order (ends ∷ ops) s = trace_order ops (close_read s)
trace_order (closes ∷ ops) s = (
  ap (λ b. b ++ (trace ops (close_local s)).accepted) (sym (close_local-same s).0)
      ∙ (trace_order ops (close_local s)).0,
  λ h. (trace_order ops (close_local s)).1 (ground (arith, close_local-same s)),
)

-- For every sequence of pushes, reads and closes of a new stream: the bytes that the reads gave,
-- followed by those still buffered, are the bytes that the pushes accepted, in order; and the
-- buffer is never longer than its limit.
pub trace-new_stream :
    (ops : List Op) (id cap : ℕ)
    → ((trace ops (new_stream id cap)).returned ++ (trace ops (new_stream id cap)).left.buf
        ≡ (trace ops (new_stream id cap)).accepted)
      × Within (trace ops (new_stream id cap)).left
unfolding new_stream
trace-new_stream ops id cap = (
  sym (trace_order ops (new_stream id cap)).0,
  (trace_order ops (new_stream id cap)).1 (omega arith),
)
