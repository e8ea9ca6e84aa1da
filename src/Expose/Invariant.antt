-- ===== src/Expose/Invariant.antt =====
-- The invariant of the maps of a session, handler by handler (internal/expose/session.go).
use mutiauk.Base.{
  ℕ, zero, suc, min, length, take, ◌≡◌, refl, true, false, not, Bool, Option, none, some, List, [],
  leb, ◌==◌, is_some, Text, Bytes, arith, if_cases,
}
use mutiauk.Base.GoMap.{find}
use mutiauk.Expose.Frame.{
  Frame, frame_close, frame_register_ack, frame_unregister_ack, frame_open, frame_open_ack,
  frame_data, frame_close_write, frame_ping, frame_pong,
}
use mutiauk.Expose.Stream.{Stream, StreamError, push}
use mutiauk.Expose.Session.{
  Session, SessionError, AckResult, Refusal, no_handler, duplicate_stream_id, cap_reached, Json,
  update, key_count, stream_at, write_control, write_open_ack, close_stream, shutdown,
  max_data_chunk, write_chunks,
}
use mutiauk.Expose.Dispatch.{
  register, opened, open_key, pushed, data_to, close_write_of, close_of, ack_with, handle_ack,
  dispatch,
}
use mutiauk.Expose.Bookkeeping.{
  Balanced, tally, write_control_keeps, remove_stream-Balanced, register-Balanced,
}

-- A step that leaves the three maps and the limit alone.
pub same_maps-Balanced :
    (s t : Session)
    → t.streams ≡ s.streams
    → t.key_by_id ≡ s.key_by_id
    → t.key_counts ≡ s.key_counts
    → t.max_streams_per_key ≡ s.max_streams_per_key
    → Balanced s
    → Balanced t
same_maps-Balanced s t es ek ec em b = record {
  streams_unique = rw es b.streams_unique;
  keys_unique = rw ek b.keys_unique;
  same_ids = rw (es, ek) b.same_ids;
  counted = rw (ec, ek) b.counted;
  capped = rw (ec, em) b.capped;
}

pub update-Balanced : (r : ℕ) (st : Stream) (s : Session) → Balanced s → Balanced (update r st s)
update-Balanced r st s = same_maps-Balanced s _ refl refl refl refl

pub write_control-Balanced :
    (typ id : ℕ) (payload : Bytes) (s : Session)
    → Balanced s
    → Balanced (write_control typ id payload s).1
write_control-Balanced typ id payload s b =
    write_control_keeps Balanced typ id payload s
      (λ w. same_maps-Balanced s _ refl refl refl refl b)

pub close_stream-Balanced : (r : ℕ) (s : Session) → Balanced s → Balanced (close_stream r s)
unfolding close_stream
close_stream-Balanced r s b =
    if_cases Balanced (s.store r).closed (λ _. b)
      (λ _.
        write_control-Balanced frame_close _ [] _
          (remove_stream-Balanced _ _ (update-Balanced r _ s b)))

opened-Balanced :
    (id r : ℕ) (p : Option SessionError × Session) → Balanced p.1 → Balanced (opened id r p).1
unfolding opened
opened-Balanced id r (none, s) b = same_maps-Balanced s _ refl refl refl refl b
opened-Balanced id r (some e, s) b = update-Balanced r _ _ (remove_stream-Balanced id s b)

abbrev Kept : Option SessionError × Session → Type 0
Kept p = Balanced p.1

open_key-Balanced :
    (json : Json) (has_handler : Text → Bool) (id : ℕ) (o : Option Text) (s : Session)
    → Balanced s
    → Balanced (open_key json has_handler id o s).1
unfolding open_key write_open_ack
open_key-Balanced json has_handler id none s b = write_control-Balanced frame_open_ack id _ s b
open_key-Balanced json has_handler id (some k) s b =
    if_cases Kept (not (has_handler k)) (λ _. refuse (no_handler k))
      (λ _.
        if_cases Kept (is_some (stream_at id s)) (λ _. refuse duplicate_stream_id)
          (λ free.
            if_cases Kept (leb s.max_streams_per_key (key_count k s))
              (λ _. refuse (cap_reached s.max_streams_per_key))
              (λ room.
                opened-Balanced id s.next_ref (write_open_ack json id none (register id k s)) (
                  write_control-Balanced frame_open_ack id (json.open_ack none) (register id k s)
                    (register-Balanced id k s (ground arith) (ground arith) b)))))
  where
    refuse : (r : Refusal) → Balanced (write_control frame_open_ack id (json.open_ack (some r)) s).1
    refuse r = write_control-Balanced frame_open_ack id (json.open_ack (some r)) s b

pushed-Balanced :
    (r : ℕ) (p : Option StreamError × Stream) (s : Session) → Balanced s → Balanced (pushed r p s)
unfolding pushed
pushed-Balanced r (none, st) s b = update-Balanced r st s b
pushed-Balanced r (some e, st) s b = close_stream-Balanced r s b

data_to-Balanced :
    (o : Option ℕ) (payload : Bytes) (s : Session) → Balanced s → Balanced (data_to o payload s)
unfolding data_to
data_to-Balanced none payload s b = b
data_to-Balanced (some r) payload s b = pushed-Balanced r (push payload (s.store r)) s b

close_write_of-Balanced : (o : Option ℕ) (s : Session) → Balanced s → Balanced (close_write_of o s)
unfolding close_write_of
close_write_of-Balanced none s b = b
close_write_of-Balanced (some r) s b = update-Balanced r _ s b

close_of-Balanced : (o : Option ℕ) (s : Session) → Balanced s → Balanced (close_of o s)
unfolding close_of
close_of-Balanced none s b = b
close_of-Balanced (some r) s b = update-Balanced r _ s b

ack_with-Balanced :
    (is_register : Bool) (o : Option (List AckResult)) (s : Session)
    → Balanced s
    → Balanced (ack_with is_register o s).1
unfolding ack_with
ack_with-Balanced is_register none s b = b
ack_with-Balanced true (some results) s b = same_maps-Balanced s _ refl refl refl refl b
ack_with-Balanced false (some results) s b = same_maps-Balanced s _ refl refl refl refl b

pub dispatch-Balanced :
    (json : Json) (has_handler : Text → Bool) (now : ℕ) (f : Frame) (s : Session)
    → Balanced s
    → Balanced (dispatch json has_handler now f s).1
unfolding dispatch
dispatch-Balanced json has_handler now f s b =
    if_cases Kept (f.frame_type == frame_register_ack) (λ _. ack true)
      (λ _.
        if_cases Kept (f.frame_type == frame_unregister_ack) (λ _. ack false)
          (λ _.
            if_cases Kept (f.frame_type == frame_open)
              (λ _. open_key-Balanced json has_handler f.stream_id (json.read_open f.payload) s b)
              (λ _.
                if_cases Kept (f.frame_type == frame_data)
                  (λ _. data_to-Balanced (stream_at f.stream_id s) f.payload s b)
                  (λ _.
                    if_cases Kept (f.frame_type == frame_close_write)
                      (λ _. close_write_of-Balanced (stream_at f.stream_id s) s b)
                      (λ _.
                        if_cases Kept (f.frame_type == frame_close)
                          (λ _.
                            close_of-Balanced (stream_at f.stream_id s) _
                              (remove_stream-Balanced f.stream_id s b))
                          (λ _.
                            if_cases Kept (f.frame_type == frame_ping)
                              (λ _. write_control-Balanced frame_pong 0 f.payload s b)
                              (λ _.
                                if_cases Kept (f.frame_type == frame_pong)
                                  (λ _. same_maps-Balanced s _ refl refl refl refl b)
                                  (λ _. b))))))))
  where
    ack : (is_register : Bool) → Balanced (handle_ack json is_register f s).1
    ack is_register = ack_with-Balanced is_register (json.read_ack f.payload) s b

pub shutdown-Balanced : (s : Session) → Balanced (shutdown s)
unfolding shutdown find tally
shutdown-Balanced s = record {
  streams_unique = tt;
  keys_unique = tt;
  same_ids = λ id. refl;
  counted = λ k. refl;
  capped = λ k. omega arith;
}

pub write_chunks-Balanced :
    (fuel id : ℕ) (b : Bytes) (s : Session) → Balanced s → Balanced (write_chunks fuel id b s).1
unfolding write_chunks
write_chunks-Balanced zero id b s v = v
write_chunks-Balanced (suc fuel) id b s v =
    if_cases Kept (length b == 0) (λ _. v)
      (λ _.
        if_cases Kept (is_some (write_control frame_data id chunk s).0) (λ _. written)
          (λ _. write_chunks-Balanced fuel id _ _ written))
  where
    chunk : Bytes
    chunk = take (min (length b) max_data_chunk) b

    written : Balanced (write_control frame_data id chunk s).1
    written = write_control-Balanced frame_data id chunk s v
