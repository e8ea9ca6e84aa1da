-- ===== src/Expose/Run.antt =====
-- A session over any sequence of events, from its start (internal/expose/session.go).
use mutiauk.Base.{ℕ, length, refl, Bool, Option, List, [], ◌∷◌, Text, Bytes, arith, if_cases}
use mutiauk.Base.Conn.{Conn, Result, ok, err}
use mutiauk.Base.GoMap.{find}
use mutiauk.Expose.Frame.{Frame, FrameError, decode_frame, frame_register, frame_unregister}
use mutiauk.Expose.Stream.{read}
use mutiauk.Expose.Session.{
  Session, SessionError, Json, new_session, update, close_stream, shutdown, write_data,
}
use mutiauk.Expose.Dispatch.{received, receive, send_register, send_unregister, stream_write}
use mutiauk.Expose.Invariant.{
  same_maps-Balanced, update-Balanced, write_control-Balanced, close_stream-Balanced,
  dispatch-Balanced, shutdown-Balanced, write_chunks-Balanced,
}
use mutiauk.Expose.Bookkeeping.{Balanced, tally}

-- What happens to a session: a message arrives, a handler or its server closes a stream, reads from
-- it or writes to it, the owner registers or unregisters keys, or the session shuts down.
pub data Event : Type 0 where
  arrives : (now : ℕ) → Bytes → Event
  closes : ℕ → Event
  reads : (now r n : ℕ) → Event
  writes : (r : ℕ) → Bytes → Event
  registers unregisters : (cb : ℕ) → Bytes → Event
  shuts_down : Event

pub react : Json → (Text → Bool) → Event → Session → Session
react json has_handler (arrives now message) s = (receive json has_handler now message s).1
react json has_handler (closes r) s = close_stream r s
react json has_handler (reads now r n) s = update r (read now n (s.store r)).1 s
react json has_handler (writes r b) s = (stream_write r b s).1
react json has_handler (registers cb body) s = (send_register cb body s).1
react json has_handler (unregisters cb body) s = (send_unregister cb body s).1
react json has_handler shuts_down s = shutdown s

pub run : Json → (Text → Bool) → List Event → Session → Session
unfolding react
run json has_handler [] s = s
run json has_handler (e ∷ es) s = run json has_handler es (react json has_handler e s)

received-Balanced :
    (json : Json) (has_handler : Text → Bool) (now : ℕ) (r : Result FrameError Frame) (s : Session)
    → Balanced s
    → Balanced (received json has_handler now r s).1
unfolding received
received-Balanced json has_handler now (err e) s b = b
received-Balanced json has_handler now (ok f) s b = dispatch-Balanced json has_handler now f s b

react-Balanced :
    (json : Json) (has_handler : Text → Bool) (e : Event) (s : Session)
    → Balanced s
    → Balanced (react json has_handler e s)
unfolding react receive stream_write write_data send_register send_unregister
react-Balanced json has_handler (arrives now message) s b =
    received-Balanced json has_handler now (decode_frame message) s b
react-Balanced json has_handler (closes r) s b = close_stream-Balanced r s b
react-Balanced json has_handler (reads now r n) s b = update-Balanced r _ s b
react-Balanced json has_handler (writes r p) s b =
    if_cases {A = Option (Option SessionError) × Session} (λ p. Balanced p.1) (s.store r).closed
      (λ _. b) (λ _. write_chunks-Balanced (length p) (s.store r).id p s b)
react-Balanced json has_handler (registers cb body) s b =
    write_control-Balanced frame_register 0 body _ (same_maps-Balanced s _ refl refl refl refl b)
react-Balanced json has_handler (unregisters cb body) s b =
    write_control-Balanced frame_unregister 0 body _ (same_maps-Balanced s _ refl refl refl refl b)
react-Balanced json has_handler shuts_down s b = shutdown-Balanced s

run-Balanced :
    (json : Json) (has_handler : Text → Bool) (es : List Event) (s : Session)
    → Balanced s
    → Balanced (run json has_handler es s)
unfolding run
run-Balanced json has_handler [] s b = b
run-Balanced json has_handler (e ∷ es) s b =
    run-Balanced json has_handler es _ (react-Balanced json has_handler e s b)

-- From a new session, whatever arrives and whatever the handlers do: the session knows the key of
-- exactly the streams that it has, the counter of each key is the number of its streams, and no key
-- has more streams than the limit.
pub run-new_session-Balanced :
    (json : Json) (has_handler : Text → Bool) (wire : Conn) (max_streams max_buffered now : ℕ)
    (es : List Event)
    → Balanced (run json has_handler es (new_session wire max_streams max_buffered now))
unfolding new_session find tally
run-new_session-Balanced json has_handler wire max_streams max_buffered now es =
    run-Balanced json has_handler es _ (record {
      streams_unique = tt;
      keys_unique = tt;
      same_ids = λ id. refl;
      counted = λ k. refl;
      capped = λ k. omega arith;
    })
