-- ===== src/Expose/Opening.antt =====
-- handleOpen, branch by branch (internal/expose/session.go).
use mutiauk.Base.{
  ℕ, ◌<◌, ◌≡◌, refl, true, not, Bool, Option, none, some, leb, is_some, Text, ℕ_discrete, arith,
  if_cases,
}
use mutiauk.Base.GoMap.{find, delete, find-put_self, find-delete}
use mutiauk.Expose.Frame.{frame_open_ack}
use mutiauk.Expose.Session.{
  Session, SessionError, Refusal, bad_open_payload, no_handler, duplicate_stream_id, cap_reached,
  Json, key_count, stream_at, write_open_ack, remove_stream, drop_key,
}
use mutiauk.Expose.Dispatch.{register, opened, open_key}
use mutiauk.Expose.Bookkeeping.{write_control_keeps}

abbrev Outcome : Type 0
Outcome = Option SessionError × Session

-- An OPEN is admitted when its key has a handler, its id is free and its key is below the limit.
abbrev pub Admissible : (Text → Bool) → ℕ → Option Text → Session → Type 0
Admissible has_handler id none s = ⊥
Admissible has_handler id (some k) s =
    (has_handler k ≡ true) × (stream_at id s ≡ none) × (key_count k s < s.max_streams_per_key)

stream_at-remove : (id : ℕ) (s : Session) → stream_at id (remove_stream id s) ≡ none
unfolding remove_stream drop_key
stream_at-remove id s =
    if_cases (λ t. stream_at id t ≡ none) (is_some (stream_at id s))
      (λ _. dropped (find ℕ_discrete id s.key_by_id)) (λ free. ground (arith, free))
  where
    dropped :
        (o : Option Text)
        → stream_at id (drop_key id o (record s { streams = delete ℕ_discrete id s.streams }))
          ≡ none
    dropped none = ground (arith, find-delete ℕ_discrete id id s.streams)
    dropped (some k) = ground (arith, find-delete ℕ_discrete id id s.streams)

-- If the acknowledgement of an OPEN could not be written, the stream is not left behind.
opened_failed :
    (id r : ℕ) (p : Outcome) (e : SessionError)
    → (opened id r p).0 ≡ some e
    → stream_at id (opened id r p).1 ≡ none
unfolding opened
opened_failed id r (none, s) e h = cc
opened_failed id r (some x, s) e h = stream_at-remove id s

-- If the handling of an OPEN returns an error, no stream is left under its id.
pub open_key_failed :
    (json : Json) (has_handler : Text → Bool) (id : ℕ) (o : Option Text) (s : Session)
    (e : SessionError)
    → (open_key json has_handler id o s).0 ≡ some e
    → stream_at id (open_key json has_handler id o s).1 ≡ none
unfolding open_key
open_key_failed json has_handler id none s e h = cc
open_key_failed json has_handler id (some k) s e h =
    ground (arith, opened_failed id s.next_ref (write_open_ack json id none (register id k s)) e)

abbrev pub SameMaps : Session → Session → Type 0
SameMaps s t = (t.streams ≡ s.streams) × (t.key_by_id ≡ s.key_by_id) × (t.key_counts ≡ s.key_counts)

ack-SameMaps :
    (json : Json) (id : ℕ) (o : Option Refusal) (s : Session)
    → SameMaps s (write_open_ack json id o s).1
unfolding write_open_ack
ack-SameMaps json id o s =
    write_control_keeps (SameMaps s) frame_open_ack id (json.open_ack o) s (λ w. (refl, refl, refl))

-- An OPEN that is not admissible is refused: the streams, their keys and their counters stay, and
-- the session goes on.
pub open_key_refused :
    (json : Json) (has_handler : Text → Bool) (id : ℕ) (o : Option Text) (s : Session)
    → ¬ Admissible has_handler id o s
    → ((open_key json has_handler id o s).0 ≡ none)
      × SameMaps s (open_key json has_handler id o s).1
unfolding open_key
open_key_refused json has_handler id none s h =
    (refl, ack-SameMaps json id (some bad_open_payload) s)
open_key_refused json has_handler id (some k) s h =
    if_cases Kept (not (has_handler k)) (λ _. refuse (no_handler k))
      (λ handled.
        if_cases Kept (is_some (stream_at id s)) (λ _. refuse duplicate_stream_id)
          (λ free.
            if_cases Kept (leb s.max_streams_per_key (key_count k s))
              (λ _. refuse (cap_reached s.max_streams_per_key))
              (λ room. absurd (h (ground arith, ground arith, ground arith)))))
  where
    Kept : Outcome → Type 0
    Kept p = (p.0 ≡ none) × SameMaps s p.1

    refuse : (r : Refusal) → Kept (none, (write_open_ack json id (some r) s).1)
    refuse r = (refl, ack-SameMaps json id (some r) s)

opened_ok :
    (id r : ℕ) (p : Outcome)
    → (opened id r p).0 ≡ none
    → stream_at id (opened id r p).1 ≡ stream_at id p.1
unfolding opened
opened_ok id r (none, s) h = refl
opened_ok id r (some x, s) h = cc

-- An admissible OPEN whose acknowledgement is written puts a new stream under its id.
pub open_key_admitted :
    (json : Json) (has_handler : Text → Bool) (id : ℕ) (o : Option Text) (s : Session)
    → Admissible has_handler id o s
    → (open_key json has_handler id o s).0 ≡ none
    → stream_at id (open_key json has_handler id o s).1 ≡ some s.next_ref
unfolding open_key register
open_key_admitted json has_handler id none s a h = absurd a
open_key_admitted json has_handler id (some k) s a h = ground (
  arith,
  opened_ok id s.next_ref (write_open_ack json id none (register id k s)),
  ack-SameMaps json id none (register id k s),
  find-put_self ℕ_discrete id s.next_ref s.streams,
)
