-- ===== src/Daemon/EventLog.antt =====
-- The invariant of the route event log (internal/daemon/route_events.go).
use mutiauk.Base.{
  ℕ, suc, ◌≡◌, ◌≤◌, refl, false, List, [], ◌∷◌, ◌++◌, leb, Text, bytes, length, drop, arith,
  if_cases, length-append, length-drop,
}
use mutiauk.Route.Types.{Route}
use mutiauk.Route.Plan.{ApplyFailure, ApplyResult}
use mutiauk.Daemon.Events.{
  RouteEvent, RouteEventLog, route_event_capacity, same_event, repeats, record_full, Sets,
  dest_string, record_route, record_routes, record_failures, record_result,
}

-- The events are numbered one after the other, from the first number's successor to the last.
abbrev pub Counted : ℕ → List RouteEvent → ℕ → Type 0
Counted first [] last = first ≡ last
Counted first (e ∷ es) last = (e.seq ≡ suc first) × Counted (suc first) es last

abbrev pub Differs : RouteEvent → List RouteEvent → Type 0
Differs e [] = Unit
Differs e (f ∷ es) = same_event f.action f.destination e ≡ false

-- No two neighbours have the same action and destination.
abbrev pub Apart : List RouteEvent → Type 0
Apart [] = Unit
Apart (e ∷ es) = Differs e es × Apart es

pub record Sound (l : RouteEventLog) : Type 0 where
  pub bounded : length l.events ≤ route_event_capacity
  pub first : ℕ
  pub counted : Counted first l.events l.seq
  pub apart : Apart l.events

Counted-append :
    (first last : ℕ) (es : List RouteEvent) (e : RouteEvent)
    → Counted first es last
    → e.seq ≡ suc last
    → Counted first (es ++ e ∷ []) (suc last)
Counted-append first last [] e h k = ground arith
Counted-append first last (f ∷ es) e h k = (h.0, Counted-append (suc first) last es e h.1 k)

Apart-append :
    (es : List RouteEvent) (e : RouteEvent)
    → Apart es
    → repeats e.action e.destination es ≡ false
    → Apart (es ++ e ∷ [])
unfolding repeats
Apart-append [] e h k = (tt, tt)
Apart-append (f ∷ []) e h k = (k, (tt, tt))
Apart-append (f ∷ g ∷ es) e h k = (h.0, Apart-append (g ∷ es) e h.1 k)

-- The log without its oldest event.
drop-Counted :
    (first last : ℕ) (es : List RouteEvent)
    → Counted first es last
    → (n : ℕ) × Counted n (drop 1 es) last
drop-Counted first last [] h = (first, h)
drop-Counted first last (e ∷ es) h = (suc first, h.1)

drop-Apart :
    (es : List RouteEvent) (action destination : Text)
    → Apart es
    → repeats action destination es ≡ false
    → Apart (drop 1 es) × (repeats action destination (drop 1 es) ≡ false)
unfolding repeats
drop-Apart [] action destination h k = (tt, refl)
drop-Apart (e ∷ []) action destination h k = (tt, refl)
drop-Apart (e ∷ f ∷ es) action destination h k = (h.1, k)

record_full-Sound :
    (now : ℕ) (action destination source comment error : Text) (l : RouteEventLog)
    → Sound l
    → Sound (record_full now action destination source comment error l)
unfolding record_full
record_full-Sound now action destination source comment error l s =
    if_cases Sound (repeats action destination l.events) (λ _. s)
      (λ new.
        if_cases (λ es. Sound (record { events = es ++ ev ∷ []; seq = suc l.seq }))
          (leb route_event_capacity (length l.events))
          (λ full. record {
            bounded = omega (
              arith,
              s.bounded,
              length-append (drop 1 l.events) (ev ∷ []),
              length-drop 1 l.events,
            );
            first = (drop-Counted s.first l.seq l.events s.counted).0;
            counted =
                Counted-append _ l.seq (drop 1 l.events) ev
                  (drop-Counted s.first l.seq l.events s.counted).1 refl;
            apart =
                Apart-append (drop 1 l.events) ev
                  (drop-Apart l.events action destination s.apart new).0
                  (drop-Apart l.events action destination s.apart new).1;
          })
          (λ room. record {
            bounded = ground (arith, length-append l.events (ev ∷ []));
            first = s.first;
            counted = Counted-append s.first l.seq l.events ev s.counted refl;
            apart = Apart-append l.events ev s.apart new;
          }))
  where
    ev : RouteEvent
    ev = record {
      seq = suc l.seq;
      time = now;
      action = action;
      destination = destination;
      source = source;
      comment = comment;
      error = error;
    }

record_route-Sound :
    (sets : Sets) (now : ℕ) (action error : Text) (r : Route) (l : RouteEventLog)
    → Sound l
    → Sound (record_route sets now action error r l)
unfolding record_route
record_route-Sound sets now action error r l s =
    if_cases Sound (sets.skip (dest_string sets r)) (λ _. s)
      (λ _. record_full-Sound now action (dest_string sets r) _ r.comment error l s)

record_routes-Sound :
    (sets : Sets) (now : ℕ) (action : Text) (rs : List Route) (l : RouteEventLog)
    → Sound l
    → Sound (record_routes sets now action rs l)
unfolding record_routes
record_routes-Sound sets now action [] l s = s
record_routes-Sound sets now action (r ∷ rs) l s =
    record_routes-Sound sets now action rs _ (record_route-Sound sets now action [] r l s)

record_failures-Sound :
    (sets : Sets) (now : ℕ) (fs : List ApplyFailure) (l : RouteEventLog)
    → Sound l
    → Sound (record_failures sets now fs l)
unfolding record_failures
record_failures-Sound sets now [] l s = s
record_failures-Sound sets now (f ∷ fs) l s =
    record_failures-Sound sets now fs _ (record_route-Sound sets now _ _ f.route l s)

-- A log of at most 250 events that are numbered without a gap, the last with the log's number, and
-- of which no two neighbours have the same action and destination, stays so when a result is
-- recorded.
pub record_result-Sound :
    (sets : Sets) (now : ℕ) (res : ApplyResult) (l : RouteEventLog)
    → Sound l
    → Sound (record_result sets now res l)
unfolding record_result
record_result-Sound sets now res l s = record_failures-Sound sets now res.failed _ (
    record_routes-Sound sets now (bytes "added") res.added _
      (record_routes-Sound sets now (bytes "removed") res.removed l s))
