-- ===== src/Daemon/Events.antt =====
-- The log of route changes (internal/daemon/route_events.go). The lookup sets are tests on texts,
-- and the text of an error is an argument. The sequence number is not wrapped at 64 bits.
use mutiauk.Base.{
  ℕ, suc, Bool, false, ◌&&◌, Option, none, some, List, [], ◌∷◌, ◌++◌, leb, Text, bytes,
  text_discrete, does, if◌then◌else◌, length, drop,
}
use mutiauk.Route.Types.{IpNet, Route, RouteError}
use mutiauk.Route.Plan.{ApplyFailure, ApplyResult}
use mutiauk.Autoroutes.Rules.{has_prefix, auto_prefix}

abbrev pub route_event_capacity : ℕ
route_event_capacity = 250

pub record RouteEvent : Type 0 where
  pub seq : ℕ
  pub time : ℕ
  pub action : Text
  pub destination : Text
  pub source : Text
  pub comment : Text
  pub error : Text

pub record RouteEventLog : Type 0 where
  pub events : List RouteEvent
  pub seq : ℕ

-- Whether the last event has the action and the destination.
abbrev pub same_event : Text → Text → RouteEvent → Bool
same_event action destination e =
    does (text_discrete e.action action) && does (text_discrete e.destination destination)

unfoldable pub repeats : Text → Text → List RouteEvent → Bool
repeats action destination [] = false
repeats action destination (e ∷ []) = same_event action destination e
repeats action destination (e ∷ f ∷ es) = repeats action destination (f ∷ es)

unfoldable pub record_full :
    ℕ → (action destination source comment error : Text) → RouteEventLog → RouteEventLog
unfolding repeats
record_full now action destination source comment error l =
    let ev : RouteEvent = record {
      seq = suc l.seq;
      time = now;
      action = action;
      destination = destination;
      source = source;
      comment = comment;
      error = error;
    } in
    if repeats action destination l.events then l else record {
      events =
          (if leb route_event_capacity (length l.events) then drop 1 l.events else l.events)
          ++ ev ∷ [];
      seq = suc l.seq;
    }

unfoldable pub classify_route : (Text → Bool) → (Text → Bool) → Text → Text → Text
classify_route auto_set config_set dest comment =
    if auto_set dest
    then bytes "auto"
    else (if config_set dest
        then bytes "config"
        else (if has_prefix comment auto_prefix then bytes "auto" else bytes "manual"))

-- What recordResult is given beside the result.
pub record Sets : Type 0 where
  pub auto_set : Text → Bool
  pub config_set : Text → Bool
  pub skip : Text → Bool
  pub net_string : Option IpNet → Text
  pub error_text : RouteError → Text

abbrev pub dest_of : (Option IpNet → Text) → Option IpNet → Text
dest_of net_string none = []
dest_of net_string (some n) = net_string (some n)

abbrev pub dest_string : Sets → Route → Text
dest_string sets r = dest_of sets.net_string r.destination

-- One route of a result, with the action and the error that its list gives it.
unfoldable pub record_route :
    Sets → ℕ → (action error : Text) → Route → RouteEventLog → RouteEventLog
unfolding record_full classify_route
record_route sets now action error r l =
    let dest = dest_string sets r in
    if sets.skip dest
    then l
    else record_full now action dest (classify_route sets.auto_set sets.config_set dest r.comment)
        r.comment error l

unfoldable pub record_routes : Sets → ℕ → Text → List Route → RouteEventLog → RouteEventLog
unfolding record_route
record_routes sets now action [] l = l
record_routes sets now action (r ∷ rs) l =
    record_routes sets now action rs (record_route sets now action [] r l)

unfoldable pub record_failures : Sets → ℕ → List ApplyFailure → RouteEventLog → RouteEventLog
unfolding record_route
record_failures sets now [] l = l
record_failures sets now (f ∷ fs) l = record_failures sets now fs (
    record_route sets now (if f.removal then bytes "failed-remove" else bytes "failed-add")
      (sets.error_text f.cause) f.route l)

-- recordResult, of a result that is not nil.
unfoldable pub record_result : Sets → ℕ → ApplyResult → RouteEventLog → RouteEventLog
unfolding record_routes record_failures
record_result sets now res l = record_failures sets now res.failed (
    record_routes sets now (bytes "added") res.added
      (record_routes sets now (bytes "removed") res.removed l))
