-- ===== src/Daemon/Samples.antt =====
-- The theorems on small results.
use mutiauk.Base.{
  ℕ, refl, Bool, true, false, Option, none, some, [], ◌∷◌, Bytes, Text, bytes, text_discrete, does,
  arith,
}
use mutiauk.Route.Types.{pos, IpNet, Route, link_not_found}
use mutiauk.Route.Plan.{ApplyResult}
use mutiauk.Daemon.Events.{RouteEventLog, Sets, record_result}
use mutiauk.Daemon.EventLog.{Sound, record_result-Sound}

abbrev text_of : Option IpNet → Text
text_of none = []
text_of (some n) = n.ip

abbrev sets : Sets
sets = record {
  auto_set = λ t. false;
  config_set = λ t. false;
  skip = λ t. false;
  net_string = text_of;
  error_text = λ e. bytes "no link";
}

abbrev route_to : ℕ → Route
route_to n = record {
  destination = some (record { ip = n ∷ []; mask = [] });
  gateway = [];
  interface = [];
  metric = pos 0;
  comment = [];
  enabled = true;
}

abbrev result : ApplyResult
result = record {
  added = route_to 1 ∷ [];
  removed = route_to 2 ∷ route_to 2 ∷ [];
  failed = record { route = route_to 3; removal = false; cause = link_not_found } ∷ [];
}

abbrev empty_log : RouteEventLog
empty_log = record { events = []; seq = 7 }

record_result-Sound_example : Sound (record_result sets 5 result empty_log)
record_result-Sound_example =
    record_result-Sound sets 5 result empty_log
      (record { bounded = omega arith; first = 7; counted = refl; apart = tt })

abbrev covers : IpNet → Bytes → Bool
covers n ip = does (text_discrete n.ip ip)
