-- ===== src/Autoroutes/Samples.antt =====
-- The theorems on a small dashboard.
use mutiauk.Base.{
  ◌≡◌, refl, true, Option, none, some, List, [], ◌∷◌, Text, bytes, text_discrete, does, All,
  filterb, length, take,
}
use mutiauk.Route.Types.{pos, IpNet, Route}
use mutiauk.Autoroutes.Rules.{Net, DashboardRoute, AutoRoute, filter_routes, best_match}
use mutiauk.Autoroutes.Longest.{covers, ones_of, AtLeast, Matched, best_match_exact}

-- Networks are written as their prefix.
abbrev text_of : Option IpNet → Text
text_of none = bytes "<nil>"
text_of (some n) = n.ip

abbrev net : Net
net = record {
  net_string = text_of;
  parse_cidr = λ s. some (record { ip = s; mask = s });
  net_contains = λ n ip. does (text_discrete (take (length n.ip) ip) n.ip);
  ones = λ n. length n.ip;
}

abbrev offer : Text → Text → DashboardRoute
offer network origin = record {
  network = network;
  route_type = bytes "cidr";
  origin = origin;
  origin_id = origin;
  hop_count = pos 1;
  path_display = [];
  path_ids = [];
}

abbrev offers : List DashboardRoute
offers =
    offer (bytes "10.") (bytes "b")
    ∷ offer (bytes "10.1.") (bytes "a")
    ∷ offer (bytes "10.") (bytes "a")
    ∷ offer (bytes "::/0") (bytes "a")
    ∷ []

abbrev autos : List AutoRoute
autos = filter_routes net (bytes "tun0") offers

abbrev route_to : Text → Route
route_to s = record {
  destination = some (record { ip = s; mask = s });
  gateway = [];
  interface = [];
  metric = pos 0;
  comment = [];
  enabled = true;
}

best_match_exact_example :
    Matched net
      (λ r. r.route_type ≡ bytes "cidr")
      (bytes "10.1.7.7")
      (best_match net offers (bytes "10.1.7.7") none)
    × All
        (λ r.
          AtLeast net
            (ones_of net (net.parse_cidr r.network))
            (best_match net offers (bytes "10.1.7.7") none))
        (filterb (covers net (bytes "10.1.7.7")) offers)
best_match_exact_example =
    best_match_exact net (λ r. r.route_type ≡ bytes "cidr") offers (bytes "10.1.7.7")
      (refl, (refl, (refl, (refl, tt))))
