-- ===== src/Autoroutes/Rules.antt =====
-- The functions of internal/autoroutes (filter.go, resolver.go, snapshot.go). The functions of
-- package net are the argument `Net`.
use mutiauk.Base.{
  ℕ, Bool, true, false, ◌&&◌, ◌||◌, not, Option, none, some, List, [], ◌∷◌, ◌++◌, ltb, Bytes, Text,
  bytes, text_discrete, does, is_some, if◌then◌else◌, filterb, length, take, drop,
}
use mutiauk.Base.GoMap.{contains, find, put, values}
use mutiauk.Route.Types.{ℤ, pos, IpNet, Route}

pub record Net : Type 0 where
  pub net_string : Option IpNet → Text
  pub parse_cidr : Text → Option IpNet
  pub net_contains : IpNet → Bytes → Bool
  pub ones : IpNet → ℕ

pub record DashboardRoute : Type 0 where
  pub network : Text
  pub route_type : Text
  pub origin : Text
  pub origin_id : Text
  pub hop_count : ℤ
  pub path_display : List Text
  pub path_ids : List Text

pub record AutoRoute : Type 0 where
  pub route : Route
  pub origin_id : Text

pub record PathResult : Type 0 where
  pub network : Text
  pub origin : Text
  pub origin_id : Text
  pub path_display : List Text
  pub path_ids : List Text
  pub hop_count : ℤ

abbrev pub unsafe_routes : List Text
unsafe_routes =
    bytes "0.0.0.0/0"
    ∷ bytes "::/0"
    ∷ bytes "127.0.0.0/8"
    ∷ bytes "::1/128"
    ∷ bytes "169.254.0.0/16"
    ∷ bytes "fe80::/10"
    ∷ bytes "224.0.0.0/4"
    ∷ bytes "ff00::/8"
    ∷ bytes "255.255.255.255/32"
    ∷ []

abbrev pub is_unsafe : Text → Bool
is_unsafe s = contains text_discrete s unsafe_routes

abbrev pub is_text : Text → Text → Bool
is_text s t = does (text_discrete s t)

-- `s < t` on strings, which compares bytes.
unfoldable pub text_ltb : Text → Text → Bool
text_ltb s [] = false
text_ltb [] (b ∷ t) = true
text_ltb (a ∷ s) (b ∷ t) =
    let rest = text_ltb s t in if ltb a b then true else (if ltb b a then false else rest)

-- strings.HasPrefix and TrimPrefix
unfoldable pub has_prefix : Text → Text → Bool
has_prefix s prefix = is_text (take (length prefix) s) prefix

abbrev pub auto_prefix : Text
auto_prefix = bytes "autoroute:"

unfoldable pub extract_origin_id : Route → Text
unfolding has_prefix
extract_origin_id r =
    if has_prefix r.comment auto_prefix then drop (length auto_prefix) r.comment else []

module _ (net : Net) where
  abbrev pub key : AutoRoute → Text
  key a = net.net_string a.route.destination

  unfoldable pub accept : Text → DashboardRoute → Option IpNet → List AutoRoute → List AutoRoute
  accept tun_name r none rest = rest
  accept tun_name r (some ip_net) rest =
      if is_unsafe (net.net_string (some ip_net))
      then rest
      else record {
        route = record {
          destination = some ip_net;
          gateway = [];
          interface = tun_name;
          metric = pos 0;
          comment = auto_prefix ++ r.origin_id;
          enabled = true;
        };
        origin_id = r.origin_id;
      }
        ∷ rest

  unfoldable pub filter_routes : Text → List DashboardRoute → List AutoRoute
  unfolding accept
  filter_routes tun_name [] = []
  filter_routes tun_name (r ∷ rs) =
      let rest = filter_routes tun_name rs in
      if is_text r.route_type (bytes "domain") || is_unsafe r.network
      then rest
      else accept tun_name r (net.parse_cidr r.network) rest

  -- ResolveConflicts: the map, then its values sorted by destination.
  unfoldable pub keep_smaller :
      AutoRoute → Option AutoRoute → List (Text × AutoRoute) → List (Text × AutoRoute)
  unfolding text_ltb
  keep_smaller r none m = put text_discrete (key r) r m
  keep_smaller r (some existing) m =
      if text_ltb r.origin_id existing.origin_id then put text_discrete (key r) r m else m

  unfoldable pub by_network : List AutoRoute → List (Text × AutoRoute) → List (Text × AutoRoute)
  unfolding keep_smaller
  by_network [] m = m
  by_network (r ∷ rs) m = by_network rs (keep_smaller r (find text_discrete (key r) m) m)

  unfoldable pub insert : AutoRoute → List AutoRoute → List AutoRoute
  insert r [] = r ∷ []
  insert r (q ∷ rs) =
      let rest = insert r rs in if text_ltb (key q) (key r) then q ∷ rest else r ∷ q ∷ rs

  unfoldable pub sort : List AutoRoute → List AutoRoute
  unfolding insert
  sort [] = []
  sort (r ∷ rs) = insert r (sort rs)

  unfoldable pub routes_of : List AutoRoute → List Route
  routes_of [] = []
  routes_of (a ∷ rs) = a.route ∷ routes_of rs

  unfoldable pub resolve_conflicts : List AutoRoute → List Route
  unfolding by_network sort routes_of
  resolve_conflicts rs = routes_of (sort (values (by_network rs [])))

  unfoldable pub config_set : List Route → List Text
  config_set [] = []
  config_set (r ∷ rs) =
      let rest = config_set rs in
      if is_some r.destination then net.net_string r.destination ∷ rest else rest

  unfoldable pub merge_routes : List Route → List Route → List Route
  unfolding config_set
  merge_routes config auto =
      config
      ++ filterb
          (λ r.
            is_some r.destination
            && not (contains text_discrete (net.net_string r.destination) (config_set config)))
          auto

  -- lookupPathInDashboard; `best` is the best match so far with its prefix length.
  unfoldable pub longer :
      DashboardRoute
      → Bytes
      → Option IpNet
      → Option (DashboardRoute × ℕ)
      → Option (DashboardRoute × ℕ)
  longer r ip none best = best
  longer r ip (some ip_net) none =
      if net.net_contains ip_net ip then some (r, net.ones ip_net) else none
  longer r ip (some ip_net) (some (q, n)) =
      if net.net_contains ip_net ip && ltb n (net.ones ip_net)
      then some (r, net.ones ip_net)
      else some (q, n)

  unfoldable pub best_match :
      List DashboardRoute → Bytes → Option (DashboardRoute × ℕ) → Option (DashboardRoute × ℕ)
  unfolding longer
  best_match [] ip best = best
  best_match (r ∷ rs) ip best = best_match rs ip (
      if is_text r.route_type (bytes "cidr")
      then longer r ip (net.parse_cidr r.network) best
      else best)

  unfoldable pub path_of : Option (DashboardRoute × ℕ) → Option PathResult
  path_of none = none
  path_of (some (r, n)) = some (record {
    network = r.network;
    origin = r.origin;
    origin_id = r.origin_id;
    path_display = r.path_display;
    path_ids = r.path_ids;
    hop_count = r.hop_count;
  })

  unfoldable pub lookup_path : List DashboardRoute → Bytes → Option PathResult
  unfolding best_match path_of
  lookup_path routes ip = path_of (best_match routes ip none)
