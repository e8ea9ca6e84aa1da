-- ===== src/Autoroutes/Merged.antt =====
-- Lemmas on MergeRoutes and FilterRoutes (internal/autoroutes/resolver.go, filter.go).
use mutiauk.Base.{
  ◌≡◌, refl, Bool, true, false, ◌&&◌, ◌||◌, not, Option, none, some, List, [], ◌∷◌, ◌++◌, Text,
  bytes, text_discrete, does, is_some, if◌then◌else◌, arith, if_cases, All, filterb, append-nil,
  take_append, drop_append,
}
use mutiauk.Base.GoMap.{contains}
use mutiauk.Route.Types.{Route, IpNet}
use mutiauk.Autoroutes.Rules.{
  Net, DashboardRoute, AutoRoute, is_unsafe, is_text, auto_prefix, has_prefix, extract_origin_id,
  accept, filter_routes, config_set, merge_routes,
}

module _ (net : Net) where
  abbrev pub to_network : Text → Route → Bool
  to_network k r = is_some r.destination && does (text_discrete (net.net_string r.destination) k)

  -- The routes of a list to a network, in order.
  abbrev pub routes_to : Text → List Route → List Route
  routes_to k rs = filterb (to_network k) rs

  routes_to-append :
      (k : Text) (rs qs : List Route) → routes_to k (rs ++ qs) ≡ routes_to k rs ++ routes_to k qs
  routes_to-append k [] qs = refl
  routes_to-append k (r ∷ rs) qs = ground (arith, routes_to-append k rs qs)

  abbrev pub has_route : Text → List Route → Bool
  has_route k [] = false
  has_route k (r ∷ rs) = to_network k r || has_route k rs

  contains-config_set :
      (k : Text) (rs : List Route) → contains text_discrete k (config_set net rs) ≡ has_route k rs
  unfolding contains config_set
  contains-config_set k [] = refl
  contains-config_set k (r ∷ rs) = ground (arith, contains-config_set k rs)

  routes_to_none : (k : Text) (rs : List Route) → has_route k rs ≡ false → routes_to k rs ≡ []
  routes_to_none k [] h = refl
  routes_to_none k (r ∷ rs) h = ground (arith, routes_to_none k rs)

  routes_to_kept :
      (k : Text) (set : List Text) (rs : List Route)
      → routes_to k (
          filterb
            (λ r.
              is_some r.destination
              && not (contains text_discrete (net.net_string r.destination) set))
            rs)
        ≡ (if contains text_discrete k set then [] else routes_to k rs)
  routes_to_kept k set [] = ground arith
  routes_to_kept k set (r ∷ rs) = ground (arith, routes_to_kept k set rs)

  -- In a merge, the routes to a network are the configured ones if there are any, and otherwise the
  -- automatic ones.
  pub routes_to-merge_routes :
      (k : Text) (config auto : List Route)
      → routes_to k (merge_routes net config auto)
        ≡ (if has_route k config then routes_to k config else routes_to k auto)
  unfolding merge_routes
  routes_to-merge_routes k config auto = ground (
    arith,
    routes_to-append k config (
        filterb
          (λ r.
            is_some r.destination
            && not (contains text_discrete (net.net_string r.destination) (config_set net config)))
          auto),
    routes_to_kept k (config_set net config) auto,
    contains-config_set k config,
    routes_to_none k config,
    append-nil (routes_to k config),
  )

  -- An automatic route: enabled, to a network that is not unsafe, and marked with its origin.
  abbrev pub Safe : Text → AutoRoute → Type 0
  Safe tun_name a =
      (is_some a.route.destination ≡ true)
      × (is_unsafe (net.net_string a.route.destination) ≡ false)
      × (a.route.enabled ≡ true)
      × (a.route.interface ≡ tun_name)
      × (extract_origin_id a.route ≡ a.origin_id)

  extract_origin_id-mark :
      (r : Route) (o : Text) → r.comment ≡ auto_prefix ++ o → extract_origin_id r ≡ o
  unfolding extract_origin_id has_prefix
  extract_origin_id-mark r o h =
      ground (arith, h, take_append auto_prefix o, drop_append auto_prefix o)

  accept-Safe :
      (tun_name : Text) (r : DashboardRoute) (o : Option IpNet) (rest : List AutoRoute)
      → All (Safe tun_name) rest
      → All (Safe tun_name) (accept net tun_name r o rest)
  unfolding accept
  accept-Safe tun_name r none rest h = h
  accept-Safe tun_name r (some n) rest h =
      if_cases (All (Safe tun_name)) (is_unsafe (net.net_string (some n))) (λ _. h)
        (λ e. ((refl, e, refl, refl, extract_origin_id-mark _ r.origin_id refl), h))

  -- Every route that passes the filter is enabled, on the tunnel, to a network that is not unsafe,
  -- and marked with its origin.
  pub filter_routes-Safe :
      (tun_name : Text) (rs : List DashboardRoute)
      → All (Safe tun_name) (filter_routes net tun_name rs)
  unfolding filter_routes
  filter_routes-Safe tun_name [] = tt
  filter_routes-Safe tun_name (r ∷ rs) =
      if_cases (All (Safe tun_name)) (is_text r.route_type (bytes "domain") || is_unsafe r.network)
        (λ _. filter_routes-Safe tun_name rs)
        (λ _. accept-Safe tun_name r (net.parse_cidr r.network) _ (filter_routes-Safe tun_name rs))
